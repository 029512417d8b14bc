-- ===== src/Blocks/Recipients.antt =====
-- lib/block_manager.js, `getOrCreateBalanceId`: the rows of a recipient and the cached ids.
use nodejs_pool.Prelude.{
  ℕ, ◌≤◌, ◌≡◌, refl, sym, ap, ◌∙◌, subst, Bool, true, false, ◌&&◌, Option, none, some, List, [],
  ◌∷◌, ◌++◌, String, str_eq, str_eq_iff, length, length-append, lookup, assign, keep_if, arith,
  Bool-cases, inl, inr, All,
}
use nodejs_pool.Payments.Store.{Balance}
use nodejs_pool.Blocks.Runtime.{World, Outcome, ok, M}
use nodejs_pool.Blocks.Credits.{same_id, is_balance_of}
use nodejs_pool.Blocks.Crediting.{count_id}
use nodejs_pool.Blocks.Keeps.{count_id-append}
use nodejs_pool.Blocks.Bounded.{keep_if-append}

-- The ids of the cache have rows, and no two rows are of the same recipient.
pub record IsFound (w : World) : Type 0 where
  pub cached : All (λ e. 1 ≤ count_id e.1 w.tables.balances) w.balance_id_cache
  pub alone :
      (address pool_type : String) (id : Option String)
      → length (keep_if (is_balance_of address pool_type id) w.tables.balances) ≤ 1

-- An id with a row, found by a step that loses none.
abbrev pub Finds : World → Outcome ℕ × World → Type 0
Finds w r =
    (i : ℕ) × (r.0 ≡ ok i)
    × (1 ≤ count_id i r.1.tables.balances)
    × IsFound r.1
    × ((j : ℕ) → count_id j w.tables.balances ≤ count_id j r.1.tables.balances)

pub lookup-All :
    (N : ℕ → Type 0) (k : String) (m : List (String × ℕ)) (i : ℕ)
    → All (λ e. N e.1) m
    → lookup k m ≡ some i
    → N i
unfolding lookup
lookup-All N k [] i a e = absurd (cc e)
lookup-All N k ((l, j) ∷ m) i (p, a) e = elim (Bool-cases (str_eq k l)) [
  | inl q ↦ let same : j ≡ i = cc (rw q at e) in subst N same p
  | inr q ↦ lookup-All N k m i a (rw q at e)
]

pub All-assign :
    (N : ℕ → Type 0) (k : String) (i : ℕ) (m : List (String × ℕ))
    → N i
    → All (λ e. N e.1) m
    → All (λ e. N e.1) (assign k i m)
unfolding assign
All-assign N k i [] p a = (p, tt)
All-assign N k i ((l, j) ∷ m) p (q, a) = elim (Bool-cases (str_eq k l)) [
  | inl e ↦ rw e (p, a)
  | inr e ↦ rw e (q, All-assign N k i m p a)
]

pub kept_row :
    (p : Balance → Bool) (bs : List Balance) (b : Balance) (l : List Balance)
    → keep_if p bs ≡ b ∷ l
    → 1 ≤ count_id b.id bs
kept_row p [] b l e = absurd (cc e)
kept_row p (c ∷ bs) b l e = elim (Bool-cases (p c)) [
  | inl q ↦ let same : c.id ≡ b.id = cc (rw q at e) in ground (arith, same)
  | inr q ↦ ground (arith, kept_row p bs b l (rw q at e))
]

same_id-eq : (a b : Option String) → same_id a b ≡ true → a ≡ b
same_id-eq none none h = refl
same_id-eq none (some b) h = absurd (cc h)
same_id-eq (some a) none h = absurd (cc h)
same_id-eq (some a) (some b) h = ap some ((str_eq_iff a b).0 h)

and_true : (a b : Bool) → a && b ≡ true → (a ≡ true) × (b ≡ true)
and_true true b e = (refl, e)
and_true false b e = absurd (cc e)

same_recipient :
    (a y a' y' : String) (i i' : Option String) (b : Balance)
    → b.payment_address ≡ a
    → b.payment_id ≡ i
    → b.pool_type ≡ y
    → is_balance_of a' y' i' b ≡ true
    → (a ≡ a') × (y ≡ y') × (i ≡ i')
unfolding is_balance_of
same_recipient a y a' y' i i' b x z t h =
    let (p, q) = and_true (str_eq b.payment_address a') _ h in
    let (r, s) = and_true (same_id b.payment_id i') _ q in
    (
      sym x ∙ (str_eq_iff b.payment_address a').0 p,
      sym t ∙ (str_eq_iff b.pool_type y').0 s,
      sym z ∙ same_id-eq b.payment_id i' r,
    )

pub alone_after :
    (bs : List Balance) (b : Balance) (a y a' y' : String) (i i' : Option String)
    → b.payment_address ≡ a
    → b.payment_id ≡ i
    → b.pool_type ≡ y
    → keep_if (is_balance_of a y i) bs ≡ []
    → length (keep_if (is_balance_of a' y' i') bs) ≤ 1
    → length (keep_if (is_balance_of a' y' i') (bs ++ b ∷ [])) ≤ 1
alone_after bs b a y a' y' i i' x z t nobody le =
    let split = keep_if-append (is_balance_of a' y' i') bs (b ∷ []) in
    let n =
      length-append (keep_if (is_balance_of a' y' i') bs)
        (keep_if (is_balance_of a' y' i') (b ∷ [])) in
    elim (Bool-cases (is_balance_of a' y' i' b)) [
      | inl q ↦
          let (e, g, h) = same_recipient a y a' y' i i' b x z t q in
          let none_here : keep_if (is_balance_of a' y' i') bs ≡ [] = cc (nobody, e, g, h) in
          let one : length (keep_if (is_balance_of a' y' i') (b ∷ [])) ≡ 1 = rw q refl in
          omega (arith, ap length split, n, ap length none_here, one)
      | inr q ↦
          let none_new : length (keep_if (is_balance_of a' y' i') (b ∷ [])) ≡ 0 = rw q refl in
          omega (arith, ap length split, n, none_new, le)
    ]

pub own_id : (i : ℕ) (bs : List Balance) (b : Balance) → b.id ≡ i → 1 ≤ count_id i (bs ++ b ∷ [])
own_id i bs b e = ground (arith, count_id-append i bs (b ∷ []), e)

pub All-cached :
    (M N : ℕ → Type 0) (m : List (String × ℕ))
    → ((i : ℕ) → M i → N i)
    → All (λ e. M e.1) m
    → All (λ e. N e.1) m
All-cached M N [] f a = tt
All-cached M N ((k, i) ∷ m) f (p, a) = (f i p, All-cached M N m f a)
