-- ===== src/Blocks/Keeps.antt =====
-- lib/block_manager.js: looking up the balances of a payout pays nothing.
use nodejs_pool.Prelude.{
  ℕ, suc, ◌+◌, ◌<◌, ◌≡◌, refl, sym, ap, ◌∙◌, subst, Bool, true, false, Option, none, some, List, [],
  ◌∷◌, ◌++◌, String, sum_by, sum_by-append, arith, inl, inr, All, lookup, keep_if,
}
use nodejs_pool.Payments.Store.{Balance}
use nodejs_pool.Blocks.Runtime.{Env, World, ok, M, pure, ◌>>=◌, query}
use nodejs_pool.Blocks.Credits.{
  PaymentRow, is_balance_of, insert_balance, only_row, remember, load_rows, inserted, key,
  is_duplicate, after_race, reload_or_insert, insert_or_reload, create_or_take, cached_or_loaded,
  balance_id, get_or_create_balance_id, Credit, resolve_ids, resolve_balance_credits, aggregate,
}
use nodejs_pool.Blocks.Crediting.{
  IsKeyed, IsReady, count_id, amounts, credits, IsMap, Outcome-cases,
}
use nodejs_pool.Blocks.Conserves.{aggregate-IsMap}

-- The step pays nothing.
abbrev pub IsKept : World → World → Type 0
IsKept w v =
    (amounts v.tables.balances ≡ amounts w.tables.balances)
    × (v.tables.paid_blocks ≡ w.tables.paid_blocks)
    × (v.tables.block_balances ≡ w.tables.block_balances)
    × (IsReady w.tables → IsReady v.tables)

pub IsKept-refl : (w : World) → IsKept w w
IsKept-refl w = (refl, refl, refl, λ r. r)

pub IsKept-trans : (u v w : World) → IsKept u v → IsKept v w → IsKept u w
IsKept-trans u v w a b = (b.0 ∙ a.0, b.1 ∙ a.1, b.2 ∙ a.2, λ r. b.3 (a.3 r))

-- An operation that pays nothing.
pub Keeps : {A : Type 0} → M A → Type 0
Keeps m = (w : World) → IsKept w (m w).1

pub Keeps-at : {A : Type 0} (m : M A) (w : World) → Keeps m → IsKept w (m w).1
unfolding Keeps
Keeps-at m w k = k w

Keeps-pure : {A : Type 0} (a : A) → Keeps (pure a)
unfolding Keeps
Keeps-pure a w = IsKept-refl w

Keeps-bind :
    {A B : Type 0} (m : M A) (f : A → M B) → Keeps m → ((a : A) → Keeps (f a)) → Keeps (m >>= f)
unfolding Keeps
Keeps-bind m f k g w = elim (Outcome-cases (m w).0) [
  | inl q ↦ rw q (k w)
  | inr (a, q) ↦ rw q (IsKept-trans w (m w).1 (f a (m w).1).1 (k w) (g a (m w).1))
]

pub count_id-append :
    (i : ℕ) (bs cs : List Balance) → count_id i (bs ++ cs) ≡ count_id i bs + count_id i cs
count_id-append i [] cs = omega arith
count_id-append i (b ∷ bs) cs = ground (arith, count_id-append i bs cs)

insert_last :
    (n : ℕ) (bs : List Balance) (b : Balance)
    → b.id ≡ n
    → IsKeyed bs
    → All (λ c. c.id < n) bs
    → IsKeyed (bs ++ b ∷ []) × All (λ c. c.id < suc n) (bs ++ b ∷ [])
insert_last n [] b e k l = ((refl, tt), (omega arith, tt))
insert_last n (c ∷ bs) b e k l =
    let rest = insert_last n bs b e k.1 l.1 in ((new, rest.0), (omega (arith, l.0), rest.1))
  where
    new : count_id c.id (bs ++ b ∷ []) ≡ 0
    new = ground (arith, count_id-append c.id bs (b ∷ []), k.0, l.0)

query-Keeps : (env : Env) → Keeps (query env)
unfolding Keeps query
query-Keeps env w = IsKept-refl w

remember-Keeps : (k : String) (i : ℕ) → Keeps (remember k i)
unfolding Keeps
remember-Keeps k i w = IsKept-refl w

only_row-Keeps : (k : String) (bs : List Balance) → Keeps (only_row k bs)
unfolding Keeps
only_row-Keeps k [] w = IsKept-refl w
only_row-Keeps k (b ∷ []) w = IsKept-refl w
only_row-Keeps k (b ∷ (c ∷ bs)) w = IsKept-refl w

module _ (env : Env) (address pool_type : String) (id : Option String) where
  load_rows-Keeps : Keeps (load_rows env address pool_type id)
  unfolding Keeps
  load_rows-Keeps = Keeps-bind (query env) _ (query-Keeps env) (λ _. rows)
    where
      rows : Keeps (λ w. (ok (keep_if (is_balance_of address pool_type id) w.tables.balances), w))
      rows w = IsKept-refl w

  inserted-IsKept : (w : World) → IsKept w (inserted env address pool_type id w)
  unfolding insert_balance
  inserted-IsKept w = (
    omega (arith, sum_by-append (λ (b : Balance). b.amount) w.tables.balances _),
    refl,
    refl,
    λ r. insert_last w.tables.next_balance_id w.tables.balances _ refl r.0 r.1,
  )

  after_race-IsKept : (b : Bool) (w : World) → IsKept w (after_race env address pool_type id b w)
  after_race-IsKept true w = inserted-IsKept w
  after_race-IsKept false w = IsKept-refl w

  reload_or_insert-IsKept :
      (b : Bool) (w : World) → IsKept w (reload_or_insert env address pool_type id b w).1
  reload_or_insert-IsKept true w =
      Keeps-at (load_rows env address pool_type id >>= only_row (key env address pool_type id)) w
        (Keeps-bind _ _ load_rows-Keeps (only_row-Keeps (key env address pool_type id)))
  reload_or_insert-IsKept false w = inserted-IsKept w

  insert_or_reload-Keeps : Keeps (insert_or_reload env address pool_type id)
  unfolding Keeps insert_or_reload
  insert_or_reload-Keeps = Keeps-bind (query env) _ (query-Keeps env) (λ _. raced)
    where
      raced : Keeps (λ w.
          reload_or_insert env address pool_type id
            (is_duplicate (env.raced w.ticks) id)
            (after_race env address pool_type id (env.raced w.ticks) w))
      raced w =
          let v = after_race env address pool_type id (env.raced w.ticks) w in
          IsKept-trans w v
            (reload_or_insert env address pool_type id (is_duplicate (env.raced w.ticks) id) v).1
            (after_race-IsKept (env.raced w.ticks) w)
            (reload_or_insert-IsKept (is_duplicate (env.raced w.ticks) id) v)

  create_or_take-Keeps : (bs : List Balance) → Keeps (create_or_take env address pool_type id bs)
  create_or_take-Keeps [] = insert_or_reload-Keeps
  create_or_take-Keeps (b ∷ bs) = only_row-Keeps (key env address pool_type id) (b ∷ bs)

  cached_or_loaded-Keeps : (o : Option ℕ) → Keeps (cached_or_loaded env address pool_type id o)
  cached_or_loaded-Keeps (some i) = Keeps-pure i
  cached_or_loaded-Keeps none = Keeps-bind _ _ load_rows-Keeps create_or_take-Keeps

  balance_id-Keeps : Keeps (balance_id env address pool_type id)
  unfolding Keeps balance_id
  balance_id-Keeps w =
      cached_or_loaded-Keeps (lookup (key env address pool_type id) w.balance_id_cache) w

ok_injective : {A : Type 0} (a b : A) → ok a ≡ ok b → a ≡ b
ok_injective a b h = cc h

pub bound :
    {A B : Type 0} (m : M A) (f : A → M B) (w : World) (b : B)
    → ((m >>= f) w).0 ≡ ok b
    → (a : A) × (v : World) × ((m w).0 ≡ ok a) × ((f a v).0 ≡ ok b)
bound m f w b h = elim (Outcome-cases (m w).0) [
  | inl q ↦ absurd (cc (rw q at h))
  | inr (a, q) ↦ (a, (m w).1, q, rw q at h)
]

module _ (env : Env) where
  get_or_create_balance_id-Keeps : (p : PaymentRow) → Keeps (get_or_create_balance_id env p)
  unfolding get_or_create_balance_id
  get_or_create_balance_id-Keeps p = balance_id-Keeps env _ _ _

  resolve_ids-Keeps : (ps : List PaymentRow) → Keeps (resolve_ids env ps)
  unfolding resolve_ids
  resolve_ids-Keeps [] = Keeps-pure []
  resolve_ids-Keeps (p ∷ ps) =
      Keeps-bind _ _ (get_or_create_balance_id-Keeps p)
        (λ i. Keeps-bind _ _ (resolve_ids-Keeps ps) (λ cs. Keeps-pure _))

  pub resolve_balance_credits-Keeps :
      (ps : List PaymentRow) → Keeps (resolve_balance_credits env ps)
  unfolding resolve_balance_credits
  resolve_balance_credits-Keeps ps = Keeps-bind _ _ (resolve_ids-Keeps ps) (λ cs. Keeps-pure _)

  resolve_ids-credits :
      (ps : List PaymentRow) (w : World) (cs : List Credit)
      → (resolve_ids env ps w).0 ≡ ok cs
      → credits cs ≡ sum_by (λ p. p.amount) ps
  unfolding resolve_ids
  resolve_ids-credits [] w cs h = ap credits (sym (ok_injective [] cs h))
  resolve_ids-credits (p ∷ ps) w cs h =
      let b = bound (get_or_create_balance_id env p) _ w cs h in
      let c = bound (resolve_ids env ps) _ b.1 cs b.3 in
      ap credits (sym (ok_injective _ cs c.3))
      ∙ ap (λ n. p.amount + n) (resolve_ids-credits ps b.1 c.0 c.2)

  -- The credits are a map with the total of the rows.
  pub resolve_balance_credits-IsMap :
      (ps : List PaymentRow) (w : World) (cs : List Credit)
      → (resolve_balance_credits env ps w).0 ≡ ok cs
      → IsMap cs × (credits cs ≡ sum_by (λ p. p.amount) ps)
  unfolding resolve_balance_credits
  resolve_balance_credits-IsMap ps w cs h =
      let b = bound (resolve_ids env ps) _ w cs h in
      let a = aggregate-IsMap [] b.0 tt in
      let e = ok_injective (aggregate [] b.0) cs b.3 in
      (
        subst IsMap e a.0,
        ap credits (sym e) ∙ (omega (arith, a.1, resolve_ids-credits ps w b.0 b.2)),
      )
