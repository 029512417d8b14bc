-- ===== src/Blocks/Crediting.antt =====
-- lib/block_manager.js, `applyBalanceCredits`: the arithmetic of credits, one for each id.
use nodejs_pool.Prelude.{
  ℕ, ◌+◌, ◌≤◌, ◌<◌, ◌≡◌, ◌⊎◌, refl, ◌∙◌, subst, true, false, List, [], ◌∷◌, ◌++◌, ◌==◌,
  if◌then◌else◌, length, count_if, sum_by, arith, Bool-cases, inl, inr, All,
}
use nodejs_pool.Payments.Store.{Balance}
use nodejs_pool.Blocks.Runtime.{Tables, Outcome, ok, thrown}
use nodejs_pool.Blocks.Credits.{Credit, credit_of, has_id, has_credit, credit_balances}

-- The credits of a map: one for each id.
abbrev pub IsMap : List Credit → Type 0
IsMap [] = Unit
IsMap (c ∷ cs) = (has_id c.id cs ≡ false) × IsMap cs

abbrev pub count_id : ℕ → List Balance → ℕ
count_id i bs = count_if (λ b. b.id == i) bs

-- The primary key.
abbrev pub IsKeyed : List Balance → Type 0
IsKeyed [] = Unit
IsKeyed (b ∷ bs) = (count_id b.id bs ≡ 0) × IsKeyed bs

abbrev pub amounts : List Balance → ℕ
amounts = sum_by (λ b. b.amount)

abbrev pub credits : List Credit → ℕ
credits = sum_by (λ c. c.amount)

pub count_id-le : (i : ℕ) (bs : List Balance) → IsKeyed bs → count_id i bs ≤ 1
count_id-le i [] k = omega arith
count_id-le i (b ∷ bs) k = elim (Bool-cases (b.id == i)) [
  | inl q ↦ rw q (omega (arith, alone q))
  | inr q ↦ rw q (count_id-le i bs k.1)
]
  where
    alone : b.id == i ≡ true → count_id i bs ≡ 0
    alone q = subst (λ j. count_id j bs ≡ 0) (ground arith) k.0

credit_of-none : (i : ℕ) (cs : List Credit) → has_id i cs ≡ false → credit_of i cs ≡ 0
unfolding has_id credit_of
credit_of-none i [] h = refl
credit_of-none i (c ∷ cs) h = ground (arith, credit_of-none i cs)

pub amounts-credit_balances :
    (cs : List Credit) (bs : List Balance)
    → amounts (credit_balances cs bs) ≡ amounts bs + sum_by (λ b. credit_of b.id cs) bs
unfolding credit_balances
amounts-credit_balances cs [] = omega arith
amounts-credit_balances cs (b ∷ bs) = elim (Bool-cases (has_id b.id cs)) [
  | inl q ↦ rw q (omega (arith, amounts-credit_balances cs bs))
  | inr q ↦ rw q (omega (arith, amounts-credit_balances cs bs, credit_of-none b.id cs q))
]

-- What the first credit gives to the rows.
abbrev given : Credit → List Balance → ℕ
given c = sum_by (λ b. if c.id == b.id then c.amount else 0)

given-none : (c : Credit) (bs : List Balance) → count_id c.id bs ≡ 0 → given c bs ≡ 0
given-none c [] h = refl
given-none c (b ∷ bs) h = ground (arith, given-none c bs)

given-once : (c : Credit) (bs : List Balance) → count_id c.id bs ≡ 1 → given c bs ≡ c.amount
given-once c [] h = absurd (omega arith)
given-once c (b ∷ bs) h = ground (arith, given-once c bs, given-none c bs)

credit_of-split :
    (c : Credit) (cs : List Credit) (bs : List Balance)
    → has_id c.id cs ≡ false
    → sum_by (λ b. credit_of b.id (c ∷ cs)) bs ≡ given c bs + sum_by (λ b. credit_of b.id cs) bs
unfolding credit_of
credit_of-split c cs [] h = omega arith
credit_of-split c cs (b ∷ bs) h = elim (Bool-cases (c.id == b.id)) [
  | inl q ↦ rw q (omega (arith, credit_of-split c cs bs h, same q))
  | inr q ↦ rw q (omega (arith, credit_of-split c cs bs h))
]
  where
    same : c.id == b.id ≡ true → credit_of b.id cs ≡ 0
    same q = credit_of-none b.id cs (subst (λ i. has_id i cs ≡ false) (ground arith) h)

has_id-same : (i j : ℕ) (cs : List Credit) → has_id i cs ≡ false → i ≡ j → has_id j cs ≡ false
has_id-same i j cs h e = subst (λ k. has_id k cs ≡ false) e h

pub count-none : (bs : List Balance) → count_if (has_credit []) bs ≡ 0
unfolding has_id
count-none [] = refl
count-none (b ∷ bs) = count-none bs

credit_of-nobody : (bs : List Balance) → sum_by (λ b. credit_of b.id []) bs ≡ 0
unfolding credit_of
credit_of-nobody [] = refl
credit_of-nobody (b ∷ bs) = omega (arith, credit_of-nobody bs)

pub has_id-split :
    (c : Credit) (cs : List Credit) (bs : List Balance)
    → has_id c.id cs ≡ false
    → count_if (has_credit (c ∷ cs)) bs ≡ count_id c.id bs + count_if (has_credit cs) bs
unfolding has_id
has_id-split c cs [] h = omega arith
has_id-split c cs (b ∷ bs) h =
    ground (arith, has_id-split c cs bs h, λ (e : c.id ≡ b.id). has_id-same c.id b.id cs h e)

count-le-length :
    (cs : List Credit) (bs : List Balance)
    → IsMap cs
    → IsKeyed bs
    → count_if (has_credit cs) bs ≤ length cs
count-le-length [] bs m k = omega (arith, count-none bs)
count-le-length (c ∷ cs) bs m k =
    omega (arith, has_id-split c cs bs m.0, count_id-le c.id bs k, count-le-length cs bs m.1 k)

-- When as many rows as credits have one, every credit is given once.
pub credit_of-all :
    (cs : List Credit) (bs : List Balance)
    → IsMap cs
    → IsKeyed bs
    → count_if (has_credit cs) bs ≡ length cs
    → sum_by (λ b. credit_of b.id cs) bs ≡ credits cs
credit_of-all [] bs m k h = credit_of-nobody bs
credit_of-all (c ∷ cs) bs m k h = omega (
  arith,
  credit_of-split c cs bs m.0,
  given-once c bs
      (omega (arith, has_id-split c cs bs m.0, count_id-le c.id bs k, count-le-length cs bs m.1 k)),
  credit_of-all cs bs m.1 k
      (omega (arith, has_id-split c cs bs m.0, count_id-le c.id bs k, count-le-length cs bs m.1 k)),
)

pub count_id-credit_balances :
    (i : ℕ) (cs : List Credit) (bs : List Balance)
    → count_id i (credit_balances cs bs) ≡ count_id i bs
unfolding credit_balances
count_id-credit_balances i cs [] = refl
count_id-credit_balances i cs (b ∷ bs) = elim (Bool-cases (has_id b.id cs)) [
  | inl q ↦ rw (q, count_id-credit_balances i cs bs) refl
  | inr q ↦ rw (q, count_id-credit_balances i cs bs) refl
]

pub credit_balances-IsKeyed :
    (cs : List Credit) (bs : List Balance) → IsKeyed bs → IsKeyed (credit_balances cs bs)
unfolding credit_balances
credit_balances-IsKeyed cs [] k = k
credit_balances-IsKeyed cs (b ∷ bs) k = elim (Bool-cases (has_id b.id cs)) [
  | inl q ↦ rw q (count_id-credit_balances b.id cs bs ∙ k.0, credit_balances-IsKeyed cs bs k.1)
  | inr q ↦ rw q (count_id-credit_balances b.id cs bs ∙ k.0, credit_balances-IsKeyed cs bs k.1)
]

has_id-append :
    (i : ℕ) (cs ds : List Credit)
    → has_id i (cs ++ ds) ≡ false
    → (has_id i cs ≡ false) × (has_id i ds ≡ false)
unfolding has_id
has_id-append i [] ds h = (refl, h)
has_id-append i (c ∷ cs) ds h = ground (arith, has_id-append i cs ds)

pub IsMap-append : (cs ds : List Credit) → IsMap (cs ++ ds) → IsMap cs × IsMap ds
IsMap-append [] ds m = (tt, m)
IsMap-append (c ∷ cs) ds m =
    (((has_id-append c.id cs ds m.0).0, (IsMap-append cs ds m.1).0), (IsMap-append cs ds m.1).1)

pub Outcome-cases {ℓ} : {A : Type ℓ} (o : Outcome A) → (o ≡ thrown) ⊎ ((a : A) × (o ≡ ok a))
Outcome-cases (ok a) = inr (a, refl)
Outcome-cases thrown = inl refl

-- The ids are a key, and the next one is new.
abbrev pub IsReady : Tables → Type 0
IsReady t = IsKeyed t.balances × All (λ b. b.id < t.next_balance_id) t.balances

pub below-credit_balances :
    (n : ℕ) (cs : List Credit) (bs : List Balance)
    → All (λ b. b.id < n) bs
    → All (λ b. b.id < n) (credit_balances cs bs)
unfolding credit_balances
below-credit_balances n cs [] l = l
below-credit_balances n cs (b ∷ bs) l = elim (Bool-cases (has_id b.id cs)) [
  | inl q ↦ rw q (l.0, below-credit_balances n cs bs l.1)
  | inr q ↦ rw q (l.0, below-credit_balances n cs bs l.1)
]
