-- ===== src/Blocks/Bounded.antt =====
-- lib/block_manager.js: the rows of payments, their parts of a whole and what they earn.
use native.Mathlib.Nat.{mul-le-mul_right, mul-div-le, le_of_mul-le-mul_left, add-mul, mul-add}
use nodejs_pool.Prelude.{
  ℕ, ◌+◌, ◌*◌, ◌/◌, ◌≤◌, ◌<◌, ◌≡◌, refl, ap, ◌∙◌, subst, Bool, true, not, List, [], ◌∷◌, ◌++◌,
  String, ◌==◌, str_eq, str_eq_iff, sum_by, sum_by-append, keep_if, count_if, arith, Bool-cases,
  inl, inr, All, All-append,
}
use nodejs_pool.Blocks.Runtime.{BlockBalance}
use nodejs_pool.Blocks.Credits.{PaymentRow}
use nodejs_pool.Blocks.Window.{PaymentData, total_payments, payment_rows}
use nodejs_pool.Blocks.Atomic.{earned}
use nodejs_pool.Blocks.Precalc.{all_rows, has_hex}

-- The parts of the rows of a block.
abbrev pub parts_of : String → List BlockBalance → ℕ
parts_of hex rs = sum_by (λ r. r.part) (keep_if (λ r. str_eq r.hex hex) rs)

abbrev pub times : String → List String → ℕ
times hex = count_if (λ h. str_eq h hex)

parts_of-none :
    (hex : String) (hexes : List String) (whole : ℕ) (p : PaymentRow)
    → times hex hexes ≡ 0
    → parts_of hex (payment_rows hexes whole p) ≡ 0
unfolding payment_rows
parts_of-none hex [] whole p h = refl
parts_of-none hex (x ∷ hexes) whole p h = elim (Bool-cases (str_eq x hex)) [
  | inl q ↦ absurd (omega (arith, rw q at h))
  | inr q ↦ rw q (parts_of-none hex hexes whole p (rw q at h))
]

parts_of-le :
    (hex : String) (hexes : List String) (whole : ℕ) (p : PaymentRow)
    → times hex hexes ≤ 1
    → parts_of hex (payment_rows hexes whole p) ≤ p.amount
unfolding payment_rows
parts_of-le hex [] whole p h = omega arith
parts_of-le hex (x ∷ hexes) whole p h = elim (Bool-cases (str_eq x hex)) [
  | inl q ↦ rw q (omega (arith, parts_of-none hex hexes whole p (omega (arith, rw q at h))))
  | inr q ↦ rw q (parts_of-le hex hexes whole p (rw q at h))
]

pub keep_if-append :
    {A : Type 0} (p : A → Bool) (xs ys : List A)
    → keep_if p (xs ++ ys) ≡ keep_if p xs ++ keep_if p ys
keep_if-append p [] ys = refl
keep_if-append p (x ∷ xs) ys = elim (Bool-cases (p x)) [
  | inl q ↦ rw (q, keep_if-append p xs ys) refl
  | inr q ↦ rw (q, keep_if-append p xs ys) refl
]

parts_of-append :
    (hex : String) (rs ss : List BlockBalance)
    → parts_of hex (rs ++ ss) ≡ parts_of hex rs + parts_of hex ss
parts_of-append hex rs ss =
    ap (sum_by (λ r. r.part)) (keep_if-append (λ r. str_eq r.hex hex) rs ss)
    ∙ sum_by-append (λ r. r.part) (keep_if (λ r. str_eq r.hex hex) rs)
        (keep_if (λ r. str_eq r.hex hex) ss)

pub parts_of-all_rows :
    (hex : String) (hexes : List String) (whole : ℕ) (m : PaymentData)
    → times hex hexes ≤ 1
    → parts_of hex (all_rows hexes whole m) ≤ total_payments m
unfolding all_rows total_payments
parts_of-all_rows hex hexes whole [] h = omega arith
parts_of-all_rows hex hexes whole ((k, p) ∷ m) h = elim (Bool-cases (p.amount == 0)) [
  | inl q ↦ rw q (omega (arith, parts_of-all_rows hex hexes whole m h))
  | inr q ↦ rw q (
      omega (
        arith,
        parts_of-append hex (payment_rows hexes whole p) (all_rows hexes whole m),
        parts_of-le hex hexes whole p h,
        parts_of-all_rows hex hexes whole m h,
      ))
]

-- The rows have one whole.
abbrev pub IsWhole : ℕ → List BlockBalance → Type 0
IsWhole whole = All (λ r. r.whole ≡ whole)

payment_rows-IsWhole :
    (hexes : List String) (whole : ℕ) (p : PaymentRow) → IsWhole whole (payment_rows hexes whole p)
unfolding payment_rows
payment_rows-IsWhole [] whole p = tt
payment_rows-IsWhole (x ∷ hexes) whole p = (refl, payment_rows-IsWhole hexes whole p)

pub all_rows-IsWhole :
    (hexes : List String) (whole : ℕ) (m : PaymentData) → IsWhole whole (all_rows hexes whole m)
unfolding all_rows
all_rows-IsWhole hexes whole [] = tt
all_rows-IsWhole hexes whole ((k, p) ∷ m) = elim (Bool-cases (p.amount == 0)) [
  | inl q ↦ rw q (all_rows-IsWhole hexes whole m)
  | inr q ↦ rw q (
      All-append _ (payment_rows hexes whole p) (all_rows hexes whole m)
        (payment_rows-IsWhole hexes whole p) (all_rows-IsWhole hexes whole m))
]

pub All-keep_if :
    {A : Type 0} (P : A → Type 0) (p : A → Bool) (xs : List A) → All P xs → All P (keep_if p xs)
All-keep_if P p [] h = tt
All-keep_if P p (x ∷ xs) h = elim (Bool-cases (p x)) [
  | inl q ↦ rw q (h.0, All-keep_if P p xs h.1)
  | inr q ↦ rw q (All-keep_if P p xs h.1)
]

whole-earned :
    (reward whole : ℕ) (rs : List BlockBalance)
    → IsWhole whole rs
    → whole * earned reward rs ≤ sum_by (λ r. r.part) rs * reward
whole-earned reward whole [] h = omega arith
whole-earned reward whole (r ∷ rs) h =
    let one : whole * (r.part * reward / r.whole) ≤ r.part * reward =
      subst (λ n. n * (r.part * reward / r.whole) ≤ r.part * reward) h.0
        (mul-div-le (r.part * reward) r.whole) in
    let split = mul-add whole (r.part * reward / r.whole) (earned reward rs) in
    let parts = add-mul r.part (sum_by (λ r. r.part) rs) reward in
    omega (arith, one, split, parts, whole-earned reward whole rs h.1)

-- Rows with parts of a whole at most earn the reward at most.
pub earned-le :
    (reward whole : ℕ) (rs : List BlockBalance)
    → 0 < whole
    → IsWhole whole rs
    → sum_by (λ r. r.part) rs ≤ whole
    → earned reward rs ≤ reward
earned-le reward whole rs pos h le =
    le_of_mul-le-mul_left {k = whole}
      (omega (arith, whole-earned reward whole rs h, mul-le-mul_right reward le)) pos

pub deleted-none :
    (hex : String) (hexes : List String) (rs : List BlockBalance)
    → has_hex hexes hex ≡ true
    → keep_if (λ r. str_eq r.hex hex) (keep_if (λ r. not (has_hex hexes r.hex)) rs) ≡ []
deleted-none hex hexes [] h = refl
deleted-none hex hexes (r ∷ rs) h = elim (Bool-cases (str_eq r.hex hex)) [
  | inl q ↦ rw (ap (has_hex hexes) ((str_eq_iff r.hex hex).0 q) ∙ h) (deleted-none hex hexes rs h)
  | inr q ↦ elim (Bool-cases (has_hex hexes r.hex)) [
    | inl x ↦ rw x (deleted-none hex hexes rs h)
    | inr x ↦ rw (x, q) (deleted-none hex hexes rs h)
  ]
]
