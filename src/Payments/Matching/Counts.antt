-- ===== src/Payments/Matching/Counts.antt =====
-- The map of counts as a multiset: what each operation does to the count of every key.
use nodejs_pool.Prelude.{
  ℕ, ◌<◌, ◌≡◌, ◌↔◌, refl, true, none, some, [], ◌∷◌, str_eq_iff, if◌then◌else◌, length, arith,
}
use nodejs_pool.Payments.Planner.{or_zero}
use nodejs_pool.Payments.Matching.{Key, key_eq, Counts, get, put, delete}

pub key_eq_iff : (k j : Key) → (key_eq k j ≡ true) ↔ (k ≡ j)
key_eq_iff (a, n) (b, m) = ground (arith, str_eq_iff a b)

-- How many outputs of a key are left.
abbrev pub left : Key → Counts → ℕ
left k m = or_zero (get k m)

-- No key stands twice, and no count is zero.
abbrev pub IsClean : Counts → Type 0
IsClean [] = Unit
IsClean ((j, n) ∷ m) = (get j m ≡ none) × (0 < n) × IsClean m

pub get-put :
    (k j : Key) (n : ℕ) (m : Counts) → get j (put k n m) ≡ (if key_eq k j then some n else get j m)
unfolding get put
get-put k j n [] = ground (arith, key_eq_iff k j, key_eq_iff j k)
get-put k j n ((i, c) ∷ m) =
    ground (arith, key_eq_iff k j, key_eq_iff j k, key_eq_iff k i, key_eq_iff j i, get-put k j n m)

pub get-delete :
    (k j : Key) (m : Counts)
    → IsClean m
    → get j (delete k m) ≡ (if key_eq k j then none else get j m)
unfolding get delete
get-delete k j [] h = ground arith
get-delete k j ((i, c) ∷ m) h =
    ground
      (arith, key_eq_iff k j, key_eq_iff j k, key_eq_iff k i, key_eq_iff j i, get-delete k j m h.2)

pub put-IsClean : (k : Key) (n : ℕ) (m : Counts) → 0 < n → IsClean m → IsClean (put k n m)
unfolding put get
put-IsClean k n [] p h = (refl, p, tt)
put-IsClean k n ((i, c) ∷ m) p h =
    ground (arith, key_eq_iff k i, get-put k i n m, put-IsClean k n m p h.2)

pub delete-IsClean : (k : Key) (m : Counts) → IsClean m → IsClean (delete k m)
unfolding delete get
delete-IsClean k [] h = tt
delete-IsClean k ((i, c) ∷ m) h =
    ground (arith, key_eq_iff k i, get-delete k i m h.2, delete-IsClean k m h.2)

-- A clean map with nothing left is empty.
pub clean-empty : (m : Counts) → IsClean m → ((k : Key) → left k m ≡ 0) → length m ≡ 0
unfolding get
clean-empty [] h z = refl
clean-empty ((j, n) ∷ m) h z = ground (arith, z j, key_eq_iff j j)
