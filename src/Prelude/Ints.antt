-- ===== src/Prelude/Ints.antt =====
-- The integers over the native numbers.
use Prim.Native.Nat.{ℕ, suc, ◌+◌, ◌-◌}
use mathlib.Core.Path.{◌≡◌, ap}
use mathlib.Core.Bool.{true, false}
use mathlib.Core.Logic.{inl, inr}
use native.Mathlib.Omega.{arith}
use nodejs_pool.Prelude.Tests.{ltb, if◌then◌else◌, Bool-cases}

pub data ℤ : Type 0 where
  pos : ℕ → ℤ
  negsuc : ℕ → ℤ

infixl 65 ◌+ℤ◌
unfoldable pub ◌+ℤ◌ : ℤ → ℤ → ℤ
pos a +ℤ pos b = pos (a + b)
pos a +ℤ negsuc b = if ltb b a then pos (a - suc b) else negsuc (b - a)
negsuc a +ℤ pos b = if ltb a b then pos (b - suc a) else negsuc (a - b)
negsuc a +ℤ negsuc b = negsuc (suc (a + b))

-- Two additions of natural numbers are one.
pub add-pos : (z : ℤ) (m n : ℕ) → z +ℤ pos m +ℤ pos n ≡ z +ℤ pos (m + n)
unfolding ◌+ℤ◌
add-pos (pos a) m n = ap pos (omega arith)
add-pos (negsuc a) m n = elim (Bool-cases (ltb a m)) [
  | inl e ↦ rw (e, less e) (ap pos (ground arith))
  | inr e ↦ rw e elim (Bool-cases (ltb (a - m) n)) [
    | inl q ↦ rw (q, later q e) (ap pos (ground arith))
    | inr q ↦ rw (q, never q e) (ap negsuc (ground arith))
  ]
]
  where
    less : ltb a m ≡ true → ltb a (m + n) ≡ true
    less e = ground arith

    later : ltb (a - m) n ≡ true → ltb a m ≡ false → ltb a (m + n) ≡ true
    later q e = ground arith

    never : ltb (a - m) n ≡ false → ltb a m ≡ false → ltb a (m + n) ≡ false
    never q e = ground arith

pub add-pos_zero : (z : ℤ) → z +ℤ pos 0 ≡ z
unfolding ◌+ℤ◌
add-pos_zero (pos a) = ap pos (omega arith)
add-pos_zero (negsuc a) = elim (Bool-cases (ltb a 0)) [
  | inl e ↦ absurd (ground arith)
  | inr e ↦ rw e (ap negsuc (omega arith))
]
