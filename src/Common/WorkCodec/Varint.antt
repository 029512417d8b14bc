-- ===== src/Common/WorkCodec/Varint.antt =====
-- The varints and the fields of the wire that lib/common/work_codec.js reads, as they are written.
use nodejs_pool.Prelude.{
  ℕ, zero, suc, ◌+◌, ◌-◌, ◌/◌, ◌%◌, ◌<◌, ◌≡◌, refl, ◌∙◌, ap, Bool, true, false, not, ◌&&◌, some,
  List, [], ◌∷◌, ◌++◌, ◌==◌, ltb, if◌then◌else◌, length, length-append, take, drop, arith,
  Bool-cases, inl, inr,
}
use nodejs_pool.Common.WorkCodec.Repair.{read_more, read_bytes, short_prefix}

-- A number in so many bytes at most, the lowest seven bits first.
unfoldable pub write_varint : ℕ → ℕ → List ℕ
write_varint zero n = []
write_varint (suc k) n = if ltb n 128 then n ∷ [] else (n % 128 + 128) ∷ write_varint k (n / 128)

unfoldable pub fits : ℕ → ℕ → Bool
fits zero n = false
fits (suc k) n = if ltb n 128 then true else fits k (n / 128)

-- What is written is read back, and the rest left.
pub read_more-write_varint :
    (k : ℕ) (first : Bool) (n : ℕ) (rest : List ℕ)
    → fits k n ≡ true
    → not first && n == 0 ≡ false
    → read_more k first (write_varint k n ++ rest) ≡ some (n, rest)
unfolding read_more write_varint fits
read_more-write_varint zero first n rest f z = absurd (cc f)
read_more-write_varint (suc k) first n rest f z = elim (Bool-cases (ltb n 128)) [
  | inl q ↦ rw q (rw (q, z) refl)
  | inr q ↦
      let e : ltb (n % 128 + 128) 128 ≡ false = ground arith in
      let low : (n % 128 + 128) % 128 ≡ n % 128 = omega arith in
      let high : not false && n / 128 == 0 ≡ false = ground arith in
      let ih = read_more-write_varint k false (n / 128) rest (rw q at f) high in
      rw q (rw (e, ih, low) (ap (λ m. some (m, rest)) (omega arith)))
]

fits_more : (k n : ℕ) → fits k (n / 128) ≡ true → fits (suc k) n ≡ true
unfolding fits
fits_more k n h = elim (Bool-cases (ltb n 128)) [ inl q ↦ rw q refl | inr q ↦ rw q h ]

fits_one : (n : ℕ) → n < 128 → fits 1 n ≡ true
unfolding fits
fits_one n lt = let q : ltb n 128 ≡ true = ground arith in rw q refl

pub fits_five : (n : ℕ) → n < 4_294_967_296 → fits 5 n ≡ true
fits_five n lt = fits_more 4 n (
    fits_more 3 (n / 128) (
      fits_more 2 (n / 128 / 128)
        (fits_more 1 (n / 128 / 128 / 128) (fits_one (n / 128 / 128 / 128 / 128) (omega arith)))))

pub write_varint-short_prefix : (p : ℕ) → p < 16_384 → write_varint 5 p ≡ short_prefix p
unfolding write_varint
write_varint-short_prefix p lt = elim (Bool-cases (ltb p 128)) [
  | inl q ↦ rw q refl
  | inr q ↦ let r : ltb (p / 128) 128 ≡ true = ground arith in rw (q, r) refl
]

pub drop-append : {A : Type 0} (xs ys : List A) → drop (length xs) (xs ++ ys) ≡ ys
drop-append [] ys = refl
drop-append (x ∷ xs) ys = drop-append xs ys

take-append : {A : Type 0} (xs ys : List A) → take (length xs) (xs ++ ys) ≡ xs
take-append [] ys = refl
take-append (x ∷ xs) ys = ap (λ zs. x ∷ zs) (take-append xs ys)

pub read_bytes-append : (xs ys : List ℕ) → read_bytes (xs ++ ys) ys ≡ xs
read_bytes-append xs ys =
    let n : length (xs ++ ys) - length ys ≡ length xs = omega (arith, length-append xs ys) in
    ap (λ n. take n (xs ++ ys)) n ∙ take-append xs ys
