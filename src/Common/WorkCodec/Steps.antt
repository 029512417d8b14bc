-- ===== src/Common/WorkCodec/Steps.antt =====
-- lib/common/work_codec.js: one field of work, prepared for the wire and restored from it.
use nodejs_pool.Prelude.{
  ◌-◌, ◌%◌, ◌≡◌, refl, Bool, true, false, ◌||◌, Option, some, List, [], ◌∷◌, String, ◌==◌, ltb, leb,
  str_eq, str_eq_iff, if◌then◌else◌, arith, Bool-cases, inl, inr,
}
use nodejs_pool.Common.WorkCodec.{
  field, field_double, Value, undefined, null, number, other, Message, set_value, million,
  int64_limit, ◌>>=◌, prepare_value, take_extension, check_field, Bytes,
}

abbrev pub has_name : String → List String → Bool
has_name f [] = false
has_name f (g ∷ gs) = if str_eq f g then true else has_name f gs

abbrev pub IsDistinct : List String → Type 0
IsDistinct [] = Unit
IsDistinct (f ∷ fs) = (has_name f fs ≡ false) × IsDistinct fs

-- What the signed 64-bit field of a value below the limit comes back as.
abbrev pub truncated : Value → Value
truncated undefined = number 0
truncated null = number 0
truncated (number n) = number (n - n % million)
truncated (other t) = other t

abbrev pub or_zero : Value → Value
or_zero undefined = number 0
or_zero null = number 0
or_zero (number n) = number n
or_zero (other t) = other t

abbrev pub is_fit : Value → Bool
is_fit undefined = true
is_fit null = true
is_fit (number n) = ltb n int64_limit
is_fit (other t) = false

abbrev pub is_valued : Value → Bool
is_valued undefined = true
is_valued null = true
is_valued (number n) = true
is_valued (other t) = false

-- The codec of the protocol buffers. It sets missing numbers to zero, cuts the fraction of a number
-- in a field of 64 bits, and keeps a double.
pub record WireCodec (fields : List String) : Type 0 where
  pub raw_encode : Message → Bytes
  pub raw_decode : Bytes → Option Message
  pub stored : Message → Message
  pub decodes : (m : Message) → raw_decode (raw_encode m) ≡ some (stored m)
  pub stores_field :
      (f : String) (m : Message)
      → has_name f fields ≡ true
      → is_fit (m (field f)) ≡ true
      → stored m (field f) ≡ truncated (m (field f))
  pub stores_double :
      (f : String) (m : Message)
      → has_name f fields ≡ true
      → is_valued (m (field_double f)) ≡ true
      → stored m (field_double f) ≡ or_zero (m (field_double f))

-- A number or nothing; a double beyond 64 bits is whole.
abbrev pub is_sound : Value → Bool
is_sound undefined = true
is_sound null = true
is_sound (number n) = ltb n int64_limit || n % million == 0
is_sound (other t) = false

-- What a work amount comes back as: as it was beyond 64 bits, and without its fraction below.
abbrev pub kept : Value → Value
kept undefined = number 0
kept null = number 0
kept (number n) = if leb int64_limit n then number n else number (n - n % million)
kept (other t) = other t

abbrev pub low : Value → Value
low undefined = undefined
low null = null
low (number n) = if leb int64_limit n then number 0 else number n
low (other t) = other t

abbrev pub high : Value → Value
high undefined = undefined
high null = undefined
high (number n) = if leb int64_limit n then number n else undefined
high (other t) = undefined

-- A message is the same at the keys of a name.
abbrev pub SameAt : String → Message → Message → Type 0
SameAt g m n = (n (field g) ≡ m (field g)) × (n (field_double g) ≡ m (field_double g))

pub same_name : (f : String) → str_eq f f ≡ true
same_name f = (str_eq_iff f f).1 refl

-- A step at a name: its two values after it, and that no other name is touched.
abbrev pub Steps : String → Value → Value → Message → Option Message → Type 0
Steps f v w m r =
    (n : Message) × (r ≡ some n)
    × (n (field f) ≡ v)
    × (n (field_double f) ≡ w)
    × ((g : String) → str_eq g f ≡ false → SameAt g m n)

pub prepare_value-Steps :
    (f : String) (v : Value) (m : Message)
    → is_sound v ≡ true
    → m (field f) ≡ v
    → m (field_double f) ≡ undefined
    → Steps f (low v) (high v) m (prepare_value f v m)
prepare_value-Steps f undefined m s e d = (m, refl, e, d, λ g q. (refl, refl))
prepare_value-Steps f null m s e d = (m, refl, e, d, λ g q. (refl, refl))
prepare_value-Steps f (other t) m s e d = absurd (cc s)
prepare_value-Steps f (number n) m s e d = elim (Bool-cases (leb int64_limit n)) [
  | inl q ↦
      rw q (_, refl, rw (same_name f) refl, rw (same_name f) refl, λ g x. (rw x refl, rw x refl))
  | inr q ↦ rw q (m, refl, e, d, λ g q. (refl, refl))
]

-- What the wire holds is what is decoded: the extension goes back.
pub decode_value-Steps :
    (f : String) (v : Value) (m : Message)
    → is_sound v ≡ true
    → m (field f) ≡ truncated (low v)
    → m (field_double f) ≡ or_zero (high v)
    → Steps f (kept v) undefined m (
        take_extension f (m (field_double f)) m >>= λ n.
        check_field (n (field f)) (set_value (field_double f) undefined n))
decode_value-Steps f undefined m s e d =
    rw (d, e) (_, refl, e, rw (same_name f) refl, λ g x. (refl, rw x refl))
decode_value-Steps f null m s e d =
    rw (d, e) (_, refl, e, rw (same_name f) refl, λ g x. (refl, rw x refl))
decode_value-Steps f (other t) m s e d = absurd (cc s)
decode_value-Steps f (number n) m s e d = elim (Bool-cases (leb int64_limit n)) [
  | inl q ↦
      let whole : n % million == 0 ≡ true = ground (arith, s, q) in
      let pos : n == 0 ≡ false = ground (arith, q) in
      let far : ltb n int64_limit ≡ false = ground (arith, q) in
      let e' : m (field f) ≡ number 0 = rw q at e in
      let d' : m (field_double f) ≡ number n = rw q at d in
      rw (q, d', pos, whole, far, e')
        (rw (same_name f)
          (_, refl, rw (same_name f) refl, rw (same_name f) refl, λ g x. (rw x refl, rw x refl)))
  | inr q ↦
      let e' : m (field f) ≡ number (n - n % million) = rw q at e in
      let d' : m (field_double f) ≡ number 0 = rw q at d in
      rw (q, d', e') (_, refl, e', rw (same_name f) refl, λ g x. (refl, rw x refl))
]
