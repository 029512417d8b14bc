-- ===== src/Common/WorkCodec.antt =====
-- lib/common/work_codec.js: amounts of work beyond the signed 64-bit fields of the wire. The codec of
-- the protocol buffers is a parameter that maps a message to bytes and back; `bytes`, offsets into a
-- buffer and the lengths are left out. A number is a whole count of millionths, and a number that is
-- not finite or negative is `other`. The key of an extension is a constructor of its own, since no
-- field of the messages has a name that ends in `_double` but an extension.
use nodejs_pool.Prelude.{
  ℕ, ◌-◌, ◌*◌, ◌%◌, ◌≡◌, Bool, true, false, not, ◌||◌, Option, none, some, List, [], ◌∷◌, String,
  ◌==◌, ltb, leb, str_eq, if◌then◌else◌,
}
use nodejs_pool.Common.WorkCodec.Repair.{Tags, repair_legacy_overflow}
pub mod Repair
pub mod Varint
pub mod Repairs
pub mod Whole
pub mod Steps
pub mod RoundTrip
mod Tests

pub data Key : Type 0 where
  field : String → Key
  field_double : String → Key

pub data Value : Type 0 where
  undefined : Value
  null : Value
  number : ℕ → Value
  other : String → Value

-- A property that is deleted is undefined.
abbrev pub Message : Type 0
Message = Key → Value

abbrev pub key_eq : Key → Key → Bool
key_eq (field f) (field g) = str_eq f g
key_eq (field_double f) (field_double g) = str_eq f g
key_eq _ _ = false

abbrev pub set_value : Key → Value → Message → Message
set_value k v m j = if key_eq j k then v else m j

abbrev pub million : ℕ
million = 1_000_000

-- `INT64_LIMIT`.
abbrev pub int64_limit : ℕ
int64_limit = 9_223_372_036_854_775_808_000_000

-- `validateWork`.
abbrev pub is_work : Bool → Value → Bool
is_work integer (number n) = not integer || n % million == 0
is_work integer undefined = false
is_work integer null = false
is_work integer (other t) = false

infixl 5 ◌>>=◌
abbrev pub ◌>>=◌ : {A B : Type 0} → Option A → (A → Option B) → Option B
none >>= f = none
some a >>= f = f a

abbrev pub prepare_value : String → Value → Message → Option Message
prepare_value f undefined wire = some wire
prepare_value f null wire = some wire
prepare_value f (other t) wire = none
prepare_value f (number n) wire =
    if leb int64_limit n
    then some (set_value (field_double f) (number n) (set_value (field f) (number 0) wire))
    else some wire

-- The loop of `prepareWire`.
unfoldable pub prepare_fields : Message → List String → Message → Option Message
prepare_fields data_ [] wire = some wire
prepare_fields data_ (f ∷ fs) wire =
    prepare_value f (data_ (field f)) (set_value (field_double f) undefined wire)
    >>= prepare_fields data_ fs

unfoldable pub prepare_wire : List String → Message → Option Message
prepare_wire fields m = prepare_fields m fields m

abbrev pub is_zero : Value → Bool
is_zero (number n) = n == 0
is_zero undefined = false
is_zero null = false
is_zero (other t) = false

-- The value of an extension, which goes where the zero stands.
abbrev pub take_extension : String → Value → Message → Option Message
take_extension f undefined m = some m
take_extension f null m = some m
take_extension f (other t) m = none
take_extension f (number n) m =
    if n == 0
    then some m
    else if not (is_work true (number n)) || (ltb n int64_limit || not (is_zero (m (field f))))
    then none
    else some (set_value (field f) (number n) m)

abbrev pub check_field : Value → Message → Option Message
check_field undefined m = some m
check_field null m = some m
check_field (number n) m = if is_work false (number n) then some m else none
check_field (other t) m = none

-- The loop of `decode`.
unfoldable pub decode_fields : List String → Message → Option Message
decode_fields [] m = some m
decode_fields (f ∷ fs) m = take_extension f (m (field_double f)) m >>= λ m1.
    check_field (m1 (field f)) (set_value (field_double f) undefined m1) >>= decode_fields fs

abbrev pub Bytes : Type 0
Bytes = List ℕ

module _ (raw_encode : Message → Bytes) (raw_decode : Bytes → Option Message)
    (to_double : ℕ → Option Bytes) where
  -- `wrapCodec`.
  unfoldable pub encode : List String → Message → Option Bytes
  encode fields m = prepare_wire fields m >>= λ wire. some (raw_encode wire)

  abbrev pub decoded_or_repaired : Tags → Bytes → Option Message → Option Message
  decoded_or_repaired tags b (some m) = some m
  decoded_or_repaired tags b none = repair_legacy_overflow to_double tags b >>= raw_decode

  unfoldable pub decode : List String → Tags → Bytes → Option Message
  decode fields tags b = decoded_or_repaired tags b (raw_decode b) >>= decode_fields fields

-- `adaptWorkCodecs`.
abbrev pub share_fields : List String
share_fields = "shares" ∷ "shares2" ∷ "blockDiff" ∷ []

abbrev pub share_tags : Tags
share_tags = (1, 17) ∷ (14, 18) ∷ (8, 19) ∷ []

abbrev pub block_fields : List String
block_fields = "difficulty" ∷ "shares" ∷ []

abbrev pub block_tags : Tags
block_tags = (2, 10) ∷ (3, 11) ∷ []

abbrev pub alt_block_tags : Tags
alt_block_tags = (2, 16) ∷ (3, 17) ∷ []
