-- ===== src/Common/WorkCodec/Tests.antt =====
-- Runs of the work codec.
use nodejs_pool.Prelude.{
  ℕ, ◌-◌, ◌%◌, ◌≡◌, refl, not, ◌&&◌, Option, none, some, List, [], ◌∷◌, String, str_eq,
  if◌then◌else◌, arith, inl, inr, All,
}
use nodejs_pool.Common.WorkCodec.Repair.{
  extension_of, is_extension, has_tag, repair_legacy_overflow, scan_fields, scan_field, read_more,
}
use nodejs_pool.Common.WorkCodec.Varint.{write_varint, fits}
use nodejs_pool.Common.WorkCodec.Repairs.{
  WireField, varint, text, write_field, write_fields, IsField, repair_fields,
}
use nodejs_pool.Common.WorkCodec.Whole.{
  any_over, any_extension, any_twice, repair_legacy_overflow-write_fields,
}
use nodejs_pool.Common.WorkCodec.{
  field, field_double, Value, undefined, null, number, other, Message, million, Bytes, block_tags,
}

abbrev zeros : ℕ → Option (List ℕ)
zeros n = some (0 ∷ 0 ∷ 0 ∷ 0 ∷ 0 ∷ 0 ∷ 240 ∷ 67 ∷ [])

-- A block of height 5 whose difficulty is 2⁶⁴.
abbrev block_wire : List WireField
block_wire = varint 1 300 ∷ varint 2 18_446_744_073_709_551_616 ∷ text 4 (7 ∷ 8 ∷ []) ∷ []

block_wire-IsField : All (IsField zeros block_tags) block_wire
unfolding extension_of fits
block_wire-IsField = (
  (omega arith, omega arith, (refl, inl (omega arith))),
  (
    (omega arith, omega arith, (refl, inr (10, _, refl, refl, omega arith, omega arith))),
    ((omega arith, omega arith, (omega arith, refl)), tt),
  ),
)

-- The nine bytes of the overflow become a zero and the field 10 of eight bytes.
repaired_bytes :
    repair_legacy_overflow zeros block_tags (write_fields zeros block_tags block_wire)
    ≡ some (8 ∷ 172 ∷ 2 ∷ 16 ∷ 0 ∷ 81 ∷ 0 ∷ 0 ∷ 0 ∷ 0 ∷ 0 ∷ 0 ∷ 240 ∷ 67 ∷ 34 ∷ 2 ∷ 7 ∷ 8 ∷ [])
unfolding repair_legacy_overflow scan_fields scan_field read_more extension_of is_extension has_tag
    write_fields write_field write_varint
repaired_bytes = refl

repair_legacy_overflow-write_fields_example :
    repair_legacy_overflow zeros block_tags (write_fields zeros block_tags block_wire) ≡ (
      if any_over zeros block_tags block_wire
        && (not (any_extension zeros block_tags block_wire)
            && not (any_twice zeros block_tags [] block_wire))
      then some (write_fields zeros block_tags (repair_fields zeros block_tags block_wire))
      else none)
repair_legacy_overflow-write_fields_example =
    repair_legacy_overflow-write_fields zeros block_tags block_wire block_wire-IsField

-- A codec of messages with one field, on a list of two numbers.
abbrev cut : Value → ℕ
cut (number n) = n - n % million
cut undefined = 0
cut null = 0
cut (other t) = 0

abbrev names : List String
names = "difficulty" ∷ []

abbrev double_of : Value → ℕ
double_of (number n) = n
double_of undefined = 0
double_of null = 0
double_of (other t) = 0

abbrev put : Message → Bytes
put m = cut (m (field "difficulty")) ∷ double_of (m (field_double "difficulty")) ∷ []

abbrev got : ℕ → ℕ → Message
got a d (field f) = if str_eq f "difficulty" then number a else undefined
got a d (field_double f) = if str_eq f "difficulty" then number d else undefined

abbrev take_two : Bytes → Option Message
take_two (a ∷ (d ∷ [])) = some (got a d)
take_two _ = none

abbrev came_back : Message → Message
came_back m = got (cut (m (field "difficulty"))) (double_of (m (field_double "difficulty")))

-- The difficulty is 2⁶⁴.
abbrev heavy : Message
heavy (field f) = number 18_446_744_073_709_551_616_000_000
heavy (field_double f) = undefined
