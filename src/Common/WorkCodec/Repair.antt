-- ===== src/Common/WorkCodec/Repair.antt =====
-- lib/common/work_codec.js, `repairLegacyOverflow`, on a whole buffer: the bytes of a message whose
-- varints of work are over 64 bits. The conversion of a number to the eight bytes of a double is a
-- parameter, which gives none where the double is not finite.
use nodejs_pool.Prelude.{
  ℕ, zero, suc, ◌+◌, ◌-◌, ◌*◌, ◌/◌, ◌%◌, Bool, true, false, not, ◌&&◌, ◌||◌, Option, none, some,
  List, [], ◌∷◌, ◌++◌, ◌==◌, ltb, leb, if◌then◌else◌, length, take, drop,
}

-- From the tag of a field of work to the tag of its extension.
abbrev pub Tags : Type 0
Tags = List (ℕ × ℕ)

unfoldable pub extension_of : ℕ → Tags → Option ℕ
extension_of t [] = none
extension_of t ((a, e) ∷ m) = if a == t then some e else extension_of t m

unfoldable pub is_extension : ℕ → Tags → Bool
is_extension t [] = false
is_extension t ((a, e) ∷ m) = if e == t then true else is_extension t m

unfoldable pub has_tag : ℕ → List ℕ → Bool
has_tag t [] = false
has_tag t (a ∷ m) = if a == t then true else has_tag t m

abbrev pub add_low : ℕ → Option (ℕ × List ℕ) → Option (ℕ × List ℕ)
add_low low none = none
add_low low (some (high, rest)) = some (low + 128 * high, rest)

-- `readVarint`, after the first byte or at it: a last byte that is zero is refused but at the first.
unfoldable pub read_more : ℕ → Bool → List ℕ → Option (ℕ × List ℕ)
read_more zero first bs = none
read_more (suc n) first [] = none
read_more (suc n) first (b ∷ bs) =
    if ltb b 128
    then (if not first && b == 0 then none else some (b, bs))
    else add_low (b % 128) (read_more n false bs)

abbrev pub read_varint : ℕ → List ℕ → Option (ℕ × List ℕ)
read_varint max_bytes bs = read_more max_bytes true bs

-- What the loop collects: the parts, whether one was repaired, whether an extension or a second field
-- of the same work was seen, and the tags of work seen.
pub record RepairScan : Type 0 where
  pub parts : List ℕ
  pub repaired : Bool
  pub has_extension : Bool
  pub duplicate_work : Bool
  pub seen_work : List ℕ

abbrev pub is_some_tag : Option ℕ → Bool
is_some_tag none = false
is_some_tag (some e) = true

abbrev pub note_work : Bool → ℕ → RepairScan → RepairScan
note_work false t s = s
note_work true t s = record s {
  duplicate_work = s.duplicate_work || has_tag t s.seen_work;
  seen_work = t ∷ s.seen_work;
}

abbrev pub note_tag : Tags → ℕ → RepairScan → RepairScan
note_tag tags t s =
    note_work (is_some_tag (extension_of t tags)) t
      (record s { has_extension = s.has_extension || is_extension t tags })

-- A prefix in one byte or two.
abbrev pub short_prefix : ℕ → List ℕ
short_prefix p = if ltb p 128 then p ∷ [] else (p % 128 + 128) ∷ ((p / 128) ∷ [])

-- The bytes that were read, before the rest.
abbrev pub read_bytes : List ℕ → List ℕ → List ℕ
read_bytes bs rest = take (length bs - length rest) bs

abbrev pub keep_bytes : List ℕ → List ℕ → RepairScan → RepairScan
keep_bytes bs rest s = record s { parts = s.parts ++ read_bytes bs rest }

abbrev pub two_64 : ℕ
two_64 = 18_446_744_073_709_551_616

abbrev pub max_bytes_of : Option ℕ → ℕ
max_bytes_of none = 10
max_bytes_of (some e) = 147

abbrev pub no_parts : RepairScan
no_parts = record {
  parts = [];
  repaired = false;
  has_extension = false;
  duplicate_work = false;
  seen_work = [];
}

abbrev pub conclude : Option RepairScan → Option (List ℕ)
conclude none = none
conclude (some s) =
    if s.repaired && (not s.has_extension && not s.duplicate_work) then some s.parts else none

module _ (to_double : ℕ → Option (List ℕ)) (tags : Tags) where
  abbrev pub put_extension : ℕ → ℕ → Option (List ℕ) → RepairScan → Option RepairScan
  put_extension prefix e none s = none
  put_extension prefix e (some d) s = some (record s {
    parts = s.parts ++ ((short_prefix prefix ++ (0 ∷ [])) ++ (short_prefix (e * 8 + 1) ++ d));
    repaired = true;
  })

  -- A varint beyond 64 bits: of work, it becomes a zero and an extension.
  abbrev pub overflow : ℕ → Option ℕ → ℕ → RepairScan → Option RepairScan
  overflow prefix none v s = none
  overflow prefix (some e) v s = put_extension prefix e (to_double v) s

  abbrev pub with_rest : Option RepairScan → List ℕ → Option (RepairScan × List ℕ)
  with_rest none rest = none
  with_rest (some s) rest = some (s, rest)

  abbrev pub varint_field :
      List ℕ → ℕ → Option ℕ → Option (ℕ × List ℕ) → RepairScan → Option (RepairScan × List ℕ)
  varint_field bs prefix e none s = none
  varint_field bs prefix e (some (v, rest)) s =
      with_rest (if ltb v two_64 then some (keep_bytes bs rest s) else overflow prefix e v s) rest

  -- So many bytes are skipped.
  abbrev pub skip_field : List ℕ → ℕ → List ℕ → RepairScan → Option (RepairScan × List ℕ)
  skip_field bs n rest s =
      if ltb (length rest) n then none else some (keep_bytes bs (drop n rest) s, drop n rest)

  abbrev pub bytes_field : List ℕ → Option (ℕ × List ℕ) → RepairScan → Option (RepairScan × List ℕ)
  bytes_field bs none s = none
  bytes_field bs (some (n, rest)) s = skip_field bs n rest s

  -- The rest of a field, by its wire type.
  abbrev pub field_of_type :
      List ℕ → ℕ → Option ℕ → ℕ → List ℕ → RepairScan → Option (RepairScan × List ℕ)
  field_of_type bs prefix e wire_type rest s =
      if is_some_tag e && not (wire_type == 0)
      then none
      else if wire_type == 0
      then varint_field bs prefix e (read_varint (max_bytes_of e) rest) s
      else if wire_type == 1
      then skip_field bs 8 rest s
      else if wire_type == 2
      then bytes_field bs (read_varint 5 rest) s
      else if wire_type == 5
      then skip_field bs 4 rest s
      else none

  abbrev pub with_prefix : List ℕ → Option (ℕ × List ℕ) → RepairScan → Option (RepairScan × List ℕ)
  with_prefix bs none s = none
  with_prefix bs (some (prefix, rest)) s =
      let tag = prefix / 8 in
      if leb 4_294_967_296 prefix || tag == 0
      then none
      else field_of_type bs prefix (extension_of tag tags) (prefix % 8) rest (note_tag tags tag s)

  -- The body of the loop.
  unfoldable pub scan_field : List ℕ → RepairScan → Option (RepairScan × List ℕ)
  scan_field bs s = with_prefix bs (read_varint 5 bs) s

  abbrev pub scan_on :
      (List ℕ → RepairScan → Option RepairScan) → Option (RepairScan × List ℕ) → Option RepairScan
  scan_on go none = none
  scan_on go (some (s, rest)) = go rest s

  -- The loop, with fuel for one field a byte.
  unfoldable pub scan_fields : ℕ → List ℕ → RepairScan → Option RepairScan
  scan_fields fuel [] s = some s
  scan_fields zero (b ∷ bs) s = none
  scan_fields (suc fuel) (b ∷ bs) s = scan_on (scan_fields fuel) (scan_field (b ∷ bs) s)

  unfoldable pub repair_legacy_overflow : List ℕ → Option (List ℕ)
  repair_legacy_overflow bs = conclude (scan_fields (length bs) bs no_parts)
