-- ===== src/Common/WorkCodec/Repairs.antt =====
-- lib/common/work_codec.js, `repairLegacyOverflow`, on messages that are written field by field.
use nodejs_pool.Prelude.{
  ℕ, ◌+◌, ◌*◌, ◌/◌, ◌%◌, ◌<◌, ◌≡◌, ◌⊎◌, refl, sym, ◌∙◌, ap, Bool, true, false, not, ◌&&◌, ◌||◌,
  Option, some, List, [], ◌∷◌, ◌++◌, ◌==◌, ltb, leb, if◌then◌else◌, length, length-append, arith,
  Bool-cases, inl, inr,
}
use mathlib.Core.List.{append_assoc, append-nil}
use nodejs_pool.Common.WorkCodec.Repair.{
  Tags, RepairScan, extension_of, is_some_tag, read_varint, short_prefix, two_64, note_tag,
  keep_bytes, varint_field, skip_field, max_bytes_of, field_of_type, with_prefix, scan_field,
}
use nodejs_pool.Common.WorkCodec.Varint.{
  write_varint, fits, read_more-write_varint, fits_five, write_varint-short_prefix,
  read_bytes-append, drop-append,
}

-- A field of a message by its wire type, with its tag.
pub data WireField : Type 0 where
  varint : ℕ → ℕ → WireField
  fixed64 : ℕ → List ℕ → WireField
  text : ℕ → List ℕ → WireField
  fixed32 : ℕ → List ℕ → WireField

abbrev pub tag_of : WireField → ℕ
tag_of (varint t n) = t
tag_of (fixed64 t b) = t
tag_of (text t b) = t
tag_of (fixed32 t b) = t

abbrev pub type_of : WireField → ℕ
type_of (varint t n) = 0
type_of (fixed64 t b) = 1
type_of (text t b) = 2
type_of (fixed32 t b) = 5

module _ (to_double : ℕ → Option (List ℕ)) (tags : Tags) where
  abbrev pub body_of : WireField → List ℕ
  body_of (varint t n) = write_varint (max_bytes_of (extension_of t tags)) n
  body_of (fixed64 t b) = b
  body_of (text t b) = write_varint 5 (length b) ++ b
  body_of (fixed32 t b) = b

  unfoldable pub write_field : WireField → List ℕ
  write_field f = write_varint 5 (tag_of f * 8 + type_of f) ++ body_of f

  unfoldable pub write_fields : List WireField → List ℕ
  write_fields [] = []
  write_fields (f ∷ fs) = write_field f ++ write_fields fs

  -- A varint in 64 bits, or of work with a finite double, and tags in two bytes.
  abbrev pub IsWritten : ℕ → ℕ → Type 0
  IsWritten t n =
      (n < two_64)
      ⊎ ((e : ℕ) × (d : List ℕ) × (extension_of t tags ≡ some e)
          × (to_double n ≡ some d)
          × (t < 2_047)
          × (e < 2_047))

  abbrev pub IsPlain : ℕ → Type 0
  IsPlain t = is_some_tag (extension_of t tags) ≡ false

  abbrev pub IsBody : WireField → Type 0
  IsBody (varint t n) = (fits (max_bytes_of (extension_of t tags)) n ≡ true) × IsWritten t n
  IsBody (fixed64 t b) = (length b ≡ 8) × IsPlain t
  IsBody (text t b) = (length b < 4_294_967_296) × IsPlain t
  IsBody (fixed32 t b) = (length b ≡ 4) × IsPlain t

  abbrev pub IsField : WireField → Type 0
  IsField f = (0 < tag_of f) × (tag_of f < 536_870_912) × IsBody f

  abbrev pub is_over : WireField → Bool
  is_over (varint t n) = not (ltb n two_64)
  is_over (fixed64 t b) = false
  is_over (text t b) = false
  is_over (fixed32 t b) = false

  abbrev pub extended : ℕ → Option ℕ → Option (List ℕ) → List WireField
  extended t (some e) (some d) = varint t 0 ∷ fixed64 e d ∷ []
  extended t _ _ = []

  -- A varint of work beyond 64 bits becomes a zero and the extension with its double.
  abbrev pub repaired : WireField → List WireField
  repaired (varint t n) =
      if ltb n two_64 then varint t n ∷ [] else extended t (extension_of t tags) (to_double n)
  repaired (fixed64 t b) = fixed64 t b ∷ []
  repaired (text t b) = text t b ∷ []
  repaired (fixed32 t b) = fixed32 t b ∷ []

  unfoldable pub repair_fields : List WireField → List WireField
  repair_fields [] = []
  repair_fields (f ∷ fs) = repaired f ++ repair_fields fs

  -- What the scan of a field leaves, after its tag is noted.
  abbrev pub grown : WireField → RepairScan → RepairScan
  grown f u = record u {
    parts = u.parts ++ write_fields (repaired f);
    repaired = u.repaired || is_over f;
  }

  abbrev pub after_field : WireField → RepairScan → RepairScan
  after_field f s = grown f (note_tag tags (tag_of f) s)

  prefix_read :
      (t y : ℕ) (tail : List ℕ) (bs : List ℕ) (s : RepairScan)
      → 0 < t
      → t < 536_870_912
      → y < 8
      → with_prefix to_double tags bs (read_varint 5 (write_varint 5 (t * 8 + y) ++ tail)) s
        ≡ field_of_type to_double tags bs
            (t * 8 + y)
            (extension_of t tags)
            y
            tail
            (note_tag tags t s)
  prefix_read t y tail bs s pos lt small =
      let over : leb 4_294_967_296 (t * 8 + y) ≡ false = ground arith in
      let tag : (t * 8 + y) / 8 ≡ t = omega arith in
      let type : (t * 8 + y) % 8 ≡ y = omega arith in
      let here : t == 0 ≡ false = ground arith in
      let r =
        read_more-write_varint 5 true (t * 8 + y) tail (fits_five (t * 8 + y) (omega arith)) refl in
      rw (r, tag, type, over, here) refl

  type_small : (f : WireField) → type_of f < 8
  type_small (varint t n) = omega arith
  type_small (fixed64 t b) = omega arith
  type_small (text t b) = omega arith
  type_small (fixed32 t b) = omega arith

  field_read :
      (f : WireField) (rest : List ℕ) (s : RepairScan)
      → 0 < tag_of f
      → tag_of f < 536_870_912
      → scan_field to_double tags (write_field f ++ rest) s
        ≡ field_of_type to_double tags
            (write_field f ++ rest)
            (tag_of f * 8 + type_of f)
            (extension_of (tag_of f) tags)
            (type_of f)
            (body_of f ++ rest)
            (note_tag tags (tag_of f) s)
  unfolding scan_field write_field
  field_read f rest s pos lt =
      let a = append_assoc (write_varint 5 (tag_of f * 8 + type_of f)) (body_of f) rest in
      ap (λ bs. with_prefix to_double tags (write_field f ++ rest) (read_varint 5 bs) s) a
      ∙ prefix_read (tag_of f) (type_of f) (body_of f ++ rest) (write_field f ++ rest) s pos lt
          (type_small f)

  -- A field is copied: its bytes before the rest are kept.
  skip_copies :
      (bs b rest : List ℕ) (n : ℕ) (s : RepairScan)
      → length b ≡ n
      → skip_field to_double tags bs n (b ++ rest) s ≡ some (keep_bytes bs rest s, rest)
  skip_copies bs b rest n s e =
      let long : ltb (length (b ++ rest)) n ≡ false = ground (arith, length-append b rest, e) in
      rw (long, sym e, drop-append b rest) refl

  written_once : (f : WireField) → write_fields (f ∷ []) ≡ write_field f
  unfolding write_fields
  written_once f = append-nil (write_field f)

  or_false : (b : Bool) → b ≡ b || false
  or_false true = refl
  or_false false = refl

  or_true : (b : Bool) → true ≡ b || true
  or_true true = refl
  or_true false = refl

  kept_as :
      (f : WireField) (rest : List ℕ) (u : RepairScan)
      → keep_bytes (write_field f ++ rest) rest u
        ≡ record u { parts = u.parts ++ write_fields (f ∷ []); repaired = u.repaired || false }
  kept_as f rest u =
      ap (λ bs. record u { parts = u.parts ++ bs })
        (read_bytes-append (write_field f) rest ∙ sym (written_once f))
      ∙ ap (λ b. record u { parts = u.parts ++ write_fields (f ∷ []); repaired = b })
          (or_false u.repaired)

  sentinel :
      (t e : ℕ) (d : List ℕ)
      → t < 2_047
      → e < 2_047
      → extension_of t tags ≡ some e
      → (short_prefix (t * 8 + 0) ++ (0 ∷ [])) ++ (short_prefix (e * 8 + 1) ++ d)
        ≡ write_fields (varint t 0 ∷ fixed64 e d ∷ [])
  unfolding write_fields write_field write_varint
  sentinel t e d lt lt' x =
      rw
        (
          x,
          write_varint-short_prefix (t * 8 + 0) (omega arith),
          write_varint-short_prefix (e * 8 + 1) (omega arith),
          append-nil (short_prefix (e * 8 + 1) ++ d),
        )
        refl

  varint_field-grown :
      (t n : ℕ) (rest : List ℕ) (u : RepairScan)
      → IsWritten t n
      → varint_field to_double tags
          (write_field (varint t n) ++ rest)
          (t * 8 + 0)
          (extension_of t tags)
          (some (n, rest))
          u
        ≡ some (grown (varint t n) u, rest)
  varint_field-grown t n rest u (inl small) =
      let q : ltb n two_64 ≡ true = ground arith in
      rw q (ap (λ s. some (s, rest)) (kept_as (varint t n) rest u))
  varint_field-grown t n rest u (inr (e, d, x, y, lt, lt')) = elim (Bool-cases (ltb n two_64)) [
    | inl q ↦ rw q (ap (λ s. some (s, rest)) (kept_as (varint t n) rest u))
    | inr q ↦
        rw (q, x, y)
          (ap (λ s. some (s, rest))
            (ap (λ bs. record u { parts = u.parts ++ bs; repaired = true })
                (sentinel t e d lt lt' x)
              ∙ ap
                  (λ b. record u {
                    parts = u.parts ++ write_fields (varint t 0 ∷ fixed64 e d ∷ []);
                    repaired = b;
                  })
                  (or_true u.repaired)))
  ]

  and_false : (b : Bool) → b && false ≡ false
  and_false true = refl
  and_false false = refl

  fixed64_copies :
      (bs b rest : List ℕ) (p : ℕ) (e : Option ℕ) (u : RepairScan)
      → is_some_tag e ≡ false
      → length b ≡ 8
      → field_of_type to_double tags bs p e 1 (b ++ rest) u ≡ some (keep_bytes bs rest u, rest)
  fixed64_copies bs b rest p e u plain len = rw plain (skip_copies bs b rest 8 u len)

  fixed32_copies :
      (bs b rest : List ℕ) (p : ℕ) (e : Option ℕ) (u : RepairScan)
      → is_some_tag e ≡ false
      → length b ≡ 4
      → field_of_type to_double tags bs p e 5 (b ++ rest) u ≡ some (keep_bytes bs rest u, rest)
  fixed32_copies bs b rest p e u plain len = rw plain (skip_copies bs b rest 4 u len)

  text_copies :
      (bs b rest : List ℕ) (p : ℕ) (e : Option ℕ) (u : RepairScan)
      → is_some_tag e ≡ false
      → length b < 4_294_967_296
      → field_of_type to_double tags bs p e 2 ((write_varint 5 (length b) ++ b) ++ rest) u
        ≡ some (keep_bytes bs rest u, rest)
  text_copies bs b rest p e u plain small =
      let r =
        read_more-write_varint 5 true (length b) (b ++ rest) (fits_five (length b) small) refl in
      rw (plain, append_assoc (write_varint 5 (length b)) b rest, r)
        (skip_copies bs b rest (length b) u refl)

  varint_copies :
      (bs rest : List ℕ) (n p : ℕ) (e : Option ℕ) (u : RepairScan)
      → fits (max_bytes_of e) n ≡ true
      → field_of_type to_double tags bs p e 0 (write_varint (max_bytes_of e) n ++ rest) u
        ≡ varint_field to_double tags bs p e (some (n, rest)) u
  varint_copies bs rest n p e u fit =
      rw (and_false (is_some_tag e), read_more-write_varint (max_bytes_of e) true n rest fit refl)
        refl

  pub scan_field-after :
      (f : WireField) (rest : List ℕ) (s : RepairScan)
      → IsField f
      → scan_field to_double tags (write_field f ++ rest) s ≡ some (after_field f s, rest)
  scan_field-after (varint t n) rest s (pos, lt, (fit, b)) =
      field_read (varint t n) rest s pos lt
      ∙ varint_copies (write_field (varint t n) ++ rest) rest n (t * 8 + 0) (extension_of t tags)
          (note_tag tags t s) fit
      ∙ varint_field-grown t n rest (note_tag tags t s) b
  scan_field-after (fixed64 t b) rest s (pos, lt, (len, plain)) =
      field_read (fixed64 t b) rest s pos lt
      ∙ fixed64_copies (write_field (fixed64 t b) ++ rest) b rest (t * 8 + 1) (extension_of t tags)
          (note_tag tags t s) plain len
      ∙ ap (λ s. some (s, rest)) (kept_as (fixed64 t b) rest (note_tag tags t s))
  scan_field-after (text t b) rest s (pos, lt, (small, plain)) =
      field_read (text t b) rest s pos lt
      ∙ text_copies (write_field (text t b) ++ rest) b rest (t * 8 + 2) (extension_of t tags)
          (note_tag tags t s) plain small
      ∙ ap (λ s. some (s, rest)) (kept_as (text t b) rest (note_tag tags t s))
  scan_field-after (fixed32 t b) rest s (pos, lt, (len, plain)) =
      field_read (fixed32 t b) rest s pos lt
      ∙ fixed32_copies (write_field (fixed32 t b) ++ rest) b rest (t * 8 + 5) (extension_of t tags)
          (note_tag tags t s) plain len
      ∙ ap (λ s. some (s, rest)) (kept_as (fixed32 t b) rest (note_tag tags t s))
