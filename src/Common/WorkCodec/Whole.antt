-- ===== src/Common/WorkCodec/Whole.antt =====
-- lib/common/work_codec.js, `repairLegacyOverflow`, on whole messages.
use mathlib.Core.List.{append_assoc, append-nil}
use nodejs_pool.Prelude.{
  ℕ, zero, suc, ◌+◌, ◌*◌, ◌≤◌, ltb, ◌≡◌, refl, sym, ◌∙◌, ap, subst, Bool, true, false, not, ◌&&◌,
  ◌||◌, Option, none, some, List, [], ◌∷◌, ◌++◌, if◌then◌else◌, length, length-append, arith,
  Bool-cases, inl, inr, All,
}
use nodejs_pool.Common.WorkCodec.Repair.{
  Tags, RepairScan, extension_of, is_extension, has_tag, is_some_tag, note_work, note_tag, scan_on,
  scan_field, scan_fields, no_parts, conclude, repair_legacy_overflow,
}
use nodejs_pool.Common.WorkCodec.Varint.{write_varint}
use nodejs_pool.Common.WorkCodec.Repairs.{
  WireField, tag_of, type_of, body_of, write_field, write_fields, IsField, is_over, repaired,
  repair_fields, grown, after_field, scan_field-after,
}

module _ (to_double : ℕ → Option (List ℕ)) (tags : Tags) where
  unfoldable pub any_over : List WireField → Bool
  any_over [] = false
  any_over (f ∷ fs) = is_over to_double tags f || any_over fs

  unfoldable pub any_extension : List WireField → Bool
  any_extension [] = false
  any_extension (f ∷ fs) = is_extension (tag_of f) tags || any_extension fs

  -- A tag of work comes twice, or is one of those seen.
  unfoldable pub any_twice : List ℕ → List WireField → Bool
  any_twice seen [] = false
  any_twice seen (f ∷ fs) =
      if is_some_tag (extension_of (tag_of f) tags)
      then has_tag (tag_of f) seen || any_twice (tag_of f ∷ seen) fs
      else any_twice seen fs

  unfoldable after_fields : List WireField → RepairScan → RepairScan
  after_fields [] s = s
  after_fields (f ∷ fs) s = after_fields fs (after_field to_double tags f s)

  write_varint-starts : (k n : ℕ) → (b : ℕ) × (bs : List ℕ) × (write_varint (suc k) n ≡ b ∷ bs)
  unfolding write_varint
  write_varint-starts k n = elim (Bool-cases (ltb n 128)) [
    | inl q ↦ rw q (_, _, refl)
    | inr q ↦ rw q (_, _, refl)
  ]

  -- A field has a byte at least.
  write_field-starts :
      (f : WireField) → (b : ℕ) × (bs : List ℕ) × (write_field to_double tags f ≡ b ∷ bs)
  unfolding write_field
  write_field-starts f =
      let (b, bs, e) = write_varint-starts 4 (tag_of f * 8 + type_of f) in
      (b, bs ++ body_of to_double tags f, ap (λ l. l ++ body_of to_double tags f) e)

  scan_fields-first :
      (fuel b : ℕ) (bs l : List ℕ) (s : RepairScan)
      → l ≡ b ∷ bs
      → scan_fields to_double tags (suc fuel) l s
        ≡ scan_on to_double tags (scan_fields to_double tags fuel) (scan_field to_double tags l s)
  unfolding scan_fields
  scan_fields-first fuel b bs l s e =
      subst
        (λ l.
          scan_fields to_double tags (suc fuel) l s
          ≡ scan_on to_double tags (scan_fields to_double tags fuel)
              (scan_field to_double tags l s))
        (sym e) refl

  scan_fields-after :
      (fuel : ℕ) (fs : List WireField) (s : RepairScan)
      → length (write_fields to_double tags fs) ≤ fuel
      → All (IsField to_double tags) fs
      → scan_fields to_double tags fuel (write_fields to_double tags fs) s
        ≡ some (after_fields fs s)
  unfolding scan_fields write_fields after_fields
  scan_fields-after zero [] s le a = refl
  scan_fields-after (suc fuel) [] s le a = refl
  scan_fields-after zero (f ∷ fs) s le (w, a) =
      let (b, bs, e) = write_field-starts f in
      let n = ap length (ap (λ l. l ++ write_fields to_double tags fs) e) in
      absurd (omega (arith, le, n))
  scan_fields-after (suc fuel) (f ∷ fs) s le (w, a) =
      let rest = write_fields to_double tags fs in
      let (b, bs, e) = write_field-starts f in
      let n = length-append (write_field to_double tags f) rest in
      let m = ap length e in
      scan_fields-first fuel b (bs ++ rest) (write_field to_double tags f ++ rest) s
        (ap (λ l. l ++ rest) e)
      ∙ ap (scan_on to_double tags (scan_fields to_double tags fuel))
          (scan_field-after to_double tags f rest s w)
      ∙ scan_fields-after fuel fs (after_field to_double tags f s) (omega (arith, le, n, m)) a

  or_false : (b : Bool) → b ≡ b || false
  or_false true = refl
  or_false false = refl

  or_assoc : (a b c : Bool) → (a || b) || c ≡ a || (b || c)
  or_assoc true b c = refl
  or_assoc false b c = refl

  write_fields-append :
      (fs gs : List WireField)
      → write_fields to_double tags (fs ++ gs)
        ≡ write_fields to_double tags fs ++ write_fields to_double tags gs
  unfolding write_fields
  write_fields-append [] gs = refl
  write_fields-append (f ∷ fs) gs =
      ap (λ bs. write_field to_double tags f ++ bs) (write_fields-append fs gs)
      ∙ sym (
          append_assoc (write_field to_double tags f) (write_fields to_double tags fs)
            (write_fields to_double tags gs))

  noted-same :
      (t : ℕ) (s : RepairScan)
      → ((note_tag tags t s).parts ≡ s.parts)
        × ((note_tag tags t s).repaired ≡ s.repaired)
        × ((note_tag tags t s).has_extension ≡ s.has_extension || is_extension t tags)
  noted-same t s = elim (Bool-cases (is_some_tag (extension_of t tags))) [
    | inl q ↦ rw q (refl, refl, refl)
    | inr q ↦ rw q (refl, refl, refl)
  ]

  after_fields-parts :
      (fs : List WireField) (s : RepairScan)
      → (after_fields fs s).parts
        ≡ s.parts ++ write_fields to_double tags (repair_fields to_double tags fs)
  unfolding after_fields write_fields repair_fields
  after_fields-parts [] s = sym (append-nil s.parts)
  after_fields-parts (f ∷ fs) s =
      let (p, r, x) = noted-same (tag_of f) s in
      after_fields-parts fs (after_field to_double tags f s)
      ∙ ap
          (λ bs.
            (bs ++ write_fields to_double tags (repaired to_double tags f))
            ++ write_fields to_double tags (repair_fields to_double tags fs))
          p
      ∙ append_assoc s.parts (write_fields to_double tags (repaired to_double tags f))
          (write_fields to_double tags (repair_fields to_double tags fs))
      ∙ ap (λ bs. s.parts ++ bs)
          (sym (write_fields-append (repaired to_double tags f) (repair_fields to_double tags fs)))

  after_fields-repaired :
      (fs : List WireField) (s : RepairScan)
      → (after_fields fs s).repaired ≡ s.repaired || any_over fs
  unfolding after_fields any_over
  after_fields-repaired [] s = or_false s.repaired
  after_fields-repaired (f ∷ fs) s =
      let (p, r, x) = noted-same (tag_of f) s in
      after_fields-repaired fs (after_field to_double tags f s)
      ∙ ap (λ b. (b || is_over to_double tags f) || any_over fs) r
      ∙ or_assoc s.repaired (is_over to_double tags f) (any_over fs)

  after_fields-extension :
      (fs : List WireField) (s : RepairScan)
      → (after_fields fs s).has_extension ≡ s.has_extension || any_extension fs
  unfolding after_fields any_extension
  after_fields-extension [] s = or_false s.has_extension
  after_fields-extension (f ∷ fs) s =
      let (p, r, x) = noted-same (tag_of f) s in
      after_fields-extension fs (after_field to_double tags f s)
      ∙ ap (λ b. b || any_extension fs) x
      ∙ or_assoc s.has_extension (is_extension (tag_of f) tags) (any_extension fs)

  -- The scan with the tag noted, of a field of work or another one.
  note_tag-work :
      (t : ℕ) (s : RepairScan)
      → is_some_tag (extension_of t tags) ≡ true
      → note_tag tags t s
        ≡ note_work true t (record s { has_extension = s.has_extension || is_extension t tags })
  note_tag-work t s q =
      ap (λ b. note_work b t (record s { has_extension = s.has_extension || is_extension t tags }))
        q

  note_tag-other :
      (t : ℕ) (s : RepairScan)
      → is_some_tag (extension_of t tags) ≡ false
      → note_tag tags t s
        ≡ note_work false t (record s { has_extension = s.has_extension || is_extension t tags })
  note_tag-other t s q =
      ap (λ b. note_work b t (record s { has_extension = s.has_extension || is_extension t tags }))
        q

  after_fields-twice :
      (fs : List WireField) (s : RepairScan)
      → (after_fields fs s).duplicate_work ≡ s.duplicate_work || any_twice s.seen_work fs
  unfolding after_fields any_twice
  after_fields-twice [] s = or_false s.duplicate_work
  after_fields-twice (f ∷ fs) s = elim (Bool-cases (is_some_tag (extension_of (tag_of f) tags))) [
    | inl q ↦ rw q (
        ap (λ u. (after_fields fs (grown to_double tags f u)).duplicate_work)
          (note_tag-work (tag_of f) s q)
        ∙ after_fields-twice fs _
        ∙ or_assoc s.duplicate_work (has_tag (tag_of f) s.seen_work)
            (any_twice (tag_of f ∷ s.seen_work) fs))
    | inr q ↦ rw q (
        ap (λ u. (after_fields fs (grown to_double tags f u)).duplicate_work)
          (note_tag-other (tag_of f) s q)
        ∙ after_fields-twice fs _)
  ]

  -- A message of fields whose varints are in 64 bits, or of work with a finite double and tags in two
  -- bytes, is repaired exactly if a varint is over 64 bits, no field is an extension and no work comes
  -- twice: then each such varint becomes a zero and the extension with its double, and every other
  -- field stays as it is, in order.
  pub repair_legacy_overflow-write_fields :
      (fs : List WireField)
      → All (IsField to_double tags) fs
      → repair_legacy_overflow to_double tags (write_fields to_double tags fs) ≡ (
          if any_over fs && (not (any_extension fs) && not (any_twice [] fs))
          then some (write_fields to_double tags (repair_fields to_double tags fs))
          else none)
  unfolding repair_legacy_overflow
  repair_legacy_overflow-write_fields fs a =
      ap conclude
        (scan_fields-after (length (write_fields to_double tags fs)) fs no_parts (omega arith) a)
      ∙ rw
          (
            after_fields-repaired fs no_parts,
            after_fields-extension fs no_parts,
            after_fields-twice fs no_parts,
            after_fields-parts fs no_parts,
          )
          refl
