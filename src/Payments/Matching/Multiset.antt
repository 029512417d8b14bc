-- ===== src/Payments/Matching/Multiset.antt =====
-- `transferMatchesBatch` decides that the outputs are those of the batch, each as often.
use nodejs_pool.Prelude.{
  ℕ, zero, suc, ◌+◌, ◌<◌, ◌≡◌, ◌↔◌, refl, ◌⊎◌, inl, inr, true, false, none, some, List, [], ◌∷◌,
  map, ◌==◌, if◌then◌else◌, length, arith, Option-cases, Bool-cases, subst, count_if,
}
use nodejs_pool.Payments.Store.{Item, Batch}
use nodejs_pool.Payments.Planner.{or_zero}
use nodejs_pool.Payments.Matching.{
  Key, key_eq, Counts, get, add_key, item_key, destination_multiset, take_one, consume, consume_all,
  Transfer, normalize_transfer_destinations, transfer_matches_batch, is_single_integrated_batch,
  too_early, is_bulk, is_exhausted,
}
use nodejs_pool.Payments.Matching.Counts.{
  key_eq_iff, left, IsClean, get-put, get-delete, put-IsClean, delete-IsClean, clean-empty,
}

-- How often a key stands in a list.
abbrev pub times : Key → List Key → ℕ
times k ks = count_if (key_eq k) ks

-- `destinationMultiset` counts the items.
left-destination_multiset :
    (m : Counts) (is : List Item) (k : Key)
    → left k (destination_multiset m is) ≡ left k m + times k (map item_key is)
unfolding destination_multiset add_key
left-destination_multiset m [] k = omega arith
left-destination_multiset m (i ∷ is) k = ground (
  arith,
  left-destination_multiset (add_key (item_key i) m) is k,
  get-put (item_key i) k (or_zero (get (item_key i) m) + 1) m,
  key_eq_iff k (item_key i),
  key_eq_iff (item_key i) k,
)

destination_multiset-IsClean :
    (m : Counts) (is : List Item) → IsClean m → IsClean (destination_multiset m is)
unfolding destination_multiset add_key
destination_multiset-IsClean m [] h = h
destination_multiset-IsClean m (i ∷ is) h =
    destination_multiset-IsClean (add_key (item_key i) m) is
      (put-IsClean (item_key i) (or_zero (get (item_key i) m) + 1) m (omega arith) h)

-- One step of the loop takes one output of its key, and fails only where none is left.
take_one_lem :
    (k j : Key) (c : ℕ) (m m' : Counts)
    → IsClean m
    → left k m ≡ c
    → take_one k c m ≡ some m'
    → (left j m ≡ left j m' + (if key_eq j k then 1 else 0)) × IsClean m'
unfolding take_one
take_one_lem k j zero m m' h e q = cc
take_one_lem k j (suc n) m m' h e q = elim (Bool-cases (n == 0)) [
  | inl z ↦
      subst (λ x. (left j m ≡ left j x + (if key_eq j k then 1 else 0)) × IsClean x) (ground arith)
        (ground (arith, get-delete k j m h, key_eq_iff k j, key_eq_iff j k), delete-IsClean k m h)
  | inr z ↦
      subst (λ x. (left j m ≡ left j x + (if key_eq j k then 1 else 0)) × IsClean x) (ground arith)
        (
          ground (arith, get-put k j n m, key_eq_iff k j, key_eq_iff j k),
          put-IsClean k n m (ground arith) h,
        )
]

take_one-none : (k : Key) (c : ℕ) (m : Counts) → take_one k c m ≡ none → c ≡ 0
unfolding take_one
take_one-none k zero m e = refl
take_one-none k (suc n) m e = cc

consume_lem :
    (k j : Key) (m m' : Counts)
    → IsClean m
    → consume k m ≡ some m'
    → (left j m ≡ left j m' + (if key_eq j k then 1 else 0)) × IsClean m'
unfolding consume
consume_lem k j m m' h e = take_one_lem k j (left k m) m m' h refl e

consume-none : (k : Key) (m : Counts) → consume k m ≡ none → left k m ≡ 0
unfolding consume
consume-none k m e = take_one-none k (left k m) m e

consume_all_lem :
    (ks : List Key) (m m' : Counts) (j : Key)
    → IsClean m
    → consume_all ks m ≡ some m'
    → (left j m ≡ left j m' + times j ks) × IsClean m'
unfolding consume_all
consume_all_lem [] m m' j h e =
    subst (λ x. (left j m ≡ left j x + 0) × IsClean x) (ground arith) (omega arith, h)
consume_all_lem (k ∷ ks) m m' j h e = elim (Option-cases (consume k m)) [
  | inl q ↦ absurd (ground arith)
  | inr (n, q) ↦
      let step = consume_lem k j m n h q in
      let rest = consume_all_lem ks n m' j step.1 (ground arith) in (ground arith, rest.1)
]

consume_all-none :
    (ks : List Key) (m : Counts)
    → IsClean m
    → consume_all ks m ≡ none
    → (j : Key) × (left j m < times j ks)
unfolding consume_all
consume_all-none [] m h e = absurd (ground arith)
consume_all-none (k ∷ ks) m h e = elim (Option-cases (consume k m)) [
  | inl q ↦ (k, ground (arith, consume-none k m q, key_eq_iff k k))
  | inr (n, q) ↦
      let (j, lt) = consume_all-none ks n (consume_lem k k m n h q).1 (ground arith) in
      (j, ground (arith, consume_lem k j m n h q))
]

left_of_empty : (m : Counts) (j : Key) → length m ≡ 0 → left j m ≡ 0
unfolding get
left_of_empty [] j e = refl
left_of_empty (x ∷ m) j e = absurd (omega arith)

exhausted : (m : Counts) → is_exhausted (some m) ≡ true → length m ≡ 0
exhausted m e = ground arith

-- The loop with its last test decides that the outputs are those of the map, each as often.
is_exhausted_iff :
    (ks : List Key) (m : Counts)
    → IsClean m
    → (is_exhausted (consume_all ks m) ≡ true) ↔ ((j : Key) → times j ks ≡ left j m)
is_exhausted_iff ks m h = (forward, backward)
  where
    forward : is_exhausted (consume_all ks m) ≡ true → (j : Key) → times j ks ≡ left j m
    forward e j = elim (Option-cases (consume_all ks m)) [
      | inl q ↦ absurd (ground arith)
      | inr (m', q) ↦
          omega
            (arith, consume_all_lem ks m m' j h q, left_of_empty m' j (exhausted m' (rw q at e)))
    ]

    backward : ((j : Key) → times j ks ≡ left j m) → is_exhausted (consume_all ks m) ≡ true
    backward same = elim (Option-cases (consume_all ks m)) [
      | inl q ↦ let (j, lt) = consume_all-none ks m h q in absurd (omega (arith, same j))
      | inr (m', q) ↦ rw q (
          ground (
            arith,
            clean-empty m' (consume_all_lem ks m m' ("", 0) h q).1
                (λ k. omega (arith, same k, consume_all_lem ks m m' k h q)),
          ))
    ]

nothing : (j : Key) → left j [] ≡ 0
unfolding get
nothing j = refl

-- What a match of a transfer with a batch means.
pub record Matches (b : Batch) (items : List Item) (t : Transfer) : Type 0 where
  pub in_time : too_early t.timestamp (or_zero b.submit_started_at) ≡ false
  pub address_only : (t.payment_id ≡ none) ⊎ (is_single_integrated_batch b items ≡ true)
  pub same_length : length (normalize_transfer_destinations t) ≡ length items
  pub single : (is_bulk b.batch_type ≡ true) ⊎ (length items ≡ 1)
  pub same_outputs :
      (j : Key) → times j (normalize_transfer_destinations t) ≡ times j (map item_key items)

-- A transfer matches a batch exactly when it is not older than the submit, carries no payment id
-- unless the batch pays one integrated address, has as many outputs as the batch has items (one where
-- the batch is not bulk), and each pair of an address and an amount as often.
pub transfer_matches_batch_iff :
    (b : Batch) (items : List Item) (t : Transfer)
    → (transfer_matches_batch b items t ≡ true) ↔ Matches b items t
unfolding transfer_matches_batch
transfer_matches_batch_iff b items t = (sound, complete)
  where
    outputs : List Key
    outputs = normalize_transfer_destinations t

    decides :
        (is_exhausted (consume_all outputs (destination_multiset [] items)) ≡ true)
        ↔ ((j : Key) → times j outputs ≡ left j (destination_multiset [] items))
    decides =
        is_exhausted_iff outputs (destination_multiset [] items)
          (destination_multiset-IsClean [] items tt)

    sound : transfer_matches_batch b items t ≡ true → Matches b items t
    sound e = record {
      in_time = ground arith;
      address_only = ground arith;
      same_length = ground arith;
      single = ground arith;
      same_outputs = λ j.
          omega
            (arith, decides.0 (ground arith) j, left-destination_multiset [] items j, nothing j);
    }

    complete : Matches b items t → transfer_matches_batch b items t ≡ true
    complete v =
        let all =
          decides.1 (λ j.
            omega (arith, v.same_outputs j, left-destination_multiset [] items j, nothing j)) in
        ground (arith, all)
