-- ===== src/Payments/Matching.antt =====
-- `transferMatchesBatch` of lib/payments/common.js: a transfer of the wallet's history against a
-- batch. A transfer carries its fields as `normalizeInteger`, `normalizePaymentId` and
-- `normalizeHash` read them; a key of the multiset is the pair of an address and an amount.
pub mod Counts
pub mod Multiset
use nodejs_pool.Prelude.{
  ℕ, zero, suc, ◌+◌, Bool, true, false, not, ◌&&◌, ◌||◌, Option, none, some, List, [], ◌∷◌, String,
  str_eq, ◌==◌, ltb, if◌then◌else◌, length,
}
use nodejs_pool.Payments.Store.{BatchType, bulk, integrated, Item, Batch, is_none}
use nodejs_pool.Payments.Planner.{is_integrated_address, or_zero}

-- The `type` of a transfer: the outgoing ones, and any other.
pub data TransferType : Type 0 where
  out pending in_pool other : TransferType

pub record Transfer : Type 0 where
  pub timestamp : Option ℕ
  pub payment_id : Option String
  pub txid : Option ℕ
  pub fee : Option ℕ
  pub transfer_type : TransferType
  pub double_spend_seen : Bool
  pub destinations : List (String × Option ℕ)
  pub address : String
  pub amount : Option ℕ

abbrev pub Key : Type 0
Key = String × ℕ

abbrev pub key_eq : Key → Key → Bool
key_eq (a, n) (b, m) = str_eq a b && n == m

-- The filter of `normalizeTransferDestinations`: an address, and an amount.
unfoldable pub valid_destinations : List (String × Option ℕ) → List Key
valid_destinations [] = []
valid_destinations ((a, none) ∷ ds) = valid_destinations ds
valid_destinations ((a, some n) ∷ ds) =
    if str_eq a "" then valid_destinations ds else (a, n) ∷ valid_destinations ds

abbrev single_destination : String → Option ℕ → List Key
single_destination a none = []
single_destination a (some n) = if str_eq a "" then [] else (a, n) ∷ []

unfoldable pub normalize_transfer_destinations : Transfer → List Key
normalize_transfer_destinations t =
    if length t.destinations == 0
    then single_destination t.address t.amount
    else valid_destinations t.destinations

-- The `Map` of expected counts.
abbrev pub Counts : Type 0
Counts = List (Key × ℕ)

unfoldable pub get : Key → Counts → Option ℕ
get k [] = none
get k ((j, n) ∷ m) = if key_eq k j then some n else get k m

unfoldable pub put : Key → ℕ → Counts → Counts
put k n [] = (k, n) ∷ []
put k n ((j, c) ∷ m) = if key_eq k j then (j, n) ∷ m else (j, c) ∷ put k n m

unfoldable pub delete : Key → Counts → Counts
delete k [] = []
delete k ((j, c) ∷ m) = if key_eq k j then m else (j, c) ∷ delete k m

abbrev pub item_key : Item → Key
item_key i = (i.payment_address, i.net_amount)

unfoldable pub add_key : Key → Counts → Counts
add_key k m = put k (or_zero (get k m) + 1) m

-- `destinationMultiset`, from the map built so far.
unfoldable pub destination_multiset : Counts → List Item → Counts
destination_multiset m [] = m
destination_multiset m (i ∷ is) = destination_multiset (add_key (item_key i) m) is

-- One expected output is consumed; `none` where there is none left.
unfoldable pub take_one : Key → ℕ → Counts → Option Counts
take_one k zero m = none
take_one k (suc n) m = some (if n == 0 then delete k m else put k n m)

unfoldable pub consume : Key → Counts → Option Counts
consume k m = take_one k (or_zero (get k m)) m

unfoldable pub consume_all : List Key → Counts → Option Counts
consume_all [] m = some m
consume_all (k ∷ ks) m = elim (consume k m) [ none ↦ none | some m' ↦ consume_all ks m' ]

abbrev is_exhausted : Option Counts → Bool
is_exhausted none = false
is_exhausted (some m) = length m == 0

abbrev pub is_bulk : BatchType → Bool
is_bulk bulk = true
is_bulk integrated = false

abbrev first_is_integrated : List Item → Bool
first_is_integrated [] = false
first_is_integrated (i ∷ is) = is_integrated_address i.payment_address

-- `!isBulk && items.length === 1 && isIntegratedAddress(items[0])`.
unfoldable pub is_single_integrated_batch : Batch → List Item → Bool
is_single_integrated_batch b items =
    not (is_bulk b.batch_type) && length items == 1 && first_is_integrated items

-- `timestamp === null || timestamp < sqlTimestampToUnix(batch.submit_started_at)`.
abbrev pub too_early : Option ℕ → ℕ → Bool
too_early none start = true
too_early (some t) start = ltb t start

unfoldable pub transfer_matches_batch : Batch → List Item → Transfer → Bool
transfer_matches_batch b items t =
    let destinations = normalize_transfer_destinations t in
    if too_early t.timestamp (or_zero b.submit_started_at)
    then false
    else if not (is_none t.payment_id) && not (is_single_integrated_batch b items)
    then false
    else if not (length destinations == length items)
    then false
    else if not (is_bulk b.batch_type) && not (length destinations == 1)
    then false
    else is_exhausted (consume_all destinations (destination_multiset [] items))
