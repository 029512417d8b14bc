-- ===== src/Payments/Planner.antt =====
-- lib/payments/planner.js: the fee, the payout of one balance row, and the plan of a cycle.
-- Amounts are atomic units as JavaScript holds them exactly; the slope of the fee is computed in
-- exact fractions before the floor.
pub mod Fees
pub mod Items
pub mod Recipients
pub mod Bulk
pub mod Backing
use Prim.Native.String.{count}
use nodejs_pool.Prelude.{
  ℕ, zero, suc, ◌+◌, ◌-◌, ◌*◌, ◌/◌, ◌%◌, Bool, false, not, ◌&&◌, ◌||◌, Option, none, some, List, [],
  ◌∷◌, ◌++◌, map, String, ◌==◌, ltb, leb, str_eq, if◌then◌else◌, length, take, drop, keep_if,
  sum_by,
}
use nodejs_pool.Payments.Store.{BatchType, bulk, integrated, Balance, User, Item, Store, is_none}

-- The settings of `config.payout` that planning reads, in atomic units.
pub record Config : Type 0 where
  pub fee_slew_amount : ℕ
  pub wallet_min : ℕ
  pub fee_slew_end : ℕ
  pub default_pay : ℕ
  pub exchange_min : ℕ
  pub fees_for_txn : ℕ
  pub denom : ℕ
  pub fee_address : String
  pub max_payment_txns : ℕ

-- A row of the planning query: the balance joined with the user's threshold.
pub record PayoutRow : Type 0 where
  pub id : ℕ
  pub payment_address : String
  pub payment_id : Option String
  pub pool_type : String
  pub amount : ℕ
  pub payout_threshold : Option ℕ

pub record Payout : Type 0 where
  pub item : Item
  pub threshold : ℕ
  pub custom_threshold : Bool
  pub integrated_address_threshold : ℕ

pub record BatchPlan : Type 0 where
  pub batch_type : BatchType
  pub items : List Item
  pub total_gross : ℕ
  pub total_net : ℕ
  pub total_fee : ℕ

abbrev pub or_zero : Option ℕ → ℕ
or_zero none = 0
or_zero (some n) = n

module _ (c : Config) where
  -- `Math.floor(baseFee - (grossAmount - walletMin) * (baseFee / (feeSlewEnd - walletMin)))`,
  -- where the gross amount lies between the two ends.
  abbrev tapered_fee : ℕ → ℕ
  tapered_fee gross =
      (c.fee_slew_amount * (c.fee_slew_end - c.wallet_min)
        - (gross - c.wallet_min) * c.fee_slew_amount)
      / (c.fee_slew_end - c.wallet_min)

  unfoldable pub calculate_charge_fee : ℕ → ℕ
  calculate_charge_fee gross =
      if leb gross c.wallet_min
      then c.fee_slew_amount
      else if leb gross c.fee_slew_end && ltb c.wallet_min c.fee_slew_end
      then tapered_fee gross
      else 0

  -- The pool's own fee balance keeps back what transfers will cost.
  abbrev pub payable_amount : PayoutRow → ℕ
  payable_amount row =
      if str_eq row.pool_type "fees" && str_eq row.payment_address c.fee_address
      then if leb (c.fees_for_txn + c.exchange_min) row.amount
        then row.amount - c.fees_for_txn
        else 0
      else row.amount

  -- Down to a multiple of the denomination.
  abbrev pub round_down : ℕ → ℕ
  round_down gross = gross - (if c.denom == 0 then 0 else gross % c.denom)

  unfoldable pub build_payout_item : PayoutRow → Option Payout
  build_payout_item row =
      let configured_threshold = or_zero row.payout_threshold in
      let gross = round_down (payable_amount row) in
      let fee = calculate_charge_fee gross in
      if leb gross 0
      then none
      else if leb gross fee
      then none
      else some (record {
        item = record {
          balance_id = row.id;
          pool_type = row.pool_type;
          payment_address = row.payment_address;
          gross_amount = gross;
          net_amount = gross - fee;
          fee_amount = fee;
        };
        threshold = if configured_threshold == 0 then c.default_pay else configured_threshold;
        custom_threshold = ltb 0 configured_threshold;
        integrated_address_threshold = c.exchange_min;
      })

-- `shouldSkipPayoutRow`: explicit payment ids are not paid, and a recipient is paid once a cycle.
abbrev pub contains : String → List String → Bool
contains a [] = false
contains a (x ∷ xs) = str_eq a x || contains a xs

unfoldable pub should_skip_payout_row : PayoutRow → List String → Bool
should_skip_payout_row row seen = not (is_none row.payment_id) || contains row.payment_address seen

-- `isIntegratedAddress` of lib/payments/common.js.
unfoldable pub is_integrated_address : String → Bool
is_integrated_address address = count address == 106

unfoldable pub integrated_batch_for : Item → ℕ → Bool → ℕ → Option BatchPlan
integrated_batch_for item threshold custom integrated_threshold =
    if ltb item.gross_amount threshold
    then none
    else if ltb item.gross_amount integrated_threshold
        && (not custom || leb item.gross_amount threshold)
    then none
    else some (record {
      batch_type = integrated;
      items = item ∷ [];
      total_gross = item.gross_amount;
      total_net = item.net_amount;
      total_fee = item.fee_amount;
    })

-- What the loop over the rows collects. The lists are in the order of the rows.
pub record Collected : Type 0 where
  pub seen : List String
  pub bulk_items : List Item
  pub integrated_batches : List BatchPlan

unfoldable pub collect_integrated : Collected → PayoutRow → Payout → Collected
collect_integrated s row p =
    elim (integrated_batch_for p.item p.threshold p.custom_threshold
      p.integrated_address_threshold) [
        | none ↦ s
        | some batch ↦ record s {
          seen = row.payment_address ∷ s.seen;
          integrated_batches = s.integrated_batches ++ batch ∷ [];
        }
      ]

unfoldable pub collect_bulk : Collected → PayoutRow → Payout → Collected
collect_bulk s row p =
    if leb p.threshold p.item.gross_amount
    then record s { seen = row.payment_address ∷ s.seen; bulk_items = s.bulk_items ++ p.item ∷ [] }
    else s

module _ (c : Config) where
  -- The body of the loop.
  unfoldable pub collect_row : Collected → PayoutRow → Collected
  collect_row s row =
      if should_skip_payout_row row s.seen then s else elim (build_payout_item c row) [
        | none ↦ s
        | some p ↦
            if is_integrated_address row.payment_address
            then collect_integrated s row p
            else collect_bulk s row p
      ]

  unfoldable pub collect_rows : Collected → List PayoutRow → Collected
  collect_rows s [] = s
  collect_rows s (row ∷ rows) = collect_rows (collect_row s row) rows

unfoldable pub bulk_batch : List Item → BatchPlan
bulk_batch items = record {
  batch_type = bulk;
  items = items;
  total_gross = sum_by (λ i. i.gross_amount) items;
  total_net = sum_by (λ i. i.net_amount) items;
  total_fee = sum_by (λ i. i.fee_amount) items;
}

-- `for (index = 0; index < bulkItems.length; index += max)`; the items left stand for the index.
unfoldable pub bulk_batches : ℕ → ℕ → List Item → List BatchPlan
bulk_batches fuel size [] = []
bulk_batches zero size (i ∷ is) = []
bulk_batches (suc fuel) size (i ∷ is) =
    bulk_batch (take size (i ∷ is)) ∷ bulk_batches fuel size (drop size (i ∷ is))

-- The LEFT JOIN with `users`, and the WHERE clause.
unfoldable pub threshold_of : String → List User → Option ℕ
threshold_of name [] = none
threshold_of name (u ∷ us) =
    if str_eq u.username name then u.payout_threshold else threshold_of name us

abbrev pub payout_row : List User → Balance → PayoutRow
payout_row us b = record {
  id = b.id;
  payment_address = b.payment_address;
  payment_id = b.payment_id;
  pool_type = b.pool_type;
  amount = b.amount;
  payout_threshold = threshold_of b.payment_address us;
}

unfoldable pub payout_rows : Config → Store → List PayoutRow
payout_rows c db =
    map (payout_row db.users)
      (keep_if (λ b. leb c.wallet_min b.amount && is_none b.pending_batch_id) db.balances)

abbrev pub nothing_collected : Collected
nothing_collected = record { seen = []; bulk_items = []; integrated_batches = [] }

-- Bulk batches first, then the integrated ones.
unfoldable pub plan_of : ℕ → Collected → List BatchPlan
plan_of size s = bulk_batches (length s.bulk_items) size s.bulk_items ++ s.integrated_batches

-- `none` is the error on an invalid `maxPaymentTxns`.
unfoldable pub plan_batches : Config → Store → Option (List BatchPlan)
plan_batches c db =
    if c.max_payment_txns == 0
    then none
    else some (plan_of c.max_payment_txns (collect_rows c nothing_collected (payout_rows c db)))
