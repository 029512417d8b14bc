-- ===== src/Blocks/Window.antt =====
-- lib/block_manager.js, `preCalculatePPLNSPayments`: the shares of the window of a block, from its
-- height downwards, and the rows of `block_balance`. Amounts stand in units of 10⁻⁸ of a share, and
-- percentages are whole hundredths of a percent, so that the products are exact; what is paid of the
-- reward is measured by the window, which is not zero. A share that cannot be decoded is `none`.
use Prim.Native.String.{◌++◌}
use nodejs_pool.Prelude.{
  ℕ, zero, suc, ◌+◌, ◌-◌, ◌*◌, Bool, true, false, ◌||◌, Option, none, some, List, [], ◌∷◌, String,
  ◌==◌, ltb, leb, str_eq, if◌then◌else◌, lookup, assign,
}
use nodejs_pool.Blocks.Runtime.{BlockBalance}
use nodejs_pool.Blocks.Credits.{PaymentRow}

pub record Config : Type 0 where
  pub fee_address : String
  pub coin_dev_address : String
  pub pool_dev_address : String
  pub pplns_fee : ℕ
  pub dev_donation : ℕ
  pub pool_dev_donation : ℕ
  pub share_multi : ℕ

-- A decoded share. An amount that is no positive finite number is 0.
pub record ShareData : Type 0 where
  pub is_pplns : Bool
  pub payment_address : String
  pub payment_id : Option String
  pub shares2 : ℕ
  pub port : Option ℕ
  pub timestamp : ℕ

abbrev pub PaymentData : Type 0
PaymentData = List (String × PaymentRow)

pub record Scan : Type 0 where
  pub payments : PaymentData
  pub total_paid : ℕ
  pub total_shares : ℕ
  pub first_share_time : Option ℕ
  pub last_share_time : Option ℕ
  pub port_shares : List (ℕ × ℕ)

abbrev pub unit : ℕ
unit = 100_000_000

-- The window of a block, where `share_multi` stands in hundredths.
abbrev pub window_of : Config → ℕ → ℕ
window_of c difficulty = difficulty * c.share_multi * 1_000_000

abbrev pub fees_row : String → PaymentRow
fees_row address = record {
  payment_address = address;
  payment_id = none;
  pool_type = "fees";
  amount = 0;
}

-- `createPplnsPaymentData`, whose keys may coincide.
unfoldable pub create_payment_data : Config → PaymentData
create_payment_data c = assign c.pool_dev_address (fees_row c.pool_dev_address) (
    assign c.coin_dev_address (fees_row c.coin_dev_address)
      (assign c.fee_address (fees_row c.fee_address) []))

abbrev pub identifier_of : String → Option String → String
identifier_of address none = address
identifier_of address (some id) = if str_eq id "" then address else address ++ "." ++ id

abbrev pub user_identifier : ShareData → String
user_identifier s = identifier_of s.payment_address s.payment_id

abbrev pub ensure_found : String → PaymentRow → Option PaymentRow → PaymentData → PaymentData
ensure_found k p none m = assign k p m
ensure_found k p (some q) m = m

-- `ensurePplnsPaymentRow`.
unfoldable pub ensure_payment_row : ShareData → PaymentData → PaymentData
ensure_payment_row s m =
    ensure_found (user_identifier s)
      (record {
        payment_address = s.payment_address;
        payment_id = s.payment_id;
        pool_type = "pplns";
        amount = 0;
      })
      (lookup (user_identifier s) m) m

abbrev pub with_payment : String → PaymentRow → ℕ → ℕ → Scan → Scan
with_payment k p shares paid s = record s {
  payments = assign k p s.payments;
  total_shares = shares;
  total_paid = paid;
}

abbrev pub add_amount : ℕ → PaymentRow → PaymentRow
add_amount n p = record p { amount = p.amount + n }

-- The share that crosses the edge of the window is trimmed. A missing row throws.
abbrev pub pay_row : ℕ → String → ℕ → Option PaymentRow → Scan → Option Scan
pay_row window k n none s = none
pay_row window k n (some p) s =
    let after = s.total_shares + n in
    some (
      if ltb window after
      then with_payment k (record p { amount = p.amount + n - (after - window) }) after window s
      else with_payment k (add_amount n p) after after s)

-- `addPayment`.
unfoldable pub add_payment : ℕ → String → ℕ → Scan → Option Scan
add_payment window k n s =
    if n == 0 || leb window s.total_paid then some s else pay_row window k n (lookup k s.payments) s

infixl 5 ◌>>=◌
abbrev pub ◌>>=◌ : {A B : Type 0} → Option A → (A → Option B) → Option B
none >>= f = none
some a >>= f = f a

abbrev pub fees_to_pay : Config → ℕ → ℕ
fees_to_pay c v = v * (10_000 * c.pplns_fee)

abbrev pub dev_donation_of : Config → ℕ → ℕ
dev_donation_of c v = v * (c.pplns_fee * c.dev_donation)

abbrev pub pool_dev_donation_of : Config → ℕ → ℕ
pool_dev_donation_of c v = v * (c.pplns_fee * c.pool_dev_donation)

module _ (c : Config) (window : ℕ) where
  -- `addPplnsSharePayments`, of an amount in shares.
  unfoldable pub add_share_payments : String → ℕ → Scan → Option Scan
  add_share_payments user v s =
      let fees = fees_to_pay c v in
      add_payment window user (v * unit - fees) s >>= λ s1.
      add_payment window c.fee_address (fees - dev_donation_of c v - pool_dev_donation_of c v) s1
      >>= λ s2. add_payment window c.pool_dev_address (pool_dev_donation_of c v) s2 >>= λ s3.
          add_payment window c.coin_dev_address (dev_donation_of c v) s3

  abbrev pub or_time : Option ℕ → ℕ → Option ℕ
  or_time none t = some t
  or_time (some u) t = some u

  abbrev pub note_times : ShareData → Scan → Scan
  note_times d s = record s {
    first_share_time = or_time s.first_share_time d.timestamp;
    last_share_time = if ltb s.total_paid window then some d.timestamp else s.last_share_time;
  }

  unfoldable pub add_port : ℕ → ℕ → List (ℕ × ℕ) → List (ℕ × ℕ)
  add_port port v [] = (port, v) ∷ []
  add_port port v ((q, n) ∷ m) = if q == port then (q, n + v) ∷ m else (q, n) ∷ add_port port v m

  abbrev pub note_port : Option ℕ → ℕ → Scan → Scan
  note_port none v s = s
  note_port (some port) v s = record s { port_shares = add_port port v s.port_shares }

  abbrev pub ensured : ShareData → Scan → Scan
  ensured d s = record s { payments = ensure_payment_row d s.payments }

  abbrev pub collect_amount : Bool → ShareData → Scan → Option Scan
  collect_amount true d s = some s
  collect_amount false d s =
      add_share_payments (user_identifier d) d.shares2 (note_times d s) >>= λ s'.
      some (note_port d.port d.shares2 s')

  abbrev pub collect_pplns : Bool → ShareData → Scan → Option Scan
  collect_pplns true d s = collect_amount (d.shares2 == 0) d (ensured d s)
  collect_pplns false d s = some s

  -- The callback on one share.
  unfoldable pub collect_share : Option ShareData → Scan → Option Scan
  collect_share none s = some s
  collect_share (some d) s = collect_pplns d.is_pplns d s

  -- All shares of a height.
  unfoldable pub collect_height : List (Option ShareData) → Scan → Option Scan
  collect_height [] s = some s
  collect_height (d ∷ ds) s = collect_share d s >>= collect_height ds

  -- `collectPplnsSharePayments`: down to height 1, until the reward is paid.
  unfoldable pub collect_share_payments : (ℕ → List (Option ShareData)) → ℕ → Scan → Option Scan
  collect_share_payments shares zero s = some s
  collect_share_payments shares (suc h) s =
      if ltb s.total_paid window
      then (collect_height (shares (suc h)) s >>= collect_share_payments shares h)
      else some s

abbrev pub first_scan : Config → Scan
first_scan c = record {
  payments = create_payment_data c;
  total_paid = 0;
  total_shares = 0;
  first_share_time = none;
  last_share_time = none;
  port_shares = [];
}

unfoldable pub total_payments : PaymentData → ℕ
total_payments [] = 0
total_payments ((k, p) ∷ m) = p.amount + total_payments m

-- `Math.abs(totalPayments / defaultWindow - 1) > 0.0001`.
abbrev pub is_need_correction : ℕ → ℕ → Bool
is_need_correction total window =
    ltb window (10_000 * (total - window)) || ltb window (10_000 * (window - total))

abbrev pub pay_window : ℕ → ℕ → ℕ
pay_window total window = if is_need_correction total window then total else window

abbrev pub balance_row : String → ℕ → PaymentRow → BlockBalance
balance_row hex whole p = record {
  hex = hex;
  payment_address = p.payment_address;
  payment_id = p.payment_id;
  part = p.amount;
  whole = whole;
}

-- The rows of one payment, one for each block.
unfoldable pub payment_rows : List String → ℕ → PaymentRow → List BlockBalance
payment_rows [] whole p = []
payment_rows (hex ∷ hexes) whole p = balance_row hex whole p ∷ payment_rows hexes whole p
