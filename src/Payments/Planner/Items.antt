-- ===== src/Payments/Planner/Items.antt =====
-- The payout of one row: `buildPayoutItem`.
use native.Mathlib.Nat.{div-add-mod, mul-mod_right}
use nodejs_pool.Prelude.{
  ℕ, ◌+◌, ◌-◌, ◌*◌, ◌/◌, ◌%◌, ◌≤◌, ◌≡◌, ◌⊎◌, inl, inr, some, arith, Bool-cases, ◌==◌,
}
use nodejs_pool.Payments.Store.{Item}
use nodejs_pool.Payments.Planner.{
  Config, PayoutRow, Payout, build_payout_item, round_down, payable_amount,
}
use nodejs_pool.Payments.Planner.Fees.{fee-le}

-- What a payout promises about its row.
pub record IsPayout (c : Config) (row : PayoutRow) (i : Item) : Type 0 where
  pub same_id : i.balance_id ≡ row.id
  pub same_address : i.payment_address ≡ row.payment_address
  pub balanced : i.net_amount + i.fee_amount ≡ i.gross_amount
  pub positive : 1 ≤ i.net_amount
  pub covered : i.gross_amount ≤ row.amount
  pub fee_bounded : i.fee_amount ≤ c.fee_slew_amount
  pub whole : (c.denom ≡ 0) ⊎ (i.gross_amount % c.denom ≡ 0)

multiple : (n d : ℕ) → n - n % d ≡ d * (n / d)
multiple n d = omega (arith, div-add-mod n d)

round_down_whole : (c : Config) (n : ℕ) → (c.denom ≡ 0) ⊎ (round_down c n % c.denom ≡ 0)
round_down_whole c n = elim (Bool-cases (c.denom == 0)) [
  | inl z ↦ inl (ground arith)
  | inr nz ↦ inr (rw nz (rw (multiple n c.denom) (mul-mod_right c.denom (n / c.denom))))
]

-- A payout is of its row's balance and address, its net amount is positive and adds up with the fee
-- to the gross amount, which the balance covers and which is a multiple of the denomination, where
-- there is one; the fee is at most the configured one.
pub build_payout_item-IsPayout :
    (c : Config) (row : PayoutRow) (p : Payout)
    → build_payout_item c row ≡ some p
    → IsPayout c row p.item
unfolding build_payout_item
build_payout_item-IsPayout c row p e = ground (
  arith,
  fee-le c (round_down c (payable_amount c row)),
  round_down_whole c (payable_amount c row),
)
