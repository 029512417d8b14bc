-- ===== src/Payments/Planner/Fees.antt =====
-- The fee that `calculateChargeFee` charges, over all gross amounts.
use native.Mathlib.Nat.{div-le_of_le-mul, mul-le-mul_right, le-div_iff_mul-le, le_trans}
use nodejs_pool.Prelude.{ℕ, ◌-◌, ◌*◌, ◌/◌, ◌≤◌, ◌<◌, arith}
use nodejs_pool.Payments.Planner.{Config, calculate_charge_fee, tapered_fee}

div_mono : (a b d : ℕ) → 0 < d → a ≤ b → a / d ≤ b / d
div_mono a b d h p = (le-div_iff_mul-le h).1 (le_trans ((le-div_iff_mul-le h).0 (omega arith)) p)

module _ (c : Config) where
  -- The fee never exceeds the configured one.
  pub fee-le : (gross : ℕ) → calculate_charge_fee c gross ≤ c.fee_slew_amount
  unfolding calculate_charge_fee
  fee-le gross = ground (
    arith,
    div-le_of_le-mul (c.fee_slew_end - c.wallet_min)
        {m = c.fee_slew_amount * (c.fee_slew_end - c.wallet_min)
          - (gross - c.wallet_min) * c.fee_slew_amount}
        {n = c.fee_slew_amount} (grind arith),
  )

  tapered_fee_anti :
      (g h : ℕ) → c.wallet_min < c.fee_slew_end → g ≤ h → tapered_fee c h ≤ tapered_fee c g
  tapered_fee_anti g h e p = div_mono _ _ _ (omega arith) (
      omega (
        arith,
        mul-le-mul_right {m = g - c.wallet_min} {n = h - c.wallet_min} c.fee_slew_amount
            (omega arith),
      ))

  -- A payout is never charged more than a smaller one.
  pub fee_anti : (g h : ℕ) → g ≤ h → calculate_charge_fee c h ≤ calculate_charge_fee c g
  unfolding calculate_charge_fee
  fee_anti g h p = ground (arith, fee-le h, fee-le g, tapered_fee_anti g h)
