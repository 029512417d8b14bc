-- ===== src/Blocks/Caps.antt =====
-- lib/block_manager.js, `collectPplnsSharePayments`: what the scan pays is what the shares earned, up
-- to the window.
use native.Mathlib.Nat.{mul-le-mul_left, mul-add, mul_comm}
use nodejs_pool.Prelude.{
  ℕ, zero, suc, ◌+◌, ◌-◌, ◌*◌, ◌≤◌, ◌≡◌, refl, ap, ◌∙◌, subst, Bool, true, false, Option, none,
  some, List, [], ◌∷◌, String, ◌==◌, ltb, if◌then◌else◌, lookup, sum_by, arith, Bool-cases, inl,
  inr, Option-cases,
}
use nodejs_pool.Blocks.Window.{
  Config, ShareData, PaymentData, Scan, unit, user_identifier, ensure_payment_row, ◌>>=◌,
  fees_to_pay, dev_donation_of, pool_dev_donation_of, add_share_payments, note_times, note_port,
  ensured, collect_amount, collect_pplns, collect_share, collect_height, collect_share_payments,
  first_scan, total_payments,
}
use nodejs_pool.Blocks.Totals.{
  Has, Has-assign, Has-assign_self, is_some, capped, IsBalanced, Pays, Pays-bind, Pays-none,
  add_payment-Pays, total_payments-assign_new, first_scan-IsBalanced,
}

-- Percentages: a fee of all at most, and donations of all of the fee at most.
abbrev pub IsPercents : Config → Type 0
IsPercents c = (c.pplns_fee ≤ 10_000) × (c.dev_donation + c.pool_dev_donation ≤ 10_000)

-- What a share adds: its amount, where it counts for the window.
abbrev pub value_of : Option ShareData → ℕ
value_of none = 0
value_of (some d) = if d.is_pplns then d.shares2 * unit else 0

-- What the shares from a height downwards add.
unfoldable pub value_below : (ℕ → List (Option ShareData)) → ℕ → ℕ
value_below shares zero = 0
value_below shares (suc h) = sum_by value_of (shares (suc h)) + value_below shares h

parts_sum :
    (c : Config) (v : ℕ)
    → IsPercents c
    → v * unit
        - fees_to_pay c v
        + (fees_to_pay c v
            - dev_donation_of c v
            - pool_dev_donation_of c v
            + (pool_dev_donation_of c v + dev_donation_of c v))
      ≡ v * unit
parts_sum c v (f, d) =
    let fees : 10_000 * c.pplns_fee ≤ unit = omega arith in
    let in_all : v * (10_000 * c.pplns_fee) ≤ v * unit = mul-le-mul_left v fees in
    let donated : c.pplns_fee * (c.dev_donation + c.pool_dev_donation) ≤ 10_000 * c.pplns_fee =
      omega (arith, mul-le-mul_left c.pplns_fee d, mul_comm c.pplns_fee 10_000) in
    let of_fees = mul-le-mul_left v donated in
    let split = mul-add c.pplns_fee c.dev_donation c.pool_dev_donation in
    let spread = mul-add v (c.pplns_fee * c.dev_donation) (c.pplns_fee * c.pool_dev_donation) in
    omega (arith, in_all, of_fees, ap (λ n. v * n) split, spread)

module _ (c : Config) (percents : IsPercents c) (window : ℕ) where
  add_share_payments-Pays :
      (user : String) (v : ℕ) (s : Scan)
      → Has user s.payments
      → IsBalanced c window s
      → Pays c window (v * unit) s (add_share_payments c window user v s)
  unfolding add_share_payments
  add_share_payments-Pays user v s h b =
      subst (λ n. Pays c window n s (add_share_payments c window user v s)) (parts_sum c v percents)
        (Pays-bind c window _ _ s _ _ (add_payment-Pays c window user _ s h b) (λ t b1 k1.
          Pays-bind c window _ _ t _ _ (add_payment-Pays c window _ _ t b1.fee_row b1) (λ u b2 k2.
            Pays-bind c window _ _ u _ _ (add_payment-Pays c window _ _ u b2.pool_dev_row b2)
              (λ x b3 k3. add_payment-Pays c window _ _ x b3.coin_dev_row b3))))

  total_payments-ensure :
      (d : ShareData) (m : PaymentData)
      → (total_payments (ensure_payment_row d m) ≡ total_payments m)
        × Has (user_identifier d) (ensure_payment_row d m)
        × ((k : String) → Has k m → Has k (ensure_payment_row d m))
  unfolding ensure_payment_row Has
  total_payments-ensure d m = elim (Option-cases (lookup (user_identifier d) m)) [
    | inl e ↦ rw e (
      omega (arith, total_payments-assign_new (user_identifier d) _ m e),
      Has-assign_self (user_identifier d) _ m,
      λ k. Has-assign (user_identifier d) k _ m,
    )
    | inr (p, e) ↦ rw e (refl, ap is_some e, λ k h. h)
  ]

  ensured-IsBalanced :
      (d : ShareData) (s : Scan)
      → IsBalanced c window s
      → IsBalanced c window (ensured c window d s)
  ensured-IsBalanced d s b =
      let (e, h, k) = total_payments-ensure d s.payments in
      record {
        sums = e ∙ b.sums;
        fits = b.fits;
        follows = b.follows;
        fee_row = k c.fee_address b.fee_row;
        coin_dev_row = k c.coin_dev_address b.coin_dev_row;
        pool_dev_row = k c.pool_dev_address b.pool_dev_row;
      }

  note_times-IsBalanced :
      (d : ShareData) (s : Scan)
      → IsBalanced c window s
      → IsBalanced c window (note_times c window d s)
  note_times-IsBalanced d s b = record {
    sums = b.sums;
    fits = b.fits;
    follows = b.follows;
    fee_row = b.fee_row;
    coin_dev_row = b.coin_dev_row;
    pool_dev_row = b.pool_dev_row;
  }

  note_port-IsBalanced :
      (o : Option ℕ) (v : ℕ) (s : Scan)
      → IsBalanced c window s
      → IsBalanced c window (note_port c window o v s)
  note_port-IsBalanced none v s b = b
  note_port-IsBalanced (some port) v s b = record {
    sums = b.sums;
    fits = b.fits;
    follows = b.follows;
    fee_row = b.fee_row;
    coin_dev_row = b.coin_dev_row;
    pool_dev_row = b.pool_dev_row;
  }

  note_port-Pays :
      (o : Option ℕ) (v n : ℕ) (s : Scan) (r : Option Scan)
      → Pays c window n s r
      → Pays c window n s (r >>= λ t. some (note_port c window o v t))
  unfolding Pays
  note_port-Pays none v n s r (t, e, b, p, k) = rw e (t, refl, b, p, k)
  note_port-Pays (some port) v n s r (t, e, b, p, k) =
      rw e (note_port c window (some port) v t, refl, note_port-IsBalanced (some port) v t b, p, k)

  -- The payments go on from a state with the same total and no row less.
  Pays-from :
      (n : ℕ) (s t : Scan) (r : Option Scan)
      → t.total_paid ≡ s.total_paid
      → ((k : String) → Has k s.payments → Has k t.payments)
      → Pays c window n t r
      → Pays c window n s r
  unfolding Pays
  Pays-from n s t r e k (u, q, b, p, h) =
      (u, q, b, p ∙ ap (λ m. capped window (m + n)) e, λ j x. h j (k j x))

  collect_amount-Pays :
      (z : Bool) (d : ShareData) (s : Scan)
      → d.shares2 == 0 ≡ z
      → Has (user_identifier d) s.payments
      → IsBalanced c window s
      → Pays c window (d.shares2 * unit) s (collect_amount c window z d s)
  collect_amount-Pays true d s e h b = Pays-none c window s _ b (ground (arith, b.fits))
  collect_amount-Pays false d s e h b = note_port-Pays d.port d.shares2 _ s _ (
      Pays-from _ s (note_times c window d s) _ refl (λ k x. x)
        (add_share_payments-Pays (user_identifier d) d.shares2 (note_times c window d s) h
          (note_times-IsBalanced d s b)))

  collect_pplns-Pays :
      (q : Bool) (d : ShareData) (s : Scan)
      → IsBalanced c window s
      → Pays c window (if q then d.shares2 * unit else 0) s (collect_pplns c window q d s)
  collect_pplns-Pays false d s b = Pays-none c window s 0 b (ground (arith, b.fits))
  collect_pplns-Pays true d s b =
      let (e, h, k) = total_payments-ensure d s.payments in
      Pays-from _ s (ensured c window d s) _ refl k (
        collect_amount-Pays (d.shares2 == 0) d (ensured c window d s) refl h
          (ensured-IsBalanced d s b))

  pub collect_share-Pays :
      (o : Option ShareData) (s : Scan)
      → IsBalanced c window s
      → Pays c window (value_of o) s (collect_share c window o s)
  unfolding collect_share
  collect_share-Pays none s b = Pays-none c window s 0 b (ground (arith, b.fits))
  collect_share-Pays (some d) s b = collect_pplns-Pays d.is_pplns d s b

  pub collect_height-Pays :
      (ds : List (Option ShareData)) (s : Scan)
      → IsBalanced c window s
      → Pays c window (sum_by value_of ds) s (collect_height c window ds s)
  unfolding collect_height
  collect_height-Pays [] s b = Pays-none c window s 0 b (ground (arith, b.fits))
  collect_height-Pays (d ∷ ds) s b =
      Pays-bind c window _ _ s _ _ (collect_share-Pays d s b)
        (λ t b' k. collect_height-Pays ds t b')

  pub collect_share_payments-Pays :
      (shares : ℕ → List (Option ShareData)) (h : ℕ) (s : Scan)
      → IsBalanced c window s
      → Pays c window (value_below shares h) s (collect_share_payments c window shares h s)
  unfolding collect_share_payments value_below
  collect_share_payments-Pays shares zero s b = Pays-none c window s 0 b (ground (arith, b.fits))
  collect_share_payments-Pays shares (suc h) s b = elim (Bool-cases (ltb s.total_paid window)) [
    | inl q ↦ rw q (
        Pays-bind c window _ _ s _ _ (collect_height-Pays (shares (suc h)) s b)
          (λ t b' k. collect_share_payments-Pays shares h t b'))
    | inr q ↦ rw q (Pays-none c window s _ b (ground (arith, b.fits)))
  ]

-- With a fee of all at most and donations of all of the fee at most, the scan of the shares from a
-- height downwards throws nothing, the rows of the payments sum up to what it counts as paid, and
-- this is what the shares add, up to the window of the block.
pub collect_share_payments-IsCapped :
    (c : Config) (window : ℕ) (shares : ℕ → List (Option ShareData)) (height : ℕ)
    → IsPercents c
    → (s : Scan) × (collect_share_payments c window shares height (first_scan c) ≡ some s)
      × (total_payments s.payments ≡ s.total_paid)
      × (s.total_paid ≡ capped window (value_below shares height))
unfolding Pays
collect_share_payments-IsCapped c window shares height percents =
    let (s, e, b, paid, k) =
      collect_share_payments-Pays c percents window shares height (first_scan c)
        (first_scan-IsBalanced c window) in
    let from_zero : 0 + value_below shares height ≡ value_below shares height = omega arith in
    (s, e, b.sums, paid ∙ ap (capped window) from_zero)
