-- ===== src/Blocks/Totals.antt =====
-- lib/block_manager.js, `addPayment`: the rows of a scan sum up to what is paid, up to the window.
use nodejs_pool.Prelude.{
  ℕ, ◌+◌, ◌≤◌, ◌≡◌, ◌⊎◌, refl, sym, ap, ◌∙◌, Bool, true, false, Option, none, some, [], ◌∷◌, String,
  ◌==◌, ltb, leb, str_eq, str_eq_iff, if◌then◌else◌, lookup, assign, lookup-assign, arith,
  Bool-cases, inl, inr, Option-cases,
}
use nodejs_pool.Blocks.Credits.{PaymentRow}
use nodejs_pool.Blocks.Window.{
  Config, PaymentData, Scan, fees_row, create_payment_data, with_payment, pay_row, add_payment,
  ◌>>=◌, first_scan, total_payments,
}

-- The total under a write of a row.
total_payments-assign :
    (k : String) (p q : PaymentRow) (m : PaymentData)
    → lookup k m ≡ some q
    → total_payments (assign k p m) + q.amount ≡ total_payments m + p.amount
unfolding total_payments lookup assign
total_payments-assign k p q [] h = absurd (cc h)
total_payments-assign k p q ((j, r) ∷ m) h = elim (Bool-cases (str_eq k j)) [
  | inl e ↦ rw e (omega (arith, ap amount_or (rw e at h)))
  | inr e ↦ rw e (omega (arith, total_payments-assign k p q m (rw e at h)))
]
  where
    amount_or : Option PaymentRow → ℕ
    amount_or none = 0
    amount_or (some r) = r.amount

pub total_payments-assign_new :
    (k : String) (p : PaymentRow) (m : PaymentData)
    → lookup k m ≡ none
    → total_payments (assign k p m) ≡ total_payments m + p.amount
unfolding total_payments lookup assign
total_payments-assign_new k p [] h = omega arith
total_payments-assign_new k p ((j, r) ∷ m) h = elim (Bool-cases (str_eq k j)) [
  | inl e ↦ absurd (cc (rw e at h))
  | inr e ↦ rw e (omega (arith, total_payments-assign_new k p m (rw e at h)))
]

total_payments-assign_le :
    (k : String) (p : PaymentRow) (m : PaymentData)
    → total_payments (assign k p m) ≤ total_payments m + p.amount
unfolding total_payments assign
total_payments-assign_le k p [] = omega arith
total_payments-assign_le k p ((j, r) ∷ m) = elim (Bool-cases (str_eq k j)) [
  | inl e ↦ rw e (omega arith)
  | inr e ↦ rw e (omega (arith, total_payments-assign_le k p m))
]

-- The row of a key is there.
abbrev pub is_some {ℓ} : {A : Type ℓ} → Option A → Bool
is_some none = false
is_some (some a) = true

unfoldable pub Has : String → PaymentData → Type 0
Has k m = is_some (lookup k m) ≡ true

pub Has-assign : (j k : String) (p : PaymentRow) (m : PaymentData) → Has k m → Has k (assign j p m)
unfolding Has
Has-assign j k p m h =
    rw (lookup-assign j k p m) elim (Bool-cases (str_eq k j)) [ inl e ↦ rw e refl | inr e ↦ rw e h ]

pub Has-assign_self : (k : String) (p : PaymentRow) (m : PaymentData) → Has k (assign k p m)
unfolding Has
Has-assign_self k p m = rw (lookup-assign k k p m, (str_eq_iff k k).1 refl) refl

abbrev pub capped : ℕ → ℕ → ℕ
capped window n = if ltb window n then window else n

-- What is paid is the sum of the rows, and it is all shares until the window is full.
pub record IsBalanced (c : Config) (window : ℕ) (s : Scan) : Type 0 where
  pub sums : total_payments s.payments ≡ s.total_paid
  pub fits : s.total_paid ≤ window
  pub follows : (s.total_paid ≡ window) ⊎ (s.total_shares ≡ s.total_paid)
  pub fee_row : Has c.fee_address s.payments
  pub coin_dev_row : Has c.coin_dev_address s.payments
  pub pool_dev_row : Has c.pool_dev_address s.payments

total_payments-nil : total_payments [] ≡ 0
unfolding total_payments
total_payments-nil = refl

-- A scan starts with three rows and nothing paid.
pub first_scan-IsBalanced : (c : Config) (window : ℕ) → IsBalanced c window (first_scan c)
unfolding create_payment_data
first_scan-IsBalanced c window = record {
  sums = omega (
    arith,
    total_payments-assign_le c.pool_dev_address (fees_row c.pool_dev_address) (
        assign c.coin_dev_address (fees_row c.coin_dev_address)
          (assign c.fee_address (fees_row c.fee_address) [])),
    total_payments-assign_le c.coin_dev_address (fees_row c.coin_dev_address)
        (assign c.fee_address (fees_row c.fee_address) []),
    total_payments-assign_le c.fee_address (fees_row c.fee_address) [],
    total_payments-nil,
  );
  fits = omega arith;
  follows = inr refl;
  fee_row =
      Has-assign c.pool_dev_address c.fee_address _ _
        (Has-assign c.coin_dev_address c.fee_address _ _ (Has-assign_self c.fee_address _ []));
  coin_dev_row =
      Has-assign c.pool_dev_address c.coin_dev_address _ _ (Has-assign_self c.coin_dev_address _ _);
  pool_dev_row = Has-assign_self c.pool_dev_address _ _;
}

module _ (c : Config) (window : ℕ) where
  -- A step of the scan that pays a number, up to the window.
  unfoldable pub Pays : ℕ → Scan → Option Scan → Type 0
  Pays n s r =
      (s' : Scan) × (r ≡ some s')
      × IsBalanced c window s'
      × (s'.total_paid ≡ capped window (s.total_paid + n))
      × ((k : String) → Has k s.payments → Has k s'.payments)

  pub Pays-bind :
      (m n : ℕ) (s : Scan) (r : Option Scan) (f : Scan → Option Scan)
      → Pays m s r
      → ((t : Scan)
          → IsBalanced c window t
          → ((k : String) → Has k s.payments → Has k t.payments)
          → Pays n t (f t))
      → Pays (m + n) s (r >>= f)
  unfolding Pays
  Pays-bind m n s r f (t, e, b, p, k) g =
      let (u, e', b', p', k') = g t b k in
      rw e (u, e', b', p' ∙ ground (arith, p), λ j h. k' j (k j h))

  with_payment-IsBalanced :
      (k : String) (p q : PaymentRow) (after paid : ℕ) (s : Scan)
      → lookup k s.payments ≡ some p
      → IsBalanced c window s
      → q.amount + s.total_paid ≡ p.amount + paid
      → paid ≤ window
      → (paid ≡ window) ⊎ (after ≡ paid)
      → IsBalanced c window (with_payment k q after paid s)
  with_payment-IsBalanced k p q after paid s e b sum fit follow = record {
    sums = omega (arith, total_payments-assign k q p s.payments e, b.sums);
    fits = fit;
    follows = follow;
    fee_row = Has-assign k c.fee_address q s.payments b.fee_row;
    coin_dev_row = Has-assign k c.coin_dev_address q s.payments b.coin_dev_row;
    pool_dev_row = Has-assign k c.pool_dev_address q s.payments b.pool_dev_row;
  }

  shares_of :
      (s : Scan)
      → leb window s.total_paid ≡ false
      → IsBalanced c window s
      → s.total_shares ≡ s.total_paid
  shares_of s l b = elim b.follows [ inl e ↦ absurd (ground arith) | inr e ↦ e ]

  pay_row-Pays :
      (k : String) (n : ℕ) (p : PaymentRow) (s : Scan)
      → lookup k s.payments ≡ some p
      → leb window s.total_paid ≡ false
      → IsBalanced c window s
      → Pays n s (pay_row window k n (some p) s)
  unfolding Pays
  pay_row-Pays k n p s e l b =
      let same = shares_of s l b in
      elim (Bool-cases (ltb window (s.total_shares + n))) [
        | inl q ↦ rw q (
          _,
          refl,
          with_payment-IsBalanced k p _ _ window s e b (ground (arith, same)) (omega arith)
              (inl refl),
          ground (arith, same),
          λ j. Has-assign k j _ s.payments,
        )
        | inr q ↦ rw q (
          _,
          refl,
          with_payment-IsBalanced k p _ _ _ s e b (ground (arith, same)) (ground arith) (inr refl),
          ground (arith, same),
          λ j. Has-assign k j _ s.payments,
        )
      ]

  row_found : (k : String) (m : PaymentData) → Has k m → (p : PaymentRow) × (lookup k m ≡ some p)
  unfolding Has
  row_found k m h = elim (Option-cases (lookup k m)) [
    | inl e ↦ absurd (cc (rw e at h))
    | inr (p, e) ↦ (p, e)
  ]

  pub Pays-none :
      (s : Scan) (n : ℕ)
      → IsBalanced c window s
      → capped window (s.total_paid + n) ≡ s.total_paid
      → Pays n s (some s)
  unfolding Pays
  Pays-none s n b e = (s, refl, b, sym e, λ k h. h)

  pub add_payment-Pays :
      (k : String) (n : ℕ) (s : Scan)
      → Has k s.payments
      → IsBalanced c window s
      → Pays n s (add_payment window k n s)
  unfolding add_payment
  add_payment-Pays k n s h b = elim (Bool-cases (n == 0)) [
    | inl z ↦ rw z (Pays-none s n b (ground (arith, b.fits)))
    | inr z ↦ rw z (elim (Bool-cases (leb window s.total_paid)) [
      | inl l ↦ rw l (Pays-none s n b (ground (arith, b.fits)))
      | inr l ↦ rw l (let (p, e) = row_found k s.payments h in rw e (pay_row-Pays k n p s e l b))
    ])
  ]
