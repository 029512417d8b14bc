-- ===== src/Blocks/Atomic.antt =====
-- lib/block_manager.js, `doPPLNSPayments`: a block is paid in full and once, or nothing is paid.
use nodejs_pool.Prelude.{
  ℕ, suc, ◌+◌, ◌*◌, ◌/◌, ◌≡◌, ◌≢◌, ◌⊎◌, refl, sym, ap, ◌∙◌, subst, Bool, true, false, List, [], ◌∷◌,
  ◌==◌, str_eq, sum_by, arith, Bool-cases, inl, inr, keep_if,
}
use nodejs_pool.Blocks.Runtime.{
  PaidBlock, BlockBalance, Tables, Env, World, Outcome, ok, thrown, M, ◌>>=◌, query,
  with_transaction, end_transaction,
}
use nodejs_pool.Blocks.Credits.{Credit, resolve_balance_credits, apply_balance_credits}
use nodejs_pool.Blocks.Crediting.{IsReady, credits, IsMap, Outcome-cases}
use nodejs_pool.Blocks.Conserves.{apply_balance_credits-IsCredited}
use nodejs_pool.Blocks.Keeps.{
  IsKept, IsKept-refl, Keeps-at, resolve_balance_credits-Keeps, resolve_balance_credits-IsMap,
}
use nodejs_pool.Blocks.Payout.{
  balance_sum, credit_row, credit_rows, is_paid, is_empty, get_balance_sum, insert_paid_block,
  check_sum, pay_credits, commit_credits, pay_block, total_credit, pay_rows, rows_of,
  do_pplns_payments,
}

-- What a block earns by its rows.
abbrev pub earned : ℕ → List BlockBalance → ℕ
earned reward = sum_by (λ r. r.part * reward / r.whole)

-- The block is recorded, it was not before, and the balances have grown by a number.
abbrev pub IsPaid : PaidBlock → ℕ → Tables → Tables → Type 0
IsPaid p n t u =
    (u.paid_blocks ≡ p ∷ t.paid_blocks)
    × (is_paid p.hex t.paid_blocks ≡ false)
    × (balance_sum u ≡ balance_sum t + n)
    × IsReady u

abbrev pub IsUnpaid : Tables → Tables → Type 0
IsUnpaid t u =
    (u.paid_blocks ≡ t.paid_blocks) × (balance_sum u ≡ balance_sum t) × (IsReady t → IsReady u)

-- Paid, with the result `true` or the latch set, or not paid, with another result.
unfoldable pub Settles : PaidBlock → ℕ → Tables → Outcome Bool × World → Type 0
Settles p n t r =
    (IsPaid p n t r.1.tables × ((r.0 ≡ ok true) ⊎ (r.1.is_full_stop ≡ true)))
    ⊎ (IsUnpaid t r.1.tables × (r.0 ≢ ok true))

-- The same of tables whose ids are a key.
abbrev pub IsSettled : PaidBlock → ℕ → Tables → Outcome Bool × World → Type 0
IsSettled p n t r =
    (IsPaid p n t r.1.tables × ((r.0 ≡ ok true) ⊎ (r.1.is_full_stop ≡ true)))
    ⊎ ((r.1.tables.paid_blocks ≡ t.paid_blocks)
        × (balance_sum r.1.tables ≡ balance_sum t)
        × IsReady r.1.tables
        × (r.0 ≢ ok true))

pub earned-credit_rows :
    (reward : ℕ) (rs : List BlockBalance)
    → sum_by (λ p. p.amount) (credit_rows reward rs) ≡ earned reward rs
unfolding credit_rows credit_row
earned-credit_rows reward [] = refl
earned-credit_rows reward (r ∷ rs) = elim (Bool-cases (r.part * reward / r.whole == 0)) [
  | inl q ↦ rw q (omega (arith, earned-credit_rows reward rs, zero_of q))
  | inr q ↦ rw q (omega (arith, earned-credit_rows reward rs))
]
  where
    zero_of : r.part * reward / r.whole == 0 ≡ true → r.part * reward / r.whole ≡ 0
    zero_of q = ground arith

module _ (env : Env) where
  -- The work of the transaction.
  work-IsPaid :
      (p : PaidBlock) (cs : List Credit) (w : World)
      → IsMap cs
      → IsReady w.tables
      → ((insert_paid_block env p >>= λ _. apply_balance_credits env cs) w).0 ≡ ok tt
      → IsPaid p
          (credits cs)
          w.tables
          ((insert_paid_block env p >>= λ _. apply_balance_credits env cs) w).1.tables
  unfolding insert_paid_block query
  work-IsPaid p cs w m k = elim (Bool-cases (env.fails w.ticks)) [
    | inl f ↦ rw f (λ h. absurd (cc h))
    | inr f ↦ rw f (elim (Bool-cases (is_paid p.hex w.tables.paid_blocks)) [
      | inl q ↦ rw q (λ h. absurd (cc h))
      | inr q ↦ rw q (λ h.
          let v = record w {
            tables = record w.tables { paid_blocks = p ∷ w.tables.paid_blocks };
            ticks = suc w.ticks;
          } in
          let c = apply_balance_credits-IsCredited env cs v m k h in (c.2, refl, c.0, c.1))
    ])
  ]

  -- A transaction is done, or its tables are as before.
  end_transaction-IsWhole :
      {A : Type 0} (work : M A) (P : A → Tables → Type 0) (tables : Tables) (w : World)
      → ((a : A) → (work w).0 ≡ ok a → P a (work w).1.tables)
      → ((a : A) × ((end_transaction env tables (work w).0 (work w).1).0 ≡ ok a)
          × P a (end_transaction env tables (work w).0 (work w).1).1.tables)
        ⊎ (((end_transaction env tables (work w).0 (work w).1).0 ≡ thrown)
            × ((end_transaction env tables (work w).0 (work w).1).1.tables ≡ tables))
  unfolding query
  end_transaction-IsWhole work P tables w done = elim (Outcome-cases (work w).0) [
    | inl q ↦ rw q (inr (refl, refl))
    | inr (a, q) ↦ rw q (elim (Bool-cases (env.fails (work w).1.ticks)) [
      | inl f ↦ rw f (inr (refl, refl))
      | inr f ↦ rw f (inl (a, refl, done a q))
    ])
  ]

  with_transaction-IsWhole :
      {A : Type 0} (work : M A) (P : A → Tables → Type 0) (w : World)
      → ((v : World) (a : A) → v.tables ≡ w.tables → (work v).0 ≡ ok a → P a (work v).1.tables)
      → ((a : A) × ((with_transaction env work w).0 ≡ ok a)
          × P a (with_transaction env work w).1.tables)
        ⊎ (((with_transaction env work w).0 ≡ thrown)
            × ((with_transaction env work w).1.tables ≡ w.tables))
  unfolding with_transaction query
  with_transaction-IsWhole work P w done = elim (Bool-cases (env.fails w.ticks)) [
    | inl f ↦ rw f (inr (refl, refl))
    | inr f ↦ rw f (elim (Bool-cases (env.fails (suc w.ticks))) [
      | inl g ↦ rw g (inr (refl, refl))
      | inr g ↦ rw g (
          end_transaction-IsWhole work P w.tables (record w { ticks = suc (suc w.ticks) })
            (λ a. done _ a refl))
    ])
  ]

  pub pay_credits-IsPaid :
      (p : PaidBlock) (cs : List Credit) (w : World)
      → IsMap cs
      → IsReady w.tables
      → ((u : Unit {0}) × ((pay_credits env p cs w).0 ≡ ok u)
          × IsPaid p (credits cs) w.tables (pay_credits env p cs w).1.tables)
        ⊎ (((pay_credits env p cs w).0 ≡ thrown) × ((pay_credits env p cs w).1.tables ≡ w.tables))
  pay_credits-IsPaid p cs w m k =
      with_transaction-IsWhole (insert_paid_block env p >>= λ _. apply_balance_credits env cs)
        (λ u t. IsPaid p (credits cs) w.tables t) w
        (λ v u e h.
          subst
            (λ t.
              IsPaid p (credits cs) t
                ((insert_paid_block env p >>= λ _. apply_balance_credits env cs) v).1.tables)
            e (work-IsPaid p cs v m (subst IsReady (sym e) k) h))

  get_balance_sum-tables : (w : World) → (get_balance_sum env w).1.tables ≡ w.tables
  unfolding get_balance_sum query
  get_balance_sum-tables w = elim (Bool-cases (env.fails w.ticks)) [
    | inl f ↦ rw f refl
    | inr f ↦
        rw f
          (elim (Bool-cases (is_empty w.tables.balances)) [ inl q ↦ rw q refl | inr q ↦ rw q refl ])
  ]

  check_sum-Settles :
      (before : ℕ) (p : PaidBlock) (n : ℕ) (t : Tables) (w : World)
      → IsPaid p n t w.tables
      → Settles p n t (check_sum env before w)
  unfolding Settles
  check_sum-Settles before p n t w h =
      let h' = subst (IsPaid p n t) (sym (get_balance_sum-tables w)) h in
      elim (Outcome-cases (get_balance_sum env w).0) [
        | inl q ↦ rw q (inl (h', inr refl))
        | inr (sum, q) ↦ rw q (elim (Bool-cases (sum == before)) [
          | inl e ↦ rw e (inl (h', inr refl))
          | inr e ↦ rw e (inl (h', inl refl))
        ])
      ]

  commit_credits-Settles :
      (before : ℕ) (p : PaidBlock) (cs : List Credit) (w : World)
      → IsMap cs
      → IsReady w.tables
      → Settles p (credits cs) w.tables (commit_credits env before p cs w)
  unfolding Settles commit_credits
  commit_credits-Settles before p cs w m k = elim (pay_credits-IsPaid p cs w m k) [
    | inl (u, q, h) ↦
        rw q (check_sum-Settles before p (credits cs) w.tables (pay_credits env p cs w).1 h)
    | inr (q, e) ↦ rw q (
        inr (
          (ap (λ t. t.paid_blocks) e, ap balance_sum e, subst IsReady (sym e)),
          λ x. absurd (cc x),
        ))
  ]

  -- From a world that has paid nothing yet.
  Settles-after :
      (p : PaidBlock) (n : ℕ) (w v : World) (r : Outcome Bool × World)
      → IsKept w v
      → Settles p n v.tables r
      → Settles p n w.tables r
  unfolding Settles
  Settles-after p n w v r k (inl ((a, b, c, g), d)) = inl (
    (
      a ∙ ap (λ ps. p ∷ ps) k.1,
      subst (λ ps. is_paid p.hex ps ≡ false) k.1 b,
      c ∙ ap (λ s. s + n) k.0,
      g,
    ),
    d,
  )
  Settles-after p n w v r k (inr ((a, b, g), d)) = inr ((a ∙ k.1, b ∙ k.0, λ x. g (k.3 x)), d)

  Unpaid-Settles :
      (p : PaidBlock) (n : ℕ) (w : World) (r : Outcome Bool × World)
      → IsKept w r.1
      → r.0 ≢ ok true
      → Settles p n w.tables r
  unfolding Settles
  Unpaid-Settles p n w r k h = inr ((k.1, k.0, k.3), h)

  pay_rows-Settles :
      (before : ℕ) (p : PaidBlock) (rs : List BlockBalance) (w : World)
      → IsReady w.tables
      → Settles p (earned p.amount rs) w.tables (pay_rows env before p rs w)
  unfolding pay_rows
  pay_rows-Settles before p [] w k =
      Unpaid-Settles p 0 w (ok false, w) (IsKept-refl w) (λ x. absurd (cc x))
  pay_rows-Settles before p (r ∷ rs) w k =
      let ps = credit_rows p.amount (r ∷ rs) in
      let kept =
        Keeps-at (resolve_balance_credits env ps) w (resolve_balance_credits-Keeps env ps) in
      elim (Outcome-cases (resolve_balance_credits env ps w).0) [
        | inl q ↦ rw q (Unpaid-Settles p _ w _ kept (λ x. absurd (cc x)))
        | inr (cs, q) ↦ rw q (elim (Bool-cases (total_credit env cs == 0)) [
          | inl z ↦ rw z (Unpaid-Settles p _ w _ kept (λ x. absurd (cc x)))
          | inr z ↦ rw z (
              let i = resolve_balance_credits-IsMap env ps w cs q in
              Settles-after p (earned p.amount (r ∷ rs)) w (resolve_balance_credits env ps w).1 _
                kept
                (subst
                  (λ n.
                    Settles p n (resolve_balance_credits env ps w).1.tables
                      (commit_credits env before p cs (resolve_balance_credits env ps w).1))
                  (i.1 ∙ earned-credit_rows p.amount (r ∷ rs))
                  (commit_credits-Settles before p cs (resolve_balance_credits env ps w).1 i.0
                    (kept.3 k))))
        ])
      ]

  get_balance_sum-IsKept : (w : World) → IsKept w (get_balance_sum env w).1
  unfolding get_balance_sum query
  get_balance_sum-IsKept w = elim (Bool-cases (env.fails w.ticks)) [
    | inl f ↦ rw f (IsKept-refl w)
    | inr f ↦ rw f (elim (Bool-cases (is_empty w.tables.balances)) [
      | inl q ↦ rw q (IsKept-refl w)
      | inr q ↦ rw q (IsKept-refl w)
    ])
  ]

  pay_block-Settles :
      (p : PaidBlock) (o : Outcome ℕ) (w : World)
      → IsReady w.tables
      → Settles p (earned p.amount (rows_of env p.hex w)) w.tables (pay_block env p o w)
  unfolding query
  pay_block-Settles p thrown w k = Unpaid-Settles p _ w _ (IsKept-refl w) (λ x. absurd (cc x))
  pay_block-Settles p (ok before) w k = elim (Bool-cases (env.fails w.ticks)) [
    | inl f ↦ rw f (Unpaid-Settles p _ w _ (IsKept-refl w) (λ x. absurd (cc x)))
    | inr f ↦
        rw f (pay_rows-Settles before p (rows_of env p.hex w) (record w { ticks = suc w.ticks }) k)
  ]

  pub do_pplns_payments-Settles :
      (p : PaidBlock) (w : World)
      → IsReady w.tables
      → Settles p (earned p.amount (rows_of env p.hex w)) w.tables (do_pplns_payments env p w)
  unfolding do_pplns_payments
  do_pplns_payments-Settles p w k =
      let kept = get_balance_sum-IsKept w in
      Settles-after p _ w (get_balance_sum env w).1 _ kept (
        subst
          (λ rs.
            Settles p (earned p.amount (keep_if (λ r. str_eq r.hex p.hex) rs))
              (get_balance_sum env w).1.tables (do_pplns_payments env p w))
          kept.2
          (pay_block-Settles p (get_balance_sum env w).0 (get_balance_sum env w).1 (kept.3 k)))

  -- A payout, where the ids of the balances are a key and the next one is new, records the block, which
  -- was not recorded, and brings the balances up by exactly what the rows of the block earn, and returns
  -- true or stops all payouts; or it leaves the paid blocks and the sum of the balances as they were,
  -- and does not return true. The ids stay a key with a next one. Whatever query fails, and whoever
  -- inserts balances meanwhile.
  pub do_pplns_payments-IsSettled :
      (p : PaidBlock) (w : World)
      → IsReady w.tables
      → IsSettled p (earned p.amount (rows_of env p.hex w)) w.tables (do_pplns_payments env p w)
  unfolding Settles
  do_pplns_payments-IsSettled p w k = elim (do_pplns_payments-Settles p w k) [
    | inl paid ↦ inl paid
    | inr ((same, sum, ready), not_true) ↦ inr (same, sum, ready k, not_true)
  ]
