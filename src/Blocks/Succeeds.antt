-- ===== src/Blocks/Succeeds.antt =====
-- lib/block_manager.js, `doPPLNSPayments`: a payout that nothing hinders is done.
use nodejs_pool.Prelude.{
  ℕ, suc, zero, ◌≤◌, ◌<◌, ◌≡◌, refl, sym, ◌∙◌, subst, true, false, List, [], ◌∷◌, ◌++◌, ◌==◌,
  length, take, drop, take-append-drop, count_if, sum_by, arith, inl, inr, All,
}
use nodejs_pool.Payments.Store.{Balance}
use nodejs_pool.Blocks.Runtime.{
  PaidBlock, BlockBalance, Env, World, ok, ◌>>=◌, query, with_transaction,
}
use nodejs_pool.Blocks.Credits.{
  Credit, has_credit, credit_balances, batch_size, update_batch, update_batches,
  apply_balance_credits, resolve_balance_credits,
}
use nodejs_pool.Blocks.Crediting.{
  IsMap, IsMap-append, count_id, count_id-le, IsKeyed, IsReady, has_id-split, count-none,
  count_id-credit_balances, credit_balances-IsKeyed, credits,
}
use nodejs_pool.Blocks.Keeps.{
  Keeps-at, resolve_balance_credits-Keeps, resolve_balance_credits-IsMap,
}
use nodejs_pool.Blocks.Payout.{
  balance_sum, is_empty, credit_rows, is_paid, insert_paid_block, get_balance_sum, check_sum,
  pay_credits, commit_credits, pay_rows, rows_of, do_pplns_payments,
}
use nodejs_pool.Blocks.Atomic.{earned, earned-credit_rows, pay_credits-IsPaid}
use nodejs_pool.Blocks.Recipients.{IsFound}
use nodejs_pool.Blocks.Found.{resolve_balance_credits-ok}

-- Each credit has its row: as many rows as credits have one.
every_row :
    (cs : List Credit) (bs : List Balance)
    → IsMap cs
    → IsKeyed bs
    → All (λ c. 1 ≤ count_id c.id bs) cs
    → count_if (has_credit cs) bs ≡ length cs
every_row [] bs m k a = count-none bs
every_row (c ∷ cs) bs m k (p, a) =
    omega (arith, has_id-split c cs bs m.0, count_id-le c.id bs k, p, every_row cs bs m.1 k a)

All-split : {A : Type 0} (P : A → Type 0) (xs ys : List A) → All P (xs ++ ys) → All P xs × All P ys
All-split P [] ys a = (tt, a)
All-split P (x ∷ xs) ys (p, a) = ((p, (All-split P xs ys a).0), (All-split P xs ys a).1)

still_rows :
    (ds cs : List Credit) (bs : List Balance)
    → All (λ c. 1 ≤ count_id c.id bs) cs
    → All (λ c. 1 ≤ count_id c.id (credit_balances ds bs)) cs
still_rows ds [] bs a = tt
still_rows ds (c ∷ cs) bs (p, a) =
    (omega (arith, p, count_id-credit_balances c.id ds bs), still_rows ds cs bs a)

module _ (env : Env) (calm : (t : ℕ) → env.fails t ≡ false) where
  update_batches-ok :
      (fuel : ℕ) (cs : List Credit) (w : World)
      → IsMap cs
      → IsKeyed w.tables.balances
      → All (λ c. 1 ≤ count_id c.id w.tables.balances) cs
      → (update_batches env fuel cs w).0 ≡ ok tt
  unfolding update_batches update_batch query
  update_batches-ok zero cs w m k a = refl
  update_batches-ok (suc fuel) [] w m k a = refl
  update_batches-ok (suc fuel) (c ∷ cs) w m k a =
      let batch = take batch_size (c ∷ cs) in
      let rest = drop batch_size (c ∷ cs) in
      let whole = sym (take-append-drop batch_size (c ∷ cs)) in
      let maps = IsMap-append batch rest (subst IsMap whole m) in
      let rows =
        All-split (λ c. 1 ≤ count_id c.id w.tables.balances) batch rest
          (subst (All (λ c. 1 ≤ count_id c.id w.tables.balances)) whole a) in
      let all = every_row batch w.tables.balances maps.0 k rows.0 in
      let same : count_if (has_credit batch) w.tables.balances == length batch ≡ true =
        ground (arith, all) in
      rw (calm w.ticks, same)
        (update_batches-ok fuel rest _ maps.1 (credit_balances-IsKeyed batch w.tables.balances k)
          (still_rows batch rest w.tables.balances rows.1))

  work-ok :
      (p : PaidBlock) (cs : List Credit) (w : World)
      → is_paid p.hex w.tables.paid_blocks ≡ false
      → IsMap cs
      → IsKeyed w.tables.balances
      → All (λ c. 1 ≤ count_id c.id w.tables.balances) cs
      → ((insert_paid_block env p >>= λ _. apply_balance_credits env cs) w).0 ≡ ok tt
  unfolding insert_paid_block apply_balance_credits query
  work-ok p cs w new m k a = rw (calm w.ticks, new) (update_batches-ok (length cs) cs _ m k a)

  pay_credits-ok :
      (p : PaidBlock) (cs : List Credit) (w : World)
      → is_paid p.hex w.tables.paid_blocks ≡ false
      → IsMap cs
      → IsKeyed w.tables.balances
      → All (λ c. 1 ≤ count_id c.id w.tables.balances) cs
      → (pay_credits env p cs w).0 ≡ ok tt
  unfolding with_transaction query
  pay_credits-ok p cs w new m k a =
      let v = record w { ticks = suc (suc w.ticks) } in
      rw
        (
          calm w.ticks,
          calm (suc w.ticks),
          work-ok p cs v new m k a,
          calm ((insert_paid_block env p >>= λ _. apply_balance_credits env cs) v).1.ticks,
        )
        refl

  not_empty : (bs : List Balance) → 1 ≤ sum_by (λ b. b.amount) bs → is_empty bs ≡ false
  not_empty [] le = absurd (omega arith)
  not_empty (b ∷ bs) le = refl

  check_sum-ok :
      (before : ℕ) (w : World)
      → before < balance_sum w.tables
      → (check_sum env before w).0 ≡ ok true
  unfolding get_balance_sum query
  check_sum-ok before w lt =
      let changed : balance_sum w.tables == before ≡ false = ground arith in
      rw (calm w.ticks, not_empty w.tables.balances (omega arith), changed) refl

  commit_credits-ok :
      (before : ℕ) (p : PaidBlock) (cs : List Credit) (w : World)
      → before ≡ balance_sum w.tables
      → 1 ≤ credits cs
      → is_paid p.hex w.tables.paid_blocks ≡ false
      → IsMap cs
      → IsReady w.tables
      → All (λ c. 1 ≤ count_id c.id w.tables.balances) cs
      → (commit_credits env before p cs w).0 ≡ ok true
  unfolding commit_credits
  commit_credits-ok before p cs w same pos new m k a =
      let done = pay_credits-ok p cs w new m k.0 a in
      let more : before < balance_sum (pay_credits env p cs w).1.tables =
        elim (pay_credits-IsPaid env p cs w m k) [
          | inl (u, q, (x, y, sum, z)) ↦ omega (arith, sum, same)
          | inr (q, e) ↦ absurd (cc (done, q))
        ] in
      rw done (check_sum-ok before (pay_credits env p cs w).1 more)

  pay_rows-ok :
      (before : ℕ) (p : PaidBlock) (rs : List BlockBalance) (w : World)
      → ((t : ℕ) → env.raced t ≡ false)
      → before ≡ balance_sum w.tables
      → 1 ≤ earned p.amount rs
      → is_paid p.hex w.tables.paid_blocks ≡ false
      → IsReady w.tables
      → IsFound w
      → (pay_rows env before p rs w).0 ≡ ok true
  unfolding pay_rows
  pay_rows-ok before p [] w lone same pos new k f = absurd (omega arith)
  pay_rows-ok before p (r ∷ rs) w lone same pos new k f =
      let ps = credit_rows p.amount (r ∷ rs) in
      let v = (resolve_balance_credits env ps w).1 in
      let (cs, e, rows) = resolve_balance_credits-ok env ps w calm lone f in
      let (m, total) = resolve_balance_credits-IsMap env ps w cs e in
      let (sum, paid, blocks, ready) =
        Keeps-at (resolve_balance_credits env ps) w (resolve_balance_credits-Keeps env ps) in
      let some_credit : 1 ≤ credits cs =
        omega (arith, total, earned-credit_rows p.amount (r ∷ rs), pos) in
      let not_zero : credits cs == 0 ≡ false = ground (arith, some_credit) in
      rw (e, not_zero)
        (commit_credits-ok before p cs v (same ∙ sym sum) some_credit
          (subst (λ l. is_paid p.hex l ≡ false) (sym paid) new) m (ready k) rows)

-- A payout of a block that is not paid, whose rows earn something, returns true when no query fails and
-- nobody else inserts balances: where there is money in the balances, their ids are a key, no two are
-- of the same recipient, and the cached ids have their rows.
pub do_pplns_payments-succeeds :
    (env : Env) (p : PaidBlock) (w : World)
    → ((t : ℕ) → env.fails t ≡ false)
    → ((t : ℕ) → env.raced t ≡ false)
    → is_paid p.hex w.tables.paid_blocks ≡ false
    → 1 ≤ earned p.amount (rows_of env p.hex w)
    → 1 ≤ balance_sum w.tables
    → IsReady w.tables
    → IsFound w
    → (do_pplns_payments env p w).0 ≡ ok true
unfolding do_pplns_payments get_balance_sum query
do_pplns_payments-succeeds env p w calm lone new pos money k f =
    let v = record w { ticks = suc (suc w.ticks) } in
    rw (calm w.ticks, not_empty env calm w.tables.balances money, calm (suc w.ticks))
      (pay_rows-ok env calm (balance_sum w.tables) p (rows_of env p.hex w) v lone refl pos new k
        (record { cached = f.cached; alone = f.alone }))
