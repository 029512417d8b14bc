-- ===== src/Blocks/Conserves.antt =====
-- lib/block_manager.js, `applyBalanceCredits`: the sum of the balances grows by the credits.
use nodejs_pool.Prelude.{
  ℕ, suc, zero, ◌+◌, ◌≤◌, ◌≡◌, refl, sym, ap, ◌∙◌, subst, true, false, List, [], ◌∷◌, ◌==◌,
  if◌then◌else◌, length, take, drop, take-append-drop, length-drop, count_if, sum_by-append, arith,
  Bool-cases, inl, inr,
}
use nodejs_pool.Blocks.Runtime.{Env, World, ok, query}
use nodejs_pool.Blocks.Credits.{
  Credit, add_credit, aggregate, has_id, has_credit, update_batch, update_batches, batch_size,
  apply_balance_credits,
}
use nodejs_pool.Blocks.Crediting.{
  IsMap, amounts, credits, amounts-credit_balances, credit_of-all, credit_balances-IsKeyed,
  IsMap-append, Outcome-cases, IsReady, below-credit_balances,
}

-- The balances of a world after the credits.
abbrev pub IsCredited : ℕ → World → World → Type 0
IsCredited n w v =
    (amounts v.tables.balances ≡ amounts w.tables.balances + n)
    × IsReady v.tables
    × (v.tables.paid_blocks ≡ w.tables.paid_blocks)

module _ (env : Env) where
  update_batch-IsCredited :
      (batch : List Credit) (w : World)
      → IsMap batch
      → IsReady w.tables
      → (update_batch env batch w).0 ≡ ok tt
      → IsCredited (credits batch) w (update_batch env batch w).1
  unfolding update_batch query
  update_batch-IsCredited batch w m k = elim (Bool-cases (env.fails w.ticks)) [
    | inl f ↦ rw f (λ h. absurd (cc h))
    | inr f ↦
        rw f (elim (Bool-cases (count_if (has_credit batch) w.tables.balances == length batch)) [
          | inl q ↦ rw q (λ h. (
            amounts-credit_balances batch w.tables.balances
                ∙ ap (λ n. amounts w.tables.balances + n)
                    (credit_of-all batch w.tables.balances m k.0 (ground arith)),
            (
              credit_balances-IsKeyed batch w.tables.balances k.0,
              below-credit_balances w.tables.next_balance_id batch w.tables.balances k.1,
            ),
            refl,
          ))
          | inr q ↦ rw q (λ h. absurd (cc h))
        ])
  ]

  update_batches-IsCredited :
      (fuel : ℕ) (cs : List Credit) (w : World)
      → length cs ≤ fuel
      → IsMap cs
      → IsReady w.tables
      → (update_batches env fuel cs w).0 ≡ ok tt
      → IsCredited (credits cs) w (update_batches env fuel cs w).1
  unfolding update_batches
  update_batches-IsCredited zero [] w l m k h = (omega arith, k, refl)
  update_batches-IsCredited zero (c ∷ cs) w l m k h = absurd (omega arith)
  update_batches-IsCredited (suc fuel) [] w l m k h = (omega arith, k, refl)
  update_batches-IsCredited (suc fuel) (c ∷ cs) w l m k h =
      let batch = take batch_size (c ∷ cs) in
      let rest = drop batch_size (c ∷ cs) in
      let maps =
        IsMap-append batch rest (subst IsMap (sym (take-append-drop batch_size (c ∷ cs))) m) in
      let total = ap credits (take-append-drop batch_size (c ∷ cs)) in
      elim (Outcome-cases (update_batch env batch w).0) [
        | inl q ↦ absurd (cc (rw q at h))
        | inr (u, q) ↦
            let first = update_batch-IsCredited batch w maps.0 k q in
            let others =
              update_batches-IsCredited fuel rest (update_batch env batch w).1
                (omega (arith, length-drop batch_size (c ∷ cs))) maps.1 first.1 (rw q at h) in
            rw q (
              omega (
                arith,
                others.0,
                first.0,
                total,
                sum_by-append (λ (d : Credit). d.amount) batch rest,
              ),
              others.1,
              others.2 ∙ first.2,
            )
      ]

  pub apply_balance_credits-IsCredited :
      (cs : List Credit) (w : World)
      → IsMap cs
      → IsReady w.tables
      → (apply_balance_credits env cs w).0 ≡ ok tt
      → IsCredited (credits cs) w (apply_balance_credits env cs w).1
  unfolding apply_balance_credits
  apply_balance_credits-IsCredited cs w m k h =
      update_batches-IsCredited (length cs) cs w (omega arith) m k h

credits-add_credit : (i n : ℕ) (cs : List Credit) → credits (add_credit i n cs) ≡ credits cs + n
unfolding add_credit
credits-add_credit i n [] = omega arith
credits-add_credit i n (c ∷ cs) = ground (arith, credits-add_credit i n cs)

has_id-add_credit :
    (j i n : ℕ) (cs : List Credit)
    → has_id j (add_credit i n cs) ≡ (if i == j then true else has_id j cs)
unfolding add_credit has_id
has_id-add_credit j i n [] = refl
has_id-add_credit j i n (c ∷ cs) = ground (arith, has_id-add_credit j i n cs)

add_credit-IsMap : (i n : ℕ) (cs : List Credit) → IsMap cs → IsMap (add_credit i n cs)
unfolding add_credit has_id
add_credit-IsMap i n [] m = (refl, m)
add_credit-IsMap i n (c ∷ cs) m = elim (Bool-cases (c.id == i)) [
  | inl q ↦ rw q m
  | inr q ↦ rw q (other q, add_credit-IsMap i n cs m.1)
]
  where
    other : c.id == i ≡ false → has_id c.id (add_credit i n cs) ≡ false
    other q = ground (arith, has_id-add_credit c.id i n cs, m.0)

-- The map of the credits: one for each id, with the same total.
pub aggregate-IsMap :
    (acc cs : List Credit)
    → IsMap acc
    → IsMap (aggregate acc cs) × (credits (aggregate acc cs) ≡ credits acc + credits cs)
unfolding aggregate
aggregate-IsMap acc [] m = (m, omega arith)
aggregate-IsMap acc (c ∷ cs) m = elim (Bool-cases (c.amount == 0)) [
  | inl q ↦ rw q ((aggregate-IsMap acc cs m).0, ground (arith, (aggregate-IsMap acc cs m).1))
  | inr q ↦ rw q (
    (aggregate-IsMap (add_credit c.id c.amount acc) cs (add_credit-IsMap c.id c.amount acc m)).0,
    omega (
      arith,
      (aggregate-IsMap (add_credit c.id c.amount acc) cs (add_credit-IsMap c.id c.amount acc m)).1,
      credits-add_credit c.id c.amount acc,
    ),
  )
]
