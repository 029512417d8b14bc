-- ===== src/Common/TaskQueue/Oldest.antt =====
-- `oldest` of a queue that is filled at both ends.
use nodejs_pool.Prelude.{
  ◌≤◌, ◌≡◌, refl, sym, subst, ◌∙◌, ◌⊎◌, inl, inr, true, false, none, some, List, [], ◌∷◌, ltb, All,
  Bool-cases, arith,
}
use nodejs_pool.Common.TaskQueue.{QueueTask, TaskQueue, keep_older, oldest_of, oldest}

module _ {T C : Type 0} where
  abbrev pub IsIn : QueueTask T C → List (QueueTask T C) → Type 0
  IsIn t [] = (true ≡ false)
  IsIn t (u ∷ us) = (t ≡ u) ⊎ IsIn t us

  abbrev pub NotLater : QueueTask T C → QueueTask T C → Type 0
  NotLater t u = t.enqueue_order ≤ u.enqueue_order

  -- The older of two tasks is one of them.
  keep_older-cases :
      (u o : QueueTask T C)
      → ((keep_older u (some o) ≡ u) × NotLater u o) ⊎ ((keep_older u (some o) ≡ o) × NotLater o u)
  keep_older-cases u o = elim (Bool-cases (ltb u.enqueue_order o.enqueue_order)) [
    | inl e ↦ inl (rw e refl, ground arith)
    | inr e ↦ inr (rw e refl, ground arith)
  ]

  -- What `oldest_of` finds from a task on.
  Finds : QueueTask T C → List (QueueTask T C) → Type 0
  Finds o ts =
      (t : QueueTask T C) × (oldest_of (some o) ts ≡ some t)
      × ((t ≡ o) ⊎ IsIn t ts)
      × NotLater t o
      × All (NotLater t) ts

  oldest_of-Finds : (ts : List (QueueTask T C)) (o : QueueTask T C) → Finds o ts
  unfolding oldest_of Finds
  oldest_of-Finds [] o = (o, refl, inl refl, omega arith, tt)
  oldest_of-Finds (u ∷ us) o =
      let (t, found, place, earlier, all) = oldest_of-Finds us (keep_older u (some o)) in
      elim (keep_older-cases u o) [
        | inl (e, h) ↦ (
          t,
          found,
          inr (elim place [ inl p ↦ inl (p ∙ e) | inr p ↦ inr p ]),
          omega (arith, subst (NotLater t) e earlier, h),
          (subst (NotLater t) e earlier, all),
        )
        | inr (e, h) ↦ (
          t,
          found,
          elim place [ inl p ↦ inl (p ∙ e) | inr p ↦ inr (inr p) ],
          subst (NotLater t) e earlier,
          (omega (arith, subst (NotLater t) e earlier, h), all),
        )
      ]

  -- The head of the list may be the newest task, since `unshift` puts tasks there. If any task waits,
  -- `oldest` finds a task that waits, and none that waits was enqueued before it.
  pub oldest-NotLater :
      (q : TaskQueue T C) (u : QueueTask T C) (us : List (QueueTask T C))
      → q.pending ≡ u ∷ us
      → (t : QueueTask T C) × (oldest q ≡ some t) × IsIn t q.pending × All (NotLater t) q.pending
  unfolding oldest Finds oldest_of
  oldest-NotLater q u us e =
      let (t, found, place, earlier, all) = oldest_of-Finds us u in
      subst
        (λ ts. (t : QueueTask T C) × (oldest_of none ts ≡ some t) × IsIn t ts × All (NotLater t) ts)
        (sym e) (t, found, place, (earlier, all))
