-- ===== src/Payments/Machine/Finals.antt =====
-- The transactions that finalize and release a batch are steps of the machine.
use nodejs_pool.Prelude.{ℕ, ◌≡◌, refl, ◌∙◌, ap, Option, none, some, List, arith}
use nodejs_pool.Payments.Store.{Batch, Store, Status, Item}
use nodejs_pool.Payments.Runtime.{
  Env, World, elapse, row_matches, is_current, is_releasable, current_time,
}
use nodejs_pool.Payments.Processor.Search.{TxKeyResult, retry, missing, ok, resolve_tx_key}
use nodejs_pool.Payments.Processor.Settle.{
  finalize_transaction, held, finalized_columns, released, conclude_final, commit_final,
  with_resolved_key, finalize_with, finalize_batch, release_batch_reservation,
}
use nodejs_pool.Payments.Machine.{Step, write, Steps, here, next}
use nodejs_pool.Payments.Machine.Moves.{
  Goes, Goes-trans, elapse-Goes, update_guarded-Goes, is_current-status,
}
use nodejs_pool.Payments.Machine.Reads.{resolve_tx_key-Reads}
use nodejs_pool.Payments.Machine.Writes.{
  Goes-if, stay-Write, leave-Write, hold_batch-Goes, mark_batch_manual_review-Goes,
}

-- The row of a committed transaction goes from `submitted` to `finalized`.
finalize_transaction-Step :
    (t : ℕ) (mem : Batch) (items : List Item) (db db' : Store)
    → mem.status ≡ Status.submitted
    → finalize_transaction t mem items db ≡ some db'
    → Step db db'
unfolding finalize_transaction
finalize_transaction-Step t mem items db db' h e =
    write mem.id (is_current mem.status) (finalized_columns t db.next_transaction_id mem)
      (λ r q. leave-Write r _ refl refl (rw (is_current-status mem.status r q, h) refl))
      (ground arith) (ground arith)

module _ (env : Env) (rely : (n : ℕ) (s : Store) → Steps s (env.others n s)) where
  conclude_final-Goes :
      (t : ℕ) (items : List Item) (w : World) (o : Option Store)
      → w.mem.status ≡ Status.submitted
      → finalize_transaction t w.mem items w.store ≡ o
      → Goes w (conclude_final env t o w).1
  conclude_final-Goes t items w (some db) h e = record {
    steps = next here (finalize_transaction-Step t w.mem items w.store db h e);
    no_claim = refl;
    no_transfer = refl;
  }
  conclude_final-Goes t items w none h e =
      update_guarded-Goes env rely (held (current_time env w)) w
        (λ r q. stay-Write r _ refl refl refl (ground arith))

  commit_final-Goes :
      (items : List Item) (w : World)
      → w.mem.status ≡ Status.submitted
      → Goes w (commit_final env items w).1
  unfolding commit_final elapse
  commit_final-Goes items w h = Goes-trans (elapse-Goes env rely w) (
      conclude_final-Goes (current_time env w) items (elapse env w)
        (finalize_transaction (current_time env w) w.mem items (env.others w.ticks w.store)) h refl)

  with_resolved_key-Goes :
      (items : List Item) (r : TxKeyResult) (w : World)
      → w.mem.status ≡ Status.submitted
      → Goes w (with_resolved_key env items r w).1
  with_resolved_key-Goes items retry w h = hold_batch-Goes env rely w (ground arith)
  with_resolved_key-Goes items missing w h =
      mark_batch_manual_review-Goes env rely _ w (ground arith)
  with_resolved_key-Goes items (ok k) w h =
      let g = commit_final-Goes items (record w { mem = record w.mem { tx_key = some k } }) h in
      record { steps = g.steps; no_claim = g.no_claim; no_transfer = g.no_transfer }

  finalize_with-Goes :
      (items : List Item) (hash k : Option ℕ) (w : World)
      → w.mem.status ≡ Status.submitted
      → Goes w (finalize_with env items hash k w).1
  finalize_with-Goes items none k w h = mark_batch_manual_review-Goes env rely _ w (ground arith)
  finalize_with-Goes items (some hash) (some k) w h = commit_final-Goes items w h
  finalize_with-Goes items (some hash) none w h =
      let (g, same) = resolve_tx_key-Reads env rely w in
      Goes-trans g (
        with_resolved_key-Goes items (resolve_tx_key env w).0 (resolve_tx_key env w).1
          (ap (λ (b : Batch). b.status) same ∙ h))

  pub finalize_batch-Goes :
      (items : List Item) (w : World)
      → w.mem.status ≡ Status.submitted
      → Goes w (finalize_batch env items w).1
  unfolding finalize_batch
  finalize_batch-Goes items w h = finalize_with-Goes items w.mem.tx_hash w.mem.tx_key w h

  pub release_batch_reservation-Goes :
      (w : World) → w.mem.status ≡ Status.reserved → Goes w (release_batch_reservation env w).1
  unfolding release_batch_reservation elapse
  release_batch_reservation-Goes w h =
      Goes-if
        (row_matches w.mem.id (is_releasable w.mem.status) (env.others w.ticks w.store).batches) w _
        _
        (λ _. record {
          steps = next (rely w.ticks w.store) (
              write w.mem.id (is_releasable w.mem.status) (released (current_time env w))
                (λ r q.
                  leave-Write r _ refl refl
                    (rw (is_current-status w.mem.status r (ground arith), h) refl))
                refl refl);
          no_claim = refl;
          no_transfer = refl;
        })
        (λ _. elapse-Goes env rely w)
