-- ===== src/Payments/Machine/Moves.antt =====
-- The relation between the worlds before and after a part of the processor, and its guarded writes.
use nodejs_pool.Prelude.{ℕ, suc, Bool, true, false, ◌≡◌, refl, ◌∙◌, arith, Bool-cases, inl, inr}
use nodejs_pool.Payments.Store.{Batch, Store, Status, status_eq}
use nodejs_pool.Payments.Runtime.{
  Env, World, M, pure, ◌>>=◌, elapse, await, row_matches, is_current, update_if_current,
  update_guarded, verify_with, verify_advisory_lock, unless_stopped, check_exclusive_access,
  LockReply, owned, lost, failed, lock_result,
}
use nodejs_pool.Payments.Machine.{Write, write, Steps, here, next}
use nodejs_pool.Payments.Machine.Laws.{Steps-trans}

-- The tables moved by steps of the machine, and no batch was claimed or handed to the wallet here.
pub record Goes (w w' : World) : Type 0 where
  pub steps : Steps w.store w'.store
  pub no_claim : w'.claimed ≡ w.claimed
  pub no_transfer : w'.transferred ≡ w.transferred

pub Goes-refl : (w : World) → Goes w w
Goes-refl w = record { steps = here; no_claim = refl; no_transfer = refl }

pub Goes-trans : {u v w : World} → Goes u v → Goes v w → Goes u w
Goes-trans a b = record {
  steps = Steps-trans a.steps b.steps;
  no_claim = b.no_claim ∙ a.no_claim;
  no_transfer = b.no_transfer ∙ a.no_transfer;
}

-- A part that writes nothing itself, and leaves the batch object alone.
abbrev pub Reads : {A : Type 0} → M A → Type 0
Reads m = (w : World) → Goes w (m w).1 × ((m w).1.mem ≡ w.mem)

pub Reads-pure : {A : Type 0} (a : A) → Reads (pure a)
Reads-pure a w = (Goes-refl w, refl)

pub Reads-bind :
    {A B : Type 0} (m : M A) (f : A → M B) → Reads m → ((a : A) → Reads (f a)) → Reads (m >>= f)
Reads-bind m f hm hf w =
    let (go, mem) = hm w in let (go', mem') = hf (m w).0 (m w).1 in (Goes-trans go go', mem' ∙ mem)

pub status_eq-eq : (a b : Status) → status_eq a b ≡ true → a ≡ b
status_eq-eq a b h = ground arith

pub is_current-status : (st : Status) (r : Batch) → is_current st r ≡ true → r.status ≡ st
is_current-status st r h = status_eq-eq r.status st (ground arith)

module _ (env : Env) (rely : (n : ℕ) (s : Store) → Steps s (env.others n s)) where
  pub elapse-Goes : (w : World) → Goes w (elapse env w)
  unfolding elapse
  elapse-Goes w = record { steps = rely w.ticks w.store; no_claim = refl; no_transfer = refl }

  pub await-Reads : {A : Type 0} (reply : ℕ → A) → Reads (await env reply)
  unfolding await elapse
  await-Reads reply w = (elapse-Goes w, refl)

  -- A guarded write is one step, whatever other runtimes do before and after it.
  pub update_guarded-Goes :
      (fields : Batch → Batch) (w : World)
      → ((r : Batch) → r.status ≡ w.mem.status → Write r (fields r))
      → Goes w (update_guarded env fields w).1
  unfolding update_guarded update_if_current elapse
  update_guarded-Goes fields w h = elim (Bool-cases current) [
    | inl e ↦ rw e (record {
      steps = next (rely w.ticks w.store) (
          write w.mem.id (is_current w.mem.status) fields
            (λ r q. h r (is_current-status w.mem.status r q)) refl refl);
      no_claim = refl;
      no_transfer = refl;
    })
    | inr e ↦ rw e (record {
      steps = Steps-trans (rely w.ticks w.store) (rely (suc w.ticks) (env.others w.ticks w.store));
      no_claim = refl;
      no_transfer = refl;
    })
  ]
    where
      current : Bool
      current = row_matches w.mem.id (is_current w.mem.status) (env.others w.ticks w.store).batches

  -- Where the write took place, the batch object has its columns.
  pub update_guarded-mem :
      (fields : Batch → Batch) (w : World)
      → (update_guarded env fields w).0 ≡ true
      → (update_guarded env fields w).1.mem ≡ fields w.mem
  unfolding update_guarded update_if_current elapse
  update_guarded-mem fields w e = ground arith

  lock_result-Reads :
      (r : LockReply) (w : World)
      → Goes w (lock_result r (elapse env w)).1 × ((lock_result r (elapse env w)).1.mem ≡ w.mem)
  unfolding elapse
  lock_result-Reads owned w = (elapse-Goes w, refl)
  lock_result-Reads lost w =
      (record { steps = rely w.ticks w.store; no_claim = refl; no_transfer = refl }, refl)
  lock_result-Reads failed w =
      (record { steps = rely w.ticks w.store; no_claim = refl; no_transfer = refl }, refl)

  verify_with-Reads : (connected : Bool) → Reads (verify_with env connected)
  verify_with-Reads true w = lock_result-Reads (env.lock w.ticks) w
  verify_with-Reads false w = (Goes-refl w, refl)

  pub verify_advisory_lock-Reads : Reads (verify_advisory_lock env)
  unfolding verify_advisory_lock
  verify_advisory_lock-Reads w = verify_with-Reads w.lock_connection w

  unless_stopped-Reads : (stopped : Bool) → Reads (unless_stopped env stopped)
  unless_stopped-Reads true w = (Goes-refl w, refl)
  unless_stopped-Reads false w = verify_advisory_lock-Reads w

  pub check_exclusive_access-Reads : Reads (check_exclusive_access env)
  unfolding check_exclusive_access
  check_exclusive_access-Reads w = unless_stopped-Reads w.is_fail_stop w
