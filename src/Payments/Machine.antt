-- ===== src/Payments/Machine.antt =====
-- The durable state machine of the payment batches, as the comment at the head of
-- lib/payments/processor.js describes it: which status may follow which, what one statement of any
-- runtime may do to the tables, and what follows for every interleaving of such statements.
pub mod Laws
pub mod Moves
pub mod Reads
pub mod Writes
pub mod Finals
pub mod Reconciles
pub mod Submits
pub mod Claims
pub mod Recovers
pub mod Cycles
use nodejs_pool.Prelude.{
  ℕ, Bool, true, false, ◌≡◌, Option, none, some, List, [], ◌∷◌, ◌++◌, ◌==◌, count_if, if◌then◌else◌,
  ◌≤◌,
}
use nodejs_pool.Payments.Store.{Batch, Store, Status, find_batch}
use nodejs_pool.Payments.Runtime.{row_matches, update_row}

-- The documented transitions but for the claim; every open status may also stay.
abbrev pub may_move : Status → Status → Bool
may_move Status.reserved Status.reserved = true
may_move Status.reserved Status.retrying = true
may_move Status.reserved Status.retryable = true
may_move Status.retrying Status.retrying = true
may_move Status.submitting Status.submitting = true
may_move Status.submitting Status.submitted = true
may_move Status.submitting Status.manual_review = true
may_move Status.submitted Status.submitted = true
may_move Status.submitted Status.finalized = true
may_move Status.submitted Status.manual_review = true
may_move _ _ = false

-- Only these may be claimed for a submit.
abbrev pub is_before_submit : Status → Bool
is_before_submit Status.reserved = true
is_before_submit Status.retrying = true
is_before_submit _ = false

abbrev pub is_live : Status → Bool
is_live Status.submitting = true
is_live Status.submitted = true
is_live _ = false

abbrev pub is_terminal : Status → Bool
is_terminal Status.finalized = true
is_terminal Status.retryable = true
is_terminal Status.manual_review = true
is_terminal _ = false

-- Before the submit no time of a submit is recorded.
abbrev pub IsUnstarted : Batch → Type 0
IsUnstarted b = is_before_submit b.status ≡ true → b.submit_started_at ≡ none

pub record Write (r r' : Batch) : Type 0 where
  pub same_id : r'.id ≡ r.id
  pub moves : may_move r.status r'.status ≡ true
  pub unstarted : IsUnstarted r → IsUnstarted r'

pub record Claim (r r' : Batch) : Type 0 where
  pub same_id : r'.id ≡ r.id
  pub before : is_before_submit r.status ≡ true
  pub after : r'.status ≡ Status.submitting

-- One statement or transaction of some runtime.
pub data Step (s s' : Store) : Type 0 where
  other_tables : s'.batches ≡ s.batches → s'.claims ≡ s.claims → Step s s'
  reserve :
      (b : Batch)
      → b.status ≡ Status.reserved
      → b.submit_started_at ≡ none
      → find_batch b.id s.batches ≡ none
      → s'.batches ≡ s.batches ++ b ∷ []
      → s'.claims ≡ s.claims
      → Step s s'
  write :
      (i : ℕ) (guard : Batch → Bool) (fields : Batch → Batch)
      → ((r : Batch) → guard r ≡ true → Write r (fields r))
      → s'.batches ≡ update_row i guard fields s.batches
      → s'.claims ≡ s.claims
      → Step s s'
  claim :
      (i : ℕ) (guard : Batch → Bool) (fields : Batch → Batch)
      → ((r : Batch) → guard r ≡ true → Claim r (fields r))
      → row_matches i guard s.batches ≡ true
      → s'.batches ≡ update_row i guard fields s.batches
      → s'.claims ≡ i ∷ s.claims
      → Step s s'

pub data Steps (s : Store) : Store → Type 0 where
  here : Steps s s
  next : {t u : Store} → Steps s t → Step t u → Steps s u

-- How often a batch was claimed.
abbrev pub times_claimed : ℕ → List ℕ → ℕ
times_claimed i cs = count_if (λ j. i == j) cs

-- What a row allows: no claim before the submit, and one after it.
abbrev pub allowance : Option Batch → ℕ
allowance none = 0
allowance (some b) = if is_before_submit b.status then 0 else 1

abbrev pub IsOnceClaimed : ℕ → Store → Type 0
IsOnceClaimed i s = times_claimed i s.claims ≤ allowance (find_batch i s.batches)
