-- ===== src/Payments/Machine/Laws.antt =====
-- What holds of the tables under every interleaving of the runtimes' statements.
use nodejs_pool.Prelude.{
  ℕ, Bool, true, ◌≡◌, ◌≤◌, inl, inr, none, some, List, [], ◌∷◌, ◌++◌, ◌==◌, if◌then◌else◌, arith,
  Option-cases, Bool-cases, All, All-append,
}
use nodejs_pool.Payments.Store.{Batch, Store, Status, find_batch}
use nodejs_pool.Payments.Runtime.{row_matches, update_row}
use nodejs_pool.Payments.Machine.{
  may_move, is_before_submit, IsUnstarted, Write, Claim, Step, other_tables, reserve, write, claim,
  Steps, here, next, times_claimed, allowance, IsOnceClaimed,
}

abbrev updated : (Batch → Bool) → (Batch → Batch) → Batch → Batch
updated guard fields b = if guard b then fields b else b

-- A write shows at its own key, and nowhere else.
pub find_batch-update_row :
    (i j : ℕ) (guard : Batch → Bool) (fields : Batch → Batch) (bs : List Batch)
    → ((r : Batch) → guard r ≡ true → (fields r).id ≡ r.id)
    → find_batch j (update_row i guard fields bs) ≡ (
        if i == j
        then elim (find_batch j bs) [ none ↦ none | some b ↦ some (updated guard fields b) ]
        else find_batch j bs)
unfolding find_batch update_row
find_batch-update_row i j guard fields [] h = ground arith
find_batch-update_row i j guard fields (b ∷ bs) h =
    ground (arith, h b, find_batch-update_row i j guard fields bs h)

find_batch-append :
    (j : ℕ) (bs : List Batch) (b : Batch)
    → find_batch j (bs ++ b ∷ [])
      ≡ elim (find_batch j bs) [ some r ↦ some r | none ↦ if b.id == j then some b else none ]
unfolding find_batch
find_batch-append j [] b = ground arith
find_batch-append j (x ∷ bs) b = ground (arith, find_batch-append j bs b)

find_batch-id : (j : ℕ) (bs : List Batch) (b : Batch) → find_batch j bs ≡ some b → b.id ≡ j
unfolding find_batch
find_batch-id j [] b e = cc
find_batch-id j (x ∷ bs) b e = ground (arith, find_batch-id j bs b)

abbrev spent : Status → ℕ
spent st = if is_before_submit st then 0 else 1

may_move-spent : (a b : Status) → may_move a b ≡ true → spent a ≤ spent b
may_move-spent a b h = ground arith

allowance-update_row :
    (i j : ℕ) (g : Batch → Bool) (f : Batch → Batch) (bs : List Batch)
    → ((r : Batch) → g r ≡ true → Write r (f r))
    → allowance (find_batch i bs) ≤ allowance (find_batch i (update_row j g f bs))
allowance-update_row i j g f bs w =
    rw (find_batch-update_row j i g f bs (λ r q. (w r q).same_id))
      elim (Option-cases (find_batch i bs)) [
        | inl e ↦ rw e (ground arith)
        | inr (b, e) ↦ rw e elim (Bool-cases (g b)) [
          | inl q ↦ ground (arith, may_move-spent b.status (f b).status (w b q).moves)
          | inr q ↦ ground arith
        ]
      ]

Claim-IsOnceClaimed :
    (i j : ℕ) (g : Batch → Bool) (f : Batch → Batch) (bs : List Batch) (cs : List ℕ)
    → ((r : Batch) → g r ≡ true → Claim r (f r))
    → row_matches j g bs ≡ true
    → times_claimed i cs ≤ allowance (find_batch i bs)
    → times_claimed i (j ∷ cs) ≤ allowance (find_batch i (update_row j g f bs))
unfolding row_matches
Claim-IsOnceClaimed i j g f bs cs w m h =
    rw (find_batch-update_row j i g f bs (λ r q. (w r q).same_id))
      elim (Option-cases (find_batch i bs)) [
        | inl e ↦ ground arith
        | inr (b, e) ↦ elim (Bool-cases (g b)) [
          | inl q ↦ ground (arith, (w b q).before, (w b q).after)
          | inr q ↦ ground arith
        ]
      ]

-- A statement never lets a batch be claimed a second time.
pub Step-IsOnceClaimed : (i : ℕ) {s s' : Store} → Step s s' → IsOnceClaimed i s → IsOnceClaimed i s'
Step-IsOnceClaimed i {s} {s'} (other_tables eb ec) h = rw (eb, ec) h
Step-IsOnceClaimed i {s} {s'} (reserve b st un fresh eb ec) h =
    rw (eb, ec) (ground (arith, find_batch-append i s.batches b))
Step-IsOnceClaimed i {s} {s'} (write j g f w eb ec) h =
    rw (eb, ec) (omega (arith, allowance-update_row i j g f s.batches w))
Step-IsOnceClaimed i {s} {s'} (claim j g f w m eb ec) h =
    rw (eb, ec) (Claim-IsOnceClaimed i j g f s.batches s.claims w m h)

pub Steps-IsOnceClaimed :
    (i : ℕ) {s s' : Store} → IsOnceClaimed i s → Steps s s' → IsOnceClaimed i s'
Steps-IsOnceClaimed i h here = h
Steps-IsOnceClaimed i h (next r st) = Step-IsOnceClaimed i st (Steps-IsOnceClaimed i h r)

-- Claims are only added to the history.
pub Steps-claims :
    (i : ℕ) {s s' : Store} → Steps s s' → times_claimed i s.claims ≤ times_claimed i s'.claims
Steps-claims i here = omega arith
Steps-claims i (next r (other_tables eb ec)) = rw ec (Steps-claims i r)
Steps-claims i (next r (reserve b st un fresh eb ec)) = rw ec (Steps-claims i r)
Steps-claims i (next r (write j g f w eb ec)) = rw ec (Steps-claims i r)
Steps-claims i (next r (claim j g f w m eb ec)) = rw ec (ground (arith, Steps-claims i r))

-- A row that is settled for good.
abbrev pub IsSettled : ℕ → Status → Store → Type 0
IsSettled i st s = (b : Batch) × (find_batch i s.batches ≡ some b) × (b.status ≡ st)

pub Steps-trans : {s t u : Store} → Steps s t → Steps t u → Steps s u
Steps-trans a here = a
Steps-trans a (next r st) = next (Steps-trans a r) st

update_row-All :
    (i : ℕ) (g : Batch → Bool) (f : Batch → Batch) (bs : List Batch)
    → ((r : Batch) → g r ≡ true → IsUnstarted r → IsUnstarted (f r))
    → All IsUnstarted bs
    → All IsUnstarted (update_row i g f bs)
unfolding update_row
update_row-All i g f [] h v = tt
update_row-All i g f (b ∷ bs) h v = elim (Bool-cases (b.id == i)) [
  | inr e ↦ rw (e, update_row) (v.0, update_row-All i g f bs h v.1)
  | inl e ↦ elim (Bool-cases (g b)) [
    | inl q ↦ rw (e, q, update_row) (h b q v.0, v.1)
    | inr q ↦ rw (e, q, update_row) v
  ]
]

Step-IsUnstarted :
    {s s' : Store} → Step s s' → All IsUnstarted s.batches → All IsUnstarted s'.batches
Step-IsUnstarted (other_tables eb ec) v = rw eb v
Step-IsUnstarted {s} (reserve b st un fresh eb ec) v =
    rw eb (All-append IsUnstarted s.batches (b ∷ []) v ((λ _. un), tt))
Step-IsUnstarted {s} (write i g f w eb ec) v =
    rw eb (update_row-All i g f s.batches (λ r q. (w r q).unstarted) v)
Step-IsUnstarted {s} (claim i g f w m eb ec) v =
    rw eb (update_row-All i g f s.batches (λ r q _ k. absurd (ground (arith, (w r q).after))) v)

-- If no batch that is before its submit has a time of a submit, this stays so under every
-- interleaving of the runtimes' statements.
pub Steps-IsUnstarted :
    {s s' : Store} → All IsUnstarted s.batches → Steps s s' → All IsUnstarted s'.batches
Steps-IsUnstarted v here = v
Steps-IsUnstarted v (next r st) = Step-IsUnstarted st (Steps-IsUnstarted v r)
