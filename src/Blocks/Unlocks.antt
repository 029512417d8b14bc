-- ===== src/Blocks/Unlocks.antt =====
-- lib/block_manager.js: a cycle of the unlocker keeps every unlocked block paid.
use nodejs_pool.Prelude.{
  ℕ, ◌<◌, ◌≡◌, refl, sym, ap, ◌∙◌, subst, Bool, true, false, Option, none, some, List, [], ◌∷◌,
  ◌++◌, String, str_eq_iff, if◌then◌else◌, Bool-cases, inl, inr, All,
}
use nodejs_pool.Blocks.Runtime.{PaidBlock, Env, World, Outcome, ok, thrown}
use nodejs_pool.Blocks.Crediting.{IsKeyed, IsReady, Outcome-cases}
use nodejs_pool.Blocks.Payout.{is_paid, execute_payout}
use nodejs_pool.Blocks.Precalc.{pre_calculate}
use nodejs_pool.Blocks.Chain.{
  Block, AltBlock, Chain, invalidate_block, invalidate_alt_block, set_blocks, set_alt_blocks,
  unlock_block, unlock_alt_block, pay_ready_block, pay_ready_alt_block,
}
use nodejs_pool.Blocks.Unlocker.{
  Node, Unlocker, S, done, ◌>>=◌, with_bank, with_chain, lift, awaited, invalidated, unlock_if_paid,
  pay_checked_block, pay_main_value, pay_main_block, pay_alt_value, pay_alt_block, mark_if_ready,
  landed, pre_calculate_and_mark, orphan_block, is_in_flight, main_payment, alt_payment,
  is_header_of, is_valid_reply, is_alt_header_of,
}
use nodejs_pool.Blocks.AltUnlocker.{pay_ready_alt_blocks, orphan_alt_block}
use nodejs_pool.Blocks.Honest.{
  GoesOn, GoesOn-same, execute_payout-GoesOn, IsAdded, IsCalculated, pre_calculate-IsCalculated,
  IsEarned, IsAltEarned, IsHonest, All-map, All-rewrite_if, All-rewrite_key,
}

-- A property of what is paid.
module _ (J : PaidBlock → Type 0) where
  -- An operation that keeps the unlocked blocks paid.

  unfoldable pub Keeps : {A : Type 0} → S A → Type 0
  Keeps m = (s : Unlocker) → IsHonest J s → IsHonest J (m s).1

  pub Keeps-bind :
      {A B : Type 0} (m : S A) (f : A → S B) → Keeps m → ((a : A) → Keeps (f a)) → Keeps (m >>= f)
  unfolding Keeps
  Keeps-bind m f k g s h = elim (Outcome-cases (m s).0) [
    | inl q ↦ rw q (k s h)
    | inr (a, q) ↦ rw q (g a (m s).1 (k s h))
  ]

  pub Keeps-if :
      {A : Type 0} (b : Bool) (m n : S A)
      → (b ≡ true → Keeps m)
      → (b ≡ false → Keeps n)
      → Keeps (if b then m else n)
  Keeps-if true m n k g = k refl
  Keeps-if false m n k g = g refl

  pub IsHonest-if :
      {A : Type 0} (b : Bool) (p q : Outcome A × Unlocker)
      → (b ≡ true → IsHonest J p.1)
      → (b ≡ false → IsHonest J q.1)
      → IsHonest J (if b then p else q).1
  IsHonest-if true p q h g = h refl
  IsHonest-if false p q h g = g refl

  IsHonest-bank :
      (s : Unlocker) (w : World)
      → GoesOn s.bank w
      → All J w.tables.paid_blocks
      → IsHonest J s
      → IsHonest J (with_bank w s)
  unfolding IsHonest GoesOn
  IsHonest-bank s w g i (b, a, r, j) = (
    All-map _ _ s.chain.blocks (λ x h v u. g.0 x.hash (h v u)) b,
    All-map _ _ s.chain.alt_blocks (λ x h v u. g.0 x.hash (h v u)) a,
    g.1 r,
    i,
  )

  pub awaited-IsHonest : (s : Unlocker) → IsHonest J s → IsHonest J (awaited s)
  unfolding IsHonest
  awaited-IsHonest s h = h

  unlock_block-IsHonest :
      (hash : String) (s : Unlocker)
      → is_paid hash s.bank.tables.paid_blocks ≡ true
      → IsHonest J s
      → IsHonest J (with_chain (unlock_block hash s.chain) s)
  unfolding IsHonest unlock_block
  unlock_block-IsHonest hash s p (b, a, r, j) = (
    All-rewrite_if _ _ _ s.chain.blocks
        (λ x e h v u.
          subst (λ i. is_paid i s.bank.tables.paid_blocks ≡ true)
            (sym ((str_eq_iff x.hash hash).0 e)) p)
        b,
    a,
    r,
    j,
  )

  unlock_alt_block-IsHonest :
      (hash : String) (s : Unlocker)
      → is_paid hash s.bank.tables.paid_blocks ≡ true
      → IsHonest J s
      → IsHonest J (with_chain (unlock_alt_block hash s.chain) s)
  unfolding IsHonest unlock_alt_block
  unlock_alt_block-IsHonest hash s p (b, a, r, j) = (
    b,
    All-rewrite_if _ _ _ s.chain.alt_blocks
        (λ x e h v u.
          subst (λ i. is_paid i s.bank.tables.paid_blocks ≡ true)
            (sym ((str_eq_iff x.hash hash).0 e)) p)
        a,
    r,
    j,
  )

  pub pay_ready_block-IsHonest :
      (hash : String) (s : Unlocker)
      → IsHonest J s
      → IsHonest J (with_chain (pay_ready_block hash s.chain) s)
  unfolding IsHonest pay_ready_block
  pay_ready_block-IsHonest hash s (b, a, r, j) =
      (All-rewrite_if _ _ _ s.chain.blocks (λ x e h. h) b, a, r, j)

  pub pay_ready_alt_blocks-IsHonest :
      (hashes : List String) (s : Unlocker)
      → IsHonest J s
      → IsHonest J (with_chain (pay_ready_alt_blocks hashes s.chain) s)
  unfolding IsHonest pay_ready_alt_blocks pay_ready_alt_block
  pay_ready_alt_blocks-IsHonest [] s h = h
  pay_ready_alt_blocks-IsHonest (x ∷ hashes) s (b, a, r, j) =
      pay_ready_alt_blocks-IsHonest hashes (with_chain (pay_ready_alt_block x s.chain) s)
        (b, All-rewrite_if _ _ _ s.chain.alt_blocks (λ y e h. h) a, r, j)

  invalidated-IsHonest :
      (s : Unlocker) (o : Option (List Block))
      → ((bs : List Block) → o ≡ some bs → All (IsEarned s.bank.tables.paid_blocks) bs)
      → IsHonest J s
      → IsHonest J (invalidated (set_blocks s.chain o) s).1
  unfolding IsHonest
  invalidated-IsHonest s none k h = h
  invalidated-IsHonest s (some bs) k h = (k bs refl, h.1, h.2, h.3)

  invalidated_alt-IsHonest :
      (s : Unlocker) (o : Option (List AltBlock))
      → ((bs : List AltBlock) → o ≡ some bs → All (IsAltEarned s.bank.tables.paid_blocks) bs)
      → IsHonest J s
      → IsHonest J (invalidated (set_alt_blocks s.chain o) s).1
  unfolding IsHonest
  invalidated_alt-IsHonest s none k h = h
  invalidated_alt-IsHonest s (some bs) k h = (h.0, k bs refl, h.2, h.3)

  module _ (env : Env) (node : Node) where
    pub orphan_block-Keeps : (x : Block) → Keeps (orphan_block env node x)
    unfolding Keeps IsHonest invalidate_block
    orphan_block-Keeps x s h =
        invalidated-IsHonest s _
          (λ bs e. All-rewrite_key _ _ _ s.chain.blocks bs (λ y v u. absurd (cc v)) h.0 e) h

    pub orphan_alt_block-Keeps : (x : AltBlock) → Keeps (orphan_alt_block env node x)
    unfolding Keeps IsHonest invalidate_alt_block
    orphan_alt_block-Keeps x s h =
        invalidated_alt-IsHonest s _
          (λ bs e. All-rewrite_key _ _ _ s.chain.alt_blocks bs (λ y v u. absurd (cc v)) h.1 e) h

    pub done-Keeps : Keeps done
    unfolding Keeps
    done-Keeps s h = h

    next_ids : (s : Unlocker) → IsHonest J s → IsReady s.bank.tables
    unfolding IsHonest
    next_ids s h = h.2

    paid_of : (s : Unlocker) → IsHonest J s → All J s.bank.tables.paid_blocks
    unfolding IsHonest
    paid_of s h = h.3

    -- The unlocking of a hash that is paid keeps the blocks paid.
    abbrev Unlocks : (String → Chain → Chain) → Type 0
    Unlocks unlock =
        (hash : String) (v : Unlocker)
        → is_paid hash v.bank.tables.paid_blocks ≡ true
        → IsHonest J v
        → IsHonest J (with_chain (unlock hash v.chain) v)

    unlock_if_paid-IsHonest :
        (unlock : String → Chain → Chain) (hash : String) (b : Bool) (v : Unlocker)
        → Unlocks unlock
        → (b ≡ true → is_paid hash v.bank.tables.paid_blocks ≡ true)
        → IsHonest J v
        → IsHonest J (unlock_if_paid env node unlock hash b v).1
    unlock_if_paid-IsHonest unlock hash true v k p h = k hash v (p refl) h
    unlock_if_paid-IsHonest unlock hash false v k p h = h

    added :
        (p : PaidBlock) (w v : World)
        → IsAdded p w v
        → J p
        → All J w.tables.paid_blocks
        → All J v.tables.paid_blocks
    added p w v (inl e) j h = subst (All J) (sym e) (j, h)
    added p w v (inr e) j h = subst (All J) (sym e) h

    -- A payout, and the unlocking that follows it.
    pay_checked_block-Keeps :
        (p : PaidBlock) (unlock : String → Chain → Chain) (valid : Bool)
        → Unlocks unlock
        → (valid ≡ true → J p)
        → Keeps (pay_checked_block env node p unlock valid)
    unfolding Keeps pay_checked_block
    pay_checked_block-Keeps p unlock false k f s h = h
    pay_checked_block-Keeps p unlock true k f s h =
        let g = execute_payout-GoesOn env p s.bank (next_ids s h) in
        let v = with_bank (execute_payout env p s.bank).1 s in
        let honest =
          IsHonest-bank s (execute_payout env p s.bank).1 g.0
            (added p s.bank (execute_payout env p s.bank).1 g.2 (f refl) (paid_of s h)) h in
        elim (Outcome-cases (execute_payout env p s.bank).0) [
          | inl q ↦ rw q honest
          | inr (b, q) ↦
              rw q (unlock_if_paid-IsHonest unlock p.hex b v k (λ e. g.1 (q ∙ ap ok e)) honest)
        ]

    pay_main_value-Keeps :
        (x : Block) (o : Option ℕ)
        → ((u v : ℕ)
            → is_valid_reply (is_header_of x v) (node.header_by_hash u x.hash) ≡ true
            → J (main_payment node.daemon_port x v))
        → Keeps (pay_main_value env node x o)
    unfolding Keeps
    pay_main_value-Keeps x none j s h = h
    pay_main_value-Keeps x (some v) j s h =
        pay_checked_block-Keeps (main_payment node.daemon_port x v) unlock_block _
          unlock_block-IsHonest (j s.bank.ticks v) (awaited s) (awaited-IsHonest s h)

    pub pay_main_block-Keeps :
        (x : Block)
        → ((u v : ℕ)
            → is_valid_reply (is_header_of x v) (node.header_by_hash u x.hash) ≡ true
            → J (main_payment node.daemon_port x v))
        → Keeps (pay_main_block env node x)
    unfolding pay_main_block
    pay_main_block-Keeps x j = pay_main_value-Keeps x x.value j

    pay_alt_value-Keeps :
        (x : AltBlock) (o : Option ℕ)
        → ((u v : ℕ)
            → is_valid_reply (is_alt_header_of x) (node.port_header_by_hash u x.port x.hash) ≡ true
            → J (alt_payment x v))
        → Keeps (pay_alt_value env node x o)
    unfolding Keeps
    pay_alt_value-Keeps x none j s h = h
    pay_alt_value-Keeps x (some v) j s h =
        pay_checked_block-Keeps (alt_payment x v) unlock_alt_block _ unlock_alt_block-IsHonest
          (j s.bank.ticks v) (awaited s) (awaited-IsHonest s h)

    pub pay_alt_block-Keeps :
        (x : AltBlock)
        → ((u v : ℕ)
            → is_valid_reply (is_alt_header_of x) (node.port_header_by_hash u x.port x.hash) ≡ true
            → J (alt_payment x v))
        → Keeps (pay_alt_block env node x)
    unfolding pay_alt_block
    pay_alt_block-Keeps x j = pay_alt_value-Keeps x x.pay_value j

    -- A mark that keeps the blocks paid.
    abbrev Marks : (Chain → Chain) → Type 0
    Marks mark = (v : Unlocker) → IsHonest J v → IsHonest J (with_chain (mark v.chain) v)

    mark_if_ready-IsHonest :
        (mark : Chain → Chain) (o : Outcome Bool) (s : Unlocker)
        → Marks mark
        → IsHonest J s
        → IsHonest J (mark_if_ready env node mark o s).1
    mark_if_ready-IsHonest mark thrown s k h = h
    mark_if_ready-IsHonest mark (ok false) s k h = h
    mark_if_ready-IsHonest mark (ok true) s k h = k s h

    landed-IsHonest :
        (hexes : List String) (r : Outcome (Unit {0}) × Unlocker)
        → IsHonest J r.1
        → IsHonest J (landed env node hexes r).1
    unfolding IsHonest
    landed-IsHonest hexes (o, s) h = h

    IsHonest-flight :
        (s : Unlocker) (hexes : List String)
        → IsHonest J s
        → IsHonest J (record s { in_flight = hexes })
    unfolding IsHonest
    IsHonest-flight s hexes h = h

    calculated-GoesOn : (w v : World) → IsCalculated w v → GoesOn w v
    calculated-GoesOn w v (e, f, g) = GoesOn-same w v e (λ r. (
      subst IsKeyed (sym f) r.0,
      subst (λ n. All (λ b. b.id < n) v.tables.balances) (sym g)
          (subst (All (λ b. b.id < w.tables.next_balance_id)) (sym f) r.1),
    ))

    pub pre_calculate_and_mark-Keeps :
        (hexes : List String) (height difficulty : ℕ) (mark : Chain → Chain)
        → Marks mark
        → Keeps (pre_calculate_and_mark env node hexes height difficulty mark)
    unfolding Keeps pre_calculate_and_mark
    pre_calculate_and_mark-Keeps hexes height difficulty mark k s h =
        let flying = record s { in_flight = s.in_flight ++ hexes } in
        let status = lift (pre_calculate env node.feed node.fuel hexes height difficulty) flying in
        elim (Bool-cases (is_in_flight hexes s.in_flight)) [
          | inl q ↦ rw q h
          | inr q ↦ rw q (
              landed-IsHonest hexes (mark_if_ready env node mark status.0 status.1) (
                mark_if_ready-IsHonest mark status.0 status.1 k (
                  IsHonest-bank flying status.1.bank
                    (calculated-GoesOn s.bank status.1.bank (
                      pre_calculate-IsCalculated env node.feed node.fuel hexes height difficulty
                        s.bank))
                    (subst (All J)
                      (sym
                        (pre_calculate-IsCalculated env node.feed node.fuel hexes height difficulty
                          s.bank).0)
                      (paid_of s h))
                    (IsHonest-flight s (s.in_flight ++ hexes) h))))
        ]
