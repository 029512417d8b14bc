-- ===== src/Blocks/Cycles.antt =====
-- lib/block_manager.js: a cycle of the unlocker pays ripe blocks only and keeps every unlocked block paid.
use nodejs_pool.Prelude.{
  ℕ, ◌+◌, ◌≡◌, refl, true, false, not, Option, none, some, List, [], ◌∷◌, String, ltb, leb, take,
}
use nodejs_pool.Blocks.Runtime.{PaidBlock, Env, ok}
use nodejs_pool.Blocks.Chain.{
  Block, AltBlock, pay_ready_block, get_valid_locked_blocks, get_valid_locked_alt_blocks,
}
use nodejs_pool.Blocks.Unlocker.{
  Header, Reply, Node, awaited, ready_or_pay, if_same_hash, with_header, handle_block,
  handle_blocks, blocks_at, run_block_unlocker, hash_eq, main_payment, alt_payment, is_header_of,
  is_valid_reply, is_alt_header_of, can_run, is_altblock_orphan_response, altblock_precalc_delay,
  max_anchor_precalc_per_cycle,
}
use nodejs_pool.Blocks.AltUnlocker.{
  Anchors, pay_ready_alt_blocks, by_height, fall_back, with_alt_header, handle_alt_block,
  handle_alt_blocks, with_difficulty, difficulty_of, pre_calculate_anchor, pre_calculate_anchors,
  alt_blocks_at, run_altblock_unlocker, run_cycle, is_unvalued_pay,
}
use nodejs_pool.Blocks.Unlocks.{
  Keeps, Keeps-bind, Keeps-if, IsHonest-if, awaited-IsHonest, pay_ready_block-IsHonest,
  pay_ready_alt_blocks-IsHonest, orphan_block-Keeps, orphan_alt_block-Keeps, done-Keeps,
  pay_main_block-Keeps, pay_alt_block-Keeps, pre_calculate_and_mark-Keeps,
}

module _ (J : PaidBlock → Type 0) (env : Env) (node : Node)
    (main : (t top u : ℕ) (x : Block) (v : ℕ)
      → node.feed.top_height t ≡ some top
      → ltb (x.height + node.blocks_required) top ≡ true
      → is_valid_reply (is_header_of x v) (node.header_by_hash u x.hash) ≡ true
      → J (main_payment node.daemon_port x v))
    (alt : (t top w u : ℕ) (x : AltBlock) (v : ℕ)
      → node.feed.top_height t ≡ some top
      → leb top (x.anchor_height + altblock_precalc_delay) ≡ false
      → is_altblock_orphan_response (node.port_header_by_hash w x.port x.hash).body ≡ false
      → is_valid_reply (is_alt_header_of x) (node.port_header_by_hash u x.port x.hash) ≡ true
      → J (alt_payment x v)) where
  -- The top height that the daemon gave.
  abbrev IsTop : ℕ → Type 0
  IsTop top = (t : ℕ) × (node.feed.top_height t ≡ some top)

  ready_or_pay-Keeps : (top : ℕ) (x : Block) → IsTop top → Keeps J (ready_or_pay env node top x)
  ready_or_pay-Keeps top x (t, e) =
      Keeps-if J (not x.pay_ready) _ _
        (λ q.
          pre_calculate_and_mark-Keeps J env node (x.hash ∷ []) x.height x.difficulty
            (pay_ready_block x.hash) (pay_ready_block-IsHonest J x.hash))
        (λ q.
          Keeps-if J (ltb (x.height + node.blocks_required) top) _ _
            (λ l. pay_main_block-Keeps J env node x (λ u v r. main t top u x v e l r))
            (λ l. done-Keeps J env node))

  if_same_hash-Keeps :
      (top : ℕ) (x : Block) (o : Option Header)
      → IsTop top
      → Keeps J (if_same_hash env node top x o)
  if_same_hash-Keeps top x none e = orphan_block-Keeps J env node x
  if_same_hash-Keeps top x (some g) e =
      Keeps-if J (hash_eq g.hash x.hash) _ _ (λ q. ready_or_pay-Keeps top x e)
        (λ q. orphan_block-Keeps J env node x)

  with_header-Keeps :
      (top : ℕ) (x : Block) (r : Reply) → IsTop top → Keeps J (with_header env node top x r)
  with_header-Keeps top x r e =
      Keeps-if J r.is_error _ _ (λ q. done-Keeps J env node)
        (λ q. if_same_hash-Keeps top x r.body e)

  handle_block-Keeps : (top : ℕ) (x : Block) → IsTop top → Keeps J (handle_block env node top x)
  unfolding Keeps handle_block
  handle_block-Keeps top x e s h =
      IsHonest-if J _ _ _ (λ q. h)
        (λ q.
          with_header-Keeps top x (node.header_by_id s.bank.ticks x.height) e (awaited s)
            (awaited-IsHonest J s h))

  handle_blocks-Keeps :
      (top : ℕ) (xs : List Block) → IsTop top → Keeps J (handle_blocks env node top xs)
  unfolding handle_blocks
  handle_blocks-Keeps top [] e = done-Keeps J env node
  handle_blocks-Keeps top (x ∷ xs) e =
      Keeps-bind J _ _ (handle_block-Keeps top x e) (λ u. handle_blocks-Keeps top xs e)

  blocks_at-Keeps :
      (xs : List Block) (o : Option ℕ) (t : ℕ)
      → node.feed.top_height t ≡ o
      → Keeps J (blocks_at env node xs o)
  blocks_at-Keeps xs none t e = done-Keeps J env node
  blocks_at-Keeps xs (some top) t e = handle_blocks-Keeps top xs (t, e)

  run_block_unlocker-Keeps : Keeps J (run_block_unlocker env node)
  unfolding Keeps run_block_unlocker
  run_block_unlocker-Keeps s h =
      IsHonest-if J (can_run s) _ _
        (λ q.
          blocks_at-Keeps (get_valid_locked_blocks s.chain) (node.feed.top_height s.bank.ticks)
            s.bank.ticks refl (awaited s) (awaited-IsHonest J s h))
        (λ q. h)

  by_height-Keeps : (x : AltBlock) (r : Reply) → Keeps J (by_height env node x r)
  by_height-Keeps x r =
      Keeps-if J _ _ _ (λ q. orphan_alt_block-Keeps J env node x) (λ q. done-Keeps J env node)

  fall_back-Keeps : (x : AltBlock) → Keeps J (fall_back env node x)
  unfolding Keeps
  fall_back-Keeps x s h =
      IsHonest-if J (node.is_hash_only x.port) _ _ (λ q. h)
        (λ q.
          by_height-Keeps x (node.port_header_by_id s.bank.ticks x.port x.height) (awaited s)
            (awaited-IsHonest J s h))

  -- The depth of the anchor of an alt block.
  abbrev IsDeep : ℕ → AltBlock → Type 0
  IsDeep top x = IsTop top × (leb top (x.anchor_height + altblock_precalc_delay) ≡ false)

  with_alt_header-Keeps :
      (top : ℕ) (x : AltBlock) (w : ℕ)
      → IsDeep top x
      → Keeps J (with_alt_header env node x (node.port_header_by_hash w x.port x.hash))
  with_alt_header-Keeps top x w ((t, e), d) =
      let r = node.port_header_by_hash w x.port x.hash in
      Keeps-if J (is_altblock_orphan_response r.body) _ _ (λ q. orphan_alt_block-Keeps J env node x)
        (λ q.
          Keeps-if J r.is_error _ _ (λ f. fall_back-Keeps x)
            (λ f. pay_alt_block-Keeps J env node x (λ u v g. alt t top w u x v e d q g)))

  return-Keeps : {A : Type 0} (a : A) → Keeps J (λ s. (ok a, s))
  unfolding Keeps
  return-Keeps a s h = h

  handle_alt_block-Keeps :
      (top : ℕ) (x : AltBlock) (m : Anchors)
      → IsDeep top x
      → Keeps J (handle_alt_block env node x m)
  unfolding Keeps handle_alt_block
  handle_alt_block-Keeps top x m d s h =
      IsHonest-if J (not x.is_pplns) _ _ (λ q. h)
        (λ q.
          IsHonest-if J (not x.pay_ready) _ _ (λ f. h)
            (λ f.
              IsHonest-if J (is_unvalued_pay x.pay_value) _ _ (λ z. h)
                (λ z.
                  Keeps-bind J
                    (with_alt_header env node x
                      (node.port_header_by_hash s.bank.ticks x.port x.hash))
                    _ (with_alt_header-Keeps top x s.bank.ticks d) (λ u. return-Keeps m) (awaited s)
                    (awaited-IsHonest J s h))))

  handle_alt_blocks-Keeps :
      (top : ℕ) (xs : List AltBlock) (m : Anchors)
      → IsTop top
      → Keeps J (handle_alt_blocks env node top xs m)
  unfolding handle_alt_blocks
  handle_alt_blocks-Keeps top [] m e = return-Keeps m
  handle_alt_blocks-Keeps top (x ∷ xs) m e =
      Keeps-bind J _ _
        (Keeps-if J _ _ _ (λ q. return-Keeps m) (λ q. handle_alt_block-Keeps top x m (e, q)))
        (λ n. handle_alt_blocks-Keeps top xs n e)

  with_difficulty-Keeps :
      (anchor : ℕ) (hashes : List String) (o : Option ℕ)
      → Keeps J (with_difficulty env node anchor hashes o)
  with_difficulty-Keeps anchor hashes none = done-Keeps J env node
  with_difficulty-Keeps anchor hashes (some d) =
      pre_calculate_and_mark-Keeps J env node hashes anchor d (pay_ready_alt_blocks hashes)
        (pay_ready_alt_blocks-IsHonest J hashes)

  pre_calculate_anchor-Keeps :
      (anchor : ℕ) (hashes : List String) → Keeps J (pre_calculate_anchor env node anchor hashes)
  unfolding Keeps pre_calculate_anchor
  pre_calculate_anchor-Keeps anchor hashes s h =
      Keeps-if J (node.header_by_id s.bank.ticks anchor).is_error _ _ (λ q. done-Keeps J env node)
        (λ q.
          with_difficulty-Keeps anchor hashes
            (difficulty_of env node (node.header_by_id s.bank.ticks anchor).body))
        (awaited s) (awaited-IsHonest J s h)

  pre_calculate_anchors-Keeps : (m : Anchors) → Keeps J (pre_calculate_anchors env node m)
  unfolding pre_calculate_anchors
  pre_calculate_anchors-Keeps [] = done-Keeps J env node
  pre_calculate_anchors-Keeps ((anchor, hashes) ∷ m) =
      Keeps-bind J _ _ (pre_calculate_anchor-Keeps anchor hashes)
        (λ u. pre_calculate_anchors-Keeps m)

  alt_blocks_at-Keeps :
      (xs : List AltBlock) (o : Option ℕ) (t : ℕ)
      → node.feed.top_height t ≡ o
      → Keeps J (alt_blocks_at env node xs o)
  alt_blocks_at-Keeps xs none t e = done-Keeps J env node
  alt_blocks_at-Keeps xs (some top) t e =
      Keeps-bind J _ _ (handle_alt_blocks-Keeps top xs [] (t, e))
        (λ m. pre_calculate_anchors-Keeps (take max_anchor_precalc_per_cycle m))

  run_altblock_unlocker-Keeps : Keeps J (run_altblock_unlocker env node)
  unfolding Keeps run_altblock_unlocker
  run_altblock_unlocker-Keeps s h =
      IsHonest-if J (can_run s) _ _
        (λ q.
          alt_blocks_at-Keeps (get_valid_locked_alt_blocks s.chain)
            (node.feed.top_height s.bank.ticks) s.bank.ticks refl (awaited s)
            (awaited-IsHonest J s h))
        (λ q. h)

  pub run_cycle-Keeps : Keeps J (run_cycle env node)
  unfolding run_cycle
  run_cycle-Keeps =
      Keeps-bind J (run_block_unlocker env node) _ run_block_unlocker-Keeps
        (λ u. run_altblock_unlocker-Keeps)
