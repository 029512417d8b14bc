-- ===== src/Blocks/AltUnlocker.antt =====
-- lib/block_manager.js: `handleAltBlock`, `runAltblockUnlocker` and `runCycle`.
use nodejs_pool.Prelude.{
  ℕ, ◌+◌, ◌-◌, ◌%◌, Bool, true, false, not, ◌&&◌, Option, none, some, List, [], ◌∷◌, String, ◌==◌,
  leb, if◌then◌else◌, take,
}
use nodejs_pool.Blocks.Runtime.{Env, ok}
use nodejs_pool.Blocks.Chain.{
  AltBlock, Chain, get_valid_locked_alt_blocks, invalidate_alt_block, pay_ready_alt_block,
}
use nodejs_pool.Blocks.Unlocker.{
  Header, Reply, Node, S, done, ◌>>=◌, awaited, invalidated, hash_eq, altblock_precalc_delay,
  max_anchor_precalc_per_cycle, is_altblock_orphan_response, add_anchor, can_run, pay_alt_block,
  pre_calculate_and_mark, run_block_unlocker,
}

abbrev pub Anchors : Type 0
Anchors = List (ℕ × List String)

abbrev pub is_zero_value : Option ℕ → Bool
is_zero_value none = true
is_zero_value (some v) = v == 0

abbrev pub is_unvalued_pay : Option ℕ → Bool
is_unvalued_pay none = false
is_unvalued_pay (some v) = v == 0

-- `block.anchor_height - (block.anchor_height % config.payout.anchorRound)`.
unfoldable pub anchor_of : ℕ → AltBlock → ℕ
anchor_of round b = b.anchor_height - b.anchor_height % round

unfoldable pub pay_ready_alt_blocks : List String → Chain → Chain
pay_ready_alt_blocks [] c = c
pay_ready_alt_blocks (h ∷ hs) c = pay_ready_alt_blocks hs (pay_ready_alt_block h c)

-- The body by height of another block.
abbrev pub is_other_block : String → Option Header → Bool
is_other_block hash none = false
is_other_block hash (some h) = not (hash_eq h.hash hash)

module _ (env : Env) (node : Node) where
  abbrev pub orphan_alt_block : AltBlock → S (Unit {0})
  orphan_alt_block b s = invalidated (invalidate_alt_block b.id s.chain) s

  abbrev pub by_height : AltBlock → Reply → S (Unit {0})
  by_height b r =
      if not r.is_error && is_other_block b.hash r.body then orphan_alt_block b else done

  -- No header by its hash: the block at its height, unless the coin is asked by hash only.
  abbrev pub fall_back : AltBlock → S (Unit {0})
  fall_back b s =
      if node.is_hash_only b.port
      then (ok tt, s)
      else by_height b (node.port_header_by_id s.bank.ticks b.port b.height) (awaited s)

  abbrev pub with_alt_header : AltBlock → Reply → S (Unit {0})
  with_alt_header b r =
      if is_altblock_orphan_response r.body
      then orphan_alt_block b
      else if r.is_error
      then fall_back b
      else pay_alt_block env node b

  abbrev pub keep_anchors : Anchors → S (Unit {0}) → S Anchors
  keep_anchors m work = work >>= λ _. λ s. (ok m, s)

  -- `handleAltBlock`, which returns the anchors of the payouts to calculate.
  unfoldable pub handle_alt_block : AltBlock → Anchors → S Anchors
  handle_alt_block b m s =
      if not b.is_pplns
      then (ok m, s)
      else if not b.pay_ready
      then (
        ok (
            if is_zero_value b.value
            then m
            else add_anchor (anchor_of node.anchor_round b) b.hash m),
        s,
      )
      else if is_unvalued_pay b.pay_value
      then (ok m, s)
      else keep_anchors m (with_alt_header b (node.port_header_by_hash s.bank.ticks b.port b.hash))
          (awaited s)

  unfoldable pub handle_alt_blocks : ℕ → List AltBlock → Anchors → S Anchors
  handle_alt_blocks top [] m = λ s. (ok m, s)
  handle_alt_blocks top (b ∷ bs) m =
      (if leb top (b.anchor_height + altblock_precalc_delay)
        then (λ s. (ok m, s))
        else handle_alt_block b m)
      >>= handle_alt_blocks top bs

  abbrev pub with_difficulty : ℕ → List String → Option ℕ → S (Unit {0})
  with_difficulty anchor hashes none = done
  with_difficulty anchor hashes (some d) =
      pre_calculate_and_mark env node hashes anchor d (pay_ready_alt_blocks hashes)

  abbrev pub difficulty_of : Option Header → Option ℕ
  difficulty_of none = none
  difficulty_of (some h) = h.difficulty

  abbrev pub with_anchor_header : ℕ → List String → Reply → S (Unit {0})
  with_anchor_header anchor hashes r =
      if r.is_error then done else with_difficulty anchor hashes (difficulty_of r.body)

  unfoldable pub pre_calculate_anchor : ℕ → List String → S (Unit {0})
  pre_calculate_anchor anchor hashes s =
      with_anchor_header anchor hashes (node.header_by_id s.bank.ticks anchor) (awaited s)

  unfoldable pub pre_calculate_anchors : Anchors → S (Unit {0})
  pre_calculate_anchors [] = done
  pre_calculate_anchors ((anchor, hashes) ∷ m) =
      pre_calculate_anchor anchor hashes >>= λ _. pre_calculate_anchors m

  abbrev pub alt_blocks_at : List AltBlock → Option ℕ → S (Unit {0})
  alt_blocks_at bs none = done
  alt_blocks_at bs (some top) = handle_alt_blocks top bs [] >>= λ m.
      pre_calculate_anchors (take max_anchor_precalc_per_cycle m)

  unfoldable pub run_altblock_unlocker : S (Unit {0})
  run_altblock_unlocker s =
      if can_run s
      then alt_blocks_at (get_valid_locked_alt_blocks s.chain) (node.feed.top_height s.bank.ticks)
          (awaited s)
      else (ok tt, s)

  unfoldable pub run_cycle : S (Unit {0})
  run_cycle = run_block_unlocker env node >>= λ _. run_altblock_unlocker
