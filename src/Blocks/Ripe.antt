-- ===== src/Blocks/Ripe.antt =====
-- lib/block_manager.js, `runCycle`: what it pays and what it unlocks.
use nodejs_pool.Prelude.{
  ℕ, ◌+◌, ◌<◌, ◌≡◌, ◌⊎◌, refl, Bool, true, false, not, ◌&&◌, Option, none, some, ltb, leb, ltb→lt,
  arith, inl, inr,
}
use nodejs_pool.Blocks.Runtime.{PaidBlock, Env}
use nodejs_pool.Blocks.Payout.{is_paid}
use nodejs_pool.Blocks.Chain.{Block, AltBlock}
use nodejs_pool.Blocks.Unlocker.{
  Header, Reply, Node, Unlocker, opt_eq, main_payment, alt_payment, body_passes, is_header_of,
  is_valid_reply, is_alt_header_of, is_altblock_orphan_response, altblock_precalc_delay,
}
use nodejs_pool.Blocks.AltUnlocker.{run_cycle}
use nodejs_pool.Blocks.Honest.{IsHonest, All-map, each_known}
use nodejs_pool.Blocks.Cycles.{run_cycle-Keeps}
use nodejs_pool.Blocks.Unlocks.{Keeps}

-- The daemon of the pool knew the block by its hash, with the reward that is paid, and deep enough
-- below a top height that it gave.
abbrev pub IsRipe : Node → PaidBlock → Type 0
IsRipe node p =
    (t : ℕ) × (top : ℕ) × (u : ℕ) × (h : Header) × (n : ℕ) × (node.feed.top_height t ≡ some top)
    × ((node.header_by_hash u p.hex).is_error ≡ false)
    × ((node.header_by_hash u p.hex).body ≡ some h)
    × (h.reward ≡ some p.amount)
    × (h.height ≡ some n)
    × (n + node.blocks_required < top)

-- The daemon of the coin did not answer for the hash as for an orphan, and then knew the block.
abbrev pub IsAltRipe : Node → PaidBlock → Type 0
IsAltRipe node p =
    (w : ℕ) × (u : ℕ) × (h : Header) × (is_altblock_orphan_response
        (node.port_header_by_hash w p.port p.hex).body
      ≡ false)
    × ((node.port_header_by_hash u p.port p.hex).is_error ≡ false)
    × ((node.port_header_by_hash u p.port p.hex).body ≡ some h)

passes :
    (test : Header → Bool) (b : Bool) (o : Option Header)
    → not b && body_passes test o ≡ true
    → (b ≡ false) × (h : Header) × (o ≡ some h) × (test h ≡ true)
passes test true o e = absurd (cc e)
passes test false none e = absurd (cc e)
passes test false (some h) e = (refl, h, refl, e)

valid_reply :
    (test : Header → Bool) (r : Reply)
    → is_valid_reply test r ≡ true
    → (r.is_error ≡ false) × (h : Header) × (r.body ≡ some h) × (test h ≡ true)
unfolding is_valid_reply
valid_reply test r e = passes test r.is_error r.body e

opt_eq-some : (o : Option ℕ) (n : ℕ) → opt_eq o n ≡ true → o ≡ some n
opt_eq-some none n e = absurd (cc e)
opt_eq-some (some m) n e = ground arith

and_true : (a b : Bool) → a && b ≡ true → (a ≡ true) × (b ≡ true)
and_true true b e = (refl, e)
and_true false b e = absurd (cc e)

module _ (env : Env) (node : Node) where
  main_answers :
      (t top u : ℕ) (x : Block) (v : ℕ)
      → node.feed.top_height t ≡ some top
      → ltb (x.height + node.blocks_required) top ≡ true
      → is_valid_reply (is_header_of x v) (node.header_by_hash u x.hash) ≡ true
      → IsRipe node (main_payment node.daemon_port x v)
  unfolding is_header_of
  main_answers t top u x v e l r =
      let (f, h, b, q) = valid_reply (is_header_of x v) (node.header_by_hash u x.hash) r in
      let (height, more) = and_true (opt_eq h.height x.height) _ q in
      let (reward, difficulty) = and_true (opt_eq h.reward v) _ more in
      (
        t,
        top,
        u,
        h,
        x.height,
        e,
        f,
        b,
        opt_eq-some h.reward v reward,
        opt_eq-some h.height x.height height,
        ltb→lt _ _ l,
      )

  alt_answers :
      (t top w u : ℕ) (x : AltBlock) (v : ℕ)
      → node.feed.top_height t ≡ some top
      → leb top (x.anchor_height + altblock_precalc_delay) ≡ false
      → is_altblock_orphan_response (node.port_header_by_hash w x.port x.hash).body ≡ false
      → is_valid_reply (is_alt_header_of x) (node.port_header_by_hash u x.port x.hash) ≡ true
      → IsAltRipe node (alt_payment x v)
  alt_answers t top w u x v e d o r =
      let (f, h, b, q) =
        valid_reply (is_alt_header_of x) (node.port_header_by_hash u x.port x.hash) r in
      (w, u, h, o, f, b)

  -- A cycle of the unlockers, also one that ends with an exception, keeps the invariant that every
  -- valid block and alt block that is unlocked is recorded as paid. And whatever it adds to the paid
  -- blocks was ripe, or an alt block that was not an orphan, by what the daemons answered to it.
  pub run_cycle_pays-IsRipe :
      (s : Unlocker)
      → IsHonest (λ p. Unit) s
      → IsHonest
          (λ p. (is_paid p.hex s.bank.tables.paid_blocks ≡ true) ⊎ IsRipe node p ⊎ IsAltRipe node p)
          (run_cycle env node s).1
  unfolding IsHonest Keeps
  run_cycle_pays-IsRipe s (b, a, r, j) =
      run_cycle-Keeps
        (λ p. (is_paid p.hex s.bank.tables.paid_blocks ≡ true) ⊎ IsRipe node p ⊎ IsAltRipe node p)
        env node (λ t top u x v e l q. inr (inl (main_answers t top u x v e l q)))
        (λ t top w u x v e d o q. inr (inr (alt_answers t top w u x v e d o q))) s
        (
          b,
          a,
          r,
          All-map _ _ s.bank.tables.paid_blocks (λ p h. inl h)
              (each_known s.bank.tables.paid_blocks),
        )
