-- ===== src/Blocks/Unlocker.antt =====
-- lib/block_manager.js: `runBlockUnlocker`, `runAltblockUnlocker` and `runCycle`. The heights that only
-- wait for their pay value are a log line and left out.
use nodejs_pool.Prelude.{
  ℕ, ◌+◌, Bool, true, false, not, ◌&&◌, ◌||◌, Option, none, some, List, [], ◌∷◌, ◌++◌, String, ◌==◌,
  ltb, leb, str_eq, if◌then◌else◌, keep_if,
}
use nodejs_pool.Blocks.Runtime.{PaidBlock, Env, World, Outcome, ok, thrown, M}
use nodejs_pool.Blocks.Payout.{execute_payout}
use nodejs_pool.Blocks.Precalc.{Feed, has_hex, pre_calculate, tick}
use nodejs_pool.Blocks.Chain.{
  Block, AltBlock, Chain, get_valid_locked_blocks, invalidate_block, unlock_block, unlock_alt_block,
  pay_ready_block,
}

-- A block header, with the marks of an orphan.
pub record Header : Type 0 where
  pub height : Option ℕ
  pub hash : Option String
  pub reward : Option ℕ
  pub difficulty : Option ℕ
  pub orphan_status : Bool
  pub is_topoheight_gone : Bool
  pub is_confirmations_gone : Bool
  pub is_hash_not_found : Bool

pub record Reply : Type 0 where
  pub is_error : Bool
  pub body : Option Header

-- What the daemons answer at a tick, and the settings.
pub record Node : Type 0 where
  pub feed : Feed
  pub fuel : ℕ
  pub header_by_id : ℕ → ℕ → Reply
  pub header_by_hash : ℕ → String → Reply
  pub port_header_by_id : ℕ → ℕ → ℕ → Reply
  pub port_header_by_hash : ℕ → ℕ → String → Reply
  pub is_hash_only : ℕ → Bool
  pub daemon_port : ℕ
  pub blocks_required : ℕ
  pub anchor_round : ℕ

pub record Unlocker : Type 0 where
  pub bank : World
  pub chain : Chain
  pub in_flight : List String

abbrev pub S : Type 0 → Type 0
S A = Unlocker → Outcome A × Unlocker

abbrev pub done : S (Unit {0})
done s = (ok tt, s)

abbrev pub then_outcome : {A B : Type 0} → Outcome A → Unlocker → (A → S B) → Outcome B × Unlocker
then_outcome (ok a) s f = f a s
then_outcome thrown s f = (thrown, s)

infixl 5 ◌>>=◌
abbrev pub ◌>>=◌ : {A B : Type 0} → S A → (A → S B) → S B
◌>>=◌ m f s = then_outcome (m s).0 (m s).1 f

abbrev pub with_bank : World → Unlocker → Unlocker
with_bank w s = record s { bank = w }

abbrev pub with_chain : Chain → Unlocker → Unlocker
with_chain c s = record s { chain = c }

abbrev pub lift : {A : Type 0} → M A → S A
lift m s = ((m s.bank).0, with_bank (m s.bank).1 s)

-- The await of a call to a daemon.
abbrev pub awaited : Unlocker → Unlocker
awaited s = with_bank (tick s.bank) s

abbrev pub invalidated : Option Chain → S (Unit {0})
invalidated none s = (thrown, s)
invalidated (some c) s = (ok tt, with_chain c s)

abbrev pub opt_eq : Option ℕ → ℕ → Bool
opt_eq none n = false
opt_eq (some m) n = m == n

abbrev pub hash_eq : Option String → String → Bool
hash_eq none h = false
hash_eq (some g) h = str_eq g h

unfoldable pub is_in_flight : List String → List String → Bool
is_in_flight [] flights = false
is_in_flight (h ∷ hs) flights = if has_hex flights h then true else is_in_flight hs flights

abbrev pub block_hash_confirm_delay : ℕ
block_hash_confirm_delay = 5

abbrev pub altblock_precalc_delay : ℕ
altblock_precalc_delay = 720

abbrev pub max_anchor_precalc_per_cycle : ℕ
max_anchor_precalc_per_cycle = 10

-- `isAltblockOrphanResponse`.
unfoldable pub is_altblock_orphan_response : Option Header → Bool
is_altblock_orphan_response none = false
is_altblock_orphan_response (some h) =
    h.orphan_status || (h.is_topoheight_gone || (h.is_confirmations_gone || h.is_hash_not_found))

-- A map from anchor heights to hashes: its keys are walked from the lowest.
unfoldable pub add_anchor : ℕ → String → List (ℕ × List String) → List (ℕ × List String)
add_anchor a h [] = (a, h ∷ []) ∷ []
add_anchor a h ((b, hs) ∷ m) =
    if a == b
    then (b, hs ++ h ∷ []) ∷ m
    else if ltb a b
    then (a, h ∷ []) ∷ ((b, hs) ∷ m)
    else (b, hs) ∷ add_anchor a h m

abbrev pub main_payment : ℕ → Block → ℕ → PaidBlock
main_payment port b reward = record {
  hex = b.hash;
  amount = reward;
  port = port;
  found_time = b.timestamp;
}

abbrev pub alt_payment : AltBlock → ℕ → PaidBlock
alt_payment b reward = record {
  hex = b.hash;
  amount = reward;
  port = b.port;
  found_time = b.timestamp;
}

-- The header that a main block is paid by.
unfoldable pub is_header_of : Block → ℕ → Header → Bool
is_header_of b value h =
    opt_eq h.height b.height && (opt_eq h.reward value && opt_eq h.difficulty b.difficulty)

abbrev pub covers_reward : Option ℕ → Option ℕ → Bool
covers_reward none reward = false
covers_reward (some v) none = false
covers_reward (some v) (some r) = leb r v

unfoldable pub is_alt_header_of : AltBlock → Header → Bool
is_alt_header_of b h = opt_eq h.height b.height && covers_reward b.value h.reward

abbrev pub body_passes : (Header → Bool) → Option Header → Bool
body_passes test none = false
body_passes test (some h) = test h

unfoldable pub is_valid_reply : (Header → Bool) → Reply → Bool
is_valid_reply test r = not r.is_error && body_passes test r.body

-- `canRun`.
unfoldable pub can_run : Unlocker → Bool
can_run s = not s.bank.is_full_stop && not s.bank.payment_in_progress

module _ (env : Env) (node : Node) where
  abbrev pub unlock_if_paid : (String → Chain → Chain) → String → Bool → S (Unit {0})
  unlock_if_paid unlock hash true s = (ok tt, with_chain (unlock hash s.chain) s)
  unlock_if_paid unlock hash false s = (ok tt, s)

  -- `payCheckedBlock`, of the reply and its test.
  unfoldable pub pay_checked_block : PaidBlock → (String → Chain → Chain) → Bool → S (Unit {0})
  pay_checked_block p unlock true = lift (execute_payout env p) >>= unlock_if_paid unlock p.hex
  pay_checked_block p unlock false = done

  -- `payMainBlock` and `payAltBlock`.
  abbrev pub pay_main_value : Block → Option ℕ → S (Unit {0})
  pay_main_value b none s = (ok tt, s)
  pay_main_value b (some value) s =
      pay_checked_block (main_payment node.daemon_port b value) unlock_block
        (is_valid_reply (is_header_of b value) (node.header_by_hash s.bank.ticks b.hash))
        (awaited s)

  unfoldable pub pay_main_block : Block → S (Unit {0})
  pay_main_block b = pay_main_value b b.value

  abbrev pub pay_alt_value : AltBlock → Option ℕ → S (Unit {0})
  pay_alt_value b none s = (ok tt, s)
  pay_alt_value b (some value) s =
      pay_checked_block (alt_payment b value) unlock_alt_block
        (is_valid_reply (is_alt_header_of b) (node.port_header_by_hash s.bank.ticks b.port b.hash))
        (awaited s)

  unfoldable pub pay_alt_block : AltBlock → S (Unit {0})
  pay_alt_block b = pay_alt_value b b.pay_value

  abbrev pub mark_if_ready : (Chain → Chain) → Outcome Bool → S (Unit {0})
  mark_if_ready mark thrown s = (thrown, s)
  mark_if_ready mark (ok false) s = (ok tt, s)
  mark_if_ready mark (ok true) s = (ok tt, with_chain (mark s.chain) s)

  abbrev pub landed : List String → Outcome (Unit {0}) × Unlocker → Outcome (Unit {0}) × Unlocker
  landed hexes (o, s) =
      (o, record s { in_flight = keep_if (λ h. not (has_hex hexes h)) s.in_flight })

  -- `preCalculateAndMark`.
  unfoldable pub pre_calculate_and_mark : List String → ℕ → ℕ → (Chain → Chain) → S (Unit {0})
  pre_calculate_and_mark hexes height difficulty mark s =
      let flying = record s { in_flight = s.in_flight ++ hexes } in
      let status = lift (pre_calculate env node.feed node.fuel hexes height difficulty) flying in
      if is_in_flight hexes s.in_flight
      then (ok tt, s)
      else landed hexes (mark_if_ready mark status.0 status.1)

  abbrev pub ready_or_pay : ℕ → Block → S (Unit {0})
  ready_or_pay top b =
      if not b.pay_ready
      then pre_calculate_and_mark (b.hash ∷ []) b.height b.difficulty (pay_ready_block b.hash)
      else if ltb (b.height + node.blocks_required) top
      then pay_main_block b
      else done

  abbrev pub orphan_block : Block → S (Unit {0})
  orphan_block b s = invalidated (invalidate_block b.height s.chain) s

  abbrev pub if_same_hash : ℕ → Block → Option Header → S (Unit {0})
  if_same_hash top b none = orphan_block b
  if_same_hash top b (some h) = if hash_eq h.hash b.hash then ready_or_pay top b else orphan_block b

  abbrev pub with_header : ℕ → Block → Reply → S (Unit {0})
  with_header top b r = if r.is_error then done else if_same_hash top b r.body

  -- The body of the loop of `runBlockUnlocker`.
  unfoldable pub handle_block : ℕ → Block → S (Unit {0})
  handle_block top b s =
      if leb top (b.height + block_hash_confirm_delay) || not b.is_pplns
      then (ok tt, s)
      else with_header top b (node.header_by_id s.bank.ticks b.height) (awaited s)

  unfoldable pub handle_blocks : ℕ → List Block → S (Unit {0})
  handle_blocks top [] = done
  handle_blocks top (b ∷ bs) = handle_block top b >>= λ _. handle_blocks top bs

  abbrev pub blocks_at : List Block → Option ℕ → S (Unit {0})
  blocks_at bs none = done
  blocks_at bs (some top) = handle_blocks top bs

  unfoldable pub run_block_unlocker : S (Unit {0})
  run_block_unlocker s =
      if can_run s
      then blocks_at (get_valid_locked_blocks s.chain) (node.feed.top_height s.bank.ticks)
          (awaited s)
      else (ok tt, s)
