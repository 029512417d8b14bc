-- ===== src/Blocks/Tests/Cycles.antt =====
-- Runs of the unlockers and of the cleanup.
use nodejs_pool.Prelude.{
  ℕ, ◌≡◌, refl, Bool, true, false, Option, none, some, List, [], ◌∷◌, String, ◌==◌, lookup, assign,
  map, if◌then◌else◌, arith, ◌⊎◌,
}
use nodejs_pool.Blocks.Runtime.{query, with_transaction}
use nodejs_pool.Blocks.Credits.{
  get_or_create_balance_id, resolve_balance_credits, apply_balance_credits, aggregate, resolve_ids,
  balance_id, is_balance_of, cache_key, update_batch, add_credit, has_id, credit_of,
  credit_balances, update_batches, insert_balance, insert_or_reload,
}
use nodejs_pool.Blocks.Payout.{
  credit_row, credit_rows, is_paid, get_balance_sum, insert_paid_block, pay_rows, commit_credits,
  do_pplns_payments, execute_payout,
}
use nodejs_pool.Blocks.Window.{ShareData}
use nodejs_pool.Blocks.Chain.{
  Block, get_valid_locked_blocks, get_valid_locked_alt_blocks, rewrite_if, rewrite_key,
  invalidate_block, unlock_block, get_oldest_locked_block_height, oldest_of_blocks,
  oldest_of_alt_blocks,
}
use nodejs_pool.Blocks.Unlocker.{
  Header, Reply, Node, Unlocker, run_block_unlocker, can_run, handle_blocks, handle_block,
  pay_main_block, pay_checked_block, is_valid_reply, is_header_of, pre_calculate_and_mark,
}
use nodejs_pool.Blocks.AltUnlocker.{
  run_cycle, run_altblock_unlocker, handle_alt_blocks, pre_calculate_anchors,
}
use nodejs_pool.Blocks.Honest.{IsHonest}
use nodejs_pool.Blocks.Ripe.{IsRipe, IsAltRipe, run_cycle_pays-IsRipe}
use nodejs_pool.Blocks.Cleanup.{
  CleanEnv, Cleaner, clean_share_db, request_block_header, load_cleanup_window, scan_blocks,
  count_shares_until, finalize_cleanup, delete_blocks,
}
use nodejs_pool.Blocks.Tests.Bank.{env, bank, paid}
use nodejs_pool.Blocks.Tests.Scans.{shares_at, feed}

abbrev no_answer : Reply
no_answer = record { is_error = true; body = none }

abbrev header : String → ℕ → Header
header hash n = record {
  height = some n;
  hash = some hash;
  reward = some 1_000;
  difficulty = some 20;
  orphan_status = false;
  is_topoheight_gone = false;
  is_confirmations_gone = false;
  is_hash_not_found = false;
}

abbrev answer : Header → Reply
answer h = record { is_error = false; body = some h }

abbrev node : Node
node = record {
  feed = feed;
  fuel = 3;
  header_by_id = λ t n. if n == 9 then answer (header "b1" 9) else answer (header "other" n);
  header_by_hash = λ t h. answer (header "b1" 9);
  port_header_by_id = λ t p n. no_answer;
  port_header_by_hash = λ t p h. no_answer;
  is_hash_only = λ p. false;
  daemon_port = 18_081;
  blocks_required = 20;
  anchor_round = 4;
}

abbrev block : ℕ → String → Bool → Block
block n hash ready = record {
  height = n;
  hash = hash;
  difficulty = 20;
  timestamp = 5;
  value = some 1_000;
  is_pplns = true;
  valid = true;
  unlocked = false;
  pay_ready = ready;
}

-- A block that is ready to be paid, and one that another block took the place of.
abbrev unlocker : Unlocker
unlocker = record {
  bank = bank;
  chain = record { blocks = block 9 "b1" true ∷ block 11 "b4" false ∷ []; alt_blocks = [] };
  in_flight = [];
}

run_cycle_pays : (run_cycle env node unlocker).1.bank.tables.paid_blocks ≡ paid ∷ []
unfolding run_cycle run_block_unlocker run_altblock_unlocker can_run get_valid_locked_blocks
    get_valid_locked_alt_blocks handle_blocks handle_block handle_alt_blocks pre_calculate_anchors
    pay_main_block pay_checked_block is_valid_reply is_header_of execute_payout unlock_block
    invalidate_block rewrite_if rewrite_key pre_calculate_and_mark do_pplns_payments get_balance_sum
    query pay_rows resolve_balance_credits resolve_ids credit_rows credit_row
    get_or_create_balance_id balance_id lookup is_balance_of assign cache_key insert_or_reload
    aggregate add_credit commit_credits apply_balance_credits credit_balances credit_of has_id
    insert_balance update_batch update_batches insert_paid_block is_paid with_transaction
run_cycle_pays = refl

run_cycle_unlocks :
    (run_cycle env node unlocker).1.chain.blocks
    ≡ record (block 9 "b1" true) { unlocked = true }
      ∷ record (block 11 "b4" false) { valid = false; unlocked = true }
      ∷ []
unfolding run_cycle run_block_unlocker run_altblock_unlocker can_run get_valid_locked_blocks
    get_valid_locked_alt_blocks handle_blocks handle_block handle_alt_blocks pre_calculate_anchors
    pay_main_block pay_checked_block is_valid_reply is_header_of execute_payout unlock_block
    invalidate_block rewrite_if rewrite_key pre_calculate_and_mark do_pplns_payments get_balance_sum
    query pay_rows resolve_balance_credits resolve_ids credit_rows credit_row
    get_or_create_balance_id balance_id lookup is_balance_of assign cache_key insert_or_reload
    aggregate add_credit commit_credits apply_balance_credits credit_balances credit_of has_id
    insert_balance update_batch update_batches insert_paid_block is_paid with_transaction
run_cycle_unlocks = refl

unlocker-IsHonest : IsHonest (λ p. Unit) unlocker
unfolding IsHonest
unlocker-IsHonest =
    ((λ v u. absurd (cc u), (λ v u. absurd (cc u), tt)), tt, ((refl, tt), (omega arith, tt)), tt)

run_cycle_pays-IsRipe_example :
    IsHonest
      (λ p. (is_paid p.hex [] ≡ true) ⊎ IsRipe node p ⊎ IsAltRipe node p)
      (run_cycle env node unlocker).1
run_cycle_pays-IsRipe_example = run_cycle_pays-IsRipe env node unlocker unlocker-IsHonest

abbrev clean_env : CleanEnv
clean_env = record {
  share_multi = 100;
  block_cleaner = true;
  block_header = λ t n. answer (header "b1" 9);
  last_header = answer (header "tip" 40);
  oldest_fails = false;
  scan_fails = false;
  write_fails = λ n. false;
}

abbrev cleaner : Cleaner
cleaner = record {
  chain = record {
    blocks = block 9 "b1" true ∷ block 10 "b5" false ∷ block 11 "b4" false ∷ [];
    alt_blocks = [];
  };
  shares = shares_at;
  clean_share_in_progress = false;
  clean_share_stuck_count = 0;
}

get_oldest_locked_block_height_ten : get_oldest_locked_block_height cleaner.chain ≡ some 10
unfolding get_oldest_locked_block_height oldest_of_blocks oldest_of_alt_blocks
get_oldest_locked_block_height_ten = refl

-- Forty shares are kept below height 10: those at height 7 go.
clean_share_db_seven :
    map {A = ℕ} {B = List (Option ShareData)}
      (clean_share_db clean_env cleaner).1.shares
      (8 ∷ 7 ∷ [])
    ≡ shares_at 8 ∷ [] ∷ []
unfolding clean_share_db get_oldest_locked_block_height oldest_of_blocks oldest_of_alt_blocks
    request_block_header load_cleanup_window scan_blocks count_shares_until finalize_cleanup
    delete_blocks
clean_share_db_seven = refl
