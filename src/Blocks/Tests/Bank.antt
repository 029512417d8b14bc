-- ===== src/Blocks/Tests/Bank.antt =====
-- The tables of the tests of the block manager.
use nodejs_pool.Prelude.{ℕ, false, none, [], ◌∷◌, String, ◌==◌}
use nodejs_pool.Payments.Store.{Balance}
use nodejs_pool.Blocks.Runtime.{PaidBlock, BlockBalance, Env, World}

abbrev pub env : Env
env = record { fails = λ t. false; raced = λ t. false }

-- The query at a tick fails.
abbrev pub failing : ℕ → Env
failing at = record { fails = λ t. t == at; raced = λ t. false }

abbrev pub balance : ℕ → String → ℕ → Balance
balance i address n = record {
  id = i;
  payment_address = address;
  payment_id = none;
  pool_type = "pplns";
  amount = n;
  pending_batch_id = none;
}

abbrev row_of : String → String → ℕ → BlockBalance
row_of hex address n = record {
  hex = hex;
  payment_address = address;
  payment_id = none;
  part = n;
  whole = 4;
}

abbrev pub bank : World
bank = record {
  tables = record {
    balances = balance 1 "4A" 10 ∷ [];
    next_balance_id = 2;
    paid_blocks = [];
    block_balances = row_of "b1" "4A" 3 ∷ row_of "b2" "4A" 4 ∷ row_of "b1" "4B" 1 ∷ [];
  };
  balance_id_cache = [];
  is_full_stop = false;
  payment_in_progress = false;
  ticks = 0;
}

abbrev pub paid : PaidBlock
paid = record { hex = "b1"; amount = 1_000; port = 18_081; found_time = 5 }
