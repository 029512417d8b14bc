-- ===== src/Blocks/Runtime.antt =====
-- The world of lib/block_manager.js: the tables `balance`, `paid_blocks` and `block_balance`, the
-- latches of its state, and queries that may throw. lib/common/mysql_transaction.js: a transaction.
use nodejs_pool.Prelude.{ℕ, suc, Bool, true, false, Option, List, String}
use nodejs_pool.Payments.Store.{Balance}

-- A row of `paid_blocks`; the hash is its unique key.
pub record PaidBlock : Type 0 where
  pub hex : String
  pub amount : ℕ
  pub port : ℕ
  pub found_time : ℕ

-- A row of `block_balance`. Its amount, the part of the reward, is the fraction `part / whole`.
pub record BlockBalance : Type 0 where
  pub hex : String
  pub payment_address : String
  pub payment_id : Option String
  pub part : ℕ
  pub whole : ℕ

pub record Tables : Type 0 where
  pub balances : List Balance
  pub next_balance_id : ℕ
  pub paid_blocks : List PaidBlock
  pub block_balances : List BlockBalance

-- A query or another await that fails throws. At an insert of a balance another runtime may have
-- inserted the row first.
pub record Env : Type 0 where
  pub fails : ℕ → Bool
  pub raced : ℕ → Bool

pub record World : Type 0 where
  pub tables : Tables
  pub balance_id_cache : List (String × ℕ)
  pub is_full_stop : Bool
  pub payment_in_progress : Bool
  pub ticks : ℕ

pub data Outcome {ℓ} (A : Type ℓ) : Type ℓ where
  ok : A → Outcome A
  thrown : Outcome A

abbrev pub M : Type 0 → Type 0
M A = World → Outcome A × World

abbrev pub pure : {A : Type 0} → A → M A
pure a w = (ok a, w)

abbrev pub throw : {A : Type 0} → M A
throw w = (thrown, w)

abbrev pub bind_outcome : {A B : Type 0} → Outcome A → World → (A → M B) → Outcome B × World
bind_outcome (ok a) w f = f a w
bind_outcome thrown w f = (thrown, w)

infixl 5 ◌>>=◌
abbrev pub ◌>>=◌ : {A B : Type 0} → M A → (A → M B) → M B
◌>>=◌ m f w = bind_outcome (m w).0 (m w).1 f

-- `try { … } catch { … }`.
abbrev pub catch_outcome : {A : Type 0} → Outcome A → World → M A → Outcome A × World
catch_outcome (ok a) w handler = (ok a, w)
catch_outcome thrown w handler = handler w

-- `fullStop`: a latch.
abbrev pub full_stop : World → World
full_stop w = record w { is_full_stop = true }

abbrev pub reply_of : Bool → Outcome (Unit {0})
reply_of true = thrown
reply_of false = ok tt

module _ (env : Env) where
  -- The await of a query.
  unfoldable pub query : M (Unit {0})
  query w = (reply_of (env.fails w.ticks), record w { ticks = suc w.ticks })

  -- Out of a transaction that failed: its writes are gone.
  abbrev pub roll_back : {A : Type 0} → Tables → World → Outcome A × World
  roll_back tables w = (thrown, record w { tables = tables })

  abbrev pub end_commit : {A : Type 0} → Tables → A → Outcome (Unit {0}) → World → Outcome A × World
  end_commit tables a thrown w = roll_back tables w
  end_commit tables a (ok u) w = (ok a, w)

  abbrev pub end_transaction : {A : Type 0} → Tables → Outcome A → World → Outcome A × World
  end_transaction tables thrown w = roll_back tables w
  end_transaction tables (ok a) w = end_commit tables a (query w).0 (query w).1

  -- `withTransaction`: `getConnection`, `beginTransaction`, the work, `commit`. A commit that fails
  -- has committed nothing.
  unfoldable pub with_transaction : {A : Type 0} → M A → M A
  with_transaction work =
      query >>= λ _. query >>= λ _. λ w. end_transaction w.tables (work w).0 (work w).1
