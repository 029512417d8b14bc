-- ===== src/Lib.antt =====
-- A verification of parts of nodejs-pool, the Monero mining pool: the block manager, which turns
-- found blocks into balances, the payout runtime, which pays the balances, the limits and the
-- registry of the miner-facing process, the storage of shares, and the task queue, the histories of
-- hashrates and the codec of work of lib/common.
--
-- Blocks (lib/block_manager.js). A cycle asks the daemons for the found blocks that are locked. It drops
-- the orphans, calculates from the shares what a block pays (the rows of block_balance), and when
-- the block is deep enough credits the balances by these rows in one transaction and unlocks it.
--   Blocks/Runtime       the tables, the latches, and queries that may throw; mysql_transaction.js
--   Blocks/Window        the scan of the shares: addPayment, collectPplnsSharePayments
--   Blocks/Precalc       preCalculatePPLNSPayments, replaceBlockBalanceRows
--   Blocks/Credits       getOrCreateBalanceId, resolveBalanceCredits, applyBalanceCredits
--   Blocks/Payout        doPPLNSPayments, executePayout
--   Blocks/Chain         local_comms.js: the found blocks and the operations on them
--   Blocks/Cleanup       local_comms.js: cleanShareDB, which deletes old shares
--   Blocks/Unlocker      runBlockUnlocker, preCalculateAndMark, payCheckedBlock
--   Blocks/AltUnlocker   handleAltBlock, runAltblockUnlocker, runCycle
-- Totals, Caps and Timed are about the scan, Bounded and Rewards about the rows, Crediting,
-- Conserves, Keeps, Atomic, Recipients, Found and Succeeds about a payout, Honest, Unlocks, Cycles
-- and Ripe about the unlockers, Oldest, Kept and Cleaned about the cleanup. The world counts its
-- awaits; which query fails, what a daemon answers, which shares the database holds and who inserts
-- a balance meanwhile are functions of that number.
--
-- Payments (lib/payments.js, lib/payments/). A cycle takes the advisory lock, recovers every pending
-- batch, plans payouts from the balances, and reserves and submits one batch after the other. The
-- tables (deployment/base.sql) are a record of lists of rows, with the statements as functions.
--   Payments/Store       the tables, a batch and its status
--   Payments/Planner     planner.js: calculateChargeFee, buildPayoutItem, planBatches
--   Payments/Reserve     planner.js: reserveBatch, preflightWalletBalance
--   Payments/Matching    common.js: transferMatchesBatch
--   Payments/Runtime     common.js: updateBatchStatusIfCurrent; the lock, the latch and the clock
--   Payments/Processor   processor.js: Search (the wallet's history), Settle (the guarded writes),
--                        Reconcile, Submit (submitReservedBatch, recoverPendingBatches)
--   Payments/Cycle       payments.js: ensureAdvisoryLock, runCycle
--   Payments/Machine     the state machine that the comment at the head of processor.js documents, as
--                        a relation between tables, and that the code is a refinement of it
--   Payments/Ledger      what the transaction of finalizeBatch does to the ledger
-- Asynchronous code passes a world along: the tables, the batch object in hand, the lock, the latch and
-- the number of awaits so far. What an await brings is a function of that number, and so are the
-- writes of other runtimes during it, of which only is assumed that they are steps of the machine.
--
-- Pool (lib/pool). Pool/Security and Pool/RateLimit are security.js: the configured limits and the
-- token buckets. Pool/Registry is miner_registry.js: the active miners with their index by payout
-- address, sockets, proxies, bans and timeouts.
--
-- Common (lib/common). Common/TaskQueue is createTaskQueue of callbacks.js. The worker and the
-- callbacks are parameters that may add tasks and call done before they return. Common/WorkerHistory
-- is worker_history.js: the tiers of a worker's hashrates as ring buffers, and their layout.
-- Common/WorkCodec is work_codec.js: encode and decode with the extensions of work beyond 64 bits, over
-- a codec of protocol buffers that is a parameter, and the repair of legacy bytes, of which Varint,
-- Repairs and Whole say what it does to a message that is written field by field; Steps and RoundTrip are
-- about encode and decode.
--
-- RemoteShare (lib/remote_share). RemoteShare/Shares, Cache and Store are share_store.js: which messages
-- are storable, the counters of a batch (applyShareCacheUpdates, on an association list whose keys may
-- coincide), and storeShares, whose transaction is a value that is kept or dropped as a whole. The
-- encoder of a share, the port of the daemon and the ports of the coins are parameters.
--
-- Numbers. Amounts are atomic units and times are milliseconds or Unix seconds, in ℕ; the slope of
-- the fee is an exact fraction before the floor, where the code divides doubles. A hash or a key is the
-- number of its hexadecimal digits. Tokens of a rate limit are counted in thousandths, at whole rates.
-- Numbers of a share are whole millionths and their sums are exact, where the code adds doubles.
-- A balance stops at zero where SQL would go below it: the theorem on the ledger assumes that it is
-- covered. A transaction happens at once or not at all, and an update by primary key meets the first
-- row with the id.
--
-- In Blocks an amount of a share is exact, in units of 10⁻⁸ of a share, a percentage is a whole hundredth
-- of a percent, and a row of block_balance is an exact fraction of the reward, where the code adds and
-- divides doubles; the window of a block is measured in shares, and is not zero.
--
-- Fuel. The calculation of payouts is tried again at the top height as long as there are no shares
-- and the top moves on, with fuel for these times; without fuel its result is false. The update of
-- balances has fuel for one batch a credit. The split into bulk transactions has fuel for one
-- transaction an item, and loses none. The loop of pump has fuel for its passes: one for each
-- waiting task is enough where workers and callbacks add none, and the invariant holds for any
-- fuel. The searches after a submit have their five delays. The text of a port has fuel for ten
-- digits, more than a port of 32 bits has.
--
-- Not modelled: logs, mails and texts of errors; timers and the start and stop of the runtimes; JSON,
-- sockets, SQL and LMDB themselves; the statistics, mails and share dumps of the block manager, whose
-- lookups of balances run one after the other here; coins, the API, statistics, the remote share uplink,
-- and the operators' scripts.
pub mod Blocks
pub mod Common
pub mod Payments
pub mod Pool
pub mod Prelude
pub mod RemoteShare
