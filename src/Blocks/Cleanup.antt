-- ===== src/Blocks/Cleanup.antt =====
-- lib/common/local_comms.js, `cleanShareDB`: the shares that no payout needs are deleted. The shares
-- of a height stand under it. The log, the mails and the waiting between attempts are left out.
use nodejs_pool.Prelude.{
  ℕ, zero, suc, ◌+◌, ◌-◌, ◌*◌, ◌/◌, Bool, true, false, Option, none, some, List, [], ◌∷◌, ◌==◌, ltb,
  leb, if◌then◌else◌,
}
use nodejs_pool.Blocks.Window.{ShareData}
use nodejs_pool.Blocks.Chain.{Chain, get_oldest_locked_block_height}
use nodejs_pool.Blocks.Unlocker.{Header, Reply}

abbrev pub Shares : Type 0
Shares = ℕ → List (Option ShareData)

pub data CleanError : Type 0 where
  already_running : CleanError
  lookup_failed : CleanError
  invalid_difficulty : CleanError
  database_failed : CleanError

-- The settings, the answers of the main daemon and the failures of the database: of the read of the
-- locked blocks, of the scan, and of a delete or a commit.
pub record CleanEnv : Type 0 where
  pub share_multi : ℕ
  pub block_cleaner : Bool
  pub block_header : ℕ → ℕ → Reply
  pub last_header : Reply
  pub oldest_fails : Bool
  pub scan_fails : Bool
  pub write_fails : ℕ → Bool

pub record Cleaner : Type 0 where
  pub chain : Chain
  pub shares : Shares
  pub clean_share_in_progress : Bool
  pub clean_share_stuck_count : ℕ

pub record CleanScan : Type 0 where
  pub share_count : ℕ
  pub pplns_found : Bool
  pub block_set : List ℕ

-- A share that cannot be decoded counts nothing.
abbrev pub pplns_shares : Option ShareData → ℕ
pplns_shares none = 0
pplns_shares (some d) = if d.is_pplns then d.shares2 else 0

-- The shares of a height until there are enough.
unfoldable pub count_shares_until : ℕ → List (Option ShareData) → CleanScan → CleanScan
count_shares_until difficulty [] s = s
count_shares_until difficulty (d ∷ ds) s =
    let n = s.share_count + pplns_shares d in
    if leb difficulty n
    then record s { share_count = n; pplns_found = true }
    else count_shares_until difficulty ds (record s { share_count = n })

-- The keys of the set are walked from the lowest, which is the last one found.
abbrev pub scan_block : ℕ → ℕ → List (Option ShareData) → CleanScan → CleanScan
scan_block difficulty block [] s = s
scan_block difficulty block (d ∷ ds) s =
    if s.pplns_found
    then record s { block_set = block ∷ s.block_set }
    else count_shares_until difficulty (d ∷ ds) s

unfoldable pub scan_blocks : ℕ → Shares → ℕ → CleanScan → CleanScan
scan_blocks difficulty shares zero s = s
scan_blocks difficulty shares (suc h) s =
    scan_blocks difficulty shares h (scan_block difficulty (suc h) (shares (suc h)) s)

abbrev pub no_scan : CleanScan
no_scan = record { share_count = 0; pplns_found = false; block_set = [] }

-- `scanShares`: the heights to delete.
abbrev pub scan_shares : ℕ → ℕ → Shares → List ℕ
scan_shares last difficulty shares = (scan_blocks difficulty shares (last - 1) no_scan).block_set

abbrev pub delete_height : ℕ → Shares → Shares
delete_height height shares h = if h == height then [] else shares h

-- The transactions of `finalizeCleanup`, of more than 100 deletes each, with what the open one has
-- done and what is committed. A failure loses the open one.
unfoldable pub delete_blocks :
    (ℕ → Bool) → ℕ → List ℕ → Shares → Shares → Option CleanError × Shares
delete_blocks fails batch [] opened committed =
    if fails 0 then (some database_failed, committed) else (none, opened)
delete_blocks fails batch (h ∷ hs) opened committed =
    let deleted = delete_height h opened in
    let kept = delete_blocks fails 0 hs deleted deleted in
    let going = delete_blocks fails (suc batch) hs deleted committed in
    if fails h
    then (some database_failed, committed)
    else if ltb 100 (suc batch)
    then kept
    else going

abbrev pub clean_share_block_header_retries : ℕ
clean_share_block_header_retries = 3

module _ (env : CleanEnv) where
  -- `finish` of a run, with the flag cleared.
  abbrev pub fail_cleanup : CleanError → Cleaner → Option CleanError × Cleaner
  fail_cleanup e s = (some e, record s { clean_share_in_progress = false })

  abbrev pub finished : Option CleanError × Shares → Cleaner → Option CleanError × Cleaner
  finished (some e, shares) s = fail_cleanup e (record s { shares = shares })
  finished (none, shares) s = (
    none,
    record s { shares = shares; clean_share_in_progress = false; clean_share_stuck_count = 0 },
  )

  -- `finalizeCleanup`.
  unfoldable pub finalize_cleanup : List ℕ → Cleaner → Option CleanError × Cleaner
  finalize_cleanup [] s = finished (none, s.shares) s
  finalize_cleanup (h ∷ hs) s =
      finished
        (if env.block_cleaner
          then delete_blocks env.write_fails 0 (h ∷ hs) s.shares s.shares
          else (none, s.shares))
        s

  abbrev pub scan_and_clean : ℕ → ℕ → Cleaner → Option CleanError × Cleaner
  scan_and_clean last difficulty s =
      if env.scan_fails
      then fail_cleanup database_failed s
      else finalize_cleanup (scan_shares last difficulty s.shares) s

  -- Twice the window of a block, in whole shares; `share_multi` stands in hundredths.
  abbrev pub kept_shares : ℕ → ℕ
  kept_shares difficulty = difficulty * env.share_multi * 2 / 100

  abbrev pub height_or_zero : Option ℕ → ℕ
  height_or_zero none = 0
  height_or_zero (some h) = h

  abbrev pub from_tip : Option ℕ → Option ℕ → Cleaner → Option CleanError × Cleaner
  from_tip height none s = fail_cleanup invalid_difficulty s
  from_tip height (some d) s =
      if d == 0
      then fail_cleanup invalid_difficulty s
      else scan_and_clean (height_or_zero height) (kept_shares d) s

  -- From the oldest locked block and its difficulty, or from the tip.
  abbrev pub clean_from : Option (ℕ × ℕ) → Header → Cleaner → Option CleanError × Cleaner
  clean_from none h s = from_tip h.height h.difficulty s
  clean_from (some (height, difficulty)) h s = scan_and_clean height (kept_shares difficulty) s

  abbrev pub with_last_header :
      Option (ℕ × ℕ) → Bool → Option Header → Cleaner → Option CleanError × Cleaner
  with_last_header oldest false (some h) s = clean_from oldest h s
  with_last_header oldest false none s = fail_cleanup lookup_failed s
  with_last_header oldest true body s = fail_cleanup lookup_failed s

  -- `loadCleanupWindow`.
  unfoldable pub load_cleanup_window : Option (ℕ × ℕ) → Cleaner → Option CleanError × Cleaner
  load_cleanup_window oldest s =
      with_last_header oldest env.last_header.is_error env.last_header.body s

  abbrev pub difficulty_in : Bool → Option Header → Option ℕ
  difficulty_in false (some h) = h.difficulty
  difficulty_in false none = none
  difficulty_in true body = none

  abbrev pub loaded_or_again :
      ℕ → Option ℕ → Option CleanError × Cleaner → Cleaner → Option CleanError × Cleaner
  loaded_or_again height (some d) again s = load_cleanup_window (some (height, d)) s
  loaded_or_again height none again s = again

  -- `requestBlockHeader`, of the attempts that are left.
  unfoldable pub request_block_header : ℕ → ℕ → Cleaner → Option CleanError × Cleaner
  request_block_header zero height s = fail_cleanup lookup_failed s
  request_block_header (suc attempts) height s =
      let r = env.block_header attempts height in
      loaded_or_again height (difficulty_in r.is_error r.body)
        (request_block_header attempts height s) s

  abbrev pub clean_oldest : Option ℕ → Cleaner → Option CleanError × Cleaner
  clean_oldest none s = load_cleanup_window none s
  clean_oldest (some height) s = request_block_header clean_share_block_header_retries height s

  abbrev pub run_cleanup : Cleaner → Option CleanError × Cleaner
  run_cleanup s =
      if env.oldest_fails
      then fail_cleanup database_failed s
      else clean_oldest (get_oldest_locked_block_height s.chain) s

  -- `cleanShareDB`.
  unfoldable pub clean_share_db : Cleaner → Option CleanError × Cleaner
  clean_share_db s =
      if s.clean_share_in_progress
      then (
        some already_running,
        record s { clean_share_stuck_count = suc s.clean_share_stuck_count },
      )
      else run_cleanup (record s { clean_share_in_progress = true })
