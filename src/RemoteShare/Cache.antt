-- ===== src/RemoteShare/Cache.antt =====
-- lib/remote_share/share_store.js: the counters of a batch of shares, and what one share adds to them.
-- The amounts are exact.
use Prim.Native.String.{◌++◌, count}
use nodejs_pool.Prelude.{
  ℕ, zero, suc, ◌*◌, ◌/◌, ◌%◌, Bool, false, Option, none, some, List, String, ◌==◌, ltb,
  if◌then◌else◌, lookup, assign, ℤ, pos, negsuc, ◌+ℤ◌,
}
use nodejs_pool.RemoteShare.Shares.{Share, one}

-- `roundHashes`: a number, or the `false` that resets it.
pub data Round : Type 0 where
  reset : Round
  hashes : ℤ → Round

pub record CacheEntry : Type 0 where
  pub total_hashes : Option ℤ
  pub good_shares : Option ℤ
  pub round_hashes : Option Round

-- `value || 0`.
abbrev pub or_none : Option ℤ → ℤ
or_none none = pos 0
or_none (some z) = z

abbrev pub round_or_zero : Option Round → ℤ
round_or_zero none = pos 0
round_or_zero (some reset) = pos 0
round_or_zero (some (hashes z)) = z

-- `Number.prototype.toString` of an integer, with fuel for its digits.
abbrev pub digit : ℕ → String
digit n =
    if n == 0
    then "0"
    else if n == 1
    then "1"
    else if n == 2
    then "2"
    else if n == 3
    then "3"
    else if n == 4
    then "4"
    else if n == 5
    then "5"
    else if n == 6
    then "6"
    else if n == 7
    then "7"
    else if n == 8
    then "8"
    else "9"

unfoldable pub decimal : ℕ → ℕ → String
decimal zero n = digit n
decimal (suc fuel) n =
    let front = decimal fuel (n / 10) in if ltb n 10 then digit n else front ++ digit (n % 10)

abbrev pub port_text : ℤ → String
port_text (pos n) = decimal 9 (n / one)
port_text (negsuc n) = "-" ++ decimal 9 (suc n / one)

abbrev pub is_number : ℕ → ℤ → Bool
is_number n (pos m) = m == n * one
is_number n (negsuc m) = false

-- `poolTypeStr` of lib/common/pool_type.js, where PPLNS is 0.
abbrev pub pool_type_str : ℕ → String
pool_type_str n = if n == 0 then "pplns" else "legacy"

abbrev pub miner_of : String → Option String → String
miner_of address none = address
miner_of address (some id) = if ltb 10 (count id) then address ++ "." ++ id else address

-- `getMinerId`.
unfoldable pub get_miner_id : Share → String
get_miner_id s = miner_of s.payment_address s.payment_id

abbrev pub CacheUpdates : Type 0
CacheUpdates = List (String × CacheEntry)

abbrev pub ensure_found : String → CacheEntry → Option CacheEntry → CacheUpdates → CacheUpdates
ensure_found k created none m = assign k created m
ensure_found k created (some e) m = m

-- `ensureCacheEntry`.
unfoldable pub ensure_cache_entry : String → CacheEntry → CacheUpdates → CacheUpdates
ensure_cache_entry k created m = ensure_found k created (lookup k m) m

-- The two shapes of a created entry.
abbrev pub stats_entry : CacheEntry
stats_entry = record {
  total_hashes = some (pos 0);
  good_shares = none;
  round_hashes = some (hashes (pos 0));
}

abbrev pub miner_entry : CacheEntry
miner_entry = record {
  total_hashes = some (pos 0);
  good_shares = some (pos 0);
  round_hashes = none;
}

abbrev pub entry_or : CacheEntry → Option CacheEntry → CacheEntry
entry_or e none = e
entry_or e (some f) = f

-- A write to an entry that was ensured before.
unfoldable pub change : (CacheEntry → CacheEntry) → String → CacheUpdates → CacheUpdates
change f k m = assign k (f (entry_or stats_entry (lookup k m))) m

abbrev pub add_total_hashes : ℕ → CacheEntry → CacheEntry
add_total_hashes v e = record e { total_hashes = some (or_none e.total_hashes +ℤ pos v) }

abbrev pub add_round_hashes : ℕ → CacheEntry → CacheEntry
add_round_hashes v e = record e {
  round_hashes = some (hashes (round_or_zero e.round_hashes +ℤ pos v));
}

abbrev pub add_good_shares : ℤ → CacheEntry → CacheEntry
add_good_shares v e = record e { good_shares = some (or_none e.good_shares +ℤ v) }

abbrev pub count_of : Option ℤ → ℤ
count_of none = pos one
count_of (some (pos n)) = if n == 0 then pos one else pos n
count_of (some (negsuc n)) = negsuc n

-- `portSuffix` before the default one takes its place.
abbrev pub own_suffix : ℕ → Option ℤ → Option String
own_suffix daemon_port none = none
own_suffix daemon_port (some z) =
    if is_number daemon_port z then none else some ("_" ++ port_text z)

-- A share of the main port: it counts for the pool and its type, and then for the default port.
abbrev pub count_main : String → ℕ → Option String → CacheUpdates → CacheUpdates
count_main type_key v (some suffix) m = m
count_main type_key v none m = change (add_round_hashes v) type_key (
    change (add_total_hashes v) type_key
      (change (add_round_hashes v) "global_stats2" (change (add_total_hashes v) "global_stats2" m)))

abbrev pub suffix_or : String → Option String → String
suffix_or fallback none = fallback
suffix_or fallback (some suffix) = suffix

abbrev pub count_port : String → ℕ → String → CacheUpdates → CacheUpdates
count_port type_key v suffix m =
    let ensured =
      ensure_cache_entry (type_key ++ suffix) stats_entry
        (ensure_cache_entry ("global_stats2" ++ suffix) stats_entry m) in
    change (add_round_hashes v) (type_key ++ suffix) (
      change (add_total_hashes v) (type_key ++ suffix) (
        change (add_total_hashes v) type_key (
          change (add_round_hashes v) ("global_stats2" ++ suffix) (
            change (add_total_hashes v) ("global_stats2" ++ suffix)
              (change (add_total_hashes v) "global_stats2" ensured)))))

abbrev pub count_miner : String → String → ℕ → ℤ → CacheUpdates → CacheUpdates
count_miner miner worker v n m = change (add_good_shares n) worker (
    change (add_total_hashes v) worker
      (change (add_good_shares n) miner (change (add_total_hashes v) miner m)))

-- `applyShareCacheUpdates`.
unfoldable pub apply_share_cache_updates : ℕ → String → Share → CacheUpdates → CacheUpdates
apply_share_cache_updates daemon_port default_suffix s m =
    let miner = get_miner_id s in
    let worker = miner ++ "_" ++ s.identifier in
    let type_key = pool_type_str s.pool_type ++ "_stats2" in
    let suffix = own_suffix daemon_port s.port in
    let ensured = ensure_cache_entry type_key stats_entry (
      ensure_cache_entry worker miner_entry (
        ensure_cache_entry miner miner_entry (ensure_cache_entry "global_stats2" stats_entry m))) in
    count_miner miner worker s.raw_shares (count_of s.share_num) (
      count_port type_key s.raw_shares (suffix_or default_suffix suffix)
        (count_main type_key s.raw_shares suffix ensured))
