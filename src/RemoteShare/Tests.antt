-- ===== src/RemoteShare/Tests.antt =====
-- Batches of shares, and the properties at them.
use nodejs_pool.Prelude.{
  ℕ, String, ◌*◌, ◌≡◌, ◌+◌, refl, false, Option, none, some, List, [], ◌∷◌, lookup, assign, pos,
  ◌+ℤ◌,
}
use nodejs_pool.RemoteShare.Shares.{
  undefined, null, text, truth, number, RawShare, one, is_storable_share,
}
use nodejs_pool.RemoteShare.Cache.{
  decimal, get_miner_id, ensure_cache_entry, change, apply_share_cache_updates, stats_entry,
}
use nodejs_pool.RemoteShare.Store.{
  Stored, refused, committed, Bytes, Database, merge_cache_entry, merge_entries, store_all,
  count_shares, first_updates, thrown, store_shares,
}
use nodejs_pool.RemoteShare.Totals.{total_at, total_at-count_shares}
use nodejs_pool.RemoteShare.Merges.{total_in, total_in-store_shares}

abbrev share : RawShare
share = record {
  payment_address = text "4A";
  identifier = text "rig";
  pool_type = number (pos 0);
  raw_shares = number (pos (5 * one));
  block_height = number (pos (7 * one));
  found_block = truth false;
  trusted_share = truth false;
  pool_id = number (pos one);
  block_diff = number (pos (100 * one));
  timestamp = number (pos (3 * one));
  payment_id = null;
  port = undefined;
  shares = undefined;
  shares2 = undefined;
  share_num = undefined;
}

abbrev other_port : RawShare
other_port = record share { port = number (pos (19_081 * one)) }

-- A height that is no key of the store.
abbrev too_high : RawShare
too_high = record share { block_height = number (pos (4_294_967_296 * one)) }

abbrev batch : List (Option RawShare)
batch = some share ∷ none ∷ some too_high ∷ some other_port ∷ []

abbrev encode : RawShare → Option Bytes
encode s = some (7 ∷ [])

abbrev no_port : String → Option ℕ
no_port s = none

abbrev stored : Database
stored = record { cache = ("global_stats2", some stats_entry) ∷ []; shares = [] }

is_storable_too_high : is_storable_share too_high ≡ false
unfolding is_storable_share
is_storable_too_high = refl

total_of_other_port :
    total_at "global_stats2_19081" (count_shares 18_081 "_18081" batch first_updates)
    ≡ pos (5 * one)
unfolding count_shares apply_share_cache_updates ensure_cache_entry change lookup assign ◌+ℤ◌
    is_storable_share get_miner_id decimal
total_of_other_port = refl

total_at-count_shares_example :
    total_at "global_stats2" (count_shares 18_081 "_18081" batch first_updates) ≡ pos (15 * one)
unfolding lookup ◌+ℤ◌ is_storable_share get_miner_id decimal
total_at-count_shares_example =
    total_at-count_shares "global_stats2" 18_081 "_18081" batch first_updates

-- Nothing is stored when an entry of the cache is no cache entry.
store_shares_unreadable :
    store_shares 18_081 none no_port encode
      (some batch)
      (record stored { cache = ("4A_rig", none) ∷ [] })
    ≡ thrown (record stored { cache = ("4A_rig", none) ∷ [] })
unfolding store_shares merge_entries merge_cache_entry store_all count_shares
    apply_share_cache_updates ensure_cache_entry change lookup assign ◌+ℤ◌ is_storable_share
    get_miner_id decimal
store_shares_unreadable = refl

-- The cache holds three hashes of the pool before.
abbrev counted : Database
counted = record {
  cache = ("global_stats2", some (record stats_entry { total_hashes = some (pos 3) })) ∷ [];
  shares = [];
}

abbrev after_batch : Database
after_batch = database_of (store_shares 18_081 none no_port encode (some batch) counted)
  where
    database_of : Stored → Database
    database_of refused = counted
    database_of (committed db) = db
    database_of (thrown db) = db

total_in-store_shares_example : total_in "global_stats2" after_batch ≡ pos (15 * one + 3)
unfolding store_shares merge_entries merge_cache_entry store_all count_shares
    apply_share_cache_updates ensure_cache_entry change lookup assign ◌+ℤ◌ is_storable_share
    get_miner_id decimal
total_in-store_shares_example =
    total_in-store_shares "global_stats2" 18_081 none no_port encode batch counted after_batch refl
