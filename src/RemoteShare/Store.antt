-- ===== src/RemoteShare/Store.antt =====
-- lib/remote_share/share_store.js: `createShareStore`, the transaction that merges the counters of a
-- batch into the cache and stores its shares. An entry of the cache that is no JSON or that
-- `isCacheEntry` refuses is `none`. What encodes a share is a parameter that may throw, and the stored
-- shares stand latest first.
use Prim.Native.String.{◌++◌}
use nodejs_pool.Prelude.{
  ℕ, str_eq, ◌/◌, Option, none, some, List, [], ◌∷◌, String, if◌then◌else◌, lookup, assign, ℤ, pos,
  ◌+ℤ◌,
}
use nodejs_pool.RemoteShare.Shares.{
  Value, undefined, null, RawShare, Share, one, amount_of, is_storable_share, storable,
}
use nodejs_pool.RemoteShare.Cache.{
  Round, reset, hashes, CacheEntry, or_none, round_or_zero, decimal, CacheUpdates, stats_entry,
  apply_share_cache_updates,
}

infixl 10 ◌>>=◌
abbrev pub ◌>>=◌ {ℓ κ} : {A : Type ℓ} {B : Type κ} → Option A → (A → Option B) → Option B
none >>= f = none
some a >>= f = f a

abbrev pub Bytes : Type 0
Bytes = List ℕ

pub record Database : Type 0 where
  pub cache : List (String × Option CacheEntry)
  pub shares : List (ℕ × Bytes)

abbrev pub merged_sum : Option ℤ → Option ℤ → Option ℤ
merged_sum cached none = cached
merged_sum cached (some z) = some (or_none cached +ℤ z)

abbrev pub merged_round : Option Round → Option Round → Option Round
merged_round cached none = cached
merged_round cached (some reset) = some (hashes (pos 0))
merged_round cached (some (hashes z)) = some (hashes (round_or_zero cached +ℤ z))

abbrev pub merged : CacheEntry → CacheEntry → CacheEntry
merged cached next = record {
  total_hashes = merged_sum cached.total_hashes next.total_hashes;
  good_shares = merged_sum cached.good_shares next.good_shares;
  round_hashes = merged_round cached.round_hashes next.round_hashes;
}

abbrev pub put_entry : String → CacheEntry → Database → Database
put_entry k e db = record db { cache = assign k (some e) db.cache }

abbrev pub merge_found :
    String → CacheEntry → Option (Option CacheEntry) → Database → Option Database
merge_found k next none db = some (put_entry k next db)
merge_found k next (some none) db = none
merge_found k next (some (some cached)) db = some (put_entry k (merged cached next) db)

-- `mergeCacheEntry`, with `none` for what it throws.
unfoldable pub merge_cache_entry : String → CacheEntry → Database → Option Database
merge_cache_entry k next db = merge_found k next (lookup k db.cache) db

unfoldable pub merge_entries : CacheUpdates → Database → Option Database
merge_entries [] db = some db
merge_entries ((k, next) ∷ m) db = do db' ← merge_cache_entry k next db; merge_entries m db'

-- A share without a payment ID is encoded without the field.
abbrev pub present : Value → Value
present null = undefined
present v = v

abbrev pub on_wire : RawShare → RawShare
on_wire s = record s { payment_id = present s.payment_id }

abbrev pub put_share : RawShare → Bytes → Database → Database
put_share s bytes db = record db { shares = (amount_of s.block_height / one, bytes) ∷ db.shares }

-- `portSuffix` of `defaultStatsPort`: the port of the coin that the main pool shows, if it has one.
abbrev pub port_or : ℕ → Option ℕ → ℕ
port_or daemon_port none = daemon_port
port_or daemon_port (some p) = p

abbrev pub default_stats_port : ℕ → Option String → (String → Option ℕ) → ℕ
default_stats_port daemon_port none coin_port = daemon_port
default_stats_port daemon_port (some coin) coin_port =
    if str_eq coin "" then daemon_port else port_or daemon_port (coin_port coin)

pub data Stored : Type 0 where
  refused : Stored
  committed : Database → Stored
  thrown : Database → Stored

abbrev pub end_txn : Database → Option Database → Stored
end_txn db none = thrown db
end_txn db (some db') = committed db'

module _ (encode : RawShare → Option Bytes) where
  abbrev pub store_share : RawShare → Database → Option Database
  store_share s db = do bytes ← encode (on_wire s); some (put_share s bytes db)

  -- What is not storable is passed over.
  abbrev pub store_message : Option RawShare → Database → Option Database
  store_message none db = some db
  store_message (some s) db = if is_storable_share s then store_share s db else some db

  unfoldable pub store_all : List (Option RawShare) → Database → Option Database
  store_all [] db = some db
  store_all (s ∷ xs) db = do db' ← store_message s db; store_all xs db'

module _ (daemon_port : ℕ) (default_suffix : String) where
  abbrev pub count_share : Option Share → CacheUpdates → CacheUpdates
  count_share none m = m
  count_share (some s) m = apply_share_cache_updates daemon_port default_suffix s m

  unfoldable pub count_shares : List (Option RawShare) → CacheUpdates → CacheUpdates
  count_shares [] m = m
  count_shares (s ∷ xs) m = count_shares xs (count_share (storable s) m)

abbrev pub first_updates : CacheUpdates
first_updates = ("global_stats2", stats_entry) ∷ []

module _ (daemon_port : ℕ) (dual_coin : Option String) (coin_port : String → Option ℕ)
    (encode : RawShare → Option Bytes) where
  abbrev pub default_suffix : String
  default_suffix = "_" ++ decimal 9 (default_stats_port daemon_port dual_coin coin_port)

  abbrev pub transaction : List (Option RawShare) → Database → Option Database
  transaction xs db = do
    db' ← merge_entries (count_shares daemon_port default_suffix xs first_updates) db
    store_all encode xs db'

  -- `storeShares`, whose argument is `none` when it is no array.
  unfoldable pub store_shares : Option (List (Option RawShare)) → Database → Stored
  store_shares none db = refused
  store_shares (some []) db = refused
  store_shares (some (s ∷ xs)) db = end_txn db (transaction (s ∷ xs) db)
