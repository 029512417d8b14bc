-- ===== src/RemoteShare/Commits.antt =====
-- lib/remote_share/share_store.js: when a batch of shares is committed, and what its transaction stores.
use nodejs_pool.Prelude.{
  ℕ, ◌≡◌, Bool, true, false, Option, none, some, List, [], ◌∷◌, String, length,
}
use nodejs_pool.RemoteShare.Shares.{RawShare, is_storable_share}
use nodejs_pool.RemoteShare.Cache.{CacheEntry}
use nodejs_pool.RemoteShare.Store.{Database, Stored, committed}

-- Every entry of the cache parses as a cache entry.
abbrev pub all_readable : List (String × Option CacheEntry) → Bool
all_readable [] = true
all_readable ((k, none) ∷ m) = false
all_readable ((k, some e) ∷ m) = all_readable m

-- The transaction goes on with a readable cache and a number of stored shares.
abbrev pub GoesOn : Option Database → ℕ → Type 0
GoesOn o n =
    (db : Database) × (o ≡ some db) × (all_readable db.cache ≡ true) × (length db.shares ≡ n)

abbrev pub is_storable : Option RawShare → Bool
is_storable none = false
is_storable (some s) = is_storable_share s

-- The batch was committed with a number of stored shares, and its cache is readable.
unfoldable pub IsCommitted : ℕ → Stored → Type 0
IsCommitted n r =
    (db : Database) × (r ≡ committed db) × (all_readable db.cache ≡ true) × (length db.shares ≡ n)
