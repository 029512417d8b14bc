-- ===== src/RemoteShare/Distinct.antt =====
-- lib/remote_share/share_store.js: a batch has one counter for each key.
use nodejs_pool.Prelude.{
  ℕ, ◌≡◌, refl, false, Option, none, some, List, [], ◌∷◌, String, str_eq, str_eq_iff, lookup,
  assign, lookup-assign, ℤ, arith, Bool-cases, Option-cases, inl, inr,
}
use nodejs_pool.RemoteShare.Shares.{RawShare, Share, storable}
use nodejs_pool.RemoteShare.Cache.{
  CacheEntry, CacheUpdates, ensure_cache_entry, change, count_main, count_port, count_miner,
  apply_share_cache_updates,
}
use nodejs_pool.RemoteShare.Store.{count_share, count_shares}

-- Each key has one counter.
abbrev pub IsDistinct : CacheUpdates → Type 0
IsDistinct [] = Unit
IsDistinct ((k, e) ∷ m) = (lookup k m ≡ none) × IsDistinct m

assign-IsDistinct :
    (k : String) (e : CacheEntry) (m : CacheUpdates) → IsDistinct m → IsDistinct (assign k e m)
unfolding assign lookup
assign-IsDistinct k e [] d = (refl, d)
assign-IsDistinct k e ((j, f) ∷ m) d = elim (Bool-cases (str_eq k j)) [
  | inl q ↦ rw q d
  | inr q ↦ rw q (rw (lookup-assign k j e m, differ q) d.0, assign-IsDistinct k e m d.1)
]
  where
    differ : str_eq k j ≡ false → str_eq j k ≡ false
    differ q = ground (arith, str_eq_iff k j, str_eq_iff j k)

change-IsDistinct :
    (f : CacheEntry → CacheEntry) (k : String) (m : CacheUpdates)
    → IsDistinct m
    → IsDistinct (change f k m)
unfolding change
change-IsDistinct f k m d = assign-IsDistinct k _ m d

ensure_cache_entry-IsDistinct :
    (k : String) (e : CacheEntry) (m : CacheUpdates)
    → IsDistinct m
    → IsDistinct (ensure_cache_entry k e m)
unfolding ensure_cache_entry
ensure_cache_entry-IsDistinct k e m d = elim (Option-cases (lookup k m)) [
  | inl q ↦ rw q (assign-IsDistinct k e m d)
  | inr (f, q) ↦ rw q d
]

count_main-IsDistinct :
    (type_key : String) (v : ℕ) (o : Option String) (m : CacheUpdates)
    → IsDistinct m
    → IsDistinct (count_main type_key v o m)
count_main-IsDistinct type_key v (some s) m d = d
count_main-IsDistinct type_key v none m d =
    change-IsDistinct _ _ _
      (change-IsDistinct _ _ _ (change-IsDistinct _ _ _ (change-IsDistinct _ _ m d)))

count_port-IsDistinct :
    (type_key : String) (v : ℕ) (suffix : String) (m : CacheUpdates)
    → IsDistinct m
    → IsDistinct (count_port type_key v suffix m)
count_port-IsDistinct type_key v suffix m d = change-IsDistinct _ _ _ (
    change-IsDistinct _ _ _ (
      change-IsDistinct _ _ _ (
        change-IsDistinct _ _ _ (
          change-IsDistinct _ _ _ (
            change-IsDistinct _ _ _
              (ensure_cache_entry-IsDistinct _ _ _ (ensure_cache_entry-IsDistinct _ _ m d)))))))

count_miner-IsDistinct :
    (miner worker : String) (v : ℕ) (n : ℤ) (m : CacheUpdates)
    → IsDistinct m
    → IsDistinct (count_miner miner worker v n m)
count_miner-IsDistinct miner worker v n m d =
    change-IsDistinct _ _ _
      (change-IsDistinct _ _ _ (change-IsDistinct _ _ _ (change-IsDistinct _ _ m d)))

apply_share-IsDistinct :
    (daemon_port : ℕ) (suffix : String) (s : Share) (m : CacheUpdates)
    → IsDistinct m
    → IsDistinct (apply_share_cache_updates daemon_port suffix s m)
unfolding apply_share_cache_updates
apply_share-IsDistinct daemon_port suffix s m d = count_miner-IsDistinct _ _ _ _ _ (
    count_port-IsDistinct _ _ _ _ (
      count_main-IsDistinct _ _ _ _ (
        ensure_cache_entry-IsDistinct _ _ _ (
          ensure_cache_entry-IsDistinct _ _ _
            (ensure_cache_entry-IsDistinct _ _ _ (ensure_cache_entry-IsDistinct _ _ m d))))))

pub count_shares-IsDistinct :
    (daemon_port : ℕ) (suffix : String) (xs : List (Option RawShare)) (m : CacheUpdates)
    → IsDistinct m
    → IsDistinct (count_shares daemon_port suffix xs m)
unfolding count_shares
count_shares-IsDistinct daemon_port suffix [] m d = d
count_shares-IsDistinct daemon_port suffix (s ∷ xs) m d =
    count_shares-IsDistinct daemon_port suffix xs _ (one_share (storable s))
  where
    one_share : (o : Option Share) → IsDistinct (count_share daemon_port suffix o m)
    one_share none = d
    one_share (some t) = apply_share-IsDistinct daemon_port suffix t m d
