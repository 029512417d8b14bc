-- ===== src/RemoteShare/Totals.antt =====
-- What a batch of shares adds to the total hashes of a key, against the list of a share's parts.
use Prim.Native.String.{◌++◌}
use nodejs_pool.Prelude.{
  ℕ, ◌+◌, ◌≡◌, refl, sym, ap, ◌∙◌, Option, none, some, List, [], ◌∷◌, String, str_eq, str_eq_iff,
  if◌then◌else◌, lookup, assign, lookup-assign, sum_by, ℤ, pos, ◌+ℤ◌, add-pos, add-pos_zero,
  Bool-cases, Option-cases, inl, inr,
}
use nodejs_pool.RemoteShare.Shares.{RawShare, Share, storable}
use nodejs_pool.RemoteShare.Store.{count_share, count_shares}
use nodejs_pool.RemoteShare.Cache.{
  CacheEntry, CacheUpdates, or_none, get_miner_id, ensure_cache_entry, stats_entry, miner_entry,
  entry_or, change, add_total_hashes, add_round_hashes, add_good_shares, own_suffix, count_main,
  suffix_or, count_port, count_miner, pool_type_str, apply_share_cache_updates,
}

abbrev pub total_of : Option CacheEntry → ℤ
total_of none = pos 0
total_of (some e) = or_none e.total_hashes

-- The total hashes that are counted under a key.
abbrev pub total_at : String → CacheUpdates → ℤ
total_at k m = total_of (lookup k m)

abbrev pub part_at : String → String → ℕ → ℕ
part_at k j v = if str_eq k j then v else 0

written :
    (k j : String) (e : CacheEntry) (v : ℕ) (m : CacheUpdates)
    → or_none e.total_hashes ≡ total_at j m +ℤ pos v
    → total_at k (assign j e m) ≡ total_at k m +ℤ pos (part_at k j v)
written k j e v m h = rw (lookup-assign j k e m) elim (Bool-cases (str_eq k j)) [
  | inl q ↦ rw (q, (str_eq_iff k j).0 q) h
  | inr q ↦ rw q (sym (add-pos_zero (total_at k m)))
]

entry_or-total :
    (o : Option CacheEntry) → or_none (entry_or stats_entry o).total_hashes ≡ total_of o
entry_or-total none = refl
entry_or-total (some e) = refl

total-change :
    (k j : String) (v : ℕ) (m : CacheUpdates)
    → total_at k (change (add_total_hashes v) j m) ≡ total_at k m +ℤ pos (part_at k j v)
unfolding change
total-change k j v m =
    written k j (add_total_hashes v (entry_or stats_entry (lookup j m))) v m
      (ap (λ z. z +ℤ pos v) (entry_or-total (lookup j m)))

add_nothing : (k j : String) (z : ℤ) → z +ℤ pos (part_at k j 0) ≡ z
add_nothing k j z = elim (Bool-cases (str_eq k j)) [
  | inl q ↦ rw q (add-pos_zero z)
  | inr q ↦ rw q (add-pos_zero z)
]

-- A write of another counter.
kept :
    (k j : String) (f : CacheEntry → CacheEntry) (m : CacheUpdates)
    → ((e : CacheEntry) → (f e).total_hashes ≡ e.total_hashes)
    → total_at k (change f j m) ≡ total_at k m
unfolding change
kept k j f m h =
    written k j (f (entry_or stats_entry (lookup j m))) 0 m (
      ap or_none (h (entry_or stats_entry (lookup j m)))
      ∙ (entry_or-total (lookup j m) ∙ sym (add-pos_zero (total_at j m))))
    ∙ add_nothing k j (total_at k m)

ensured :
    (k j : String) (e : CacheEntry) (m : CacheUpdates)
    → or_none e.total_hashes ≡ pos 0
    → total_at k (ensure_cache_entry j e m) ≡ total_at k m
unfolding ensure_cache_entry
ensured k j e m h = elim (Option-cases (lookup j m)) [
  | inl q ↦ rw q (
      written k j e 0 m (h ∙ sym (ap (λ o. total_of o +ℤ pos 0) q ∙ add-pos_zero (pos 0)))
      ∙ add_nothing k j (total_at k m))
  | inr (f, q) ↦ rw q refl
]

-- Between two states of the counters, the total of a key grew by a number.
Adds : String → ℕ → CacheUpdates → CacheUpdates → Type 0
Adds k n m m' = total_at k m' ≡ total_at k m +ℤ pos n

module _ (k : String) where
  Adds-trans : (a b : ℕ) (x y z : CacheUpdates) → Adds k a x y → Adds k b y z → Adds k (a + b) x z
  unfolding Adds
  Adds-trans a b x y z f g = g ∙ (ap (λ s. s +ℤ pos b) f ∙ add-pos (total_at k x) a b)

  Adds-then :
      (a : ℕ) (x y z : CacheUpdates) → Adds k a x y → total_at k z ≡ total_at k y → Adds k a x z
  unfolding Adds
  Adds-then a x y z f e = e ∙ f

  -- The parts of the total hashes that the three steps add for a key.
  abbrev pub main_part : String → ℕ → Option String → ℕ
  main_part type_key v (some suffix) = 0
  main_part type_key v none = part_at k "global_stats2" v + part_at k type_key v

  abbrev pub port_part : String → ℕ → String → ℕ
  port_part type_key v suffix =
      part_at k "global_stats2" v
      + part_at k ("global_stats2" ++ suffix) v
      + part_at k type_key v
      + part_at k (type_key ++ suffix) v

  abbrev pub miner_part : String → String → ℕ → ℕ
  miner_part miner worker v = part_at k miner v + part_at k worker v

  count_main-Adds :
      (type_key : String) (v : ℕ) (o : Option String) (m : CacheUpdates)
      → Adds k (main_part type_key v o) m (count_main type_key v o m)
  unfolding Adds
  count_main-Adds type_key v (some suffix) m = sym (add-pos_zero (total_at k m))
  count_main-Adds type_key v none m =
      kept k type_key (add_round_hashes v) _ (λ e. refl)
      ∙ (total-change k type_key v _
          ∙ (ap (λ z. z +ℤ pos (part_at k type_key v))
                (kept k "global_stats2" (add_round_hashes v) _ (λ e. refl)
                  ∙ total-change k "global_stats2" v m)
              ∙ add-pos (total_at k m) (part_at k "global_stats2" v) (part_at k type_key v)))

  count_miner-Adds :
      (miner worker : String) (v : ℕ) (n : ℤ) (m : CacheUpdates)
      → Adds k (miner_part miner worker v) m (count_miner miner worker v n m)
  unfolding Adds
  count_miner-Adds miner worker v n m =
      kept k worker (add_good_shares n) _ (λ e. refl)
      ∙ (total-change k worker v _
          ∙ (ap (λ z. z +ℤ pos (part_at k worker v))
                (kept k miner (add_good_shares n) _ (λ e. refl) ∙ total-change k miner v m)
              ∙ add-pos (total_at k m) (part_at k miner v) (part_at k worker v)))

  change-Adds :
      (j : String) (v a : ℕ) (x y : CacheUpdates)
      → Adds k a x y
      → Adds k (a + part_at k j v) x (change (add_total_hashes v) j y)
  unfolding Adds
  change-Adds j v a x y f =
      total-change k j v y
      ∙ (ap (λ z. z +ℤ pos (part_at k j v)) f ∙ add-pos (total_at k x) a (part_at k j v))

  round-Adds :
      (j : String) (v a : ℕ) (x y : CacheUpdates)
      → Adds k a x y
      → Adds k a x (change (add_round_hashes v) j y)
  round-Adds j v a x y f = Adds-then a x y _ f (kept k j (add_round_hashes v) y (λ e. refl))

  first-Adds :
      (j : String) (v : ℕ) (x y : CacheUpdates)
      → total_at k y ≡ total_at k x
      → Adds k (part_at k j v) x (change (add_total_hashes v) j y)
  unfolding Adds
  first-Adds j v x y e = total-change k j v y ∙ ap (λ z. z +ℤ pos (part_at k j v)) e

  Adds-after :
      (a : ℕ) (x y z : CacheUpdates) → total_at k y ≡ total_at k x → Adds k a y z → Adds k a x z
  unfolding Adds
  Adds-after a x y z e f = f ∙ ap (λ w. w +ℤ pos a) e

  count_port-Adds :
      (type_key : String) (v : ℕ) (suffix : String) (m : CacheUpdates)
      → Adds k (port_part type_key v suffix) m (count_port type_key v suffix m)
  count_port-Adds type_key v suffix m = round-Adds (type_key ++ suffix) v _ m _ (
      change-Adds (type_key ++ suffix) v _ m _ (
        change-Adds type_key v _ m _ (
          round-Adds ("global_stats2" ++ suffix) v _ m _ (
            change-Adds ("global_stats2" ++ suffix) v _ m _ (
              first-Adds "global_stats2" v m _ (
                ensured k (type_key ++ suffix) stats_entry _ refl
                ∙ ensured k ("global_stats2" ++ suffix) stats_entry m refl))))))

  -- What a share adds to the total hashes of the key.
  abbrev pub share_part : ℕ → String → Share → ℕ
  share_part daemon_port default_suffix s =
      let suffix = own_suffix daemon_port s.port in
      let type_key = pool_type_str s.pool_type ++ "_stats2" in
      main_part type_key s.raw_shares suffix
      + port_part type_key s.raw_shares (suffix_or default_suffix suffix)
      + miner_part (get_miner_id s) (get_miner_id s ++ "_" ++ s.identifier) s.raw_shares

  apply_share-Adds :
      (daemon_port : ℕ) (default_suffix : String) (s : Share) (m : CacheUpdates)
      → Adds k
          (share_part daemon_port default_suffix s)
          m
          (apply_share_cache_updates daemon_port default_suffix s m)
  unfolding apply_share_cache_updates
  apply_share-Adds daemon_port default_suffix s m =
      Adds-after _ m _ _
        (ensured k _ stats_entry _ refl
          ∙ (ensured k _ miner_entry _ refl
              ∙ (ensured k _ miner_entry _ refl ∙ ensured k _ stats_entry m refl)))
        (Adds-trans _ _ _ _ _
          (Adds-trans _ _ _ _ _ (count_main-Adds _ _ _ _) (count_port-Adds _ _ _ _))
          (count_miner-Adds _ _ _ _ _))

  abbrev pub part_of : ℕ → String → Option Share → ℕ
  part_of daemon_port default_suffix none = 0
  part_of daemon_port default_suffix (some s) = share_part daemon_port default_suffix s

  count_share-Adds :
      (daemon_port : ℕ) (default_suffix : String) (o : Option Share) (m : CacheUpdates)
      → Adds k (part_of daemon_port default_suffix o) m (count_share daemon_port default_suffix o m)
  unfolding Adds
  count_share-Adds daemon_port default_suffix none m = sym (add-pos_zero (total_at k m))
  count_share-Adds daemon_port default_suffix (some s) m =
      apply_share-Adds daemon_port default_suffix s m

  count_shares-Adds :
      (daemon_port : ℕ) (default_suffix : String) (xs : List (Option RawShare)) (m : CacheUpdates)
      → Adds k
          (sum_by (λ s. part_of daemon_port default_suffix (storable s)) xs)
          m
          (count_shares daemon_port default_suffix xs m)
  unfolding Adds count_shares
  count_shares-Adds daemon_port default_suffix [] m = sym (add-pos_zero (total_at k m))
  count_shares-Adds daemon_port default_suffix (s ∷ xs) m =
      Adds-trans _ _ m _ _ (count_share-Adds daemon_port default_suffix (storable s) m)
        (count_shares-Adds daemon_port default_suffix xs _)

-- A batch of messages adds to the total hashes of every key the sum of the parts of its storable
-- shares: the amount twice for the pool and for the type of the share when the share is for the main
-- port and once when it is for another port, once for the two keys of the port, once for the miner and
-- once for the worker. A message that is not storable adds nothing.
pub total_at-count_shares :
    (k : String) (daemon_port : ℕ) (default_suffix : String) (xs : List (Option RawShare))
    (m : CacheUpdates)
    → total_at k (count_shares daemon_port default_suffix xs m)
      ≡ total_at k m +ℤ pos (sum_by (λ s. part_of k daemon_port default_suffix (storable s)) xs)
unfolding Adds
total_at-count_shares k daemon_port default_suffix xs m =
    count_shares-Adds k daemon_port default_suffix xs m
