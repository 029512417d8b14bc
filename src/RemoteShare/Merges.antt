-- ===== src/RemoteShare/Merges.antt =====
-- lib/remote_share/share_store.js: the transaction brings the counters of a batch into the cache.
use nodejs_pool.Prelude.{
  ℕ, ◌≡◌, refl, sym, ap, ◌∙◌, false, Option, none, some, List, [], ◌∷◌, String, str_eq, str_eq_iff,
  lookup, lookup-assign, ℤ, pos, negsuc, ◌+ℤ◌, add-pos_zero, arith, Bool-cases, Option-cases, inl,
  inr, sum_by, ltb,
}
use nodejs_pool.RemoteShare.Shares.{RawShare, storable, is_storable_share}
use nodejs_pool.RemoteShare.Cache.{CacheEntry, CacheUpdates, or_none}
use nodejs_pool.RemoteShare.Store.{
  ◌>>=◌, Bytes, Database, merged_sum, merged, put_entry, merge_found, merge_cache_entry,
  merge_entries, store_message, store_all, count_shares, first_updates, committed, end_txn,
  default_suffix, store_shares, on_wire,
}
use nodejs_pool.RemoteShare.Totals.{total_of, total_at, part_of, total_at-count_shares}
use nodejs_pool.RemoteShare.Distinct.{IsDistinct, count_shares-IsDistinct}

-- The total hashes of a key in the cache.
abbrev pub total_found : Option (Option CacheEntry) → ℤ
total_found none = pos 0
total_found (some o) = total_of o

abbrev pub total_in : String → Database → ℤ
total_in k db = total_found (lookup k db.cache)

zero_add : (z : ℤ) → pos 0 +ℤ z ≡ z
unfolding ◌+ℤ◌
zero_add (pos a) = ap pos (omega arith)
zero_add (negsuc b) = elim (Bool-cases (ltb b 0)) [
  | inl e ↦ absurd (ground arith)
  | inr e ↦ rw e (ap negsuc (omega arith))
]

merged_sum-or_none : (c n : Option ℤ) → or_none (merged_sum c n) ≡ or_none c +ℤ or_none n
merged_sum-or_none c none = sym (add-pos_zero (or_none c))
merged_sum-or_none c (some z) = refl

some_injective : (db db' : Database) → some db ≡ some db' → db ≡ db'
some_injective db db' e = cc e

put_here :
    (k : String) (e : CacheEntry) (db : Database)
    → total_in k (put_entry k e db) ≡ or_none e.total_hashes
put_here k e db = rw (lookup-assign k k (some e) db.cache, (str_eq_iff k k).1 refl) refl

put_there :
    (k j : String) (e : CacheEntry) (db : Database)
    → str_eq k j ≡ false
    → total_in k (put_entry j e db) ≡ total_in k db
put_there k j e db q = rw (lookup-assign j k (some e) db.cache, q) refl

merged_here :
    (k : String) (next : CacheEntry) (o : Option (Option CacheEntry)) (db db' : Database)
    → merge_found k next o db ≡ some db'
    → total_in k db' ≡ total_found o +ℤ or_none next.total_hashes
merged_here k next none db db' e =
    ap (total_in k) (sym (some_injective _ db' e))
    ∙ (put_here k next db ∙ sym (zero_add (or_none next.total_hashes)))
merged_here k next (some none) db db' e = absurd (cc e)
merged_here k next (some (some c)) db db' e =
    ap (total_in k) (sym (some_injective _ db' e))
    ∙ (put_here k (merged c next) db ∙ merged_sum-or_none c.total_hashes next.total_hashes)

merged_there :
    (k j : String) (next : CacheEntry) (o : Option (Option CacheEntry)) (db db' : Database)
    → str_eq k j ≡ false
    → merge_found j next o db ≡ some db'
    → total_in k db' ≡ total_in k db
merged_there k j next none db db' q e =
    ap (total_in k) (sym (some_injective _ db' e)) ∙ put_there k j next db q
merged_there k j next (some none) db db' q e = absurd (cc e)
merged_there k j next (some (some c)) db db' q e =
    ap (total_in k) (sym (some_injective _ db' e)) ∙ put_there k j (merged c next) db q

bound :
    (o : Option Database) (f : Database → Option Database) (db' : Database)
    → o >>= f ≡ some db'
    → (db : Database) × (o ≡ some db) × (f db ≡ some db')
bound none f db' e = absurd (cc e)
bound (some db) f db' e = (db, refl, e)

-- A key without a counter keeps its total.
kept_there :
    (k : String) (m : CacheUpdates) (db db' : Database)
    → lookup k m ≡ none
    → merge_entries m db ≡ some db'
    → total_in k db' ≡ total_in k db
unfolding merge_entries merge_cache_entry lookup
kept_there k [] db db' h e = ap (total_in k) (sym (some_injective db db' e))
kept_there k ((j, next) ∷ m) db db' h e = elim (Bool-cases (str_eq k j)) [
  | inl q ↦ absurd (cc (rw q at h))
  | inr q ↦
      let b = bound (merge_found j next (lookup j db.cache) db) (merge_entries m) db' e in
      kept_there k m b.0 db' (rw q at h) b.2
      ∙ merged_there k j next (lookup j db.cache) db b.0 q b.1
]

total_in-merge_entries :
    (k : String) (m : CacheUpdates) (db db' : Database)
    → IsDistinct m
    → merge_entries m db ≡ some db'
    → total_in k db' ≡ total_in k db +ℤ total_at k m
unfolding merge_entries merge_cache_entry lookup
total_in-merge_entries k [] db db' d e =
    ap (total_in k) (sym (some_injective db db' e)) ∙ sym (add-pos_zero (total_in k db))
total_in-merge_entries k ((j, next) ∷ m) db db' d e =
    let b = bound (merge_found j next (lookup j db.cache) db) (merge_entries m) db' e in
    elim (Bool-cases (str_eq k j)) [
      | inl q ↦
          rw (q, (str_eq_iff k j).0 q)
            (kept_there j m b.0 db' d.0 b.2 ∙ merged_here j next (lookup j db.cache) db b.0 b.1)
      | inr q ↦ rw q (
          total_in-merge_entries k m b.0 db' d.1 b.2
          ∙ ap (λ z. z +ℤ total_at k m) (merged_there k j next (lookup j db.cache) db b.0 q b.1))
    ]

store_message-cache :
    (encode : RawShare → Option Bytes) (s : Option RawShare) (db db' : Database)
    → store_message encode s db ≡ some db'
    → db'.cache ≡ db.cache
store_message-cache encode none db db' e = ap (λ d. d.cache) (sym (some_injective db db' e))
store_message-cache encode (some s) db db' e = elim (Bool-cases (is_storable_share s)) [
  | inl q ↦ elim (Option-cases (encode (on_wire s))) [
    | inl r ↦ absurd (cc (rw (q, r) at e))
    | inr (b, r) ↦ ap (λ d. d.cache) (sym (some_injective _ db' (rw (q, r) at e)))
  ]
  | inr q ↦ ap (λ d. d.cache) (sym (some_injective db db' (rw q at e)))
]

store_all-cache :
    (encode : RawShare → Option Bytes) (xs : List (Option RawShare)) (db db' : Database)
    → store_all encode xs db ≡ some db'
    → db'.cache ≡ db.cache
unfolding store_all
store_all-cache encode [] db db' e = ap (λ d. d.cache) (sym (some_injective db db' e))
store_all-cache encode (s ∷ xs) db db' e =
    let b = bound (store_message encode s db) (store_all encode xs) db' e in
    store_all-cache encode xs b.0 db' b.2 ∙ store_message-cache encode s db b.0 b.1

-- A counter that no share has reached yet is zero.
first_total : (k : String) → total_at k first_updates ≡ pos 0
unfolding lookup
first_total k = elim (Bool-cases (str_eq k "global_stats2")) [
  | inl q ↦ rw q refl
  | inr q ↦ rw q refl
]

first_add : (k : String) (n : ℕ) → total_at k first_updates +ℤ pos n ≡ pos n
first_add k n = rw (first_total k) (zero_add (pos n))

first_updates-IsDistinct : IsDistinct first_updates
unfolding lookup
first_updates-IsDistinct = (refl, tt)

transaction_of :
    (db db' : Database) (o : Option Database) → end_txn db o ≡ committed db' → o ≡ some db'
transaction_of db db' none e = absurd (cc e)
transaction_of db db' (some db'') e = ap some (cc e)

-- When the storage of a batch is committed, the total hashes of every key of the cache have grown by
-- the sum of what the storable shares of the batch count for the key, whatever the cache held before:
-- an entry, no entry, or an entry without total hashes.
pub total_in-store_shares :
    (k : String) (daemon_port : ℕ) (dual_coin : Option String) (coin_port : String → Option ℕ)
    (encode : RawShare → Option Bytes) (xs : List (Option RawShare)) (db db' : Database)
    → store_shares daemon_port dual_coin coin_port encode (some xs) db ≡ committed db'
    → total_in k db'
      ≡ total_in k db
        +ℤ pos (
            sum_by
              (λ s.
                part_of k daemon_port
                  (default_suffix daemon_port dual_coin coin_port encode)
                  (storable s))
              xs)
unfolding store_shares
total_in-store_shares k daemon_port dual_coin coin_port encode [] db db' e = absurd (cc e)
total_in-store_shares k daemon_port dual_coin coin_port encode (s ∷ xs) db db' e =
    let suffix = default_suffix daemon_port dual_coin coin_port encode in
    let updates = count_shares daemon_port suffix (s ∷ xs) first_updates in
    let b =
      bound (merge_entries updates db) (store_all encode (s ∷ xs)) db'
        (transaction_of db db' _ e) in
    ap (λ c. total_found (lookup k c)) (store_all-cache encode (s ∷ xs) b.0 db' b.2)
    ∙ (total_in-merge_entries k updates db b.0
          (count_shares-IsDistinct daemon_port suffix (s ∷ xs) first_updates
            first_updates-IsDistinct)
          b.1
        ∙ ap (λ z. total_in k db +ℤ z)
            (total_at-count_shares k daemon_port suffix (s ∷ xs) first_updates ∙ first_add k _))
