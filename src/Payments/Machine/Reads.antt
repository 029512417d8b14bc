-- ===== src/Payments/Machine/Reads.antt =====
-- The searches of the wallet write nothing themselves.
use nodejs_pool.Prelude.{
  ℕ, zero, suc, Bool, true, false, refl, Option, none, some, List, [], ◌∷◌, keep_if, Bool-cases,
  inl, inr,
}
use nodejs_pool.Payments.Store.{Store, Item, Batch}
use nodejs_pool.Payments.Matching.{Transfer, transfer_matches_batch}
use nodejs_pool.Payments.Runtime.{Env, M, pure, ◌>>=◌, await}
use nodejs_pool.Payments.Processor.Search.{
  tx_key_result, transfers_result, txid_result, WalletLoad, loaded, tx_not_found,
  tx_lookup_unavailable, resolve_tx_key, list_transfers, if_height, load_wallet_transfers,
  load_wallet_transfer_by_tx_hash, or_by_list, load_submitted_transfers_by_tx_hash, one_match,
  among, among_loaded, find_wallet_transfer_match, visibility_with,
  find_submitted_transfer_visibility, sleep, search_again, retry_post_submit_search,
  find_wallet_transfer_match_after_submit, find_submitted_transfer_visibility_after_submit,
  search_match, search_visibility, has_plausible_wallet_fee, with_key, visibility_of, with_hash,
  match_pending, visibility_pending,
}
use nodejs_pool.Payments.Machine.{Steps}
use nodejs_pool.Payments.Machine.Moves.{Goes-refl, Reads, Reads-bind, await-Reads}

module _ (env : Env) (rely : (n : ℕ) (s : Store) → Steps s (env.others n s)) where
  pub resolve_tx_key-Reads : Reads (resolve_tx_key env)
  unfolding resolve_tx_key
  resolve_tx_key-Reads = await-Reads env rely (λ n. tx_key_result (env.tx_key n))

  list_transfers-Reads : Reads (list_transfers env)
  unfolding list_transfers
  list_transfers-Reads = await-Reads env rely (λ n. transfers_result (env.transfers n))

  if_height-Reads : (h : Option ℕ) → Reads (if_height env h)
  if_height-Reads none = λ w. (Goes-refl w, refl)
  if_height-Reads (some h) = list_transfers-Reads

  load_wallet_transfers-Reads : (filter : Bool) → Reads (load_wallet_transfers env filter)
  unfolding load_wallet_transfers
  load_wallet_transfers-Reads true =
      Reads-bind (await env env.height) (if_height env) (await-Reads env rely env.height)
        if_height-Reads
  load_wallet_transfers-Reads false = list_transfers-Reads

  or_by_list-Reads : (hash : ℕ) (load : WalletLoad) → Reads (or_by_list env hash load)
  or_by_list-Reads hash tx_lookup_unavailable =
      Reads-bind (load_wallet_transfers env false) (λ load. pure (with_hash hash load))
        (load_wallet_transfers-Reads false) (λ load w. (Goes-refl w, refl))
  or_by_list-Reads hash WalletLoad.unavailable = λ w. (Goes-refl w, refl)
  or_by_list-Reads hash tx_not_found = λ w. (Goes-refl w, refl)
  or_by_list-Reads hash (loaded ts) = λ w. (Goes-refl w, refl)

  load_submitted-Reads : (hash : ℕ) → Reads (load_submitted_transfers_by_tx_hash env hash)
  unfolding load_submitted_transfers_by_tx_hash load_wallet_transfer_by_tx_hash
  load_submitted-Reads hash =
      Reads-bind (load_wallet_transfer_by_tx_hash env) (or_by_list env hash)
        (await-Reads env rely (λ n. txid_result (env.by_txid n))) (or_by_list-Reads hash)

  one_match-Reads : (hash fee : Option ℕ) → Reads (one_match env hash fee)
  one_match-Reads none fee = λ w. (Goes-refl w, refl)
  one_match-Reads (some hash) none = λ w. (Goes-refl w, refl)
  one_match-Reads (some hash) (some fee) = elim (Bool-cases (has_plausible_wallet_fee (some fee))) [
    | inl e ↦ rw e (
        Reads-bind (resolve_tx_key env) (λ r. pure (with_key fee hash r)) resolve_tx_key-Reads
          (λ r w. (Goes-refl w, refl)))
    | inr e ↦ rw e (λ w. (Goes-refl w, refl))
  ]

  among-Reads : (ts : List Transfer) → Reads (among env ts)
  among-Reads [] = λ w. (Goes-refl w, refl)
  among-Reads (t ∷ []) = one_match-Reads t.txid t.fee
  among-Reads (t ∷ u ∷ ts) = λ w. (Goes-refl w, refl)

  among_loaded-Reads :
      (b : Batch) (items : List Item) (load : WalletLoad) → Reads (among_loaded env b items load)
  among_loaded-Reads b items (loaded ts) = among-Reads (keep_if (transfer_matches_batch b items) ts)
  among_loaded-Reads b items WalletLoad.unavailable = λ w. (Goes-refl w, refl)
  among_loaded-Reads b items tx_not_found = λ w. (Goes-refl w, refl)
  among_loaded-Reads b items tx_lookup_unavailable = λ w. (Goes-refl w, refl)

  find_wallet_transfer_match-Reads :
      (items : List Item) → Reads (find_wallet_transfer_match env items)
  unfolding find_wallet_transfer_match
  find_wallet_transfer_match-Reads items w =
      Reads-bind (load_wallet_transfers env true) (among_loaded env w.mem items)
        (load_wallet_transfers-Reads true) (among_loaded-Reads w.mem items) w

  visibility_with-Reads :
      (b : Batch) (items : List Item) (hash : Option ℕ) → Reads (visibility_with env b items hash)
  visibility_with-Reads b items none = λ w. (Goes-refl w, refl)
  visibility_with-Reads b items (some hash) =
      Reads-bind (load_submitted_transfers_by_tx_hash env hash)
        (λ load. pure (visibility_of hash b items load)) (load_submitted-Reads hash)
        (λ load w. (Goes-refl w, refl))

  find_submitted-Reads : (items : List Item) → Reads (find_submitted_transfer_visibility env items)
  unfolding find_submitted_transfer_visibility
  find_submitted-Reads items w = visibility_with-Reads w.mem items w.mem.tx_hash w

  sleep-Reads : Reads (sleep env)
  sleep-Reads = await-Reads env rely (λ n. tt)

  search_again-Reads :
      {R : Type 0} (delays : ℕ) (search : M R) (again : R → Bool) (r : R)
      → Reads search
      → Reads (search_again env delays search again r)
  unfolding search_again
  search_again-Reads zero search again r h w = (Goes-refl w, refl)
  search_again-Reads (suc delays) search again r h w = elim (Bool-cases (again r)) [
    | inl e ↦
        rw (e, search_again)
          (Reads-bind (sleep env) (λ _. search >>= search_again env delays search again) sleep-Reads
            (λ _.
              Reads-bind search (search_again env delays search again) h
                (λ r'. search_again-Reads delays search again r' h))
            w)
    | inr e ↦ rw (e, search_again) (Goes-refl w, refl)
  ]

  retry-Reads :
      {R : Type 0} (search : M R) (again : R → Bool)
      → Reads search
      → Reads (retry_post_submit_search env search again)
  unfolding retry_post_submit_search
  retry-Reads search again h =
      Reads-bind (sleep env) (λ _. search >>= search_again env 4 search again) sleep-Reads
        (λ _.
          Reads-bind search (search_again env 4 search again) h
            (λ r. search_again-Reads 4 search again r h))

  pub search_match-Reads : (post : Bool) (items : List Item) → Reads (search_match env post items)
  unfolding search_match find_wallet_transfer_match_after_submit
  search_match-Reads true items =
      retry-Reads (find_wallet_transfer_match env items) (match_pending env)
        (find_wallet_transfer_match-Reads items)
  search_match-Reads false items = find_wallet_transfer_match-Reads items

  pub search_visibility-Reads :
      (post : Bool) (items : List Item) → Reads (search_visibility env post items)
  unfolding search_visibility find_submitted_transfer_visibility_after_submit
  search_visibility-Reads true items =
      retry-Reads (find_submitted_transfer_visibility env items) (visibility_pending env)
        (find_submitted-Reads items)
  search_visibility-Reads false items = find_submitted-Reads items
