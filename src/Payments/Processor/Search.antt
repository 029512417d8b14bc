-- ===== src/Payments/Processor/Search.antt =====
-- lib/payments/processor.js: what the wallet says of a batch. A wallet without a plausible answer
-- is `unavailable`; a fee is plausible above 10 atomic units.
use nodejs_pool.Prelude.{
  ℕ, zero, suc, Bool, true, false, Option, none, some, List, [], ◌∷◌, ◌++◌, ◌==◌, ltb, ◌&&◌, ◌||◌,
  not, if◌then◌else◌, keep_if,
}
use nodejs_pool.Payments.Store.{Batch, Item}
use nodejs_pool.Payments.Matching.{Transfer, TransferType, other, transfer_matches_batch}
use nodejs_pool.Payments.Runtime.{
  Env, M, pure, ◌>>=◌, ◌>>◌, await, TxKeyReply, unreachable, refused, key, TransfersReply,
  TxidReply, not_found_error, empty_error, found, listed,
}

pub data TxKeyResult : Type 0 where
  retry missing : TxKeyResult
  ok : ℕ → TxKeyResult

pub data WalletLoad : Type 0 where
  unavailable tx_not_found tx_lookup_unavailable : WalletLoad
  loaded : List Transfer → WalletLoad

-- The fee, the hash and the key of a match.
pub data MatchResult : Type 0 where
  multiple_matches no_match incomplete_match unavailable : MatchResult
  matched_waiting_tx_key matched_missing_tx_key : ℕ → ℕ → MatchResult
  matched : ℕ → ℕ → ℕ → MatchResult

pub data Visibility : Type 0 where
  visible unavailable not_found : Visibility

unfoldable pub has_plausible_wallet_fee : Option ℕ → Bool
has_plausible_wallet_fee none = false
has_plausible_wallet_fee (some fee) = ltb 10 fee

abbrev pub tx_key_result : TxKeyReply → TxKeyResult
tx_key_result unreachable = retry
tx_key_result refused = missing
tx_key_result (key none) = missing
tx_key_result (key (some k)) = ok k

-- The heights only bound what the wallet lists.
abbrev pub transfers_result : TransfersReply → WalletLoad
transfers_result TransfersReply.failed = WalletLoad.unavailable
transfers_result (listed sent waiting pooled) = loaded (sent ++ (waiting ++ pooled))

abbrev pub load_or_missing : List Transfer → WalletLoad
load_or_missing [] = tx_not_found
load_or_missing (t ∷ ts) = loaded (t ∷ ts)

abbrev pub txid_result : TxidReply → WalletLoad
txid_result not_found_error = tx_not_found
txid_result empty_error = tx_lookup_unavailable
txid_result TxidReply.failed = WalletLoad.unavailable
txid_result (found ts) = load_or_missing ts

abbrev pub hash_is : ℕ → Transfer → Bool
hash_is hash t = elim t.txid [ none ↦ false | some h ↦ h == hash ]

abbrev pub with_hash : ℕ → WalletLoad → WalletLoad
with_hash hash (loaded ts) = load_or_missing (keep_if (hash_is hash) ts)
with_hash hash load = load

-- The outcome of one exact match, but for its key.
abbrev pub with_key : ℕ → ℕ → TxKeyResult → MatchResult
with_key fee hash retry = matched_waiting_tx_key fee hash
with_key fee hash missing = matched_missing_tx_key fee hash
with_key fee hash (ok k) = matched fee hash k

-- `isReconcilableSubmittedTransfer`.
abbrev pub is_outgoing : TransferType → Bool
is_outgoing other = false
is_outgoing _ = true

abbrev pub is_reconcilable_submitted_transfer : Transfer → Bool
is_reconcilable_submitted_transfer t = is_outgoing t.transfer_type && not t.double_spend_seen

unfoldable pub any_visible : ℕ → Batch → List Item → List Transfer → Bool
any_visible hash b items [] = false
any_visible hash b items (t ∷ ts) =
    (is_reconcilable_submitted_transfer t && (hash_is hash t && transfer_matches_batch b items t))
    || any_visible hash b items ts

abbrev pub visibility_of : ℕ → Batch → List Item → WalletLoad → Visibility
visibility_of hash b items (loaded ts) = if any_visible hash b items ts then visible else not_found
visibility_of hash b items tx_not_found = not_found
visibility_of hash b items _ = Visibility.unavailable

module _ (env : Env) where
  unfoldable pub resolve_tx_key : M TxKeyResult
  unfolding await
  resolve_tx_key = await env λ n. tx_key_result (env.tx_key n)

  unfoldable pub list_transfers : M WalletLoad
  unfolding await
  list_transfers = await env λ n. transfers_result (env.transfers n)

  abbrev pub if_height : Option ℕ → M WalletLoad
  if_height none = pure WalletLoad.unavailable
  if_height (some h) = list_transfers

  -- `loadWalletTransfers`; without a filter by height the first call is left out.
  unfoldable pub load_wallet_transfers : Bool → M WalletLoad
  unfolding await
  load_wallet_transfers true = await env env.height >>= if_height
  load_wallet_transfers false = list_transfers

  unfoldable pub load_wallet_transfer_by_tx_hash : M WalletLoad
  unfolding await
  load_wallet_transfer_by_tx_hash = await env λ n. txid_result (env.by_txid n)

  abbrev pub or_by_list : ℕ → WalletLoad → M WalletLoad
  or_by_list hash tx_lookup_unavailable = do
    fallback ← load_wallet_transfers false
    pure (with_hash hash fallback)
  or_by_list hash load = pure load

  unfoldable pub load_submitted_transfers_by_tx_hash : ℕ → M WalletLoad
  load_submitted_transfers_by_tx_hash hash = load_wallet_transfer_by_tx_hash >>= or_by_list hash

  -- One exact match is needed; its hash and fee must be usable before its key is looked up.
  abbrev pub one_match : Option ℕ → Option ℕ → M MatchResult
  one_match none fee = pure incomplete_match
  one_match (some hash) none = pure incomplete_match
  one_match (some hash) (some fee) =
      if has_plausible_wallet_fee (some fee)
      then (resolve_tx_key >>= λ r. pure (with_key fee hash r))
      else pure incomplete_match

  abbrev pub among : List Transfer → M MatchResult
  among [] = pure no_match
  among (t ∷ []) = one_match t.txid t.fee
  among (t ∷ u ∷ ts) = pure multiple_matches

  abbrev pub among_loaded : Batch → List Item → WalletLoad → M MatchResult
  among_loaded b items (loaded ts) = among (keep_if (transfer_matches_batch b items) ts)
  among_loaded b items _ = pure MatchResult.unavailable

  unfoldable pub find_wallet_transfer_match : List Item → M MatchResult
  find_wallet_transfer_match items w = (load_wallet_transfers true >>= among_loaded w.mem items) w

  abbrev pub visibility_with : Batch → List Item → Option ℕ → M Visibility
  visibility_with b items none = pure not_found
  visibility_with b items (some hash) = do
    load ← load_submitted_transfers_by_tx_hash hash
    pure (visibility_of hash b items load)

  unfoldable pub find_submitted_transfer_visibility : List Item → M Visibility
  find_submitted_transfer_visibility items w = visibility_with w.mem items w.mem.tx_hash w

  -- `retryPostSubmitSearch`: the first search, and one after each further delay while it is wanted.
  abbrev pub sleep : M (Unit {0})
  sleep = await env λ n. tt

  unfoldable pub search_again : {R : Type 0} → ℕ → M R → (R → Bool) → R → M R
  unfolding await
  search_again zero search should_retry r w = (r, w)
  search_again (suc delays) search should_retry r w = elim (should_retry r) [
    | true ↦
        let found = search (sleep w).1 in search_again delays search should_retry found.0 found.1
    | false ↦ (r, w)
  ]

  unfoldable pub retry_post_submit_search : {R : Type 0} → M R → (R → Bool) → M R
  unfolding await search_again
  retry_post_submit_search search should_retry =
      sleep >> (search >>= search_again 4 search should_retry)

  abbrev pub match_pending : MatchResult → Bool
  match_pending MatchResult.unavailable = true
  match_pending no_match = true
  match_pending _ = false

  unfoldable pub find_wallet_transfer_match_after_submit : List Item → M MatchResult
  find_wallet_transfer_match_after_submit items =
      retry_post_submit_search (find_wallet_transfer_match items) match_pending

  abbrev pub visibility_pending : Visibility → Bool
  visibility_pending visible = false
  visibility_pending _ = true

  unfoldable pub find_submitted_transfer_visibility_after_submit : List Item → M Visibility
  find_submitted_transfer_visibility_after_submit items =
      retry_post_submit_search (find_submitted_transfer_visibility items) visibility_pending

  -- The immediate search after a submit, or the search of a later pass.
  unfoldable pub search_match : Bool → List Item → M MatchResult
  search_match true items = find_wallet_transfer_match_after_submit items
  search_match false items = find_wallet_transfer_match items

  unfoldable pub search_visibility : Bool → List Item → M Visibility
  search_visibility true items = find_submitted_transfer_visibility_after_submit items
  search_visibility false items = find_submitted_transfer_visibility items
