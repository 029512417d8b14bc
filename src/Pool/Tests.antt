-- ===== src/Pool/Tests.antt =====
-- Runs of the pool's limits, and the properties at them.
use nodejs_pool.Prelude.{
  map, assign, lookup, remove, ℕ, ◌+◌, ◌-◌, ◌*◌, ◌≤◌, ◌≡◌, refl, true, false, Option, none, some,
  [], ◌∷◌, String, length, arith, if◌then◌else◌, str_eq,
}
use nodejs_pool.Pool.Security.{MinerActivity, get_miner_session_activity}
use nodejs_pool.Pool.RateLimit.{
  RateBucket, RateBuckets, Limits, write_back, refill, take_token, consume_rate_limit_token,
}
use nodejs_pool.Pool.RateLimit.Rate.{run, run-le}
use nodejs_pool.Pool.RateLimit.Size.{consume_rate_limit_token-length}
use nodejs_pool.Pool.Registry.{
  Miner, Socket, Registry, no_options, add_to, delete_from, add_active_miner, remove_miner, unlist,
  destroy_miner_socket, detach_socket, release_proxy, release_wallet, remove_all, add_proxy_miner,
  check_alive_miners, check_miners, stale_reason, clear_wallet_session_trust, clear_trust,
  port_count,
}
use nodejs_pool.Pool.Registry.Index.{IsIndexed, add_active_miner-IsIndexed, remove_miner-IsIndexed}
use nodejs_pool.Pool.Registry.Limit.{IsWithin, add_proxy_miner-IsWithin}

-- Only the time for a login is configured: a minute.
abbrev slow_login : String → Option ℕ
slow_login key = if str_eq key "socketAuthTimeout" then some 60 else none

abbrev limits : Limits
limits = record { bucket_idle_ms = 600_000; bucket_max_entries = 2 }

abbrev full : RateBucket
full = record { tokens = 2_000; last_refill_at = 0 }

abbrev one_bucket : RateBuckets
one_bucket = ("1.2.3.4", full) ∷ []

-- Two requests at once empty the bucket of two; a second later, one more is admitted.
four_requests : run limits "1.2.3.4" 1 2 (0 ∷ 0 ∷ 0 ∷ 1_000 ∷ []) one_bucket ≡ 3
unfolding run consume_rate_limit_token lookup remove write_back refill take_token
four_requests = refl

run-le_example :
    1000 * run limits "1.2.3.4" 1 2 (0 ∷ 0 ∷ 0 ∷ 1_000 ∷ []) one_bucket ≤ 2_000 + (1_000 - 0) * 1
unfolding lookup
run-le_example =
    run-le limits "1.2.3.4" 1 2 (0 ∷ 0 ∷ 0 ∷ 1_000 ∷ []) one_bucket full (omega arith) (omega arith)
      refl (omega arith, (omega arith, (omega arith, (omega arith, tt))))

consume_rate_limit_token-length_example :
    length (consume_rate_limit_token limits "5.6.7.8" 1 2 0 one_bucket).1 ≤ 2
consume_rate_limit_token-length_example =
    consume_rate_limit_token-length limits "5.6.7.8" 1 2 0 one_bucket (omega arith)

abbrev quiet : MinerActivity
quiet = record {
  last_protocol_activity = none;
  last_valid_share_time_ms = none;
  last_contact = some 1_000;
}

abbrev miner : Miner
miner = record {
  id = "m1";
  payout = "alice";
  proxy_miner_name = some "alice";
  trust_key = none;
  trust = some 4;
  fixed_diff = false;
  difficulty = 1_000;
  port = 3333;
  connect_time = 0;
  has_submitted_valid_share = false;
  activity = quiet;
  is_removed = false;
}

abbrev socket : Socket
socket = record {
  miner_id = some "m1";
  has_first_share_timer = true;
  has_auth_timer = false;
  destroy_reason = none;
  is_destroyed = false;
  is_writable = true;
  is_ended = false;
  is_closed_by_registry = false;
  is_finalizing = false;
}

abbrev empty_registry : Registry
empty_registry = record {
  active_miners = [];
  active_miners_by_payout = [];
  active_miner_sockets = [];
  proxy_miners = ("alice", record { connect_time = 0; count = 1; hashes = 0 }) ∷ [];
  banned_big_tmp_wallets = [];
  miner_wallets = ("alice", 1) ∷ [];
  closed = [];
}

abbrev one_miner : Registry
one_miner = add_active_miner miner socket empty_registry

empty_registry-IsIndexed : IsIndexed empty_registry
unfolding lookup
empty_registry-IsIndexed = record { same = λ payout id. refl; no_empty = λ payout e. cc }

one_miner-IsIndexed : IsIndexed one_miner
unfolding lookup
one_miner-IsIndexed =
    add_active_miner-IsIndexed miner empty_registry empty_registry-IsIndexed socket refl

remove_miner-IsIndexed_example : IsIndexed (remove_miner miner no_options one_miner).1
unfolding lookup add_active_miner assign
remove_miner-IsIndexed_example =
    remove_miner-IsIndexed miner miner no_options one_miner refl refl one_miner-IsIndexed

add_proxy_miner-IsWithin_example :
    IsWithin 1
      (add_proxy_miner 1 5 (record miner { proxy_miner_name = none }) one_miner).1.proxy_miners
unfolding add_active_miner
add_proxy_miner-IsWithin_example =
    add_proxy_miner-IsWithin 1 5 (record miner { proxy_miner_name = none }) one_miner (omega arith)
      (omega arith, tt)

-- A second worker under a limit of one bans the wallet and removes its miners.
ban_removes :
    let r = add_proxy_miner 1 5 (record miner { id = "m2"; proxy_miner_name = none }) one_miner in
    (r.0 ≡ false)
    × (r.1.banned_big_tmp_wallets ≡ "alice" ∷ [])
    × (length r.1.active_miners ≡ 0)
    × (length r.1.proxy_miners ≡ 0)
    × (length r.1.closed ≡ 1)
unfolding add_proxy_miner remove_all remove_miner release_proxy release_wallet unlist delete_from
    destroy_miner_socket detach_socket add_to add_active_miner lookup assign remove
ban_removes = (refl, refl, refl, refl, refl)

-- A miner without a valid share goes after its time.
late_miner_goes : length (check_alive_miners 700_000 600_000 900 one_miner).active_miners ≡ 0
unfolding check_alive_miners check_miners stale_reason get_miner_session_activity remove_miner
    release_proxy release_wallet unlist delete_from destroy_miner_socket detach_socket add_to
    add_active_miner lookup assign remove
late_miner_goes = refl

trust_is_cleared :
    map
      (λ (e : String × Miner). e.1.trust)
      (clear_wallet_session_trust "alice" none one_miner).active_miners
    ≡ some 0 ∷ []
unfolding clear_wallet_session_trust clear_trust add_active_miner lookup assign add_to
trust_is_cleared = refl

one_on_the_port : port_count 3333 one_miner.active_miners ≡ 1
unfolding port_count add_active_miner assign
one_on_the_port = refl
