-- ===== src/Pool/Security.antt =====
-- lib/pool/security.js: the limits of the configuration, and the activity of a session. A setting
-- that is missing, or no finite number, is `none`.
use Prim.Native.Nat.{min, max}
use nodejs_pool.Prelude.{ℕ, ◌*◌, ◌≤◌, Option, none, some, String, arith}

abbrev pub get_or : Option ℕ → ℕ → ℕ
get_or none fallback = fallback
get_or (some n) fallback = n

pub record SecurityConfig : Type 0 where
  pub socket_auth_timeout_ms : ℕ
  pub tls_handshake_timeout_ms : ℕ
  pub miner_first_share_timeout_ms : ℕ
  pub max_connections_per_ip : ℕ
  pub max_connections_per_subnet : ℕ
  pub login_rate_limit_per_second : ℕ
  pub login_rate_limit_burst : ℕ
  pub login_rate_limit_loopback_per_second : ℕ
  pub login_rate_limit_loopback_burst : ℕ
  pub submit_rate_limit_per_second : ℕ
  pub submit_rate_limit_burst : ℕ
  pub keepalive_rate_limit_per_second : ℕ
  pub keepalive_rate_limit_burst : ℕ
  pub job_request_rate_limit_per_second : ℕ
  pub job_request_rate_limit_burst : ℕ
  pub rpc_rate_limit_bucket_idle_ms : ℕ
  pub rpc_rate_limit_bucket_max_entries : ℕ
  pub protocol_error_limit : ℕ
  pub invalid_job_id_limit_before_share : ℕ

-- `getPoolSecurityConfig`, over the settings of `global.config.pool`.
unfoldable pub get_pool_security_config : (String → Option ℕ) → SecurityConfig
get_pool_security_config pool =
    let auth = get_or (pool "socketAuthTimeout") 15 * 1000 in
    record {
      socket_auth_timeout_ms = auth;
      tls_handshake_timeout_ms = max 1000 (min auth (30 * 1000));
      miner_first_share_timeout_ms = get_or (pool "minerFirstShareTimeout") 600 * 1000;
      max_connections_per_ip = get_or (pool "maxConnectionsPerIP") 256;
      max_connections_per_subnet = get_or (pool "maxConnectionsPerSubnet") 1024;
      login_rate_limit_per_second = get_or (pool "loginRateLimitPerSecond") 5;
      login_rate_limit_burst = get_or (pool "loginRateLimitBurst") 100;
      login_rate_limit_loopback_per_second = get_or (pool "loginRateLimitLoopbackPerSecond") 100;
      login_rate_limit_loopback_burst = get_or (pool "loginRateLimitLoopbackBurst") 2000;
      submit_rate_limit_per_second = get_or (pool "submitRateLimitPerSecond") 250;
      submit_rate_limit_burst = get_or (pool "submitRateLimitBurst") 5000;
      keepalive_rate_limit_per_second = get_or (pool "keepaliveRateLimitPerSecond") 2;
      keepalive_rate_limit_burst = get_or (pool "keepaliveRateLimitBurst") 20;
      job_request_rate_limit_per_second = get_or (pool "jobRequestRateLimitPerSecond") 5;
      job_request_rate_limit_burst = get_or (pool "jobRequestRateLimitBurst") 20;
      rpc_rate_limit_bucket_idle_ms = get_or (pool "rpcRateLimitBucketIdle") (10 * 60) * 1000;
      rpc_rate_limit_bucket_max_entries = get_or (pool "rpcRateLimitBucketMaxEntries") 20000;
      protocol_error_limit = get_or (pool "protocolErrorLimit") 4;
      invalid_job_id_limit_before_share = get_or (pool "invalidJobIdLimitBeforeShare") 4;
    }

-- Whatever is configured, a TLS handshake gets between one second and thirty, and no longer than
-- the login does, or a second where that is more.
pub tls_handshake_bounds :
    (pool : String → Option ℕ)
    → let c = get_pool_security_config pool in
      (1000 ≤ c.tls_handshake_timeout_ms)
      × (c.tls_handshake_timeout_ms ≤ 30000)
      × (c.tls_handshake_timeout_ms ≤ max 1000 c.socket_auth_timeout_ms)
unfolding get_pool_security_config
tls_handshake_bounds pool = (omega arith, omega arith, omega arith)

pub record MinerActivity : Type 0 where
  pub last_protocol_activity : Option ℕ
  pub last_valid_share_time_ms : Option ℕ
  pub last_contact : Option ℕ

-- `getMinerSessionActivity`.
unfoldable pub get_miner_session_activity : Option MinerActivity → ℕ
get_miner_session_activity none = 0
get_miner_session_activity (some m) =
    max (get_or m.last_protocol_activity 0)
      (max (get_or m.last_valid_share_time_ms 0) (get_or m.last_contact 0))
