-- ===== src/Pool/Registry.antt =====
-- lib/pool/miner_registry.js: the active miners of a worker process and their indexes. Logs and the
-- messages to other processes are left out; a miner's retargeting and its jobs belong to its object
-- and are parameters. A `Map`, a `Set` or an object is the list of its entries.
pub mod Index
pub mod Limit
use nodejs_pool.Prelude.{
  ℕ, suc, ◌+◌, ◌-◌, ◌*◌, Bool, true, false, not, ◌&&◌, ◌||◌, Option, none, some, List, [], ◌∷◌,
  ◌++◌, map, String, ltb, leb, ◌==◌, str_eq, if◌then◌else◌, length, keep_if, lookup, assign, remove,
}
use nodejs_pool.Pool.Security.{MinerActivity, get_miner_session_activity}

pub record Miner : Type 0 where
  pub id : String
  pub payout : String
  pub proxy_miner_name : Option String
  pub trust_key : Option String
  pub trust : Option ℕ
  pub fixed_diff : Bool
  pub difficulty : ℕ
  pub port : ℕ
  pub connect_time : ℕ
  pub has_submitted_valid_share : Bool
  pub activity : MinerActivity
  pub is_removed : Bool

pub record Socket : Type 0 where
  pub miner_id : Option String
  pub has_first_share_timer : Bool
  pub has_auth_timer : Bool
  pub destroy_reason : Option String
  pub is_destroyed : Bool
  pub is_writable : Bool
  pub is_ended : Bool
  pub is_closed_by_registry : Bool
  pub is_finalizing : Bool

pub record Proxy : Type 0 where
  pub connect_time : ℕ
  pub count : ℕ
  pub hashes : ℕ

-- `closed` is history: the sockets that left the registry, as it left them, latest first.
pub record Registry : Type 0 where
  pub active_miners : List (String × Miner)
  pub active_miners_by_payout : List (String × List String)
  pub active_miner_sockets : List (String × Socket)
  pub proxy_miners : List (String × Proxy)
  pub banned_big_tmp_wallets : List String
  pub miner_wallets : List (String × ℕ)
  pub closed : List (String × Socket)

abbrev pub is_in : String → List String → Bool
is_in x [] = false
is_in x (y ∷ ys) = str_eq x y || is_in x ys

-- `Set.add` and `Set.delete`.
unfoldable pub add_to : String → List String → List String
add_to x ys = if is_in x ys then ys else ys ++ x ∷ []

unfoldable pub delete_from : String → List String → List String
delete_from x ys = keep_if (λ y. not (str_eq x y)) ys

abbrev pub ids_of : Option (List String) → List String
ids_of none = []
ids_of (some ids) = ids

-- `addActiveMiner`.
unfoldable pub add_active_miner : Miner → Socket → Registry → Registry
add_active_miner m socket s = record s {
  active_miners = assign m.id m s.active_miners;
  active_miner_sockets = assign m.id socket s.active_miner_sockets;
  active_miners_by_payout =
      assign m.payout (add_to m.id (ids_of (lookup m.payout s.active_miners_by_payout)))
        s.active_miners_by_payout;
}

-- `if (proxyState && --proxyState.count <= 0 …) delete …`.
abbrev pub release_proxy_of : String → Option Proxy → List (String × Proxy) → List (String × Proxy)
release_proxy_of name none m = m
release_proxy_of name (some p) m =
    if leb p.count 1 then remove name m else assign name (record p { count = p.count - 1 }) m

unfoldable pub release_proxy : Option String → List (String × Proxy) → List (String × Proxy)
release_proxy none m = m
release_proxy (some name) m = if str_eq name "" then m else release_proxy_of name (lookup name m) m

abbrev pub release_wallet_of : String → Option ℕ → List (String × ℕ) → List (String × ℕ)
release_wallet_of payout none m = m
release_wallet_of payout (some n) m = if leb n 1 then remove payout m else assign payout (n - 1) m

unfoldable pub release_wallet : String → List (String × ℕ) → List (String × ℕ)
release_wallet payout m = release_wallet_of payout (lookup payout m) m

-- The `Set` of a payout without an id, and no entry where that leaves it empty.
abbrev pub unlist_of :
    String
    → String
    → Option (List String)
    → List (String × List String)
    → List (String × List String)
unlist_of payout id none m = m
unlist_of payout id (some ids) m =
    if length (delete_from id ids) == 0
    then remove payout m
    else assign payout (delete_from id ids) m

unfoldable pub unlist : String → String → List (String × List String) → List (String × List String)
unlist payout id m = unlist_of payout id (lookup payout m) m

-- `options` of `removeMiner`.
pub record RemoveOptions : Type 0 where
  pub destroy_socket : Bool
  pub force_destroy : Bool
  pub reason : Option String

-- The end of `destroyMinerSocket`: destroy at once, end, or destroy what cannot be ended.
abbrev pub close_socket : Bool → Socket → Socket
close_socket force k =
    if force && not k.is_destroyed
    then record k { is_closed_by_registry = true; is_destroyed = true }
    else if not k.is_closed_by_registry && k.is_writable
    then record k { is_closed_by_registry = true; is_finalizing = true; is_ended = true }
    else if not k.is_destroyed && not k.is_closed_by_registry
    then record k { is_closed_by_registry = true; is_destroyed = true }
    else k

abbrev pub forget_id : String → Option String → Option String
forget_id id none = none
forget_id id (some j) = if str_eq j id then none else some j

abbrev pub or_reason : Option String → Option String → Option String
or_reason none old = old
or_reason (some r) old = some r

unfoldable pub detach_socket : String → RemoveOptions → Socket → Socket
detach_socket id o k = close_socket o.force_destroy (record k {
  miner_id = forget_id id k.miner_id;
  has_first_share_timer = false;
  has_auth_timer = false;
  destroy_reason = or_reason o.reason k.destroy_reason;
})

abbrev pub destroy_found : String → RemoveOptions → Option Socket → Registry → Registry
destroy_found id o none s = s
destroy_found id o (some k) s = record s {
  active_miner_sockets = remove id s.active_miner_sockets;
  closed = (id, detach_socket id o k) ∷ s.closed;
}

-- `destroyMinerSocket`.
unfoldable pub destroy_miner_socket : String → RemoveOptions → Registry → Registry
destroy_miner_socket id o s = destroy_found id o (lookup id s.active_miner_sockets) s

abbrev pub drop_socket_if : Bool → String → RemoveOptions → Registry → Registry
drop_socket_if true id o s = destroy_miner_socket id o s
drop_socket_if false id o s = record s { active_miner_sockets = remove id s.active_miner_sockets }

abbrev pub remove_unless : Bool → Miner → RemoveOptions → Registry → Miner × Registry
remove_unless true m o s = (m, s)
remove_unless false m o s = (
  record m { is_removed = true },
  drop_socket_if o.destroy_socket m.id o (record s {
    proxy_miners = release_proxy m.proxy_miner_name s.proxy_miners;
    miner_wallets = release_wallet m.payout s.miner_wallets;
    active_miners_by_payout = unlist m.payout m.id s.active_miners_by_payout;
    active_miners = remove m.id s.active_miners;
  }),
)

-- `removeMiner`, with the object as it leaves it.
unfoldable pub remove_miner : Miner → RemoveOptions → Registry → Miner × Registry
remove_miner m o s = remove_unless m.is_removed m o s

abbrev pub remove_found : Option Miner → RemoveOptions → Registry → Registry
remove_found none o s = s
remove_found (some m) o s = (remove_miner m o s).1

abbrev pub no_options : RemoveOptions
no_options = record { destroy_socket = true; force_destroy = false; reason = none }

-- `for (const minerId of …) removeMiner(state.activeMiners.get(minerId), options)`.
unfoldable pub remove_all : List String → Registry → Registry
remove_all [] s = s
remove_all (i ∷ is) s = remove_all is (remove_found (lookup i s.active_miners) no_options s)

abbrev pub is_tracked : Option String → List (String × Proxy) → Bool
is_tracked none m = false
is_tracked (some name) m =
    not (str_eq name "") && elim (lookup name m) [ none ↦ false | some p ↦ true ]

-- What `addProxyMiner` does with the wallet's counter: a new one, a ban, or one more.
abbrev pub count_proxy : ℕ → ℕ → String → Option Proxy → Registry → Bool × Registry
count_proxy limit now wallet none s = (
  true,
  record s {
    proxy_miners =
        assign wallet (record { connect_time = now; count = 1; hashes = 0 }) s.proxy_miners;
  },
)
count_proxy limit now wallet (some p) s =
    if leb limit p.count
    then (
      false,
      remove_all (ids_of (lookup wallet s.active_miners_by_payout))
          (record s { banned_big_tmp_wallets = add_to wallet s.banned_big_tmp_wallets }),
    )
    else (
      true,
      record s { proxy_miners = assign wallet (record p { count = p.count + 1 }) s.proxy_miners },
    )

-- The miner object carries the name of its proxy from then on, in the registry too.
abbrev pub name_proxy : Miner → Option Miner → Registry → Registry
name_proxy m none s = s
name_proxy m (some a) s = record s {
  active_miners = assign m.id (record a { proxy_miner_name = some m.payout }) s.active_miners;
}

-- `addProxyMiner`, with the limit of workers.
unfoldable pub add_proxy_miner : ℕ → ℕ → Miner → Registry → Bool × Registry
add_proxy_miner limit now m s =
    if is_tracked m.proxy_miner_name s.proxy_miners
    then (true, s)
    else let s' = name_proxy m (lookup m.id s.active_miners) s in
      count_proxy limit now m.payout (lookup m.payout s'.proxy_miners) s'

-- `checkAliveMiners`: why a miner goes, if it does.
unfoldable pub stale_reason : ℕ → ℕ → ℕ → Miner → Option String
stale_reason now first_share_timeout deadline m =
    if not m.has_submitted_valid_share && leb (m.connect_time + first_share_timeout) now
    then some "first-share-timeout"
    else if ltb (get_miner_session_activity (some m.activity)) deadline
    then some "miner-timeout"
    else none

abbrev pub remove_stale : Miner → Option String → Registry → Registry
remove_stale m none s = s
remove_stale m (some r) s =
    (remove_miner m (record { destroy_socket = true; force_destroy = false; reason = some r }) s).1

-- The loop, over the entries as it meets them: it removes no other than the one in hand.
unfoldable pub check_miners : ℕ → ℕ → ℕ → List (String × Miner) → Registry → Registry
check_miners now first deadline [] s = s
check_miners now first deadline ((i, m) ∷ ms) s =
    check_miners now first deadline ms (remove_stale m (stale_reason now first deadline m) s)

unfoldable pub check_alive_miners : ℕ → ℕ → ℕ → Registry → Registry
check_alive_miners now first_share_timeout miner_timeout s =
    check_miners now first_share_timeout (now - miner_timeout * 1000) s.active_miners s

-- `clearWalletSessionTrust`, on the miner objects, and how many it cleared.
abbrev pub or_payout : Option String → String → String
or_payout none payout = payout
or_payout (some k) payout = if str_eq k "" then payout else k

abbrev pub has_trust : Option ℕ → Bool
has_trust none = false
has_trust (some n) = not (n == 0)

abbrev pub is_cleared : List String → String → Miner → Bool
is_cleared ids target m =
    is_in m.id ids && (str_eq (or_payout m.trust_key m.payout) target && has_trust m.trust)

unfoldable pub clear_trust : List String → String → List (String × Miner) → List (String × Miner)
clear_trust ids target [] = []
clear_trust ids target ((i, m) ∷ ms) =
    (i, if is_cleared ids target m then record m { trust = some 0 } else m)
    ∷ clear_trust ids target ms

unfoldable pub clear_wallet_session_trust : String → Option String → Registry → Registry
clear_wallet_session_trust payout trust_key s = record s {
  active_miners =
      clear_trust (ids_of (lookup payout s.active_miners_by_payout)) (or_payout trust_key payout)
        s.active_miners;
}

-- `retargetMiners`: the count of a port after the loop.
unfoldable pub port_count : ℕ → List (String × Miner) → ℕ
port_count port [] = 0
port_count port ((i, m) ∷ ms) = (if m.port == port then 1 else 0) + port_count port ms
