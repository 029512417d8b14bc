-- ===== src/Pool/Registry/Limit.antt =====
-- The number of workers that a proxy's counter admits.
use nodejs_pool.Prelude.{
  sym, subst, ℕ, ◌≤◌, ◌≡◌, refl, Bool, true, false, Option, none, some, List, [], ◌∷◌, String, leb,
  str_eq, lookup, assign, remove, All, arith, Bool-cases, inl, inr,
}
use nodejs_pool.Pool.Registry.{
  Miner, Socket, Proxy, Registry, RemoveOptions, ids_of, release_proxy_of, release_proxy,
  no_options, destroy_found, destroy_miner_socket, drop_socket_if, remove_unless, remove_miner,
  remove_found, remove_all, is_tracked, count_proxy, name_proxy, add_to, add_proxy_miner,
}

abbrev pub IsWithin : ℕ → List (String × Proxy) → Type 0
IsWithin limit = All (λ e. e.1.count ≤ limit)

module _ (limit : ℕ) where
  assign-IsWithin :
      (name : String) (p : Proxy) (m : List (String × Proxy))
      → p.count ≤ limit
      → IsWithin limit m
      → IsWithin limit (assign name p m)
  unfolding assign
  assign-IsWithin name p [] h v = (h, tt)
  assign-IsWithin name p ((j, q) ∷ m) h v = elim (Bool-cases (str_eq name j)) [
    | inl e ↦ rw e (h, v.1)
    | inr e ↦ rw e (v.0, assign-IsWithin name p m h v.1)
  ]

  remove-IsWithin :
      (name : String) (m : List (String × Proxy))
      → IsWithin limit m
      → IsWithin limit (remove name m)
  unfolding remove
  remove-IsWithin name [] v = tt
  remove-IsWithin name ((j, q) ∷ m) v = elim (Bool-cases (str_eq name j)) [
    | inl e ↦ rw e (remove-IsWithin name m v.1)
    | inr e ↦ rw e (v.0, remove-IsWithin name m v.1)
  ]

  found-IsWithin :
      (name : String) (p : Proxy) (m : List (String × Proxy))
      → lookup name m ≡ some p
      → IsWithin limit m
      → p.count ≤ limit
  unfolding lookup
  found-IsWithin name p [] e v = absurd (ground arith)
  found-IsWithin name p ((j, q) ∷ m) e v = ground (arith, found-IsWithin name p m)

  release_proxy_of-IsWithin :
      (name : String) (o : Option Proxy) (m : List (String × Proxy))
      → lookup name m ≡ o
      → IsWithin limit m
      → IsWithin limit (release_proxy_of name o m)
  release_proxy_of-IsWithin name none m e v = v
  release_proxy_of-IsWithin name (some p) m e v = elim (Bool-cases (leb p.count 1)) [
    | inl q ↦ rw q (remove-IsWithin name m v)
    | inr q ↦ rw q (assign-IsWithin name _ m (omega (arith, found-IsWithin name p m e v)) v)
  ]

  release_proxy-IsWithin :
      (o : Option String) (m : List (String × Proxy))
      → IsWithin limit m
      → IsWithin limit (release_proxy o m)
  unfolding release_proxy
  release_proxy-IsWithin none m v = v
  release_proxy-IsWithin (some name) m v = elim (Bool-cases (str_eq name "")) [
    | inl e ↦ rw e v
    | inr e ↦ rw e (release_proxy_of-IsWithin name (lookup name m) m refl v)
  ]

  destroy_found-IsWithin :
      (id : String) (o : RemoveOptions) (k : Option Socket) (s : Registry)
      → IsWithin limit s.proxy_miners
      → IsWithin limit (destroy_found id o k s).proxy_miners
  destroy_found-IsWithin id o none s v = v
  destroy_found-IsWithin id o (some k) s v = v

  drop_socket-IsWithin :
      (b : Bool) (id : String) (o : RemoveOptions) (s : Registry)
      → IsWithin limit s.proxy_miners
      → IsWithin limit (drop_socket_if b id o s).proxy_miners
  unfolding destroy_miner_socket
  drop_socket-IsWithin true id o s v =
      destroy_found-IsWithin id o (lookup id s.active_miner_sockets) s v
  drop_socket-IsWithin false id o s v = v

  remove_unless-IsWithin :
      (b : Bool) (m : Miner) (o : RemoveOptions) (s : Registry)
      → IsWithin limit s.proxy_miners
      → IsWithin limit (remove_unless b m o s).1.proxy_miners
  remove_unless-IsWithin true m o s v = v
  remove_unless-IsWithin false m o s v =
      drop_socket-IsWithin o.destroy_socket m.id o _
        (release_proxy-IsWithin m.proxy_miner_name s.proxy_miners v)

  remove_found-IsWithin :
      (m : Option Miner) (s : Registry)
      → IsWithin limit s.proxy_miners
      → IsWithin limit (remove_found m no_options s).proxy_miners
  unfolding remove_miner
  remove_found-IsWithin none s v = v
  remove_found-IsWithin (some m) s v = remove_unless-IsWithin m.is_removed m no_options s v

  remove_all-IsWithin :
      (ids : List String) (s : Registry)
      → IsWithin limit s.proxy_miners
      → IsWithin limit (remove_all ids s).proxy_miners
  unfolding remove_all
  remove_all-IsWithin [] s v = v
  remove_all-IsWithin (i ∷ ids) s v =
      remove_all-IsWithin ids _ (remove_found-IsWithin (lookup i s.active_miners) s v)

  count_proxy-IsWithin :
      (now : ℕ) (wallet : String) (o : Option Proxy) (s : Registry)
      → 1 ≤ limit
      → IsWithin limit s.proxy_miners
      → IsWithin limit (count_proxy limit now wallet o s).1.proxy_miners
  count_proxy-IsWithin now wallet none s h v = assign-IsWithin wallet _ s.proxy_miners h v
  count_proxy-IsWithin now wallet (some p) s h v = elim (Bool-cases (leb limit p.count)) [
    | inl e ↦ rw e (
        remove_all-IsWithin (ids_of (lookup wallet s.active_miners_by_payout))
          (record s { banned_big_tmp_wallets = add_to wallet s.banned_big_tmp_wallets }) v)
    | inr e ↦ rw e (assign-IsWithin wallet _ s.proxy_miners (ground arith) v)
  ]

  name_proxy-proxies :
      (m : Miner) (o : Option Miner) (s : Registry)
      → (name_proxy m o s).proxy_miners ≡ s.proxy_miners
  name_proxy-proxies m none s = refl
  name_proxy-proxies m (some a) s = refl

  -- No proxy ever counts more workers than the limit: if the limit is at least one and no counter is
  -- above it, `addProxyMiner` leaves none above it, a ban with its removals included.
  pub add_proxy_miner-IsWithin :
      (now : ℕ) (m : Miner) (s : Registry)
      → 1 ≤ limit
      → IsWithin limit s.proxy_miners
      → IsWithin limit (add_proxy_miner limit now m s).1.proxy_miners
  unfolding add_proxy_miner
  add_proxy_miner-IsWithin now m s h v =
      elim (Bool-cases (is_tracked m.proxy_miner_name s.proxy_miners)) [
        | inl e ↦ rw e v
        | inr e ↦ rw e (
            count_proxy-IsWithin now m.payout _ _ h (
              subst (IsWithin limit) (sym (name_proxy-proxies m (lookup m.id s.active_miners) s))
                v))
      ]
