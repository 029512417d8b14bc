-- ===== src/Blocks/Credits.antt =====
-- lib/block_manager.js: the ids of balances, the credits of a payout by balance, and their update.
use Prim.Native.String.{count}
use Prim.Native.String
use Prim.Native.String.{String}
use nodejs_pool.Prelude.{
  ℕ, suc, zero, ◌+◌, Bool, true, false, ◌&&◌, Option, none, some, List, [], ◌∷◌, ◌==◌, ltb, str_eq,
  if◌then◌else◌, lookup, assign, length, take, drop, keep_if, count_if, ◌++◌,
}
use nodejs_pool.Payments.Store.{Balance}
use nodejs_pool.Blocks.Runtime.{Tables, Env, World, ok, thrown, M, pure, ◌>>=◌, full_stop, query}

-- `normalizePaymentId`.
abbrev pub normalize_payment_id : Option String → Option String
normalize_payment_id none = none
normalize_payment_id (some id) = if ltb 10 (count id) then some id else none

pub record PaymentRow : Type 0 where
  pub payment_address : String
  pub payment_id : Option String
  pub pool_type : String
  pub amount : ℕ

abbrev pub id_text : Option String → String
id_text none = ""
id_text (some id) = id

-- `cacheKey`.
unfoldable pub cache_key : String → String → Option String → String
cache_key address pool_type id =
    String.◌++◌ address (String.◌++◌ "|" (String.◌++◌ pool_type (String.◌++◌ "|" (id_text id))))

abbrev pub same_id : Option String → Option String → Bool
same_id none none = true
same_id (some a) (some b) = str_eq a b
same_id _ _ = false

unfoldable pub is_balance_of : String → String → Option String → Balance → Bool
is_balance_of address pool_type id b =
    str_eq b.payment_address address && (same_id b.payment_id id && str_eq b.pool_type pool_type)

-- `INSERT INTO balance`, with the default amount.
unfoldable pub insert_balance : String → String → Option String → Tables → Tables
insert_balance address pool_type id t = record t {
  balances =
      t.balances
      ++ (record {
        id = t.next_balance_id;
        payment_address = address;
        payment_id = id;
        pool_type = pool_type;
        amount = 0;
        pending_batch_id = none;
      }
          ∷ []);
  next_balance_id = suc t.next_balance_id;
}

abbrev pub remember : String → ℕ → M ℕ
remember key i w = (ok i, record w { balance_id_cache = assign key i w.balance_id_cache })

-- The one row of the lookup, or a full stop.
abbrev pub only_row : String → List Balance → M ℕ
only_row key [] w = (thrown, full_stop w)
only_row key (b ∷ []) w = remember key b.id w
only_row key (b ∷ (c ∷ bs)) w = (thrown, full_stop w)

-- A unique key with a NULL in it does not collide.
abbrev pub is_duplicate : Bool → Option String → Bool
is_duplicate raced none = false
is_duplicate raced (some id) = raced

module _ (env : Env) (address pool_type : String) (id : Option String) where
  abbrev pub key : String
  key = cache_key address pool_type id

  abbrev pub load_rows : M (List Balance)
  load_rows = query env >>= λ _.
      λ w. (ok (keep_if (is_balance_of address pool_type id) w.tables.balances), w)

  abbrev pub inserted : World → World
  inserted w = record w { tables = insert_balance address pool_type id w.tables }

  abbrev pub after_race : Bool → World → World
  after_race true w = inserted w
  after_race false w = w

  -- The insert, or the second lookup after a duplicate key.
  abbrev pub reload_or_insert : Bool → M ℕ
  reload_or_insert true w = (load_rows >>= only_row key) w
  reload_or_insert false w = remember key w.tables.next_balance_id (inserted w)

  unfoldable pub insert_or_reload : M ℕ
  insert_or_reload = query env >>= λ _.
      λ w. reload_or_insert (is_duplicate (env.raced w.ticks) id) (after_race (env.raced w.ticks) w)

  abbrev pub create_or_take : List Balance → M ℕ
  create_or_take [] = insert_or_reload
  create_or_take (b ∷ bs) = only_row key (b ∷ bs)

  abbrev pub cached_or_loaded : Option ℕ → M ℕ
  cached_or_loaded (some i) = pure i
  cached_or_loaded none = load_rows >>= create_or_take

  -- `getOrCreateBalanceId`, of a normalized payment id.
  unfoldable pub balance_id : M ℕ
  balance_id w = cached_or_loaded (lookup key w.balance_id_cache) w

unfoldable pub get_or_create_balance_id : Env → PaymentRow → M ℕ
get_or_create_balance_id env p =
    balance_id env p.payment_address p.pool_type (normalize_payment_id p.payment_id)

pub record Credit : Type 0 where
  pub id : ℕ
  pub amount : ℕ

-- A `Map` from ids to amounts.
unfoldable pub add_credit : ℕ → ℕ → List Credit → List Credit
add_credit i n [] = record { id = i; amount = n } ∷ []
add_credit i n (c ∷ cs) =
    if c.id == i then record c { amount = c.amount + n } ∷ cs else c ∷ add_credit i n cs

unfoldable pub aggregate : List Credit → List Credit → List Credit
aggregate acc [] = acc
aggregate acc (c ∷ cs) = aggregate (if c.amount == 0 then acc else add_credit c.id c.amount acc) cs

module _ (env : Env) where
  unfoldable pub resolve_ids : List PaymentRow → M (List Credit)
  resolve_ids [] = pure []
  resolve_ids (p ∷ ps) = get_or_create_balance_id env p >>= λ i.
      resolve_ids ps >>= λ cs. pure (record { id = i; amount = p.amount } ∷ cs)

  -- `resolveBalanceCredits`, whose lookups run one after the other here.
  unfoldable pub resolve_balance_credits : List PaymentRow → M (List Credit)
  resolve_balance_credits ps = resolve_ids ps >>= λ cs. pure (aggregate [] cs)

-- `CASE id WHEN ? THEN ? … ELSE 0 END`.
unfoldable pub credit_of : ℕ → List Credit → ℕ
credit_of i [] = 0
credit_of i (c ∷ cs) = if c.id == i then c.amount else credit_of i cs

unfoldable pub has_id : ℕ → List Credit → Bool
has_id i [] = false
has_id i (c ∷ cs) = if c.id == i then true else has_id i cs

abbrev pub has_credit : List Credit → Balance → Bool
has_credit cs b = has_id b.id cs

unfoldable pub credit_balances : List Credit → List Balance → List Balance
credit_balances cs [] = []
credit_balances cs (b ∷ bs) =
    (if has_credit cs b then record b { amount = b.amount + credit_of b.id cs } else b)
    ∷ credit_balances cs bs

abbrev pub batch_size : ℕ
batch_size = 100

module _ (env : Env) where
  -- One UPDATE, which throws when its affected rows are not as many as its ids.
  unfoldable pub update_batch : List Credit → M (Unit {0})
  update_batch batch = query env >>= λ _. λ w.
      if count_if (has_credit batch) w.tables.balances == length batch
      then (
        ok tt,
        record w {
          tables = record w.tables { balances = credit_balances batch w.tables.balances };
        },
      )
      else (thrown, w)

  -- The loop of `applyBalanceCredits`, with fuel for its batches.
  unfoldable pub update_batches : ℕ → List Credit → M (Unit {0})
  update_batches zero cs = pure tt
  update_batches (suc fuel) [] = pure tt
  update_batches (suc fuel) (c ∷ cs) = update_batch (take batch_size (c ∷ cs)) >>= λ _.
      update_batches fuel (drop batch_size (c ∷ cs))

  unfoldable pub apply_balance_credits : List Credit → M (Unit {0})
  apply_balance_credits cs = update_batches (length cs) cs
