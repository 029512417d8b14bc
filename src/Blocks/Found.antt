-- ===== src/Blocks/Found.antt =====
-- lib/block_manager.js, `resolveBalanceCredits`: when no query fails and nobody else inserts, every
-- balance is found or created.
use nodejs_pool.Prelude.{
  ℕ, suc, ◌≤◌, ◌≡◌, refl, ap, false, Option, none, some, List, [], ◌∷◌, String, ◌==◌, length,
  lookup, keep_if, arith, Bool-cases, inl, inr, All,
}
use nodejs_pool.Payments.Store.{Balance}
use nodejs_pool.Blocks.Runtime.{Env, World, ok, query}
use nodejs_pool.Blocks.Credits.{
  PaymentRow, normalize_payment_id, is_balance_of, insert_balance, remember, key, inserted,
  insert_or_reload, create_or_take, cached_or_loaded, balance_id, get_or_create_balance_id, Credit,
  add_credit, aggregate, resolve_ids, resolve_balance_credits, is_duplicate,
}
use nodejs_pool.Blocks.Crediting.{count_id}
use nodejs_pool.Blocks.Keeps.{count_id-append}
use nodejs_pool.Blocks.Recipients.{
  IsFound, Finds, lookup-All, All-assign, kept_row, alone_after, own_id, All-cached,
}

remember-Finds :
    (k : String) (i : ℕ) (w : World)
    → IsFound w
    → 1 ≤ count_id i w.tables.balances
    → Finds w (remember k i w)
remember-Finds k i w f p = (
  i,
  refl,
  p,
  record {
    cached = All-assign (λ j. 1 ≤ count_id j w.tables.balances) k i w.balance_id_cache p f.cached;
    alone = f.alone;
  },
  λ j. omega arith,
)

module _ (env : Env) (calm : (t : ℕ) → env.fails t ≡ false)
    (lone : (t : ℕ) → env.raced t ≡ false) where
  module _ (address pool_type : String) (id : Option String) where
    inserted-IsFound :
        (w : World)
        → IsFound w
        → keep_if (is_balance_of address pool_type id) w.tables.balances ≡ []
        → IsFound (inserted env address pool_type id w)
    unfolding insert_balance
    inserted-IsFound w f nobody = record {
      cached =
          All-cached (λ i. 1 ≤ count_id i w.tables.balances) _ w.balance_id_cache
            (λ i p. omega (arith, p, count_id-append i w.tables.balances _)) f.cached;
      alone = λ a y i.
          alone_after w.tables.balances _ address pool_type a y id i refl refl refl nobody
            (f.alone a y i);
    }

    not_duplicate : (o : Option String) → is_duplicate false o ≡ false
    not_duplicate none = refl
    not_duplicate (some i) = refl

    insert_or_reload-Finds :
        (w : World)
        → IsFound w
        → keep_if (is_balance_of address pool_type id) w.tables.balances ≡ []
        → Finds w (insert_or_reload env address pool_type id w)
    unfolding insert_or_reload insert_balance query
    insert_or_reload-Finds w f e =
        let v = record w { ticks = suc w.ticks } in
        let f' : IsFound v = record { cached = f.cached; alone = f.alone } in
        let (i, q, p, g, more) =
          remember-Finds (key env address pool_type id) w.tables.next_balance_id
            (inserted env address pool_type id v) (inserted-IsFound v f' e)
            (own_id w.tables.next_balance_id w.tables.balances _ refl) in
        rw (calm w.ticks, lone (suc w.ticks), not_duplicate id)
          (i, q, p, g, λ j. omega (arith, more j, count_id-append j w.tables.balances _))

    create_or_take-Finds :
        (w : World) (bs : List Balance)
        → IsFound w
        → keep_if (is_balance_of address pool_type id) w.tables.balances ≡ bs
        → Finds w (create_or_take env address pool_type id bs w)
    create_or_take-Finds w [] f e = insert_or_reload-Finds w f e
    create_or_take-Finds w (b ∷ []) f e =
        remember-Finds (key env address pool_type id) b.id w f
          (kept_row (is_balance_of address pool_type id) w.tables.balances b [] e)
    create_or_take-Finds w (b ∷ (c ∷ bs)) f e =
        absurd (omega (arith, f.alone address pool_type id, ap length e))

    cached_or_loaded-Finds :
        (w : World) (o : Option ℕ)
        → IsFound w
        → lookup (key env address pool_type id) w.balance_id_cache ≡ o
        → Finds w (cached_or_loaded env address pool_type id o w)
    unfolding query
    cached_or_loaded-Finds w (some i) f e = (
      i,
      refl,
      lookup-All (λ j. 1 ≤ count_id j w.tables.balances) (key env address pool_type id)
          w.balance_id_cache i f.cached e,
      f,
      λ j. omega arith,
    )
    cached_or_loaded-Finds w none f e =
        let v = record w { ticks = suc w.ticks } in
        rw (calm w.ticks) (
          create_or_take-Finds v (keep_if (is_balance_of address pool_type id) w.tables.balances)
            (record { cached = f.cached; alone = f.alone }) refl)

  get_or_create_balance_id-Finds :
      (p : PaymentRow) (w : World) → IsFound w → Finds w (get_or_create_balance_id env p w)
  unfolding get_or_create_balance_id balance_id
  get_or_create_balance_id-Finds p w f =
      cached_or_loaded-Finds p.payment_address p.pool_type (normalize_payment_id p.payment_id) w _ f
        refl

  -- Credits of balances that exist.
  abbrev pub HaveRows : World → List Credit → Type 0
  HaveRows w = All (λ c. 1 ≤ count_id c.id w.tables.balances)

  resolve_ids-ok :
      (ps : List PaymentRow) (w : World)
      → IsFound w
      → (cs : List Credit) × ((resolve_ids env ps w).0 ≡ ok cs)
        × HaveRows (resolve_ids env ps w).1 cs
        × ((j : ℕ)
            → count_id j w.tables.balances ≤ count_id j (resolve_ids env ps w).1.tables.balances)
  unfolding resolve_ids
  resolve_ids-ok [] w f = ([], refl, tt, λ j. omega arith)
  resolve_ids-ok (p ∷ ps) w f =
      let (i, e, has, f', more) = get_or_create_balance_id-Finds p w f in
      let (cs, e', rows, more') = resolve_ids-ok ps (get_or_create_balance_id env p w).1 f' in
      rw (e, e') (_, refl, (omega (arith, has, more' i), rows), λ j. omega (arith, more j, more' j))

add_credit-All :
    (N : ℕ → Type 0) (i n : ℕ) (cs : List Credit)
    → N i
    → All (λ c. N c.id) cs
    → All (λ c. N c.id) (add_credit i n cs)
unfolding add_credit
add_credit-All N i n [] p a = (p, tt)
add_credit-All N i n (c ∷ cs) p (q, a) = elim (Bool-cases (c.id == i)) [
  | inl e ↦ rw e (q, a)
  | inr e ↦ rw e (q, add_credit-All N i n cs p a)
]

aggregate-All :
    (N : ℕ → Type 0) (acc cs : List Credit)
    → All (λ c. N c.id) acc
    → All (λ c. N c.id) cs
    → All (λ c. N c.id) (aggregate acc cs)
unfolding aggregate
aggregate-All N acc [] a b = a
aggregate-All N acc (c ∷ cs) a (p, b) = elim (Bool-cases (c.amount == 0)) [
  | inl e ↦ rw e (aggregate-All N acc cs a b)
  | inr e ↦
      rw e (
        aggregate-All N (add_credit c.id c.amount acc) cs (add_credit-All N c.id c.amount acc p a)
          b)
]

-- The lookups of a payout succeed, with a row for each credit.
pub resolve_balance_credits-ok :
    (env : Env) (ps : List PaymentRow) (w : World)
    → ((t : ℕ) → env.fails t ≡ false)
    → ((t : ℕ) → env.raced t ≡ false)
    → IsFound w
    → (cs : List Credit) × ((resolve_balance_credits env ps w).0 ≡ ok cs)
      × All (λ c. 1 ≤ count_id c.id (resolve_balance_credits env ps w).1.tables.balances) cs
unfolding resolve_balance_credits
resolve_balance_credits-ok env ps w calm lone f =
    let (cs, e, rows, more) = resolve_ids-ok env calm lone ps w f in
    rw e (
      _,
      refl,
      aggregate-All (λ i. 1 ≤ count_id i (resolve_ids env ps w).1.tables.balances) [] cs tt rows,
    )
