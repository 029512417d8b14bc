-- ===== src/Blocks/Timed.antt =====
-- lib/block_manager.js, `preCalculatePPLNSPayments`: a scan that pays something knows the times of its
-- shares, and then the calculation succeeds.
use nodejs_pool.Prelude.{
  ℕ, zero, suc, ◌+◌, ◌≤◌, ◌≡◌, ◌⊎◌, refl, sym, ◌∙◌, ap, subst, Bool, true, false, ◌||◌, Option,
  none, some, List, [], ◌∷◌, String, ◌==◌, ltb, leb, lookup, arith, Bool-cases, inl, inr,
}
use nodejs_pool.Blocks.Runtime.{BlockBalance, Env, World, ok, M, query}
use nodejs_pool.Blocks.Credits.{PaymentRow}
use nodejs_pool.Blocks.Window.{
  Config, ShareData, Scan, window_of, total_payments, first_scan, user_identifier, pay_row,
  add_payment, ◌>>=◌, add_share_payments, or_time, note_times, note_port, ensured, collect_amount,
  collect_pplns, collect_share, collect_height, collect_share_payments,
}
use nodejs_pool.Blocks.Totals.{is_some, capped, IsBalanced, Pays, first_scan-IsBalanced}
use nodejs_pool.Blocks.Caps.{
  IsPercents, value_below, collect_share-Pays, collect_height-Pays, collect_share_payments-Pays,
}
use nodejs_pool.Blocks.Honest.{some_injective}
use nodejs_pool.Blocks.Precalc.{
  Feed, replace_block_balance_rows, timed_scan, scanned, pre_calculate,
}

-- The times are those before.
abbrev SameTimes : Scan → Option Scan → Type 0
SameTimes s r =
    (t : Scan)
    → r ≡ some t
    → (t.first_share_time ≡ s.first_share_time) × (t.last_share_time ≡ s.last_share_time)

SameTimes-refl : (s : Scan) → SameTimes s (some s)
SameTimes-refl s t e = (
  ap (λ u. u.first_share_time) (sym (some_injective e)),
  ap (λ u. u.last_share_time) (sym (some_injective e)),
)

SameTimes-bind :
    (s : Scan) (r : Option Scan) (f : Scan → Option Scan)
    → SameTimes s r
    → ((u : Scan) → SameTimes u (f u))
    → SameTimes s (r >>= f)
SameTimes-bind s none f a b t e = absurd (cc e)
SameTimes-bind s (some u) f a b t e =
    let (x, y) = b u t e in let (x', y') = a u refl in (x ∙ x', y ∙ y')

module _ (c : Config) (window : ℕ) where
  pay_row-SameTimes :
      (k : String) (n : ℕ) (o : Option PaymentRow) (s : Scan) → SameTimes s (pay_row window k n o s)
  pay_row-SameTimes k n none s t e = absurd (cc e)
  pay_row-SameTimes k n (some p) s t e = elim (Bool-cases (ltb window (s.total_shares + n))) [
    | inl q ↦
        let e' = some_injective (rw q at e) in
        (ap (λ u. u.first_share_time) (sym e'), ap (λ u. u.last_share_time) (sym e'))
    | inr q ↦
        let e' = some_injective (rw q at e) in
        (ap (λ u. u.first_share_time) (sym e'), ap (λ u. u.last_share_time) (sym e'))
  ]

  add_payment-SameTimes : (k : String) (n : ℕ) (s : Scan) → SameTimes s (add_payment window k n s)
  unfolding add_payment
  add_payment-SameTimes k n s = elim (Bool-cases (n == 0 || leb window s.total_paid)) [
    | inl q ↦ rw q (SameTimes-refl s)
    | inr q ↦ rw q (pay_row-SameTimes k n (lookup k s.payments) s)
  ]

  add_share_payments-SameTimes :
      (user : String) (v : ℕ) (s : Scan) → SameTimes s (add_share_payments c window user v s)
  unfolding add_share_payments
  add_share_payments-SameTimes user v s =
      SameTimes-bind s _ _ (add_payment-SameTimes user _ s) (λ s1.
        SameTimes-bind s1 _ _ (add_payment-SameTimes c.fee_address _ s1) (λ s2.
          SameTimes-bind s2 _ _ (add_payment-SameTimes c.pool_dev_address _ s2)
            (λ s3. add_payment-SameTimes c.coin_dev_address _ s3)))

  -- Nothing is paid yet, or both times are known.
  abbrev IsTimed : Scan → Type 0
  IsTimed s =
      (s.total_paid ≡ 0)
      ⊎ ((is_some s.first_share_time ≡ true) × (is_some s.last_share_time ≡ true))

  note_port-SameTimes :
      (o : Option ℕ) (v : ℕ) (s : Scan) → SameTimes s (some (note_port c window o v s))
  note_port-SameTimes none v s t e = SameTimes-refl s t e
  note_port-SameTimes (some p) v s t e = (
    ap (λ u. u.first_share_time) (sym (some_injective e)),
    ap (λ u. u.last_share_time) (sym (some_injective e)),
  )

  first_known : (o : Option ℕ) (t : ℕ) → is_some (or_time c window o t) ≡ true
  first_known none t = refl
  first_known (some u) t = refl

  -- After a share the times are known, unless the window is empty.
  noted :
      (d : ShareData) (s t : Scan)
      → IsTimed s
      → t.total_paid ≤ window
      → (t.first_share_time ≡ (note_times c window d s).first_share_time)
        × (t.last_share_time ≡ (note_times c window d s).last_share_time)
      → IsTimed t
  noted d s t timed fits (a, b) = elim (Bool-cases (ltb s.total_paid window)) [
    | inl q ↦
        inr (ap is_some a ∙ first_known s.first_share_time d.timestamp, ap is_some b ∙ rw q refl)
    | inr q ↦ elim timed [
      | inl z ↦ inl (ground (arith, z, q, fits))
      | inr (x, y) ↦
          inr (ap is_some a ∙ first_known s.first_share_time d.timestamp, ap is_some b ∙ rw q y)
    ]
  ]

module _ (c : Config) (percents : IsPercents c) (window : ℕ) where
  collect_amount-IsTimed :
      (z : Bool) (d : ShareData) (s t : Scan)
      → IsTimed c window s
      → t.total_paid ≤ window
      → collect_amount c window z d s ≡ some t
      → IsTimed c window t
  collect_amount-IsTimed true d s t timed fits e = subst (IsTimed c window) (some_injective e) timed
  collect_amount-IsTimed false d s t timed fits e = noted c window d s t timed fits (
      SameTimes-bind (note_times c window d s) _ _
        (add_share_payments-SameTimes c window (user_identifier d) d.shares2
          (note_times c window d s))
        (λ u. note_port-SameTimes c window d.port d.shares2 u) t e)

  collect_pplns-IsTimed :
      (q : Bool) (d : ShareData) (s t : Scan)
      → IsTimed c window s
      → t.total_paid ≤ window
      → collect_pplns c window q d s ≡ some t
      → IsTimed c window t
  collect_pplns-IsTimed false d s t timed fits e = subst (IsTimed c window) (some_injective e) timed
  collect_pplns-IsTimed true d s t timed fits e =
      collect_amount-IsTimed (d.shares2 == 0) d (ensured c window d s) t timed fits e

  collect_share-IsTimed :
      (o : Option ShareData) (s t : Scan)
      → IsTimed c window s
      → t.total_paid ≤ window
      → collect_share c window o s ≡ some t
      → IsTimed c window t
  unfolding collect_share
  collect_share-IsTimed none s t timed fits e = subst (IsTimed c window) (some_injective e) timed
  collect_share-IsTimed (some d) s t timed fits e =
      collect_pplns-IsTimed d.is_pplns d s t timed fits e

  collect_height-IsTimed :
      (ds : List (Option ShareData)) (s t : Scan)
      → IsBalanced c window s
      → IsTimed c window s
      → collect_height c window ds s ≡ some t
      → IsTimed c window t
  unfolding collect_height Pays
  collect_height-IsTimed [] s t b timed e = subst (IsTimed c window) (some_injective e) timed
  collect_height-IsTimed (d ∷ ds) s t b timed e =
      let (u, e', b', paid, kept) = collect_share-Pays c percents window d s b in
      collect_height-IsTimed ds u t b' (collect_share-IsTimed d s u timed b'.fits e') (rw e' at e)

  collect_share_payments-IsTimed :
      (shares : ℕ → List (Option ShareData)) (h : ℕ) (s t : Scan)
      → IsBalanced c window s
      → IsTimed c window s
      → collect_share_payments c window shares h s ≡ some t
      → IsTimed c window t
  unfolding collect_share_payments Pays
  collect_share_payments-IsTimed shares zero s t b timed e =
      subst (IsTimed c window) (some_injective e) timed
  collect_share_payments-IsTimed shares (suc h) s t b timed e =
      elim (Bool-cases (ltb s.total_paid window)) [
        | inr q ↦ subst (IsTimed c window) (some_injective (rw q at e)) timed
        | inl q ↦
            let (u, e', b', paid, kept) =
              collect_height-Pays c percents window (shares (suc h)) s b in
            collect_share_payments-IsTimed shares h u t b'
              (collect_height-IsTimed (shares (suc h)) s u b timed e') (rw (q, e') at e)
      ]

module _ (env : Env) (feed : Feed) (calm : (t : ℕ) → env.fails t ≡ false) where
  replace_block_balance_rows-ok :
      (hexes : List String) (rows : List BlockBalance) (w : World)
      → (replace_block_balance_rows env feed hexes rows w).0 ≡ ok true
  unfolding replace_block_balance_rows query
  replace_block_balance_rows-ok hexes [] w = rw (calm w.ticks) refl
  replace_block_balance_rows-ok hexes (r ∷ rows) w = rw (calm w.ticks, calm (suc w.ticks)) refl

  timed_scan-ok :
      (hexes : List String) (window : ℕ) (s : Scan) (o p : Option ℕ) (w : World)
      → is_some o ≡ true
      → is_some p ≡ true
      → (timed_scan env feed hexes window s o p w).0 ≡ ok true
  timed_scan-ok hexes window s none p w x y = absurd (cc x)
  timed_scan-ok hexes window s (some t) none w x y = absurd (cc y)
  timed_scan-ok hexes window s (some t) (some u) w x y = replace_block_balance_rows-ok hexes _ w

  scanned-ok :
      (again : ℕ → M Bool) (hexes : List String) (height window : ℕ) (s : Scan) (w : World)
      → total_payments s.payments == 0 ≡ false
      → total_payments s.payments ≡ s.total_paid
      → IsTimed feed.config window s
      → (scanned env feed again hexes height window (some s) w).0 ≡ ok true
  scanned-ok again hexes height window s w n sums (inl z) = absurd (ground (arith, n, sums, z))
  scanned-ok again hexes height window s w n sums (inr (x, y)) =
      rw n (timed_scan-ok hexes window s s.first_share_time s.last_share_time w x y)

pays_something :
    {total paid window value : ℕ}
    → total ≡ paid
    → paid ≡ capped window (0 + value)
    → 1 ≤ value
    → 1 ≤ window
    → total == 0 ≡ false
pays_something same paid v w = ground (arith, same, paid, v, w)

-- With percentages that are in range, when no query fails and the shares from the height downwards and
-- the window add up to something, a calculation of payouts has the result true at once, whatever the
-- fuel beyond one.
pub pre_calculate-succeeds :
    (env : Env) (feed : Feed) (fuel : ℕ) (hexes : List String) (height difficulty : ℕ) (w : World)
    → IsPercents feed.config
    → ((t : ℕ) → env.fails t ≡ false)
    → 1 ≤ value_below (feed.shares w.ticks) height
    → 1 ≤ window_of feed.config difficulty
    → (pre_calculate env feed (suc fuel) hexes height difficulty w).0 ≡ ok true
unfolding pre_calculate Pays
pre_calculate-succeeds env feed fuel hexes height difficulty w percents calm some_value
      some_window =
    let window = window_of feed.config difficulty in
    let start = first_scan-IsBalanced feed.config window in
    let (s, e, b, paid, kept) =
      collect_share_payments-Pays feed.config percents window (feed.shares w.ticks) height
        (first_scan feed.config) start in
    let timed =
      collect_share_payments-IsTimed feed.config percents window (feed.shares w.ticks) height
        (first_scan feed.config) s start (inl refl) e in
    rw e (
      scanned-ok env feed calm _ hexes height window s w
        (pays_something b.sums paid some_value some_window) b.sums timed)
