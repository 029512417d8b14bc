-- ===== src/Blocks/Honest.antt =====
-- lib/block_manager.js: only a block whose payout is recorded is unlocked.
use nodejs_pool.Prelude.{
  ℕ, zero, suc, ◌≡◌, ◌⊎◌, refl, sym, subst, Bool, true, Option, none, some, List, [], ◌∷◌, String,
  ◌==◌, str_eq, str_eq_iff, Bool-cases, Option-cases, inl, inr, All,
}
use nodejs_pool.Blocks.Runtime.{PaidBlock, BlockBalance, Env, World, Outcome, ok, M, query}
use nodejs_pool.Blocks.Crediting.{IsReady}
use nodejs_pool.Blocks.Payout.{is_paid, execute_payout}
use nodejs_pool.Blocks.Atomic.{Settles, do_pplns_payments-Settles}
use nodejs_pool.Blocks.Precalc.{
  Feed, replace_block_balance_rows, pre_calculate, scanned, retry_at, timed_scan, tick,
}
use nodejs_pool.Blocks.Window.{Scan, total_payments}
use nodejs_pool.Blocks.Chain.{Block, AltBlock, rewrite_if, rewrite_key}
use nodejs_pool.Blocks.Unlocker.{Unlocker}

-- What is paid stays paid, and the balances stay ready.
unfoldable pub GoesOn : World → World → Type 0
GoesOn w v =
    ((h : String) → is_paid h w.tables.paid_blocks ≡ true → is_paid h v.tables.paid_blocks ≡ true)
    × (IsReady w.tables → IsReady v.tables)

pub GoesOn-same :
    (w v : World)
    → v.tables.paid_blocks ≡ w.tables.paid_blocks
    → (IsReady w.tables → IsReady v.tables)
    → GoesOn w v
unfolding GoesOn
GoesOn-same w v e r = (λ h p. subst (λ ps. is_paid h ps ≡ true) (sym e) p, r)

pub GoesOn-refl : (w : World) → GoesOn w w
GoesOn-refl w = GoesOn-same w w refl (λ r. r)

pub GoesOn-trans : (u v w : World) → GoesOn u v → GoesOn v w → GoesOn u w
unfolding GoesOn
GoesOn-trans u v w a b = (λ h p. b.0 h (a.0 h p), λ r. b.1 (a.1 r))

is_paid-head : (p : PaidBlock) (ps : List PaidBlock) → is_paid p.hex (p ∷ ps) ≡ true
unfolding is_paid
is_paid-head p ps = rw ((str_eq_iff p.hex p.hex).1 refl) refl

is_paid-tail :
    (h : String) (p : PaidBlock) (ps : List PaidBlock)
    → is_paid h ps ≡ true
    → is_paid h (p ∷ ps) ≡ true
unfolding is_paid
is_paid-tail h p ps e = elim (Bool-cases (str_eq p.hex h)) [ inl q ↦ rw q refl | inr q ↦ rw q e ]

-- The block is recorded, or nothing is.
abbrev pub IsAdded : PaidBlock → World → World → Type 0
IsAdded p w v =
    (v.tables.paid_blocks ≡ p ∷ w.tables.paid_blocks)
    ⊎ (v.tables.paid_blocks ≡ w.tables.paid_blocks)

module _ (env : Env) where
  -- A payout goes on, and with the result `true` the block is paid.
  Settles-GoesOn :
      (p : PaidBlock) (n : ℕ) (w : World) (r : Outcome Bool × World)
      → Settles p n w.tables r
      → GoesOn w r.1
        × (r.0 ≡ ok true → is_paid p.hex r.1.tables.paid_blocks ≡ true)
        × IsAdded p w r.1
  unfolding Settles GoesOn
  Settles-GoesOn p n w (o, v) (inl ((e, f, s, g), d)) = (
    (
      λ h q. subst (λ ps. is_paid h ps ≡ true) (sym e) (is_paid-tail h p w.tables.paid_blocks q),
      λ r. g,
    ),
    λ x. subst (λ ps. is_paid p.hex ps ≡ true) (sym e) (is_paid-head p w.tables.paid_blocks),
    inl e,
  )
  Settles-GoesOn p n w (o, v) (inr ((e, s, g), d)) =
      ((λ h q. subst (λ ps. is_paid h ps ≡ true) (sym e) q, g), λ x. absurd (d x), inr e)

  pub execute_payout-GoesOn :
      (p : PaidBlock) (w : World)
      → IsReady w.tables
      → GoesOn w (execute_payout env p w).1
        × ((execute_payout env p w).0 ≡ ok true
            → is_paid p.hex (execute_payout env p w).1.tables.paid_blocks ≡ true)
        × IsAdded p w (execute_payout env p w).1
  unfolding execute_payout GoesOn
  execute_payout-GoesOn p w r = elim (Bool-cases w.payment_in_progress) [
    | inl q ↦ rw q ((λ h x. x, λ x. x), λ x. absurd (cc x), inr refl)
    | inr q ↦ rw q (
        Settles-GoesOn p _ (record w { payment_in_progress = true }) _
          (do_pplns_payments-Settles env p (record w { payment_in_progress = true }) r))
  ]

-- A calculation of payouts touches no balance and no paid block.
abbrev pub IsCalculated : World → World → Type 0
IsCalculated w v =
    (v.tables.paid_blocks ≡ w.tables.paid_blocks)
    × (v.tables.balances ≡ w.tables.balances)
    × (v.tables.next_balance_id ≡ w.tables.next_balance_id)

module _ (env : Env) (feed : Feed) where
  replace_block_balance_rows-IsCalculated :
      (hexes : List String) (rows : List BlockBalance) (w : World)
      → IsCalculated w (replace_block_balance_rows env feed hexes rows w).1
  unfolding replace_block_balance_rows query
  replace_block_balance_rows-IsCalculated hexes [] w = elim (Bool-cases (env.fails w.ticks)) [
    | inl f ↦ rw f (refl, refl, refl)
    | inr f ↦ rw f (refl, refl, refl)
  ]
  replace_block_balance_rows-IsCalculated hexes (r ∷ rows) w =
      elim (Bool-cases (env.fails w.ticks)) [
        | inl f ↦ rw f (refl, refl, refl)
        | inr f ↦ rw f (elim (Bool-cases (env.fails (suc w.ticks))) [
          | inl g ↦ rw g (refl, refl, refl)
          | inr g ↦ rw g (refl, refl, refl)
        ])
      ]

  store_scan-IsCalculated :
      (hexes : List String) (window : ℕ) (s : Scan) (a b : Option ℕ) (w : World)
      → IsCalculated w (timed_scan env feed hexes window s a b w).1
  store_scan-IsCalculated hexes window s (some a) (some b) w =
      replace_block_balance_rows-IsCalculated hexes _ w
  store_scan-IsCalculated hexes window s (some a) none w = (refl, refl, refl)
  store_scan-IsCalculated hexes window s none b w = (refl, refl, refl)

  IsCalculated-tick : (w v : World) → IsCalculated (tick w) v → IsCalculated w v
  IsCalculated-tick w v k = k

  retry_at-IsCalculated :
      (again : ℕ → M Bool) (height : ℕ) (o : Option ℕ) (w : World)
      → ((top : ℕ) (v : World) → IsCalculated v (again top v).1)
      → IsCalculated w (retry_at env feed again height o w).1
  retry_at-IsCalculated again height none w k = (refl, refl, refl)
  retry_at-IsCalculated again height (some top) w k = elim (Bool-cases (top == height)) [
    | inl q ↦ rw q (refl, refl, refl)
    | inr q ↦ rw q (k top w)
  ]

  scanned-IsCalculated :
      (again : ℕ → M Bool) (hexes : List String) (height window : ℕ) (o : Option Scan) (w : World)
      → ((top : ℕ) (v : World) → IsCalculated v (again top v).1)
      → IsCalculated w (scanned env feed again hexes height window o w).1
  scanned-IsCalculated again hexes height window none w k = (refl, refl, refl)
  scanned-IsCalculated again hexes height window (some s) w k =
      elim (Bool-cases (total_payments s.payments == 0)) [
        | inl q ↦ rw q (retry_at-IsCalculated again height (feed.top_height w.ticks) (tick w) k)
        | inr q ↦
            rw q (store_scan-IsCalculated hexes window s s.first_share_time s.last_share_time w)
      ]

  pub pre_calculate-IsCalculated :
      (fuel : ℕ) (hexes : List String) (height difficulty : ℕ) (w : World)
      → IsCalculated w (pre_calculate env feed fuel hexes height difficulty w).1
  unfolding pre_calculate
  pre_calculate-IsCalculated zero hexes height difficulty w = (refl, refl, refl)
  pre_calculate-IsCalculated (suc fuel) hexes height difficulty w =
      scanned-IsCalculated (λ top. pre_calculate env feed fuel hexes top difficulty) hexes height _
        _ w (λ top v. pre_calculate-IsCalculated fuel hexes top difficulty v)

pub some_injective : {A : Type 0} {a b : A} → some a ≡ some b → a ≡ b
some_injective h = cc h

-- The hash of every block that is unlocked and valid is paid.
abbrev pub IsEarned : List PaidBlock → Block → Type 0
IsEarned ps b = b.valid ≡ true → b.unlocked ≡ true → is_paid b.hash ps ≡ true

abbrev pub IsAltEarned : List PaidBlock → AltBlock → Type 0
IsAltEarned ps b = b.valid ≡ true → b.unlocked ≡ true → is_paid b.hash ps ≡ true

unfoldable pub IsHonest : (PaidBlock → Type 0) → Unlocker → Type 0
IsHonest J s =
    All (IsEarned s.bank.tables.paid_blocks) s.chain.blocks
    × All (IsAltEarned s.bank.tables.paid_blocks) s.chain.alt_blocks
    × IsReady s.bank.tables
    × All J s.bank.tables.paid_blocks

pub All-map :
    {A : Type 0} (P Q : A → Type 0) (xs : List A) → ((x : A) → P x → Q x) → All P xs → All Q xs
All-map P Q [] f h = tt
All-map P Q (x ∷ xs) f h = (f x h.0, All-map P Q xs f h.1)

pub All-rewrite_if :
    {A : Type 0} (P : A → Type 0) (p : A → Bool) (f : A → A) (xs : List A)
    → ((x : A) → p x ≡ true → P x → P (f x))
    → All P xs
    → All P (rewrite_if p f xs)
unfolding rewrite_if
All-rewrite_if P p f [] k h = tt
All-rewrite_if P p f (x ∷ xs) k h = elim (Bool-cases (p x)) [
  | inl q ↦ rw q (k x q h.0, All-rewrite_if P p f xs k h.1)
  | inr q ↦ rw q (h.0, All-rewrite_if P p f xs k h.1)
]

pub All-rewrite_key :
    {A : Type 0} (P : A → Type 0) (p : A → Bool) (f : A → A) (xs ys : List A)
    → ((x : A) → P (f x))
    → All P xs
    → rewrite_key p f xs ≡ some ys
    → All P ys
unfolding rewrite_key
All-rewrite_key P p f [] ys k h e = absurd (cc e)
All-rewrite_key P p f (x ∷ xs) ys k h e = elim (Bool-cases (p x)) [
  | inl q ↦ subst (All P) (some_injective (rw q at e)) (k x, h.1)
  | inr q ↦ elim (Option-cases (rewrite_key p f xs)) [
    | inl r ↦ absurd (cc (rw (q, r) at e))
    | inr (zs, r) ↦
        subst (All P) (some_injective (rw (q, r) at e)) (h.0, All-rewrite_key P p f xs zs k h.1 r)
  ]
]

pub each_known : (ps : List PaidBlock) → All (λ p. is_paid p.hex ps ≡ true) ps
each_known [] = tt
each_known (p ∷ ps) =
    (is_paid-head p ps, All-map _ _ ps (λ q h. is_paid-tail q.hex p ps h) (each_known ps))
