-- ===== src/Blocks/Kept.antt =====
-- lib/common/local_comms.js, `cleanShareDB`, against lib/block_manager.js: a cleanup deletes no share
-- that a payout can still read.
use nodejs_pool.Prelude.{
  ℕ, zero, suc, ◌+◌, ◌*◌, ◌≤◌, ◌≡◌, ◌⊎◌, refl, sym, subst, Bool, true, false, Option, none, some,
  List, [], ◌∷◌, ◌==◌, ltb, leb, sum_by, arith, Bool-cases, inl, inr, All,
}
use nodejs_pool.Blocks.Window.{Config, ShareData, Scan, unit, collect_share_payments, first_scan}
use nodejs_pool.Blocks.Totals.{IsBalanced, Pays, capped, first_scan-IsBalanced}
use nodejs_pool.Blocks.Caps.{IsPercents, value_of, value_below, collect_height-Pays}
use nodejs_pool.Blocks.Cleanup.{
  Shares, CleanScan, pplns_shares, count_shares_until, scan_block, scan_blocks, delete_height,
  delete_blocks,
}

-- A height goes only if the shares above it, from a top height on, are enough.
abbrev pub IsSpare : Shares → ℕ → ℕ → ℕ → Type 0
IsSpare shares top difficulty h = difficulty * unit + value_below shares h ≤ value_below shares top

value_of-pplns_shares : (d : Option ShareData) → pplns_shares d * unit ≡ value_of d
value_of-pplns_shares none = omega arith
value_of-pplns_shares (some d) = elim (Bool-cases d.is_pplns) [
  | inl q ↦ rw q refl
  | inr q ↦ rw q (omega arith)
]

-- A scan has counted a number of shares exactly, or there were enough.
abbrev HasCounted : ℕ → ℕ → CleanScan → Type 0
HasCounted difficulty n s =
    ((s.pplns_found ≡ false) × (s.share_count * unit ≡ n)) ⊎ (difficulty * unit ≤ n)

count_until-counts :
    (difficulty : ℕ) (ds : List (Option ShareData)) (s : CleanScan)
    → s.pplns_found ≡ false
    → HasCounted difficulty
        (s.share_count * unit + sum_by value_of ds)
        (count_shares_until difficulty ds s)
unfolding count_shares_until
count_until-counts difficulty [] s e = inl (e, omega arith)
count_until-counts difficulty (d ∷ ds) s e =
    let v = value_of-pplns_shares d in
    elim (Bool-cases (leb difficulty (s.share_count + pplns_shares d))) [
      | inl q ↦ inr (ground (arith, v))
      | inr q ↦
          rw q
            (elim (count_until-counts difficulty ds
              (record s { share_count = s.share_count + pplns_shares d }) e) [
                | inl (f, c) ↦ inl (f, omega (arith, c, v))
                | inr le ↦ inr (omega (arith, le, v))
              ])
    ]

count_until-block_set :
    (difficulty : ℕ) (ds : List (Option ShareData)) (s : CleanScan)
    → (count_shares_until difficulty ds s).block_set ≡ s.block_set
unfolding count_shares_until
count_until-block_set difficulty [] s = refl
count_until-block_set difficulty (d ∷ ds) s =
    elim (Bool-cases (leb difficulty (s.share_count + pplns_shares d))) [
      | inl q ↦ rw q refl
      | inr q ↦ rw q (
          count_until-block_set difficulty ds
            (record s { share_count = s.share_count + pplns_shares d }))
    ]

-- A scan has counted all from a total down to what is below it, or it was enough.
abbrev IsDown : ℕ → ℕ → ℕ → CleanScan → Type 0
IsDown difficulty total below s =
    ((s.pplns_found ≡ false) × (s.share_count * unit + below ≡ total))
    ⊎ (difficulty * unit + below ≤ total)

scan_block-IsDown :
    (difficulty total below block : ℕ) (ds : List (Option ShareData)) (s : CleanScan)
    → IsDown difficulty total (sum_by value_of ds + below) s
    → IsDown difficulty total below (scan_block difficulty block ds s)
scan_block-IsDown difficulty total below block [] s (inl (f, c)) = inl (f, omega (arith, c))
scan_block-IsDown difficulty total below block [] s (inr le) = inr (omega (arith, le))
scan_block-IsDown difficulty total below block (d ∷ ds) s (inr le) = inr (omega (arith, le))
scan_block-IsDown difficulty total below block (d ∷ ds) s (inl (f, c)) =
    simp f (elim (count_until-counts difficulty (d ∷ ds) s f) [
      | inl (g, n) ↦ inl (g, omega (arith, c, n))
      | inr le ↦ inr (omega (arith, c, le))
    ])

scan_block-All :
    (P : ℕ → Type 0) (difficulty block : ℕ) (ds : List (Option ShareData)) (s : CleanScan)
    → All P s.block_set
    → (s.pplns_found ≡ true → P block)
    → All P (scan_block difficulty block ds s).block_set
scan_block-All P difficulty block [] s a p = a
scan_block-All P difficulty block (d ∷ ds) s a p = elim (Bool-cases s.pplns_found) [
  | inl f ↦ simp f (p f, a)
  | inr f ↦ simp f (subst (All P) (sym (count_until-block_set difficulty (d ∷ ds) s)) a)
]

module _ (shares : Shares) (top difficulty : ℕ) where
  when_found :
      (h : ℕ) (s : CleanScan)
      → IsDown difficulty (value_below shares top) (value_below shares h) s
      → s.pplns_found ≡ true
      → IsSpare shares top difficulty h
  when_found h s (inl (f, c)) e = absurd (cc (f, e))
  when_found h s (inr le) e = le

  pub scan_blocks-IsSpare :
      (h : ℕ) (s : CleanScan)
      → IsDown difficulty (value_below shares top) (value_below shares h) s
      → All (IsSpare shares top difficulty) s.block_set
      → All (IsSpare shares top difficulty) (scan_blocks difficulty shares h s).block_set
  unfolding scan_blocks value_below
  scan_blocks-IsSpare zero s c a = a
  scan_blocks-IsSpare (suc h) s c a =
      scan_blocks-IsSpare h _ (scan_block-IsDown difficulty _ _ (suc h) (shares (suc h)) s c)
        (scan_block-All _ difficulty (suc h) (shares (suc h)) s a (when_found (suc h) s c))

to_eq : {m n : ℕ} → m == n ≡ true → m ≡ n
to_eq h = ground arith

module _ (shares : Shares) (P : ℕ → Type 0) where
  -- Shares that are the same but at heights with a property.
  unfoldable pub IsCleaned : Shares → Type 0
  IsCleaned new = (h : ℕ) → (new h ≡ shares h) ⊎ P h

  delete_height-IsCleaned :
      (h : ℕ) (new : Shares) → P h → IsCleaned new → IsCleaned (delete_height h new)
  unfolding IsCleaned
  delete_height-IsCleaned h new p c k = elim (Bool-cases (k == h)) [
    | inl q ↦ inr (subst P (sym (to_eq q)) p)
    | inr q ↦ rw q (c k)
  ]

  pub delete_blocks-IsCleaned :
      (fails : ℕ → Bool) (batch : ℕ) (hs : List ℕ) (opened committed : Shares)
      → All P hs
      → IsCleaned opened
      → IsCleaned committed
      → IsCleaned (delete_blocks fails batch hs opened committed).1
  unfolding delete_blocks
  delete_blocks-IsCleaned fails batch [] opened committed a o c = elim (Bool-cases (fails 0)) [
    | inl q ↦ rw q c
    | inr q ↦ rw q o
  ]
  delete_blocks-IsCleaned fails batch (h ∷ hs) opened committed (p, a) o c =
      let d = delete_height-IsCleaned h opened p o in
      elim (Bool-cases (fails h)) [
        | inl q ↦ rw q c
        | inr q ↦ elim (Bool-cases (ltb 100 (suc batch))) [
          | inl x ↦ rw (q, x) (delete_blocks-IsCleaned fails 0 hs _ _ a d d)
          | inr x ↦ rw (q, x) (delete_blocks-IsCleaned fails (suc batch) hs _ committed a d c)
        ]
      ]

value_below_mono : (shares : Shares) (h k : ℕ) → h ≤ k → value_below shares h ≤ value_below shares k
unfolding value_below
value_below_mono shares h zero le = let e : h ≡ 0 = omega arith in rw e (omega arith)
value_below_mono shares h (suc k) le = elim (Bool-cases (h == suc k)) [
  | inl q ↦ rw (to_eq q) (omega arith)
  | inr q ↦ omega (arith, value_below_mono shares h k (ground arith))
]

-- A payout from a height on reads no share that is gone, when the cleanup kept its window below.
module _ (c : Config) (percents : IsPercents c) (window top difficulty start : ℕ)
    (old new : Shares) where
  abbrev pub IsPaidTo : ℕ → ℕ → Scan → Type 0
  IsPaidTo v h s =
      IsBalanced c window s
      × (s.total_paid ≡ capped window v)
      × (v + value_below old h ≡ value_below old start)

  collect-same :
      (h v : ℕ) (s : Scan)
      → window ≤ difficulty * unit
      → value_below old top ≤ value_below old start
      → IsCleaned old (IsSpare old top difficulty) new
      → IsPaidTo v h s
      → collect_share_payments c window new h s ≡ collect_share_payments c window old h s
  unfolding collect_share_payments value_below IsCleaned Pays
  collect-same zero v s fits above clean p = refl
  collect-same (suc h) v s fits above clean (b, paid, sum) =
      elim (Bool-cases (ltb s.total_paid window)) [
        | inr q ↦ rw q refl
        | inl q ↦
            let kept : new (suc h) ≡ old (suc h) = elim (clean (suc h)) [
              | inl e ↦ e
              | inr spare ↦ absurd (ground (arith, paid, sum, spare, above, fits))
            ] in
            let (t, e, b', paid', rest) = collect_height-Pays c percents window (old (suc h)) s b in
            rw (q, kept, e)
              (collect-same h (v + sum_by value_of (old (suc h))) t fits above clean
                (b', ground (arith, paid, paid'), omega (arith, sum)))
      ]

  -- A scan from the start is not changed by a cleanup below it.
  pub collect-cleaned :
      window ≤ difficulty * unit
      → top ≤ start
      → IsCleaned old (IsSpare old top difficulty) new
      → collect_share_payments c window new start (first_scan c)
        ≡ collect_share_payments c window old start (first_scan c)
  collect-cleaned fits le clean =
      collect-same start 0 (first_scan c) fits (value_below_mono old top start le) clean
        (first_scan-IsBalanced c window, ground arith, omega arith)
