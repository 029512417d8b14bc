-- ===== src/Blocks/Oldest.antt =====
-- lib/common/local_comms.js, `getOldestLockedBlockHeight`, and the heights it looks for.
use nodejs_pool.Prelude.{
  ℕ, ◌≡◌, refl, sym, ◌∙◌, ap, Bool, true, false, not, ◌&&◌, Option, none, some, List, [], ◌∷◌, ◌++◌,
  if◌then◌else◌, arith, Bool-cases, inl, inr, min,
}
use nodejs_pool.Blocks.Chain.{
  Block, AltBlock, Chain, is_older, oldest_of_alt_blocks, oldest_of_blocks,
  get_oldest_locked_block_height,
}

-- The heights whose shares a payout still has to read: of the locked blocks that are not ready for it.
unfoldable pub waiting_anchors : List AltBlock → List ℕ
waiting_anchors [] = []
waiting_anchors (b ∷ bs) =
    if not b.unlocked && not b.pay_ready
    then b.anchor_height ∷ waiting_anchors bs
    else waiting_anchors bs

unfoldable pub waiting_heights : List Block → List ℕ
waiting_heights [] = []
waiting_heights (b ∷ bs) =
    if not b.unlocked && not b.pay_ready then b.height ∷ waiting_heights bs else waiting_heights bs

abbrev pub lower : ℕ → Option ℕ → Option ℕ
lower n none = some n
lower n (some m) = some (min n m)

-- The least of a list.
unfoldable pub least : List ℕ → Option ℕ
least [] = none
least (n ∷ ns) = lower n (least ns)

abbrev pub lower_of : Option ℕ → Option ℕ → Option ℕ
lower_of none o = o
lower_of (some n) o = lower n o

lower_of-none : (o : Option ℕ) → lower_of o none ≡ o
lower_of-none none = refl
lower_of-none (some n) = refl

-- A height that is seen next, where it is older or not.
lower_of-older :
    (o p : Option ℕ) (n : ℕ) → is_older o n ≡ true → lower_of (some n) p ≡ lower_of o (lower n p)
lower_of-older none p n h = refl
lower_of-older (some m) none n h = ap some (ground arith)
lower_of-older (some m) (some k) n h = ap some (ground arith)

lower_of-newer :
    (o p : Option ℕ) (n : ℕ) → is_older o n ≡ false → lower_of o p ≡ lower_of o (lower n p)
lower_of-newer none p n h = absurd (cc h)
lower_of-newer (some m) none n h = ap some (ground arith)
lower_of-newer (some m) (some k) n h = ap some (ground arith)

and_true : (a b : Bool) → a && b ≡ true → (a ≡ true) × (b ≡ true)
and_true true b e = (refl, e)
and_true false b e = absurd (cc e)

and_assoc_false : (a b c : Bool) → a && b ≡ false → a && (b && c) ≡ false
and_assoc_false false b c h = refl
and_assoc_false true false c h = refl
and_assoc_false true true c h = absurd (cc h)

and_false : (a : Bool) → a && false ≡ false
and_false true = refl
and_false false = refl

oldest_of_alt_blocks-least :
    (o : Option ℕ) (bs : List AltBlock)
    → oldest_of_alt_blocks o bs ≡ lower_of o (least (waiting_anchors bs))
unfolding oldest_of_alt_blocks waiting_anchors least
oldest_of_alt_blocks-least o [] = sym (lower_of-none o)
oldest_of_alt_blocks-least o (b ∷ bs) = elim (Bool-cases (not b.unlocked && not b.pay_ready)) [
  | inl q ↦
      let (u, r) = and_true (not b.unlocked) (not b.pay_ready) q in
      elim (Bool-cases (is_older o b.anchor_height)) [
        | inl a ↦
            rw (u, r, a)
              (oldest_of_alt_blocks-least (some b.anchor_height) bs
                ∙ lower_of-older o (least (waiting_anchors bs)) b.anchor_height a)
        | inr a ↦
            rw (u, r, a)
              (oldest_of_alt_blocks-least o bs
                ∙ lower_of-newer o (least (waiting_anchors bs)) b.anchor_height a)
      ]
  | inr q ↦
      rw (and_assoc_false (not b.unlocked) (not b.pay_ready) (is_older o b.anchor_height) q, q)
        (oldest_of_alt_blocks-least o bs)
]

oldest_of_blocks-least :
    (o : Option ℕ) (bs : List Block)
    → oldest_of_blocks o bs ≡ lower_of o (least (waiting_heights bs))
unfolding oldest_of_blocks waiting_heights least
oldest_of_blocks-least o [] = sym (lower_of-none o)
oldest_of_blocks-least o (b ∷ bs) = elim (Bool-cases (not b.unlocked && not b.pay_ready)) [
  | inl q ↦ elim (Bool-cases (is_older o b.height)) [
    | inl a ↦
        rw (q, a)
          (oldest_of_blocks-least (some b.height) bs
            ∙ lower_of-older o (least (waiting_heights bs)) b.height a)
    | inr a ↦
        rw (q, a)
          (oldest_of_blocks-least o bs ∙ lower_of-newer o (least (waiting_heights bs)) b.height a)
  ]
  | inr q ↦ rw (q, and_false (is_older o b.height)) (oldest_of_blocks-least o bs)
]

lower_of_assoc : (n : ℕ) (o p : Option ℕ) → lower_of (lower n o) p ≡ lower n (lower_of o p)
lower_of_assoc n none p = refl
lower_of_assoc n (some m) none = refl
lower_of_assoc n (some m) (some k) = ap some (ground arith)

lower_of-append : (ms ns : List ℕ) → lower_of (least ms) (least ns) ≡ least (ms ++ ns)
unfolding least
lower_of-append [] ns = refl
lower_of-append (m ∷ ms) ns =
    lower_of_assoc m (least ms) (least ns) ∙ ap (lower m) (lower_of-append ms ns)

-- The height that the cleanup of the shares starts from is the least of the heights of the locked
-- blocks and of the anchors of the locked alt blocks that are not ready to be paid, and there is none
-- only where no such block is.
pub get_oldest_locked_block_height-least :
    (c : Chain)
    → get_oldest_locked_block_height c
      ≡ least (waiting_anchors c.alt_blocks ++ waiting_heights c.blocks)
unfolding get_oldest_locked_block_height
get_oldest_locked_block_height-least c =
    oldest_of_blocks-least (oldest_of_alt_blocks none c.alt_blocks) c.blocks
    ∙ ap (λ o. lower_of o (least (waiting_heights c.blocks)))
        (oldest_of_alt_blocks-least none c.alt_blocks)
    ∙ lower_of-append (waiting_anchors c.alt_blocks) (waiting_heights c.blocks)
