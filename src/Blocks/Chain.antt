-- ===== src/Blocks/Chain.antt =====
-- lib/common/local_comms.js: the found blocks in LMDB and the operations of the block manager on them.
-- A block stands under its height, an alt block under its id, in the order of the keys.
use nodejs_pool.Prelude.{
  ℕ, Bool, true, false, not, ◌&&◌, Option, none, some, List, [], ◌∷◌, String, ◌==◌, ltb, str_eq,
  if◌then◌else◌, keep_if,
}

pub record Block : Type 0 where
  pub height : ℕ
  pub hash : String
  pub difficulty : ℕ
  pub timestamp : ℕ
  pub value : Option ℕ
  pub is_pplns : Bool
  pub valid : Bool
  pub unlocked : Bool
  pub pay_ready : Bool

pub record AltBlock : Type 0 where
  pub id : ℕ
  pub hash : String
  pub height : ℕ
  pub anchor_height : ℕ
  pub timestamp : ℕ
  pub port : ℕ
  pub value : Option ℕ
  pub pay_value : Option ℕ
  pub is_pplns : Bool
  pub valid : Bool
  pub unlocked : Bool
  pub pay_ready : Bool

pub record Chain : Type 0 where
  pub blocks : List Block
  pub alt_blocks : List AltBlock

-- `getValidLockedBlocks` and `getValidLockedAltBlocks`.
unfoldable pub get_valid_locked_blocks : Chain → List Block
get_valid_locked_blocks c = keep_if (λ b. b.valid && not b.unlocked) c.blocks

unfoldable pub get_valid_locked_alt_blocks : Chain → List AltBlock
get_valid_locked_alt_blocks c = keep_if (λ b. b.valid && not b.unlocked) c.alt_blocks

module _ {A : Type 0} where
  -- The scan with a cursor that rewrites what passes a test.
  unfoldable pub rewrite_if : (A → Bool) → (A → A) → List A → List A
  rewrite_if p f [] = []
  rewrite_if p f (x ∷ xs) = (if p x then f x else x) ∷ rewrite_if p f xs

  -- The record under a key, which throws where there is none.
  unfoldable pub rewrite_key : (A → Bool) → (A → A) → List A → Option (List A)
  rewrite_key p f [] = none
  rewrite_key p f (x ∷ xs) =
      let rest = rewrite_key p f xs in
      if p x then some (f x ∷ xs) else elim rest [ none ↦ none | some ys ↦ some (x ∷ ys) ]

abbrev pub set_blocks : Chain → Option (List Block) → Option Chain
set_blocks c none = none
set_blocks c (some bs) = some (record c { blocks = bs })

abbrev pub set_alt_blocks : Chain → Option (List AltBlock) → Option Chain
set_alt_blocks c none = none
set_alt_blocks c (some bs) = some (record c { alt_blocks = bs })

-- `invalidateBlock` and `invalidateAltBlock`.
unfoldable pub invalidate_block : ℕ → Chain → Option Chain
invalidate_block height c = set_blocks c (
    rewrite_key (λ b. b.height == height) (λ b. record b { valid = false; unlocked = true })
      c.blocks)

unfoldable pub invalidate_alt_block : ℕ → Chain → Option Chain
invalidate_alt_block id c =
    set_alt_blocks c (
      rewrite_key (λ b. b.id == id) (λ b. record b { valid = false; unlocked = true }) c.alt_blocks)

-- `unlockBlock` and `unlockAltBlock`: every block with the hash.
unfoldable pub unlock_block : String → Chain → Chain
unlock_block hash c = record c {
  blocks = rewrite_if (λ b. str_eq b.hash hash) (λ b. record b { unlocked = true }) c.blocks;
}

unfoldable pub unlock_alt_block : String → Chain → Chain
unlock_alt_block hash c = record c {
  alt_blocks =
      rewrite_if (λ b. str_eq b.hash hash) (λ b. record b { unlocked = true }) c.alt_blocks;
}

-- `payReadyBlock` and `payReadyAltBlock`.
unfoldable pub pay_ready_block : String → Chain → Chain
pay_ready_block hash c = record c {
  blocks = rewrite_if (λ b. str_eq b.hash hash) (λ b. record b { pay_ready = true }) c.blocks;
}

unfoldable pub pay_ready_alt_block : String → Chain → Chain
pay_ready_alt_block hash c = record c {
  alt_blocks =
      rewrite_if (λ b. str_eq b.hash hash) (λ b. record b { pay_ready = true }) c.alt_blocks;
}

-- `getOldestLockedBlockHeight`: the alt blocks first, then the blocks.
abbrev pub is_older : Option ℕ → ℕ → Bool
is_older none h = true
is_older (some oldest) h = ltb h oldest

unfoldable pub oldest_of_alt_blocks : Option ℕ → List AltBlock → Option ℕ
oldest_of_alt_blocks o [] = o
oldest_of_alt_blocks o (b ∷ bs) =
    oldest_of_alt_blocks
      (if not b.unlocked && (not b.pay_ready && is_older o b.anchor_height)
        then some b.anchor_height
        else o)
      bs

unfoldable pub oldest_of_blocks : Option ℕ → List Block → Option ℕ
oldest_of_blocks o [] = o
oldest_of_blocks o (b ∷ bs) =
    oldest_of_blocks
      (if is_older o b.height && (not b.unlocked && not b.pay_ready) then some b.height else o) bs

unfoldable pub get_oldest_locked_block_height : Chain → Option ℕ
get_oldest_locked_block_height c =
    oldest_of_blocks (oldest_of_alt_blocks none c.alt_blocks) c.blocks
