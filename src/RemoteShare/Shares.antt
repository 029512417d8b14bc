-- ===== src/RemoteShare/Shares.antt =====
-- lib/remote_share/share_store.js: which shares are storable. A field of a decoded message is any
-- JavaScript value. A number is a whole number of millionths, and an integer a multiple of a million.
use nodejs_pool.Prelude.{
  ℕ, suc, ◌*◌, ◌/◌, ◌%◌, Bool, true, false, ◌&&◌, Option, none, some, String, leb, ◌==◌,
  if◌then◌else◌, ℤ, pos, negsuc,
}

pub data Value : Type 0 where
  undefined null other not_finite : Value
  text : String → Value
  truth : Bool → Value
  number : ℤ → Value

pub record RawShare : Type 0 where
  pub payment_address : Value
  pub identifier : Value
  pub pool_type : Value
  pub raw_shares : Value
  pub block_height : Value
  pub found_block : Value
  pub trusted_share : Value
  pub pool_id : Value
  pub block_diff : Value
  pub timestamp : Value
  pub payment_id : Value
  pub port : Value
  pub shares : Value
  pub shares2 : Value
  pub share_num : Value

abbrev pub one : ℕ
one = 1_000_000

abbrev pub is_text : Value → Bool
is_text (text s) = true
is_text _ = false

abbrev pub is_truth : Value → Bool
is_truth (truth b) = true
is_truth _ = false

abbrev pub is_whole : ℤ → Bool
is_whole (pos n) = n % one == 0
is_whole (negsuc n) = suc n % one == 0

-- `Number.isInteger`, and an integer between `-low` and `high`.
abbrev pub is_integer : Value → Bool
is_integer (number z) = is_whole z
is_integer _ = false

abbrev pub is_within : ℕ → ℕ → ℤ → Bool
is_within low high (pos n) = leb n (high * one)
is_within low high (negsuc n) = leb (suc n) (low * one)

abbrev pub is_integer_in : ℕ → ℕ → Value → Bool
is_integer_in low high (number z) = is_whole z && is_within low high z
is_integer_in low high _ = false

-- `typeof rawShares === "number" && Number.isFinite(rawShares) && rawShares >= 0`.
abbrev pub is_amount : Value → Bool
is_amount (number (pos n)) = true
is_amount _ = false

abbrev pub or_undefined : (Value → Bool) → Value → Bool
or_undefined p undefined = true
or_undefined p v = p v

abbrev pub is_payment_id : Value → Bool
is_payment_id undefined = true
is_payment_id null = true
is_payment_id (text s) = true
is_payment_id _ = false

-- `isStorableShare`, of an object.
unfoldable pub is_storable_share : RawShare → Bool
is_storable_share s =
    is_text s.payment_address
    && (is_text s.identifier
        && (is_integer_in 0 3 s.pool_type
            && (is_amount s.raw_shares
                && (is_integer_in 0 4_294_967_295 s.block_height
                    && (is_truth s.found_block
                        && (is_truth s.trusted_share
                            && (is_integer_in 2_147_483_648 2_147_483_647 s.pool_id
                                && (is_integer s.block_diff
                                    && (is_integer s.timestamp
                                        && (is_payment_id s.payment_id
                                            && (or_undefined
                                                  (is_integer_in 2_147_483_648 2_147_483_647) s.port
                                                && (or_undefined is_integer s.shares
                                                    && (or_undefined is_integer s.shares2
                                                        && or_undefined is_integer
                                                            s.share_num)))))))))))))

-- The fields of a storable share that the store reads.
abbrev pub text_of : Value → String
text_of (text s) = s
text_of _ = ""

abbrev pub amount_of : Value → ℕ
amount_of (number (pos n)) = n
amount_of _ = 0

abbrev pub payment_id_of : Value → Option String
payment_id_of (text s) = some s
payment_id_of _ = none

abbrev pub number_of : Value → Option ℤ
number_of (number z) = some z
number_of _ = none

pub record Share : Type 0 where
  pub payment_address : String
  pub identifier : String
  pub pool_type : ℕ
  pub raw_shares : ℕ
  pub block_height : ℕ
  pub payment_id : Option String
  pub port : Option ℤ
  pub share_num : Option ℤ

abbrev pub as_share : RawShare → Share
as_share s = record {
  payment_address = text_of s.payment_address;
  identifier = text_of s.identifier;
  pool_type = amount_of s.pool_type / one;
  raw_shares = amount_of s.raw_shares;
  block_height = amount_of s.block_height / one;
  payment_id = payment_id_of s.payment_id;
  port = number_of s.port;
  share_num = number_of s.share_num;
}

-- A message that is no object is not storable either.
abbrev pub storable : Option RawShare → Option Share
storable none = none
storable (some s) = if is_storable_share s then some (as_share s) else none
