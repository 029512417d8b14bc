-- ===== src/Common/WorkCodec/RoundTrip.antt =====
-- lib/common/work_codec.js, `encode` and `decode`: the amounts of work come back.
use nodejs_pool.Prelude.{◌≡◌, true, false, Option, some, List, String}
use nodejs_pool.Common.WorkCodec.{field, field_double, Value, Message}
use nodejs_pool.Common.WorkCodec.Steps.{has_name, SameAt, Steps}

-- The steps at the names of a list leave the other names alone.
abbrev Passes :
    List String → (String → Value) → (String → Value) → Message → Option Message → Type 0
Passes fs v w m r =
    (n : Message) × (r ≡ some n)
    × ((f : String) → has_name f fs ≡ true → (n (field f) ≡ v f) × (n (field_double f) ≡ w f))
    × ((g : String) → has_name g fs ≡ false → SameAt g m n)
