-- ===== src/Prelude/Maps.antt =====
-- A `Map` or an object of entries by text, as the list of its entries in the order of insertion.
use Prim.Native.String.{String}
use mathlib.Core.Path.{◌≡◌}
use mathlib.Core.Bool.{not}
use mathlib.Core.Option.{Option, none, some}
use mathlib.Core.List.{List, [], ◌∷◌}
use native.Mathlib.Omega.{arith}
use nodejs_pool.Prelude.Tests.{str_eq, str_eq_iff, if◌then◌else◌}
use nodejs_pool.Prelude.Lists.{keep_if}

module _ {ℓ} {V : Type ℓ} where
  unfoldable pub lookup : String → List (String × V) → Option V
  lookup k [] = none
  lookup k ((j, v) ∷ m) = if str_eq k j then some v else lookup k m

  -- `Map.set`: in place, or at the end.
  unfoldable pub assign : String → V → List (String × V) → List (String × V)
  assign k v [] = (k, v) ∷ []
  assign k v ((j, w) ∷ m) = if str_eq k j then (j, v) ∷ m else (j, w) ∷ assign k v m

  -- `Map.delete`.
  unfoldable pub remove : String → List (String × V) → List (String × V)
  remove k m = keep_if (λ e. not (str_eq k e.0)) m

  pub lookup-assign :
      (k j : String) (v : V) (m : List (String × V))
      → lookup j (assign k v m) ≡ (if str_eq j k then some v else lookup j m)
  unfolding lookup assign
  lookup-assign k j v [] = ground arith
  lookup-assign k j v ((i, w) ∷ m) =
      ground (arith, lookup-assign k j v m, str_eq_iff k i, str_eq_iff j i, str_eq_iff j k)

  pub lookup-remove :
      (k j : String) (m : List (String × V))
      → lookup j (remove k m) ≡ (if str_eq j k then none else lookup j m)
  unfolding lookup remove
  lookup-remove k j [] = ground arith
  lookup-remove k j ((i, w) ∷ m) =
      ground (arith, lookup-remove k j m, str_eq_iff k i, str_eq_iff j i, str_eq_iff j k)
