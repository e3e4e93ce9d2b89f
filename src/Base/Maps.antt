-- ===== src/Base/Maps.antt =====
-- A `HashMap` from texts, as an association list.
use nmg_league_bot.Base.Tests.{if◌then◌else◌}
use Prim.Native.String.{String}
use mathlib.Core.Path.{◌≡◌}
use mathlib.Core.Option.{Option, none, some}
use mathlib.Core.List.{List, [], ◌∷◌}
use native.Mathlib.Omega.{arith}
use text.Mathlib.TextEquality.{eq_iff}
use text.Mathlib.Text.{◌==◌ as str_eq}

module _ {V : Type 0} where
  unfoldable pub get : String → List (String × V) → Option V
  get k [] = none
  get k ((j, v) ∷ m) = if str_eq j k then some v else get k m

  unfoldable pub remove : String → List (String × V) → List (String × V)
  remove k [] = []
  remove k ((j, v) ∷ m) = let rest = remove k m in if str_eq j k then rest else (j, v) ∷ rest

  unfoldable pub insert : String → V → List (String × V) → List (String × V)
  unfolding remove
  insert k v m = (k, v) ∷ remove k m

-- What is left of a map without a key.
pub get-remove :
    {V : Type 0} (k j : String) (m : List (String × V))
    → get k (remove j m) ≡ (if str_eq j k then none else get k m)
unfolding get remove
get-remove k j [] = ground arith
get-remove k j ((i, v) ∷ m) = ground (arith, eq_iff i j, eq_iff i k, eq_iff j k, get-remove k j m)
