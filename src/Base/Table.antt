-- ===== src/Base/Table.antt =====
-- A `Map` with text keys as a list of its entries, in the order of their first insertion.
use Prim.Native.String.{String}
use mathlib.Core.Path.{◌≡◌}
use mathlib.Core.Option.{Option, none, some}
use mathlib.Core.List.{List, [], ◌∷◌}
use native.Mathlib.Omega.{arith}
use text.Mathlib.Text.{◌==◌ as str_eq}
use text.Mathlib.TextEquality.{eq_iff}
use intern_notifs.Base.Tests.{if◌then◌else◌}

module _ {A : Type 0} where
  -- `map.get(key)`
  unfoldable pub lookup : List (String × A) → String → Option A
  lookup [] k = none
  lookup ((j, a) ∷ rest) k = if str_eq k j then some a else lookup rest k

  -- `map.set(key, value)`
  unfoldable pub put : List (String × A) → String → A → List (String × A)
  put [] k a = (k, a) ∷ []
  put ((j, b) ∷ rest) k a =
      let others = put rest k a in if str_eq k j then (j, a) ∷ rest else (j, b) ∷ others

  pub lookup-put :
      (table : List (String × A)) (j k : String) (a : A)
      → lookup (put table k a) j ≡ (if str_eq j k then some a else lookup table j)
  unfolding lookup put
  lookup-put [] j k a = ground arith
  lookup-put ((i, b) ∷ rest) j k a =
      ground (arith, lookup-put rest j k a, eq_iff j k, eq_iff k i, eq_iff j i)
