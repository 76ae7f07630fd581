-- ===== src/Base/Json.antt =====
-- A parsed JSON document. An object holds each key once, as `JSON.parse` leaves it.
use intern_notifs.Base.Tests.{if◌then◌else◌, is_some}
use Prim.Native.Nat.{ℕ}
use Prim.Native.String.{String}
use mathlib.Core.Bool.{Bool}
use mathlib.Core.Option.{Option, none, some}
use text.Mathlib.Text.{◌==◌ as str_eq}

-- A number is `num` if it is an integer that is not negative, and `other_num` otherwise.
mutual
  pub data Value : Type 0 where
    null other_num : Value
    bool : Bool → Value
    num : ℕ → Value
    str : String → Value
    arr : Items → Value
    obj : Props → Value

  pub data Items : Type 0 where
    nil : Items
    cons : Value → Items → Items

  pub data Props : Type 0 where
    end : Props
    prop : String → Value → Props → Props

abbrev pub items_length : Items → ℕ
items_length nil = 0
items_length (cons v vs) = ℕ.suc (items_length vs)

-- `o[k]`, where `none` is `undefined`.
unfoldable pub get : String → Props → Option Value
get k end = none
get k (prop j v ps) = if str_eq j k then some v else get k ps

-- `k in o`
abbrev pub has : String → Props → Bool
has k o = is_some (get k o)

abbrev pub as_str : Option Value → Option String
as_str (some (str s)) = some s
as_str _ = none

abbrev pub as_bool : Option Value → Option Bool
as_bool (some (bool b)) = some b
as_bool _ = none

abbrev pub as_num : Option Value → Option ℕ
as_num (some (num n)) = some n
as_num _ = none
