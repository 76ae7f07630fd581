-- ===== src/Base/Units.antt =====
-- A JavaScript string as the list of its UTF-16 code units, where the program walks or cuts it.
use Prim.Native.Nat.{ℕ, ◌+◌, ◌-◌, ◌/◌, ◌%◌}
use Prim.Native.Char.{code}
use Prim.Native.String.{String}
use mathlib.Core.Path.{◌≡◌, refl}
use mathlib.Core.Logic.{◌↔◌}
use mathlib.Core.Bool.{Bool, true, false, ◌&&◌, ◌||◌}
use mathlib.Core.List.{List, [], ◌∷◌, ◌++◌}
use native.Mathlib.Omega.{arith}
use intern_notifs.Base.Tests.{ltb, leb, ◌==◌, if◌then◌else◌}

-- A code point above 0xffff is a surrogate pair.
char_units : ℕ → List ℕ
char_units c =
    if ltb c 0x10000
    then c ∷ []
    else (0xd800 + (c - 0x10000) / 1024) ∷ (0xdc00 + (c - 0x10000) % 1024) ∷ []

unfoldable pub units : String → List ℕ
unfolding char_units
units String.[] = []
units (String.◌∷◌ c s) = char_units (code c) ++ units s

-- `===` on two texts given by their units.
unfoldable pub same_units : List ℕ → List ℕ → Bool
same_units [] [] = true
same_units (x ∷ xs) (y ∷ ys) = x == y && same_units xs ys
same_units _ _ = false

pub same_units_iff : (xs ys : List ℕ) → (same_units xs ys ≡ true) ↔ (xs ≡ ys)
unfolding same_units
same_units_iff [] [] = (λ h. refl, λ h. refl)
same_units_iff [] (y ∷ ys) = (λ h. cc, λ h. cc)
same_units_iff (x ∷ xs) [] = (λ h. cc, λ h. cc)
same_units_iff (x ∷ xs) (y ∷ ys) = ground (arith, same_units_iff xs ys)

-- The white space that `trim` removes.
pub is_space : ℕ → Bool
is_space c =
    (leb 9 c && leb c 13)
    || c == 32
    || c == 0xa0
    || c == 0x1680
    || (leb 0x2000 c && leb c 0x200a)
    || c == 0x2028
    || c == 0x2029
    || c == 0x202f
    || c == 0x205f
    || c == 0x3000
    || c == 0xfeff

-- `!s.trim()`
unfoldable pub is_blank : List ℕ → Bool
unfolding is_space
is_blank [] = true
is_blank (c ∷ cs) = is_space c && is_blank cs
