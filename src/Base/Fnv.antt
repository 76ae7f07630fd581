-- ===== src/Base/Fnv.antt =====
-- The 32-bit FNV-1a hash that src/application-automation.ts and src/source-poll-cadence.ts both write
-- out. `Math.imul` keeps the low 32 bits, which `>>> 0` reads as unsigned.
use Prim.Native.Nat.{ℕ, ◌*◌, ◌%◌, ◌^◌, ◌<◌, bit_xor}
use mathlib.Core.List.{List, [], ◌∷◌}
use native.Mathlib.Omega.{arith}

fnv_round : ℕ → ℕ → ℕ
fnv_round hash unit = (bit_xor hash unit * 0x01000193) % 2 ^ 32

unfoldable pub fnv : ℕ → List ℕ → ℕ
unfolding fnv_round
fnv hash [] = hash
fnv hash (unit ∷ rest) = fnv (fnv_round hash unit) rest

fnv_round-lt : (hash unit : ℕ) → fnv_round hash unit < 2 ^ 32
unfolding fnv_round
fnv_round-lt hash unit = omega arith

-- A hash that starts below 2 ^ 32 stays there.
pub fnv-lt : (hash : ℕ) (units : List ℕ) → hash < 2 ^ 32 → fnv hash units < 2 ^ 32
unfolding fnv
fnv-lt hash [] p = p
fnv-lt hash (unit ∷ rest) p = fnv-lt (fnv_round hash unit) rest (fnv_round-lt hash unit)
