-- ===== src/Base/Search.antt =====
-- Substring tests on texts given by their code units, as the source's regular expressions make them.
use Prim.Native.Nat.{ℕ, ◌+◌}
use mathlib.Core.Bool.{Bool, true, false, ◌&&◌, ◌||◌}
use mathlib.Core.List.{List, [], ◌∷◌}
use intern_notifs.Base.Tests.{leb, ◌==◌, if◌then◌else◌}

-- Does the text begin with the word?
unfoldable pub starts : List ℕ → List ℕ → Bool
starts text [] = true
starts [] (w ∷ word) = false
starts (c ∷ text) (w ∷ word) = c == w && starts text word

unfoldable pub contains : List ℕ → List ℕ → Bool
unfolding starts
contains [] word = starts [] word
contains (c ∷ text) word = starts (c ∷ text) word || contains text word

abbrev is_line_end : ℕ → Bool
is_line_end c = c == 10 || c == 13 || c == 0x2028 || c == 0x2029

-- `.*word` at the start of the text: the word comes before the end of the line.
pub on_line : List ℕ → List ℕ → Bool
on_line [] word = starts [] word
on_line (c ∷ text) word =
    starts (c ∷ text) word || (if is_line_end c then false else on_line text word)

drop_prefix : List ℕ → List ℕ → List ℕ
drop_prefix text [] = text
drop_prefix [] (w ∷ word) = []
drop_prefix (c ∷ text) (w ∷ word) = drop_prefix text word

-- `/first.*second/`
unfoldable pub contains_in_order : List ℕ → List ℕ → List ℕ → Bool
unfolding starts on_line drop_prefix
contains_in_order [] first second = starts [] first && starts [] second
contains_in_order (c ∷ text) first second =
    (starts (c ∷ text) first && on_line (drop_prefix (c ∷ text) first) second)
    || contains_in_order text first second

-- The letters A to Z made small, as the flag `i` compares them.
unfoldable pub ascii_lower : ℕ → ℕ
ascii_lower c = if leb b'A' c && leb c b'Z' then c + 32 else c
