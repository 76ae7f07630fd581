-- ===== src/Base/Sets.antt =====
-- `Set` and `Map` as the source uses them to drop what is repeated, and `sort` on texts.
use Prim.Native.Nat.{ℕ}
use Prim.Native.String
use Prim.Native.String.{String}
use mathlib.Core.Bool.{Bool, true, false, true≢false}
use mathlib.Core.Logic.{◌⊎◌, inl, inr}
use mathlib.Core.Path.{◌≡◌, refl}
use mathlib.Core.Option.{Option, none, some}
use mathlib.Core.List.{List, [], ◌∷◌, map}
use native.Mathlib.Omega.{arith}
use text.Mathlib.Text.{◌==◌ as str_eq}
use text.Mathlib.TextEquality.{eq_iff}
use intern_notifs.Base.Tests.{ltb, if◌then◌else◌, is_some, if_splits}
use intern_notifs.Base.Lists.{All, length}
use intern_notifs.Base.Table.{lookup, put, lookup-put}
use intern_notifs.Base.Units.{units}

-- A template text: its parts after each other.
abbrev pub template : List String → String
template [] = ""
template (s ∷ rest) = String.◌++◌ s (template rest)

module _ {A : Type 0} (key : A → String) where
  -- `map.set(key(item), item)` for each item in turn
  unfoldable pub set_all : List (String × A) → List A → List (String × A)
  set_all table [] = table
  set_all table (x ∷ xs) = set_all (put table (key x) x) xs

  -- `[...new Map(items.map((item) => [key(item), item])).values()]`
  unfoldable pub unique_by : List A → List A
  unique_by xs = map (λ entry. entry.1) (set_all [] xs)

-- A predicate on a value, where there is one.
abbrev pub WhereSome : {A : Type 0} → (A → Type 0) → Option A → Type 0
WhereSome P none = Unit
WhereSome P (some x) = P x

module _ {A : Type 0} (P : A → Type 0) where
  if-All :
      (b : Bool) (xs ys : List (String × A))
      → All (λ entry. P entry.1) xs
      → All (λ entry. P entry.1) ys
      → All (λ entry. P entry.1) (if b then xs else ys)
  if-All true xs ys h k = h
  if-All false xs ys h k = k

  -- What holds of the values of a table holds after an entry is set to such a value.
  pub put-All :
      (table : List (String × A)) (k : String) (x : A)
      → All (λ entry. P entry.1) table
      → P x
      → All (λ entry. P entry.1) (put table k x)
  unfolding put
  put-All [] k x h p = (p, tt)
  put-All ((j, a) ∷ rest) k x h p =
      if-All (str_eq k j) ((j, x) ∷ rest) ((j, a) ∷ put rest k x) (p, h.1)
        (h.0, put-All rest k x h.1 p)

  -- It holds of a value that is looked up.
  pub lookup-All :
      (table : List (String × A)) (k : String)
      → All (λ entry. P entry.1) table
      → WhereSome P (lookup table k)
  unfolding lookup
  lookup-All [] k h = tt
  lookup-All ((j, x) ∷ rest) k h =
      if_splits (WhereSome P) (str_eq k j) (some x) (lookup rest k) (λ e. h.0)
        (λ e. lookup-All rest k h.1)

  set_all-All :
      (key : A → String) (table : List (String × A)) (xs : List A)
      → All (λ entry. P entry.1) table
      → All P xs
      → All (λ entry. P entry.1) (set_all key table xs)
  unfolding set_all
  set_all-All key table [] h k = h
  set_all-All key table (x ∷ xs) h k =
      set_all-All key (put table (key x) x) xs (put-All table (key x) x h k.0) k.1

  values-All :
      (table : List (String × A))
      → All (λ entry. P entry.1) table
      → All P (map (λ entry. entry.1) table)
  values-All [] h = tt
  values-All (entry ∷ rest) h = (h.0, values-All rest h.1)

  -- What holds of all items holds of those that are left.
  pub unique_by-All : (key : A → String) (xs : List A) → All P xs → All P (unique_by key xs)
  unfolding unique_by
  unique_by-All key xs h = values-All (set_all key [] xs) (set_all-All key [] xs tt h)

module _ {A : Type 0} (key : A → String) where
  -- Each entry stands under the key of its value.
  abbrev pub IsKeyed : List (String × A) → Type 0
  IsKeyed table = All (λ entry. key entry.1 ≡ entry.0) table

  if-IsKeyed :
      (b : Bool) (xs ys : List (String × A))
      → (b ≡ true → IsKeyed xs)
      → IsKeyed ys
      → IsKeyed (if b then xs else ys)
  if-IsKeyed true xs ys h k = h refl
  if-IsKeyed false xs ys h k = k

  pub put-IsKeyed :
      (table : List (String × A)) (x : A) → IsKeyed table → IsKeyed (put table (key x) x)
  unfolding put
  put-IsKeyed [] x h = (refl, tt)
  put-IsKeyed ((j, a) ∷ rest) x h =
      if-IsKeyed (str_eq (key x) j) ((j, x) ∷ rest) ((j, a) ∷ put rest (key x) x)
        (λ e. ((eq_iff (key x) j).0 e, h.1)) (h.0, put-IsKeyed rest x h.1)

  set_all-IsKeyed :
      (table : List (String × A)) (xs : List A) → IsKeyed table → IsKeyed (set_all key table xs)
  unfolding set_all
  set_all-IsKeyed table [] h = h
  set_all-IsKeyed table (x ∷ xs) h =
      set_all-IsKeyed (put table (key x) x) xs (put-IsKeyed table x h)

  -- What is in the table stays in it.
  set_all-kept :
      (table : List (String × A)) (xs : List A) (k : String)
      → is_some (lookup table k) ≡ true
      → is_some (lookup (set_all key table xs) k) ≡ true
  unfolding set_all
  set_all-kept table [] k h = h
  set_all-kept table (x ∷ xs) k h =
      set_all-kept (put table (key x) x) xs k (ground (arith, lookup-put table k (key x) x))

  -- Each item is in the table under its key.
  set_all-there :
      (table : List (String × A)) (xs : List A)
      → All (λ x. is_some (lookup (set_all key table xs) (key x)) ≡ true) xs
  unfolding set_all
  set_all-there table [] = tt
  set_all-there table (x ∷ xs) = (
    set_all-kept (put table (key x) x) xs (key x)
        (ground (arith, lookup-put table (key x) (key x) x, eq_iff (key x) (key x))),
    set_all-there (put table (key x) x) xs,
  )

  of_one :
      (table : List (String × A)) (u : A) (k : String)
      → IsKeyed table
      → map (λ entry. entry.1) table ≡ u ∷ []
      → is_some (lookup table k) ≡ true
      → k ≡ key u
  unfolding lookup
  of_one [] u k h e found = cc
  of_one ((j, a) ∷ []) u k h e found = ground (arith, eq_iff k j, h.0)
  of_one (a ∷ b ∷ rest) u k h e found = cc

  of_none :
      (table : List (String × A)) (k : String)
      → map (λ entry. entry.1) table ≡ []
      → is_some (lookup table k) ≡ false
  unfolding lookup
  of_none [] k e = refl
  of_none (a ∷ rest) k e = cc

All-map {ℓ} :
    {A : Type ℓ} (P Q : A → Type 0) (xs : List A) → ((a : A) → P a → Q a) → All P xs → All Q xs
All-map P Q [] f h = tt
All-map P Q (x ∷ xs) f h = (f x h.0, All-map P Q xs f h.1)

module _ {A : Type 0} (key : A → String) where
  -- Where one item is left, all items have its key.
  pub unique_by-one :
      (xs : List A) (u : A) → unique_by key xs ≡ u ∷ [] → All (λ x. key x ≡ key u) xs
  unfolding unique_by
  unique_by-one xs u e =
      let table = set_all key [] xs in
      All-map (λ x. is_some (lookup table (key x)) ≡ true) (λ x. key x ≡ key u) xs
        (λ x found. of_one key table u (key x) (set_all-IsKeyed key [] xs tt) e found)
        (set_all-there key [] xs)

  -- Where none is left, there was none.
  pub unique_by-none : (xs : List A) → unique_by key xs ≡ [] → xs ≡ []
  unfolding unique_by
  unique_by-none [] e = refl
  unique_by-none (x ∷ xs) e =
      let there = set_all-there key [] (x ∷ xs) in
      ground (arith, there.0, of_none key (set_all key [] (x ∷ xs)) (key x) e)

module _ {A : Type 0} (key : A → String) where
  -- Where at most one item is left, there was none, or all have the key of the one that is left.
  pub unique_by-single :
      (xs : List A) (kept : List A)
      → unique_by key xs ≡ kept
      → ltb 1 (length kept) ≡ false
      → (kept ≡ [] × xs ≡ []) ⊎ ((u : A) × (kept ≡ u ∷ []) × All (λ x. key x ≡ key u) xs)
  unique_by-single xs [] e h = inl (refl, unique_by-none key xs e)
  unique_by-single xs (u ∷ []) e h = inr (u, refl, unique_by-one key xs u e)
  unique_by-single xs (u ∷ v ∷ rest) e h = elim (true≢false (ground arith)) [ ]

-- `[...new Set(texts)]`
unfoldable pub distinct : List String → List String
distinct = unique_by (λ s. s)

-- The order of two texts by their code units.
abbrev pub units_before : List ℕ → List ℕ → Bool
units_before [] ys = true
units_before (x ∷ xs) [] = false
units_before (x ∷ xs) (y ∷ ys) =
    if ltb x y then true else if ltb y x then false else units_before xs ys

pub insert_text : String → List String → List String
insert_text s [] = s ∷ []
insert_text s (t ∷ rest) =
    let later = insert_text s rest in
    if units_before (units s) (units t) then s ∷ t ∷ rest else t ∷ later

-- `texts.sort()`
unfoldable pub sorted_texts : List String → List String
unfolding insert_text
sorted_texts [] = []
sorted_texts (s ∷ rest) = insert_text s (sorted_texts rest)
