-- ===== src/Admission/Grouping.antt =====
-- src/catalog-admission.ts: the groups of references that name one posting.
use mathlib.Core.Bool.{true≢false}
use text.Mathlib.TextPositions.{eq_refl}
use intern_notifs.Base.{
  String, ◌≡◌, refl, sym, ap, ◌∙◌, Bool, true, false, not, ◌&&◌, none, some, List, [], ◌∷◌, ◌++◌,
  arith, any, keep, str_eq, eq_iff, get_or, if◌then◌else◌, Bool-cases, Option-cases, inl, inr,
}
use intern_notifs.Base.Table.{lookup, put, lookup-put}
use intern_notifs.Admission.Evidence.{SourceOccurrence}
use intern_notifs.Admission.Derive.{key_of, identities}

abbrev pub has_key : String → SourceOccurrence → Bool
has_key k r = elim (key_of r) [ none ↦ false | some j ↦ str_eq k j ]

append_nil : (xs : List SourceOccurrence) → xs ++ [] ≡ xs
append_nil [] = refl
append_nil (x ∷ xs) = ap (λ r. x ∷ r) (append_nil xs)

append_assoc : (xs ys zs : List SourceOccurrence) → (xs ++ ys) ++ zs ≡ xs ++ (ys ++ zs)
append_assoc [] ys zs = refl
append_assoc (x ∷ xs) ys zs = ap (λ r. x ∷ r) (append_assoc xs ys zs)

abbrev pub found : List (String × List SourceOccurrence) → String → List SourceOccurrence
found table k = get_or (lookup table k) []

found-put :
    (table : List (String × List SourceOccurrence)) (k j : String) (r : SourceOccurrence)
    (rest : List SourceOccurrence)
    → found (put table j (found table j ++ r ∷ [])) k ++ keep (has_key k) rest
      ≡ found table k ++ (if str_eq k j then r ∷ keep (has_key k) rest else keep (has_key k) rest)
found-put table k j r rest = elim (Bool-cases (str_eq k j)) [
  | inl e ↦
      let same : k ≡ j = (eq_iff k j).0 e in
      rw (lookup-put table k j (found table j ++ r ∷ []))
        (rw e (rw (sym same) (append_assoc (found table k) (r ∷ []) (keep (has_key k) rest))))
  | inr e ↦ rw (lookup-put table k j (found table j ++ r ∷ [])) (rw e refl)
]

-- The group of a key is made of the references with that key.
pub identities-found :
    (table : List (String × List SourceOccurrence)) (refs : List SourceOccurrence) (k : String)
    → found (identities table refs) k ≡ found table k ++ keep (has_key k) refs
unfolding identities
identities-found table [] k = sym (append_nil (found table k))
identities-found table (r ∷ rest) k = elim (Option-cases (key_of r)) [
  | inl e ↦
      let passed : keep (has_key k) (r ∷ rest) ≡ keep (has_key k) rest = ground (arith, e) in
      let step : found (identities table (r ∷ rest)) k ≡ found table k ++ keep (has_key k) rest =
        rw (e, identities) (identities-found table rest k) in
      step ∙ ap (λ ys. found table k ++ ys) (sym passed)
  | inr (j, e) ↦
      let taken : keep (has_key k) (r ∷ rest)
          ≡ (if str_eq k j then r ∷ keep (has_key k) rest else keep (has_key k) rest) =
        ground (arith, e) in
      let step : found (identities table (r ∷ rest)) k
          ≡ found (put table j (found table j ++ r ∷ [])) k ++ keep (has_key k) rest =
        rw (e, identities) (identities-found (put table j (found table j ++ r ∷ [])) rest k) in
      step ∙ (found-put table k j r rest ∙ ap (λ ys. found table k ++ ys) (sym taken))
]

abbrev fresh : String → List (String × List SourceOccurrence) → Bool
fresh k [] = true
fresh k (e ∷ rest) = not (str_eq k e.0) && fresh k rest

abbrev pub unique : List (String × List SourceOccurrence) → Bool
unique [] = true
unique (e ∷ rest) = fresh e.0 rest && unique rest

put-fresh :
    (table : List (String × List SourceOccurrence)) (j k : String) (g : List SourceOccurrence)
    → fresh j table ≡ true
    → str_eq j k ≡ false
    → fresh j (put table k g) ≡ true
unfolding put
put-fresh [] j k g h e = ground (arith, e)
put-fresh ((i, b) ∷ rest) j k g h e = ground (arith, e, h, put-fresh rest j k g (ground arith) e)

put-unique :
    (table : List (String × List SourceOccurrence)) (k : String) (g : List SourceOccurrence)
    → unique table ≡ true
    → unique (put table k g) ≡ true
unfolding put
put-unique [] k g h = refl
put-unique ((i, b) ∷ rest) k g h = elim (Bool-cases (str_eq k i)) [
  | inl e ↦ ground (arith, e, h)
  | inr e ↦ ground (
    arith,
    e,
    h,
    put-unique rest k g (ground arith),
    put-fresh rest i k g (ground arith) (ground (arith, e, eq_iff k i, eq_iff i k)),
  )
]

pub identities-unique :
    (table : List (String × List SourceOccurrence)) (refs : List SourceOccurrence)
    → unique table ≡ true
    → unique (identities table refs) ≡ true
unfolding identities
identities-unique table [] h = h
identities-unique table (r ∷ rest) h = elim (Option-cases (key_of r)) [
  | inl e ↦ rw (e, identities) (identities-unique table rest h)
  | inr (j, e) ↦
      rw (e, identities)
        (identities-unique (put table j (found table j ++ r ∷ [])) rest (put-unique table j _ h))
]

fresh-lookup :
    (table : List (String × List SourceOccurrence)) (k : String)
    → fresh k table ≡ true
    → lookup table k ≡ none
unfolding lookup
fresh-lookup [] k h = refl
fresh-lookup ((j, g) ∷ rest) k h = ground (arith, h, fresh-lookup rest k (ground arith))

module _ (P : List SourceOccurrence → Bool) where
  pub any-found :
      (table : List (String × List SourceOccurrence)) (k : String)
      → P [] ≡ false
      → P (found table k) ≡ true
      → any (λ e. P e.1) table ≡ true
  unfolding lookup
  any-found [] k n h = elim (true≢false (sym h ∙ n)) [ ]
  any-found ((j, g) ∷ rest) k n h = elim (Bool-cases (str_eq k j)) [
    | inl e ↦ ground (arith, e, h)
    | inr e ↦ ground (arith, any-found rest k n (rw e at h))
  ]

  pub found_of_any :
      (table : List (String × List SourceOccurrence))
      → unique table ≡ true
      → P [] ≡ false
      → any (λ e. P e.1) table ≡ true
      → (k : String) × (P (found table k) ≡ true)
  unfolding lookup
  found_of_any [] u n h = elim (true≢false (sym h)) [ ]
  found_of_any ((j, g) ∷ rest) u n h = elim (Bool-cases (P g)) [
    | inl e ↦ (j, rw (eq_refl j) e)
    | inr e ↦
        let (k, q) = found_of_any rest (ground arith) n (ground (arith, e, h)) in
        elim (Bool-cases (str_eq k j)) [
          | inl same ↦
              let none_left : lookup rest k ≡ none =
                rw ((eq_iff k j).0 same) (fresh-lookup rest j (ground arith)) in
              elim (true≢false (sym q ∙ rw none_left n)) [ ]
          | inr other ↦ (k, rw other q)
        ]
  ]
