-- ===== src/Admission/Canonical.antt =====
-- When the canonical decision admits a posting.
use mathlib.Core.Path.{subst}
use intern_notifs.Base.{
  ℕ, ◌≡◌, refl, sym, String, str_eq, eq_iff, Bool-cases, inl, inr, ap, ◌∙◌, ◌||◌, length, ltb, Bool,
  true, false, not, ◌&&◌, none, some, List, [], ◌∷◌, arith, any, keep, if◌then◌else◌,
}
use intern_notifs.Admission.Evidence.{CatalogAdmission, SourceOccurrence}
use intern_notifs.Admission.Derive.{
  decisions, relevant, official_employer_ids, several, first_best, is_preferred, is_admitted,
  metadata_conflict_in, chosen, decide_among, derive_canonical_admission,
}
use intern_notifs.Admission.Pairs.{pairs, contradicts, metadata_conflict_in-contradicts}

abbrev pub all_eligible : List CatalogAdmission → Bool
all_eligible [] = true
all_eligible (a ∷ rest) = a.catalog_eligible && all_eligible rest

keep-all_eligible :
    (ds : List CatalogAdmission) → all_eligible (keep (λ d. d.catalog_eligible) ds) ≡ true
keep-all_eligible [] = refl
keep-all_eligible (a ∷ rest) = ground (arith, keep-all_eligible rest)

first_best-eligible :
    (better : CatalogAdmission → CatalogAdmission → Bool) (best : CatalogAdmission)
    (rest : List CatalogAdmission)
    → best.catalog_eligible ≡ true
    → all_eligible rest ≡ true
    → (first_best better best rest).catalog_eligible ≡ true
first_best-eligible better best [] h k = h
first_best-eligible better best (a ∷ rest) h k =
    first_best-eligible better (if better a best then a else best) rest (ground arith)
      (ground arith)

any_kept :
    (ds : List CatalogAdmission)
    → any (λ d. d.catalog_eligible) ds
      ≡ elim (keep (λ d. d.catalog_eligible) ds) [ [] ↦ false | d ∷ more ↦ true ]
any_kept [] = refl
any_kept (a ∷ rest) = ground (arith, any_kept rest)

any_admitted :
    (rs : List SourceOccurrence) → any is_admitted rs ≡ any (λ d. d.catalog_eligible) (decisions rs)
any_admitted [] = refl
any_admitted (r ∷ rest) = ground (arith, any_admitted rest)

chosen-eligible :
    (kept : List CatalogAdmission) (a : CatalogAdmission) (rest : List CatalogAdmission) (now : ℕ)
    → all_eligible kept ≡ true
    → (chosen kept a rest now).catalog_eligible ≡ elim kept [ [] ↦ false | d ∷ more ↦ true ]
unfolding chosen
chosen-eligible [] a rest now h = refl
chosen-eligible (d ∷ more) a rest now h =
    first_best-eligible is_preferred d more (ground arith) (ground arith)

one_of_three :
    (b c : Bool) (x y z : CatalogAdmission) (e : Bool)
    → x.catalog_eligible ≡ false
    → y.catalog_eligible ≡ false
    → z.catalog_eligible ≡ e
    → (if b then x else if c then y else z).catalog_eligible ≡ (not b && not c && e)
one_of_three true c x y z e p q r = p
one_of_three false true x y z e p q r = q
one_of_three false false x y z e p q r = r

-- The open references, or all of them where none is open.
abbrev pub counted : List SourceOccurrence → List SourceOccurrence
counted references = keep (λ r. r.is_open || not (any (λ o. o.is_open) references)) references

open_kept :
    (rs : List SourceOccurrence)
    → ltb 0 (length (keep (λ r. r.is_open) rs)) ≡ any (λ o. o.is_open) rs
open_kept [] = refl
open_kept (r ∷ rest) = ground (arith, open_kept rest)

open_or_all :
    (b : Bool) (rs : List SourceOccurrence)
    → (if b then keep (λ r. r.is_open) rs else rs) ≡ keep (λ r. r.is_open || not b) rs
open_or_all true [] = refl
open_or_all false [] = refl
open_or_all true (r ∷ rest) = ground (arith, open_or_all true rest)
open_or_all false (r ∷ rest) = ground (arith, open_or_all false rest)

relevant-eq_counted : (rs : List SourceOccurrence) → relevant rs ≡ counted rs
unfolding relevant
relevant-eq_counted rs =
    ap (λ b. if b then keep (λ r. r.is_open) rs else rs) (open_kept rs)
    ∙ open_or_all (any (λ o. o.is_open) rs) rs

all_same :
    (id : String) (ids : List String)
    → any (λ other. not (str_eq id other)) ids ≡ false
    → pairs (λ a b. not (str_eq a b)) ids ≡ false
all_same id [] h = refl
all_same id (x ∷ xs) h =
    let same : id ≡ x = (eq_iff id x).0 (ground (arith, h)) in
    let rest : any (λ other. not (str_eq id other)) xs ≡ false = ground (arith, h) in
    rw (subst (λ y. any (λ other. not (str_eq y other)) xs ≡ false) same rest) (all_same id xs rest)

several-pairs : (ids : List String) → several ids ≡ pairs (λ a b. not (str_eq a b)) ids
several-pairs [] = refl
several-pairs (id ∷ rest) = elim (Bool-cases (any (λ other. not (str_eq id other)) rest)) [
  | inl e ↦ rw e refl
  | inr e ↦ rw e (sym (all_same id rest e))
]

module _ (disagree : SourceOccurrence → SourceOccurrence → Bool) where
  abbrev admits_listed : List SourceOccurrence → Bool
  admits_listed listed =
      not (several (official_employer_ids listed))
      && not (metadata_conflict_in disagree listed)
      && any is_admitted listed

  among :
      (ds : List CatalogAdmission) (listed : List SourceOccurrence) (now : ℕ)
      → decisions listed ≡ ds
      → elim (decide_among disagree ds listed now) [ none ↦ false | some a ↦ a.catalog_eligible ]
        ≡ admits_listed listed
  unfolding decide_among
  among [] listed now e = rw (any_admitted listed) (rw e (ground arith))
  among (a ∷ rest) listed now e =
      let kept = keep (λ d. d.catalog_eligible) (a ∷ rest) in
      rw (any_admitted listed) (
        rw e (
          rw (any_kept (a ∷ rest)) (
            one_of_three (several (official_employer_ids listed))
              (metadata_conflict_in disagree listed) _ _ _ _ refl refl
              (chosen-eligible kept a rest now (keep-all_eligible (a ∷ rest))))))

  -- May a posting with these references be admitted, as an independent test: of the references that
  -- count, by their pairs?
  abbrev pub admits : List SourceOccurrence → Bool
  admits references =
      not (pairs (λ a b. not (str_eq a b)) (official_employer_ids (counted references)))
      && not (contradicts disagree (counted references))
      && any is_admitted (counted references)

  -- There is a canonical decision that admits the posting exactly if a reference that counts admits
  -- it, the official ones of those name one employer, and no two that name one posting disagree on
  -- it, where an official reference that is admitted silences the others of its posting. The open
  -- references count, or all of them where none is open.
  pub canonical_admits :
      (references : List SourceOccurrence) (now : ℕ)
      → elim (derive_canonical_admission disagree references now) [
        | none ↦ false
        | some a ↦ a.catalog_eligible
      ]
        ≡ admits references
  unfolding derive_canonical_admission
  canonical_admits references now =
      let listed = relevant references in
      among (decisions listed) listed now refl
      ∙ (ap
            (λ conflict.
              not (several (official_employer_ids listed))
              && not conflict
              && any is_admitted listed)
            (metadata_conflict_in-contradicts disagree listed)
          ∙ ap
              (λ rs.
                not (several (official_employer_ids rs))
                && not (contradicts disagree rs)
                && any is_admitted rs)
              (relevant-eq_counted references)
          ∙ ap
              (λ more.
                not more
                && not (contradicts disagree (counted references))
                && any is_admitted (counted references))
              (several-pairs (official_employer_ids (counted references))))
