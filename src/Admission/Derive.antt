-- ===== src/Admission/Derive.antt =====
-- src/catalog-admission.ts: `deriveCanonicalAdmission`, the one decision of a posting that several
-- sources list. `disagree` is the test on two titles of one posting, which compares their words.
use Prim.Native.String
use intern_notifs.Base.{
  ℕ, String, Bool, true, false, ◌&&◌, ◌||◌, not, Option, none, some, List, [], ◌∷◌, ◌++◌, ltb, any,
  keep, get_or, str_eq, if◌then◌else◌, length,
}
use intern_notifs.Base.Table.{lookup, put}
use intern_notifs.Admission.Evidence.{
  CatalogAdmission, SourceOccurrence, reviewed_community, EmployerResolution, employer_conflict,
  metadata_conflict, Reason, DestinationEvidence,
}
use intern_notifs.Admission.Evaluate.{sorted_reasons}

abbrev pub decisions : List SourceOccurrence → List CatalogAdmission
decisions [] = []
decisions (r ∷ rest) =
    let later = decisions rest in elim r.admission [ none ↦ later | some a ↦ a ∷ later ]

-- The open references, or all of them where none is open.
unfoldable pub relevant : List SourceOccurrence → List SourceOccurrence
relevant references =
    let still_open = keep (λ r. r.is_open) references in
    if ltb 0 (length still_open) then still_open else references

abbrev pub is_official : SourceOccurrence → Bool
is_official r = elim r.provenance [ some reviewed_community ↦ false | _ ↦ true ]

abbrev employer_id : SourceOccurrence → Option String
employer_id r = elim r.admission [
  | none ↦ none
  | some a ↦ elim a.canonical_employer [
    | none ↦ none
    | some e ↦ if str_eq e.id "" then none else some e.id
  ]
]

abbrev pub official_employer_ids : List SourceOccurrence → List String
official_employer_ids [] = []
official_employer_ids (r ∷ rest) =
    let later = official_employer_ids rest in
    if is_official r then elim (employer_id r) [ none ↦ later | some id ↦ id ∷ later ] else later

-- `new Set(ids).size > 1`: some two of them differ.
abbrev pub several : List String → Bool
several [] = false
several (id ∷ rest) = any (λ other. not (str_eq id other)) rest

-- `[...decisions].sort(...)[0]`, the first of the best: a later one takes over only if it is better.
abbrev pub first_best :
    (CatalogAdmission → CatalogAdmission → Bool)
    → CatalogAdmission
    → List CatalogAdmission
    → CatalogAdmission
first_best better best [] = best
first_best better best (a ∷ rest) = first_best better (if better a best then a else best) rest

abbrev pub is_later : CatalogAdmission → CatalogAdmission → Bool
is_later a b = ltb b.evaluated_at a.evaluated_at

abbrev pub is_resolved : CatalogAdmission → Bool
is_resolved a = elim a.employer_resolution [ EmployerResolution.resolved ↦ true | _ ↦ false ]

abbrev alerts_first : CatalogAdmission → CatalogAdmission → Bool
alerts_first a b =
    if a.alert_eligible
    then not b.alert_eligible || is_later a b
    else not b.alert_eligible && is_later a b

-- A resolved employer first, then alerts, then the later evaluation.
abbrev pub is_preferred : CatalogAdmission → CatalogAdmission → Bool
is_preferred a b =
    if is_resolved a
    then not (is_resolved b) || alerts_first a b
    else not (is_resolved b) && alerts_first a b

-- The references by the posting that their destination names.
abbrev posting_key : DestinationEvidence → Option String
posting_key d = elim d.expected_posting_id [
  | none ↦ none
  | some id ↦
      if str_eq id ""
      then none
      else some (
          String.◌++◌
            (String.◌++◌ (String.◌++◌ (String.◌++◌ d.provider "\0") (get_or d.tenant "")) "\0") id)
]

abbrev pub key_of : SourceOccurrence → Option String
key_of r = elim r.admission [ none ↦ none | some a ↦ posting_key a.destination ]

unfoldable pub identities :
    List (String × List SourceOccurrence)
    → List SourceOccurrence
    → List (String × List SourceOccurrence)
unfolding lookup put
identities table [] = table
identities table (r ∷ rest) =
    identities
      (elim (key_of r) [
        | none ↦ table
        | some k ↦ put table k (get_or (lookup table k) [] ++ r ∷ [])
      ])
      rest

abbrev pub is_admitted : SourceOccurrence → Bool
is_admitted r = elim r.admission [ none ↦ false | some a ↦ a.catalog_eligible ]

-- What is kept of the winning decision in each case.
abbrev pub refused : Reason → CatalogAdmission → ℕ → CatalogAdmission
refused reason a now = record a {
  catalog_eligible = false;
  alert_eligible = false;
  reason_codes = sorted_reasons (a.reason_codes ++ reason ∷ []);
  evaluated_at = now;
}

-- The best of the decisions that admit, or else the latest decision, which does not.
unfoldable pub chosen :
    List CatalogAdmission → CatalogAdmission → List CatalogAdmission → ℕ → CatalogAdmission
chosen [] a rest now = record (first_best is_later a rest) {
  catalog_eligible = false;
  alert_eligible = false;
  evaluated_at = now;
}
chosen (d ∷ more) a rest now = record (first_best is_preferred d more) { evaluated_at = now }

module _ (disagree : SourceOccurrence → SourceOccurrence → Bool) where
  -- Do some two of a group disagree?
  abbrev pub some_disagree : List SourceOccurrence → Bool
  some_disagree [] = false
  some_disagree (r ∷ rest) = any (disagree r) rest || some_disagree rest

  -- The official references that are admitted speak for the group, if there are any.
  abbrev pub group_conflict : List SourceOccurrence → Bool
  group_conflict group =
      let official = keep (λ r. is_official r && is_admitted r) group in
      some_disagree (if ltb 0 (length official) then official else group)

  unfoldable pub metadata_conflict_in : List SourceOccurrence → Bool
  unfolding identities
  metadata_conflict_in references = any (λ entry. group_conflict entry.1) (identities [] references)

  unfoldable pub decide_among :
      List CatalogAdmission → List SourceOccurrence → ℕ → Option CatalogAdmission
  decide_among [] listed now = none
  decide_among (a ∷ rest) listed now = some (
      if several (official_employer_ids listed)
      then record (refused employer_conflict (first_best is_later a rest) now) {
        canonical_employer = none;
        employer_resolution = EmployerResolution.conflict;
      }
      else if metadata_conflict_in listed
      then refused metadata_conflict (first_best is_later a rest) now
      else chosen (keep (λ d. d.catalog_eligible) (a ∷ rest)) a rest now)

  unfoldable pub derive_canonical_admission : List SourceOccurrence → ℕ → Option CatalogAdmission
  derive_canonical_admission references now =
      decide_among (decisions (relevant references)) (relevant references) now
