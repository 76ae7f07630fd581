-- ===== src/Trust/Qualification.antt =====
-- src/sources/trust-policy.ts: how a posting of a community source comes to raise alerts. `canonical`
-- is `canonicalApplicationUrl`, which throws where it gives none, and `trim` that of texts.
use intern_notifs.Base.{
  ℕ, suc, String, Bool, true, false, ◌&&◌, ◌||◌, not, Option, none, some, ltb, ◌==◌, is_some,
  get_or, str_eq, if◌then◌else◌,
}
use intern_notifs.Identity.Posting.{non_empty}
use intern_notifs.Identity.Decision.{Decision, confirmed}
use intern_notifs.Admission.Evidence.{
  DestinationEvidence, posting_detail, application_form, AlertMode, QualificationStatus, Basis,
  exact_identity, two_complete_snapshots, AlertQualification,
}

pub record Assessment : Type 0 where
  pub destination : DestinationEvidence
  pub identity_decision : Option Decision
  pub alert_mode : AlertMode
  pub complete_fetch_sequence : Option ℕ
  pub suppress_baseline : Option Bool
  pub suppress_publication : Option Bool

abbrev pub posting_specific_destination : DestinationEvidence → Bool
posting_specific_destination d = elim d.classification [
  | posting_detail ↦ true
  | application_form ↦ true
  | _ ↦ false
]

abbrev pub is_exact_identity : Option Decision → Bool
is_exact_identity d = elim d [ some (confirmed c) ↦ true | _ ↦ false ]

abbrev is_disabled : AlertMode → Bool
is_disabled mode = elim mode [ AlertMode.disabled ↦ true | _ ↦ false ]

-- `a === b` on optional numbers
abbrev pub same_number : Option ℕ → Option ℕ → Bool
same_number none none = true
same_number (some a) (some b) = a == b
same_number _ _ = false

-- Did the destination that was validated change?
abbrev pub changed_key : Option String → Option String → Bool
changed_key (some a) (some b) = not (str_eq a b)
changed_key _ _ = false

-- Is the sequence the one after the last that was count_after?
abbrev pub continues : Option ℕ → Option ℕ → Bool
continues (some before) (some sequence) = sequence == suc before
continues _ _ = false

-- The count and the last sequence that was count_after.
abbrev pub count_after : Bool → ℕ → Option ℕ → Option ℕ → ℕ × Option ℕ
count_after countable before last sequence =
    if countable
    then (if continues last sequence then suc before else 1, sequence)
    else (before, last)

abbrev basis_of : Bool → ℕ → Option Basis
basis_of exact count =
    if exact then some exact_identity else if ltb 1 count then some two_complete_snapshots else none

abbrev status_of : AlertMode → Option String → Option Basis → QualificationStatus
status_of mode validated basis =
    if is_disabled mode
    then QualificationStatus.disabled
    else if not (is_some validated)
    then QualificationStatus.ineligible
    else if is_some basis
    then QualificationStatus.eligible
    else QualificationStatus.pending

module _ (canonical : String → Option String) (trim : String → String) where
  abbrev pub safe_destination_key : String → String
  safe_destination_key url = get_or (canonical url) (trim url)

  abbrev pub candidate_of : Assessment → String
  candidate_of input = safe_destination_key input.destination.candidate_url

  abbrev pub validated_key : DestinationEvidence → Option String
  validated_key d =
      if posting_specific_destination d
      then non_empty (some (safe_destination_key (get_or d.final_url d.candidate_url)))
      else none

  abbrev pub resets : AlertQualification → Assessment → Bool
  resets previous input =
      not (str_eq previous.candidate_key (candidate_of input))
      || changed_key (non_empty previous.validated_destination_key)
          (validated_key input.destination)

  -- The count before, with what is known of it, unless it starts again.
  abbrev pub is_settled : Option AlertQualification → Assessment → Bool
  is_settled none input = false
  is_settled (some previous) input = not (resets previous input) && is_some previous.basis

  abbrev pub count_before : Option AlertQualification → Assessment → ℕ
  count_before none input = 0
  count_before (some previous) input =
      if resets previous input then 0 else previous.consecutive_complete_snapshots

  abbrev pub last_before : Option AlertQualification → Assessment → Option ℕ
  last_before none input = none
  last_before (some previous) input =
      if resets previous input then none else previous.last_counted_sequence

  abbrev pub count_now : Option AlertQualification → Assessment → ℕ × Option ℕ
  count_now previous input =
      let last = last_before previous input in
      count_after
        (not (is_settled previous input)
          && is_some input.complete_fetch_sequence
          && not (same_number input.complete_fetch_sequence last))
        (count_before previous input) last input.complete_fetch_sequence

  abbrev suppressed_before : Option AlertQualification → Bool
  suppressed_before none = false
  suppressed_before (some previous) = previous.baseline_suppressed

  unfoldable pub advance_trusted_community_qualification :
      Option AlertQualification → Assessment → AlertQualification
  advance_trusted_community_qualification previous input =
      let now = count_now previous input in
      let validated = validated_key input.destination in
      let basis = basis_of (is_exact_identity input.identity_decision) now.0 in
      record {
        source_material_hash = elim previous [
          | none ↦ none
          | some p ↦ non_empty p.source_material_hash
        ];
        candidate_key = candidate_of input;
        validated_destination_key = validated;
        consecutive_complete_snapshots = now.0;
        last_counted_sequence = now.1;
        basis = basis;
        status = status_of input.alert_mode validated basis;
        baseline_suppressed = suppressed_before previous || get_or input.suppress_baseline false;
        catalog_publication_suppressed = some (
            get_or input.suppress_publication (
              get_or (elim previous [ none ↦ none | some p ↦ p.catalog_publication_suppressed ])
                false));
      }
