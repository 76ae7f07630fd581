-- ===== src/Catalog/Occurrence.antt =====
-- src/identity/source-occurrence.ts: one occurrence of a posting from what was known of it and what
-- comes in. Instants compare like the texts of their dates.
use intern_notifs.Base.{
  ℕ, String, Bool, true, false, ◌&&◌, not, Option, none, some, List, [], ◌∷◌, ◌++◌, map, min, max,
  ltb, get_or, or_else, if◌then◌else◌,
}
use intern_notifs.Base.Table.{lookup, put}
use intern_notifs.Base.Sets.{template, distinct, sorted_texts}
use intern_notifs.Identity.Posting.{ProviderPostingEvidence, non_empty}
use intern_notifs.Admission.Evidence.{
  CatalogAdmission, Description, SourceOccurrence, Precision, exact,
}

unfoldable pub earliest : Option ℕ → Option ℕ → Option ℕ
earliest none b = b
earliest (some a) none = some a
earliest (some a) (some b) = some (min a b)

unfoldable pub admission_observed_at : CatalogAdmission → ℕ
admission_observed_at a =
    max a.evaluated_at (max (get_or a.evidence_observed_at 0) (get_or a.destination.inspected_at 0))

abbrev was_visible : CatalogAdmission → Bool
was_visible a = get_or a.destination.browser_visible false

unfoldable pub latest_admission :
    Option CatalogAdmission → Option CatalogAdmission → Option CatalogAdmission
latest_admission none incoming = incoming
latest_admission (some p) none = some p
latest_admission (some p) (some i) =
    if ltb (admission_observed_at i) (admission_observed_at p)
    then some p
    else if ltb (admission_observed_at p) (admission_observed_at i)
    then some i
    else if was_visible p && not (was_visible i)
    then some p
    else some i

abbrev merged_evidence :
    Option ProviderPostingEvidence → Option ProviderPostingEvidence → Option ProviderPostingEvidence
merged_evidence none incoming = incoming
merged_evidence (some p) none = some p
merged_evidence (some p) (some i) = some (record i {
  evidence_urls = sorted_texts (distinct (p.evidence_urls ++ i.evidence_urls));
  evidence_contract_id = or_else i.evidence_contract_id p.evidence_contract_id;
  evidence_contract_version = or_else i.evidence_contract_version p.evidence_contract_version;
  evidence_approval = or_else i.evidence_approval p.evidence_approval;
  evidence_hash = or_else i.evidence_hash p.evidence_hash;
  evidence_expires_at = or_else i.evidence_expires_at p.evidence_expires_at;
})

abbrev pub is_exact : Option Precision → Bool
is_exact (some exact) = true
is_exact _ = false

abbrev pub merged_precision : Option Precision → Option Precision → Option Precision
merged_precision p i =
    if is_exact p then some exact else if is_exact i then some exact else or_else i p

abbrev merged_texts : Description → Description → Description
merged_texts p i = record i {
  locations = or_else i.locations p.locations;
  requirements = or_else i.requirements p.requirements;
}

unfoldable pub merge_source_occurrence :
    Option SourceOccurrence → SourceOccurrence → SourceOccurrence
merge_source_occurrence none i = i
merge_source_occurrence (some p) i = record i {
  external_id = or_else i.external_id p.external_id;
  provenance = or_else i.provenance p.provenance;
  provider_evidence = merged_evidence p.provider_evidence i.provider_evidence;
  identity_decision = or_else i.identity_decision p.identity_decision;
  alert_qualification = or_else i.alert_qualification p.alert_qualification;
  technical = or_else i.technical p.technical;
  description = merged_texts p.description i.description;
  admission = latest_admission p.admission i.admission;
  first_attached_at = earliest p.first_attached_at i.first_attached_at;
  first_attached_precision = merged_precision p.first_attached_precision i.first_attached_precision;
}

module _ (number_text : ℕ → String) where
  unfoldable pub source_occurrence_key : SourceOccurrence → String
  source_occurrence_key o = elim (non_empty o.external_id) [
    | some id ↦ template (o.source_id ∷ "\0external\0" ∷ id ∷ [])
    | none ↦
        template (o.source_id ∷ "\0legacy-location\0" ∷ o.document ∷ "\0" ∷ number_text o.row ∷ [])
  ]

  abbrev pub with_occurrence :
      List (String × SourceOccurrence) → SourceOccurrence → List (String × SourceOccurrence)
  with_occurrence table o =
      let key = source_occurrence_key o in
      put table key (merge_source_occurrence (lookup table key) o)

  unfoldable pub all_references :
      List (String × SourceOccurrence) → List SourceOccurrence → List (String × SourceOccurrence)
  all_references table [] = table
  all_references table (o ∷ rest) = all_references (with_occurrence table o) rest

  unfoldable pub merge_source_occurrence_references : List SourceOccurrence → List SourceOccurrence
  merge_source_occurrence_references values = map (λ entry. entry.1) (all_references [] values)
