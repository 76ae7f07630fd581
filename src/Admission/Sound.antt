-- ===== src/Admission/Sound.antt =====
-- What an admission rests on.
use intern_notifs.Base.{
  ℕ, ◌+◌, ◌<◌, ◌≡◌, ◌↔◌, refl, sym, ◌∙◌, String, Bool, true, false, not, ◌&&◌, ◌||◌, ◌⊎◌, inl, inr,
  Option, none, some, List, [], ◌∷◌, ◌++◌, arith, any, get_or, is_some, if◌then◌else◌, Option-cases,
}
use intern_notifs.Admission.Evidence.{
  CatalogAdmission, Reason, MetadataCompleteness, destination_unresolved,
  destination_blocked_uninspectable, posting_unattributed, employer_unresolved,
  employer_generic_label,
}
use intern_notifs.Admission.Metadata.{metadata_completeness, metadata_reasons}
use intern_notifs.Admission.Evaluate.{
  Evaluation, evaluate_catalog_admission, exact_role_destination, verified_at, grace_end, in_grace,
  is_eligible, evidence_ttl_ms, is_inconclusive, is_blocking, with_grace, reasons, final_reasons,
  label_is_generic, is_suppressed, destination_reason,
}

-- The metadata is complete exactly if it gives no reason against the posting.
pub complete_without_reasons :
    (title : List ℕ) (locations : List (List ℕ)) (repaired : Bool)
    → ((metadata_completeness title locations repaired).is_complete ≡ true)
      ↔ (metadata_reasons (metadata_completeness title locations repaired) ≡ [])
unfolding metadata_completeness metadata_reasons
complete_without_reasons title locations repaired = ground arith

-- The reasons that no grace period lifts.
abbrev pub is_lasting : Bool → Reason → Bool
is_lasting trusted destination_unresolved = false
is_lasting trusted destination_blocked_uninspectable = false
is_lasting trusted r = is_blocking trusted r

any-append :
    {A : Type 0} (p : A → Bool) (xs ys : List A) → any p (xs ++ ys) ≡ (any p xs || any p ys)
any-append p [] ys = refl
any-append p (x ∷ xs) ys = ground (arith, any-append p xs ys)

lasting_block :
    (trusted : Bool) (rs : List Reason)
    → any (is_blocking trusted) rs ≡ false
    → any (is_lasting trusted) rs ≡ false
lasting_block trusted [] h = refl
lasting_block trusted (r ∷ rs) h = ground (arith, lasting_block trusted rs)

grace_keeps_lasting :
    (trusted : Bool) (rs : List Reason)
    → any (is_blocking trusted) (with_grace rs) ≡ false
    → any (is_lasting trusted) rs ≡ false
grace_keeps_lasting trusted [] h = refl
grace_keeps_lasting trusted (r ∷ rs) h =
    ground (arith, grace_keeps_lasting trusted rs, lasting_block trusted rs)

lasting_either :
    (trusted graceful : Bool) (rs : List Reason)
    → any (is_blocking trusted) (if graceful then with_grace rs else rs) ≡ false
    → any (is_lasting trusted) rs ≡ false
lasting_either trusted true rs h = grace_keeps_lasting trusted rs h
lasting_either trusted false rs h = lasting_block trusted rs h

grace_sound :
    (e : Evaluation) (previous : Option CatalogAdmission)
    → in_grace e previous ≡ true
    → (is_inconclusive e.destination ≡ true)
      × (is_some e.trusted_community ≡ false)
      × (t : ℕ) × (verified_at e previous ≡ some t)
      × (e.evaluated_at < t + evidence_ttl_ms)
unfolding in_grace grace_end
grace_sound e previous g = elim (Option-cases (verified_at e previous)) [
  | inl n ↦ ground arith
  | inr v ↦ (ground arith, ground arith, v.0, v.1, ground arith)
]

second_false : (a b c : Bool) → (not a && not b && c) ≡ true → b ≡ false
second_false a b c h = ground arith

third_true : (a b c : Bool) → (not a && not b && c) ≡ true → c ≡ true
third_true a b c h = ground arith

true_or : (a b : Bool) → (a || b) ≡ true → (a ≡ true) ⊎ (b ≡ true)
true_or a b h = ground arith

middle_true : (a b c : Bool) → (a && not b && c) ≡ true → b ≡ false
middle_true a b c h = ground arith

or_false : (a b : Bool) → (a || b) ≡ false → (a ≡ false) × (b ≡ false)
or_false a b h = ground arith

-- Metadata that gives a reason gives a lasting one.
metadata_lasting :
    (trusted : Bool) (m : MetadataCompleteness)
    → any (is_lasting trusted) (metadata_reasons m) ≡ false
    → metadata_reasons m ≡ []
unfolding metadata_reasons
metadata_lasting trusted m h = ground arith

listing_lasting :
    (trusted named generic attributed : Bool) (d : Option Reason)
    → any (is_lasting trusted) (
        (if named then [] else employer_unresolved ∷ [])
        ++ ((if generic then employer_generic_label ∷ [] else [])
            ++ ((if attributed then [] else posting_unattributed ∷ [])
                ++ elim d [ none ↦ [] | some r ↦ r ∷ [] ])))
      ≡ false
    → (generic ≡ false)
      × ((attributed ≡ true) ⊎ (trusted ≡ true))
      × ((named ≡ true) ⊎ (trusted ≡ true))
listing_lasting trusted named generic attributed d h = ground arith

module _ (is_generic : String → Bool) where
  abbrev pub given_metadata : Evaluation → MetadataCompleteness
  given_metadata e =
      get_or e.listing.metadata_completeness
        (metadata_completeness e.listing.title e.listing.locations e.listing.title_repaired)

  lasting_reasons :
      (e : Evaluation) (previous : Option CatalogAdmission)
      → is_eligible is_generic e previous ≡ true
      → any (is_lasting (is_some e.trusted_community)) (reasons is_generic e) ≡ false
  unfolding is_eligible final_reasons
  lasting_reasons e previous h =
      lasting_either (is_some e.trusted_community) (in_grace e previous) (reasons is_generic e)
        (second_false (is_suppressed e.trusted_community) _ _ h)

  page_sound :
      (e : Evaluation) (previous : Option CatalogAdmission)
      → is_eligible is_generic e previous ≡ true
      → (exact_role_destination e.destination ≡ true)
        ⊎ ((is_inconclusive e.destination ≡ true)
            × (is_some e.trusted_community ≡ false)
            × (t : ℕ) × (verified_at e previous ≡ some t)
            × (e.evaluated_at < t + evidence_ttl_ms))
  unfolding is_eligible
  page_sound e previous h =
      elim (true_or _ _ (third_true (is_suppressed e.trusted_community) _ _ h)) [
        | inl p ↦ inl p
        | inr g ↦ inr (grace_sound e previous g)
      ]

  alerting_page :
      (e : Evaluation) (previous : Option CatalogAdmission)
      → is_eligible is_generic e previous ≡ true
      → in_grace e previous ≡ false
      → exact_role_destination e.destination ≡ true
  unfolding is_eligible
  alerting_page e previous h g =
      elim (true_or _ _ (third_true (is_suppressed e.trusted_community) _ _ h)) [
        | inl p ↦ p
        | inr q ↦ cc
      ]

  no_lasting :
      (trusted : Bool) (e : Evaluation)
      → any (is_lasting trusted) (reasons is_generic e) ≡ false
      → (metadata_reasons (given_metadata e) ≡ [])
        × (label_is_generic is_generic e.listing ≡ false)
        × ((e.posting_attributed ≡ true) ⊎ (trusted ≡ true))
        × ((is_some e.listing.employer ≡ true) ⊎ (trusted ≡ true))
  unfolding reasons
  no_lasting trusted e h =
      let m = metadata_reasons (given_metadata e) in
      let split =
        or_false (any (is_lasting trusted) m) _ (sym (any-append (is_lasting trusted) m _) ∙ h) in
      let listed =
        listing_lasting trusted (is_some e.listing.employer) (label_is_generic is_generic e.listing)
          e.posting_attributed (destination_reason e.destination) split.1 in
      (metadata_lasting trusted (given_metadata e) split.0, listed.0, listed.1, listed.2)

  -- A posting that is admitted has complete metadata and an employer label that names someone. Its
  -- page shows the posting itself, or could not be read less than seven days after it was last
  -- verified, where no source was trusted instead. Where none is, the posting is attributed and its
  -- employer resolved. A posting that raises alerts is admitted by its page.
  pub admission_sound :
      (e : Evaluation) (previous : Option CatalogAdmission)
      → (evaluate_catalog_admission is_generic e previous).catalog_eligible ≡ true
      → ((metadata_reasons (given_metadata e) ≡ [])
          × (label_is_generic is_generic e.listing ≡ false)
          × ((e.posting_attributed ≡ true) ⊎ (is_some e.trusted_community ≡ true))
          × ((is_some e.listing.employer ≡ true) ⊎ (is_some e.trusted_community ≡ true)))
        × ((exact_role_destination e.destination ≡ true)
            ⊎ ((is_inconclusive e.destination ≡ true)
                × (is_some e.trusted_community ≡ false)
                × (t : ℕ) × (verified_at e previous ≡ some t)
                × (e.evaluated_at < t + evidence_ttl_ms)))
        × ((evaluate_catalog_admission is_generic e previous).alert_eligible ≡ true
            → exact_role_destination e.destination ≡ true)
  unfolding evaluate_catalog_admission
  admission_sound e previous h = (
    no_lasting (is_some e.trusted_community) e (lasting_reasons e previous h),
    page_sound e previous h,
    λ k. alerting_page e previous h (middle_true (is_eligible is_generic e previous) _ _ k),
  )
