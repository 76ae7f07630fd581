-- ===== src/Admission/Grace.antt =====
-- What repeated inspections make of a posting whose page cannot be read any more.
use intern_notifs.Base.{
  ℕ, ◌+◌, ◌≤◌, ◌≡◌, String, Bool, true, false, not, ◌&&◌, some, List, [], ◌∷◌, arith, all,
}
use intern_notifs.Admission.Evidence.{CatalogAdmission}
use intern_notifs.Admission.Evaluate.{
  Evaluation, evaluate_catalog_admission, exact_role_destination, verified_at,
  last_successful_verification, evidence_ttl_ms,
}
use intern_notifs.Admission.Deadlines.{catalog_eligible, alert_eligible, freshness_deadlines}

-- Does the inspection verify nothing?
abbrev pub verifies_nothing : Evaluation → Bool
verifies_nothing e = not (exact_role_destination e.destination && e.posting_attributed)

module _ (is_generic : String → Bool) where
  -- Each evaluation is fed the decision before.
  unfoldable pub evaluations : CatalogAdmission → List Evaluation → CatalogAdmission
  evaluations a [] = a
  evaluations a (e ∷ es) = evaluations (evaluate_catalog_admission is_generic e (some a)) es

  keeps_verification :
      (a : CatalogAdmission) (es : List Evaluation) {t : ℕ}
      → a.last_verified_at ≡ some t
      → all verifies_nothing es ≡ true
      → (evaluations a es).last_verified_at ≡ some t
  unfolding evaluations evaluate_catalog_admission verified_at last_successful_verification
  keeps_verification a [] e h = e
  keeps_verification a (x ∷ es) e h =
      keeps_verification (evaluate_catalog_admission is_generic x (some a)) es (ground arith)
        (ground arith)

  expires :
      (a : CatalogAdmission) (now : ℕ) {t : ℕ}
      → a.last_verified_at ≡ some t
      → t + evidence_ttl_ms ≤ now
      → (catalog_eligible (some a) now ≡ false) × (alert_eligible (some a) now ≡ false)
  unfolding catalog_eligible alert_eligible freshness_deadlines
  expires a now e h = ground arith

  -- Retries never extend trust: whatever inspections follow that verify nothing, however many, the
  -- posting leaves the catalog and the alerts seven days after it was last verified.
  pub retries_extend_nothing :
      (a : CatalogAdmission) (es : List Evaluation) (now : ℕ) {t : ℕ}
      → a.last_verified_at ≡ some t
      → all verifies_nothing es ≡ true
      → t + evidence_ttl_ms ≤ now
      → (catalog_eligible (some (evaluations a es)) now ≡ false)
        × (alert_eligible (some (evaluations a es)) now ≡ false)
  retries_extend_nothing a es now e h p =
      expires (evaluations a es) now (keeps_verification a es e h) p
