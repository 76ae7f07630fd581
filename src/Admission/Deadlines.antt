-- ===== src/Admission/Deadlines.antt =====
-- src/catalog-admission.ts: how long a stored decision holds (`catalogEligible`, `alertEligible`).
use intern_notifs.Base.{
  ℕ, ◌+◌, Bool, true, false, ◌&&◌, not, Option, none, some, min, ltb, leb, or_else,
}
use intern_notifs.Admission.Evidence.{CatalogAdmission}
use intern_notifs.Admission.Evaluate.{evidence_ttl_ms}

-- The first readable time of the evidence.
abbrev pub observed_at : CatalogAdmission → Option ℕ
observed_at a = or_else a.last_verified_at (
    or_else a.destination.last_known_good_at
      (or_else a.destination.inspected_at a.evidence_observed_at))

abbrev pub sooner : Option ℕ → ℕ → ℕ
sooner none t = t
sooner (some s) t = min s t

-- The two deadlines: of trust, and of grace. Evidence without a time is not trusted at all.
unfoldable pub freshness_deadlines : CatalogAdmission → ℕ × ℕ
freshness_deadlines a = elim (observed_at a) [
  | none ↦ (0, 0)
  | some t ↦
      let fresh_until = sooner a.destination.fresh_until (t + evidence_ttl_ms) in
      (fresh_until, sooner a.grace_deadline fresh_until)
]

abbrev pub has_passed : Option ℕ → ℕ → Bool
has_passed none now = false
has_passed (some t) now = leb t now

unfoldable pub catalog_eligible : Option CatalogAdmission → ℕ → Bool
unfolding freshness_deadlines
catalog_eligible none now = true
catalog_eligible (some a) now =
    a.catalog_eligible
    && not (has_passed a.destination.valid_through now)
    && ltb now (freshness_deadlines a).1

unfoldable pub alert_eligible : Option CatalogAdmission → ℕ → Bool
unfolding freshness_deadlines
alert_eligible none now = true
alert_eligible (some a) now = a.alert_eligible && ltb now (freshness_deadlines a).0
