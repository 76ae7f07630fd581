-- ===== src/Trust/Policy.antt =====
-- src/sources/trust-policy.ts: the policies of the sources. `policies` is the table of the reviewed
-- ones, and `digest` hashes the version of the resolver with that of a policy and the switch.
use intern_notifs.Base.{String, Bool, Option, none, some, List, if◌then◌else◌}
use intern_notifs.Base.Table.{lookup}
use intern_notifs.Admission.Evidence.{AlertMode}

pub record TrustedCommunityPolicy : Type 0 where
  pub version : String
  pub alert_mode : AlertMode

pub data SourceAdmissionPolicy : Type 0 where
  standard : SourceAdmissionPolicy
  trusted_community : TrustedCommunityPolicy → SourceAdmissionPolicy

module _ (policies : List (String × TrustedCommunityPolicy)) where
  unfoldable pub source_admission_policy : String → SourceAdmissionPolicy
  unfolding lookup
  source_admission_policy source_id = elim (lookup policies source_id) [
    | none ↦ standard
    | some policy ↦ trusted_community policy
  ]

  unfoldable pub active_trusted_community_policy : String → Bool → Option TrustedCommunityPolicy
  unfolding source_admission_policy
  active_trusted_community_policy source_id catalog_enabled =
      elim (source_admission_policy source_id) [
        | standard ↦ none
        | trusted_community policy ↦ if catalog_enabled then some policy else none
      ]

  unfoldable pub effective_admission_configuration_version :
      (Option String → String → String) → String → Option String → Bool → Option String
  unfolding source_admission_policy
  effective_admission_configuration_version digest source_id resolver_version catalog_enabled =
      elim (source_admission_policy source_id) [
        | standard ↦ resolver_version
        | trusted_community policy ↦
            if catalog_enabled
            then some (digest resolver_version policy.version)
            else resolver_version
      ]
