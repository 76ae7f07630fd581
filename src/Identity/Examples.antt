-- ===== src/Identity/Examples.antt =====
-- The theorems on identities, at one posting on the pages of Ashby.
use intern_notifs.Base.{
  ◌≡◌, ◌⊎◌, refl, String, false, Option, none, some, [], ◌∷◌, ok, All, str_eq, if◌then◌else◌,
}
use intern_notifs.Base.Sets.{distinct, unique_by, set_all}
use intern_notifs.Base.Table.{put}
use intern_notifs.Identity.Posting.{
  ashby, unknown, PostingAlias, PostingIdentity, ProviderPostingReference, provider_posting,
  input_urls, provider_posting_alias, build_posting_identity, references_of,
}
use intern_notifs.Identity.Decision.{Confirmed, confirmed, RegistryInput, RegistryResult, Routes}
use intern_notifs.Identity.Conflicts.{
  evidence_conflict, requisitions, unique_requisitions, requisition_conflict, references,
  exact_references, provider_conflict, first_conflict, alias_key,
}
use intern_notifs.Identity.Registry.{
  claimable_identity, confirm, provider_confirmation, from_reference, from_evidence,
  resolve_posting_identity_decision,
}
use intern_notifs.Identity.Outcome.{Backing}
use intern_notifs.Identity.Claims.{Claims, confirmed-Claims, expired_never_confirms}
use intern_notifs.Identity.Agree.{SameRequisitions, confirmed_agrees}
use intern_notifs.Identity.Aliases.{resolve_posting_aliases}
use intern_notifs.Identity.Settled.{is_quarantine, identity_settles}
use intern_notifs.Identity.Replay.{observed_again, confirmed_is_kept}

abbrev page : String
page = "https://jobs.ashbyhq.com/acme/1"

abbrev at_ashby : ProviderPostingReference
at_ashby = record { provider = ashby; tenant = some "acme"; posting_id = some "1" }

abbrev nowhere : ProviderPostingReference
nowhere = record { provider = unknown; tenant = none; posting_id = none }

abbrev one_page : Routes
one_page = record {
  canonicalize = λ url. ok url;
  reference_of = λ url. ok (if str_eq url page then at_ashby else nowhere);
  is_unscoped_embed = λ url. false;
  review_family = λ url. url;
  lower = λ s. s;
  trim = λ s. s;
  number_text = λ n. "1";
  digest = λ h. "abc";
  job_id = λ key. key;
  sort_aliases = λ aliases. aliases;
  greenhouse_sources = [];
  lever_sources = [];
}

abbrev seen : RegistryInput
seen = record {
  posting = record {
    application_url = page;
    observed_urls = "https://acme.test" ∷ [];
    final_official_url = none;
    provider_evidence = none;
    reviewed_references = [];
    employer_id = none;
    requisition_id = none;
    is_authoritative = none;
  };
  observed_at = 1000;
  reviewed_canonical = none;
  authoritative_requisitions = [];
  previous_decision = none;
}

abbrev decided : Confirmed
decided = provider_confirmation one_page seen at_ashby

abbrev only_alias : PostingAlias
only_alias = record { kind = provider_posting; value = "provider:ashby:acme:1"; source_url = none }

abbrev confirmed_identity : PostingIdentity
confirmed_identity = record {
  identity_provider = ashby;
  identity_tenant = some "acme";
  provider_posting_id = some "1";
  employer_requisition_id = none;
  requisition_authoritative = none;
  canonical_application_url = page;
  aliases = only_alias ∷ [];
  canonical_job_id = "provider:ashby:acme:1";
}

abbrev first_result : RegistryResult
first_result = record { decision = confirmed decided; identity = some confirmed_identity }

comes : resolve_posting_identity_decision one_page seen ≡ ok first_result
unfolding resolve_posting_identity_decision first_conflict evidence_conflict requisition_conflict
    unique_requisitions requisitions provider_conflict exact_references references from_evidence
    from_reference confirm claimable_identity build_posting_identity references_of input_urls
    provider_posting_alias unique_by set_all put distinct provider_confirmation
comes = refl

confirmed-Claims_example : Claims first_result
confirmed-Claims_example = confirmed-Claims one_page seen first_result comes

expired_never_confirms_example :
    (seen.previous_decision ≡ some (confirmed decided))
    ⊎ ((decided.confirmed_at ≡ 1000) × Backing one_page seen decided)
expired_never_confirms_example =
    expired_never_confirms one_page seen first_result decided comes refl

confirmed_agrees_example :
    (evidence_conflict one_page seen.posting.provider_evidence ≡ none)
    × All (λ r. alias_key r ≡ decided.exact_key) (references one_page seen)
    × SameRequisitions (requisitions one_page seen)
confirmed_agrees_example = confirmed_agrees one_page seen first_result decided comes refl

confirmed_is_kept_example :
    resolve_posting_identity_decision one_page (observed_again seen (confirmed decided) 999999999)
    ≡ ok first_result
unfolding unique_by set_all put exact_references references input_urls provider_posting_alias
confirmed_is_kept_example =
    confirmed_is_kept one_page seen first_result decided at_ashby 999999999 comes refl refl

abbrev one_claim : String → Option String
one_claim value = some "job"

identity_settles_example :
    is_quarantine (resolve_posting_aliases one_claim confirmed_identity) ≡ false
identity_settles_example =
    identity_settles one_claim one_page seen first_result confirmed_identity comes refl
