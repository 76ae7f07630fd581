-- ===== src/Catalog/Job.antt =====
-- src/ingestion/catalog-reconciler.ts: the job of a posting, made from its first listing and merged
-- with the later ones. `url` is the normalised URL of the listing.
use intern_notifs.Base.{
  ℕ, String, Bool, true, false, ◌&&◌, ◌||◌, not, Option, none, some, List, [], ◌∷◌, map, any,
  length, ltb, ◌==◌, is_some, get_or, or_else, str_eq, if◌then◌else◌,
}
use intern_notifs.Admission.Evidence.{SourceOccurrence}
use intern_notifs.Admission.Derive.{derive_canonical_admission}
use intern_notifs.Catalog.Types.{
  SourceOccurrenceState, ProcessedListing, Internship, Recency, Tools,
}
use intern_notifs.Catalog.References.{
  closed_where, stays_open, known_invalid_url, occurrence_of, first_text, merged_posting_identity,
  any_open, any_open_technical_occurrence, is_identity_unconfirmed, identity_status_of,
  is_same_occurrence, is_same, attached_now, attach, is_gone, is_verified_reopen, eligibility,
  from_trusted_community,
}
use intern_notifs.Catalog.Describe.{
  normalize_listing, normalize_internship, project_role_metadata, is_official_occurrence,
  season_allows_open, merged_description, named_by,
}

abbrev becomes_visible : Internship → ProcessedListing → Bool
becomes_visible existing listing =
    not (is_some existing.catalog_visible_at)
    && not (get_or (eligibility existing.admission) true)
    && get_or (eligibility listing.reference.admission) false

abbrev first_recency : SourceOccurrence → Recency
first_recency r = elim r.alert_qualification [
  | none ↦ Recency.normal
  | some q ↦ if q.baseline_suppressed then Recency.baseline else Recency.normal
]

-- `metadataVersion`, unless it is 0
abbrev positive : Option ℕ → Option ℕ
positive none = none
positive (some n) = if ltb 0 n then some n else none

module _ (tools : Tools) where
  unfoldable pub merge :
      Internship → ProcessedListing → String → String → ℕ → Option ℕ → Option ℕ → Internship
  unfolding occurrence_of attach merged_posting_identity identity_status_of
      derive_canonical_admission stays_open known_invalid_url
  merge stored raw external_id url now validated_at metadata_version =
      let existing : Internship = normalize_internship tools stored in
      let listing : ProcessedListing = normalize_listing tools raw in
      let reference : SourceOccurrence = occurrence_of listing external_id in
      let before : List SourceOccurrence = existing.source_references in
      let found = any (is_same reference external_id) before in
      let prefer_incoming =
        is_official_occurrence tools listing.reference
        && get_or (eligibility listing.reference.admission) true in
      let references = attach reference external_id now before in
      let admission = derive_canonical_admission tools.disagree references now in
      let is_closed = is_gone admission in
      let keep_quarantined =
        elim existing.invalid_application_url [ none ↦ false | some bad ↦ str_eq bad url ]
        && not (is_verified_reopen admission) in
      let replace_url =
        is_some validated_at
        && (not (is_some existing.application_url_validated_at)
            || not (str_eq existing.normalized_url url)) in
      let identity = or_else listing.listed_internship existing.internship_identity in
      let season =
        if prefer_incoming || is_some validated_at || found && (length before == 1)
        then listing.reference.season
        else existing.season in
      let trusted_reappearance =
        found
        && listing.reference.is_open
        && from_trusted_community listing.reference.admission
        && not (any (is_official_occurrence tools) before) in
      let can_revive = existing.is_open || prefer_incoming || trusted_reappearance in
      let described =
        merged_description tools prefer_incoming existing.description
          listing.reference.description in
      let visible = becomes_visible stored raw in
      project_role_metadata tools (
        normalize_internship tools (record existing {
          description = named_by tools admission described;
          season = season;
          apply_url =
              if replace_url
              then listing.reference.apply_url
              else first_text existing.apply_url listing.reference.apply_url;
          normalized_url = if replace_url then url else existing.normalized_url;
          posting_identity =
              merged_posting_identity existing.posting_identity listing.listed_identity;
          posting_identity_status =
              or_else (identity_status_of references) existing.posting_identity_status;
          internship_identity = identity;
          application_url_validated_at =
              or_else validated_at
                (if is_closed then none else existing.application_url_validated_at);
          page_metadata_version =
              or_else (positive metadata_version) existing.page_metadata_version;
          invalid_application_url =
              known_invalid_url is_closed keep_quarantined url existing.invalid_application_url;
          fingerprint = tools.make_fingerprint described season;
          source_references = references;
          technical =
              if can_revive
              then some (any_open_technical_occurrence references)
              else existing.technical;
          is_open =
              stays_open is_closed keep_quarantined can_revive (any_open references)
                (season_allows_open tools season identity references now);
          admission = or_else admission existing.admission;
          catalog_visible_at = if visible then some now else existing.catalog_visible_at;
          catalog_recency =
              if visible then some (first_recency listing.reference) else existing.catalog_recency;
          last_seen_at = now;
          notification =
              if is_closed
              then record { sms_pending = false; digest_pending = false }
              else existing.notification;
        }))

  unfoldable pub create :
      ProcessedListing → String → String → ℕ → Bool → Option ℕ → Option ℕ → Internship
  unfolding occurrence_of identity_status_of derive_canonical_admission
  create raw external_id url now baseline validated_at metadata_version =
      let listing : ProcessedListing = normalize_listing tools raw in
      let reference : SourceOccurrence = listing.reference in
      let references = attached_now (occurrence_of listing external_id) now ∷ [] in
      let key = tools.make_fingerprint reference.description reference.season in
      let admission = derive_canonical_admission tools.disagree references now in
      let is_closed = is_gone admission in
      let hidden = not (get_or (eligibility admission) true) in
      project_role_metadata tools (record {
        job_id = elim listing.listed_identity [
          | some identity ↦ identity.canonical_job_id
          | none ↦
              if is_identity_unconfirmed reference
              then tools.occurrence_job_id reference.source_id external_id
              else tools.url_job_id url key
        ];
        description = named_by tools admission reference.description;
        season = reference.season;
        apply_url = reference.apply_url;
        normalized_url = url;
        posting_identity = listing.listed_identity;
        posting_identity_status = identity_status_of (reference ∷ []);
        internship_identity = listing.listed_internship;
        application_url_validated_at = validated_at;
        page_metadata_version = positive metadata_version;
        invalid_application_url = if is_closed then some url else none;
        fingerprint = key;
        source_references = references;
        technical = some (get_or reference.technical (tools.is_technical listing));
        is_open =
            not is_closed
            && reference.is_open
            && season_allows_open tools reference.season listing.listed_internship references now;
        admission = admission;
        first_seen_at = now;
        catalog_visible_at = if hidden then none else some now;
        catalog_recency =
            if hidden then none else some (if baseline then Recency.baseline else Recency.normal);
        last_seen_at = now;
        notification = record { sms_pending = true; digest_pending = true };
      })

  unfoldable pub close_occurrence : Internship → SourceOccurrenceState → ℕ → Internship
  unfolding derive_canonical_admission
  close_occurrence job state now =
      let same =
        is_same_occurrence state.source_id state.external_id state.occurrence.document
          state.occurrence.row in
      let references = map (closed_where same) job.source_references in
      record job {
        source_references = references;
        admission =
            or_else (derive_canonical_admission tools.disagree references now) job.admission;
        technical =
            if job.is_open then some (any_open_technical_occurrence references) else job.technical;
        is_open =
            job.is_open
            && any_open references
            && season_allows_open tools job.season job.internship_identity references now;
        last_seen_at = now;
      }
