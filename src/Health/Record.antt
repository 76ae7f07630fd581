-- ===== src/Health/Record.antt =====
-- src/source-health.ts: the record that is written after a poll. An instant is a number of
-- milliseconds since the epoch. Run ids are given: the source draws them at random.
use intern_notifs.Base.{
  ℕ, ◌+◌, ◌-◌, String, Bool, true, false, ◌||◌, Option, none, some, List, [], ◌∷◌, take, str_eq,
  ltb, leb, get_or, or_else, if◌then◌else◌,
}
use intern_notifs.Health.Failure.{
  FailureCategory, SourceOutcome, changed, success_changed, LinkSample, Thrown, links, message_of,
  source_failure_category, source_failure_outcome, should_quarantine, source_backoff_until,
}

pub data HealthState : Type 0 where
  healthy degraded quarantined never_succeeded : HealthState

pub data IncidentState : Type 0 where
  open_incident acknowledged resolved : IncidentState

pub data PollTier : Type 0 where
  active quiet : PollTier

pub data PollTierMode : Type 0 where
  automatic operator : PollTierMode

pub data OperationalStatus : Type 0 where
  active paused : OperationalStatus

pub data Severity : Type 0 where
  warning high : Severity

pub data RunState : Type 0 where
  succeeded failed quarantined : RunState

pub record SourceRun : Type 0 where
  pub run_id : String
  pub source_id : String
  pub provider : Option String
  pub region : Option String
  pub outcome : SourceOutcome
  pub state : RunState
  pub started_at : ℕ
  pub completed_at : ℕ
  pub duration_ms : ℕ
  pub raw_rows : Option ℕ
  pub eligible_rows : Option ℕ
  pub withheld_rows : Option ℕ
  pub failure_category : Option FailureCategory
  pub diagnostic : Option (List ℕ)

-- Where the source writes one value under two names, always together (`outcome` and `lastOutcome`,
-- `rawRows` and `rawCount`, `failureCategory`, `lastFailureCategory` and `diagnosticCategory`,
-- `diagnostic` and `lastSafeDiagnostic`, `contentHash` and `snapshotHash`), there is one field.
-- `freshness_ms` is `freshnessMinutes` in milliseconds.
pub record SourceHealth : Type 0 where
  pub source_id : String
  pub employer_id : Option String
  pub provider : Option String
  pub region : Option String
  pub state : Option HealthState
  pub source_status : Option OperationalStatus
  pub poll_tier : Option PollTier
  pub poll_tier_mode : Option PollTierMode
  pub last_attempt_at : ℕ
  pub last_success_at : Option ℕ
  pub last_changed_at : Option ℕ
  pub freshness_ms : Option ℕ
  pub outcome : Option SourceOutcome
  pub consecutive_failures : ℕ
  pub etag : Option String
  pub content_hash : Option String
  pub raw_rows : Option ℕ
  pub valid_rows : Option ℕ
  pub eligible_rows : Option ℕ
  pub filtered_rows : Option ℕ
  pub withheld_rows : Option ℕ
  pub application_links_checked : Option ℕ
  pub application_link_failures : Option ℕ
  pub application_link_failure_samples : Option (List LinkSample)
  pub duration_ms : ℕ
  pub failure_category : Option FailureCategory
  pub diagnostic : Option (List ℕ)
  pub backoff_until : Option ℕ
  pub incident_state : Option IncidentState
  pub incident_severity : Option Severity
  pub incident_opened_at : Option ℕ
  pub incident_updated_at : Option ℕ
  pub incident_acknowledged_at : Option ℕ
  pub incident_resolved_at : Option ℕ
  pub config_version : Option ℕ
  pub changed_at : Option ℕ
  pub changed_by : Option String
  pub quarantined_at : Option ℕ
  pub quarantine_reason : Option (List ℕ)
  pub recent_runs : List SourceRun

module _ {A : Type 0} where
  -- `input.previous?.field`
  abbrev pub prev : Option SourceHealth → (SourceHealth → Option A) → Option A
  prev none field = none
  prev (some h) field = field h

-- A text that is spread in only if it is not empty.
abbrev pub truthy : Option String → Option String
truthy none = none
truthy (some s) = if str_eq s "" then none else some s

abbrev pub failures_before : Option SourceHealth → ℕ
failures_before none = 0
failures_before (some h) = h.consecutive_failures

abbrev pub runs_before : Option SourceHealth → List SourceRun
runs_before none = []
runs_before (some h) = h.recent_runs

abbrev pub max_recent_runs : ℕ
max_recent_runs = 25

unfoldable pub with_run : Option SourceHealth → SourceRun → List SourceRun
with_run previous run = take max_recent_runs (run ∷ runs_before previous)

abbrev pub is_quarantined : Option HealthState → Bool
is_quarantined (some quarantined) = true
is_quarantined _ = false

abbrev pub is_open : Option IncidentState → Bool
is_open (some open_incident) = true
is_open (some acknowledged) = true
is_open _ = false

abbrev is_acknowledged : Option IncidentState → Bool
is_acknowledged (some acknowledged) = true
is_acknowledged _ = false

abbrev is_change : SourceOutcome → Bool
is_change success_changed = true
is_change changed = true
is_change _ = false

abbrev is_operator : PollTierMode → Bool
is_operator operator = true
is_operator automatic = false

-- What a poll is recorded with; the last fields are those of a poll that succeeded.
pub record PollInput : Type 0 where
  pub source_id : String
  pub employer_id : Option String
  pub provider : Option String
  pub region : Option String
  pub previous : Option SourceHealth
  pub started_at : ℕ
  pub completed_at : ℕ
  pub run_id : String

pub record Snapshot : Type 0 where
  pub outcome : Option SourceOutcome
  pub etag : Option String
  pub content_hash : Option String
  pub raw_rows : Option ℕ
  pub valid_rows : Option ℕ
  pub eligible_rows : Option ℕ
  pub filtered_rows : Option ℕ
  pub withheld_rows : Option ℕ

unfoldable pub successful_source_health : PollInput → Snapshot → SourceHealth
unfolding with_run
successful_source_health input snapshot =
    let previous = input.previous in
    let outcome : SourceOutcome = get_or snapshot.outcome success_changed in
    let automatic_tier : PollTier =
      if ltb 0 (get_or snapshot.eligible_rows 0) then active else quiet in
    let mode : PollTierMode = get_or (prev previous (λ h. h.poll_tier_mode)) automatic in
    let was_open : Bool = is_open (prev previous (λ h. h.incident_state)) in
    record {
      source_id = input.source_id;
      employer_id =
          or_else (truthy input.employer_id) (truthy (prev previous (λ h. h.employer_id)));
      provider = or_else (truthy input.provider) (truthy (prev previous (λ h. h.provider)));
      region = or_else (truthy input.region) (truthy (prev previous (λ h. h.region)));
      state = some healthy;
      source_status = some (get_or (prev previous (λ h. h.source_status)) active);
      poll_tier = some (
          if is_operator mode
          then get_or (prev previous (λ h. h.poll_tier)) automatic_tier
          else automatic_tier);
      poll_tier_mode = some mode;
      last_attempt_at = input.completed_at;
      last_success_at = some input.completed_at;
      last_changed_at =
          if is_change outcome
          then some input.completed_at
          else prev previous (λ h. h.last_changed_at);
      freshness_ms = some 0;
      outcome = some outcome;
      consecutive_failures = 0;
      etag = truthy snapshot.etag;
      content_hash = truthy snapshot.content_hash;
      raw_rows = snapshot.raw_rows;
      valid_rows = snapshot.valid_rows;
      eligible_rows = snapshot.eligible_rows;
      filtered_rows = snapshot.filtered_rows;
      withheld_rows = snapshot.withheld_rows;
      application_links_checked = none;
      application_link_failures = none;
      application_link_failure_samples = none;
      duration_ms = input.completed_at - input.started_at;
      failure_category = none;
      diagnostic = none;
      backoff_until = none;
      incident_state = some resolved;
      incident_severity = if was_open then prev previous (λ h. h.incident_severity) else none;
      incident_opened_at = if was_open then prev previous (λ h. h.incident_opened_at) else none;
      incident_updated_at = if was_open then some input.completed_at else none;
      incident_acknowledged_at = none;
      incident_resolved_at = if was_open then some input.completed_at else none;
      config_version = some (get_or (prev previous (λ h. h.config_version)) 1);
      changed_at = prev previous (λ h. h.changed_at);
      changed_by = truthy (prev previous (λ h. h.changed_by));
      quarantined_at = none;
      quarantine_reason = none;
      recent_runs = with_run previous (record {
        run_id = input.run_id;
        source_id = input.source_id;
        provider = truthy input.provider;
        region = truthy input.region;
        outcome = outcome;
        state = succeeded;
        started_at = input.started_at;
        completed_at = input.completed_at;
        duration_ms = input.completed_at - input.started_at;
        raw_rows = snapshot.raw_rows;
        eligible_rows = snapshot.eligible_rows;
        withheld_rows = snapshot.withheld_rows;
        failure_category = none;
        diagnostic = none;
      });
    }

pub samples_after : Thrown → Option SourceHealth → Option (List LinkSample)
samples_after (links message samples) previous = some samples
samples_after _ previous = prev previous (λ h. h.application_link_failure_samples)

-- `lastSuccessAt` to now, where there has been a success.
abbrev pub freshness : Option ℕ → ℕ → Option ℕ
freshness none now = none
freshness (some t) now = some (now - t)

pub incident_after : Bool → Option IncidentState → IncidentState
incident_after incident before =
    if incident
    then (if is_acknowledged before then acknowledged else open_incident)
    else get_or before resolved

module _ (safe lower : List ℕ → List ℕ) where
  -- Was the source quarantined already, or is it by this failure?
  unfoldable pub quarantines : PollInput → Thrown → Bool
  quarantines input error =
      is_quarantined (prev input.previous (λ h. h.state))
      || should_quarantine (source_failure_category safe lower error) error
          (failures_before input.previous + 1)

  unfoldable pub failed_source_health : PollInput → Thrown → SourceHealth
  unfolding with_run samples_after incident_after
  failed_source_health input error =
      let previous = input.previous in
      let category : FailureCategory = source_failure_category safe lower error in
      let failures : ℕ = failures_before previous + 1 in
      let was_quarantined : Bool = is_quarantined (prev previous (λ h. h.state)) in
      let is_now : Bool = quarantines input error in
      let text : List ℕ = safe (message_of error) in
      let outcome : SourceOutcome = source_failure_outcome safe lower error in
      let incident : Bool = is_now || leb 2 failures in
      record {
        source_id = input.source_id;
        employer_id =
            or_else (truthy input.employer_id) (truthy (prev previous (λ h. h.employer_id)));
        provider = or_else (truthy input.provider) (truthy (prev previous (λ h. h.provider)));
        region = or_else (truthy input.region) (truthy (prev previous (λ h. h.region)));
        state = some (if is_now then quarantined else degraded);
        source_status =
            some (if is_now then paused else get_or (prev previous (λ h. h.source_status)) active);
        poll_tier = some (get_or (prev previous (λ h. h.poll_tier)) active);
        poll_tier_mode = prev previous (λ h. h.poll_tier_mode);
        last_attempt_at = input.completed_at;
        last_success_at = prev previous (λ h. h.last_success_at);
        last_changed_at = prev previous (λ h. h.last_changed_at);
        freshness_ms = freshness (prev previous (λ h. h.last_success_at)) input.completed_at;
        outcome = some outcome;
        consecutive_failures = failures;
        etag = none;
        content_hash = none;
        raw_rows = prev previous (λ h. h.raw_rows);
        valid_rows = prev previous (λ h. h.valid_rows);
        eligible_rows = prev previous (λ h. h.eligible_rows);
        filtered_rows = prev previous (λ h. h.filtered_rows);
        withheld_rows = prev previous (λ h. h.withheld_rows);
        application_links_checked = prev previous (λ h. h.application_links_checked);
        application_link_failures = prev previous (λ h. h.application_link_failures);
        application_link_failure_samples = samples_after error previous;
        duration_ms = input.completed_at - input.started_at;
        failure_category = some category;
        diagnostic = some text;
        backoff_until = source_backoff_until error failures input.completed_at;
        incident_state = some (incident_after incident (prev previous (λ h. h.incident_state)));
        incident_severity =
            if incident then some (if is_now || leb 3 failures then high else warning) else none;
        incident_opened_at =
            if incident
            then some (get_or (prev previous (λ h. h.incident_opened_at)) input.completed_at)
            else none;
        incident_updated_at = if incident then some input.completed_at else none;
        incident_acknowledged_at =
            if incident then prev previous (λ h. h.incident_acknowledged_at) else none;
        incident_resolved_at = none;
        config_version = some (get_or (prev previous (λ h. h.config_version)) 1);
        changed_at = prev previous (λ h. h.changed_at);
        changed_by = truthy (prev previous (λ h. h.changed_by));
        quarantined_at =
            if is_now
            then (if was_quarantined
                then some (get_or (prev previous (λ h. h.quarantined_at)) input.completed_at)
                else some input.completed_at)
            else none;
        quarantine_reason =
            if is_now
            then (if was_quarantined
                then some (get_or (prev previous (λ h. h.quarantine_reason)) text)
                else some text)
            else none;
        recent_runs = with_run previous (record {
          run_id = input.run_id;
          source_id = input.source_id;
          provider = truthy input.provider;
          region = truthy input.region;
          outcome = outcome;
          state = if is_now then quarantined else failed;
          started_at = input.started_at;
          completed_at = input.completed_at;
          duration_ms = input.completed_at - input.started_at;
          raw_rows = none;
          eligible_rows = none;
          withheld_rows = none;
          failure_category = some category;
          diagnostic = some text;
        });
      }
