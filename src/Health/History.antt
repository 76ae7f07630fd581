-- ===== src/Health/History.antt =====
-- The health of a source over every history of polls, each fed the record of the one before.
use intern_notifs.Base.{
  ℕ, ◌≤◌, ◌≡◌, ◌↔◌, refl, true, Option, none, some, List, [], ◌∷◌, arith, length, take, length-take,
  is_some,
}
use intern_notifs.Health.Failure.{Thrown}
use intern_notifs.Health.Record.{
  HealthState, healthy, quarantined, RunState, succeeded, failed, SourceRun, PollInput, Snapshot,
  SourceHealth, paused, resolved, is_quarantined, is_open, runs_before, with_run,
  successful_source_health, failed_source_health,
}

-- A poll and how it ended. The record of the poll before is put in by `poll`.
pub data Ended : Type 0 where
  succeeded_with : Snapshot → Ended
  failed_with : Thrown → Ended

module _ (safe lower : List ℕ → List ℕ) where
  unfoldable pub poll : Option SourceHealth → PollInput × Ended → SourceHealth
  poll before (input, succeeded_with snapshot) =
      successful_source_health (record input { previous = before }) snapshot
  poll before (input, failed_with error) =
      failed_source_health safe lower (record input { previous = before }) error

  unfoldable pub later : SourceHealth → List (PollInput × Ended) → SourceHealth
  later h [] = h
  later h (p ∷ ps) = later (poll (some h) p) ps

  -- The record after a first poll and then others.
  unfoldable pub history : PollInput × Ended → List (PollInput × Ended) → SourceHealth
  history p ps = later (poll none p) ps

abbrev pub run_state_of : Option HealthState → RunState
run_state_of (some healthy) = succeeded
run_state_of (some quarantined) = quarantined
run_state_of _ = failed

-- The first of the runs that are kept is that of the poll which wrote the record.
abbrev pub Newest : SourceHealth → List SourceRun → Type 0
Newest h [] = ⊥
Newest h (r ∷ rs) =
    (r.state ≡ run_state_of h.state)
    × (some r.outcome ≡ h.outcome)
    × (r.failure_category ≡ h.failure_category)
    × (r.diagnostic ≡ h.diagnostic)
    × (r.completed_at ≡ h.last_attempt_at)

-- What holds of every record that a poll has written.
pub record IsSound (h : SourceHealth) : Type 0 where
  pub runs_kept : length h.recent_runs ≤ 25
  pub newest_run : Newest h h.recent_runs
  pub success_dated : h.state ≡ some healthy → h.last_success_at ≡ some h.last_attempt_at
  pub healthy_iff : (h.state ≡ some healthy) ↔ (h.consecutive_failures ≡ 0)
  pub quarantine_pauses : is_quarantined h.state ≡ true → h.source_status ≡ some paused
  pub quarantine_dated : is_quarantined h.state ≡ true → is_some h.quarantined_at ≡ true
  pub quarantine_explained : is_quarantined h.state ≡ true → is_some h.quarantine_reason ≡ true
  pub quarantine_raised : is_quarantined h.state ≡ true → is_open h.incident_state ≡ true
  pub failures_raised : 2 ≤ h.consecutive_failures → is_open h.incident_state ≡ true
  pub success_resolves : h.state ≡ some healthy → h.incident_state ≡ some resolved

runs_bound : (before : Option SourceHealth) → length (take 24 (runs_before before)) ≤ 24
runs_bound before = omega (arith, length-take 24 (runs_before before))

success-IsSound :
    (input : PollInput) (snapshot : Snapshot) → IsSound (successful_source_health input snapshot)
unfolding successful_source_health with_run
success-IsSound input snapshot = record {
  runs_kept = omega (arith, runs_bound input.previous);
  newest_run = (refl, refl, refl, refl, refl);
  success_dated = ground arith;
  healthy_iff = ground arith;
  quarantine_pauses = ground arith;
  quarantine_dated = ground arith;
  quarantine_explained = ground arith;
  quarantine_raised = ground arith;
  failures_raised = ground arith;
  success_resolves = ground arith;
}

module _ (safe lower : List ℕ → List ℕ) where
  failure-IsSound :
      (input : PollInput) (error : Thrown) → IsSound (failed_source_health safe lower input error)
  unfolding failed_source_health with_run
  failure-IsSound input error = record {
    runs_kept = omega (arith, runs_bound input.previous);
    newest_run = (ground arith, refl, refl, refl, refl);
    success_dated = ground arith;
    healthy_iff = ground arith;
    quarantine_pauses = ground arith;
    quarantine_dated = ground arith;
    quarantine_explained = ground arith;
    quarantine_raised = ground arith;
    failures_raised = ground arith;
    success_resolves = ground arith;
  }

  poll-IsSound :
      (before : Option SourceHealth) (p : PollInput × Ended) → IsSound (poll safe lower before p)
  unfolding poll
  poll-IsSound before (input, succeeded_with snapshot) = success-IsSound _ snapshot
  poll-IsSound before (input, failed_with error) = failure-IsSound _ error

  later-IsSound :
      (h : SourceHealth) (ps : List (PollInput × Ended))
      → IsSound h
      → IsSound (later safe lower h ps)
  unfolding later
  later-IsSound h [] v = v
  later-IsSound h (p ∷ ps) v =
      later-IsSound (poll safe lower (some h) p) ps (poll-IsSound (some h) p)

  -- Whatever polls a source has been through, its record keeps at most the last 25 runs, and the
  -- newest of them is that of the last attempt: it tells how the poll ended as the state does, with
  -- the outcome, the kind of failure and the diagnostic of the record. The record is healthy exactly
  -- if no failure is counted, and then the last attempt is the last success and the incident is
  -- resolved; while it is quarantined it is paused, the quarantine has a date and a reason, and an
  -- incident is open, as it is from the second failure in a row on.
  pub history-IsSound :
      (p : PollInput × Ended) (ps : List (PollInput × Ended)) → IsSound (history safe lower p ps)
  unfolding history
  history-IsSound p ps = later-IsSound (poll safe lower none p) ps (poll-IsSound none p)
