-- ===== src/Cadence/Examples.antt =====
-- The theorems on the cadence, at one source.
use intern_notifs.Base.{
  ℕ, ◌+◌, ◌≤◌, ◌<◌, ◌≡◌, ◌↔◌, refl, true, false, none, some, List, [], ◌∷◌, units,
}
use intern_notifs.Health.Failure.{
  FetchError, fetch, http, should_quarantine, quarantines_by_category, is_denied, is_immediate,
  source_failure_category, retryable,
}
use intern_notifs.Health.Record.{
  PollInput, Snapshot, SourceHealth, quarantines, failed_source_health,
}
use intern_notifs.Health.History.{succeeded_with, failed_with, poll, later}
use intern_notifs.Health.Quarantine.{failures}
use intern_notifs.Cadence.{published, shadow, window_of, is_provider_source_due}
use intern_notifs.Cadence.Due.{quarantine_stops_polls, failure_delays_poll}
use intern_notifs.Cadence.Shadow.{new_source_due_once}

abbrev same : List ℕ → List ℕ
same text = text

abbrev at : ℕ → PollInput
at now = record {
  source_id = "lever:acme";
  employer_id = none;
  provider = some "lever";
  region = none;
  previous = none;
  started_at = now;
  completed_at = now + 500;
  run_id = "r";
}

abbrev gone : FetchError
gone = record {
  message = units "gone";
  category = http;
  status = some 404;
  retry_after_ms = none;
  immediate_quarantine = false;
}

abbrev busy : FetchError
busy = record gone { status = some 503; retry_after_ms = some 90000 }

abbrev shut : SourceHealth
shut = poll same same none (at 0, failed_with (fetch gone))

abbrev four_rows : Snapshot
four_rows = record {
  outcome = none;
  etag = none;
  content_hash = none;
  raw_rows = some 4;
  valid_rows = some 4;
  eligible_rows = some 4;
  filtered_rows = none;
  withheld_rows = none;
}

abbrev sound : SourceHealth
sound = poll same same none (at 3600000, succeeded_with four_rows)

quarantine_stops_polls_example :
    is_provider_source_due
      (units "lever:acme")
      published
      none
      99000000
      (some (later same same shut (failures same same ((at 60000, fetch busy) ∷ []))))
    ≡ false
unfolding poll failed_source_health quarantines should_quarantine quarantines_by_category
    is_immediate is_denied source_failure_category
quarantine_stops_polls_example =
    quarantine_stops_polls same same shut ((at 60000, fetch busy) ∷ []) (units "lever:acme")
      published none 99000000 refl

failure_delays_poll_example :
    (61000 < (at 5000).completed_at + 60000
      → is_provider_source_due
          (units "lever:acme")
          published
          none
          61000
          (some (failed_source_health same same (at 5000) (fetch busy)))
        ≡ false)
    × ((at 5000).completed_at + 1800000 ≤ 61000
        → is_provider_source_due
            (units "lever:acme")
            published
            none
            61000
            (some (failed_source_health same same (at 5000) (fetch busy)))
          ≡ true)
unfolding quarantines should_quarantine quarantines_by_category is_immediate is_denied
    source_failure_category retryable
failure_delays_poll_example =
    failure_delays_poll same same (at 5000) busy (units "lever:acme") none 61000 refl refl refl

new_source_due_once_example :
    (i : ℕ) × (i < 6)
    × ((j now : ℕ)
        → j < 6
        → window_of now ≡ 7 + j
        → (is_provider_source_due (units "lever:acme") shadow none now none ≡ true) ↔ (j ≡ i))
new_source_due_once_example = new_source_due_once (units "lever:acme") 7
