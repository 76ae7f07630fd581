-- ===== src/Health/Examples.antt =====
-- The theorems on the health of sources, at polls of one source.
use intern_notifs.Base.{
  ℕ, ◌≡◌, refl, false, String, none, some, List, [], ◌∷◌, units, contains, contains_in_order, ◌+◌,
}
use intern_notifs.Health.Failure.{
  FetchError, should_quarantine, quarantines_by_category, is_denied, source_failure_category,
  message_category, Thrown, fetch, other, http, is_immediate,
}
use intern_notifs.Health.Record.{
  failed_source_health, quarantines, PollInput, Snapshot, SourceHealth, is_quarantined,
}
use intern_notifs.Health.History.{
  Ended, succeeded_with, failed_with, poll, history, IsSound, history-IsSound,
}
use intern_notifs.Health.Quarantine.{transient_never_quarantines}

abbrev same : List ℕ → List ℕ
same text = text

abbrev at : String → ℕ → PollInput
at run_id now = record {
  source_id = "greenhouse:acme";
  employer_id = some "acme";
  provider = some "greenhouse";
  region = none;
  previous = none;
  started_at = now;
  completed_at = now + 500;
  run_id = run_id;
}

abbrev three_rows : Snapshot
three_rows = record {
  outcome = none;
  etag = none;
  content_hash = some "h1";
  raw_rows = some 3;
  valid_rows = some 3;
  eligible_rows = some 2;
  filtered_rows = some 1;
  withheld_rows = none;
}

abbrev timed_out : Thrown
timed_out = other (units "socket hang up")

abbrev overloaded : Thrown
overloaded = fetch (record {
  message = units "busy";
  category = http;
  status = some 503;
  retry_after_ms = some 120000;
  immediate_quarantine = false;
})

abbrev bad_rows : Thrown
bad_rows = other (units "quality gate")

abbrev bad_shape : Thrown
bad_shape = other (units "unexpected shape")

abbrev polls : List (PollInput × Ended)
polls =
    (at "r2" 60000, failed_with timed_out)
    ∷ (at "r3" 120000, failed_with overloaded)
    ∷ (at "r4" 180000, failed_with overloaded)
    ∷ []

abbrev shut : SourceHealth
shut = poll same same none (at "r1" 0, failed_with bad_shape)

history-IsSound_example : IsSound (history same same (at "r1" 0, succeeded_with three_rows) polls)
history-IsSound_example = history-IsSound same same (at "r1" 0, succeeded_with three_rows) polls

transient_never_quarantines_example :
    is_quarantined (history same same (at "r1" 0, succeeded_with three_rows) polls).state ≡ false
unfolding poll failed_source_health quarantines should_quarantine quarantines_by_category
    is_immediate is_denied source_failure_category message_category units contains contains_in_order
transient_never_quarantines_example =
    transient_never_quarantines same same (at "r1" 0, succeeded_with three_rows) polls refl

abbrev busy : FetchError
busy = record {
  message = units "busy";
  category = http;
  status = some 503;
  retry_after_ms = none;
  immediate_quarantine = false;
}
