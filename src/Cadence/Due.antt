-- ===== src/Cadence/Due.antt =====
-- What the health of a source means for its polls.
use intern_notifs.Base.{
  ℕ, ◌+◌, ◌≤◌, ◌<◌, ◌≡◌, Bool, true, false, ◌||◌, Option, some, List, [], ◌∷◌, arith, suc,
}
use intern_notifs.Health.Failure.{
  FetchError, Thrown, fetch, retryable, backoff_ms, source_backoff_until,
}
use intern_notifs.Health.Record.{
  SourceHealth, PollInput, prev, is_quarantined, quarantines, failed_source_health, failures_before,
}
use intern_notifs.Health.History.{failed_with, poll, later}
use intern_notifs.Health.Quarantine.{failures}
use intern_notifs.Health.Backoff.{backoff_bounds}
use intern_notifs.Cadence.{
  SourceStatus, published, SourceCheckpoint, is_paused, is_provider_source_due,
}

wait_bounds :
    (asked : Option ℕ) (n : ℕ)
    → (60000 ≤ backoff_ms asked (n + 1)) × (backoff_ms asked (n + 1) ≤ 1800000)
wait_bounds asked n =
    let b = backoff_bounds asked n in let e : n + 1 ≡ suc n = omega arith in (rw e b.0, rw e b.2)

module _ (safe lower : List ℕ → List ℕ) where
  abbrev pub is_held : SourceHealth → Bool
  is_held h = is_quarantined h.state || is_paused h.source_status

  held_after_failure :
      (h : SourceHealth) (input : PollInput) (error : Thrown)
      → is_held h ≡ true
      → is_held (poll safe lower (some h) (input, failed_with error)) ≡ true
  unfolding poll failed_source_health quarantines
  held_after_failure h input error k = ground arith

  held_after_failures :
      (h : SourceHealth) (fs : List (PollInput × Thrown))
      → is_held h ≡ true
      → is_held (later safe lower h (failures safe lower fs)) ≡ true
  unfolding later
  held_after_failures h [] k = k
  held_after_failures h ((input, error) ∷ fs) k =
      held_after_failures (poll safe lower (some h) (input, failed_with error)) fs
        (held_after_failure h input error k)

  -- A source that is quarantined, or paused without being quarantined, is not polled, and stays so
  -- whatever failures are still reported, at any time and published or not.
  pub quarantine_stops_polls :
      (h : SourceHealth) (fs : List (PollInput × Thrown)) (source_id : List ℕ)
      (status : SourceStatus) (checkpoint : Option SourceCheckpoint) (now : ℕ)
      → is_quarantined h.state || is_paused h.source_status ≡ true
      → is_provider_source_due source_id status checkpoint now
          (some (later safe lower h (failures safe lower fs)))
        ≡ false
  unfolding is_provider_source_due
  quarantine_stops_polls h fs source_id status checkpoint now k =
      ground (arith, held_after_failures h fs k)

  -- A published source that is not paused, and that a failure which may be tried again does not
  -- quarantine, is not polled for a minute after it, and is polled from half an hour on.
  pub failure_delays_poll :
      (input : PollInput) (e : FetchError) (source_id : List ℕ)
      (checkpoint : Option SourceCheckpoint) (now : ℕ)
      → retryable e ≡ true
      → quarantines safe lower input (fetch e) ≡ false
      → is_paused (prev input.previous (λ h. h.source_status)) ≡ false
      → (now < input.completed_at + 60000
          → is_provider_source_due source_id published checkpoint now
              (some (failed_source_health safe lower input (fetch e)))
            ≡ false)
        × (input.completed_at + 1800000 ≤ now
            → is_provider_source_due source_id published checkpoint now
                (some (failed_source_health safe lower input (fetch e)))
              ≡ true)
  unfolding is_provider_source_due failed_source_health source_backoff_until backoff_ms
  failure_delays_poll input e source_id checkpoint now r q p =
      let b = wait_bounds e.retry_after_ms (failures_before input.previous) in
      rw (r, q) (ground (arith, b, p), ground (arith, b, p))
