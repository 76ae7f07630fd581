-- ===== src/Health/Quarantine.antt =====
-- When a source is quarantined, and until when, over every sequence of polls.
use intern_notifs.Base.{
  ℕ, ◌+◌, ◌≡◌, refl, Bool, true, false, Option, none, some, List, [], ◌∷◌, arith, length, map, all,
  not, ◌&&◌,
}
use intern_notifs.Health.Failure.{
  http, transport, link, empty, quality, persistence, Thrown, source_failure_category,
  should_quarantine, is_immediate, is_denied, quarantines_by_category,
}
use intern_notifs.Health.Record.{
  quarantined, PollInput, Snapshot, SourceHealth, paused, prev, is_quarantined,
  successful_source_health, failed_source_health, quarantines,
}
use intern_notifs.Health.History.{Ended, succeeded_with, failed_with, poll, later, history}

module _ (safe lower : List ℕ → List ℕ) where
  abbrev pub failures : List (PollInput × Thrown) → List (PollInput × Ended)
  failures = map (λ f. (f.0, failed_with f.1))

  -- Failures in a row are counted one by one.
  pub failures_counted :
      (h : SourceHealth) (fs : List (PollInput × Thrown))
      → (later safe lower h (failures fs)).consecutive_failures ≡ h.consecutive_failures + length fs
  unfolding later poll failed_source_health
  failures_counted h [] = omega arith
  failures_counted h (f ∷ fs) =
      omega (arith, failures_counted (poll safe lower (some h) (f.0, failed_with f.1)) fs)

  -- A quarantine holds until a poll succeeds: over any failures that follow, the source stays
  -- quarantined and paused, since the same date and for the same reason.
  pub quarantine_holds :
      (h : SourceHealth) (fs : List (PollInput × Thrown)) {since : ℕ} {reason : List ℕ}
      → h.state ≡ some quarantined
      → h.quarantined_at ≡ some since
      → h.quarantine_reason ≡ some reason
      → h.source_status ≡ some paused
      → ((later safe lower h (failures fs)).state ≡ some quarantined)
        × ((later safe lower h (failures fs)).quarantined_at ≡ some since)
        × ((later safe lower h (failures fs)).quarantine_reason ≡ some reason)
        × ((later safe lower h (failures fs)).source_status ≡ some paused)
  unfolding later poll failed_source_health quarantines
  quarantine_holds h [] a b c d = (a, b, c, d)
  quarantine_holds h (f ∷ fs) a b c d =
      quarantine_holds (poll safe lower (some h) (f.0, failed_with f.1)) fs (ground arith)
        (ground arith) (ground arith) (ground arith)

  -- A failure that says nothing of the source's data: not one to quarantine for at once, and of a
  -- kind that another try may mend.
  abbrev pub is_transient : Thrown → Bool
  is_transient error = not (is_immediate error) && elim (source_failure_category safe lower error) [
    | transport ↦ true
    | persistence ↦ true
    | http ↦ not (is_denied error)
    | _ ↦ false
  ]

  abbrev pub is_harmless : PollInput × Ended → Bool
  is_harmless (input, succeeded_with snapshot) = true
  is_harmless (input, failed_with error) = is_transient error

  harmless_poll :
      (before : Option SourceHealth) (p : PollInput × Ended)
      → is_harmless p ≡ true
      → is_quarantined (prev before (λ h. h.state)) ≡ false
      → is_quarantined (poll safe lower before p).state ≡ false
  unfolding poll successful_source_health failed_source_health quarantines should_quarantine
      quarantines_by_category
  harmless_poll before (input, succeeded_with snapshot) k q = ground arith
  harmless_poll before (input, failed_with error) k q = ground arith

  harmless_later :
      (h : SourceHealth) (ps : List (PollInput × Ended))
      → all is_harmless ps ≡ true
      → is_quarantined h.state ≡ false
      → is_quarantined (later safe lower h ps).state ≡ false
  unfolding later
  harmless_later h [] k q = q
  harmless_later h (p ∷ ps) k q =
      harmless_later (poll safe lower (some h) p) ps (ground arith)
        (harmless_poll (some h) p (ground arith) q)

  -- A source whose every poll succeeded or failed in a passing way (no failure that asks for an
  -- immediate quarantine, and each one a transport, a persistence or an HTTP failure other than
  -- 401, 403 and 404) is never quarantined, however many of them there were.
  pub transient_never_quarantines :
      (p : PollInput × Ended) (ps : List (PollInput × Ended))
      → all is_harmless (p ∷ ps) ≡ true
      → is_quarantined (history safe lower p ps).state ≡ false
  unfolding history
  transient_never_quarantines p ps k =
      harmless_later (poll safe lower none p) ps (ground arith)
        (harmless_poll none p (ground arith) refl)

  -- A failure of the data itself, which another try may still mend.
  abbrev pub is_suspect : Thrown → Bool
  is_suspect error = elim (source_failure_category safe lower error) [
    | quality ↦ true
    | link ↦ true
    | empty ↦ true
    | _ ↦ false
  ]

  -- A second failure in a row quarantines the source if it is one of quality, of links or of an
  -- empty result, whatever the first was and the record before it; a success in between prevents
  -- that, unless the failure asks for it at once.
  pub second_failure_quarantines :
      (before : Option SourceHealth) (first second : PollInput) (again : PollInput) (e f : Thrown)
      (snapshot : Snapshot)
      → is_suspect f ≡ true
      → (is_quarantined
            (later safe lower
              (poll safe lower before (first, failed_with e))
              ((second, failed_with f) ∷ [])).state
          ≡ true)
        × (is_quarantined
              (later safe lower
                (poll safe lower before (first, failed_with e))
                ((again, succeeded_with snapshot) ∷ (second, failed_with f) ∷ [])).state
            ≡ is_immediate f)
  unfolding later poll successful_source_health failed_source_health quarantines should_quarantine
      quarantines_by_category
  second_failure_quarantines before first second again e f snapshot k = (ground arith, ground arith)
