-- ===== src/Health/Outcome.antt =====
-- What a failed poll is reported as.
use intern_notifs.Base.{ℕ, ◌≡◌, ◌≢◌, ◌↔◌, ◌⊎◌, none, some, List, arith}
use intern_notifs.Health.Failure.{
  FetchError, fetch, rate_limited, not_found, temporary_provider_error, source_failure_outcome,
  category_outcome, status_outcome, retryable, source_backoff_until,
}

module _ (safe lower : List ℕ → List ℕ) where
  -- A fetch failure is reported as a rate limit exactly if its status is 429, and as not found
  -- exactly if it is 404. If the source is made to wait for it, and it was no 404, then it is
  -- reported as a rate limit or as a temporary error of the provider.
  pub fetch_outcome :
      (e : FetchError) (failures now : ℕ)
      → ((source_failure_outcome safe lower (fetch e) ≡ rate_limited) ↔ (e.status ≡ some 429))
        × ((source_failure_outcome safe lower (fetch e) ≡ not_found) ↔ (e.status ≡ some 404))
        × ((source_backoff_until (fetch e) failures now ≢ none)
            → e.status ≢ some 404
            → (source_failure_outcome safe lower (fetch e) ≡ rate_limited)
              ⊎ (source_failure_outcome safe lower (fetch e) ≡ temporary_provider_error))
  unfolding source_failure_outcome category_outcome status_outcome retryable source_backoff_until
  fetch_outcome e failures now = (ground arith, ground arith, ground arith)
