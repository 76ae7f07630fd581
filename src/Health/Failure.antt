-- ===== src/Health/Failure.antt =====
-- src/source-health.ts, src/sources/source-error.ts: what a failed poll is taken for. A message is
-- the list of its UTF-16 code units. `safe` is `safeDiagnostic` on a message and `lower` is
-- `toLowerCase`; what is proved holds whatever these two do to a text.
use intern_notifs.Base.{
  ℕ, ◌+◌, ◌-◌, ◌*◌, ◌^◌, Bool, true, false, ◌||◌, Option, none, some, List, min, max, leb, ◌==◌,
  get_or, units, if◌then◌else◌, contains, contains_in_order, ascii_lower, map,
}

pub data FailureCategory : Type 0 where
  http json transport identity link empty quality persistence : FailureCategory

pub data SourceOutcome : Type 0 where
  changed unchanged failed success_changed success_unchanged_304 success_unchanged_hash :
      SourceOutcome
  temporary_provider_error rate_limited invalid_configuration not_found : SourceOutcome
  invalid_schema incomplete_pagination unexpected_raw_zero application_host_mismatch : SourceOutcome
  catalog_write_failed : SourceOutcome

pub record FetchError : Type 0 where
  pub message : List ℕ
  pub category : FailureCategory
  pub status : Option ℕ
  pub retry_after_ms : Option ℕ
  pub immediate_quarantine : Bool

pub record LinkSample : Type 0 where
  pub category : FailureCategory
  pub diagnostic : List ℕ

-- What a poll throws: a `SourceFetchError`, an `ApplicationLinkValidationError` with its samples, or
-- anything else, which counts by its message.
pub data Thrown : Type 0 where
  fetch : FetchError → Thrown
  links : List ℕ → List LinkSample → Thrown
  other : List ℕ → Thrown

abbrev pub message_of : Thrown → List ℕ
message_of (fetch e) = e.message
message_of (links message samples) = message
message_of (other message) = message

-- `get retryable`
unfoldable pub retryable : FetchError → Bool
retryable e = elim e.category [
  | transport ↦ true
  | http ↦ elim e.status [ none ↦ false | some s ↦ s == 429 || leb 500 s ]
  | _ ↦ false
]

abbrev pub quality_failures_before_quarantine : ℕ
quality_failures_before_quarantine = 2

abbrev pub max_provider_backoff_ms : ℕ
max_provider_backoff_ms = 30 * 60000

-- `[401, 403, 404].includes(error.status ?? 0)`
unfoldable pub is_denied : Thrown → Bool
is_denied (fetch e) = let s = get_or e.status 0 in s == 401 || s == 403 || s == 404
is_denied _ = false

unfoldable pub is_immediate : Thrown → Bool
is_immediate (fetch e) = e.immediate_quarantine
is_immediate _ = false

-- The last line of `shouldQuarantine`, and the lines on the category above it.
unfoldable pub quarantines_by_category : FailureCategory → Thrown → ℕ → Bool
unfolding is_denied
quarantines_by_category json error failures = true
quarantines_by_category identity error failures = true
quarantines_by_category http error failures = is_denied error
quarantines_by_category quality error failures = leb quality_failures_before_quarantine failures
quarantines_by_category link error failures = leb quality_failures_before_quarantine failures
quarantines_by_category empty error failures = leb quality_failures_before_quarantine failures
quarantines_by_category _ error failures = false

unfoldable pub should_quarantine : FailureCategory → Thrown → ℕ → Bool
unfolding quarantines_by_category is_immediate
should_quarantine category error failures =
    is_immediate error || quarantines_by_category category error failures

unfoldable pub status_outcome : Option ℕ → SourceOutcome → SourceOutcome
status_outcome none outcome = outcome
status_outcome (some s) outcome =
    if s == 429
    then rate_limited
    else if s == 404
    then not_found
    else if leb 500 s
    then temporary_provider_error
    else outcome

module _ (safe lower : List ℕ → List ℕ) where
  -- The tests on the message, in their order.
  unfoldable pub message_category : List ℕ → FailureCategory
  message_category m =
      if contains m (units "application link")
        || contains m (units "application host")
        || contains_in_order m (units "eligible ") (units " link")
      then link
      else if contains m (units "shape")
          || contains m (units "schema")
          || contains m (units "malformed json")
      then json
      else if contains m (units "quality") || contains m (units "suspicious zero-row")
      then quality
      else if contains m (units "timeout")
          || contains m (units "timed out")
          || contains m (units "aborted")
          || contains m (units "fetch")
          || contains m (units "network")
          || contains m (units "socket")
          || contains m (units "econn")
      then transport
      else persistence

  unfoldable pub source_failure_category : Thrown → FailureCategory
  source_failure_category (fetch e) = e.category
  source_failure_category (links message samples) = message_category (lower (safe message))
  source_failure_category (other message) = message_category (lower (safe message))

  -- The part of `sourceFailureOutcome` that goes by the category.
  unfoldable pub category_outcome : FailureCategory → List ℕ → SourceOutcome
  category_outcome transport m = temporary_provider_error
  category_outcome http m = temporary_provider_error
  category_outcome json m =
      if contains (map ascii_lower (safe m)) (units "pagination")
      then incomplete_pagination
      else invalid_schema
  category_outcome identity m = application_host_mismatch
  category_outcome empty m = unexpected_raw_zero
  category_outcome quality m = unexpected_raw_zero
  category_outcome persistence m = catalog_write_failed
  category_outcome link m = failed

  unfoldable pub source_failure_outcome : Thrown → SourceOutcome
  unfolding source_failure_category category_outcome status_outcome
  source_failure_outcome (fetch e) = status_outcome e.status (category_outcome e.category e.message)
  source_failure_outcome (links m samples) =
      category_outcome (source_failure_category (links m samples)) m
  source_failure_outcome (other m) = category_outcome (source_failure_category (other m)) m

-- The wait in milliseconds: it doubles with each failure up to half an hour, is at least what the
-- provider asked for, and at most half an hour.
unfoldable pub backoff_ms : Option ℕ → ℕ → ℕ
backoff_ms retry_after failures =
    min max_provider_backoff_ms
      (max (get_or retry_after 0) (min (30 * 60000) (60000 * 2 ^ (failures - 1))))

unfoldable pub source_backoff_until : Thrown → ℕ → ℕ → Option ℕ
unfolding retryable backoff_ms
source_backoff_until (fetch e) failures completed_at =
    if retryable e then some (completed_at + backoff_ms e.retry_after_ms failures) else none
source_backoff_until _ failures completed_at = none
