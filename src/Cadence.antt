-- ===== src/Cadence.antt =====
-- src/source-poll-cadence.ts: when a source is polled. An instant is a number of milliseconds since
-- the epoch; one that is missing, empty or unreadable is `none`. A source id is the list of its
-- UTF-16 code units.
use intern_notifs.Base.{
  ℕ, ◌+◌, ◌-◌, ◌*◌, ◌/◌, ◌%◌, Bool, true, false, ◌||◌, ◌&&◌, Option, none, some, List, [], ◌∷◌, ltb,
  leb, ◌==◌, or_else, is_some, if◌then◌else◌, fnv,
}
use intern_notifs.Health.Record.{SourceHealth, OperationalStatus, paused, is_quarantined, prev}
pub mod Due
pub mod Shadow
mod Examples

pub data SourceStatus : Type 0 where
  published shadow : SourceStatus

-- The one field of a checkpoint that the cadence reads.
pub record SourceCheckpoint : Type 0 where
  pub last_success : Option ℕ

abbrev pub published_interval_ms : ℕ
published_interval_ms = 1800000

abbrev pub shadow_interval_ms : ℕ
shadow_interval_ms = 10800000

-- `shadowIntervalMs / publishedIntervalMs`
abbrev pub shadow_windows : ℕ
shadow_windows = 6

-- `Math.floor(time / publishedIntervalMs)`
abbrev pub window_of : ℕ → ℕ
window_of time = time / published_interval_ms

abbrev is_high : ℕ → Bool
is_high unit = leb 55296 unit && leb unit 56319

abbrev is_low : ℕ → Bool
is_low unit = leb 56320 unit && leb unit 57343

-- `character.charCodeAt(0)` for each character of a text: a low surrogate that ends a pair is left
-- out. The flag says that the unit before was a high surrogate that may begin one.
pub leading_units : Bool → List ℕ → List ℕ
leading_units after_high [] = []
leading_units after_high (unit ∷ rest) =
    let after_low = leading_units false rest in
    let after_unit = leading_units (is_high unit) rest in
    if after_high && is_low unit then after_low else unit ∷ after_unit

unfoldable pub stable_source_bucket : List ℕ → ℕ → ℕ
unfolding leading_units fnv
stable_source_bucket source_id buckets = fnv 2166136261 (leading_units false source_id) % buckets

-- The last attempt, else the last success of the record, else that of the checkpoint.
unfoldable pub last_poll : Option SourceCheckpoint → Option SourceHealth → Option ℕ
last_poll checkpoint health =
    or_else (elim health [ none ↦ none | some h ↦ some h.last_attempt_at ])
      (or_else (prev health (λ h. h.last_success_at))
        (elim checkpoint [ none ↦ none | some c ↦ c.last_success ]))

unfoldable pub is_shadow_source_due :
    List ℕ → Option SourceCheckpoint → ℕ → Option SourceHealth → Bool
unfolding stable_source_bucket last_poll
is_shadow_source_due source_id checkpoint now health = elim (last_poll checkpoint health) [
  | some polled ↦ leb shadow_windows (window_of now - window_of polled)
  | none ↦
      is_some checkpoint
      || is_some health
      || (window_of now % shadow_windows) == stable_source_bucket source_id shadow_windows
]

abbrev pub is_paused : Option OperationalStatus → Bool
is_paused (some paused) = true
is_paused _ = false

-- Is the source to wait still?
abbrev pub waits : Option ℕ → ℕ → Bool
waits none now = false
waits (some until) now = ltb now until

unfoldable pub is_provider_source_due :
    List ℕ → SourceStatus → Option SourceCheckpoint → ℕ → Option SourceHealth → Bool
unfolding is_shadow_source_due
is_provider_source_due source_id status checkpoint now health =
    if is_paused (prev health (λ h. h.source_status)) || is_quarantined (prev health (λ h. h.state))
    then false
    else if waits (prev health (λ h. h.backoff_until)) now
    then false
    else elim status [
      | published ↦ true
      | shadow ↦ is_shadow_source_due source_id checkpoint now health
    ]
