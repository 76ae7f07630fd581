-- ===== src/Cadence/Shadow.antt =====
-- When shadow sources are polled.
use intern_notifs.Base.{
  ℕ, ◌+◌, ◌-◌, ◌%◌, ◌≤◌, ◌<◌, ◌≡◌, ◌↔◌, true, false, Option, none, some, List, arith, ==_iff, sym,
  ap, ◌∙◌,
}
use intern_notifs.Health.Record.{SourceHealth, is_quarantined}
use intern_notifs.Cadence.{
  shadow, SourceCheckpoint, window_of, stable_source_bucket, is_provider_source_due,
  is_shadow_source_due, last_poll, is_paused, waits,
}

slot : (n b : ℕ) → b < 6 → (i : ℕ) × (i < 6) × ((n + i) % 6 ≡ b)
slot n b p = ((b + 6 - n % 6) % 6, omega arith, omega arith)

same_slot : (n i j : ℕ) → i < 6 → j < 6 → (n + i) % 6 ≡ (n + j) % 6 → j ≡ i
same_slot n i j p q e = omega arith

-- Of any six windows that follow each other there is one in which a shadow source of which nothing
-- is known yet is due, at any time in it, and in the other five it is not.
pub new_source_due_once :
    (source_id : List ℕ) (n : ℕ)
    → (i : ℕ) × (i < 6)
      × ((j now : ℕ)
          → j < 6
          → window_of now ≡ n + j
          → (is_provider_source_due source_id shadow none now none ≡ true) ↔ (j ≡ i))
unfolding is_provider_source_due is_shadow_source_due last_poll stable_source_bucket
new_source_due_once source_id n =
    let s = slot n (stable_source_bucket source_id 6) (omega arith) in
    (
      s.0,
      s.1,
      λ j now q w. rw w (
          (
            λ e. same_slot n s.0 j s.1 q (s.2 ∙ sym ((==_iff _ _).0 e)),
            λ e. (==_iff _ _).1 (ap (λ k. (n + k) % 6) e ∙ s.2),
          )),
    )

-- A shadow source that has been polled, and neither is paused nor quarantined nor waits, is due
-- exactly from the sixth window after that of its last attempt on: within three hours of it and not
-- less than two and a half after it.
pub polled_source_due :
    (source_id : List ℕ) (checkpoint : Option SourceCheckpoint) (h : SourceHealth) (now : ℕ)
    → is_paused h.source_status ≡ false
    → is_quarantined h.state ≡ false
    → waits h.backoff_until now ≡ false
    → ((is_provider_source_due source_id shadow checkpoint now (some h) ≡ true)
        ↔ (window_of h.last_attempt_at + 6 ≤ window_of now))
      × (h.last_attempt_at + 10800000 ≤ now
          → is_provider_source_due source_id shadow checkpoint now (some h) ≡ true)
      × (is_provider_source_due source_id shadow checkpoint now (some h) ≡ true
          → h.last_attempt_at + 9000000 < now)
unfolding is_provider_source_due is_shadow_source_due last_poll
polled_source_due source_id checkpoint h now a b c = (ground arith, ground arith, ground arith)
