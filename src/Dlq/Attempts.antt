-- ===== src/Dlq/Attempts.antt =====
-- What one attempt makes of a plan.
use intern_notifs.Base.{
  ℕ, ◌≤◌, ◌≡◌, refl, sym, ap, ◌∙◌, String, true, false, ◌||◌, Option, none, some, List, [], ◌∷◌,
  keep, arith, is_some, if_splits, Option_splits, Result, err, ok,
}
use mathlib.Core.Bool.{true≢false}
use intern_notifs.Dlq.Plan.{is_replay, ItemRow, Repair, DlqError}
use intern_notifs.Dlq.Message.{Texts}
use intern_notifs.Dlq.Apply.{
  ApplyInput, Services, Snapshot, Applied, is_pending, ids_of, replay_phase, works, dispose_all,
  released, settle, purge_phase, after_replay, after_prepare, commit, prepare, apply_dlq,
  was_purged, failed_refs,
}
use intern_notifs.Dlq.Counts.{
  count, rows, open_count, pending_count, times_sent, keep-le, works-count,
}
use intern_notifs.Dlq.Once.{
  times_audited, IsSent, IsAudited, send_works-SendsSafely, dispose_all-rows, dispose_all-open,
  dispose_all-sent, dispose_all-unmarked, dispose_all-plan, dispose_all-IsAudited, dispose_all-all,
}

-- Each item is counted: it was sent or is open, and it was disposed of or is pending.
abbrev Counted : ℕ → String → Repair → Type 0
Counted n id r = (rows id r.items ≡ n) × (n ≤ 1) × IsSent id r × IsAudited id r

-- Nothing of a plan that is applied is left.
abbrev Finished : String → Repair → Type 0
Finished id r =
    is_some r.plan.applied_at ≡ true
    → (pending_count id r.items ≡ 0)
      × (is_replay r.plan.operation ≡ true → open_count id r.items ≡ 0)

abbrev pub IsSound : ℕ → String → Repair → Type 0
IsSound n id r = Counted n id r × Finished id r × (r.plan.applying_at ≡ none)

-- A plan as it is made: nothing is sent or disposed of, and no id stands in it twice.
abbrev pub IsNew : Repair → Type 0
IsNew r =
    (r.plan.applying_at ≡ none)
    × (r.plan.applied_at ≡ none)
    × (r.sent ≡ [])
    × (r.unmarked ≡ [])
    × (r.audit ≡ [])
    × ((id : String)
        → (rows id r.items ≤ 1)
          × (open_count id r.items ≡ rows id r.items)
          × (pending_count id r.items ≡ rows id r.items))

released-IsSound :
    (n : ℕ) (id : String) (r : Repair)
    → r.plan.applied_at ≡ none
    → Counted n id r
    → IsSound n id (released r)
released-IsSound n id r none_applied counted =
    if_splits (IsSound n id) (is_some r.plan.applied_at) _ _
      (λ h. elim (true≢false (sym h ∙ ap is_some none_applied)) [ ])
      (λ h. (counted, (λ k. elim (true≢false (sym k ∙ h)) [ ]), refl))

keep_nothing_failed :
    (id : String) (snapshot : Snapshot) (texts : Texts) (services : Services) (items : List ItemRow)
    → rows id (keep (was_purged texts services snapshot []) items) ≡ rows id items
keep_nothing_failed id snapshot texts services [] = refl
keep_nothing_failed id snapshot texts services (i ∷ rest) =
    ground (arith, keep_nothing_failed id snapshot texts services rest)

module _ (texts : Texts) (services : Services) (input : ApplyInput) where
  disposed-Counted :
      (n : ℕ) (id : String) (r : Repair) (purged : List ItemRow)
      → Counted n id r
      → count id (ids_of purged) ≤ pending_count id r.items
      → Counted n id (dispose_all texts services input r purged)
  disposed-Counted n id r purged counted few =
      let same_rows = dispose_all-rows texts services input id r purged in
      (
        same_rows ∙ counted.0,
        counted.1,
        omega (
          arith,
          counted.2,
          same_rows,
          dispose_all-open texts services input id r purged,
          ap (times_sent id) (dispose_all-sent texts services input r purged),
          ap (times_sent id) (dispose_all-unmarked texts services input r purged),
        ),
        dispose_all-IsAudited texts services input id r purged (omega (arith, counted.0, counted.1))
            counted.3 few,
      )

  settle-IsSound :
      (n : ℕ) (id : String) (snapshot : Snapshot) (r : Repair) (failed : List String)
      → r.plan.applied_at ≡ none
      → Counted n id r
      → (is_replay r.plan.operation ≡ true → open_count id r.items ≡ 0)
      → pending_count id snapshot.read_items ≡ pending_count id r.items
      → IsSound n id (settle texts services input snapshot r failed).0
  unfolding settle
  settle-IsSound n id snapshot r [] free counted none_open same =
      let pending = keep is_pending snapshot.read_items in
      let purged = keep (was_purged texts services snapshot []) pending in
      let all = keep_nothing_failed id snapshot texts services pending ∙ same in
      let plan = dispose_all-plan texts services input r purged in
      (
        disposed-Counted n id r purged counted (omega (arith, all)),
        (λ _. (
          dispose_all-all texts services input id r purged all,
          λ h.
              dispose_all-open texts services input id r purged
              ∙ none_open (ap (λ p. is_replay p.operation) (sym plan) ∙ h),
        )),
        refl,
      )
  settle-IsSound n id snapshot r (f ∷ more) free counted none_open same =
      let pending = keep is_pending snapshot.read_items in
      let purged = keep (was_purged texts services snapshot (f ∷ more)) pending in
      released-IsSound n id (dispose_all texts services input r purged)
        (ap (λ p. p.applied_at) (dispose_all-plan texts services input r purged) ∙ free)
        (disposed-Counted n id r purged counted
          (omega (arith, same, keep-le id (was_purged texts services snapshot (f ∷ more)) pending)))

  purge_phase-IsSound :
      (n : ℕ) (id : String) (snapshot : Snapshot) (r : Repair)
      → r.plan.applied_at ≡ none
      → Counted n id r
      → (is_replay r.plan.operation ≡ true → open_count id r.items ≡ 0)
      → pending_count id snapshot.read_items ≡ pending_count id r.items
      → IsSound n id (purge_phase texts services input snapshot r).0
  unfolding purge_phase
  purge_phase-IsSound n id snapshot r free counted none_open same =
      Option_splits (λ (out : Repair × Result DlqError Applied). IsSound n id out.0)
        (failed_refs texts services snapshot (keep is_pending snapshot.read_items)) _ _
        (λ failed _. settle-IsSound n id snapshot r failed free counted none_open same)
        (λ _. released-IsSound n id r free counted)

  -- What the phase of replays leaves, for the phase of purges.
  abbrev Replayed : ℕ → String → Snapshot → Repair × Option DlqError → Type 0
  Replayed n id snapshot out =
      (out.0.plan.applied_at ≡ none)
      × Counted n id out.0
      × (is_some out.1 ≡ false
          → is_replay out.0.plan.operation ≡ true
          → open_count id out.0.items ≡ 0)
      × (pending_count id snapshot.read_items ≡ pending_count id out.0.items)

  after_replay-IsSound :
      (n : ℕ) (id : String) (snapshot : Snapshot) (out : Repair × Option DlqError)
      → Replayed n id snapshot out
      → IsSound n id (after_replay texts services input snapshot out).0
  after_replay-IsSound n id snapshot (r, some e) h = released-IsSound n id r h.0 h.1
  after_replay-IsSound n id snapshot (r, none) h =
      purge_phase-IsSound n id snapshot r h.0 h.1 (h.2 refl) h.3

  replay_phase-Replayed :
      (n : ℕ) (id : String) (snapshot : Snapshot) (r : Repair)
      → r.plan.applied_at ≡ none
      → Counted n id r
      → snapshot.read_items ≡ r.items
      → Replayed n id snapshot (replay_phase texts services snapshot r)
  unfolding replay_phase
  replay_phase-Replayed n id snapshot r free counted same =
      let todo = works texts services r.plan.queue_name snapshot.read_items in
      let work =
        works-count texts services id r.plan.queue_name snapshot.read_items
        ∙ ap (open_count id) same in
      let done =
        send_works-SendsSafely texts services id r todo (omega (arith, counted.0, counted.1))
          counted.2 (omega (arith, counted.2, work)) in
      if_splits (Replayed n id snapshot) (is_replay r.plan.operation) _ _
        (λ _. (
          ap (λ p. p.applied_at) done.4 ∙ free,
          (
            done.0 ∙ counted.0,
            counted.1,
            done.1,
            omega (arith, counted.3, done.0, done.3, ap (times_audited id) done.2),
          ),
          (λ h _. done.5 h),
          ap (pending_count id) same ∙ sym done.3,
        ))
        (λ no.
          (free, counted, (λ _ h. elim (true≢false (sym h ∙ no)) [ ]), ap (pending_count id) same))

  commit-IsSound :
      (n : ℕ) (id : String) (snapshot : Snapshot) (r : Repair)
      → IsSound n id r
      → snapshot.read_items ≡ r.items
      → IsSound n id (commit texts services input snapshot r).0
  unfolding commit
  commit-IsSound n id snapshot r sound same =
      if_splits (λ (out : Repair × Result DlqError Applied). IsSound n id out.0)
        (is_some r.plan.applying_at || is_some r.plan.applied_at) _ _ (λ _. sound)
        (λ free.
          after_replay-IsSound n id snapshot _
            (replay_phase-Replayed n id snapshot _ (ground arith) sound.0 same))

  -- What was read is what the plan holds.
  prepare-reads :
      (r : Repair) (snapshot : Snapshot)
      → prepare texts services input r ≡ ok snapshot
      → snapshot.read_items ≡ r.items
  unfolding prepare
  prepare-reads r snapshot read = ground arith

  after_prepare-IsSound :
      (n : ℕ) (id : String) (r : Repair) (found : Result DlqError Snapshot)
      → IsSound n id r
      → ((snapshot : Snapshot) → found ≡ ok snapshot → snapshot.read_items ≡ r.items)
      → IsSound n id (after_prepare texts services input r found).0
  after_prepare-IsSound n id r (err e) sound reads = sound
  after_prepare-IsSound n id r (ok snapshot) sound reads =
      commit-IsSound n id snapshot r sound (reads snapshot refl)

  pub apply_dlq-IsSound :
      (n : ℕ) (id : String) (r : Repair)
      → IsSound n id r
      → IsSound n id (apply_dlq texts services input r).0
  unfolding apply_dlq
  apply_dlq-IsSound n id r sound =
      after_prepare-IsSound n id r (prepare texts services input r) sound (prepare-reads r)
