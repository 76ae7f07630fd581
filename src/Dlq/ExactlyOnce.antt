-- ===== src/Dlq/ExactlyOnce.antt =====
-- What any sequence of attempts makes of a plan.
use intern_notifs.Base.{
  ℕ, ◌≤◌, ◌≡◌, ◌+◌, refl, sym, ap, ◌∙◌, String, true, none, List, [], ◌∷◌, arith, is_some, ok,
}
use mathlib.Core.Bool.{true≢false}
use intern_notifs.Dlq.Plan.{is_replay, Repair}
use intern_notifs.Dlq.Message.{Texts}
use intern_notifs.Dlq.Apply.{ApplyInput, Services, apply_dlq}
use intern_notifs.Dlq.Counts.{rows, times_sent}
use intern_notifs.Dlq.Once.{times_audited}
use intern_notifs.Dlq.Make.{PlanInput, plan_dlq}
use intern_notifs.Dlq.New.{plan_dlq-IsNew}
use intern_notifs.Dlq.Attempts.{IsNew, IsSound, apply_dlq-IsSound}

-- The attempts one after another, each with what it is given and what the queues answer.
unfoldable pub attempts : Texts → Repair → List (ApplyInput × Services) → Repair
attempts texts r [] = r
attempts texts r ((input, services) ∷ rest) =
    attempts texts (apply_dlq texts services input r).0 rest

attempts-IsSound :
    (texts : Texts) (n : ℕ) (id : String) (r : Repair) (done : List (ApplyInput × Services))
    → IsSound n id r
    → IsSound n id (attempts texts r done)
unfolding attempts
attempts-IsSound texts n id r [] sound = sound
attempts-IsSound texts n id r ((input, services) ∷ rest) sound =
    attempts-IsSound texts n id (apply_dlq texts services input r).0 rest
      (apply_dlq-IsSound texts services input n id r sound)

IsNew-IsSound : (id : String) (r : Repair) → IsNew r → IsSound (rows id r.items) id r
IsNew-IsSound id r new =
    let counts = new.5 id in
    (
      (
        refl,
        counts.0,
        omega (arith, counts.1, ap (times_sent id) new.2, ap (times_sent id) new.3),
        omega (arith, counts.2, ap (times_audited id) new.4),
      ),
      (λ h. elim (true≢false (sym h ∙ ap is_some new.1)) [ ]),
      new.0,
    )

-- Whatever attempts are made at a plan that was made, one after another, the plan is not left locked,
-- no item is disposed of twice, and an item is replayed once more at most than there were sends that a
-- queue had taken and that were cut short before the item was marked. Once the plan is applied, each
-- of its items was disposed of exactly once and, if they are to be replayed, replayed exactly once,
-- and once more for each such send. What may fail is a send, before or after the queue took the
-- message, the marks after a send, and a purge.
pub exactly_once :
    (texts : Texts) (services : Services) (input : PlanInput) (plan_id repair_token : String)
    (r : Repair) (done : List (ApplyInput × Services)) (id : String)
    → plan_dlq texts services input plan_id repair_token ≡ ok r
    → (times_sent id (attempts texts r done).sent
        ≤ 1 + times_sent id (attempts texts r done).unmarked)
      × (times_audited id (attempts texts r done).audit ≤ 1)
      × ((attempts texts r done).plan.applying_at ≡ none)
      × (is_some (attempts texts r done).plan.applied_at ≡ true
          → (times_audited id (attempts texts r done).audit ≡ rows id r.items)
            × (is_replay (attempts texts r done).plan.operation ≡ true
                → times_sent id (attempts texts r done).sent
                  ≡ rows id r.items + times_sent id (attempts texts r done).unmarked))
exactly_once texts services input plan_id repair_token r done id made =
    let after = attempts texts r done in
    let new = plan_dlq-IsNew texts services input plan_id repair_token r made in
    let sound = attempts-IsSound texts (rows id r.items) id r done (IsNew-IsSound id r new) in
    let counted = sound.0 in
    (
      omega (arith, counted.0, counted.1, counted.2),
      omega (arith, counted.0, counted.1, counted.3),
      sound.2,
      (λ h. (
        omega (arith, counted.0, counted.3, (sound.1 h).0),
        λ k. omega (arith, counted.0, counted.2, (sound.1 h).1 k),
      )),
    )
