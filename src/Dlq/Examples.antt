-- ===== src/Dlq/Examples.antt =====
-- Two messages of one source, which are replayed by a plan.
use intern_notifs.Base.{
  ◌+◌, ◌≤◌, ◌≡◌, refl, String, true, false, none, some, List, [], ◌∷◌, Result, ok, err, is_some,
  units,
}
use intern_notifs.Base.Table.{lookup, put}
use intern_notifs.Base.Sets.{set_all, distinct, unique_by}
use intern_notifs.Base.Json.{Value, str, obj, cons, nil, prop, end, get}
use intern_notifs.Dlq.Plan.{greenhouse, replay, is_replay, PeekedMessage, Repair, DlqError}
use intern_notifs.Dlq.Message.{Texts, parse_body, parse_message}
use intern_notifs.Dlq.Apply.{
  ApplyInput, went_through, interrupted, Services, Snapshot, prepare, by_source, works, send_works,
  replay_phase, dispose_all, settle, purge_phase, commit, apply_dlq,
}
use intern_notifs.Dlq.Counts.{rows, times_sent}
use intern_notifs.Dlq.Once.{times_audited}
use intern_notifs.Dlq.Make.{PlanInput, rows_of, selection_checked, gate, plan_dlq}
use intern_notifs.Dlq.ExactlyOnce.{attempts, exactly_once}

abbrev plain_texts : Texts
plain_texts = record {
  parse_json = λ s. none;
  stringify = λ v. "body";
  sha = λ s. s;
  text_of = λ v. "";
  trim = λ s. s;
}

abbrev body_of_source : Value
body_of_source = obj (prop "sourceId" (str "acme") end)

abbrev message_of : String → PeekedMessage
message_of id = record { id = id; body = body_of_source; ref = id }

-- The queues, where all that is purged is gone, or where the second message stays.
abbrev queues : List String → Services
queues failed = record {
  now = 1000;
  peeked = message_of "m1" ∷ message_of "m2" ∷ [];
  source_health = λ id. none;
  send = λ message. went_through;
  purge = λ refs. some failed;
  has_recorded_failure = λ id. false;
}

abbrev both_messages : PlanInput
both_messages = record {
  queue = some greenhouse;
  action = some replay;
  message_ids = some (Value.arr (cons (str "m2") (cons (str "m1") nil)));
  given_reason = some (str "recovered");
  expected = some 2;
}

abbrev with_token : ApplyInput
with_token = record { repair_token = "token"; confirmed_count = 2; operator = none }

abbrev two_items : Repair
two_items = record {
  plan = record {
    plan_id = "plan";
    repair_token_hash = "token";
    queue_name = greenhouse;
    operation = replay;
    reason = "recovered";
    expected_count = 2;
    expires_at = 901000;
    applying_at = none;
    applied_at = none;
  };
  items =
      record {
        message_id = "m1";
        payload_hash = "body";
        message_body = "body";
        logical_key = "acme";
        source_id = some "acme";
        job_id = none;
        replayed_at = none;
        purged_at = none;
      }
      ∷ record {
        message_id = "m2";
        payload_hash = "body";
        message_body = "body";
        logical_key = "acme";
        source_id = some "acme";
        job_id = none;
        replayed_at = none;
        purged_at = none;
      }
      ∷ [];
  sent = [];
  unmarked = [];
  audit = [];
}

makes : plan_dlq plain_texts (queues []) both_messages "plan" "token" ≡ ok two_items
unfolding plan_dlq selection_checked gate rows_of parse_message parse_body lookup put set_all
    distinct unique_by get units
makes = refl

-- The database does not answer after a message was sent.
abbrev cut_off : Services
cut_off = record (queues []) { send = λ message. interrupted 0 }

-- The first attempt is cut off, the second cannot purge the second message, the third can.
abbrev three_times : List (ApplyInput × Services)
three_times =
    (with_token, cut_off) ∷ (with_token, queues ("m2" ∷ [])) ∷ (with_token, queues []) ∷ []

exactly_once_example :
    (times_sent "m2" (attempts plain_texts two_items three_times).sent
      ≤ 1 + times_sent "m2" (attempts plain_texts two_items three_times).unmarked)
    × (times_audited "m2" (attempts plain_texts two_items three_times).audit ≤ 1)
    × ((attempts plain_texts two_items three_times).plan.applying_at ≡ none)
    × (is_some (attempts plain_texts two_items three_times).plan.applied_at ≡ true
        → (times_audited "m2" (attempts plain_texts two_items three_times).audit
            ≡ rows "m2" two_items.items)
          × (is_replay (attempts plain_texts two_items three_times).plan.operation ≡ true
              → times_sent "m2" (attempts plain_texts two_items three_times).sent
                ≡ rows "m2" two_items.items
                  + times_sent "m2" (attempts plain_texts two_items three_times).unmarked))
exactly_once_example =
    exactly_once plain_texts (queues []) both_messages "plan" "token" two_items three_times "m2"
      makes

-- The plan is applied then.
is_applied : is_some (attempts plain_texts two_items three_times).plan.applied_at ≡ true
unfolding attempts apply_dlq prepare commit replay_phase works by_source send_works purge_phase
    settle dispose_all parse_message parse_body lookup put set_all get
is_applied = refl

-- An attempt that has read the items before another took the lock sends them again, if the other
-- could not purge them.
abbrev committed : Result DlqError Snapshot → Repair → Repair
committed (err e) r = r
committed (ok snapshot) r = (commit plain_texts (queues []) with_token snapshot r).0

replayed_twice :
    times_sent "m2"
      (committed
        (prepare plain_texts (queues []) with_token two_items)
        (apply_dlq plain_texts (queues ("m2" ∷ [])) with_token two_items).0).sent
    ≡ 2
unfolding apply_dlq prepare commit replay_phase works by_source send_works purge_phase settle
    dispose_all parse_message parse_body lookup put set_all get
replayed_twice = refl
