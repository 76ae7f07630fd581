-- ===== src/Dlq/Apply.antt =====
-- cloudflare/dlq-operations.ts: `applyDlq` on one plan. It reads the plan and its items, checks them
-- against what the queue shows, and then takes the lock of the plan; the two parts are `prepare` and
-- `commit`, since other attempts may come between them. `Services` gives what the queues answer, and
-- where the marks that follow a send break off. The other writes to the database succeed.
use intern_notifs.Base.{
  ℕ, String, Bool, true, false, ◌||◌, not, Option, none, some, List, [], ◌∷◌, ◌++◌, map, take, drop,
  keep, any, length, get_or, is_some, leb, ◌==◌, str_eq, if◌then◌else◌, Result, err, ok, ◌>>=◌,
  checked,
}
use intern_notifs.Base.Json.{str, end}
use intern_notifs.Base.Table.{lookup, put}
use intern_notifs.Base.Sets.{set_all}
use intern_notifs.Health.Record.{SourceHealth, paused}
use intern_notifs.Health.Record.{quarantined}
use intern_notifs.Dlq.Plan.{
  DlqName, is_catalog_dlq, is_github, replay, discard, is_replay, PlanRow, ItemRow, Classification,
  discarded, replayed, recorded_failure_replayed, historical_transient, Sent, fresh_poll, same_body,
  Repair, PeekedMessage, DlqError, plan_invalid, already_applied, already_applying, has_expired,
  count_differs, item_count_drifted, selection_drift, source_blocked, send_failed, purge_failed,
  not_all_purged,
}
use intern_notifs.Dlq.Message.{Texts, parse_body, parse_message, discardable_message}

pub record ApplyInput : Type 0 where
  pub repair_token : String
  pub confirmed_count : ℕ
  pub operator : Option String

-- How a send and the marks after it end: the queue did not take the message; it did and all the items
-- of the message are marked as replayed; or it did, but then something was thrown, by `send` itself or
-- by an update of an item, when so many of the items were marked.
pub data SendOutcome : Type 0 where
  not_taken went_through : SendOutcome
  interrupted : ℕ → SendOutcome

pub record Services : Type 0 where
  pub now : ℕ
  pub peeked : List PeekedMessage
  pub source_health : String → Option SourceHealth
  pub send : Sent → SendOutcome
  -- The refs that could not be purged, or `none` where the call throws.
  pub purge : List String → Option (List String)
  pub has_recorded_failure : String → Bool

-- What an attempt has read before it takes the lock.
pub record Snapshot : Type 0 where
  pub read_items : List ItemRow
  pub visible : List (String × PeekedMessage)

pub record Applied : Type 0 where
  pub applied_count : ℕ
  pub applied_when : ℕ

-- The work to be sent: a message, the ids of its items, and why it must not be sent, if so.
pub record Work : Type 0 where
  pub message : Sent
  pub ids : List String
  pub refused : Option DlqError

abbrev pub is_open : ItemRow → Bool
is_open i = not (is_some i.replayed_at)

abbrev pub is_pending : ItemRow → Bool
is_pending i = not (is_some i.purged_at)

abbrev pub ids_of : List ItemRow → List String
ids_of items = map (λ i. i.message_id) items

-- `UPDATE dlq_repair_plan_items SET replayed_at = ? WHERE message_id = ?`
abbrev pub set_replayed : ℕ → String → List ItemRow → List ItemRow
set_replayed now id items =
    map (λ i. if str_eq i.message_id id then record i { replayed_at = some now } else i) items

abbrev pub set_purged : ℕ → String → List ItemRow → List ItemRow
set_purged now id items =
    map (λ i. if str_eq i.message_id id then record i { purged_at = some now } else i) items

abbrev pub all_replayed : ℕ → List String → List ItemRow → List ItemRow
all_replayed now [] items = items
all_replayed now (id ∷ rest) items = all_replayed now rest (set_replayed now id items)

abbrev pub is_blocked : Option SourceHealth → Bool
is_blocked none = false
is_blocked (some h) =
    elim h.state [ some quarantined ↦ true | _ ↦ false ]
    || elim h.source_status [ some paused ↦ true | _ ↦ false ]

-- The lock is given back unless the plan is applied.
abbrev pub released : Repair → Repair
released r =
    if is_some r.plan.applied_at
    then r
    else record r { plan = record r.plan { applying_at = none } }

module _ (texts : Texts) (services : Services) where
  abbrev current_hash : PlanRow → PeekedMessage → Result DlqError String
  current_hash plan m = elim plan.operation [
    | discard ↦ ok (discardable_message texts plan.queue_name m).parsed_hash
    | replay ↦ do parsed ← parse_message texts plan.queue_name m.body; ok parsed.parsed_hash
  ]

  abbrev check_item : PlanRow → Option PeekedMessage → ItemRow → Result DlqError Bool
  check_item plan none item = err selection_drift
  check_item plan (some m) item = do
    hash ← current_hash plan m
    checked (str_eq hash item.payload_hash) selection_drift

  abbrev check_items : PlanRow → List (String × PeekedMessage) → List ItemRow → Result DlqError Bool
  check_items plan visible [] = ok true
  check_items plan visible (item ∷ rest) = do
    same ← check_item plan (lookup visible item.message_id) item
    check_items plan visible rest

  unfoldable pub prepare : ApplyInput → Repair → Result DlqError Snapshot
  prepare input r = do
    known ← checked (str_eq r.plan.repair_token_hash (texts.sha input.repair_token)) plan_invalid
    fresh ← checked (not (is_some r.plan.applied_at)) already_applied
    free ← checked (not (is_some r.plan.applying_at)) already_applying
    valid ← checked (not (leb r.plan.expires_at services.now)) has_expired
    expected ← checked (input.confirmed_count == r.plan.expected_count) count_differs
    whole ← checked (length r.items == r.plan.expected_count) item_count_drifted
    same ← check_items r.plan (set_all (λ m. m.id) [] services.peeked) (keep is_pending r.items)
    ok (record { read_items = r.items; visible = set_all (λ m. m.id) [] services.peeked })

  -- One message for each source of a catalog queue.
  abbrev pub with_item : List (String × List String) → ItemRow → List (String × List String)
  with_item table i =
      let source = get_or i.source_id "null" in
      put table source (get_or (lookup table source) [] ++ i.message_id ∷ [])

  unfoldable pub by_source :
      List (String × List String) → List ItemRow → List (String × List String)
  by_source table [] = table
  by_source table (i ∷ rest) = by_source (with_item table i) rest

  abbrev pub catalog_work : String × List String → Work
  catalog_work group = record {
    message = fresh_poll group.0 services.now;
    ids = group.1;
    refused = if is_blocked (services.source_health group.0) then some source_blocked else none;
  }

  abbrev pub single_work : ItemRow → Work
  single_work i = elim (parse_body texts (str i.message_body)) [
    | ok o ↦ record { message = same_body o; ids = i.message_id ∷ []; refused = none }
    | err e ↦ record { message = same_body end; ids = i.message_id ∷ []; refused = some e }
  ]

  unfoldable pub works : DlqName → List ItemRow → List Work
  works name items =
      if is_catalog_dlq name
      then map catalog_work (by_source [] (keep is_open items))
      else map single_work (keep is_open items)

  abbrev pub mark_sent : Repair → Work → Repair
  mark_sent r w = record r {
    items = all_replayed services.now w.ids r.items;
    sent = (w.message, w.ids) ∷ r.sent;
  }

  abbrev pub mark_some : Repair → Work → ℕ → Repair
  mark_some r w n = record r {
    items = all_replayed services.now (take n w.ids) r.items;
    sent = (w.message, w.ids) ∷ r.sent;
    unmarked = (w.message, drop n w.ids) ∷ r.unmarked;
  }

  -- The loop that sends; what it throws ends it.
  unfoldable pub send_works : Repair → List Work → Repair × Option DlqError
  send_works r [] = (r, none)
  send_works r (w ∷ rest) =
      let later = send_works (mark_sent r w) rest in
      elim w.refused [
        | some e ↦ (r, some e)
        | none ↦ elim (services.send w.message) [
          | not_taken ↦ (r, some send_failed)
          | went_through ↦ later
          | interrupted n ↦ (mark_some r w n, some send_failed)
        ]
      ]

  unfoldable pub replay_phase : Snapshot → Repair → Repair × Option DlqError
  replay_phase snapshot r =
      if is_replay r.plan.operation
      then send_works r (works r.plan.queue_name snapshot.read_items)
      else (r, none)

  abbrev classify : PlanRow → ItemRow → Classification
  classify plan i =
      if not (is_replay plan.operation)
      then discarded
      else if not (is_github plan.queue_name)
      then replayed
      else if services.has_recorded_failure i.message_id
      then recorded_failure_replayed
      else historical_transient

  abbrev diagnostic_of : Classification → Option String
  diagnostic_of historical_transient =
      some "Original failure predates instrumentation and cannot be reconstructed."
  diagnostic_of _ = none

  abbrev actor_of : ApplyInput → String
  actor_of input =
      let given = texts.trim (get_or input.operator "") in
      if str_eq given "" then "operations-owner" else given

  -- The item is purged and audited in one batch.
  abbrev pub dispose : ApplyInput → Repair → ItemRow → Repair
  dispose input r i = record r {
    items = set_purged services.now i.message_id r.items;
    audit =
        record {
          audited_id = i.message_id;
          audited_hash = i.payload_hash;
          audited_key = i.logical_key;
          audited_operation = r.plan.operation;
          classification = classify r.plan i;
          diagnostic = diagnostic_of (classify r.plan i);
          audited_reason = r.plan.reason;
          actor = actor_of input;
          disposed_at = services.now;
        }
        ∷ r.audit;
  }

  unfoldable pub dispose_all : ApplyInput → Repair → List ItemRow → Repair
  dispose_all input r [] = r
  dispose_all input r (i ∷ rest) = dispose_all input (dispose input r i) rest

  abbrev ref_of : Snapshot → ItemRow → String
  ref_of snapshot i = elim (lookup snapshot.visible i.message_id) [
    | none ↦ "undefined"
    | some m ↦ m.ref
  ]

  abbrev pub failed_refs : Snapshot → List ItemRow → Option (List String)
  failed_refs snapshot [] = some []
  failed_refs snapshot (i ∷ rest) = services.purge (map (ref_of snapshot) (i ∷ rest))

  abbrev pub finished : Repair → Repair
  finished r = record r {
    plan = record r.plan { applying_at = none; applied_at = some services.now };
  }

  abbrev pub was_purged : Snapshot → List String → ItemRow → Bool
  was_purged snapshot failed i = not (any (λ f. str_eq f (ref_of snapshot i)) failed)

  unfoldable pub settle :
      ApplyInput → Snapshot → Repair → List String → Repair × Result DlqError Applied
  settle input snapshot r failed =
      let pending = keep is_pending snapshot.read_items in
      let disposed = dispose_all input r (keep (was_purged snapshot failed) pending) in
      elim failed [
        | [] ↦ (
          finished disposed,
          ok (record { applied_count = length snapshot.read_items; applied_when = services.now }),
        )
        | f ∷ more ↦ (released disposed, err not_all_purged)
      ]

  unfoldable pub purge_phase : ApplyInput → Snapshot → Repair → Repair × Result DlqError Applied
  purge_phase input snapshot r = elim (failed_refs snapshot (keep is_pending snapshot.read_items)) [
    | none ↦ (released r, err purge_failed)
    | some failed ↦ settle input snapshot r failed
  ]

  abbrev pub after_replay :
      ApplyInput → Snapshot → Repair × Option DlqError → Repair × Result DlqError Applied
  after_replay input snapshot (r, some e) = (released r, err e)
  after_replay input snapshot (r, none) = purge_phase input snapshot r

  -- From the lock on.
  unfoldable pub commit : ApplyInput → Snapshot → Repair → Repair × Result DlqError Applied
  commit input snapshot r =
      if is_some r.plan.applying_at || is_some r.plan.applied_at
      then (r, err already_applying)
      else after_replay input snapshot (
          replay_phase snapshot
            (record r { plan = record r.plan { applying_at = some services.now } }))

  abbrev pub after_prepare :
      ApplyInput → Repair → Result DlqError Snapshot → Repair × Result DlqError Applied
  after_prepare input r (err e) = (r, err e)
  after_prepare input r (ok snapshot) = commit input snapshot r

  unfoldable pub apply_dlq : ApplyInput → Repair → Repair × Result DlqError Applied
  apply_dlq input r = after_prepare input r (prepare input r)
