-- ===== src/Dlq/Make.antt =====
-- cloudflare/dlq-operations.ts: `planDlq`, which makes a plan from a selection of messages. The random
-- ids are arguments. The queue and the action are `none` where they are not among those allowed, and
-- the expected count is `none` where it is no natural number.
use intern_notifs.Base.{
  ℕ, ◌+◌, ◌*◌, String, Bool, false, ◌&&◌, ◌||◌, not, Option, none, some, List, [], ◌∷◌, all, length,
  get_or, is_some, leb, ltb, ◌==◌, str_eq, if◌then◌else◌, units, Result, ok, ◌>>=◌, checked, ok_or,
}
use intern_notifs.Base.Json.{Value, str, Items, nil, cons}
use intern_notifs.Base.Table.{lookup}
use intern_notifs.Base.Sets.{set_all, distinct, units_before}
use intern_notifs.Dlq.Plan.{
  DlqName, is_catalog_dlq, Operation, replay, discard, is_replay, ItemRow, Repair, PeekedMessage,
  DlqError, selection_drift, source_blocked, queue_not_allowed, action_invalid, reason_required,
  selection_differs,
}
use intern_notifs.Dlq.Message.{Texts, ParsedMessage, parse_message, discardable_message}
use intern_notifs.Dlq.Apply.{Services, is_blocked}

pub record PlanInput : Type 0 where
  pub queue : Option DlqName
  pub action : Option Operation
  pub message_ids : Option Value
  pub given_reason : Option Value
  pub expected : Option ℕ

-- The texts of a list that are not empty.
abbrev selected_texts : Items → List String
selected_texts nil = []
selected_texts (cons (str s) rest) =
    let later = selected_texts rest in if str_eq s "" then later else s ∷ later
selected_texts (cons _ rest) = selected_texts rest

abbrev pub selected : Option Value → List String
selected (some (Value.arr items)) = selected_texts items
selected _ = []

abbrev pub selection : Option Value → List String
selection given = distinct (selected given)

-- The rows in the order of their ids.
abbrev pub insert_row : ItemRow → List ItemRow → List ItemRow
insert_row i [] = i ∷ []
insert_row i (j ∷ rest) =
    let later = insert_row i rest in
    if units_before (units i.message_id) (units j.message_id) then i ∷ j ∷ rest else j ∷ later

abbrev pub by_id : List ItemRow → List ItemRow
by_id [] = []
by_id (i ∷ rest) = insert_row i (by_id rest)

abbrev pub row_of : String → ParsedMessage → ItemRow
row_of id parsed = record {
  message_id = id;
  payload_hash = parsed.parsed_hash;
  message_body = parsed.serialized;
  logical_key = parsed.parsed_key;
  source_id = parsed.parsed_source;
  job_id = parsed.parsed_job;
  replayed_at = none;
  purged_at = none;
}

module _ (texts : Texts) (services : Services) where
  abbrev pub read_message : Operation → DlqName → PeekedMessage → Result DlqError ParsedMessage
  read_message discard name m = ok (discardable_message texts name m)
  read_message replay name m = parse_message texts name m.body

  -- The rows of the selected messages. A message is found under its id.
  unfoldable pub rows_of :
      Operation
      → DlqName
      → List (String × PeekedMessage)
      → List String
      → Result DlqError (List ItemRow)
  rows_of action name visible [] = ok []
  rows_of action name visible (id ∷ rest) = do
    m ← ok_or (lookup visible id) selection_drift
    parsed ← read_message action name m
    others ← rows_of action name visible rest
    ok (row_of id parsed ∷ others)

  abbrev may_replay : Operation → DlqName → ItemRow → Bool
  may_replay action name i =
      not (is_replay action)
      || not (is_catalog_dlq name)
      || not (is_blocked (services.source_health (get_or i.source_id "undefined")))

  abbrev reason_of : PlanInput → String
  reason_of input = elim input.given_reason [ some (str s) ↦ texts.trim s | _ ↦ "" ]

  -- The reason, the count and the messages that the queue shows.
  unfoldable pub selection_checked : PlanInput → Result DlqError Bool
  selection_checked input = do
    explained ←
        checked (not (str_eq (reason_of input) "") && leb (length (units (reason_of input))) 500)
          reason_required
    fits ←
        checked
          (ltb 0 (length (selection input.message_ids))
            && leb (length (selection input.message_ids)) 100
            && elim input.expected [
              | none ↦ false
              | some n ↦ n == length (selection input.message_ids)
            ])
          selection_differs
    checked
        (all (λ id. is_some (lookup (set_all (λ m. m.id) [] services.peeked) id))
          (selection input.message_ids))
        selection_drift

  -- Only catalog queues have a gate: no source may be paused or quarantined.
  unfoldable pub gate : Operation → DlqName → List ItemRow → Result DlqError Bool
  gate action name items = checked (all (may_replay action name) items) source_blocked

  abbrev pub made_plan : PlanInput → String → String → DlqName → Operation → List ItemRow → Repair
  made_plan input plan_id repair_token name action items = record {
    plan = record {
      plan_id = plan_id;
      repair_token_hash = texts.sha repair_token;
      queue_name = name;
      operation = action;
      reason = reason_of input;
      expected_count = length (selection input.message_ids);
      expires_at = services.now + 15 * 60000;
      applying_at = none;
      applied_at = none;
    };
    items = by_id items;
    sent = [];
    unmarked = [];
    audit = [];
  }

  unfoldable pub plan_dlq : PlanInput → String → String → Result DlqError Repair
  plan_dlq input plan_id repair_token = do
    name ← ok_or input.queue queue_not_allowed
    action ← ok_or input.action action_invalid
    sound ← selection_checked input
    items ←
        rows_of action name (set_all (λ m. m.id) [] services.peeked) (selection input.message_ids)
    allowed ← gate action name items
    ok (made_plan input plan_id repair_token name action items)
