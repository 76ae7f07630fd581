-- ===== src/Dlq/Plan.antt =====
-- cloudflare/dlq-operations.ts: a repair plan for messages of a dead-letter queue, with its rows.
-- `Repair` is the row of one plan in `dlq_repair_plans`, its items in `dlq_repair_plan_items` by the
-- order of their ids, its rows in `dlq_disposition_audit`, and logs of what was sent.
use intern_notifs.Base.{ℕ, String, Bool, true, false, Option, List}
use intern_notifs.Base.Json.{Value, Props}

pub data DlqName : Type 0 where
  greenhouse lever ashby github gmail destination_verification : DlqName

abbrev pub is_catalog_dlq : DlqName → Bool
is_catalog_dlq gmail = false
is_catalog_dlq destination_verification = false
is_catalog_dlq _ = true

abbrev pub is_github : DlqName → Bool
is_github github = true
is_github _ = false

pub data Operation : Type 0 where
  replay discard : Operation

abbrev pub is_replay : Operation → Bool
is_replay replay = true
is_replay discard = false

pub record PlanRow : Type 0 where
  pub plan_id : String
  pub repair_token_hash : String
  pub queue_name : DlqName
  pub operation : Operation
  pub reason : String
  pub expected_count : ℕ
  pub expires_at : ℕ
  pub applying_at : Option ℕ
  pub applied_at : Option ℕ

pub record ItemRow : Type 0 where
  pub message_id : String
  pub payload_hash : String
  pub message_body : String
  pub logical_key : String
  pub source_id : Option String
  pub job_id : Option String
  pub replayed_at : Option ℕ
  pub purged_at : Option ℕ

pub data Classification : Type 0 where
  discarded replayed recorded_failure_replayed historical_transient : Classification

pub record AuditRow : Type 0 where
  pub audited_id : String
  pub audited_hash : String
  pub audited_key : String
  pub audited_operation : Operation
  pub classification : Classification
  pub diagnostic : Option String
  pub audited_reason : String
  pub actor : String
  pub disposed_at : ℕ

-- What is put on a work queue: a fresh poll of a source, or the body of the message.
pub data Sent : Type 0 where
  fresh_poll : String → ℕ → Sent
  same_body : Props → Sent

pub record Repair : Type 0 where
  pub plan : PlanRow
  pub items : List ItemRow
  -- Each message that was sent, with the ids of the items that it stands for.
  pub sent : List (Sent × List String)
  -- Those of them whose items were not all marked as replayed, with the ids that were not.
  pub unmarked : List (Sent × List String)
  pub audit : List AuditRow

pub record PeekedMessage : Type 0 where
  pub id : String
  pub body : Value
  pub ref : String

pub data DlqError : Type 0 where
  plan_invalid already_applied already_applying has_expired count_differs item_count_drifted :
      DlqError
  selection_drift source_blocked body_invalid catalog_without_source gmail_invalid : DlqError
  verification_invalid send_failed purge_failed not_all_purged : DlqError
  queue_not_allowed action_invalid reason_required selection_differs : DlqError
