-- ===== src/Delivery/Receipt.antt =====
-- src/types.ts, src/store.ts, src/notifications.ts: receipts, devices, and the part of
-- `MemoryUserStore` that the delivery uses, with the log of what was handed to the push service. A
-- text that only a person reads is the list of its UTF-16 code units.
use Prim.Native.String
use intern_notifs.Base.{
  ℕ, String, Bool, true, false, ◌||◌, Option, none, some, List, get_or, leb, ◌==◌, if◌then◌else◌,
}
use intern_notifs.Base.Table.{lookup, put}

pub data ReceiptStatus : Type 0 where
  pending retryable delivered_ok error : ReceiptStatus

pub data DeliveryState : Type 0 where
  claimed accepted delivered definitive_failure unknown : DeliveryState

-- `lastErrorCode`: `ExpoHttp${status}`, a code that is written out, or what the ticket said.
pub data ErrorCode : Type 0 where
  expo_http : ℕ → ErrorCode
  transport_ambiguous expo_rejected grouped_pipeline_cohort : ErrorCode
  ticket_error : String → ErrorCode

pub record LastError : Type 0 where
  pub code : ErrorCode
  pub message : Option (List ℕ)
  pub at : ℕ

pub record DeliveryReceipt : Type 0 where
  pub user_id : String
  pub job_id : String
  pub dedupe_key : Option String
  pub token : String
  pub ticket_id : Option String
  pub status : ReceiptStatus
  pub attempts : Option ℕ
  pub last_error : Option LastError
  pub delivery_state : Option DeliveryState
  pub created_at : ℕ
  pub updated_at : ℕ

pub record DeviceToken : Type 0 where
  pub owner : String
  pub device_token : String
  pub active : Bool
  pub device_updated_at : ℕ

-- `dedupe_key` is `notificationDedupeKey` of the job, a SHA-256 hash.
pub record Job : Type 0 where
  pub id : String
  pub key : String

-- `accepts` is `matchesJobFilter` with the user's filter.
pub record UserPreferences : Type 0 where
  pub alerts_enabled : Bool
  pub onboarding_complete : Bool
  pub accepts : Job → Bool

pub record ExpoPushTicket : Type 0 where
  pub id : Option String
  pub is_ok : Bool
  pub error_name : Option String
  pub text : Option (List ℕ)

-- What `publish` gives: a ticket, an `ExpoPushHttpError`, or any other exception.
pub data Published : Type 0 where
  ticketed : ExpoPushTicket → Published
  http_error : ℕ → List ℕ → Published
  other_error : List ℕ → Published

pub record World : Type 0 where
  pub receipts : List (String × DeliveryReceipt)
  pub devices : List (String × DeviceToken)
  pub preferences : String → Option UserPreferences
  pub deletion_pending : String → Bool
  -- The keys of the receipts under which `publish` was called, the newest first.
  pub pushes : List String

-- `${userId}#${key}#${token}`
abbrev pub receipt_key : String → String → String → String
receipt_key user_id key token =
    String.◌++◌ (String.◌++◌ (String.◌++◌ (String.◌++◌ user_id "#") key) "#") token

abbrev pub key_of : DeliveryReceipt → String
key_of r = receipt_key r.user_id (get_or r.dedupe_key r.job_id) r.token

unfoldable pub get_receipt : World → String → String → String → Option DeliveryReceipt
get_receipt w user_id key token = lookup w.receipts (receipt_key user_id key token)

abbrev is_error : ReceiptStatus → Bool
is_error error = true
is_error _ = false

-- May a new claim replace what is stored?
abbrev pub claimable : Option DeliveryReceipt → Bool
claimable none = true
claimable (some r) = is_error r.status

unfoldable pub claim_receipt : World → DeliveryReceipt → World × Bool
claim_receipt w r =
    if w.deletion_pending r.user_id
    then (w, false)
    else if claimable (lookup w.receipts (key_of r))
    then (record w { receipts = put w.receipts (key_of r) r }, true)
    else (w, false)

-- `writable` throws while the account is being deleted: then there is no new store.
unfoldable pub put_receipt : World → DeliveryReceipt → Option World
put_receipt w r =
    if w.deletion_pending r.user_id
    then none
    else some (record w { receipts = put w.receipts (key_of r) r })

abbrev pub device_key : DeviceToken → String
device_key d = String.◌++◌ (String.◌++◌ d.owner "#") d.device_token

unfoldable pub put_device : World → DeviceToken → Option World
put_device w d =
    if w.deletion_pending d.owner
    then none
    else some (record w { devices = put w.devices (device_key d) d })

abbrev pub max_expo_push_attempts : ℕ
max_expo_push_attempts = 3

-- `retryableExpoHttpStatus`
abbrev pub retryable_http : ℕ → Bool
retryable_http status = status == 408 || status == 429 || leb 500 status

-- How an attempt ended for the caller: counted, or an exception that ends the run.
pub data Step : Type 0 where
  sent skipped failed thrown : Step
