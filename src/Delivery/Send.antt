-- ===== src/Delivery/Send.antt =====
-- src/notifications.ts: `sendNewJobNotifications`. What the push service answers is any function of
-- the state and the receipt; the clock is read once for each job and device. Log lines are left out.
use intern_notifs.Base.{
  ℕ, ◌+◌, String, Bool, true, false, ◌||◌, ◌&&◌, not, Option, none, some, List, ◌∷◌, get_or,
  or_else, ltb, if◌then◌else◌, str_eq, take, units,
}
use intern_notifs.Delivery.Receipt.{
  pending, retryable, delivered_ok, error, claimed, accepted, definitive_failure, unknown,
  expo_http, transport_ambiguous, LastError, DeliveryReceipt, DeviceToken, Job, UserPreferences,
  ExpoPushTicket, Published, ticketed, http_error, other_error, World, key_of, get_receipt,
  claim_receipt, put_receipt, put_device, max_expo_push_attempts, retryable_http, Step, sent,
  skipped, failed, thrown,
}

-- `Boolean(ticket.id)`
abbrev pub has_id : ExpoPushTicket → Bool
has_id t = elim t.id [ none ↦ false | some s ↦ not (str_eq s "") ]

abbrev pub is_unregistered : ExpoPushTicket → Bool
is_unregistered t = elim t.error_name [ none ↦ false | some s ↦ str_eq s "DeviceNotRegistered" ]

-- Is the user to be told of this job?
unfoldable pub wants : Option UserPreferences → Job → Bool
wants none job = false
wants (some p) job = p.alerts_enabled && p.onboarding_complete && p.accepts job

-- Is the receipt one that an automatic send leaves alone?
unfoldable pub settled : DeliveryReceipt → Bool
settled r =
    elim r.status [ delivered_ok ↦ true | pending ↦ true | _ ↦ false ]
    || elim r.delivery_state [ some definitive_failure ↦ true | _ ↦ false ]

unfoldable pub existing_receipt : World → Job → DeviceToken → Option DeliveryReceipt
unfolding get_receipt
existing_receipt w job device =
    or_else (get_receipt w device.owner job.key device.device_token)
      (get_receipt w device.owner job.id device.device_token)

abbrev pub attempts_of : Option DeliveryReceipt → ℕ
attempts_of none = 0
attempts_of (some r) = get_or r.attempts 0

abbrev created_or : Option DeliveryReceipt → ℕ → ℕ
created_or none now = now
created_or (some r) now = r.created_at

unfoldable pub new_receipt : Option DeliveryReceipt → Job → DeviceToken → ℕ → DeliveryReceipt
new_receipt existing job device now = record {
  user_id = device.owner;
  job_id = job.id;
  dedupe_key = some job.key;
  token = device.device_token;
  ticket_id = none;
  status = pending;
  attempts = some (attempts_of existing + 1);
  last_error = none;
  delivery_state = some claimed;
  created_at = created_or existing now;
  updated_at = now;
}

-- What is stored for a ticket. One that says ok without an id may have been accepted.
unfoldable pub ticket_receipt : DeliveryReceipt → ExpoPushTicket → ℕ → DeliveryReceipt
ticket_receipt r t now = record r {
  ticket_id = t.id;
  status = if t.is_ok then pending else error;
  delivery_state =
      some (if t.is_ok then (if has_id t then accepted else unknown) else definitive_failure);
  updated_at = now;
}

-- `ExpoHttp${error.status}` and the message, for an exception of `publish`
abbrev pub http_last_error : ℕ → List ℕ → ℕ → LastError
http_last_error status message now = record {
  code = expo_http status;
  message = some (take 500 message);
  at = now;
}

abbrev pub other_last_error : List ℕ → ℕ → LastError
other_last_error message now = record {
  code = transport_ambiguous;
  message = some (take 500 message);
  at = now;
}

-- What is stored after an `ExpoPushHttpError` on the attempt that is given.
unfoldable pub http_receipt : DeliveryReceipt → ℕ → ℕ → List ℕ → ℕ → DeliveryReceipt
http_receipt r attempt status message now =
    let again : Bool = retryable_http status && ltb attempt max_expo_push_attempts in
    record r {
      status = if again then retryable else error;
      delivery_state = some (if again then claimed else definitive_failure);
      last_error = some (http_last_error status message now);
      updated_at = now;
    }

-- What is stored where nobody knows whether the service took the message.
unfoldable pub ambiguous_receipt : DeliveryReceipt → List ℕ → ℕ → DeliveryReceipt
ambiguous_receipt r message now = record r {
  status = pending;
  delivery_state = some unknown;
  last_error = some (other_last_error message now);
  updated_at = now;
}

-- A call of `publish` is logged under the key of its receipt.
abbrev pub log_push : World → DeliveryReceipt → World
log_push w r = record w { pushes = key_of r ∷ w.pushes }

-- A write that throws ends the run and leaves the store as it was.
abbrev pub or_throw : World → Step → Option World → World × Step
or_throw w step none = (w, thrown)
or_throw w step (some next) = (next, step)

-- Stores the receipt of an exception; the store itself may throw.
unfoldable pub store_failure : World → DeliveryReceipt → World × Step
store_failure w r = or_throw w failed (put_receipt w r)

abbrev deletion_message : List ℕ
deletion_message = units "Account deletion is in progress"

-- Deactivates a device that is not registered any more.
unfoldable pub drop_device : World → DeviceToken → ℕ → Option World
unfolding put_device
drop_device w device now = put_device w (record device { active = false; device_updated_at = now })

unfoldable pub device_dropped : World → DeliveryReceipt → ℕ → Option World → World × Step
device_dropped w r now none = store_failure w (ambiguous_receipt r deletion_message now)
device_dropped w r now (some next) = (next, failed)

-- The rest of the `try` once the receipt of a ticket is stored, with the `catch` for what the store
-- throws in it.
unfoldable pub ticket_stored :
    World → DeliveryReceipt → DeviceToken → ExpoPushTicket → ℕ → Option World → World × Step
ticket_stored w r device t now none = store_failure w (ambiguous_receipt r deletion_message now)
ticket_stored w r device t now (some next) =
    let dropped = device_dropped next r now (drop_device next device now) in
    if t.is_ok && has_id t
    then (next, sent)
    else if is_unregistered t
    then dropped
    else (next, failed)

unfoldable pub store_answer : World → DeliveryReceipt → DeviceToken → Published → ℕ → World × Step
store_answer w r device (ticketed t) now =
    ticket_stored w r device t now (put_receipt w (ticket_receipt r t now))
store_answer w r device (http_error status message) now =
    store_failure w (http_receipt r (get_or r.attempts 1) status message now)
store_answer w r device (other_error message) now =
    store_failure w (ambiguous_receipt r message now)

module _ (service : World → DeliveryReceipt → Published) where
  -- Sends what has been claimed.
  unfoldable pub send_claimed : World × Bool → DeliveryReceipt → DeviceToken → ℕ → World × Step
  send_claimed (w, false) r device now = (w, skipped)
  send_claimed (w, true) r device now = store_answer (log_push w r) r device (service w r) now

  -- One job for one device.
  unfoldable pub send_one : (String → Bool) → World → Job → DeviceToken → ℕ → World × Step
  send_one excluded w job device now =
      let existing = existing_receipt w job device in
      if excluded device.owner
        || not (wants (w.preferences device.owner) job)
        || elim existing [ none ↦ false | some r ↦ settled r ]
      then (w, skipped)
      else send_claimed (claim_receipt w (new_receipt existing job device now))
          (new_receipt existing job device now) device now
