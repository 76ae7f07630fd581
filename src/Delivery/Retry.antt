-- ===== src/Delivery/Retry.antt =====
-- src/notifications.ts: `retryExpoPushNotifications` and `inspectExpoPushReceipts`, for one receipt.
use intern_notifs.Base.{
  ℕ, ◌+◌, String, Bool, true, false, ◌||◌, ◌&&◌, not, Option, none, some, get_or, leb,
  if◌then◌else◌, is_some, take, units,
}
use intern_notifs.Delivery.Receipt.{
  pending, retryable, delivered_ok, error, claimed, accepted, delivered, definitive_failure,
  expo_rejected, ticket_error, grouped_pipeline_cohort, DeliveryReceipt, DeviceToken, Job,
  UserPreferences, ExpoPushTicket, Published, ticketed, http_error, other_error, World, put_receipt,
  max_expo_push_attempts, Step, skipped,
}
use intern_notifs.Delivery.Send.{
  or_throw, ticket_stored, has_id, is_unregistered, wants, http_receipt, ambiguous_receipt,
  log_push, store_failure, drop_device,
}

-- May the receipt be tried once more?
abbrev pub may_retry : ℕ → Option Job → Option DeviceToken → Option UserPreferences → Bool
may_retry attempts none device preferences = false
may_retry attempts (some job) device preferences =
    not (leb max_expo_push_attempts attempts) && is_some device && wants preferences job

-- What is stored for the ticket of a further attempt.
unfoldable pub retried_receipt : DeliveryReceipt → ExpoPushTicket → ℕ → DeliveryReceipt
retried_receipt r t now =
    let attempt = get_or r.attempts 1 + 1 in
    let is_accepted : Bool = t.is_ok && has_id t in
    let is_last : Bool = is_unregistered t || leb max_expo_push_attempts attempt in
    record r {
      ticket_id = t.id;
      attempts = some attempt;
      status = if is_accepted then pending else if is_last then error else retryable;
      delivery_state =
          some (if is_accepted then accepted else if is_last then definitive_failure else claimed);
      last_error =
          if is_accepted
          then r.last_error
          else some (record {
            code = elim t.error_name [ none ↦ expo_rejected | some s ↦ ticket_error s ];
            message = elim t.text [ none ↦ none | some m ↦ some (take 500 m) ];
            at = now;
          });
      updated_at = now;
    }

-- The receipt with the attempt counted, as the `catch` stores it.
abbrev pub attempted : DeliveryReceipt → DeliveryReceipt
attempted r = record r { attempts = some (get_or r.attempts 1 + 1) }

unfoldable pub store_retry_answer :
    World → DeliveryReceipt → DeviceToken → Published → ℕ → World × Step
store_retry_answer w r device (ticketed t) now =
    ticket_stored w (attempted r) device t now (put_receipt w (retried_receipt r t now))
store_retry_answer w r device (http_error status message) now =
    store_failure w (http_receipt (attempted r) (get_or r.attempts 1 + 1) status message now)
store_retry_answer w r device (other_error message) now =
    store_failure w (ambiguous_receipt (attempted r) message now)

-- A receipt that is not tried again is stored as given; the store may throw.
unfoldable pub store_skipped : World → DeliveryReceipt → World × Step
store_skipped w r = or_throw w skipped (put_receipt w r)

abbrev pub suppressed : DeliveryReceipt → ℕ → DeliveryReceipt
suppressed r now = record r {
  status = error;
  delivery_state = some definitive_failure;
  last_error = some (record {
    code = grouped_pipeline_cohort;
    message = some (units "Legacy retry suppressed after grouped delivery activation");
    at = now;
  });
  updated_at = now;
}

module _ (service : World → DeliveryReceipt → Published) where
  unfoldable pub publish_again : World → DeliveryReceipt → Option DeviceToken → ℕ → World × Step
  publish_again w r none now = store_skipped w (record r { status = error; updated_at = now })
  publish_again w r (some device) now = store_retry_answer (log_push w r) r device (service w r) now

  -- One receipt that `retryableReceipts` has listed, with its job and its active device, if any.
  unfoldable pub retry_one :
      (String → Bool) → World → DeliveryReceipt → Option Job → Option DeviceToken → ℕ → World × Step
  retry_one excluded w r job device now =
      let again = publish_again w r device now in
      let given_up = store_skipped w (record r { status = error; updated_at = now }) in
      let left_out = store_skipped w (suppressed r now) in
      if excluded r.user_id
      then left_out
      else if may_retry (get_or r.attempts 1) job device (w.preferences r.user_id)
      then again
      else given_up

abbrev pub or_stop : World → Option World → World × Bool
or_stop w none = (w, false)
or_stop w (some next) = (next, true)

-- Writes the device of an unregistered token off; the flag says that the loop goes on.
abbrev pub inspected_device : World → Option DeviceToken → ℕ → World × Bool
inspected_device w none now = (w, true)
inspected_device w (some d) now = or_stop w (drop_device w d now)

unfoldable pub inspected :
    World → ExpoPushTicket → Option DeviceToken → ℕ → Option World → World × Bool
inspected w t device now none = (w, false)
inspected w t device now (some next) =
    if t.is_ok || not (is_unregistered t) then (next, true) else inspected_device next device now

unfoldable pub inspected_receipt : DeliveryReceipt → ExpoPushTicket → ℕ → DeliveryReceipt
inspected_receipt r t now = record r {
  status = if t.is_ok then delivered_ok else error;
  delivery_state = some (if t.is_ok then delivered else definitive_failure);
  updated_at = now;
}

-- One receipt that `pendingReceipts` has listed, with what the service says of its ticket, and the
-- active device, if any.
unfoldable pub inspect_one :
    World → DeliveryReceipt → Option ExpoPushTicket → Option DeviceToken → ℕ → World × Bool
inspect_one w r none device now = (w, true)
inspect_one w r (some t) device now =
    inspected w t device now (put_receipt w (inspected_receipt r t now))
