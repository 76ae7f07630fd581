-- ===== src/Delivery/Examples.antt =====
-- The theorems on the delivery, for one user with one device and a service that is overloaded.
use intern_notifs.Base.{
  length, ◌*◌, ◌≤◌, ◌≡◌, refl, String, Bool, true, false, some, List, [], ◌∷◌, units,
}
use intern_notifs.Base.Table.{lookup, put}
use intern_notifs.Delivery.Receipt.{
  DeliveryReceipt, DeviceToken, Job, UserPreferences, claim_receipt, put_receipt, get_receipt,
  Published, http_error, World, receipt_key,
}
use intern_notifs.Delivery.Send.{
  send_one, wants, existing_receipt, send_claimed, store_answer, store_failure, http_receipt,
  new_receipt, settled,
}
use intern_notifs.Delivery.Retry.{retry_one, publish_again, store_retry_answer, store_skipped}
use intern_notifs.Delivery.Bounds.{times, Counted, IsBounded}
use intern_notifs.Delivery.Run.{Act, send, retry, act, acts, at_most_three_pushes}
use intern_notifs.Delivery.Loop.{
  Tally, total, active_devices, send_new_job_notifications, send_run_total,
}

abbrev phone : DeviceToken
phone = record { owner = "u1"; device_token = "t1"; active = true; device_updated_at = 0 }

abbrev intern_job : Job
intern_job = record { id = "j1"; key = "k1" }

abbrev everything : UserPreferences
everything = record { alerts_enabled = true; onboarding_complete = true; accepts = λ job. true }

abbrev nobody : String → Bool
nobody user = false

abbrev start : World
start = record {
  receipts = [];
  devices = ("u1#t1", phone) ∷ [];
  preferences = λ user. some everything;
  deletion_pending = nobody;
  pushes = [];
}

abbrev overloaded : World → DeliveryReceipt → Published
overloaded w r = http_error 503 (units "busy")

abbrev the_key : String
the_key = receipt_key "u1" "k1" "t1"

abbrev runs : List Act
runs =
    send nobody intern_job phone 1
    ∷ retry nobody the_key (some intern_job) (some phone) 2
    ∷ retry nobody the_key (some intern_job) (some phone) 3
    ∷ retry nobody the_key (some intern_job) (some phone) 4
    ∷ send nobody intern_job phone 5
    ∷ []

start-IsBounded : IsBounded start
unfolding lookup
start-IsBounded = record { receipts_counted = λ k. refl; nobody_leaves = λ user. refl }

at_most_three_pushes_example :
    (times the_key (acts overloaded start runs).pushes ≤ 3)
    × Counted the_key
        (lookup (acts overloaded start runs).receipts the_key)
        (times the_key (acts overloaded start runs).pushes)
at_most_three_pushes_example = at_most_three_pushes overloaded start runs the_key start-IsBounded

send_run_total_example :
    (u : Tally) × ((send_new_job_notifications overloaded nobody 1 start (intern_job ∷ [])).1
      ≡ some u)
    × (total u ≡ length (intern_job ∷ []) * length (active_devices start))
    × IsBounded (send_new_job_notifications overloaded nobody 1 start (intern_job ∷ [])).0
send_run_total_example = send_run_total overloaded nobody 1 start (intern_job ∷ []) start-IsBounded

-- The three tries are used up.
three_pushes : times the_key (acts overloaded start runs).pushes ≡ 3
unfolding acts act send_one wants lookup existing_receipt send_claimed claim_receipt store_answer
    store_failure put_receipt put http_receipt new_receipt retry_one publish_again
    store_retry_answer settled get_receipt store_skipped
three_pushes = refl
