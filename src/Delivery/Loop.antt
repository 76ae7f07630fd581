-- ===== src/Delivery/Loop.antt =====
-- src/notifications.ts: the whole of `sendNewJobNotifications`, with the counts that it returns. The
-- clock is read once.
use intern_notifs.Base.{
  ℕ, ◌+◌, ◌*◌, ◌≡◌, ◌≢◌, refl, sym, ap, ◌∙◌, String, Bool, true, false, Option, none, some, List,
  [], ◌∷◌, ◌++◌, map, arith, length, keep, if◌then◌else◌, length-append,
}
use mathlib.Core.Path.{subst}
use intern_notifs.Base.Table.{lookup, put}
use intern_notifs.Delivery.Receipt.{
  DeliveryReceipt, DeviceToken, Job, Published, ticketed, http_error, other_error, World, key_of,
  claimable, claim_receipt, put_receipt, put_device, Step, sent, skipped, failed, thrown,
}
use intern_notifs.Delivery.Send.{
  log_push, send_one, send_claimed, store_answer, ticket_stored, device_dropped, drop_device,
  store_failure, new_receipt, ticket_receipt, http_receipt, ambiguous_receipt, existing_receipt,
}
use intern_notifs.Delivery.Bounds.{IsBounded}
use intern_notifs.Delivery.AtMost.{send_one-IsBounded}

pub record Tally : Type 0 where
  pub sent_count : ℕ
  pub skipped_count : ℕ
  pub failed_count : ℕ

abbrev pub total : Tally → ℕ
total t = t.sent_count + t.skipped_count + t.failed_count

-- The counts after a step; an exception ends the run without any.
abbrev pub count : Tally → Step → Option Tally
count t sent = some (record t { sent_count = t.sent_count + 1 })
count t skipped = some (record t { skipped_count = t.skipped_count + 1 })
count t failed = some (record t { failed_count = t.failed_count + 1 })
count t thrown = none

-- `activeDevices`
abbrev pub active_devices : World → List DeviceToken
active_devices w = keep (λ d. d.active) (map (λ entry. entry.1) w.devices)

-- `for (const job of jobs) for (const device of devices)`
abbrev pub pairs : List Job → List DeviceToken → List (Job × DeviceToken)
pairs [] devices = []
pairs (job ∷ jobs) devices = map (λ device. (job, device)) devices ++ pairs jobs devices

module _ (service : World → DeliveryReceipt → Published) (excluded : String → Bool) (now : ℕ) where
  -- The loop; an exception leaves it at once.
  unfoldable pub send_pairs : World → Option Tally → List (Job × DeviceToken) → World × Option Tally
  send_pairs w t [] = (w, t)
  send_pairs w none (p ∷ ps) = (w, none)
  send_pairs w (some t) (p ∷ ps) =
      let done = send_one service excluded w p.0 p.1 now in send_pairs done.0 (count t done.1) ps

  unfoldable pub send_new_job_notifications : World → List Job → World × Option Tally
  send_new_job_notifications w jobs =
      send_pairs w (some (record { sent_count = 0; skipped_count = 0; failed_count = 0 }))
        (pairs jobs (active_devices w))

  answer_counted :
      (w : World) (r : DeliveryReceipt) (device : DeviceToken) (p : Published)
      → w.deletion_pending r.user_id ≡ false
      → w.deletion_pending device.owner ≡ false
      → (store_answer w r device p now).1 ≢ thrown
  unfolding store_answer ticket_stored device_dropped drop_device store_failure put_receipt
      put_device ticket_receipt http_receipt ambiguous_receipt
  answer_counted w r device (ticketed t) a b = ground arith
  answer_counted w r device (http_error status message) a b = ground arith
  answer_counted w r device (other_error message) a b = ground arith

  claimed_counted :
      (w claimed : World) (r : DeliveryReceipt) (device : DeviceToken) (b : Bool)
      → claimed.deletion_pending r.user_id ≡ false
      → claimed.deletion_pending device.owner ≡ false
      → (send_claimed service (if b then (claimed, true) else (w, false)) r device now).1 ≢ thrown
  unfolding send_claimed
  claimed_counted w claimed r device true a c =
      answer_counted (log_push claimed r) r device (service claimed r) a c
  claimed_counted w claimed r device false a c = ground arith

  new_counted :
      (w : World) (existing : Option DeliveryReceipt) (job : Job) (device : DeviceToken)
      → w.deletion_pending device.owner ≡ false
      → (send_claimed service
          (claim_receipt w (new_receipt existing job device now))
          (new_receipt existing job device now)
          device
          now).1
        ≢ thrown
  unfolding claim_receipt new_receipt
  new_counted w existing job device a =
      let r = new_receipt existing job device now in
      let claimed : World = record w { receipts = put w.receipts (key_of r) r } in
      rw a (claimed_counted w claimed r device (claimable (lookup w.receipts (key_of r))) a a)

  skip_or :
      (b : Bool) (x y : World × Step)
      → x.1 ≢ thrown
      → y.1 ≢ thrown
      → (if b then x else y).1 ≢ thrown
  skip_or true x y p q = p
  skip_or false x y p q = q

  step_counted :
      (w : World) (job : Job) (device : DeviceToken)
      → w.deletion_pending device.owner ≡ false
      → (send_one service excluded w job device now).1 ≢ thrown
  unfolding send_one
  step_counted w job device a =
      skip_or _ (w, skipped) _ (ground arith)
        (new_counted w (existing_receipt w job device) job device a)

  step_adds_one :
      (t : Tally) (s : Step)
      → s ≢ thrown
      → (u : Tally) × (count t s ≡ some u) × (total u ≡ total t + 1)
  step_adds_one t sent p = (_, refl, omega arith)
  step_adds_one t skipped p = (_, refl, omega arith)
  step_adds_one t failed p = (_, refl, omega arith)
  step_adds_one t thrown p = ground arith

  send_pairs_counts :
      (w : World) (t : Tally) (ps : List (Job × DeviceToken))
      → IsBounded w
      → (u : Tally) × ((send_pairs w (some t) ps).1 ≡ some u)
        × (total u ≡ total t + length ps)
        × IsBounded (send_pairs w (some t) ps).0
  unfolding send_pairs
  send_pairs_counts w t [] v = (t, refl, omega arith, v)
  send_pairs_counts w t (p ∷ ps) v =
      let c = step_adds_one t _ (step_counted w p.0 p.1 (v.nobody_leaves p.1.owner)) in
      let rest =
        send_pairs_counts (send_one service excluded w p.0 p.1 now).0 c.0 ps
          (send_one-IsBounded service excluded w p.0 p.1 now v) in
      let e : send_pairs w (some t) (p ∷ ps)
          ≡ send_pairs (send_one service excluded w p.0 p.1 now).0 (some c.0) ps =
        ap (λ o. send_pairs (send_one service excluded w p.0 p.1 now).0 o ps) c.1 in
      (
        rest.0,
        ap (λ x. x.1) e ∙ rest.1,
        omega (arith, rest.2, c.2),
        subst (λ x. IsBounded x.0) (sym e) rest.3,
      )

  length-map : {A B : Type 0} (f : A → B) (xs : List A) → length (map f xs) ≡ length xs
  length-map f [] = refl
  length-map f (x ∷ xs) = omega (arith, length-map f xs)

  length-pairs :
      (jobs : List Job) (devices : List DeviceToken)
      → length (pairs jobs devices) ≡ length jobs * length devices
  length-pairs [] devices = omega arith
  length-pairs (job ∷ jobs) devices = omega (
    arith,
    length-append (map (λ device. (job, device)) devices) (pairs jobs devices),
    length-map {B = Job × DeviceToken} (λ (device : DeviceToken). (job, device)) devices,
    length-pairs jobs devices,
  )

  -- While no account is being deleted a run of sends always ends with its counts, whatever the push
  -- service answers: each job is sent, skipped or failed once for each active device, and the
  -- attempts in the receipts stay within their bounds.
  pub send_run_total :
      (w : World) (jobs : List Job)
      → IsBounded w
      → (u : Tally) × ((send_new_job_notifications w jobs).1 ≡ some u)
        × (total u ≡ length jobs * length (active_devices w))
        × IsBounded (send_new_job_notifications w jobs).0
  unfolding send_new_job_notifications
  send_run_total w jobs v =
      let done =
        send_pairs_counts w (record { sent_count = 0; skipped_count = 0; failed_count = 0 })
          (pairs jobs (active_devices w)) v in
      (done.0, done.1, omega (arith, done.2, length-pairs jobs (active_devices w)), done.3)
