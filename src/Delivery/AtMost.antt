-- ===== src/Delivery/AtMost.antt =====
-- At most three times a message is handed to the push service for one receipt.
use intern_notifs.Base.{
  ℕ, ◌+◌, ◌≤◌, ◌≡◌, refl, String, Bool, true, false, Option, none, some, arith, get_or,
  if◌then◌else◌, or_else,
}
use intern_notifs.Base.Table.{put}
use intern_notifs.Delivery.Receipt.{
  DeliveryReceipt, DeviceToken, Job, Published, ticketed, http_error, other_error, World, key_of,
  receipt_key, get_receipt, claim_receipt, claimable,
}
use intern_notifs.Delivery.Send.{
  log_push, attempts_of, send_claimed, send_one, settled, existing_receipt, new_receipt,
  http_receipt, ambiguous_receipt,
}
use intern_notifs.Delivery.Retry.{attempted, retried_receipt, store_retry_answer}
use intern_notifs.Delivery.Bounds.{
  times, Counted, IsBounded, IsBoundedBut, IsBoundedBut-weaken, log_push-IsBoundedBut,
  times-log_push, put-IsBounded, store_failure-IsBounded, choice_by, ambiguous-IsCounted,
  http-IsCounted, ticket_stored-IsBounded, store_answer-IsBounded,
}

-- The attempts of a new claim: what is stored under the key and under the old key of the job.
claimed_attempts :
    (k l : String) (stored old : Option DeliveryReceipt) (n m : ℕ)
    → Counted k stored n
    → Counted l old m
    → elim (or_else stored old) [ none ↦ false | some r ↦ settled r ] ≡ false
    → claimable stored ≡ true
    → (n ≤ attempts_of (or_else stored old)) × (attempts_of (or_else stored old) ≤ 2)
unfolding settled
claimed_attempts k l none none n m c d e f = ground arith
claimed_attempts k l none (some r) n m c d e f = ground (arith, d.open_at_most)
claimed_attempts k l (some r) old n m c d e f = ground (arith, c.open_at_most, c.counted)

-- Is there a receipt that forbids a send?
abbrev pub forbids : Option DeliveryReceipt → Bool
forbids existing = elim existing [ none ↦ false | some r ↦ settled r ]

module _ (service : World → DeliveryReceipt → Published) where
  send_claimed-IsBounded :
      (w : World) (existing : Option DeliveryReceipt) (job : Job) (device : DeviceToken) (now : ℕ)
      (b : Bool)
      → IsBounded w
      → (b ≡ true
          → (times (receipt_key device.owner job.key device.device_token) w.pushes
              ≤ attempts_of existing)
            × (attempts_of existing ≤ 2))
      → IsBounded
          (send_claimed service
            (if b
              then (
                record w {
                  receipts =
                      put w.receipts
                        (receipt_key device.owner job.key device.device_token)
                        (new_receipt existing job device now);
                },
                true,
              )
              else (w, false))
            (new_receipt existing job device now)
            device
            now).0
  unfolding send_claimed new_receipt
  send_claimed-IsBounded w existing job device now false v f = v
  send_claimed-IsBounded w existing job device now true v f =
      let r = new_receipt existing job device now in
      let u = put-IsBounded w r (IsBoundedBut-weaken _ w v) (record {
        under_key = refl;
        counted = omega (arith, f refl);
        at_most = omega (arith, f refl);
        open_at_most = ground arith;
      }) in
      let claimed_world : World = record w { receipts = put w.receipts (key_of r) r } in
      store_answer-IsBounded (log_push claimed_world r) r device _ now
        (log_push-IsBoundedBut claimed_world r (IsBoundedBut-weaken _ claimed_world u))
        (rw (times-log_push claimed_world r) (omega (arith, f refl))) (omega (arith, f refl))

  claim_and_send-IsBounded :
      (w : World) (job : Job) (device : DeviceToken) (now : ℕ)
      → IsBounded w
      → forbids (existing_receipt w job device) ≡ false
      → IsBounded
          (send_claimed service
            (claim_receipt w (new_receipt (existing_receipt w job device) job device now))
            (new_receipt (existing_receipt w job device) job device now)
            device
            now).0
  unfolding claim_receipt new_receipt existing_receipt get_receipt
  claim_and_send-IsBounded w job device now v p = rw (v.nobody_leaves device.owner) (
      send_claimed-IsBounded w (existing_receipt w job device) job device now _ v
        (λ e. claimed_attempts _ _ _ _ _ _ (v.receipts_counted _) (v.receipts_counted _) p e))

  -- A send keeps every count.
  pub send_one-IsBounded :
      (excluded : String → Bool) (w : World) (job : Job) (device : DeviceToken) (now : ℕ)
      → IsBounded w
      → IsBounded (send_one service excluded w job device now).0
  unfolding send_one
  send_one-IsBounded excluded w job device now v =
      choice_by _ _ _ (λ e. v) (λ e. claim_and_send-IsBounded w job device now v (ground arith))

  pub store_retry_answer-IsBounded :
      (w : World) (r : DeliveryReceipt) (device : DeviceToken) (p : Published) (now : ℕ)
      → IsBoundedBut (key_of r) w
      → times (key_of r) w.pushes ≤ get_or r.attempts 1 + 1
      → get_or r.attempts 1 ≤ 2
      → IsBounded (store_retry_answer w r device p now).0
  unfolding store_retry_answer retried_receipt http_receipt ambiguous_receipt
  store_retry_answer-IsBounded w r device (ticketed t) now v a b =
      ticket_stored-IsBounded w (attempted r) device t now (retried_receipt r t now) v (record {
        under_key = refl;
        counted = a;
        at_most = omega (arith, b);
        open_at_most = ground (arith, b);
      })
  store_retry_answer-IsBounded w r device (http_error status message) now v a b =
      store_failure-IsBounded w _ v
        (http-IsCounted (attempted r) _ status message now _ refl a (omega (arith, b)))
  store_retry_answer-IsBounded w r device (other_error message) now v a b =
      store_failure-IsBounded w _ v
        (ambiguous-IsCounted (attempted r) message now _ a (omega (arith, b)))
