-- ===== src/Delivery/Run.antt =====
-- Any sequence of steps of the three loops of src/notifications.ts, of as many runs as there are, in
-- any interleaving in which a retry or an inspection acts on what is stored then.
use intern_notifs.Base.{
  ℕ, ◌≤◌, ◌≡◌, refl, String, Bool, true, false, not, ◌||◌, Option, none, some, List, [], ◌∷◌, arith,
  get_or, if◌then◌else◌, is_some,
}
use intern_notifs.Base.Table.{lookup, put}
use intern_notifs.Delivery.Receipt.{
  pending, retryable, error, ReceiptStatus, DeliveryReceipt, DeviceToken, Job, ExpoPushTicket,
  Published, World, key_of,
}
use intern_notifs.Delivery.Send.{log_push, send_one, is_unregistered}
use intern_notifs.Delivery.Retry.{
  store_skipped, suppressed, publish_again, retry_one, inspected_device, inspected,
  inspected_receipt, inspect_one, may_retry,
}
use intern_notifs.Delivery.Bounds.{
  times, IsCounted, Counted, IsBounded, IsBoundedBut-weaken, log_push-IsBoundedBut, times-log_push,
  put-IsBounded, put_receipt_open, choice, drop_device_open,
}
use intern_notifs.Delivery.AtMost.{send_one-IsBounded, store_retry_answer-IsBounded}

pub data Act : Type 0 where
  send : (String → Bool) → Job → DeviceToken → ℕ → Act
  retry : (String → Bool) → String → Option Job → Option DeviceToken → ℕ → Act
  inspect : String → Option ExpoPushTicket → Option DeviceToken → ℕ → Act

-- `retryableReceipts`, for one receipt
abbrev pub is_retryable : ReceiptStatus → Bool
is_retryable retryable = true
is_retryable _ = false

-- `pendingReceipts`, for one receipt: only those with a ticket
abbrev pub is_pending : DeliveryReceipt → Bool
is_pending r = elim r.status [ pending ↦ is_some r.ticket_id | _ ↦ false ]

listed :
    (b : Bool) (x y : World)
    → (b ≡ true → IsBounded x)
    → (b ≡ false → IsBounded y)
    → IsBounded (if b then x else y)
listed true x y p q = p refl
listed false x y p q = q refl

module _ (service : World → DeliveryReceipt → Published) where
  abbrev retry_listed :
      (String → Bool) → World → Option DeliveryReceipt → Option Job → Option DeviceToken → ℕ → World
  retry_listed excluded w none job device now = w
  retry_listed excluded w (some r) job device now =
      let next = (retry_one service excluded w r job device now).0 in
      if is_retryable r.status then next else w

  abbrev inspect_listed :
      World → Option DeliveryReceipt → Option ExpoPushTicket → Option DeviceToken → ℕ → World
  inspect_listed w none result device now = w
  inspect_listed w (some r) result device now =
      let next = (inspect_one w r result device now).0 in if is_pending r then next else w

  unfoldable pub act : World → Act → World
  act w (send excluded job device now) = (send_one service excluded w job device now).0
  act w (retry excluded key job device now) =
      retry_listed excluded w (lookup w.receipts key) job device now
  act w (inspect key result device now) = inspect_listed w (lookup w.receipts key) result device now

  unfoldable pub acts : World → List Act → World
  acts w [] = w
  acts w (a ∷ rest) = acts (act w a) rest

  store_skipped-IsBounded :
      (w : World) (r : DeliveryReceipt)
      → IsBounded w
      → IsCounted (key_of r) r (times (key_of r) w.pushes)
      → IsBounded (store_skipped w r).0
  unfolding store_skipped
  store_skipped-IsBounded w r v d =
      rw (put_receipt_open w r (IsBoundedBut-weaken _ w v))
        (put-IsBounded w r (IsBoundedBut-weaken _ w v) d)

  publish_again-IsBounded :
      (w : World) (r : DeliveryReceipt) (device : Option DeviceToken) (now : ℕ)
      → IsBounded w
      → IsCounted (key_of r) r (times (key_of r) w.pushes)
      → get_or r.attempts 1 ≤ 2
      → IsBounded (publish_again service w r device now).0
  unfolding publish_again
  publish_again-IsBounded w r none now v d b =
      store_skipped-IsBounded w (record r { status = error; updated_at = now }) v
        (record {
          under_key = refl;
          counted = d.counted;
          at_most = d.at_most;
          open_at_most = λ e. b;
        })
  publish_again-IsBounded w r (some device) now v d b =
      store_retry_answer-IsBounded service (log_push w r) r device (service w r) now
        (log_push-IsBoundedBut w r (IsBoundedBut-weaken _ w v))
        (rw (times-log_push w r) (ground (arith, d.counted))) b

  retry_one-IsBounded :
      (excluded : String → Bool) (w : World) (r : DeliveryReceipt) (job : Option Job)
      (device : Option DeviceToken) (now : ℕ)
      → IsBounded w
      → IsCounted (key_of r) r (times (key_of r) w.pushes)
      → is_retryable r.status ≡ true
      → IsBounded (retry_one service excluded w r job device now).0
  unfolding retry_one
  retry_one-IsBounded excluded w r job device now v d e =
      let b : get_or r.attempts 1 ≤ 2 = d.open_at_most (ground arith) in
      let given_up = record r { status = error; updated_at = now } in
      choice (excluded r.user_id) (store_skipped w (suppressed r now))
        (if may_retry (get_or r.attempts 1) job device (w.preferences r.user_id)
          then publish_again service w r device now
          else store_skipped w given_up)
        (store_skipped-IsBounded w (suppressed r now) v (record {
          under_key = refl;
          counted = d.counted;
          at_most = d.at_most;
          open_at_most = λ q. b;
        }))
        (choice (may_retry (get_or r.attempts 1) job device (w.preferences r.user_id))
          (publish_again service w r device now) (store_skipped w given_up)
          (publish_again-IsBounded w r device now v d b)
          (store_skipped-IsBounded w given_up v (record {
            under_key = refl;
            counted = d.counted;
            at_most = d.at_most;
            open_at_most = λ p. b;
          })))

  inspected_device-IsBounded :
      (w : World) (device : Option DeviceToken) (now : ℕ)
      → IsBounded w
      → IsBounded (inspected_device w device now).0
  inspected_device-IsBounded w none now v = v
  inspected_device-IsBounded w (some d) now v =
      let dropped = drop_device_open w d now v in rw (dropped.1) dropped.2

  inspect_one-IsBounded :
      (w : World) (r : DeliveryReceipt) (result : Option ExpoPushTicket)
      (device : Option DeviceToken) (now : ℕ)
      → IsBounded w
      → IsCounted (key_of r) r (times (key_of r) w.pushes)
      → IsBounded (inspect_one w r result device now).0
  unfolding inspect_one inspected inspected_receipt
  inspect_one-IsBounded w r none device now v d = v
  inspect_one-IsBounded w r (some t) device now v d =
      let stored = inspected_receipt r t now in
      let next : World = record w { receipts = put w.receipts (key_of r) stored } in
      let u : IsBounded next = put-IsBounded w stored (IsBoundedBut-weaken _ w v) (record {
        under_key = refl;
        counted = d.counted;
        at_most = d.at_most;
        open_at_most = ground arith;
      }) in
      rw (put_receipt_open w stored (IsBoundedBut-weaken _ w v)) (
        choice (t.is_ok || not (is_unregistered t)) (next, true) (inspected_device next device now)
          u (inspected_device-IsBounded next device now u))

  stored-IsCounted :
      (w : World) (key : String) (r : DeliveryReceipt)
      → IsBounded w
      → lookup w.receipts key ≡ some r
      → IsCounted (key_of r) r (times (key_of r) w.pushes)
  stored-IsCounted w key r v e =
      let c : IsCounted key r (times key w.pushes) = rw e at (v.receipts_counted key) in
      rw c.under_key c

  retry_listed-IsBounded :
      (excluded : String → Bool) (w : World) (key : String) (found : Option DeliveryReceipt)
      (job : Option Job) (device : Option DeviceToken) (now : ℕ)
      → lookup w.receipts key ≡ found
      → IsBounded w
      → IsBounded (retry_listed excluded w found job device now)
  retry_listed-IsBounded excluded w key none job device now e v = v
  retry_listed-IsBounded excluded w key (some r) job device now e v =
      listed (is_retryable r.status) _ _
        (λ p. retry_one-IsBounded excluded w r job device now v (stored-IsCounted w key r v e) p)
        (λ p. v)

  inspect_listed-IsBounded :
      (w : World) (key : String) (found : Option DeliveryReceipt) (result : Option ExpoPushTicket)
      (device : Option DeviceToken) (now : ℕ)
      → lookup w.receipts key ≡ found
      → IsBounded w
      → IsBounded (inspect_listed w found result device now)
  inspect_listed-IsBounded w key none result device now e v = v
  inspect_listed-IsBounded w key (some r) result device now e v =
      listed (is_pending r) _ _
        (λ p. inspect_one-IsBounded w r result device now v (stored-IsCounted w key r v e)) (λ p. v)

  act-IsBounded : (w : World) (a : Act) → IsBounded w → IsBounded (act w a)
  unfolding act
  act-IsBounded w (send excluded job device now) v =
      send_one-IsBounded service excluded w job device now v
  act-IsBounded w (retry excluded key job device now) v =
      retry_listed-IsBounded excluded w key _ job device now refl v
  act-IsBounded w (inspect key result device now) v =
      inspect_listed-IsBounded w key _ result device now refl v

  acts-IsBounded : (w : World) (steps : List Act) → IsBounded w → IsBounded (acts w steps)
  unfolding acts
  acts-IsBounded w [] v = v
  acts-IsBounded w (a ∷ rest) v = acts-IsBounded (act w a) rest (act-IsBounded w a v)

  pushes_bound : (found : Option DeliveryReceipt) (k : String) (n : ℕ) → Counted k found n → n ≤ 3
  pushes_bound none k n c = omega (arith, c)
  pushes_bound (some r) k n c = ground (arith, c.counted, c.at_most)

  -- While no account is being deleted, and whatever the push service answers: over any sequence of
  -- sends, retries and inspections, the message of one receipt is handed to the service at most
  -- three times, each time counted in the receipt.
  pub at_most_three_pushes :
      (w : World) (steps : List Act) (k : String)
      → IsBounded w
      → (times k (acts w steps).pushes ≤ 3)
        × Counted k (lookup (acts w steps).receipts k) (times k (acts w steps).pushes)
  at_most_three_pushes w steps k v =
      let c = (acts-IsBounded w steps v).receipts_counted k in (pushes_bound _ k _ c, c)
