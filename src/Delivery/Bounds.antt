-- ===== src/Delivery/Bounds.antt =====
-- How often a message is handed to the push service.
use intern_notifs.Base.{
  ℕ, suc, ◌≤◌, ◌≡◌, refl, String, Bool, true, false, ◌&&◌, Option, none, some, List, [], ◌∷◌, arith,
  get_or, str_eq, eq_iff, if◌then◌else◌,
}
use intern_notifs.Base.Table.{lookup, put, lookup-put}
use intern_notifs.Delivery.Receipt.{
  retryable, error, definitive_failure, ReceiptStatus, DeliveryState, DeliveryReceipt, DeviceToken,
  ExpoPushTicket, Published, ticketed, http_error, other_error, World, key_of, device_key,
  put_receipt, put_device, Step,
}
use intern_notifs.Delivery.Send.{
  log_push, store_failure, ticket_stored, device_dropped, store_answer, has_id, is_unregistered,
  ticket_receipt, http_receipt, ambiguous_receipt, drop_device,
}

-- How often the key is in the log.
abbrev pub times : String → List String → ℕ
times k [] = 0
times k (j ∷ js) = let n = times k js in if str_eq k j then suc n else n

-- May a later run try the receipt again?
abbrev pub may_reopen : ReceiptStatus → Option DeliveryState → Bool
may_reopen retryable state = true
may_reopen error (some definitive_failure) = false
may_reopen error state = true
may_reopen _ state = false

-- What is stored under a key, against the number of times that its message was handed over: each
-- time is counted in the receipt, there are at most three, and a further try is open to a receipt
-- with at most two.
pub record IsCounted (k : String) (r : DeliveryReceipt) (n : ℕ) : Type 0 where
  pub under_key : key_of r ≡ k
  pub counted : n ≤ get_or r.attempts 0
  pub at_most : get_or r.attempts 1 ≤ 3
  pub open_at_most : may_reopen r.status r.delivery_state ≡ true → get_or r.attempts 1 ≤ 2

abbrev pub Counted : String → Option DeliveryReceipt → ℕ → Type 0
Counted k none n = n ≡ 0
Counted k (some r) n = IsCounted k r n

pub record IsBounded (w : World) : Type 0 where
  pub receipts_counted : (k : String) → Counted k (lookup w.receipts k) (times k w.pushes)
  pub nobody_leaves : (user : String) → w.deletion_pending user ≡ false

-- The same of every key but the one that is being worked on.
pub record IsBoundedBut (key : String) (w : World) : Type 0 where
  pub others_counted :
      (k : String) → str_eq k key ≡ false → Counted k (lookup w.receipts k) (times k w.pushes)
  pub nobody_goes : (user : String) → w.deletion_pending user ≡ false

pub IsBoundedBut-weaken : (key : String) (w : World) → IsBounded w → IsBoundedBut key w
IsBoundedBut-weaken key w v = record {
  others_counted = λ k p. v.receipts_counted k;
  nobody_goes = v.nobody_leaves;
}

Counted-put :
    (w : World) (r : DeliveryReceipt) (k : String) (b : Bool)
    → str_eq k (key_of r) ≡ b
    → IsBoundedBut (key_of r) w
    → IsCounted (key_of r) r (times (key_of r) w.pushes)
    → Counted k (if b then some r else lookup w.receipts k) (times k w.pushes)
Counted-put w r k true e v d = rw ((eq_iff k (key_of r)).0 e) d
Counted-put w r k false e v d = v.others_counted k e

-- Storing a receipt whose pushes are counted completes the counts.
pub put-IsBounded :
    (w : World) (r : DeliveryReceipt)
    → IsBoundedBut (key_of r) w
    → IsCounted (key_of r) r (times (key_of r) w.pushes)
    → IsBounded (record w { receipts = put w.receipts (key_of r) r })
put-IsBounded w r v d = record {
  receipts_counted = λ k.
      rw (lookup-put w.receipts k (key_of r) r) (Counted-put w r k (str_eq k (key_of r)) refl v d);
  nobody_leaves = v.nobody_goes;
}

-- A message that is handed over concerns the key of its receipt alone.
pub log_push-IsBoundedBut :
    (w : World) (r : DeliveryReceipt)
    → IsBoundedBut (key_of r) w
    → IsBoundedBut (key_of r) (log_push w r)
log_push-IsBoundedBut w r v = record {
  others_counted = λ k p. rw p (v.others_counted k p);
  nobody_goes = v.nobody_goes;
}

pub times-log_push :
    (w : World) (r : DeliveryReceipt)
    → times (key_of r) (log_push w r).pushes ≡ suc (times (key_of r) w.pushes)
times-log_push w r = rw ((eq_iff (key_of r) (key_of r)).1 refl)

pub put_receipt_open :
    (w : World) (r : DeliveryReceipt)
    → IsBoundedBut (key_of r) w
    → put_receipt w r ≡ some (record w { receipts = put w.receipts (key_of r) r })
unfolding put_receipt
put_receipt_open w r v = rw (v.nobody_goes r.user_id)

pub drop_device_open :
    (w : World) (device : DeviceToken) (now : ℕ)
    → IsBounded w
    → (next : World) × (drop_device w device now ≡ some next)
      × IsBounded next
      × (next.receipts ≡ w.receipts)
      × (next.pushes ≡ w.pushes)
unfolding drop_device put_device
drop_device_open w device now v =
    let dropped = record device { active = false; device_updated_at = now } in
    let next : World = record w { devices = put w.devices (device_key device) dropped } in
    (
      next,
      rw (v.nobody_leaves device.owner) refl,
      record { receipts_counted = v.receipts_counted; nobody_leaves = v.nobody_leaves },
      refl,
      refl,
    )

pub store_failure-IsBounded :
    (w : World) (r : DeliveryReceipt)
    → IsBoundedBut (key_of r) w
    → IsCounted (key_of r) r (times (key_of r) w.pushes)
    → IsBounded (store_failure w r).0
unfolding store_failure
store_failure-IsBounded w r v d = rw (put_receipt_open w r v) (put-IsBounded w r v d)

ticket-IsCounted :
    (r : DeliveryReceipt) (t : ExpoPushTicket) (now n : ℕ)
    → n ≤ get_or r.attempts 0
    → get_or r.attempts 1 ≤ 3
    → IsCounted (key_of r) (ticket_receipt r t now) n
unfolding ticket_receipt
ticket-IsCounted r t now n a b = record {
  under_key = refl;
  counted = a;
  at_most = b;
  open_at_most = ground arith;
}

pub choice :
    {B : Type 0} (b : Bool) (x y : World × B)
    → IsBounded x.0
    → IsBounded y.0
    → IsBounded (if b then x else y).0
choice true x y p q = p
choice false x y p q = q

pub choice_by :
    (b : Bool) (x y : World × Step)
    → (b ≡ true → IsBounded x.0)
    → (b ≡ false → IsBounded y.0)
    → IsBounded (if b then x else y).0
choice_by true x y p q = p refl
choice_by false x y p q = q refl

pub ambiguous-IsCounted :
    (r : DeliveryReceipt) (message : List ℕ) (now n : ℕ)
    → n ≤ get_or r.attempts 0
    → get_or r.attempts 1 ≤ 3
    → IsCounted (key_of r) (ambiguous_receipt r message now) n
unfolding ambiguous_receipt
ambiguous-IsCounted r message now n a b = record {
  under_key = refl;
  counted = a;
  at_most = b;
  open_at_most = ground arith;
}

pub http-IsCounted :
    (r : DeliveryReceipt) (attempt status : ℕ) (message : List ℕ) (now n : ℕ)
    → get_or r.attempts 1 ≡ attempt
    → n ≤ get_or r.attempts 0
    → attempt ≤ 3
    → IsCounted (key_of r) (http_receipt r attempt status message now) n
unfolding http_receipt
http-IsCounted r attempt status message now n e a b = record {
  under_key = refl;
  counted = a;
  at_most = omega (arith, e, b);
  open_at_most = ground arith;
}

pub ticket_stored-IsBounded :
    (w : World) (r : DeliveryReceipt) (device : DeviceToken) (t : ExpoPushTicket) (now : ℕ)
    (stored : DeliveryReceipt)
    → IsBoundedBut (key_of stored) w
    → IsCounted (key_of stored) stored (times (key_of stored) w.pushes)
    → IsBounded (ticket_stored w r device t now (put_receipt w stored)).0
unfolding ticket_stored device_dropped
ticket_stored-IsBounded w r device t now stored v d =
    let next : World = record w { receipts = put w.receipts (key_of stored) stored } in
    let u : IsBounded next = put-IsBounded w stored v d in
    let dropped = drop_device_open next device now u in
    rw (put_receipt_open w stored v) (
      rw (dropped.1)
        (choice (t.is_ok && has_id t) _ _ u (choice (is_unregistered t) _ _ dropped.2 u)))

pub store_answer-IsBounded :
    (w : World) (r : DeliveryReceipt) (device : DeviceToken) (p : Published) (now : ℕ)
    → IsBoundedBut (key_of r) w
    → times (key_of r) w.pushes ≤ get_or r.attempts 0
    → get_or r.attempts 1 ≤ 3
    → IsBounded (store_answer w r device p now).0
unfolding store_answer ticket_receipt http_receipt ambiguous_receipt
store_answer-IsBounded w r device (ticketed t) now v a b =
    ticket_stored-IsBounded w r device t now (ticket_receipt r t now) v
      (ticket-IsCounted r t now _ a b)
store_answer-IsBounded w r device (http_error status message) now v a b =
    store_failure-IsBounded w _ v (http-IsCounted r _ status message now _ refl a b)
store_answer-IsBounded w r device (other_error message) now v a b =
    store_failure-IsBounded w _ v (ambiguous-IsCounted r message now _ a b)
