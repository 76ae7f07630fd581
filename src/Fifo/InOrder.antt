-- ===== src/Fifo/InOrder.antt =====
-- A batch reports what its records give one after another.
use intern_notifs.Base.{
  ℕ, ◌≡◌, refl, ap, ◌∙◌, String, Bool, true, false, ◌||◌, ◌&&◌, Option, none, some, List, [], ◌∷◌,
  ◌++◌, map, arith, ltb, any, keep, get_or, str_eq, eq_iff, if◌then◌else◌, err, ok, Bool-cases, inl,
  inr,
}
use intern_notifs.Base.Table.{lookup, put, lookup-put}
use intern_notifs.Fifo.Batch.{
  FifoQueueRecord, Placed, concurrency_not_positive, placed_from, ids, has, group_key, with_record,
  grouped, run_batch, process_fifo_batch,
}
use intern_notifs.Fifo.Schedules.{any-append, blocks, run_batch-has}

ids-append :
    (id : String) (g : List Placed) (p : Placed)
    → has id (ids (g ++ p ∷ [])) ≡ (has id (ids g) || str_eq p.1.message_id id)
ids-append id [] p = ground arith
ids-append id (q ∷ g) p = ground (arith, ids-append id g p)

-- What is kept under a key that is put, for any test of the values.
any-put :
    {A : Type 0} (f : A → Bool) (table : List (String × A)) (k : String) (a : A) (x : Bool)
    → f a ≡ (elim (lookup table k) [ none ↦ false | some old ↦ f old ] || x)
    → any f (map (λ entry. entry.1) (put table k a)) ≡ (any f (map (λ entry. entry.1) table) || x)
unfolding lookup put
any-put f [] k a x h = ground arith
any-put f ((j, b) ∷ rest) k a x h = elim (Bool-cases (str_eq k j)) [
  | inl e ↦ ground arith
  | inr e ↦ ground (arith, any-put f rest k a x (ground arith))
]

module _ (number_text : ℕ → String) (fails : Placed → Bool) where
  -- The records one after another: a record is reported if it fails, or if one of its group did.
  unfoldable pub in_order : List String → List Placed → List String
  in_order stuck [] = []
  in_order stuck (p ∷ rest) =
      let k = group_key number_text p in
      let after_failure = in_order (k ∷ stuck) rest in
      let after_success = in_order stuck rest in
      if has k stuck || fails p then p.1.message_id ∷ after_failure else after_success

  blocks-append :
      (id : String) (g : List Placed) (p : Placed)
      → blocks fails id (g ++ p ∷ [])
        ≡ (blocks fails id g || ((any fails g || fails p) && str_eq p.1.message_id id))
  blocks-append id [] p = ground arith
  blocks-append id (q ∷ g) p = ground (arith, blocks-append id g p, ids-append id g p)

  -- Did a record of the group fail?
  abbrev group_failed : Option (List Placed) → Bool
  group_failed none = false
  group_failed (some g) = any fails g

  -- The stuck groups are those in which a record failed.
  abbrev Stuck : List String → List (String × List Placed) → Type 0
  Stuck stuck table = (k : String) → has k stuck ≡ group_failed (lookup table k)

  with_record-blocks :
      (id : String) (table : List (String × List Placed)) (stuck : List String) (p : Placed)
      → Stuck stuck table
      → any (blocks fails id) (map (λ entry. entry.1) (with_record number_text table p)) ≡ (
          any (blocks fails id) (map (λ entry. entry.1) table)
          || ((has (group_key number_text p) stuck || fails p) && str_eq p.1.message_id id))
  with_record-blocks id table stuck p h =
      let k = group_key number_text p in
      any-put (blocks fails id) table k _ _
        (ground (arith, h k, blocks-append id (get_or (lookup table k) []) p))

  failed-append :
      (g : List Placed) (p : Placed) → any fails (g ++ p ∷ []) ≡ (any fails g || fails p)
  failed-append g p = any-append fails g (p ∷ []) ∙ ground arith

  Stuck-failure :
      (table : List (String × List Placed)) (stuck : List String) (p : Placed)
      → Stuck stuck table
      → (has (group_key number_text p) stuck || fails p) ≡ true
      → Stuck (group_key number_text p ∷ stuck) (with_record number_text table p)
  Stuck-failure table stuck p h e k =
      let key = group_key number_text p in
      let old = get_or (lookup table key) [] in
      ground (
        arith,
        h k,
        h key,
        lookup-put table k key (old ++ p ∷ []),
        failed-append old p,
        eq_iff k key,
        eq_iff key k,
      )

  Stuck-success :
      (table : List (String × List Placed)) (stuck : List String) (p : Placed)
      → Stuck stuck table
      → (has (group_key number_text p) stuck || fails p) ≡ false
      → Stuck stuck (with_record number_text table p)
  Stuck-success table stuck p h e k =
      let key = group_key number_text p in
      let old = get_or (lookup table key) [] in
      ground (
        arith,
        h k,
        h key,
        lookup-put table k key (old ++ p ∷ []),
        failed-append old p,
        eq_iff k key,
      )

  grouped-in_order :
      (id : String) (table : List (String × List Placed)) (stuck : List String) (ps : List Placed)
      → Stuck stuck table
      → any (blocks fails id) (map (λ entry. entry.1) (grouped number_text table ps))
        ≡ (any (blocks fails id) (map (λ entry. entry.1) table) || has id (in_order stuck ps))
  unfolding grouped in_order
  grouped-in_order id table stuck [] h = ground arith
  grouped-in_order id table stuck (p ∷ rest) h =
      let k = group_key number_text p in
      let next = with_record number_text table p in
      elim (Bool-cases (has k stuck || fails p)) [
        | inl e ↦ ground (
          arith,
          grouped-in_order id next (k ∷ stuck) rest (Stuck-failure table stuck p h e),
          with_record-blocks id table stuck p h,
        )
        | inr e ↦ ground (
          arith,
          grouped-in_order id next stuck rest (Stuck-success table stuck p h e),
          with_record-blocks id table stuck p h,
        )
      ]

  keep-same :
      {A : Type 0} (p q : A → Bool) (xs : List A) → ((a : A) → p a ≡ q a) → keep p xs ≡ keep q xs
  keep-same p q [] h = refl
  keep-same p q (x ∷ xs) h = ground (arith, keep-same p q xs h, h x)

  reported :
      (id : String) (records : List FifoQueueRecord) (concurrency : ℕ) (schedule : List ℕ)
      → has id (run_batch number_text fails records concurrency schedule).failed_ids
        ≡ has id (in_order [] (placed_from 0 records))
  unfolding lookup
  reported id records concurrency schedule =
      run_batch-has number_text fails id records concurrency schedule
      ∙ grouped-in_order id [] [] (placed_from 0 records) (λ k. refl)

  -- However many workers there are and however they take turns, a batch reports exactly what its
  -- records give one after another, where a failure stops the rest of its group and nothing else; it
  -- is refused where there is to be no worker.
  pub process_fifo_batch-in_order :
      (records : List FifoQueueRecord) (concurrency : ℕ) (schedule : List ℕ)
      → process_fifo_batch number_text fails records concurrency schedule ≡ (
          if ltb 0 concurrency
          then ok (
              map
                (λ r. r.message_id)
                (keep (λ r. has r.message_id (in_order [] (placed_from 0 records))) records))
          else err concurrency_not_positive)
  unfolding process_fifo_batch
  process_fifo_batch-in_order records concurrency schedule =
      ap
        (λ kept.
          if ltb 0 concurrency
          then ok (map (λ r. r.message_id) kept)
          else err concurrency_not_positive)
        (keep-same _ _ records (λ r. reported r.message_id records concurrency schedule))
