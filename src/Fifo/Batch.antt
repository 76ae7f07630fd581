-- ===== src/Fifo/Batch.antt =====
-- src/sqs-fifo-batch.ts: `processFifoBatch`. Its workers run side by side: a schedule says which of
-- them goes on at each turn, and what is left after it runs to its end. `fails` says of each record,
-- with its place in the batch, whether `processRecord` throws on it, and `number_text` writes the
-- place as text. The hook gets each record of `observed`; what it throws is dropped.
use intern_notifs.Base.{
  ℕ, zero, suc, String, Bool, Option, List, [], ◌∷◌, ◌++◌, map, min, ltb, length, any, keep, get_or,
  str_eq, if◌then◌else◌, Result, err, ok,
}
use intern_notifs.Base.Table.{lookup, put}
use intern_notifs.Base.Sets.{template}

pub record FifoQueueRecord : Type 0 where
  pub message_id : String
  pub message_group_id : Option String

-- A record with its place in the batch.
abbrev pub Placed : Type 0
Placed = ℕ × FifoQueueRecord

pub data RangeError : Type 0 where
  concurrency_not_positive : RangeError

-- What the workers share.
pub record Shared : Type 0 where
  pub pending : List (List Placed)
  pub failed_ids : List String
  pub observed : List Placed

abbrev pub placed_from : ℕ → List FifoQueueRecord → List Placed
placed_from i [] = []
placed_from i (r ∷ rest) = (i, r) ∷ placed_from (suc i) rest

abbrev pub ids : List Placed → List String
ids ps = map (λ p. p.1.message_id) ps

-- `failedIds.has(id)`
abbrev pub has : String → List String → Bool
has id known = any (λ k. str_eq k id) known

abbrev pub idle : ℕ → List (List Placed)
idle zero = []
idle (suc n) = [] ∷ idle n

module _ (number_text : ℕ → String) where
  abbrev pub group_key : Placed → String
  group_key p = get_or p.1.message_group_id (template ("__ungrouped__" ∷ number_text p.0 ∷ []))

  -- `group.push(record)`, or a new group
  abbrev pub with_record : List (String × List Placed) → Placed → List (String × List Placed)
  with_record table p = put table (group_key p) (get_or (lookup table (group_key p)) [] ++ p ∷ [])

  unfoldable pub grouped : List (String × List Placed) → List Placed → List (String × List Placed)
  grouped table [] = table
  grouped table (p ∷ ps) = grouped (with_record table p) ps

module _ (fails : Placed → Bool) where
  -- A record on which processing throws is reported with those that it blocks.
  abbrev pub record_failure : Shared → List Placed → Shared
  record_failure s blocked = record s {
    failed_ids = s.failed_ids ++ ids blocked;
    observed = s.observed ++ blocked;
  }

  -- A worker goes on: with the next record of its group, or with the next group.
  unfoldable pub advance : Shared → List Placed → Shared × List Placed
  advance s [] = elim s.pending [
    | [] ↦ (s, [])
    | group ∷ rest ↦ (record s { pending = rest }, group)
  ]
  advance s (p ∷ rest) = if fails p then (record_failure s (p ∷ rest), []) else (s, rest)

  -- The worker of this number goes on.
  unfoldable pub turn : Shared → List (List Placed) → ℕ → Shared × List (List Placed)
  turn s [] i = (s, [])
  turn s (w ∷ ws) zero = let went = advance s w in (went.0, went.1 ∷ ws)
  turn s (w ∷ ws) (suc i) = let went = turn s ws i in (went.0, w ∷ went.1)

  unfoldable pub interleave : Shared → List (List Placed) → List ℕ → Shared × List (List Placed)
  interleave s ws [] = (s, ws)
  interleave s ws (i ∷ rest) = let went = turn s ws i in interleave went.0 went.1 rest

  -- The rest of a group.
  unfoldable pub finish_group : Shared → List Placed → Shared
  finish_group s [] = s
  finish_group s (p ∷ rest) =
      let later = finish_group s rest in if fails p then record_failure s (p ∷ rest) else later

  unfoldable pub finish_groups : Shared → List (List Placed) → Shared
  finish_groups s [] = s
  finish_groups s (g ∷ gs) = finish_groups (finish_group s g) gs

  -- `Promise.all`: the groups that workers are in, then those that are pending.
  unfoldable pub finish : Shared → List (List Placed) → Shared
  finish s ws = finish_groups (record (finish_groups s ws) { pending = [] }) s.pending

module _ (number_text : ℕ → String) (fails : Placed → Bool) where
  unfoldable pub run_batch : List FifoQueueRecord → ℕ → List ℕ → Shared
  run_batch records concurrency schedule =
      let groups = map (λ entry. entry.1) (grouped number_text [] (placed_from 0 records)) in
      let start : Shared = record { pending = groups; failed_ids = []; observed = [] } in
      let went = interleave fails start (idle (min concurrency (length groups))) schedule in
      finish fails went.0 went.1

  -- `batchItemFailures`
  unfoldable pub process_fifo_batch :
      List FifoQueueRecord → ℕ → List ℕ → Result RangeError (List String)
  process_fifo_batch records concurrency schedule =
      let known = (run_batch records concurrency schedule).failed_ids in
      if ltb 0 concurrency
      then ok (map (λ r. r.message_id) (keep (λ r. has r.message_id known) records))
      else err concurrency_not_positive
