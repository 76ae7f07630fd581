-- ===== src/Fifo/Examples.antt =====
-- A batch of two groups and two workers.
use intern_notifs.Base.{
  ℕ, ◌≡◌, refl, String, Bool, some, List, [], ◌∷◌, map, keep, ltb, ok, err, ◌==◌, if◌then◌else◌,
}
use intern_notifs.Base.Table.{lookup, put}
use intern_notifs.Fifo.Batch.{
  FifoQueueRecord, Placed, concurrency_not_positive, placed_from, has, grouped, advance, turn,
  interleave, finish_group, finish_groups, finish, run_batch, process_fifo_batch,
}
use intern_notifs.Fifo.InOrder.{in_order, process_fifo_batch-in_order}

abbrev place_text : ℕ → String
place_text n = "0"

abbrev record_of : String → String → FifoQueueRecord
record_of id group = record { message_id = id; message_group_id = some group }

abbrev four_records : List FifoQueueRecord
four_records = record_of "a" "x" ∷ record_of "b" "y" ∷ record_of "c" "x" ∷ record_of "d" "y" ∷ []

-- The second record fails.
abbrev second_fails : Placed → Bool
second_fails p = p.0 == 1

process_fifo_batch-in_order_example :
    process_fifo_batch place_text second_fails four_records 2 (1 ∷ 0 ∷ 0 ∷ 1 ∷ []) ≡ (
      if ltb 0 2
      then ok (
          map
            (λ r. r.message_id)
            (keep
              (λ r.
                has r.message_id (in_order place_text second_fails [] (placed_from 0 four_records)))
              four_records))
      else err concurrency_not_positive)
process_fifo_batch-in_order_example =
    process_fifo_batch-in_order place_text second_fails four_records 2 (1 ∷ 0 ∷ 0 ∷ 1 ∷ [])

-- The failure blocks the later record of its group, and not the other group.
reported_ids :
    process_fifo_batch place_text second_fails four_records 2 (1 ∷ 0 ∷ 0 ∷ 1 ∷ [])
    ≡ ok ("b" ∷ "d" ∷ [])
unfolding process_fifo_batch run_batch grouped lookup put interleave turn advance finish
    finish_groups finish_group
reported_ids = refl
