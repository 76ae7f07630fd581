-- ===== src/Fifo/Schedules.antt =====
-- What a batch reports does not depend on how its workers take turns.
use intern_notifs.Base.{
  ℕ, zero, suc, ◌≡◌, refl, ◌∙◌, String, Bool, ◌||◌, List, [], ◌∷◌, ◌++◌, map, min, arith, length,
  any, str_eq, if◌then◌else◌,
}
use intern_notifs.Fifo.Batch.{
  FifoQueueRecord, Placed, Shared, placed_from, ids, has, idle, grouped, advance, turn, interleave,
  finish_group, finish_groups, finish, run_batch,
}

pub any-append :
    {A : Type 0} (p : A → Bool) (xs ys : List A) → any p (xs ++ ys) ≡ (any p xs || any p ys)
any-append p [] ys = refl
any-append p (x ∷ xs) ys = ground (arith, any-append p xs ys)

module _ (fails : Placed → Bool) where
  -- The ids that the rest of a group still adds.
  abbrev pub blocked_ids : List Placed → List String
  blocked_ids [] = []
  blocked_ids (p ∷ rest) = let later = blocked_ids rest in if fails p then ids (p ∷ rest) else later

  abbrev pub blocks : String → List Placed → Bool
  blocks id group = has id (blocked_ids group)

  -- Is the id reported, or will it be?
  abbrev told : String → Shared → List (List Placed) → Bool
  told id s ws = has id s.failed_ids || any (blocks id) s.pending || any (blocks id) ws

  advance-told :
      (id : String) (s : Shared) (w : List Placed) (ws : List (List Placed))
      → told id (advance fails s w).0 ((advance fails s w).1 ∷ ws) ≡ told id s (w ∷ ws)
  unfolding advance
  advance-told id s [] ws = ground arith
  advance-told id s (p ∷ rest) ws =
      ground (arith, any-append (λ k. str_eq k id) s.failed_ids (ids (p ∷ rest)))

  turn-told :
      (id : String) (s : Shared) (ws : List (List Placed)) (i : ℕ)
      → told id (turn fails s ws i).0 (turn fails s ws i).1 ≡ told id s ws
  unfolding turn
  turn-told id s [] i = refl
  turn-told id s (w ∷ ws) zero = advance-told id s w ws
  turn-told id s (w ∷ ws) (suc i) = ground (arith, turn-told id s ws i)

  interleave-told :
      (id : String) (s : Shared) (ws : List (List Placed)) (schedule : List ℕ)
      → told id (interleave fails s ws schedule).0 (interleave fails s ws schedule).1 ≡ told id s ws
  unfolding interleave
  interleave-told id s ws [] = refl
  interleave-told id s ws (i ∷ rest) =
      interleave-told id (turn fails s ws i).0 (turn fails s ws i).1 rest ∙ turn-told id s ws i

  finish_group-has :
      (id : String) (s : Shared) (g : List Placed)
      → has id (finish_group fails s g).failed_ids ≡ (has id s.failed_ids || blocks id g)
  unfolding finish_group
  finish_group-has id s [] = ground arith
  finish_group-has id s (p ∷ rest) = ground (
    arith,
    finish_group-has id s rest,
    any-append (λ k. str_eq k id) s.failed_ids (ids (p ∷ rest)),
  )

  finish_groups-has :
      (id : String) (s : Shared) (gs : List (List Placed))
      → has id (finish_groups fails s gs).failed_ids ≡ (has id s.failed_ids || any (blocks id) gs)
  unfolding finish_groups
  finish_groups-has id s [] = ground arith
  finish_groups-has id s (g ∷ gs) =
      ground (arith, finish_groups-has id (finish_group fails s g) gs, finish_group-has id s g)

  finish-has :
      (id : String) (s : Shared) (ws : List (List Placed))
      → has id (finish fails s ws).failed_ids ≡ told id s ws
  unfolding finish
  finish-has id s ws = ground (
    arith,
    finish_groups-has id (record (finish_groups fails s ws) { pending = [] }) s.pending,
    finish_groups-has id s ws,
  )

  idle-told :
      (id : String) (s : Shared) (n : ℕ)
      → told id s (idle n) ≡ (has id s.failed_ids || any (blocks id) s.pending)
  idle-told id s zero = ground arith
  idle-told id s (suc n) = idle-told id s n

module _ (number_text : ℕ → String) (fails : Placed → Bool) where
  -- Whatever the schedule, a batch reports what its groups block.
  pub run_batch-has :
      (id : String) (records : List FifoQueueRecord) (concurrency : ℕ) (schedule : List ℕ)
      → has id (run_batch number_text fails records concurrency schedule).failed_ids
        ≡ any
            (blocks fails id)
            (map (λ entry. entry.1) (grouped number_text [] (placed_from 0 records)))
  unfolding run_batch
  run_batch-has id records concurrency schedule =
      let groups = map (λ entry. entry.1) (grouped number_text [] (placed_from 0 records)) in
      let start : Shared = record { pending = groups; failed_ids = []; observed = [] } in
      let workers = idle (min concurrency (length groups)) in
      let went = interleave fails start workers schedule in
      finish-has fails id went.0 went.1
      ∙ (interleave-told fails id start workers schedule
          ∙ idle-told fails id start (min concurrency (length groups)))
