-- ===== src/Health/Runs.antt =====
-- The runs that the record of a source keeps.
use intern_notifs.Base.{
  ℕ, zero, suc, ◌≡◌, refl, ap, ◌∙◌, String, Option, none, some, List, [], ◌∷◌, take, map,
}
use intern_notifs.Health.Record.{
  PollInput, SourceHealth, with_run, runs_before, max_recent_runs, successful_source_health,
  failed_source_health,
}
use intern_notifs.Health.History.{Ended, succeeded_with, failed_with, poll, later, history}

take-take : {A : Type 0} (n : ℕ) (xs : List A) → take n (take (suc n) xs) ≡ take n xs
take-take zero xs = refl
take-take (suc n) [] = refl
take-take (suc n) (x ∷ xs) = ap (λ r. x ∷ r) (take-take n xs)

map-take : {A B : Type 0} (f : A → B) (n : ℕ) (xs : List A) → map f (take n xs) ≡ take n (map f xs)
map-take f zero xs = refl
map-take f (suc n) [] = refl
map-take f (suc n) (x ∷ xs) = ap (λ r. f x ∷ r) (map-take f n xs)

-- The ids of polls, the newest first, before those of earlier polls.
abbrev pub newest_first : List String → List (PollInput × Ended) → List String
newest_first ids [] = ids
newest_first ids (p ∷ ps) = newest_first (p.0.run_id ∷ ids) ps

module _ (safe lower : List ℕ → List ℕ) where
  poll_runs :
      (before : Option SourceHealth) (p : PollInput × Ended)
      → map (λ r. r.run_id) (poll safe lower before p).recent_runs
        ≡ take max_recent_runs (p.0.run_id ∷ map (λ r. r.run_id) (runs_before before))
  unfolding poll successful_source_health failed_source_health with_run
  poll_runs before (input, succeeded_with snapshot) =
      ap (λ r. input.run_id ∷ r) (map-take (λ r. r.run_id) 24 (runs_before before))
  poll_runs before (input, failed_with error) =
      ap (λ r. input.run_id ∷ r) (map-take (λ r. r.run_id) 24 (runs_before before))

  later_runs :
      (h : SourceHealth) (ps : List (PollInput × Ended)) (ids : List String)
      → map (λ r. r.run_id) h.recent_runs ≡ take max_recent_runs ids
      → map (λ r. r.run_id) (later safe lower h ps).recent_runs
        ≡ take max_recent_runs (newest_first ids ps)
  unfolding later
  later_runs h [] ids e = e
  later_runs h (p ∷ ps) ids e = later_runs (poll safe lower (some h) p) ps (p.0.run_id ∷ ids) (
      poll_runs (some h) p
      ∙ ap (λ r. p.0.run_id ∷ take 24 r) e
      ∙ ap (λ r. p.0.run_id ∷ r) (take-take 24 ids))

  -- The record lists the runs of the last 25 polls, the newest first, and every run if there were
  -- no more polls than that.
  pub history_runs :
      (p : PollInput × Ended) (ps : List (PollInput × Ended))
      → map (λ r. r.run_id) (history safe lower p ps).recent_runs
        ≡ take 25 (newest_first [] (p ∷ ps))
  unfolding history
  history_runs p ps = later_runs (poll safe lower none p) ps (p.0.run_id ∷ []) (poll_runs none p)
