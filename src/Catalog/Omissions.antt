-- ===== src/Catalog/Omissions.antt =====
-- src/ingestion/catalog-reconciler.ts: a job whose occurrence is closed.
use intern_notifs.Base.{ℕ, ◌≡◌, refl, Bool, false, ◌&&◌, not, List, [], ◌∷◌, map, any, arith}
use intern_notifs.Admission.Evidence.{SourceOccurrence}
use intern_notifs.Catalog.Types.{Internship, SourceOccurrenceState, Tools}
use intern_notifs.Catalog.References.{any_open, is_same_occurrence, closed_where}
use intern_notifs.Catalog.Job.{close_occurrence}

any_open-closed :
    (same : SourceOccurrence → Bool) (references : List SourceOccurrence)
    → any_open (map (closed_where same) references)
      ≡ any (λ r. r.is_open && not (same r)) references
any_open-closed same [] = refl
any_open-closed same (r ∷ rest) = ground (arith, any_open-closed same rest)

-- A job of a season that is not over stays open when an occurrence is closed exactly if it was open
-- and some reference that is not this occurrence's is open.
pub others_keep_open :
    (tools : Tools) (job : Internship) (state : SourceOccurrenceState) (now : ℕ)
    → tools.is_past_season job.season now ≡ false
    → (close_occurrence tools job state now).is_open ≡ (
        job.is_open
        && any
            (λ r.
              r.is_open
              && not (
                  is_same_occurrence state.source_id state.external_id state.occurrence.document
                    state.occurrence.row r))
            job.source_references)
unfolding close_occurrence
others_keep_open tools job state now e = rw e (
    rw
      (any_open-closed
        (is_same_occurrence state.source_id state.external_id state.occurrence.document
          state.occurrence.row)
        job.source_references)
      (ground arith))
