-- ===== src/Trust/Alerts.antt =====
-- src/sources/trust-policy.ts, src/ingestion/catalog-reconciler.ts: which postings of a community
-- source raise alerts.
use mathlib.Core.Bool.{true≢false}
use intern_notifs.Base.{
  ℕ, ◌≤◌, zero, suc, String, ◌≡◌, ◌≢◌, ◌⊎◌, inl, inr, sym, true, false, Option, none, some, List,
  [], ◌∷◌, any, is_some, get_or, ltb, eq_iff, arith, Bool-cases,
}
use intern_notifs.Admission.Evidence.{AlertMode, QualificationStatus, AlertQualification}
use intern_notifs.Catalog.Types.{ProcessedListing, Internship, Tools}
use intern_notifs.Catalog.Plan.{ReconciliationInput, should_promote_delayed_notification}
use intern_notifs.Catalog.Listing.{delayed_promotion}
use intern_notifs.Trust.Qualification.{
  Assessment, posting_specific_destination, is_exact_identity, candidate_of, validated_key,
  changed_key, resets, count_now, advance_trusted_community_qualification,
}
use intern_notifs.Trust.Streak.{qualified, qualified-Supported, assessed, assessed_in_row}

module _ (canonical : String → Option String) (trim : String → String) where
  -- Was the candidate assessed in two successive complete snapshots?
  abbrev pub TwoSnapshots : String → List Assessment → Type 0
  TwoSnapshots key inputs =
      (s : ℕ) × (assessed canonical trim s key inputs ≡ true)
      × (assessed canonical trim (suc s) key inputs ≡ true)

  two_of_row :
      (n : ℕ) (last : Option ℕ) (key : String) (inputs : List Assessment)
      → ltb 1 n ≡ true
      → assessed_in_row canonical trim n last key inputs ≡ true
      → TwoSnapshots key inputs
  two_of_row zero last key inputs h k = elim (true≢false (ground arith)) [ ]
  two_of_row (suc zero) last key inputs h k = elim (true≢false (ground arith)) [ ]
  two_of_row (suc (suc n)) none key inputs h k = elim (true≢false (sym k)) [ ]
  two_of_row (suc (suc n)) (some zero) key inputs h k = elim (true≢false (ground arith)) [ ]
  two_of_row (suc (suc n)) (some (suc s)) key inputs h k = (s, ground arith, ground arith)

  -- An eligible posting is one whose source may alert, whose destination was just validated as that of
  -- one posting, and whose identity is confirmed or whose candidate was in two successive complete
  -- snapshots.
  pub eligible_means :
      (input : Assessment) (older : List Assessment)
      → (advance_trusted_community_qualification canonical trim
          (qualified canonical trim older)
          input).status
        ≡ QualificationStatus.eligible
      → (input.alert_mode ≢ AlertMode.disabled)
        × (posting_specific_destination input.destination ≡ true)
        × ((is_exact_identity input.identity_decision ≡ true)
            ⊎ TwoSnapshots (candidate_of canonical trim input) (input ∷ older))
  unfolding advance_trusted_community_qualification qualified
  eligible_means input older h =
      let now = count_now canonical trim (qualified canonical trim older) input in
      (
        (λ e. ground (arith, e)),
        ground arith,
        elim (Bool-cases (is_exact_identity input.identity_decision)) [
          | inl e ↦ inl e
          | inr e ↦ inr (
              two_of_row now.0 now.1 (candidate_of canonical trim input) (input ∷ older)
                (ground (arith, e, h)) (qualified-Supported canonical trim (input ∷ older)))
        ],
      )

  suppressed_as_any :
      (input : Assessment) (older : List Assessment)
      → (advance_trusted_community_qualification canonical trim
          (qualified canonical trim older)
          input).baseline_suppressed
        ≡ any (λ e. get_or e.suppress_baseline false) (input ∷ older)
  unfolding advance_trusted_community_qualification qualified
  suppressed_as_any input [] = ground arith
  suppressed_as_any input (before ∷ older) = ground (arith, suppressed_as_any before older)

  -- A posting that was suppressed as a baseline in some assessment is never promoted to an alert later,
  -- whatever the assessments after it, the job and the snapshot are.
  pub suppressed_never_promoted :
      (tools : Tools) (run : ReconciliationInput) (external_id : String)
      (listing : ProcessedListing) (job : Internship) (inputs : List Assessment)
      → listing.reference.alert_qualification ≡ qualified canonical trim inputs
      → any (λ e. get_or e.suppress_baseline false) inputs ≡ true
      → delayed_promotion tools run external_id listing job ≡ false
  unfolding delayed_promotion should_promote_delayed_notification qualified
  suppressed_never_promoted tools run external_id listing job [] e h = elim (true≢false (sym h)) [ ]
  suppressed_never_promoted tools run external_id listing job (input ∷ older) e h =
      rw e (ground (arith, suppressed_as_any input older, h))

  -- What the count of a qualification says while no assessment had a confirmed identity.
  abbrev Counted : Option AlertQualification → Type 0
  Counted none = Unit
  Counted (some q) =
      (is_some q.basis ≡ ltb 1 q.consecutive_complete_snapshots)
      × (is_some q.last_counted_sequence ≡ true → 1 ≤ q.consecutive_complete_snapshots)

  advance-Counted :
      (previous : Option AlertQualification) (input : Assessment)
      → Counted previous
      → is_exact_identity input.identity_decision ≡ false
      → Counted (some (advance_trusted_community_qualification canonical trim previous input))
  unfolding advance_trusted_community_qualification
  advance-Counted none input c e = (ground arith, ground arith)
  advance-Counted (some q) input c e = (ground arith, ground (arith, c.1))

  qualified-Counted :
      (inputs : List Assessment)
      → any (λ input. is_exact_identity input.identity_decision) inputs ≡ false
      → Counted (qualified canonical trim inputs)
  unfolding qualified
  qualified-Counted [] e = tt
  qualified-Counted (input ∷ older) e =
      advance-Counted (qualified canonical trim older) input
        (qualified-Counted older (ground arith)) (ground arith)

  -- After a complete snapshot the count is two already, or it is one or more up to that snapshot.
  advance_counts :
      (previous : Option AlertQualification) (input : Assessment) (n : ℕ)
      → Counted previous
      → input.complete_fetch_sequence ≡ some n
      → let after = count_now canonical trim previous input in
        (2 ≤ after.0) ⊎ ((1 ≤ after.0) × (after.1 ≡ some n))
  advance_counts none input n c e = ground arith
  advance_counts (some q) input n c e = ground (arith, c.0, c.1)

  -- A posting whose two snapshots are counted stays eligible.
  many_qualify :
      (q : AlertQualification) (second : Assessment)
      → resets canonical trim q second ≡ false
      → is_some (validated_key canonical trim second.destination) ≡ true
      → second.alert_mode ≡ AlertMode.exact_identity_or_two_complete_snapshots
      → is_some q.basis ≡ ltb 1 q.consecutive_complete_snapshots
      → 2 ≤ q.consecutive_complete_snapshots
      → (advance_trusted_community_qualification canonical trim (some q) second).status
        ≡ QualificationStatus.eligible
  unfolding advance_trusted_community_qualification
  many_qualify q second r v m b k = ground (arith, r, v, m, b, k)

  -- One whose count goes up to the snapshot before is eligible by the next.
  next_qualifies :
      (q : AlertQualification) (second : Assessment) (n : ℕ)
      → second.complete_fetch_sequence ≡ some (suc n)
      → resets canonical trim q second ≡ false
      → is_some (validated_key canonical trim second.destination) ≡ true
      → second.alert_mode ≡ AlertMode.exact_identity_or_two_complete_snapshots
      → is_some q.basis ≡ ltb 1 q.consecutive_complete_snapshots
      → 1 ≤ q.consecutive_complete_snapshots
      → q.last_counted_sequence ≡ some n
      → (advance_trusted_community_qualification canonical trim (some q) second).status
        ≡ QualificationStatus.eligible
  unfolding advance_trusted_community_qualification
  next_qualifies q second n a r v m b k l = ground (arith, a, r, v, m, b, k, l)

  resets_not :
      (previous : Option AlertQualification) (first second : Assessment)
      → candidate_of canonical trim first ≡ candidate_of canonical trim second
      → changed_key
          (validated_key canonical trim first.destination)
          (validated_key canonical trim second.destination)
        ≡ false
      → resets canonical trim
          (advance_trusted_community_qualification canonical trim previous first)
          second
        ≡ false
  unfolding advance_trusted_community_qualification
  resets_not previous first second c d =
      ground (
        arith,
        c,
        d,
        eq_iff (candidate_of canonical trim first) (candidate_of canonical trim second),
      )

  -- Two successive complete snapshots with the same candidate and the same validated destination make
  -- a posting eligible where its source may alert, whatever was assessed before, if no identity was
  -- confirmed up to the first of the two.
  pub two_snapshots_qualify :
      (n : ℕ) (first second : Assessment) (older : List Assessment)
      → first.complete_fetch_sequence ≡ some n
      → second.complete_fetch_sequence ≡ some (suc n)
      → candidate_of canonical trim first ≡ candidate_of canonical trim second
      → changed_key
          (validated_key canonical trim first.destination)
          (validated_key canonical trim second.destination)
        ≡ false
      → is_some (validated_key canonical trim second.destination) ≡ true
      → any (λ input. is_exact_identity input.identity_decision) (first ∷ older) ≡ false
      → second.alert_mode ≡ AlertMode.exact_identity_or_two_complete_snapshots
      → (advance_trusted_community_qualification canonical trim
          (qualified canonical trim (first ∷ older))
          second).status
        ≡ QualificationStatus.eligible
  unfolding advance_trusted_community_qualification qualified
  two_snapshots_qualify n first second older a b c d e f g =
      let before = qualified canonical trim older in
      let q = advance_trusted_community_qualification canonical trim before first in
      let counted = qualified-Counted (first ∷ older) f in
      let kept = resets_not before first second c d in
      elim (advance_counts before first n (qualified-Counted older (ground arith)) a) [
        | inl many ↦ many_qualify q second kept e g counted.0 many
        | inr one ↦ next_qualifies q second n b kept e g counted.0 one.0 one.1
      ]
