-- ===== src/Trust/Streak.antt =====
-- src/sources/trust-policy.ts: what the assessments of a posting, one after another, come to.
use mathlib.Core.Path.{subst}
use mathlib.Core.Bool.{true≢false}
use intern_notifs.Base.{
  ℕ, zero, suc, String, ◌≡◌, refl, sym, ap, Bool, true, false, ◌&&◌, Option, none, some, List, [],
  ◌∷◌, any, is_some, if◌then◌else◌, if_splits, str_eq, eq_iff, ==_iff, ◌==◌, arith,
}
use intern_notifs.Admission.Evidence.{AlertQualification}
use intern_notifs.Trust.Qualification.{
  Assessment, same_number, continues, count_after, candidate_of, resets, count_before, last_before,
  count_now, advance_trusted_community_qualification,
}

abbrev pub number_before : ℕ → Option ℕ
number_before zero = none
number_before (suc n) = some n

module _ (canonical : String → Option String) (trim : String → String) where
  -- The qualification after assessments, the newest first.
  unfoldable pub qualified : List Assessment → Option AlertQualification
  unfolding advance_trusted_community_qualification
  qualified [] = none
  qualified (input ∷ older) =
      some (advance_trusted_community_qualification canonical trim (qualified older) input)

  -- Was the candidate assessed in the complete snapshot of this number?
  abbrev pub assessed : ℕ → String → List Assessment → Bool
  assessed n key inputs =
      any
        (λ e.
          same_number e.complete_fetch_sequence (some n)
          && str_eq (candidate_of canonical trim e) key)
        inputs

  -- Was it in as many successive snapshots, of which the last is given?
  abbrev pub assessed_in_row : ℕ → Option ℕ → String → List Assessment → Bool
  assessed_in_row zero last key inputs = true
  assessed_in_row (suc n) none key inputs = false
  assessed_in_row (suc n) (some s) key inputs =
      assessed s key inputs && assessed_in_row n (number_before s) key inputs

  row_with_more :
      (n : ℕ) (last : Option ℕ) (key : String) (input : Assessment) (older : List Assessment)
      → assessed_in_row n last key older ≡ true
      → assessed_in_row n last key (input ∷ older) ≡ true
  row_with_more zero last key input older h = refl
  row_with_more (suc n) none key input older h = h
  row_with_more (suc n) (some s) key input older h =
      ground (arith, row_with_more n (number_before s) key input older)

  newest_assessed :
      (s : ℕ) (input : Assessment) (older : List Assessment)
      → input.complete_fetch_sequence ≡ some s
      → assessed s (candidate_of canonical trim input) (input ∷ older) ≡ true
  newest_assessed s input older e =
      ground
        (arith, e, eq_iff (candidate_of canonical trim input) (candidate_of canonical trim input))

  abbrev InRow : Assessment → List Assessment → ℕ × Option ℕ → Type 0
  InRow input older c =
      assessed_in_row c.0 c.1 (candidate_of canonical trim input) (input ∷ older) ≡ true

  one_more :
      (before : ℕ) (last sequence : Option ℕ) (input : Assessment) (older : List Assessment)
      → input.complete_fetch_sequence ≡ sequence
      → is_some sequence ≡ true
      → InRow input older (before, last)
      → InRow input older (if continues last sequence then suc before else 1, sequence)
  one_more before last none input older e some_one h = elim (true≢false (sym some_one)) [ ]
  one_more before none (some s) input older e some_one h =
      ground (arith, newest_assessed s input older e)
  one_more before (some l) (some s) input older e some_one h =
      if_splits
        (λ n. assessed_in_row n (some s) (candidate_of canonical trim input) (input ∷ older) ≡ true)
        (s == suc l) (suc before) 1
        (λ next.
          rw (ap number_before ((==_iff s (suc l)).0 next))
            (ground (arith, newest_assessed s input older e, h)))
        (λ apart. ground (arith, newest_assessed s input older e))

  same_candidate :
      (p : AlertQualification) (input : Assessment)
      → resets canonical trim p input ≡ false
      → p.candidate_key ≡ candidate_of canonical trim input
  same_candidate p input e =
      (eq_iff p.candidate_key (candidate_of canonical trim input)).0 (ground (arith, e))

  count_after-InRow :
      (countable : Bool) (before : ℕ) (last : Option ℕ) (input : Assessment)
      (older : List Assessment)
      → (countable ≡ true → is_some input.complete_fetch_sequence ≡ true)
      → InRow input older (before, last)
      → InRow input older (count_after countable before last input.complete_fetch_sequence)
  count_after-InRow countable before last input older known h =
      if_splits (InRow input older) countable
        (
          if continues last input.complete_fetch_sequence then suc before else 1,
          input.complete_fetch_sequence,
        )
        (before, last)
        (λ e. one_more before last input.complete_fetch_sequence input older refl (known e) h)
        (λ e. h)

  unless_reset :
      (reset : Bool) (count : ℕ) (last : Option ℕ) (input : Assessment) (older : List Assessment)
      → (reset ≡ false → InRow input older (count, last))
      → InRow input older (if reset then 0 else count, if reset then none else last)
  unless_reset true count last input older h = refl
  unless_reset false count last input older h = h refl

  -- The count of a qualification is borne out by what was assessed.
  abbrev pub Supported : Option AlertQualification → List Assessment → Type 0
  Supported none inputs = Unit
  Supported (some q) inputs =
      assessed_in_row q.consecutive_complete_snapshots q.last_counted_sequence q.candidate_key
        inputs
      ≡ true

  count_now-InRow :
      (previous : Option AlertQualification) (input : Assessment) (older : List Assessment)
      → Supported previous older
      → InRow input older (count_now canonical trim previous input)
  count_now-InRow none input older h =
      count_after-InRow _ 0 none input older (λ e. ground (arith, e)) refl
  count_now-InRow (some p) input older h =
      count_after-InRow _ (count_before canonical trim (some p) input)
        (last_before canonical trim (some p) input) input older (λ e. ground (arith, e))
        (unless_reset (resets canonical trim p input) p.consecutive_complete_snapshots
          p.last_counted_sequence input older
          (λ e.
            subst
              (λ key.
                assessed_in_row p.consecutive_complete_snapshots p.last_counted_sequence key
                  (input ∷ older)
                ≡ true)
              (same_candidate p input e)
              (row_with_more p.consecutive_complete_snapshots p.last_counted_sequence
                p.candidate_key input older h)))

  -- The count stands for that many successive complete snapshots with this very candidate, the last
  -- of which is the one that is recorded.
  pub qualified-Supported : (inputs : List Assessment) → Supported (qualified inputs) inputs
  unfolding qualified advance_trusted_community_qualification
  qualified-Supported [] = tt
  qualified-Supported (input ∷ older) =
      count_now-InRow (qualified older) input older (qualified-Supported older)
