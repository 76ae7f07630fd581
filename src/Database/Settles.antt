-- ===== src/Database/Settles.antt =====
-- cloudflare/resilient-d1.ts: how the attempts at a statement end.
use mathlib.Core.Path.{subst}
use intern_notifs.Base.{
  ℕ, zero, suc, ◌+◌, ◌*◌, ◌<◌, ◌≡◌, ◌≢◌, ◌⊎◌, inl, inr, refl, Bool, true, false, ◌&&◌, ◌||◌, not,
  Option, none, some, List, [], ◌∷◌, ◌++◌, ◌==◌, if◌then◌else◌, if_splits, Result, ok, err, arith,
}
use intern_notifs.Database.Retry.{Tried, attempts_from, with_retry}

result_splits :
    {E A B : Type 0} (P : B → Type 0) (r : Result E A) (f : E → B) (g : A → B)
    → ((thrown : E) → r ≡ err thrown → P (f thrown))
    → ((value : A) → r ≡ ok value → P (g value))
    → P (elim r [ err thrown ↦ f thrown | ok value ↦ g value ])
result_splits P (err thrown) f g h k = h thrown refl
result_splits P (ok value) f g h k = k value refl

module _ {E A : Type 0} (is_retryable : E → Bool) (base_delay_ms : ℕ)
    (operation : ℕ → Result E A) where
  -- May the call be tried again?
  abbrev pub passes : ℕ → Bool
  passes k = elim (operation k) [ ok value ↦ false | err error ↦ is_retryable error ]

  abbrev pub all_passed : ℕ → Bool
  all_passed zero = true
  all_passed (suc k) = passes k && all_passed k

  -- The waits before the call of this number: once, twice, three times the base delay, and so on.
  abbrev pub waits_before : ℕ → List ℕ
  waits_before zero = []
  waits_before (suc k) = waits_before k ++ (base_delay_ms * suc k) ∷ []

  abbrev pub as_thrown : Result E A → Result (Option E) A
  as_thrown (err error) = err (some error)
  as_thrown (ok value) = ok value

  -- The attempts end with what one call answered, after calls that all could be tried again; that call
  -- could not, or it was the last.
  abbrev pub Settles : ℕ → Tried E A → Type 0
  Settles attempts tried =
      (k : ℕ) × (k < attempts)
      × (tried.result ≡ as_thrown (operation k))
      × (tried.calls ≡ suc k)
      × (tried.waits ≡ waits_before k)
      × (all_passed k ≡ true)
      × ((suc k ≡ attempts) ⊎ (passes k ≡ false))

  shifted : (left attempt : ℕ) → (suc attempt + suc left) ≡ (attempt + suc (suc left))
  shifted left attempt = omega arith

  from_zero : (n : ℕ) → (0 + suc n) ≡ suc n
  from_zero n = omega arith

  -- The call of this number ends the attempts.
  ends_here :
      (left attempt : ℕ)
      → all_passed attempt ≡ true
      → (left ≡ 0) ⊎ (passes attempt ≡ false)
      → Settles (attempt + suc left) (record {
        result = as_thrown (operation attempt);
        calls = suc attempt;
        waits = waits_before attempt;
      })
  ends_here left attempt h (inl none_left) =
      (attempt, omega arith, refl, refl, refl, h, inl (omega (arith, none_left)))
  ends_here left attempt h (inr stuck) = (attempt, omega arith, refl, refl, refl, h, inr stuck)

  after_error :
      (left attempt : ℕ) (error : E) (later : Tried E A)
      → operation attempt ≡ err error
      → all_passed attempt ≡ true
      → (left ≢ 0 → is_retryable error ≡ true → Settles (attempt + suc left) later)
      → Settles (attempt + suc left) (
          if not (is_retryable error) || (left == 0)
          then record {
            result = err (some error);
            calls = suc attempt;
            waits = waits_before attempt;
          }
          else later)
  after_error left attempt error later e h k =
      if_splits (Settles (attempt + suc left)) (not (is_retryable error) || (left == 0)) _ later
        (λ stop.
          subst
            (λ answer. Settles (attempt + suc left) (record {
              result = as_thrown answer;
              calls = suc attempt;
              waits = waits_before attempt;
            }))
            e (ends_here left attempt h (ground (arith, e, stop))))
        (λ go. k (ground (arith, go)) (ground (arith, go)))

  one_attempt :
      (left attempt : ℕ) (last_error : Option E)
      → all_passed attempt ≡ true
      → ((error : E)
          → operation attempt ≡ err error
          → left ≢ 0
          → is_retryable error ≡ true
          → Settles (attempt + suc left) (
              attempts_from is_retryable base_delay_ms operation left
                (suc attempt)
                (waits_before (suc attempt))
                (some error)))
      → Settles (attempt + suc left) (
          attempts_from is_retryable base_delay_ms operation
            (suc left)
            attempt
            (waits_before attempt)
            last_error)
  unfolding attempts_from
  one_attempt left attempt last_error h continued =
      let later : E → Tried E A = λ error.
        attempts_from is_retryable base_delay_ms operation left (suc attempt)
          (waits_before (suc attempt)) (some error) in
      result_splits (Settles (attempt + suc left)) (operation attempt)
        (λ error.
          if not (is_retryable error) || (left == 0)
          then record {
            result = err (some error);
            calls = suc attempt;
            waits = waits_before attempt;
          }
          else later error)
        (λ value. record { result = ok value; calls = suc attempt; waits = waits_before attempt })
        (λ error e. after_error left attempt error (later error) e h (continued error e))
        (λ value e.
          subst
            (λ answer. Settles (attempt + suc left) (record {
              result = as_thrown answer;
              calls = suc attempt;
              waits = waits_before attempt;
            }))
            e (ends_here left attempt h (inr (ground (arith, e)))))

  from_attempt :
      (left attempt : ℕ) (last_error : Option E)
      → all_passed attempt ≡ true
      → Settles (attempt + suc left) (
          attempts_from is_retryable base_delay_ms operation
            (suc left)
            attempt
            (waits_before attempt)
            last_error)
  from_attempt zero attempt last_error h =
      one_attempt zero attempt last_error h (λ error e some_left. elim (some_left refl) [ ])
  from_attempt (suc left) attempt last_error h =
      one_attempt (suc left) attempt last_error h (λ error e some_left r.
        subst
          (λ n. Settles n (
            attempts_from is_retryable base_delay_ms operation (suc left) (suc attempt)
              (waits_before (suc attempt)) (some error)))
          (shifted left attempt)
          (from_attempt left (suc attempt) (some error) (ground (arith, e, r, h))))

  -- Where an attempt is allowed at all, the attempts end: with what one of the calls answered, and
  -- no more calls than allowed. All calls before it failed in a way that may be tried again, each was
  -- followed by a wait that grows by the base delay, and after it there was nothing left to try.
  pub with_retry-Settles :
      (attempts : ℕ)
      → Settles (suc attempts) (with_retry is_retryable base_delay_ms operation (suc attempts))
  unfolding with_retry
  with_retry-Settles attempts =
      subst
        (λ n.
          Settles n (attempts_from is_retryable base_delay_ms operation (suc attempts) 0 [] none))
        (from_zero attempts) (from_attempt attempts 0 none refl)
