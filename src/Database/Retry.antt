-- ===== src/Database/Retry.antt =====
-- cloudflare/resilient-d1.ts: statements and batches that are tried again. `is_retryable` is the test
-- on the message of an error; what the database does is a function of the number of the call.
use intern_notifs.Base.{
  ℕ, zero, suc, ◌*◌, String, Bool, ◌||◌, not, Option, none, some, List, [], ◌∷◌, ◌++◌, map, ◌==◌,
  if◌then◌else◌, Result, ok, err,
}

-- What comes of the calls, how many they were, and the waits in between. An error that is missing is
-- `undefined`, thrown where no attempt is allowed.
pub record Tried (E A : Type 0) : Type 0 where
  pub result : Result (Option E) A
  pub calls : ℕ
  pub waits : List ℕ

module _ {E A : Type 0} (is_retryable : E → Bool) (base_delay_ms : ℕ)
    (operation : ℕ → Result E A) where
  unfoldable pub attempts_from : ℕ → ℕ → List ℕ → Option E → Tried E A
  attempts_from zero attempt waits last_error = record {
    result = err last_error;
    calls = attempt;
    waits = waits;
  }
  attempts_from (suc left) attempt waits last_error = elim (operation attempt) [
    | ok value ↦ record { result = ok value; calls = suc attempt; waits = waits }
    | err error ↦
        let later =
          attempts_from left (suc attempt) (waits ++ (base_delay_ms * suc attempt) ∷ [])
            (some error) in
        if not (is_retryable error) || (left == 0)
        then record { result = err (some error); calls = suc attempt; waits = waits }
        else later
  ]

  unfoldable pub with_retry : ℕ → Tried E A
  unfolding attempts_from
  with_retry attempts = attempts_from attempts 0 [] none

-- What a database does: `execute` is `first`, `all` and `run` by name, in the call of that number.
pub record Database (P V E A B : Type 0) : Type 0 where
  pub prepare_raw : ℕ → String → P
  pub bind_raw : P → List V → P
  pub execute_raw : String → ℕ → P → Result E A
  pub batch_raw : ℕ → List P → Result E B

-- A statement as it is built for a call, or one that did not come from the wrapper.
pub data Statement (P : Type 0) : Type 0 where
  built : (ℕ → P) → Statement P
  raw : P → Statement P

abbrev pub rebuild : {P : Type 0} → Statement P → ℕ → P
rebuild (built build) k = build k
rebuild (raw statement) k = statement

module _ {P V E A B : Type 0} (is_retryable : E → Bool) (attempts base_delay_ms : ℕ)
    (db : Database P V E A B) where
  abbrev pub prepare_statement : String → Statement P
  prepare_statement query = built (λ k. db.prepare_raw k query)

  abbrev pub bind_statement : Statement P → List V → Statement P
  bind_statement statement values = built (λ k. db.bind_raw (rebuild statement k) values)

  unfoldable pub execute : String → Statement P → Tried E A
  unfolding with_retry
  execute method statement =
      with_retry is_retryable base_delay_ms (λ k. db.execute_raw method k (rebuild statement k))
        attempts

  unfoldable pub batch : List (Statement P) → Tried E B
  unfolding with_retry
  batch statements =
      with_retry is_retryable base_delay_ms
        (λ k. db.batch_raw k (map (λ statement. rebuild statement k) statements)) attempts
