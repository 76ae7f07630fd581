-- ===== src/Database/Examples.antt =====
-- The theorem on attempts, at a database that is reset twice.
use intern_notifs.Base.{
  ℕ, ◌≡◌, refl, String, Bool, [], ◌∷◌, str_eq, Result, ok, err, ltb, if◌then◌else◌,
}
use intern_notifs.Database.Retry.{
  Database, with_retry, attempts_from, prepare_statement, bind_statement, execute,
}
use intern_notifs.Database.Settles.{Settles, with_retry-Settles}

abbrev is_reset : String → Bool
is_reset message = str_eq message "D1 DB reset"

abbrev reset_twice : ℕ → Result String ℕ
reset_twice k = if ltb k 2 then err "D1 DB reset" else ok k

with_retry-Settles_example :
    Settles is_reset 50 reset_twice 3 (with_retry is_reset 50 reset_twice 3)
with_retry-Settles_example = with_retry-Settles is_reset 50 reset_twice 2

-- The rows are those of the instance that the third call was prepared on.
abbrev rotating : Database String String String String String
rotating = record {
  prepare_raw = λ k query. if ltb k 2 then "stale" else query;
  bind_raw = λ statement values. statement;
  execute_raw =
      λ method k statement. if str_eq statement "stale" then err "D1 DB reset" else ok statement;
  batch_raw = λ k statements. ok "";
}

third_call_answers :
    execute is_reset 3 50 rotating "all" (
      bind_statement is_reset 3 50 rotating
        (prepare_statement is_reset 3 50 rotating "SELECT 1")
        ("x" ∷ []))
    ≡ record { result = ok "SELECT 1"; calls = 3; waits = 50 ∷ 100 ∷ [] }
unfolding execute with_retry attempts_from
third_call_answers = refl
