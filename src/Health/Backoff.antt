-- ===== src/Health/Backoff.antt =====
-- How long a source waits after a failure that may be tried again.
use intern_notifs.Base.{ℕ, zero, suc, ◌+◌, ◌-◌, ◌^◌, ◌≤◌, ◌≡◌, Option, arith, get_or, min}
use intern_notifs.Health.Failure.{backoff_ms}

pow_pos : (n : ℕ) → 1 ≤ 2 ^ n
pow_pos zero = omega arith
pow_pos (suc n) = omega (arith, pow_pos n)

exponents :
    (n : ℕ)
    → (suc n - 1 ≡ n) × (suc n + 1 - 1 ≡ suc n) × (suc n + 5 - 1 ≡ suc (suc (suc (suc (suc n)))))
exponents n = (omega arith, omega arith, omega arith)

-- After the n-th failure in a row (from the first on) a source waits at least a minute and as long
-- as its provider asked for, up to half an hour; never less than after the failure before; and from
-- the sixth failure on half an hour.
pub backoff_bounds :
    (asked : Option ℕ) (n : ℕ)
    → (60000 ≤ backoff_ms asked (suc n))
      × (min (get_or asked 0) 1800000 ≤ backoff_ms asked (suc n))
      × (backoff_ms asked (suc n) ≤ 1800000)
      × (backoff_ms asked (suc n) ≤ backoff_ms asked (suc n + 1))
      × (backoff_ms asked (suc n + 5) ≡ 1800000)
unfolding backoff_ms
backoff_bounds asked n =
    let p = pow_pos n in
    (
      rw (exponents n).0 (omega (arith, p)),
      rw (exponents n).0 (omega (arith, p)),
      omega arith,
      rw (exponents n).0 (rw (exponents n).1 (omega (arith, p))),
      rw (exponents n).2 (omega (arith, p)),
    )
