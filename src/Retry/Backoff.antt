-- ===== src/Retry/Backoff.antt =====
-- app/core/retry.py: the delays of `calculate_backoff_delay`.
use application_workflow_ser.Base.{ℕ, suc, ◌*◌, ◌≤◌, ◌≡◌, min, none, arith, ap}
use native.Mathlib.Nat.{pow-suc}
use application_workflow_ser.Retry.{RetrySettings, calculate_backoff_delay, exponential}

-- With the delays of the settings, the first attempt waits for the base delay, each later one
-- twice as long as the one before, and all of it is capped at the maximal delay.
pub backoff_doubles :
    (s : RetrySettings) (n : ℕ)
    → (calculate_backoff_delay s 1 none none ≡ min s.retry_base_delay s.retry_max_delay)
      × (calculate_backoff_delay s (suc (suc n)) none none
          ≡ min (2 * calculate_backoff_delay s (suc n) none none) s.retry_max_delay)
unfolding calculate_backoff_delay exponential
backoff_doubles s n =
    (omega arith, omega (arith, pow-suc 2 n, ap (λ x. s.retry_base_delay * x) (pow-suc 2 n)))

pub backoff-le-max :
    (s : RetrySettings) (n : ℕ) → calculate_backoff_delay s n none none ≤ s.retry_max_delay
unfolding calculate_backoff_delay
backoff-le-max s n = omega arith
