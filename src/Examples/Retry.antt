-- ===== src/Examples/Retry.antt =====
-- `retry_with_backoff` of app/core/retry.py at concrete inputs.
use application_workflow_ser.Base.{
  ℕ, zero, suc, ◌+◌, ◌*◌, ◌≤◌, ◌≡◌, refl, none, some, [], ◌∷◌, arith, length, All, min,
}
use application_workflow_ser.Text.{text}
use application_workflow_ser.Errors.{Result, ok, raise, retryable}
use application_workflow_ser.Retry.{
  RetrySettings, calculate_backoff_delay, exponential, is_non_retryable, retry_with_backoff,
  exhausted, max_attempts_of,
}
use application_workflow_ser.Retry.Backoff.{backoff_doubles}
use application_workflow_ser.Retry.Attempts.{
  scripted, delays, returned, retry-decisive, retry-exhausted,
}
use application_workflow_ser.Retry.Bounds.{retry-bounded}
use application_workflow_ser.Worker.{is_listed}

-- The defaults of app/core/config.py, in halves of a second.
abbrev settings : RetrySettings
settings = record { max_retries = 5; retry_base_delay = 2; retry_max_delay = 32 }

waits : delays settings is_listed (λ n. ok n) 1 6 ≡ 2 ∷ 4 ∷ 8 ∷ 16 ∷ 32 ∷ 32 ∷ []
unfolding calculate_backoff_delay exponential
waits = refl

backoff_doubles_example :
    (calculate_backoff_delay settings 1 none none ≡ min 2 32)
    × (calculate_backoff_delay settings 4 none none
        ≡ min (2 * calculate_backoff_delay settings 3 none none) 32)
backoff_doubles_example = backoff_doubles settings 2

-- Two failures, then a result.
abbrev flaky : ℕ → Result ℕ
flaky zero = ok 0
flaky (suc zero) = raise (retryable (text "timeout"))
flaky (suc (suc zero)) = raise (retryable (text "503"))
flaky (suc (suc (suc n))) = ok 7

retry-decisive_example :
    let d = retry_with_backoff settings is_listed (scripted flaky) none 1 in
    (d.result ≡ ok 7) × (d.state ≡ 4) × (d.log.sleeps ≡ delays settings is_listed flaky 1 2)
unfolding is_non_retryable is_listed
retry-decisive_example =
    retry-decisive settings is_listed flaky none 2 (ok 7) (omega arith)
      (
        (retryable (text "timeout"), refl, refl, refl),
        ((retryable (text "503"), refl, refl, refl), tt),
      )
      (returned 7)

abbrev down : ℕ → Result ℕ
down n = raise (retryable (text "503"))

retry-exhausted_example :
    let d = retry_with_backoff settings is_listed (scripted down) (some 2) 1 in
    (d.result ≡ raise (exhausted 3 3 (retryable (text "503"))))
    × (d.state ≡ 4)
    × (d.log.sleeps ≡ delays settings is_listed down 1 2)
unfolding is_non_retryable is_listed
retry-exhausted_example =
    retry-exhausted settings is_listed down (some 2) 2 (retryable (text "503")) refl
      ((retryable (text "503"), refl, refl, refl), ((retryable (text "503"), refl, refl, refl), tt))
      refl refl refl

retry-bounded_example :
    let log = (retry_with_backoff settings is_listed (scripted down) (some 2) 1).log in
    (length log.sleeps + 1 ≤ max_attempts_of settings (some 2))
    × (length log.retries ≡ length log.sleeps)
    × All (λ d. d ≤ 32) log.sleeps
retry-bounded_example = retry-bounded settings is_listed (scripted down) (some 2) 1
