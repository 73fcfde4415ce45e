-- ===== src/Errors.antt =====
-- The exceptions that the processing pipeline tells apart (app/core/retry.py, app/core/exceptions.py),
-- with what `str` gives of each, and the state monad of code that calls services and may raise.
use application_workflow_ser.Base.{ℕ, Option}
use application_workflow_ser.Text.{Text}

pub data Exc : Type 0 where
  retryable : Text → Exc
  non_retryable : Text → Exc
  -- the message, the last error and the number of attempts
  max_retries_exceeded : Text → Option Text → ℕ → Exc
  database : Text → Exc
  other : Text → Exc

-- `str(e)`
abbrev pub message : Exc → Text
message (retryable m) = m
message (non_retryable m) = m
message (max_retries_exceeded m last attempts) = m
message (database m) = m
message (other m) = m

pub data Result {ℓ} (A : Type ℓ) : Type ℓ where
  ok : A → Result A
  raise : Exc → Result A
