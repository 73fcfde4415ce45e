-- ===== src/Retry.antt =====
-- app/core/retry.py: retries with exponential backoff. Delays are natural numbers of ticks, even for
-- the base delay, so that half of it is exact. What a call of `func` does to the rest of the
-- program is a change of a state `S`; the sleeps and the calls of `on_retry` are listed.
pub mod Backoff
pub mod Attempts
pub mod Bounds
pub mod Keeps
use application_workflow_ser.Base.{
  ℕ, zero, suc, ◌+◌, ◌*◌, ◌/◌, ◌^◌, Bool, true, false, Option, none, some, List, [], ◌∷◌, ◌++◌, min,
  leb, ltb, if◌then◌else◌,
}
use application_workflow_ser.Text.{Text, text, decimal}
use application_workflow_ser.Errors.{
  Exc, message, non_retryable, max_retries_exceeded, Result, ok, raise,
}

-- The settings that this module reads (app/core/config.py).
pub record RetrySettings : Type 0 where
  pub max_retries : ℕ
  pub retry_base_delay : ℕ
  pub retry_max_delay : ℕ

-- Python's `x or y` on an optional number
abbrev pub or_default : Option ℕ → ℕ → ℕ
or_default none y = y
or_default (some zero) y = y
or_default (some (suc n)) y = suc n

-- `base * (2 ** (attempt - 1))`
unfoldable pub exponential : ℕ → ℕ → ℕ
exponential base zero = base / 2
exponential base (suc n) = base * 2 ^ n

unfoldable pub calculate_backoff_delay : RetrySettings → ℕ → Option ℕ → Option ℕ → ℕ
unfolding exponential
calculate_backoff_delay s attempt base_delay max_delay =
    min (exponential (or_default base_delay s.retry_base_delay) attempt)
      (or_default max_delay s.retry_max_delay)

-- What the loop did: the delays slept and the `(attempt, error)` given to `on_retry`, in order.
pub record Log : Type 0 where
  pub sleeps : List ℕ
  pub retries : List (ℕ × Exc)

abbrev pub no_log : Log
no_log = record { sleeps = []; retries = [] }

unfoldable pub is_non_retryable : Exc → Bool
is_non_retryable (non_retryable m) = true
is_non_retryable _ = false

pub record Done (S A : Type 0) : Type 0 where
  pub result : Result A
  pub state : S
  pub log : Log

-- The exception of the last attempt.
abbrev pub exhausted : ℕ → ℕ → Exc → Exc
exhausted max_attempts attempt e =
    max_retries_exceeded
      (text "Max retries (" ++ (decimal max_attempts ++ (text ") exceeded: " ++ message e)))
      (some (message e)) attempt

-- The exception that an unlisted error is wrapped in.
abbrev pub unexpected : Exc → Exc
unexpected e = non_retryable (text "Unexpected error: " ++ message e)

abbrev pub slept : RetrySettings → ℕ → Exc → Log → Log
slept s attempt e log = record {
  sleeps = log.sleeps ++ calculate_backoff_delay s attempt none none ∷ [];
  retries = log.retries ++ (attempt, e) ∷ [];
}

-- `(max_retries or settings.max_retries) + 1`
abbrev pub max_attempts_of : RetrySettings → Option ℕ → ℕ
max_attempts_of s max_retries = or_default max_retries s.max_retries + 1

module _ {S A : Type 0} (s : RetrySettings) (listed : Exc → Bool) (func : S → Result A × S) where
  -- The body of the loop after a call; `again` is the rest of the loop.
  after_call : ℕ → ℕ → Log → (Log → S → Done S A) → Result A → S → Done S A
  after_call max_attempts attempt log again (ok a) w = record {
    result = ok a;
    state = w;
    log = log;
  }
  after_call max_attempts attempt log again (raise e) w =
      if is_non_retryable e
      then record { result = raise e; state = w; log = log }
      else (if listed e
          then (if leb max_attempts attempt
              then record {
                result = raise (exhausted max_attempts attempt e);
                state = w;
                log = log;
              }
              else again (slept s attempt e log) w)
          else record { result = raise (unexpected e); state = w; log = log })

  -- `for attempt in range(1, max_attempts + 1)`, with `left` rounds to go; the last line of the
  -- function stands at the end.
  attempts : ℕ → ℕ → ℕ → Log → S → Done S A
  attempts max_attempts zero attempt log w = record {
    result = raise (max_retries_exceeded (text "Max retries exceeded") none max_attempts);
    state = w;
    log = log;
  }
  attempts max_attempts (suc left) attempt log w =
      let (r, w') = func w in
      after_call max_attempts attempt log (attempts max_attempts left (attempt + 1)) r w'

  unfoldable pub retry_with_backoff : Option ℕ → S → Done S A
  unfolding attempts after_call
  retry_with_backoff max_retries w =
      attempts (max_attempts_of s max_retries) (max_attempts_of s max_retries) 1 no_log w

-- `RetryContext`: the errors are recorded with the attempt of that moment.
pub record RetryContext : Type 0 where
  pub max_retries : ℕ
  pub attempt : ℕ
  pub errors : List (ℕ × Text)

unfoldable pub new_context : RetrySettings → Option ℕ → RetryContext
new_context s max_retries = record {
  max_retries = or_default max_retries s.max_retries;
  attempt = 0;
  errors = [];
}

unfoldable pub record_error : RetryContext → Exc → RetryContext
record_error c e = record c { errors = c.errors ++ (c.attempt, message e) ∷ [] }

unfoldable pub can_retry : RetryContext → Bool
can_retry c = ltb c.attempt c.max_retries

unfoldable pub next_delay : RetrySettings → RetryContext → ℕ
next_delay s c = calculate_backoff_delay s c.attempt none none
