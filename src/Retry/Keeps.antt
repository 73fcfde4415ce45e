-- ===== src/Retry/Keeps.antt =====
-- app/core/retry.py: `retry_with_backoff` over a function that keeps an invariant.
use application_workflow_ser.Base.{
  ℕ, zero, suc, ◌+◌, ◌≡◌, Bool, false, Option, leb, Bool-cases, inl, inr,
}
use native.Mathlib.Numerals.{add-one}
use application_workflow_ser.Errors.{Exc, Result, ok, raise}
use application_workflow_ser.Retry.{
  RetrySettings, Log, Done, slept, unexpected, max_attempts_of, no_log, is_non_retryable,
  after_call, attempts, retry_with_backoff,
}

-- One condition where a result was returned, another where an exception was raised.
abbrev pub After {ℓ} : {S A : Type 0} → (A → S → Type ℓ) → (S → Type ℓ) → Result A → S → Type ℓ
After Q E (ok a) w = Q a w
After Q E (raise e) w = E w

module _ {S A : Type 0} (s : RetrySettings) (listed : Exc → Bool) (func : S → Result A × S)
    (Q : A → S → Type 0) (E : S → Type 0)
    (keeps : (w : S) → E w → After Q E (func w).0 (func w).1) where
  after_call-After :
      (m i : ℕ) (log : Log) (again : Log → S → Done S A) (r : Result A) (w : S)
      → ((l : Log) → E w → After Q E (again l w).result (again l w).state)
      → After Q E r w
      → let d = after_call s listed func m i log again r w in After Q E d.result d.state
  unfolding after_call
  after_call-After m i log again (ok a) w step h = h
  after_call-After m i log again (raise x) w step h = elim (Bool-cases (is_non_retryable x)) [
    | inl final ↦ rw final h
    | inr tried ↦ rw tried (elim (Bool-cases (listed x)) [
      | inr strange ↦ rw strange h
      | inl known ↦ rw known (elim (Bool-cases (leb m i)) [
        | inl last ↦ rw last h
        | inr early ↦ rw early (step (slept s i x log) h)
      ])
    ])
  ]

  attempts-After :
      (m left i : ℕ) (log : Log) (w : S)
      → E w
      → let d = attempts s listed func m left i log w in After Q E d.result d.state
  unfolding attempts
  attempts-After m zero i log w h = h
  attempts-After m (suc left) i log w h =
      let (r, w') = func w in
      after_call-After m i log (attempts s listed func m left (i + 1)) r w'
        (λ l e. attempts-After m left (i + 1) l w' e) (keeps w h)

  pub retry-After :
      (max_retries : Option ℕ) (w : S)
      → E w
      → let d = retry_with_backoff s listed func max_retries w in After Q E d.result d.state
  unfolding retry_with_backoff
  retry-After max_retries w h =
      let m = max_attempts_of s max_retries in attempts-After m m 1 no_log w h

module _ {S A : Type 0} (s : RetrySettings) (listed : Exc → Bool) (func : S → Result A × S) where
  -- A first call that returns ends the loop.
  pub retry-first :
      (max_retries : Option ℕ) (w w' : S) (a : A)
      → func w ≡ (ok a, w')
      → retry_with_backoff s listed func max_retries w
        ≡ record { result = ok a; state = w'; log = no_log }
  unfolding retry_with_backoff attempts after_call
  retry-first max_retries w w' a h = rw add-one (rw h)

  -- A first call that fails with an error that is not listed ends it too.
  pub retry-unlisted :
      (max_retries : Option ℕ) (w w' : S) (e : Exc)
      → func w ≡ (raise e, w')
      → is_non_retryable e ≡ false
      → listed e ≡ false
      → retry_with_backoff s listed func max_retries w
        ≡ record { result = raise (unexpected e); state = w'; log = no_log }
  unfolding retry_with_backoff attempts after_call
  retry-unlisted max_retries w w' e h n l = rw add-one (rw h (rw n (rw l)))
