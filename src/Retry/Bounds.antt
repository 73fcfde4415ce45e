-- ===== src/Retry/Bounds.antt =====
-- app/core/retry.py: how often `retry_with_backoff` sleeps, and how long.
use application_workflow_ser.Base.{
  All-append, ℕ, zero, suc, ◌+◌, ◌-◌, ◌≤◌, ◌<◌, ◌≡◌, refl, Bool, Option, none, [], ◌∷◌, arith,
  length, length-append, All, leb, Bool-cases, inl, inr,
}
use application_workflow_ser.Errors.{Exc, Result, ok, raise}
use application_workflow_ser.Retry.{
  RetrySettings, Log, no_log, Done, slept, max_attempts_of, is_non_retryable,
  calculate_backoff_delay, after_call, attempts, retry_with_backoff,
}
use application_workflow_ser.Retry.Backoff.{backoff-le-max}

module _ {S A : Type 0} (s : RetrySettings) (listed : Exc → Bool) (func : S → Result A × S) where
  -- What the log of a loop may hold after `n` failed attempts at most.
  record Bounded (n : ℕ) (log : Log) : Type 0 where
    few : length log.sleeps ≤ n
    paired : length log.retries ≡ length log.sleeps
    capped : All (λ d. d ≤ s.retry_max_delay) log.sleeps

  slept-Bounded :
      (n i : ℕ) (e : Exc) (log : Log) → Bounded n log → Bounded (suc n) (slept s i e log)
  slept-Bounded n i e log b = record {
    few =
        omega (arith, length-append log.sleeps (calculate_backoff_delay s i none none ∷ []), b.few);
    paired = omega (
      arith,
      length-append log.sleeps (calculate_backoff_delay s i none none ∷ []),
      length-append log.retries ((i, e) ∷ []),
      b.paired,
    );
    capped = All-append (λ d. d ≤ s.retry_max_delay) log.sleeps _ b.capped (backoff-le-max s i);
  }

  weaken : {n k : ℕ} {log : Log} → n ≤ k → Bounded n log → Bounded k log
  weaken h b = record { few = omega (arith, b.few); paired = b.paired; capped = b.capped }

  after_call-Bounded :
      (n m i : ℕ) (log : Log) (again : Log → S → Done S A) (r : Result A) (w : S)
      → n + 1 ≡ i
      → i ≤ m
      → ((l : Log) → i < m → Bounded (suc n) l → Bounded (m - 1) (again l w).log)
      → Bounded n log
      → Bounded (m - 1) (after_call s listed func m i log again r w).log
  unfolding after_call
  after_call-Bounded n m i log again (ok a) w e h step b = weaken (omega arith) b
  after_call-Bounded n m i log again (raise x) w e h step b =
      elim (Bool-cases (is_non_retryable x)) [
        | inl final ↦ rw final (weaken (omega arith) b)
        | inr tried ↦ rw tried (elim (Bool-cases (listed x)) [
          | inr strange ↦ rw strange (weaken (omega arith) b)
          | inl known ↦ rw known (elim (Bool-cases (leb m i)) [
            | inl last ↦ rw last (weaken (omega arith) b)
            | inr early ↦
                rw early (step (slept s i x log) (ground arith) (slept-Bounded n i x log b))
          ])
        ])
      ]

  attempts-Bounded :
      (n m left i : ℕ) (log : Log) (w : S)
      → n + 1 ≡ i
      → i + left ≡ suc m
      → 0 < left
      → Bounded n log
      → Bounded (m - 1) (attempts s listed func m left i log w).log
  unfolding attempts
  attempts-Bounded n m zero i log w e h p b = absurd (omega arith)
  attempts-Bounded n m (suc left) i log w e h p b =
      let (r, w') = func w in
      after_call-Bounded n m i log (attempts s listed func m left (i + 1)) r w' e (omega arith)
        (λ l early.
          attempts-Bounded (suc n) m left (i + 1) l w' (omega arith) (omega arith) (omega arith))
        b

  -- Whatever the function does, there are at most `max_retries` sleeps, each no longer than the
  -- maximal delay, and `on_retry` is called once for each of them.
  pub retry-bounded :
      (max_retries : Option ℕ) (w : S)
      → let log = (retry_with_backoff s listed func max_retries w).log in
        (length log.sleeps + 1 ≤ max_attempts_of s max_retries)
        × (length log.retries ≡ length log.sleeps)
        × All (λ d. d ≤ s.retry_max_delay) log.sleeps
  unfolding retry_with_backoff
  retry-bounded max_retries w =
      let m = max_attempts_of s max_retries in
      let b =
        attempts-Bounded 0 m m 1 no_log w (omega arith) (omega arith) (omega arith)
          (record { few = omega arith; paired = refl; capped = tt }) in
      (omega (arith, b.few), b.paired, b.capped)
