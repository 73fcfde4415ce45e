-- ===== src/Retry/Attempts.antt =====
-- app/core/retry.py: what `retry_with_backoff` does, for any settings and any function.
use application_workflow_ser.Base.{
  ℕ, zero, suc, ◌+◌, ◌<◌, ◌≡◌, refl, ◌∙◌, Bool, true, false, Option, none, List, [], ◌∷◌, ◌++◌,
  arith, append-nil, append_assoc, ap, sym, leb,
}
use native.Mathlib.Numerals.{add-one}
use application_workflow_ser.Errors.{Exc, Result, ok, raise}
use application_workflow_ser.Retry.{
  RetrySettings, Log, no_log, exhausted, unexpected, slept, max_attempts_of, is_non_retryable,
  calculate_backoff_delay, after_call, attempts, retry_with_backoff,
}

-- A function whose n-th call has the n-th outcome of a script; its state is the next call's number.
pub scripted : {A : Type 0} → (ℕ → Result A) → ℕ → Result A × ℕ
scripted outcome n = (outcome n, suc n)

module _ {A : Type 0} (s : RetrySettings) (listed : Exc → Bool) (outcome : ℕ → Result A) where
  -- An outcome that is tried again.
  abbrev pub IsTransient : Result A → Type 0
  IsTransient r = (e : Exc) × (r ≡ raise e) × (is_non_retryable e ≡ false) × (listed e ≡ true)

  -- The calls `i` to `i + k - 1` all fail so.
  abbrev pub Failing : ℕ → ℕ → Type 0
  Failing i zero = Unit
  Failing i (suc k) = IsTransient (outcome i) × Failing (suc i) k

  -- An outcome that ends the loop, and the result that it gives.
  pub data Ends : Result A → Result A → Type 0 where
    returned : (a : A) → Ends (ok a) (ok a)
    refused : (e : Exc) → is_non_retryable e ≡ true → Ends (raise e) (raise e)
    unlisted :
        (e : Exc)
        → is_non_retryable e ≡ false
        → listed e ≡ false
        → Ends (raise e) (raise (unexpected e))

  -- The delays after the attempts `i` to `i + k - 1`.
  abbrev pub delays : ℕ → ℕ → List ℕ
  delays i zero = []
  delays i (suc k) = calculate_backoff_delay s i none none ∷ delays (suc i) k

  run_ends :
      (m left i : ℕ) (log : Log) (r : Result A)
      → Ends (outcome i) r
      → let d = attempts s listed (scripted outcome) m (suc left) i log i in
        (d.result ≡ r) × (d.state ≡ suc i) × (d.log.sleeps ≡ log.sleeps)
  unfolding attempts after_call scripted
  run_ends m left i log r h = ends (outcome i) r h
    where
      ends :
          (o r : Result A)
          → Ends o r
          → let d =
              after_call s listed
                (scripted outcome)
                m
                i
                log
                (attempts s listed (scripted outcome) m left (i + 1))
                o
                (suc i) in
            (d.result ≡ r) × (d.state ≡ suc i) × (d.log.sleeps ≡ log.sleeps)
      ends o r (returned a) = (refl, refl, refl)
      ends o r (refused e p) = ground arith
      ends o r (unlisted e p q) = ground arith

  step_again :
      (m left i : ℕ) (log : Log) (e : Exc)
      → outcome i ≡ raise e
      → is_non_retryable e ≡ false
      → listed e ≡ true
      → i < m
      → attempts s listed (scripted outcome) m (suc left) i log i
        ≡ attempts s listed (scripted outcome) m left (suc i) (slept s i e log) (suc i)
  unfolding attempts scripted after_call
  step_again m left i log e o n l h =
      let early : leb m i ≡ false = ground arith in rw o (rw n (rw l (rw early (rw add-one))))

  step_last :
      (m left : ℕ) (log : Log) (e : Exc)
      → outcome m ≡ raise e
      → is_non_retryable e ≡ false
      → listed e ≡ true
      → attempts s listed (scripted outcome) m (suc left) m log m
        ≡ record { result = raise (exhausted m m e); state = suc m; log = log }
  unfolding attempts scripted after_call
  step_last m left log e o n l =
      let full : leb m m ≡ true = ground arith in rw o (rw n (rw l (rw full)))

  run_decisive :
      (m k left i j : ℕ) (log : Log) (r : Result A)
      → k < left
      → i + left ≡ suc m
      → i + k ≡ j
      → Failing i k
      → Ends (outcome j) r
      → let d = attempts s listed (scripted outcome) m left i log i in
        (d.result ≡ r) × (d.state ≡ suc j) × (d.log.sleeps ≡ log.sleeps ++ delays i k)
  run_decisive m k zero i j log r h b e f x = absurd (omega arith)
  run_decisive m zero (suc left) i j log r h b e f x =
      let same : i ≡ j = omega arith in
      let y : Ends (outcome i) r = rw same x in
      let (p, q, t) = run_ends m left i log r y in
      (p, q ∙ ap suc same, t ∙ sym (append-nil log.sleeps))
  run_decisive m (suc k) (suc left) i j log r h b e ((x, o, n, l), rest) ends =
      let (p, q, t) =
        run_decisive m k left (suc i) j (slept s i x log) r (omega arith) (omega arith)
          (omega arith) rest ends in
      rw (step_again m left i log x o n l (omega arith)) (p, q, t ∙ append_assoc log.sleeps _ _)

  run_exhausted :
      (m k left i : ℕ) (log : Log) (e : Exc)
      → left ≡ suc k
      → i + k ≡ m
      → Failing i k
      → outcome m ≡ raise e
      → is_non_retryable e ≡ false
      → listed e ≡ true
      → let d = attempts s listed (scripted outcome) m left i log i in
        (d.result ≡ raise (exhausted m m e))
        × (d.state ≡ suc m)
        × (d.log.sleeps ≡ log.sleeps ++ delays i k)
  run_exhausted m k zero i log e b h f o n l = absurd (omega arith)
  run_exhausted m zero (suc left) i log e b h f o n l =
      let same : i ≡ m = omega arith in
      rw same (rw (step_last m left log e o n l) (refl, refl, sym (append-nil log.sleeps)))
  run_exhausted m (suc k) (suc left) i log e b h ((x, o', n', l'), rest) o n l =
      let (p, q, t) =
        run_exhausted m k left (suc i) (slept s i x log) e (omega arith) (omega arith) rest o n l in
      rw (step_again m left i log x o' n' l' (omega arith)) (p, q, t ∙ append_assoc log.sleeps _ _)

  -- If the first `k` calls fail with listed errors and the next one, still within
  -- `max_retries + 1` calls, does not, then exactly `k + 1` calls are made, the result is that of
  -- the last (an unlisted error wrapped), and the sleeps are the delays of the first `k` attempts.
  pub retry-decisive :
      (max_retries : Option ℕ) (k : ℕ) (r : Result A)
      → k < max_attempts_of s max_retries
      → Failing 1 k
      → Ends (outcome (suc k)) r
      → let d = retry_with_backoff s listed (scripted outcome) max_retries 1 in
        (d.result ≡ r) × (d.state ≡ k + 2) × (d.log.sleeps ≡ delays 1 k)
  unfolding retry_with_backoff
  retry-decisive max_retries k r h f e =
      let m = max_attempts_of s max_retries in
      let (p, q, t) = run_decisive m k m 1 (suc k) no_log r h (omega arith) (omega arith) f e in
      (p, q ∙ omega arith, t)

  -- If all `max_retries + 1` calls fail with listed errors, no further call is made, the result is
  -- the error that names the last failure and the number of attempts, and there is a sleep after
  -- each attempt but the last.
  pub retry-exhausted :
      (max_retries : Option ℕ) (k : ℕ) (e : Exc)
      → max_attempts_of s max_retries ≡ suc k
      → Failing 1 k
      → outcome (suc k) ≡ raise e
      → is_non_retryable e ≡ false
      → listed e ≡ true
      → let d = retry_with_backoff s listed (scripted outcome) max_retries 1 in
        (d.result ≡ raise (exhausted (suc k) (suc k) e))
        × (d.state ≡ k + 2)
        × (d.log.sleeps ≡ delays 1 k)
  unfolding retry_with_backoff
  retry-exhausted max_retries k e h f o n l = rw h (
      let (p, q, t) = run_exhausted (suc k) k (suc k) 1 no_log e refl (omega arith) f o n l in
      (p, q ∙ omega arith, t))
