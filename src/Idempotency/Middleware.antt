-- ===== src/Idempotency/Middleware.antt =====
-- app/core/idempotency.py: `IdempotencyMiddleware`.
use application_workflow_ser.Base.{ℕ, zero, suc, String, Bool, Option, none, some, if◌then◌else◌}
use application_workflow_ser.Idempotency.{
  IdempotencyRecord, IdempotencyStore, Readings, get, replayable,
}

-- What `IdempotencyMiddleware` does with a request.
pub data Forwarded (R : Type 0) : Type 0 where
  handed_on : Forwarded R
  replayed : R → ℕ → Forwarded R

-- `status_code or 200`
code_or : Option ℕ → ℕ
code_or none = 200
code_or (some zero) = 200
code_or (some (suc n)) = suc n

module _ {R : Type 0} (filled : R → Bool) where
  abbrev looked_up :
      Option (IdempotencyRecord R) × IdempotencyStore R → Forwarded R × IdempotencyStore R
  looked_up (none, s) = (handed_on, s)
  looked_up (some r, s) = elim (replayable filled r) [
    | none ↦ (handed_on, s)
    | some b ↦ (replayed b (code_or r.status_code), s)
  ]

  -- `mutating` says whether the method is POST, PUT or PATCH.
  unfoldable pub middleware :
      Readings → Bool → Option String → IdempotencyStore R → Forwarded R × IdempotencyStore R
  unfolding replayable code_or
  middleware t mutating none s = (handed_on, s)
  middleware t mutating (some key) s =
      let found = looked_up (get t key s) in if mutating then found else (handed_on, s)
