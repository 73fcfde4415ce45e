-- ===== src/RateLimit/Middleware.antt =====
-- app/core/rate_limit.py: `RateLimitMiddleware.__call__` for an HTTP request whose user identifier is
-- known. `Replied` is what becomes of the request: handed on as it is, handed on with the limit's
-- headers, answered with 429, or stopped by the `ValueError` of a malformed limit.
use application_workflow_ser.Base.{
  ℕ, ◌-◌, ◌/◌, Bool, false, not, ◌||◌, Option, none, some, List, [], ◌∷◌, max, String, str_eq,
  if◌then◌else◌,
}
use application_workflow_ser.Text.{Text}
use application_workflow_ser.RateLimit.{Limiter, Verdict, check_rate_limit}

pub data Replied : Type 0 where
  unlimited : Replied
  served : (limit remaining reset_at : ℕ) → Replied
  too_many : (retry_after limit reset_at : ℕ) → Replied
  malformed : Replied

abbrev exempt_paths : List String
exempt_paths = "/health" ∷ "/health/live" ∷ "/health/ready" ∷ "/healthcheck" ∷ "/metrics" ∷ "/" ∷ []

one_of : String → List String → Bool
one_of s [] = false
one_of s (t ∷ ts) = str_eq s t || one_of s ts

unfoldable pub is_exempt : String → Bool
unfolding one_of
is_exempt path = one_of path exempt_paths

-- `max(1, int((reset_at - datetime.now()).total_seconds()))`
unfoldable pub retry_seconds : ℕ → ℕ → ℕ → ℕ
retry_seconds second now reset_at = max 1 ((reset_at - now) / second)

unfoldable pub answered : ℕ → ℕ → Option Verdict → Replied
unfolding retry_seconds
answered second now none = malformed
answered second now (some v) =
    if not v.allowed
    then too_many (retry_seconds second now v.reset_at) v.limit v.reset_at
    else served v.limit v.remaining v.reset_at

-- The clock at the cleanup, at the check, and when the answer is written.
pub record Times : Type 0 where
  pub cleanup_at : ℕ
  pub check_at : ℕ
  pub reply_at : ℕ

-- The settings: whether limiting is on, and the limit's text.
pub record LimitSettings : Type 0 where
  pub rate_limit_enabled : Bool
  pub rate_limit_requests : Text

unfoldable pub dispatch :
    ℕ → (Text → Option ℕ) → LimitSettings → Times → String → String → Limiter → Replied × Limiter
dispatch second int s t path user c =
    let (v, c') =
      check_rate_limit second int t.cleanup_at t.check_at user s.rate_limit_requests 1 c in
    if not s.rate_limit_enabled
    then (unlimited, c)
    else if is_exempt path
    then (unlimited, c)
    else (answered second t.reply_at v, c')
