-- ===== src/Examples/RateLimit.antt =====
-- The rate limiter at concrete inputs.
use application_workflow_ser.RateLimit.Remaining.{used, check-remaining}
use application_workflow_ser.Base.{
  ◌<◌, ◌⊎◌, ℕ, ◌+◌, ◌≤◌, ◌≡◌, refl, Bool, true, false, Option, none, some, List, [], ◌∷◌, arith,
  ltb, if◌then◌else◌, String,
}
use application_workflow_ser.Base
use application_workflow_ser.Base.Dict
use application_workflow_ser.Text.{Text, text, lower, same_text}
use application_workflow_ser.RateLimit.{
  Limit, Limiter, new_limiter, check_rate_limit, parse_limit, within, total, swept, opened, check,
  cleanup_old_entries, reset_timestamp, checked,
}
use application_workflow_ser.RateLimit.Ideal.{Call, ideal, admitted, decisions, is_allowed}
use application_workflow_ser.RateLimit.Window.{in_window}
use application_workflow_ser.RateLimit.Bounds.{nobody, decisions-ideal, admitted-bounded}
use application_workflow_ser.RateLimit.Middleware.{dispatch}

-- `int` of one decimal digit.
digit : Text → Option ℕ
digit (c ∷ []) = if ltb c b'0' then none else if ltb b'9' c then none else some (Base.◌-◌ c b'0')
digit _ = none

abbrev two_a_minute : Text
two_a_minute = text "2/Minute"

abbrev at : ℕ → String → Call
at t u = record { cleanup_at = t; at = t; user = u; increment = 1 }

abbrev calls : List Call
calls = at 10 "a" ∷ at 20 "b" ∷ at 30 "a" ∷ at 40 "a" ∷ at 71 "a" ∷ at 80 "a" ∷ []

two_a_minute_lem :
    parse_limit 1 digit two_a_minute ≡ some (record { max_requests = 2; window_seconds = 60 })
unfolding parse_limit digit lower same_text
two_a_minute_lem = refl

program : Unit {0}
unfolding parse_limit digit lower same_text decisions check_rate_limit cleanup_old_entries swept
    within total check opened reset_timestamp checked is_allowed Dict.get Dict.put Base.keep
    dispatch
program = tt

-- The third call of a minute is refused, and the window slides on.
decisions_run :
    decisions 1 digit two_a_minute calls (new_limiter 3600 0)
    ≡ true ∷ true ∷ true ∷ false ∷ true ∷ false ∷ []
unfolding program
decisions_run = refl

decisions-ideal_example :
    decisions 1 digit two_a_minute calls (new_limiter 3600 0)
    ≡ ideal (record { max_requests = 2; window_seconds = 60 }) nobody calls
decisions-ideal_example =
    decisions-ideal 1 digit two_a_minute (record { max_requests = 2; window_seconds = 60 })
      two_a_minute_lem 3600 0 calls (ground arith)

admitted-bounded_example :
    in_window 60 75
      (admitted nobody calls (decisions 1 digit two_a_minute calls (new_limiter 3600 0)) "a")
    ≤ 2
admitted-bounded_example =
    admitted-bounded 1 digit two_a_minute (record { max_requests = 2; window_seconds = 60 })
      two_a_minute_lem 3600 0 calls "a" 75 (ground arith)

abbrev two : Limit
two = record { max_requests = 2; window_seconds = 60 }

abbrev after_one : Limiter
after_one = (check 10 "a" two 1 (new_limiter 3600 0)).1

remaining_runs : (check 20 "a" two 1 after_one).0.remaining ≡ 0
unfolding program
remaining_runs = refl

check-remaining_example :
    let (v, c') = check 20 "a" two 1 after_one in
    ((v.allowed ≡ true) × (v.remaining + used 20 "a" two 1 after_one c' ≡ 2))
    ⊎ ((v.allowed ≡ false)
        × (2 < used 20 "a" two 1 after_one after_one + 1)
        × (used 20 "a" two 1 after_one c' ≡ used 20 "a" two 1 after_one after_one))
check-remaining_example = check-remaining 20 "a" two 1 after_one (omega arith)
