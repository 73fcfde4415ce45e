-- ===== src/RateLimit.antt =====
-- app/core/rate_limit.py: the sliding window limiter. Times are natural numbers of ticks; the clock is
-- read by the cleanup and by the check, and each reading is an argument. `ValueError` is `none`. A
-- limit with a negative count is not modelled: it refuses like the count 0.
pub mod Window
pub mod Ideal
pub mod Sliding
pub mod Bounds
pub mod Middleware
pub mod Remaining
use application_workflow_ser.Base.{
  ℕ, zero, suc, ◌+◌, ◌-◌, ◌*◌, String, Bool, true, false, Option, none, some, List, [], ◌∷◌, ◌++◌,
  min, max, ltb, leb, ◌==◌, if◌then◌else◌, keep,
}
use application_workflow_ser.Base.Dict
use application_workflow_ser.Base.Dict.{Dict}
use application_workflow_ser.Text.{Text, text, lower, same_text}

pub record Entry : Type 0 where
  pub timestamp : ℕ
  pub count : ℕ

pub record Limiter : Type 0 where
  pub windows : Dict (List Entry)
  pub cleanup_interval : ℕ
  pub last_cleanup : ℕ

abbrev pub new_limiter : ℕ → ℕ → Limiter
new_limiter interval now = record { windows = []; cleanup_interval = interval; last_cleanup = now }

-- `s.split("/")`, the current part in reverse
unfoldable pub split_from : Text → Text → List Text
split_from part [] = part ∷ []
split_from part (c ∷ s) =
    if c == b'/' then part ∷ split_from [] s else split_from (part ++ c ∷ []) s

pub record Limit : Type 0 where
  pub max_requests : ℕ
  pub window_seconds : ℕ

-- One second, in ticks.
module _ (second : ℕ) where
  unfoldable pub period_seconds : Text → Option ℕ
  period_seconds p =
      if same_text p (text "second")
      then some (1 * second)
      else if same_text p (text "minute")
      then some (60 * second)
      else if same_text p (text "hour")
      then some (3600 * second)
      else if same_text p (text "day")
      then some (86400 * second)
      else none

abbrev pub limit_of : Option ℕ → Option ℕ → Option Limit
limit_of none w = none
limit_of (some n) none = none
limit_of (some n) (some w) = some (record { max_requests = n; window_seconds = w })

-- One second in ticks, and Python's `int` of a text.
module _ (second : ℕ) (int : Text → Option ℕ) where
  unfoldable pub parse_parts : List Text → Option Limit
  parse_parts (count ∷ period ∷ []) = limit_of (int count) (period_seconds second (lower period))
  parse_parts _ = none

  unfoldable pub parse_limit : Text → Option Limit
  unfolding split_from parse_parts period_seconds
  parse_limit s = parse_parts (split_from [] s)

-- `if ts > bound - width`, over the integers
unfoldable pub within : ℕ → ℕ → Entry → Bool
within width now e = ltb now (e.timestamp + width)

abbrev is_empty {ℓ} : {A : Type ℓ} → List A → Bool
is_empty [] = true
is_empty (x ∷ xs) = false

-- The loop over the users: keep the entries of the last day, and drop a user with none.
unfoldable pub swept : ℕ → ℕ → Dict (List Entry) → Dict (List Entry)
swept day now [] = []
swept day now ((u, l) ∷ d) =
    let rest = swept day now d in
    let kept = keep (within day now) l in if is_empty kept then rest else (u, kept) ∷ rest

unfoldable pub cleanup_old_entries : ℕ → ℕ → Limiter → Limiter
cleanup_old_entries day now c =
    if ltb now (c.last_cleanup + c.cleanup_interval)
    then c
    else record c { windows = swept day now c.windows; last_cleanup = now }

abbrev pub entries_of : Option (List Entry) → List Entry
entries_of none = []
entries_of (some l) = l

-- `sum(count for _, count in current_window)`
unfoldable pub total : List Entry → ℕ
total [] = 0
total (e ∷ l) = e.count + total l

oldest : ℕ → List Entry → ℕ
oldest t [] = t
oldest t (e ∷ l) = oldest (min t e.timestamp) l

unfoldable pub reset_timestamp : ℕ → ℕ → List Entry → ℕ
unfolding oldest
reset_timestamp now width [] = now + width
reset_timestamp now width (e ∷ l) = oldest e.timestamp l + width

pub record Verdict : Type 0 where
  pub allowed : Bool
  pub remaining : ℕ
  pub limit : ℕ
  pub reset_at : ℕ

-- `if user_id not in self._windows: self._windows[user_id] = []`
unfoldable pub opened : String → Limiter → Option (List Entry) → Limiter
opened user c none = record c { windows = Dict.put c.windows user [] }
opened user c (some l) = c

-- The check proper, after the cleanup and the parsing.
unfoldable pub check : ℕ → String → Limit → ℕ → Limiter → Verdict × Limiter
unfolding opened
check now user lim increment c =
    let stored = Dict.get c.windows user in
    let c' = opened user c stored in
    let current_window = keep (within lim.window_seconds now) (entries_of stored) in
    let requests = total current_window in
    let remaining = lim.max_requests - requests in
    let reset = reset_timestamp now lim.window_seconds current_window in
    if ltb lim.max_requests (requests + increment)
    then (
      record { allowed = false; remaining = remaining; limit = lim.max_requests; reset_at = reset },
      c',
    )
    else (
      record {
        allowed = true;
        remaining = remaining - increment;
        limit = lim.max_requests;
        reset_at = reset;
      },
      record c' {
        windows =
            Dict.put c'.windows user
              (current_window ++ record { timestamp = now; count = increment } ∷ []);
      },
    )

unfoldable pub checked : ℕ → String → Option Limit → ℕ → Limiter → Option Verdict × Limiter
checked now user none increment c = (none, c)
checked now user (some lim) increment c =
    let (v, c') = check now user lim increment c in (some v, c')

-- The clock at the cleanup and at the check.
unfoldable pub check_rate_limit :
    ℕ → (Text → Option ℕ) → ℕ → ℕ → String → Text → ℕ → Limiter → Option Verdict × Limiter
unfolding checked
check_rate_limit second int now now' user limit_str increment c =
    checked now' user (parse_limit second int limit_str) increment
      (cleanup_old_entries (86400 * second) now c)
