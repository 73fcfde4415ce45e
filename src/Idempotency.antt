-- ===== src/Idempotency.antt =====
-- app/core/idempotency.py: the in-memory store, and the wrapper of `require_idempotency`. What the
-- wrapped function returns is a value of a type `A`, a stored response one of a type `R`, with the
-- conversion, the truth value of a response and `{"error": …}` as arguments. Correlation ids and the
-- log are left out. Every reading of a clock is an argument.
pub mod Kept
pub mod Begin
pub mod Traces
pub mod Found
pub mod Replay
pub mod Middleware
use application_workflow_ser.Base.{
  zero, suc, ℕ, ◌+◌, ◌*◌, String, Bool, true, false, not, ◌&&◌, Option, none, some, List, [], ◌∷◌,
  ltb, if◌then◌else◌,
}
use application_workflow_ser.Base.Dict
use application_workflow_ser.Base.Dict.{Dict}
use application_workflow_ser.Base.Sweep.{keys, del_all}
use application_workflow_ser.Base.{keep}
use application_workflow_ser.Text.{Text}
use application_workflow_ser.Errors.{Exc, Result, ok, raise, message}

pub data RecordStatus : Type 0 where
  pending : RecordStatus
  completed : RecordStatus
  failed : RecordStatus

abbrev pub is_pending : RecordStatus → Bool
is_pending pending = true
is_pending _ = false

abbrev pub is_completed : RecordStatus → Bool
is_completed completed = true
is_completed _ = false

abbrev pub is_failed : RecordStatus → Bool
is_failed failed = true
is_failed _ = false

pub record IdempotencyRecord (R : Type 0) : Type 0 where
  pub status : RecordStatus
  pub response : Option R
  pub status_code : Option ℕ
  pub created_at : ℕ
  pub completed_at : Option ℕ

pub record IdempotencyStore (R : Type 0) : Type 0 where
  pub store : Dict (IdempotencyRecord R)
  pub ttl : ℕ
  pub cleanup_interval : ℕ
  pub last_cleanup : ℕ

-- The clocks that one `get` reads: `time.time()` and `utcnow()` of the cleanup, `utcnow()` of the age.
pub record Readings : Type 0 where
  pub tick : ℕ
  pub cutoff_at : ℕ
  pub age_at : ℕ

module _ {R : Type 0} where
  unfoldable pub cleanup_expired : Readings → IdempotencyStore R → IdempotencyStore R
  cleanup_expired t s =
      let expired_keys = keys (keep (λ e. ltb (e.1.created_at + s.ttl) t.cutoff_at) s.store) in
      if ltb t.tick (s.last_cleanup + s.cleanup_interval)
      then s
      else record s { store = del_all s.store expired_keys; last_cleanup = t.tick }

  unfoldable pub fetched :
      ℕ
      → String
      → IdempotencyStore R
      → Option (IdempotencyRecord R)
      → Option (IdempotencyRecord R) × IdempotencyStore R
  fetched age_at key s none = (none, s)
  fetched age_at key s (some r) =
      if ltb (r.created_at + s.ttl) age_at
      then (none, record s { store = Dict.del s.store key })
      else (some r, s)

  unfoldable pub get :
      Readings → String → IdempotencyStore R → Option (IdempotencyRecord R) × IdempotencyStore R
  unfolding fetched
  get t key s = let s' = cleanup_expired t s in fetched t.age_at key s' (Dict.get s'.store key)

  abbrev pub new_record : ℕ → IdempotencyRecord R
  new_record now = record {
    status = pending;
    response = none;
    status_code = none;
    created_at = now;
    completed_at = none;
  }

  unfoldable pub put_pending :
      ℕ → String → Option (IdempotencyRecord R) × IdempotencyStore R → Bool × IdempotencyStore R
  put_pending now key (some r, s) = (false, s)
  put_pending now key (none, s) = (true, record s { store = Dict.put s.store key (new_record now) })

  unfoldable pub set_pending :
      Readings → ℕ → String → IdempotencyStore R → Bool × IdempotencyStore R
  unfolding put_pending
  set_pending t now key s = put_pending now key (get t key s)

  abbrev pub as_completed : ℕ → R → ℕ → Option (IdempotencyRecord R) → IdempotencyRecord R
  as_completed now response code none = record {
    status = completed;
    response = some response;
    status_code = some code;
    created_at = now;
    completed_at = some now;
  }
  as_completed now response code (some r) = record r {
    status = completed;
    response = some response;
    status_code = some code;
    completed_at = some now;
  }

  unfoldable pub set_completed : ℕ → String → R → ℕ → IdempotencyStore R → IdempotencyStore R
  set_completed now key response code s = record s {
    store = Dict.put s.store key (as_completed now response code (Dict.get s.store key));
  }

  abbrev pub failed_in :
      ℕ → String → R → IdempotencyStore R → Option (IdempotencyRecord R) → IdempotencyStore R
  failed_in now key error s none = s
  failed_in now key error s (some r) = record s {
    store =
        Dict.put s.store key
          (record r { status = failed; response = some error; completed_at = some now });
  }

  -- `error` is `{"error": …}`.
  unfoldable pub set_failed : ℕ → String → R → IdempotencyStore R → IdempotencyStore R
  set_failed now key error s = failed_in now key error s (Dict.get s.store key)

  unfoldable pub delete : String → IdempotencyStore R → IdempotencyStore R
  delete key s = record s { store = Dict.del s.store key }

-- What the wrapper does with a request before it runs the function: it runs it, answers with the
-- stored response, or raises `DuplicateRequestError`.
pub data Begun (R : Type 0) : Type 0 where
  execute : Begun R
  replay : R → Begun R
  duplicate : Begun R

-- The clocks of the wrapper: its own `get`, the `get` of `set_pending`, and the record's creation.
pub record BeginTimes : Type 0 where
  pub first : Readings
  pub second : Readings
  pub create_at : ℕ

module _ {R : Type 0} (filled : R → Bool) where
  unfoldable pub replayable : IdempotencyRecord R → Option R
  replayable r = elim r.response [
    | none ↦ none
    | some b ↦ if is_completed r.status && filled b then some b else none
  ]

  abbrev pub started : Bool × IdempotencyStore R → Begun R × IdempotencyStore R
  started (true, s) = (execute, s)
  started (false, s) = (duplicate, s)

  abbrev pub claim : BeginTimes → String → IdempotencyStore R → Begun R × IdempotencyStore R
  claim t key s = started (set_pending t.second t.create_at key s)

  abbrev pub replay_or :
      Option R → Begun R × IdempotencyStore R → IdempotencyStore R → Begun R × IdempotencyStore R
  replay_or none claimed s = claimed
  replay_or (some b) claimed s = (replay b, s)

  unfoldable pub begin_found :
      BeginTimes
      → String
      → Option (IdempotencyRecord R) × IdempotencyStore R
      → Begun R × IdempotencyStore R
  unfolding replayable
  begin_found t key (none, s) = claim t key s
  begin_found t key (some r, s) =
      if is_pending r.status
      then (duplicate, s)
      else replay_or (replayable r) (claim t key (if is_failed r.status then delete key s else s)) s

  -- The wrapper up to the call of the function, which runs without interruption.
  unfoldable pub begin : BeginTimes → String → IdempotencyStore R → Begun R × IdempotencyStore R
  begin t key s = begin_found t key (get t.first key s)

-- What the caller of a wrapped function gets.
pub data Reply (A R : Type 0) : Type 0 where
  fresh : A → Reply A R
  stored : R → Reply A R
  conflict : Reply A R
  error : Exc → Reply A R

module _ {A R : Type 0} (filled : R → Bool) (error_body : Text → R) (to_dict : A → R) where
  -- The wrapper after the function, also without interruption.
  unfoldable pub finish :
      ℕ → String → Result A → IdempotencyStore R → Reply A R × IdempotencyStore R
  finish now key (ok a) s = (fresh a, set_completed now key (to_dict a) 200 s)
  finish now key (raise e) s = (error e, set_failed now key (error_body (message e)) s)

  abbrev pub after_begin :
      ℕ → String → Result A → Begun R × IdempotencyStore R → Bool × Reply A R × IdempotencyStore R
  after_begin now key outcome (execute, s) =
      let (reply, s') = finish now key outcome s in (true, reply, s')
  after_begin now key outcome (replay b, s) = (false, stored b, s)
  after_begin now key outcome (duplicate, s) = (false, conflict, s)

  abbrev pub unkeyed : Result A → Reply A R
  unkeyed (ok a) = fresh a
  unkeyed (raise e) = error e

  -- A request alone, with what the function would return; the first part says whether it ran.
  unfoldable pub wrapper :
      BeginTimes
      → ℕ
      → Option String
      → Result A
      → IdempotencyStore R
      → Bool × Reply A R × IdempotencyStore R
  wrapper t now none outcome s = (true, unkeyed outcome, s)
  wrapper t now (some key) outcome s = after_begin now key outcome (begin filled t key s)
