-- ===== src/Worker.antt =====
-- app/workers/application_worker.py, with the parts of app/services/application_uploader_service.py and
-- app/services/queue_service.py that it calls. Every call of a service outside the program (the
-- database, the message broker) may raise: `faults` lists, for the calls to come, what each raises, and
-- an exhausted list means that all go well. A failed call has no effect.
pub mod Triples
pub mod Outcome
pub mod Safety
pub mod Calm
pub mod Requeue
use application_workflow_ser.Base.{
  ℕ, zero, suc, ◌+◌, String, Bool, true, false, not, ◌&&◌, ◌||◌, Option, none, some, List, [], ◌∷◌,
  ◌++◌, if◌then◌else◌, str_eq, length,
}
use application_workflow_ser.Text.{Text, text, lower, occurs}
use application_workflow_ser.Errors.{
  Exc, message, retryable, non_retryable, max_retries_exceeded, database, other, Result, ok, raise,
}
use application_workflow_ser.Mongo.{Collection}
use application_workflow_ser.Retry.{
  RetrySettings, Done, RetryContext, new_context, record_error, retry_with_backoff,
}

-- app/models/application.py: `ApplicationStatus`
pub data ApplicationStatus : Type 0 where
  pending processing success failed : ApplicationStatus

-- The fields of the document that the worker reads or writes; times are left out but for whether
-- `processed_at` is set.
pub record Application : Type 0 where
  pub user_id : String
  pub job_count : ℕ
  pub status : ApplicationStatus
  pub processed : Bool
  pub error_reason : Option Text

-- What is sent to the broker.
pub data Published : Type 0 where
  status_changed : String → ApplicationStatus → Published
  dead_letter : String → Text → Published

pub data Reply : Type 0 where
  ack : Reply
  reject : Bool → Reply

abbrev pub is_terminal : ApplicationStatus → Bool
is_terminal success = true
is_terminal failed = true
is_terminal _ = false

abbrev pub is_failed : ApplicationStatus → Bool
is_failed failed = true
is_failed _ = false

-- `if error_reason`, a text that is there and not empty
abbrev pub truthy : Option Text → Bool
truthy none = false
truthy (some []) = false
truthy (some (c ∷ t)) = true

-- The update document of `update_application_status`, as a change of the application.
unfoldable pub with_status : ApplicationStatus → Option Text → Application → Application
with_status status error_reason a = record a {
  status = status;
  processed = if is_terminal status then true else a.processed;
  error_reason = if truthy error_reason && is_failed status then error_reason else a.error_reason;
}

retryable_patterns : List Text
retryable_patterns =
    text "timeout"
    ∷ text "connection"
    ∷ text "network"
    ∷ text "temporarily unavailable"
    ∷ text "rate limit"
    ∷ text "too many requests"
    ∷ text "503"
    ∷ text "504"
    ∷ text "502"
    ∷ []

any_occurs : List Text → Text → Bool
any_occurs [] t = false
any_occurs (p ∷ ps) t = occurs p t || any_occurs ps t

unfoldable pub is_retryable_error : Exc → Bool
unfolding any_occurs retryable_patterns
is_retryable_error e = any_occurs retryable_patterns (lower (message e))

-- `(RetryableError,)`
unfoldable pub is_listed : Exc → Bool
is_listed (retryable m) = true
is_listed _ = false

-- What the program runs on: the collection of applications; the texts that `ObjectId` accepts, and
-- the message of the exception that it raises for the others; and what `str` gives of a
-- `DatabaseOperationError` with a message (a framework's rendering, with a time stamp in it).
pub record Platform : Type 1 where
  pub db : Collection Application
  pub valid_id : String → Bool
  pub invalid_id : String → Text
  pub render : Text → Text

-- What the broker delivers: a body that is not JSON, one that cannot be read as an object with
-- `body.get`, or the two fields that the worker needs.
pub data Message : Type 0 where
  not_json : Message
  unreadable : Exc → Message
  fields : Option String → Option String → Message

module _ (p : Platform) where
  open p use {db, valid_id, invalid_id, render}

  pub record World : Type 0 where
    pub applications : db.Store
    pub faults : List (Option Exc)
    pub published : List Published

  abbrev pub M : Type 0 → Type 0
  M A = World → Result A × World

  abbrev pub continue : {A B : Type 0} → Result A → (A → M B) → M B
  continue (ok a) f w = f a w
  continue (raise e) f w = (raise e, w)

  infixl 5 ◌>>=◌ ◌>>◌
  abbrev pub ◌>>=◌ : {A B : Type 0} → M A → (A → M B) → M B
  ◌>>=◌ m f w = let (r, w') = m w in continue r f w'

  abbrev pub ◌>>◌ : {A B : Type 0} → M A → M B → M B
  m >> k = m >>= λ _. k

  abbrev pub pure : {A : Type 0} → A → M A
  pure a w = (ok a, w)

  abbrev pub throw : {A : Type 0} → Exc → M A
  throw e w = (raise e, w)

  -- The world of a call that does not raise, and the exception of one that does.
  unfoldable pub answer : List (Option Exc) → World → Option Exc × World
  answer [] w = (none, w)
  answer (f ∷ rest) w = (f, record w { faults = rest })

  abbrev pub perform : {A : Type 0} → (World → A × World) → Option Exc → M A
  perform effect none w = let (a, w') = effect w in (ok a, w')
  perform effect (some e) w = (raise e, w)

  unfoldable pub call : {A : Type 0} → (World → A × World) → M A
  call effect w = let (fault, w') = answer w.faults w in perform effect fault w'

  unfoldable pub publish : Published → M (Unit {0})
  publish m = call (λ w. (tt, record w { published = w.published ++ m ∷ [] }))

  unfoldable pub find : String → M (Option Application)
  find id = call (λ w. (db.find_one w.applications id, w))

  unfoldable pub write : String → (Application → Application) → M Bool
  write id f = call (λ w. (
    db.modified w.applications id f,
    record w { applications = db.update_one w.applications id f },
  ))

  unfoldable pub object_id : String → M (Unit {0})
  object_id id = if valid_id id then pure tt else throw (other (invalid_id id))

  -- `if doc: await publish_status_changed(…)`
  unfoldable pub announce : String → ApplicationStatus → Option Application → M (Unit {0})
  announce id status none = pure tt
  announce id status (some a) = publish (status_changed id status)

  unfoldable pub notify : String → ApplicationStatus → Bool → M Bool
  notify id status false = pure false
  notify id status true = do doc ← find id; announce id status doc; pure true

  -- `except Exception as e: raise DatabaseOperationError(f"{prefix}{e}")`
  abbrev pub as_database_error : {A : Type 0} → Text → Result A → Result A
  as_database_error prefix (ok a) = ok a
  as_database_error prefix (raise e) = raise (database (render (prefix ++ message e)))

  abbrev pub wrapping : {A : Type 0} → Text → M A → M A
  wrapping prefix m w = let (r, w') = m w in (as_database_error prefix r, w')

  unfoldable pub update_application_status : String → ApplicationStatus → Option Text → M Bool
  update_application_status id status error_reason =
      wrapping (text "Error updating application status: ") do
        object_id id
        modified ← write id (with_status status error_reason)
        notify id status modified

  unfoldable pub finish : String → Option Application → M (Unit {0})
  finish id none = throw (non_retryable (text "Application " ++ (text id ++ text " not found")))
  finish id (some a) = do update_application_status id success none; pure tt

  -- The `except` clauses of `process_application`.
  unfoldable pub classified : {A : Type 0} → Result A → Result A
  classified (ok a) = ok a
  classified (raise (non_retryable m)) = raise (non_retryable m)
  classified (raise e) =
      if is_retryable_error e
      then raise (retryable (message e))
      else raise (non_retryable (message e))

  abbrev pub classifying : {A : Type 0} → M A → M A
  classifying m w = let (r, w') = m w in (classified r, w')

  -- The first update stands above the `try`.
  unfoldable pub process_application : String → M (Unit {0})
  process_application id = do
    update_application_status id processing none
    classifying do object_id id; doc ← find id; finish id doc

  -- app/services/queue_service.py: a failure is swallowed.
  abbrev pub swallow : Result (Unit {0}) → Result Bool
  swallow (ok _) = ok true
  swallow (raise e) = ok false

  unfoldable pub publish_to_dlq : String → Text → M Bool
  publish_to_dlq id error w = let (r, w') = publish (dead_letter id error) w in (swallow r, w')

  -- `await message.ack()`
  unfoldable pub acknowledge : M (Unit {0})
  acknowledge = call (λ w. (tt, w))

  -- `str(e.last_error)`
  abbrev pub last_text : Option Text → Text
  last_text none = text "None"
  last_text (some m) = m

  -- What follows `retry_with_backoff` in `handle_message`, by its result.
  unfoldable pub settle : String → Result (Unit {0}) → M (Unit {0})
  settle id (ok _) = acknowledge
  settle id (raise (non_retryable m)) = do update_application_status id failed (some m); acknowledge
  settle id (raise (max_retries_exceeded m last attempts)) = do
    update_application_status id failed (some (text "Max retries exceeded: " ++ last_text last))
    publish_to_dlq id (last_text last)
    acknowledge
  settle id (raise e) = throw e

  unfoldable pub attempt_all : RetrySettings → String → World → Done World (Unit {0})
  attempt_all s id w =
      retry_with_backoff s is_listed (process_application id) (some s.max_retries) w

  -- `on_retry=lambda _attempt, err: ctx.record_error(err)`
  unfoldable pub recorded : RetryContext → List (ℕ × Exc) → RetryContext
  recorded c [] = c
  recorded c ((attempt, e) ∷ rest) = recorded (record_error c e) rest

  pub record Handled : Type 0 where
    pub reply : Reply
    pub world : World
    pub context : Option RetryContext

  -- The outer `except Exception`.
  abbrev pub outer : Option RetryContext → Result (Unit {0}) × World → Handled
  outer c (ok _, w) = record { reply = ack; world = w; context = c }
  outer c (raise e, w) = record { reply = reject true; world = w; context = c }

  unfoldable pub handle_fields : RetrySettings → String → World → Handled
  handle_fields s id w =
      let d = attempt_all s id w in
      let context = recorded (new_context s none) d.log.retries in
      outer (some context) (settle id d.result d.state)

  -- `not application_id or not user_id`
  abbrev pub given : Option String → Bool
  given none = false
  given (some s) = not (str_eq s "")

  unfoldable pub handle_message : RetrySettings → Message → World → Handled
  handle_message s not_json w = record { reply = reject false; world = w; context = none }
  handle_message s (unreadable e) w = record { reply = reject true; world = w; context = none }
  handle_message s (fields none user_id) w = record {
    reply = reject false;
    world = w;
    context = none;
  }
  handle_message s (fields (some id) user_id) w =
      let handled = handle_fields s id w in
      if given (some id) && given user_id
      then handled
      else record { reply = reject false; world = w; context = none }
