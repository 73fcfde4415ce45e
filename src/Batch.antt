-- ===== src/Batch.antt =====
-- app/services/batch_service.py: the batches in memory. The background task runs in pieces between its
-- awaits, so that a cancellation or another batch may come between any two. What the creation of an
-- application gives is an argument, and the WebSocket updates are values. A batch's dict is one object
-- that the store and the task share: the task changes the store's entry.
pub mod Steps
pub mod Counts
pub mod Final
use application_workflow_ser.Base.{
  ℕ, zero, suc, ◌+◌, String, Bool, true, false, not, ◌||◌, Option, none, some, List, [], ◌∷◌, ◌++◌,
  str_eq, ◌==◌, if◌then◌else◌,
}
use application_workflow_ser.Base.Dict
use application_workflow_ser.Base.Dict.{Dict}
use application_workflow_ser.Text.{Text, text}
use application_workflow_ser.Errors.{Result, ok, raise, message}

pub data BatchStatus : Type 0 where
  pending : BatchStatus
  processing : BatchStatus
  completed : BatchStatus
  partial : BatchStatus
  failed : BatchStatus

pub data ItemStatus : Type 0 where
  item_pending : ItemStatus
  submitted : ItemStatus
  item_failed : ItemStatus

pub record BatchResult : Type 0 where
  pub index : ℕ
  pub application_id : Option Text
  pub status : ItemStatus
  pub error : Option Text

pub record BatchData : Type 0 where
  pub user_id : String
  pub status : BatchStatus
  pub total : ℕ
  pub processed : ℕ
  pub succeeded : ℕ
  pub failed : ℕ
  pub results : List BatchResult
  pub created_at : ℕ
  pub completed_at : Option ℕ

-- What `send_batch_update` is given.
pub record Update : Type 0 where
  pub batch_id : String
  pub status : BatchStatus
  pub total : ℕ
  pub processed : ℕ
  pub failed : ℕ

abbrev pub new_batch : ℕ → String → ℕ → BatchData
new_batch now user n = record {
  user_id = user;
  status = pending;
  total = n;
  processed = 0;
  succeeded = 0;
  failed = 0;
  results = [];
  created_at = now;
  completed_at = none;
}

-- The `try` block of the loop: the result of one item, and whether it succeeded.
unfoldable pub item_result : ℕ → Result Text → Bool × BatchResult
item_result i (ok []) = (
  false,
  record {
    index = i;
    application_id = none;
    status = item_failed;
    error = some (text "Failed to create application");
  },
)
item_result i (ok (c ∷ id)) =
    (true, record { index = i; application_id = some (c ∷ id); status = submitted; error = none })
item_result i (raise e) = (
  false,
  record { index = i; application_id = none; status = item_failed; error = some (message e) },
)

-- One round of the loop.
unfoldable pub process_item : ℕ → Result Text → BatchData → BatchData
process_item i outcome d =
    let (good, result) = item_result i outcome in
    record d {
      succeeded = if good then suc d.succeeded else d.succeeded;
      failed = if good then d.failed else suc d.failed;
      results = d.results ++ result ∷ [];
      processed = suc d.processed;
    }

unfoldable pub final_status : ℕ → ℕ → BatchStatus
final_status succeeded failed' =
    if failed' == 0 then completed else if succeeded == 0 then failed else partial

unfoldable pub finish : ℕ → BatchData → BatchData
finish now d = record d { status = final_status d.succeeded d.failed; completed_at = some now }

abbrev pub is_open : BatchStatus → Bool
is_open pending = true
is_open processing = true
is_open _ = false

unfoldable pub cancelled : ℕ → String → BatchData → Bool × BatchData
cancelled now user d =
    if not (str_eq d.user_id user)
    then (false, d)
    else if not (is_open d.status)
    then (false, d)
    else (true, record d { status = failed; completed_at = some now })

abbrev pub update_of : String → BatchData → ℕ → BatchStatus → Update
update_of id d n s = record {
  batch_id = id;
  status = s;
  total = n;
  processed = d.processed;
  failed = d.failed;
}

-- `_process_batch` between two awaits: not started, with the next index and the number of items left
-- (their sum is `len(items)`), or done.
pub data Task : Type 0 where
  queued : ℕ → Task
  at_item : (index left : ℕ) → Task
  done : Task

-- `_batch_store`, the background tasks, and the updates sent.
pub record World : Type 0 where
  pub store : Dict BatchData
  pub tasks : Dict Task
  pub updates : List Update

unfoldable pub create_batch : ℕ → String → String → ℕ → World → World
create_batch now id user n w = record w {
  store = Dict.put w.store id (new_batch now user n);
  tasks = Dict.put w.tasks id (queued n);
}

-- A piece of the task that leaves a batch, its next stage and an update.
abbrev move : String → BatchData → Task → Update → World → World
move id d t u w = record {
  store = Dict.put w.store id d;
  tasks = Dict.put w.tasks id t;
  updates = w.updates ++ u ∷ [];
}

-- The first piece sends no counts of the batch.
unfoldable pub begin_batch : String → ℕ → BatchData → World → World
begin_batch id n d w =
    let u : Update = record {
      batch_id = id;
      status = processing;
      total = n;
      processed = 0;
      failed = 0;
    } in
    move id (record d { status = processing }) (at_item 0 n) u w

unfoldable pub item_step : String → ℕ → ℕ → Result Text → BatchData → World → World
unfolding process_item
item_step id i left outcome d w =
    let d' = process_item i outcome d in
    move id d' (at_item (suc i) left) (update_of id d' (suc (i + left)) processing) w

unfoldable pub finish_step : String → ℕ → ℕ → BatchData → World → World
unfolding finish final_status
finish_step id i now d w = let d' = finish now d in move id d' done (update_of id d' i d'.status) w

unfoldable pub cancel_found : ℕ → String → String → Option BatchData → World → Bool × World
unfolding cancelled
cancel_found now id user none w = (false, w)
cancel_found now id user (some d) w =
    let (answer, d') = cancelled now user d in (answer, record w { store = Dict.put w.store id d' })

unfoldable pub cancel_batch : ℕ → String → String → World → Bool × World
unfolding cancel_found
cancel_batch now id user w = cancel_found now id user (Dict.get w.store id) w

unfoldable pub owned : String → Option BatchData → Option BatchData
owned user none = none
owned user (some d) = if not (str_eq d.user_id user) then none else some d

unfoldable pub get_batch_status : String → String → World → Option BatchData
unfolding owned
get_batch_status id user w = owned user (Dict.get w.store id)
