-- ===== src/Examples/Worker.antt =====
-- The worker of app/workers/application_worker.py at concrete inputs.
use application_workflow_ser.Base.{
  ◌≡◌, refl, true, false, Option, none, some, List, [], ◌∷◌, ◌++◌, str_eq,
}
use application_workflow_ser.Base.Dict
use application_workflow_ser.Text.{text, lower, occurs}
use application_workflow_ser.Errors.{Exc, other}
use application_workflow_ser.Mongo.{in_memory, update_dict, is_there}
use application_workflow_ser.Retry.{
  RetrySettings, retry_with_backoff, is_non_retryable, new_context,
}
use application_workflow_ser.Worker.{
  pending, success, Application, ack, reject, fields, Platform, World, handle_message,
  handle_fields, attempt_all, settle, recorded, process_application, finish, classified,
  update_application_status, notify, announce, object_id, write, find, publish, publish_to_dlq,
  acknowledge, call, answer, with_status, is_listed, is_retryable_error,
}
use application_workflow_ser.Worker.Outcome.{Has}
use application_workflow_ser.Worker.Safety.{Settled, ack-Settled}
use application_workflow_ser.Worker.Calm.{calm-success}
use application_workflow_ser.Worker.Requeue.{invalid_id-requeued}

program : Unit {0}
unfolding handle_message handle_fields attempt_all settle recorded process_application finish
    classified update_application_status notify announce object_id write find publish publish_to_dlq
    acknowledge call answer with_status is_listed is_retryable_error retry_with_backoff
    is_non_retryable update_dict is_there Dict.get Dict.put lower occurs
program = tt

abbrev settings : RetrySettings
settings = record { max_retries = 1; retry_base_delay = 2; retry_max_delay = 32 }

abbrev platform : Platform
platform = record {
  db = in_memory Application;
  valid_id = λ id. str_eq id "a1";
  invalid_id = λ id. text "not a valid ObjectId";
  render = λ m. text "500: " ++ m;
}

abbrev application : Application
application = record {
  user_id = "u";
  job_count = 2;
  status = pending;
  processed = false;
  error_reason = none;
}

abbrev world : List (Option Exc) → World platform
world faults = record { applications = ("a1", application) ∷ []; faults = faults; published = [] }

-- The second call of the first attempt, reading the document back, fails.
abbrev one_fault : World platform
one_fault = world (none ∷ some (other (text "Connection reset")) ∷ [])

one_fault_ack :
    (handle_message platform settings (fields (some "a1") (some "u")) one_fault).reply ≡ ack
unfolding program
one_fault_ack = refl

ack-Settled_example :
    Settled platform "a1" refl
      (handle_message platform settings
        (fields (some "a1") (some "u"))
        one_fault).world.applications
unfolding program
ack-Settled_example =
    ack-Settled platform "a1" refl settings "u" one_fault (application, refl) one_fault_ack

calm-success_example :
    let h = handle_message platform settings (fields (some "a1") (some "u")) (world []) in
    (h.reply ≡ ack)
    × Has platform "a1" success h.world.applications
    × (h.context ≡ some (new_context settings none))
unfolding program
calm-success_example =
    calm-success platform "a1" refl settings "u" (world []) refl (application, refl) refl refl

invalid_id-requeued_example :
    let h = handle_message platform settings (fields (some "x") (some "u")) (world []) in
    (h.reply ≡ reject true) × (h.world ≡ world [])
invalid_id-requeued_example =
    invalid_id-requeued platform "x" refl settings "u" (world []) refl refl
