-- ===== src/Worker/Requeue.antt =====
-- app/workers/application_worker.py: messages that go back to the queue.
use application_workflow_ser.Base.{◌≡◌, refl, String, true, false, Option, none, some, ◌++◌}
use application_workflow_ser.Text.{text, Text}
use application_workflow_ser.Errors.{Exc, raise, database}
use application_workflow_ser.Retry.{RetrySettings, is_non_retryable, unexpected}
use application_workflow_ser.Retry.Keeps.{retry-unlisted}
use application_workflow_ser.Worker.{
  reject, fields, Platform, World, ApplicationStatus, object_id, update_application_status,
  process_application, settle, attempt_all, is_listed, given, handle_fields, handle_message,
  processing, failed,
}

module _ (p : Platform) (id : String) (invalid : p.valid_id id ≡ false) where
  abbrev refusal : Exc
  refusal = database (p.render (text "Error updating application status: " ++ p.invalid_id id))

  update_refused :
      (status : ApplicationStatus) (reason : Option Text) (w : World p)
      → update_application_status p id status reason w ≡ (raise refusal, w)
  unfolding update_application_status object_id
  update_refused status reason w = rw invalid

  process_refused : (w : World p) → process_application p id w ≡ (raise refusal, w)
  unfolding process_application
  process_refused w = rw (update_refused processing none w)

  settle_refused : (w : World p) → settle p id (raise (unexpected refusal)) w ≡ (raise refusal, w)
  unfolding settle
  settle_refused w = rw (update_refused failed _ w)

  -- A message with an application id and a user, both given and not empty, where `ObjectId` refuses
  -- the id, is rejected with requeue whenever it is handled, whatever calls fail; the collection stays
  -- as it is.
  pub invalid_id-requeued :
      (s : RetrySettings) (user : String) (w : World p)
      → given p (some id) ≡ true
      → given p (some user) ≡ true
      → let h = handle_message p s (fields (some id) (some user)) w in
        (h.reply ≡ reject true) × (h.world ≡ w)
  unfolding handle_message handle_fields attempt_all is_listed is_non_retryable
  invalid_id-requeued s user w g u = rw g (
      rw u (
        rw
          (retry-unlisted s is_listed (process_application p id) (some s.max_retries) w w refusal
            (process_refused w) refl refl)
          (rw (settle_refused w) (refl, refl))))
