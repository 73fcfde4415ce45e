-- ===== src/Worker/Calm.antt =====
-- app/workers/application_worker.py: a message that is handled while no call fails.
use application_workflow_ser.Base.{◌≡◌, refl, String, true, none, some, []}
use application_workflow_ser.Errors.{Result, ok, raise}
use application_workflow_ser.Retry.Keeps.{After, retry-first}
use application_workflow_ser.Retry.{RetrySettings, new_context}
use application_workflow_ser.Worker.{
  success, ack, fields, Platform, World, process_application, settle, recorded, attempt_all,
  is_listed, given, handle_fields, handle_message, outer,
}
use application_workflow_ser.Worker.Triples.{calm}
use application_workflow_ser.Worker.Outcome.{
  Stored, Has, Has-Stored, process-Step, acknowledge-Step,
}

module _ (p : Platform) (id : String) (valid : p.valid_id id ≡ true) where
  process_calm :
      (w : World p)
      → w.faults ≡ []
      → Stored p id w.applications
      → After
          (λ _. (calm p).on (Has p id success))
          (λ v. ⊥)
          (process_application p id w).0
          (process_application p id w).1
  process_calm w c h = (process-Step p (calm p) id valid).at w (c, h)

  -- When no call fails, the message of a stored application is acknowledged after one attempt,
  -- without a recorded error, and the application has status `success`.
  pub calm-success :
      (s : RetrySettings) (user : String) (w : World p)
      → w.faults ≡ []
      → Stored p id w.applications
      → given p (some id) ≡ true
      → given p (some user) ≡ true
      → let h = handle_message p s (fields (some id) (some user)) w in
        (h.reply ≡ ack)
        × Has p id success h.world.applications
        × (h.context ≡ some (new_context s none))
  unfolding handle_message handle_fields attempt_all settle recorded
  calm-success s user w c h g u = rw g (
      rw u (
        returns (process_application p id w).0 (process_application p id w).1 refl
          (process_calm w c h)))
    where
      done :
          (r : Result (Unit {0})) (w' : World p)
          → After (λ _. (calm p).on (Has p id success)) (λ v. ⊥) r w'
          → let h = outer p (some (new_context s none)) (r, w') in
            (h.reply ≡ ack)
            × Has p id success h.world.applications
            × (h.context ≡ some (new_context s none))
      done (ok _) w' h = (refl, h.1, refl)
      done (raise e) w' h = absurd h

      returns :
          (r : Result (Unit {0})) (w' : World p)
          → process_application p id w ≡ (r, w')
          → After (λ _. (calm p).on (Has p id success)) (λ v. ⊥) r w'
          → let h = handle_fields p s id w in
            (h.reply ≡ ack)
            × Has p id success h.world.applications
            × (h.context ≡ some (new_context s none))
      returns (raise e) w' q h = absurd h
      returns (ok a) w' q h =
          rw (retry-first s is_listed (process_application p id) (some s.max_retries) w w' a q) (
            done (settle p id (ok a) w').0 (settle p id (ok a) w').1 (
              (acknowledge-Step p (calm p) id valid (Has p id success) (Has-Stored p id success)).at
                w' h))
