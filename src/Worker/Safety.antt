-- ===== src/Worker/Safety.antt =====
-- app/workers/application_worker.py: what the reply to a message says about its application.
use application_workflow_ser.Base.{
  ◌≡◌, refl, ◌⊎◌, inl, inr, String, Bool, true, false, ◌&&◌, Option, some, [], ◌∷◌, ◌++◌,
  if◌then◌else◌,
}
use application_workflow_ser.Text.{Text, text}
use application_workflow_ser.Errors.{
  Result, ok, raise, retryable, non_retryable, max_retries_exceeded, database, other,
}
use application_workflow_ser.Retry.Keeps.{After, retry-After}
use application_workflow_ser.Retry.{RetrySettings, RetryContext}
use application_workflow_ser.Worker.{
  success, failed, ack, reject, fields, Platform, World, M, update_application_status,
  process_application, publish_to_dlq, publish, acknowledge, settle, attempt_all, is_listed, given,
  Handled, handle_fields, ◌>>◌, handle_message, last_text, dead_letter, outer, swallow,
}
use application_workflow_ser.Worker.Triples.{Triple, failing, Triple-bind}
use application_workflow_ser.Worker.Outcome.{
  Stored, Has, Has-Stored, update-Step, process-Step, acknowledge-Step,
}

module _ (p : Platform) (id : String) (valid : p.valid_id id ≡ true) where
  -- The application has status `success` or `failed`.
  abbrev pub Settled : p.db.Store → Type 0
  Settled s = Has p id success s ⊎ Has p id failed s

  Settled-Stored : (s : p.db.Store) → Settled s → Stored p id s
  Settled-Stored s (inl h) = Has-Stored p id success s h
  Settled-Stored s (inr h) = Has-Stored p id failed s h

  abbrev Ends : M p (Unit {0}) → (p.db.Store → Type 0) → Type 0
  Ends m X =
      Triple p (λ w. X w.applications) (λ _ w. Settled w.applications)
        (λ w. Stored p id w.applications) m

  ack-Ends :
      (X : p.db.Store → Type 0) → ((s : p.db.Store) → X s → Settled s) → Ends (acknowledge p) X
  ack-Ends X f = record {
    at = λ w x.
        (acknowledge-Step p (failing p) id valid Settled Settled-Stored).at w (f w.applications x);
  }

  Failed : World p → Type 0
  Failed w = Has p id failed w.applications

  swallow-Failed :
      (r : Result (Unit {0})) (w : World p)
      → After (λ _. Failed) Failed r w
      → After (λ (_ : Bool). Failed) Failed (swallow p r) w
  swallow-Failed (ok _) w h = h
  swallow-Failed (raise e) w h = h

  publish-Failed :
      (error : Text) → Triple p Failed (λ _. Failed) Failed (publish p (dead_letter id error))
  unfolding publish Failed
  publish-Failed error =
      (failing p).call_rule (Unit {0}) (Has p id failed) (λ _. Has p id failed) (Has p id failed)
        (λ w. (tt, record w { published = w.published ++ dead_letter id error ∷ [] })) (λ w x. x)
        (λ w. refl) (λ s x. x)

  -- Whether or not the dead letter is sent, the status stays.
  dlq-Failed : (error : Text) → Triple p Failed (λ _ w. Failed w) Failed (publish_to_dlq p id error)
  unfolding publish_to_dlq
  dlq-Failed error = record {
    at = λ w x.
        let (r, w') = publish p (dead_letter id error) w in
        swallow-Failed r w' ((publish-Failed error).at w x);
  }

  -- From a stored application: mark it as failed, and go on.
  fail-Ends :
      (reason : Option Text) (rest : M p (Unit {0}))
      → Ends rest (Has p id failed)
      → Ends (λ w. ◌>>◌ p (update_application_status p id failed reason) rest w) (Stored p id)
  fail-Ends reason rest k =
      Triple-bind p (update_application_status p id failed reason) (λ _. rest)
        (update-Step p (failing p) id valid failed reason) (λ _. k)

  acknowledge_failed : Ends (acknowledge p) (Has p id failed)
  acknowledge_failed = ack-Ends (Has p id failed) (λ s x. inr x)

  dlq-Ends :
      (error : Text)
      → Ends (λ w. ◌>>◌ p (publish_to_dlq p id error) (acknowledge p) w) (Has p id failed)
  unfolding Failed
  dlq-Ends error =
      Triple-bind p (publish_to_dlq p id error) (λ _. acknowledge p)
        (record {
          at = λ w x.
              weaker (publish_to_dlq p id error w).0 (publish_to_dlq p id error w).1
                ((dlq-Failed error).at w x);
        })
        (λ _. acknowledge_failed)
    where
      weaker :
          (r : Result Bool) (w : World p)
          → After (λ _. Failed) Failed r w
          → After (λ _. Failed) (λ w. Stored p id w.applications) r w
      weaker (ok _) w h = h
      weaker (raise e) w h = Has-Stored p id failed w.applications h

  settle-After :
      (r : Result (Unit {0})) (w : World p)
      → After (λ _ v. Has p id success v.applications) (λ v. Stored p id v.applications) r w
      → After
          (λ _ v. Settled v.applications)
          (λ v. Stored p id v.applications)
          (settle p id r w).0
          (settle p id r w).1
  unfolding settle
  settle-After (ok _) w h = (ack-Ends (Has p id success) (λ s x. inl x)).at w h
  settle-After (raise (non_retryable m)) w h =
      (fail-Ends (some m) (acknowledge p) acknowledge_failed).at w h
  settle-After (raise (max_retries_exceeded m last attempts)) w h =
      (fail-Ends (some (text "Max retries exceeded: " ++ last_text p last)) _
          (dlq-Ends (last_text p last))).at
        w h
  settle-After (raise (retryable m)) w h = h
  settle-After (raise (database m)) w h = h
  settle-After (raise (other m)) w h = h

  attempt_all-After :
      (s : RetrySettings) (w : World p)
      → Stored p id w.applications
      → let d = attempt_all p s id w in
        After
          (λ _ v. Has p id success v.applications)
          (λ v. Stored p id v.applications)
          d.result
          d.state
  unfolding attempt_all
  attempt_all-After s w h =
      retry-After s is_listed (process_application p id) (λ _ v. Has p id success v.applications)
        (λ v. Stored p id v.applications) (process-Step p (failing p) id valid).at
        (some s.max_retries) w h

  outer-Settled :
      (c : Option RetryContext) (r : Result (Unit {0})) (w : World p)
      → After (λ _ v. Settled v.applications) (λ v. Stored p id v.applications) r w
      → (outer p c (r, w)).reply ≡ ack
      → Settled (outer p c (r, w)).world.applications
  outer-Settled c (ok _) w h e = h
  outer-Settled c (raise x) w h e = cc

  handle_fields-Settled :
      (s : RetrySettings) (w : World p)
      → Stored p id w.applications
      → (handle_fields p s id w).reply ≡ ack
      → Settled (handle_fields p s id w).world.applications
  unfolding handle_fields
  handle_fields-Settled s w h e =
      let d = attempt_all p s id w in
      outer-Settled _ (settle p id d.result d.state).0 (settle p id d.result d.state).1
        (settle-After d.result d.state (attempt_all-After s w h)) e

  if-Settled :
      (b : Bool) (x y : Handled p)
      → (x.reply ≡ ack → Settled x.world.applications)
      → y.reply ≡ reject false
      → (if b then x else y).reply ≡ ack
      → Settled (if b then x else y).world.applications
  if-Settled true x y h n e = h e
  if-Settled false x y h n e = cc

  -- Whatever calls fail: a message whose id names a stored application is acknowledged only if the
  -- application then has status `success` or `failed`.
  pub ack-Settled :
      (s : RetrySettings) (user : String) (w : World p)
      → Stored p id w.applications
      → (handle_message p s (fields (some id) (some user)) w).reply ≡ ack
      → Settled (handle_message p s (fields (some id) (some user)) w).world.applications
  unfolding handle_message
  ack-Settled s user w h e =
      if-Settled (given p (some id) && given p (some user)) (handle_fields p s id w) _
        (handle_fields-Settled s w h) refl e
