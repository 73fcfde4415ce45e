-- ===== src/Worker/Outcome.antt =====
-- app/workers/application_worker.py: what the steps of the worker do to the status of an application.
use application_workflow_ser.Base.{
  ◌≡◌, refl, ◌∙◌, String, Bool, true, false, Option, none, some, [], ◌∷◌, eq_refl, ap, ◌++◌,
}
use application_workflow_ser.Text.{Text, text}
use application_workflow_ser.Mongo.{changed}
use application_workflow_ser.Worker.{
  ApplicationStatus, processing, success, Application, Published, status_changed, with_status,
  Platform, World, M, call, publish, find, write, object_id, announce, notify,
  update_application_status, finish, process_application, acknowledge,
}
use application_workflow_ser.Worker.Triples.{
  Triple, Mode, Triple-pure, Triple-bind, Triple-wrapping, Triple-classifying,
}

module _ (p : Platform) (id : String) where
  -- The application is in the collection; with a status.
  abbrev pub Stored : p.db.Store → Type 0
  Stored s = (a : Application) × (p.db.find_one s id ≡ some a)

  abbrev pub Has : ApplicationStatus → p.db.Store → Type 0
  Has status s = (a : Application) × (p.db.find_one s id ≡ some a) × (a.status ≡ status)

  pub Has-Stored : (status : ApplicationStatus) (s : p.db.Store) → Has status s → Stored s
  Has-Stored status s (a, h, e) = (a, h)

  update-Has :
      (status : ApplicationStatus) (reason : Option Text) (s : p.db.Store)
      → Stored s
      → Has status (p.db.update_one s id (with_status status reason))
  unfolding with_status
  update-Has status reason s (a, h) = (
    with_status status reason a,
    p.db.find-update s id id (with_status status reason)
        ∙ rw (eq_refl id) (ap (changed (with_status status reason)) h),
    refl,
  )

module _ (p : Platform) (mode : Mode p) (id : String) (valid : p.valid_id id ≡ true) where
  open mode use {on, err, weaken, sound, call_rule}

  abbrev pub Step :
      {A : Type 0} → (p.db.Store → Type 0) → (A → p.db.Store → Type 0) → M p A → Type 0
  Step X Y m = Triple p (on X) (λ a. on (Y a)) (err (Stored p id)) m

  quiet :
      {A : Type 0} (X : p.db.Store → Type 0) (effect : World p → A × World p)
      → ((s : p.db.Store) → X s → Stored p id s)
      → ((w : World p) → (effect w).1.applications ≡ w.applications)
      → ((w : World p) → (effect w).1.faults ≡ w.faults)
      → Step X (λ _. X) (call p effect)
  quiet {A} X effect keep same_docs same =
      call_rule A X (λ _. X) (Stored p id) effect (λ w x. rw (same_docs w) x) same keep

  object_id-Step : Step (Stored p id) (λ _. Stored p id) (object_id p id)
  unfolding object_id
  object_id-Step = rw valid (Triple-pure p tt (λ w h. h))

  -- The application that is read is the one in the collection.
  find-Step :
      (X : p.db.Store → Type 0)
      → ((s : p.db.Store) → X s → Stored p id s)
      → Step X (λ o s. (o ≡ p.db.find_one s id) × X s) (find p id)
  unfolding find
  find-Step X keep =
      call_rule (Option Application) X (λ o s. (o ≡ p.db.find_one s id) × X s) (Stored p id)
        (λ w. (p.db.find_one w.applications id, w)) (λ w x. (refl, x)) (λ w. refl) keep

  pub publish-Step :
      (m : Published) (X : p.db.Store → Type 0)
      → ((s : p.db.Store) → X s → Stored p id s)
      → Step X (λ _. X) (publish p m)
  unfolding publish
  publish-Step m X keep =
      quiet X (λ w. (tt, record w { published = w.published ++ m ∷ [] })) keep (λ w. refl)
        (λ w. refl)

  module _ (status : ApplicationStatus) where
    write-Step :
        (reason : Option Text)
        → Step (Stored p id) (λ _. Has p id status) (write p id (with_status status reason))
    unfolding write
    write-Step reason =
        call_rule Bool (Stored p id) (λ _. Has p id status) (Stored p id)
          (λ w. (
            p.db.modified w.applications id (with_status status reason),
            record w {
              applications = p.db.update_one w.applications id (with_status status reason);
            },
          ))
          (λ w x. update-Has p id status reason w.applications x) (λ w. refl) (λ s x. x)

    announce-Step :
        (doc : Option Application)
        → Triple p
            (on (λ s. (doc ≡ p.db.find_one s id) × Has p id status s))
            (λ _. on (Has p id status))
            (err (Stored p id))
            (announce p id status doc)
    unfolding announce
    announce-Step none = Triple-pure p tt (weaken _ _ (λ s x. x.1))
    announce-Step (some a) = record {
      at = λ w x.
          (publish-Step (status_changed id status) (Has p id status) (Has-Stored p id status)).at w
            (weaken _ _ (λ s y. y.1) w x);
    }

    notify-Step : (b : Bool) → Step (Has p id status) (λ _. Has p id status) (notify p id status b)
    unfolding notify
    notify-Step false = Triple-pure p false (λ w h. h)
    notify-Step true =
        Triple-bind p _ _ (find-Step (Has p id status) (Has-Stored p id status))
          (λ doc. Triple-bind p _ _ (announce-Step doc) (λ _. Triple-pure p true (λ w h. h)))

    pub update-Step :
        (reason : Option Text)
        → Step (Stored p id) (λ _. Has p id status) (update_application_status p id status reason)
    unfolding update_application_status
    update-Step reason =
        Triple-wrapping p (text "Error updating application status: ") _ (
          Triple-bind p _ _ object_id-Step (λ _. Triple-bind p _ _ (write-Step reason) notify-Step))

  finish-Step :
      (doc : Option Application)
      → Triple p
          (on (λ s. (doc ≡ p.db.find_one s id) × Stored p id s))
          (λ _. on (Has p id success))
          (err (Stored p id))
          (finish p id doc)
  unfolding finish
  finish-Step none = record {
    at = λ w x. absurd (sound w (weaken _ (λ _. ⊥) (λ s y. cc (y.0 ∙ y.1.1)) w x));
  }
  finish-Step (some a) =
      Triple-bind p _ _
        (record { at = λ w x. (update-Step success none).at w (weaken _ _ (λ s y. y.1) w x) })
        (λ _. Triple-pure p tt (λ w h. h))

  -- One attempt: where it returns, the application has status `success`.
  pub process-Step : Step (Stored p id) (λ _. Has p id success) (process_application p id)
  unfolding process_application
  process-Step = Triple-bind p _ _ (update-Step processing none) (λ _. Triple-classifying p _ (
      Triple-bind p {Q = λ _. on (Stored p id)} _ _
        (record { at = λ w x. object_id-Step.at w (weaken _ _ (Has-Stored p id processing) w x) })
        (λ _. Triple-bind p _ _ (find-Step (Stored p id) (λ s x. x)) finish-Step)))

  pub acknowledge-Step :
      (X : p.db.Store → Type 0)
      → ((s : p.db.Store) → X s → Stored p id s)
      → Step X (λ _. X) (acknowledge p)
  unfolding acknowledge
  acknowledge-Step X keep = quiet X (λ w. (tt, w)) keep (λ w. refl) (λ w. refl)
