-- ===== src/Worker/Triples.antt =====
-- Conditions before and after the steps of the worker, whether they return or raise.
use application_workflow_ser.Base.{
  ◌≡◌, refl, ◌∙◌, Option, none, some, List, [], ◌∷◌, Bool-cases, inl, inr,
}
use application_workflow_ser.Text.{Text}
use application_workflow_ser.Errors.{Exc, Result, ok, raise, non_retryable}
use application_workflow_ser.Retry.Keeps.{After}
use application_workflow_ser.Worker.{
  Platform, World, M, continue, ◌>>=◌, wrapping, as_database_error, classifying, classified, call,
  answer, perform, is_retryable_error,
}

module _ (p : Platform) where
  pub record Triple {A : Type 0} (P : World p → Type 0) (Q : A → World p → Type 0)
      (E : World p → Type 0) (m : M p A) : Type 0 where
    pub at : (w : World p) → P w → After Q E (m w).0 (m w).1

module _ (p : Platform) {A : Type 0} (Q : A → World p → Type 0) (E : World p → Type 0) where
  as_database_error-After :
      (t : Text) (r : Result A) (w : World p)
      → After Q E r w
      → After Q E (as_database_error p t r) w
  as_database_error-After t (ok a) w h = h
  as_database_error-After t (raise e) w h = h

  classified-After : (r : Result A) (w : World p) → After Q E r w → After Q E (classified p r) w
  unfolding classified
  classified-After (ok a) w h = h
  classified-After (raise (non_retryable m)) w h = h
  classified-After (raise e) w h = elim (Bool-cases (is_retryable_error e)) [
    | inl again ↦ rw again h
    | inr never ↦ rw never h
  ]

module _ (p : Platform) {A B : Type 0} (Q : A → World p → Type 0) (R : B → World p → Type 0)
    (E : World p → Type 0) where
  continue-After :
      (f : A → M p B) (r : Result A) (w : World p)
      → ((a : A) → Triple p (Q a) R E (f a))
      → After Q E r w
      → After R E (continue p r f w).0 (continue p r f w).1
  continue-After f (ok a) w k h = (k a).at w h
  continue-After f (raise e) w k h = h

module _ (p : Platform) {A : Type 0} {P : World p → Type 0} {Q : A → World p → Type 0}
    {E : World p → Type 0} where
  pub Triple-pure : (a : A) → ((w : World p) → P w → Q a w) → Triple p P Q E (λ w. (ok a, w))
  Triple-pure a h = record { at = h }

  pub Triple-bind :
      {B : Type 0} {R : B → World p → Type 0} (m : M p A) (f : A → M p B)
      → Triple p P Q E m
      → ((a : A) → Triple p (Q a) R E (f a))
      → Triple p P R E (◌>>=◌ p m f)
  Triple-bind {B} {R} m f h k = record {
    at = λ w x. let (r, w') = m w in continue-After p Q R E f r w' k (h.at w x);
  }

  pub Triple-wrapping : (t : Text) (m : M p A) → Triple p P Q E m → Triple p P Q E (wrapping p t m)
  Triple-wrapping t m h = record {
    at = λ w x. let (r, w') = m w in as_database_error-After p Q E t r w' (h.at w x);
  }

  pub Triple-classifying : (m : M p A) → Triple p P Q E m → Triple p P Q E (classifying p m)
  Triple-classifying m h = record {
    at = λ w x. let (r, w') = m w in classified-After p Q E r w' (h.at w x);
  }

  -- A call: what its effect establishes where it does not raise, and what a raise leaves.
  pub Triple-call :
      (effect : World p → A × World p)
      → ((w : World p)
          → P w
          → (answer p w.faults w).0 ≡ none
          → let r = effect (answer p w.faults w).1 in Q r.0 r.1)
      → ((w : World p)
          → P w
          → (e : Exc) → (answer p w.faults w).0 ≡ some e
          → E (answer p w.faults w).1)
      → Triple p P Q E (call p effect)
  unfolding call
  Triple-call effect good bad = record { at = λ w x. by_fault w x (answer p w.faults w).0 refl }
    where
      by_fault :
          (w : World p)
          → P w
          → (o : Option Exc) → (answer p w.faults w).0 ≡ o
          → let r = perform p effect o (answer p w.faults w).1 in After Q E r.0 r.1
      by_fault w x none e = good w x e
      by_fault w x (some c) e = bad w x c e

-- How conditions on the collection are carried through calls: with failures (a raise leaves the
-- condition `err`), or in a world where nothing is going to fail, where nothing raises.
pub record Mode (p : Platform) : Type 1 where
  pub on : (p.db.Store → Type 0) → World p → Type 0
  pub err : (p.db.Store → Type 0) → World p → Type 0
  pub weaken :
      (X Y : p.db.Store → Type 0) → ((s : p.db.Store) → X s → Y s) → (w : World p) → on X w → on Y w
  pub sound : (w : World p) → on (λ _. ⊥) w → ⊥
  pub call_rule :
      (A : Type 0) (X : p.db.Store → Type 0) (Y : A → p.db.Store → Type 0) (Z : p.db.Store → Type 0)
      (effect : World p → A × World p)
      → ((w : World p) → X w.applications → Y (effect w).0 (effect w).1.applications)
      → ((w : World p) → (effect w).1.faults ≡ w.faults)
      → ((s : p.db.Store) → X s → Z s)
      → Triple p (on X) (λ a. on (Y a)) (err Z) (call p effect)

module _ (p : Platform) where
  pub answer-docs :
      (fs : List (Option Exc)) (w : World p) → (answer p fs w).1.applications ≡ w.applications
  unfolding answer
  answer-docs [] w = refl
  answer-docs (f ∷ fs) w = refl

  pub answer_calm : (fs : List (Option Exc)) (w : World p) → fs ≡ [] → answer p fs w ≡ (none, w)
  unfolding answer
  answer_calm [] w h = refl
  answer_calm (f ∷ fs) w h = cc

  pub calm_never : (w : World p) (c : Exc) → w.faults ≡ [] → (answer p w.faults w).0 ≡ some c → ⊥
  calm_never w c h e = cc (answer_calm w.faults w h)

  -- Any call may fail.
  abbrev pub failing : Mode p
  failing = record {
    on = λ X w. X w.applications;
    err = λ X w. X w.applications;
    weaken = λ X Y f w. f w.applications;
    sound = λ w h. h;
    call_rule = λ A X Y Z effect good same keep.
        Triple-call p effect (λ w x e. good (answer p w.faults w).1 (rw (answer-docs w.faults w) x))
          (λ w x c e. rw (answer-docs w.faults w) (keep w.applications x));
  }

  -- No call is going to fail.
  abbrev pub calm : Mode p
  calm = record {
    on = λ X w. (w.faults ≡ []) × X w.applications;
    err = λ X w. ⊥;
    weaken = λ X Y f w h. (h.0, f w.applications h.1);
    sound = λ w h. h.1;
    call_rule = λ A X Y Z effect good same keep.
        Triple-call p effect (λ w x e. rw (answer_calm w.faults w x.0) (same w ∙ x.0, good w x.1))
          (λ w x c e. calm_never w c x.0 e);
  }
