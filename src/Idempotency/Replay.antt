-- ===== src/Idempotency/Replay.antt =====
-- app/core/idempotency.py: two requests with one key, one after the other.
use application_workflow_ser.Base.{
  ℕ, ◌+◌, ◌≡◌, refl, String, Bool, true, false, none, some, if◌then◌else◌, inl, inr, Bool-cases,
  eq_refl,
}
use application_workflow_ser.Base.Dict
use application_workflow_ser.Base.Dict.{
  Dict, Distinct, get-put, get-del, get-keep, keep_absent, put-Distinct, del-Distinct,
}
use application_workflow_ser.Text.{Text}
use application_workflow_ser.Errors.{Exc, Result, ok, raise, message}
use application_workflow_ser.Idempotency.{
  failed, IdempotencyRecord, IdempotencyStore, BeginTimes, execute, replay, duplicate, Reply, fresh,
  stored, conflict, error, begin, finish, wrapper, set_completed, set_failed, as_completed,
  new_record,
}
use application_workflow_ser.Idempotency.Kept.{By, Holds}
use application_workflow_ser.Idempotency.Begin.{begin_new, begin-Distinct}
use application_workflow_ser.Idempotency.Found.{begin_completed, begin_failed}

module _ {A R : Type 0} (filled : R → Bool) (error_body : Text → R) (to_dict : A → R) where
  abbrev pub run_one :
      BeginTimes
      → ℕ
      → String
      → Result A
      → IdempotencyStore R
      → Bool × Reply A R × IdempotencyStore R
  run_one t now k outcome s = wrapper filled error_body to_dict t now (some k) outcome s

  run-executes :
      (t : BeginTimes) (now : ℕ) (k : String) (outcome : Result A) (s : IdempotencyStore R)
      → (begin filled t k s).0 ≡ execute
      → run_one t now k outcome s ≡ (
        true,
        (finish filled error_body to_dict now k outcome (begin filled t k s).1).0,
        (finish filled error_body to_dict now k outcome (begin filled t k s).1).1,
      )
  unfolding wrapper
  run-executes t now k outcome s e = rw e refl

  run-answers :
      (t : BeginTimes) (now : ℕ) (k : String) (outcome : Result A) (s : IdempotencyStore R) (b : R)
      → (begin filled t k s).0 ≡ (if filled b then replay b else duplicate)
      → ((run_one t now k outcome s).0 ≡ false)
        × ((run_one t now k outcome s).1 ≡ (if filled b then stored b else conflict))
  unfolding wrapper
  run-answers t now k outcome s b e = elim (Bool-cases (filled b)) [
    | inl full ↦
        let e' : (begin filled t k s).0 ≡ replay b = rw e (rw full refl) in
        rw full (rw e' (refl, refl))
    | inr empty ↦
        let e' : (begin filled t k s).0 ≡ duplicate = rw e (rw empty refl) in
        rw empty (rw e' (refl, refl))
  ]

  finish_ok :
      (t : BeginTimes) (now : ℕ) (k : String) (a : A) (s : IdempotencyStore R)
      → Distinct s.store
      → Dict.get s.store k ≡ some (new_record t.create_at)
      → Holds
          (finish filled error_body to_dict now k (ok a) s).1
          k
          (as_completed now (to_dict a) 200 (some (new_record t.create_at)))
  unfolding finish set_completed
  finish_ok t now k a s u h = record {
    distinct = put-Distinct s.store k _ u;
    there = rw get-put (rw (eq_refl k) (rw h refl));
  }

  failed_record : ℕ → ℕ → R → IdempotencyRecord R
  failed_record created now b = record {
    status = failed;
    response = some b;
    status_code = none;
    created_at = created;
    completed_at = some now;
  }

  finish_raise :
      (t : BeginTimes) (now : ℕ) (k : String) (e : Exc) (s : IdempotencyStore R)
      → Distinct s.store
      → Dict.get s.store k ≡ some (new_record t.create_at)
      → Holds
          (finish filled error_body to_dict now k (raise e) s).1
          k
          (failed_record t.create_at now (error_body (message e)))
  unfolding finish set_failed failed_record
  finish_raise t now k e s u h =
      rw h
        record { distinct = put-Distinct s.store k _ u; there = rw get-put (rw (eq_refl k) refl) }

  -- On a store with no key twice, after a request that ran and returned, a request with the same key
  -- whose clock readings fall into the record's time to live does not run: it is answered with the
  -- stored response, or refused as a duplicate where that response is empty.
  pub wrapper-replays :
      (t t' : BeginTimes) (now now' : ℕ) (k : String) (a : A) (outcome : Result A)
      (s : IdempotencyStore R)
      → Distinct s.store
      → (begin filled t k s).0 ≡ execute
      → By (t.create_at + (run_one t now k (ok a) s).2.ttl) t'.first
      → By (t.create_at + (run_one t now k (ok a) s).2.ttl) t'.second
      → ((run_one t now k (ok a) s).1 ≡ fresh a)
        × ((run_one t' now' k outcome (run_one t now k (ok a) s).2).0 ≡ false)
        × ((run_one t' now' k outcome (run_one t now k (ok a) s).2).1
            ≡ (if filled (to_dict a) then stored (to_dict a) else conflict))
  wrapper-replays t t' now now' k a outcome s u e = rw (run-executes t now k (ok a) s e) (λ i j.
      let held =
        finish_ok t now k a (begin filled t k s).1 (begin-Distinct filled t k s u)
          (begin_new filled t k s e) in
      let first = (finish filled error_body to_dict now k (ok a) (begin filled t k s).1).1 in
      let answers =
        run-answers t' now' k outcome first (to_dict a)
          (begin_completed filled t' k first _ (to_dict a) held refl refl i j) in
      (unfold finish in refl, answers.0, answers.1))

  -- On a store with no key twice, after a request that ran and raised, the next request with the same
  -- key runs.
  pub wrapper-retries :
      (t t' : BeginTimes) (now now' : ℕ) (k : String) (e : Exc) (outcome : Result A)
      (s : IdempotencyStore R)
      → Distinct s.store
      → (begin filled t k s).0 ≡ execute
      → ((run_one t now k (raise e) s).1 ≡ error e)
        × ((run_one t' now' k outcome (run_one t now k (raise e) s).2).0 ≡ true)
  wrapper-retries t t' now now' k e outcome s u h = rw (run-executes t now k (raise e) s h) (
      let held =
        finish_raise t now k e (begin filled t k s).1 (begin-Distinct filled t k s u)
          (begin_new filled t k s h) in
      let first = (finish filled error_body to_dict now k (raise e) (begin filled t k s).1).1 in
      (
        unfold finish in refl,
        rw
            (run-executes t' now' k outcome first
              (begin_failed filled t' k first _ held (unfold failed_record in refl)))
            refl,
      ))
