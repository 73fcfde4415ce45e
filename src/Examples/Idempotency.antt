-- ===== src/Examples/Idempotency.antt =====
-- Idempotent requests at concrete inputs. A response is a list of numbers, empty for `{}`.
use application_workflow_ser.Base.{
  ℕ, ◌+◌, ◌≡◌, refl, Bool, true, false, some, List, [], ◌∷◌, arith, keep,
}
use application_workflow_ser.Base.Dict
use application_workflow_ser.Base.Sweep
use application_workflow_ser.Text.{Text}
use application_workflow_ser.Errors.{other, Result, ok, raise}
use application_workflow_ser.Idempotency.{
  is_pending, IdempotencyRecord, IdempotencyStore, Readings, BeginTimes, begin, finish, wrapper,
  execute, duplicate, Reply, fresh, stored, error, get, cleanup_expired, fetched, put_pending,
  set_pending, set_completed, set_failed, delete, replayable, begin_found,
}
use application_workflow_ser.Idempotency.Middleware.{middleware, replayed}
use application_workflow_ser.Idempotency.Traces.{
  Running, Reach, start, begins, InTime, begun, empty_store, begin-exclusive,
}
use application_workflow_ser.Idempotency.Replay.{wrapper-replays, wrapper-retries}

abbrev filled : List ℕ → Bool
filled [] = false
filled (x ∷ xs) = true

abbrev error_body : Text → List ℕ
error_body m = 500 ∷ []

abbrev same : List ℕ → List ℕ
same b = b

abbrev readings : ℕ → Readings
readings t = record { tick = t; cutoff_at = t; age_at = t }

abbrev times : ℕ → BeginTimes
times t = record { first = readings t; second = readings t; create_at = t }

abbrev s0 : IdempotencyStore (List ℕ)
s0 = empty_store 100 3600 0

program : Unit {0}
unfolding wrapper begin finish begin_found get cleanup_expired fetched put_pending set_pending
    set_completed set_failed delete replayable Dict.get Dict.put Dict.del Sweep.del_all keep begun
    middleware
program = tt

abbrev request :
    ℕ
    → Result (List ℕ)
    → IdempotencyStore (List ℕ)
    → Bool × Reply (List ℕ) (List ℕ) × IdempotencyStore (List ℕ)
request t outcome s = wrapper filled error_body same (times t) (t + 1) (some "k") outcome s

-- The first request runs, the second is answered from the store, and after the time to live it runs.
request_runs :
    ((request 5 (ok (7 ∷ [])) s0).1 ≡ fresh (7 ∷ []))
    × ((request 50 (ok (8 ∷ [])) (request 5 (ok (7 ∷ [])) s0).2).1 ≡ stored (7 ∷ []))
    × ((request 106 (ok (8 ∷ [])) (request 5 (ok (7 ∷ [])) s0).2).1 ≡ fresh (8 ∷ []))
unfolding program
request_runs = (refl, refl, refl)

middleware_runs :
    (middleware filled (readings 50) true (some "k") (request 5 (ok (7 ∷ [])) s0).2).0
    ≡ replayed (7 ∷ []) 200
unfolding program
middleware_runs = refl

executes : (begin filled (times 5) "k" s0).0 ≡ execute
unfolding program
executes = refl

wrapper-replays_example :
    ((request 5 (ok (7 ∷ [])) s0).1 ≡ fresh (7 ∷ []))
    × ((request 50 (ok (8 ∷ [])) (request 5 (ok (7 ∷ [])) s0).2).0 ≡ false)
    × ((request 50 (ok (8 ∷ [])) (request 5 (ok (7 ∷ [])) s0).2).1 ≡ stored (7 ∷ []))
wrapper-replays_example =
    wrapper-replays filled error_body same (times 5) (times 50) 6 51 "k" (7 ∷ []) (ok (8 ∷ [])) s0
      tt executes (unfold program in (omega arith, omega arith))
      (unfold program in (omega arith, omega arith))

wrapper-retries_example :
    ((request 5 (raise (other [])) s0).1 ≡ error (other []))
    × ((request 50 (ok (8 ∷ [])) (request 5 (raise (other [])) s0).2).0 ≡ true)
wrapper-retries_example =
    wrapper-retries filled error_body same (times 5) (times 50) 6 51 "k" (other []) (ok (8 ∷ [])) s0
      tt executes

abbrev start0 : Running (List ℕ)
start0 = record { store = s0; executions = [] }

abbrev one : Running (List ℕ)
one = begun {A = List ℕ} filled error_body same (times 5) "k" start0

one-Reach : Reach {A = List ℕ} filled error_body same one
unfolding Dict.get
one-Reach = begins (times 5) "k" start0 (λ j u h. cc) (start 100 3600 0)

one-InTime : InTime {A = List ℕ} filled error_body same (times 20) one
unfolding program
one-InTime j u h = ground (arith, h)

begin-exclusive_example :
    ((begin filled (times 20) "k" one.store).0 ≡ duplicate)
    × ((begun {A = List ℕ} filled error_body same (times 20) "k" one).executions ≡ one.executions)
    × ((r : IdempotencyRecord (List ℕ)) × (is_pending r.status ≡ true)
        × (Dict.get (begun {A = List ℕ} filled error_body same (times 20) "k" one).store.store "k"
            ≡ some r))
begin-exclusive_example =
    begin-exclusive filled error_body same (times 20) "k" one 5 one-Reach one-InTime
      (unfold program in refl)
