-- ===== src/Examples/Redis.antt =====
-- The cache in front of Redis, with a circuit that opens at the second failure.
use application_workflow_ser.Base.{ℕ, Option, ◌≡◌, refl, true, none, some, []}
use application_workflow_ser.Base.Dict
use application_workflow_ser.Cache.{
  new_cache, evict_expired, evict_lru, store, move_to_end, is_expired,
}
use application_workflow_ser.Cache
use application_workflow_ser.Redis.{
  closed, open_state, half_open, refreshed, record_failure, record_success, RedisCache, is_closed,
  should_use_fallback, fall_back, begin, finish, get, set, delete, delete_pattern, exists, incr,
  expire, connect, disconnect,
}
use application_workflow_ser.Redis.Steps.{
  gets, increments, World, begin_call, finish_call, begins, start, later,
}
use application_workflow_ser.Redis.Stuck.{Stuck, run-Stuck}

abbrev fresh : RedisCache
fresh = record {
  default_ttl = 300;
  connected = true;
  fallback = some (new_cache 1000 300);
  circuit_breaker = record {
    failure_threshold = 2;
    reset_timeout = 30;
    current = closed;
    failure_count = 0;
    last_failure_time = 0;
    success_count = 0;
  };
  exchanges = 0;
}

program : Unit {0}
unfolding Dict.get Dict.put Dict.del new_cache Cache.get is_expired refreshed record_failure
    record_success is_closed should_use_fallback fall_back begin finish get set delete
    delete_pattern exists incr expire connect disconnect begin_call finish_call
program = tt

-- One increment at a time, and what it got from Redis.
abbrev increment : ℕ → Option ℕ → RedisCache → RedisCache
increment now a r =
    finish_call increments now a
      (begin_call increments now (record { cache = r; waiting = [] })).cache

-- Two failures open the circuit.
abbrev opened : RedisCache
opened = increment 2 none (increment 1 none fresh)

opens : (opened.circuit_breaker.current ≡ open_state) × (opened.exchanges ≡ 2)
opens = unfold program in (refl, refl)

-- A success between them keeps it closed.
stays_closed :
    let r = increment 3 none (increment 2 (some 7) (increment 1 none fresh)) in
    r.circuit_breaker.current ≡ closed
stays_closed = unfold program in refl

abbrev w0 : World
w0 = record { cache = opened; waiting = [] }

-- After the timeout the circuit is half open, and a call does not reach Redis.
half_opens :
    let w = begin_call increments 40 w0 in
    (w.cache.circuit_breaker.current ≡ half_open) × (w.cache.exchanges ≡ 2) × (w.waiting ≡ [])
half_opens = unfold program in (refl, refl, refl)

-- An exchange that was in flight when the circuit opened closes it if it succeeds later.
closes_late :
    let r = (begin_call increments 40 w0).cache in
    (finish_call increments 41 (some 7) r).circuit_breaker.current ≡ closed
closes_late = unfold program in refl

run-Stuck_example : Stuck 2 (begin_call increments 200 (begin_call (gets "k") 100 w0))
run-Stuck_example =
    run-Stuck 2 w0 (begin_call increments 200 (begin_call (gets "k") 100 w0))
      (later (later start (begins (gets "k") 100)) (begins increments 200))
      (unfold program in (refl, (refl, refl, refl)))
