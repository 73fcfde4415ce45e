-- ===== src/Redis.antt =====
-- app/core/redis_cache.py: the circuit breaker, and the cache in front of Redis with its fallback in
-- memory. An operation is two pieces, up to the await of Redis and after it; what Redis answers is an
-- argument of the second, `none` where it raises. `exchanges` counts the attempts of the operations to
-- ask Redis. The readings of the clock in a piece are the same `now`.
pub mod Steps
pub mod Stuck
use application_workflow_ser.Base.{
  ℕ, zero, suc, ◌+◌, ◌-◌, String, Bool, true, false, not, ◌&&◌, ◌||◌, Option, none, some, List, [],
  ◌∷◌, ltb, leb, if◌then◌else◌,
}
use application_workflow_ser.Cache
use application_workflow_ser.Cache.{LruCache, ttl_or}

pub data CircuitState : Type 0 where
  closed open_state half_open : CircuitState

abbrev pub is_closed_state : CircuitState → Bool
is_closed_state closed = true
is_closed_state _ = false

pub record CircuitBreaker : Type 0 where
  pub failure_threshold : ℕ
  pub reset_timeout : ℕ
  pub current : CircuitState
  pub failure_count : ℕ
  pub last_failure_time : ℕ
  pub success_count : ℕ

-- The property `state`, which an open circuit leaves after the timeout.
unfoldable pub refreshed : ℕ → CircuitBreaker → CircuitState → CircuitBreaker
refreshed now b open_state =
    if leb (b.last_failure_time + b.reset_timeout) now
    then record b { current = half_open; success_count = 0 }
    else b
refreshed now b _ = b

unfoldable pub record_failure : ℕ → CircuitBreaker → CircuitBreaker
record_failure now b =
    let count = b.failure_count + 1 in
    record b {
      failure_count = count;
      last_failure_time = now;
      current = if leb b.failure_threshold count then open_state else b.current;
    }

succeeded : CircuitBreaker → CircuitState → CircuitBreaker
succeeded b half_open = record b {
  success_count = b.success_count + 1;
  current = closed;
  failure_count = 0;
}
succeeded b closed = record b { failure_count = 0 }
succeeded b open_state = b

unfoldable pub record_success : CircuitBreaker → CircuitBreaker
unfolding succeeded
record_success b = succeeded b b.current

pub record RedisCache : Type 0 where
  pub default_ttl : ℕ
  pub connected : Bool
  -- `_fallback_cache`; there is one where `fallback_to_memory` was given
  pub fallback : Option (LruCache String)
  pub circuit_breaker : CircuitBreaker
  pub exchanges : ℕ

abbrev pub has_fallback : Option (LruCache String) → Bool
has_fallback none = false
has_fallback (some c) = true

-- `_circuit_breaker.is_closed`, with the state that the read leaves.
unfoldable pub is_closed : ℕ → RedisCache → Bool × RedisCache
is_closed now r =
    let b = refreshed now r.circuit_breaker r.circuit_breaker.current in
    (is_closed_state b.current, record r { circuit_breaker = b })

-- The circuit is looked at only where there is a fallback and a connection.
unfoldable pub should_use_fallback : ℕ → RedisCache → Bool × RedisCache
unfolding is_closed
should_use_fallback now r =
    if has_fallback r.fallback
    then (if r.connected then (let (c, v) = is_closed now r in (not c, v)) else (true, r))
    else (false, r)

-- What the first piece of an operation gives: a result, or an exchange with Redis to wait for.
pub data Turn (A : Type 0) : Type 0 where
  done : A → Turn A
  waits : Turn A

-- An operation: the call on the fallback at a time, what it returns with no fallback, and whether
-- it looks at the circuit again after `_should_use_fallback`.
pub record Operation (A : Type 0) : Type 0 where
  pub in_memory : ℕ → LruCache String → A × LruCache String
  pub default : A
  pub looks_twice : Bool

module _ {A : Type 0} (o : Operation A) where
  unfoldable pub fall_back : ℕ → RedisCache → A × RedisCache
  fall_back now r = elim r.fallback [
    | none ↦ (o.default, r)
    | some c ↦ let (a, d) = o.in_memory now c in (a, record r { fallback = some d })
  ]

  abbrev pub finished : A × RedisCache → Turn A × RedisCache
  finished (a, r) = (done a, r)

  abbrev pub asking : RedisCache → Turn A × RedisCache
  asking r = (waits, record r { exchanges = r.exchanges + 1 })

  -- Up to the await of Redis.
  unfoldable pub begin : ℕ → RedisCache → Turn A × RedisCache
  unfolding should_use_fallback is_closed fall_back
  begin now r =
      let (f, v) = should_use_fallback now r in
      let (c, u) = is_closed now v in
      if f
      then finished (fall_back now v)
      else if o.looks_twice
      then (if c then asking u else finished (fall_back now u))
      else asking v

  -- After the await: what Redis answered, or `none` where it raised.
  unfoldable pub finish : ℕ → Option A → RedisCache → A × RedisCache
  unfolding fall_back
  finish now none r =
      fall_back now (record r { circuit_breaker = record_failure now r.circuit_breaker })
  finish now (some a) r = (a, record r { circuit_breaker = record_success r.circuit_breaker })

unfoldable pub get : String → Operation (Option String)
get key = record { in_memory = λ now. Cache.get now key; default = none; looks_twice = true }

-- The fallback has room for 1000 entries, so that its `set` does not raise.
abbrev pub set_in : ℕ → String → String → ℕ → LruCache String → Unit {0} × LruCache String
set_in now key value ttl c = elim (Cache.set now now key value (some ttl) c) [
  | none ↦ (tt, c)
  | some d ↦ (tt, d)
]

-- With the time to live of the cache.
unfoldable pub set : ℕ → String → String → Option ℕ → Operation (Unit {0})
set default_ttl key value ttl = record {
  in_memory = λ now. set_in now key value (ttl_or ttl default_ttl);
  default = tt;
  looks_twice = true;
}

unfoldable pub delete : String → Operation Bool
delete key = record { in_memory = λ now. Cache.delete key; default = false; looks_twice = false }

-- `prefix` is the pattern without the stars at its end; the loop of scans is one exchange.
unfoldable pub delete_pattern : String → Operation ℕ
delete_pattern prefix = record {
  in_memory = λ now. Cache.invalidate_pattern prefix;
  default = 0;
  looks_twice = false;
}

abbrev pub is_there : Option String → Bool
is_there none = false
is_there (some v) = true

abbrev pub exists_in : ℕ → String → LruCache String → Bool × LruCache String
exists_in now key c = let (v, d) = Cache.get now key c in (is_there v, d)

unfoldable pub exists : String → Operation Bool
exists key = record { in_memory = λ now. exists_in now key; default = false; looks_twice = false }

-- `incr` and `expire` do nothing in the fallback.
unfoldable pub incr : Operation ℕ
incr = record { in_memory = λ now c. (0, c); default = 0; looks_twice = false }

unfoldable pub expire : Operation (Unit {0})
expire = record { in_memory = λ now c. (tt, c); default = tt; looks_twice = false }

-- `connect`, where the first ping succeeds or not, and `disconnect`.
unfoldable pub connect : Bool → RedisCache → RedisCache
connect answers r = if r.connected then r else record r { connected = answers }

unfoldable pub disconnect : RedisCache → RedisCache
disconnect r = record r { connected = false }
