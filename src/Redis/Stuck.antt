-- ===== src/Redis/Stuck.antt =====
-- app/core/redis_cache.py: a circuit that opened while there is a fallback.
use application_workflow_ser.Base.{
  ℕ, ◌≡◌, refl, sym, ap, ◌∙◌, true, false, not, List, [], ◌∷◌, ◌++◌, arith, Bool-cases,
  Option-cases, inl, inr,
}
use application_workflow_ser.Redis.{
  CircuitState, closed, open_state, half_open, is_closed_state, CircuitBreaker, refreshed,
  RedisCache, has_fallback, is_closed, should_use_fallback, Operation, fall_back, begin, get, set,
  delete, delete_pattern, exists, incr, expire, connect, disconnect,
}
use application_workflow_ser.Redis.Steps.{
  Call, gets, sets, deletes, deletes_pattern, asks, increments, expires, World, turned, begin_call,
  Step, begins, ends, connects, disconnects, Reach, start, later,
}

-- There is a fallback, and the circuit is not closed, after so many exchanges with Redis.
abbrev pub Held : ℕ → RedisCache → Type 0
Held n r =
    (has_fallback r.fallback ≡ true)
    × (is_closed_state r.circuit_breaker.current ≡ false)
    × (r.exchanges ≡ n)

-- And no exchange is in flight.
abbrev pub Stuck : ℕ → World → Type 0
Stuck n w = (w.waiting ≡ []) × Held n w.cache

refreshed_open :
    (now : ℕ) (b : CircuitBreaker) (s : CircuitState)
    → is_closed_state b.current ≡ false
    → is_closed_state (refreshed now b s).current ≡ false
unfolding refreshed
refreshed_open now b closed h = h
refreshed_open now b half_open h = h
refreshed_open now b open_state h = ground (arith, h)

fallback_used :
    (n now : ℕ) (r : RedisCache)
    → Held n r
    → ((should_use_fallback now r).0 ≡ true) × Held n (should_use_fallback now r).1
unfolding should_use_fallback is_closed
fallback_used n now r (f, o, e) = elim (Bool-cases r.connected) [
  | inl on ↦
      let still = refreshed_open now r.circuit_breaker r.circuit_breaker.current o in
      rw (f, on, should_use_fallback) (ap not still, (f, still, e))
  | inr off ↦ rw (f, off, should_use_fallback) (refl, (f, o, e))
]

module _ {A : Type 0} (o : Operation A) (n now : ℕ) where
  fall_back-Held : (r : RedisCache) → Held n r → Held n (fall_back o now r).1
  unfolding fall_back
  fall_back-Held r (f, h, e) = elim (Option-cases r.fallback) [
    | inl miss ↦ rw (miss, fall_back) (f, h, e)
    | inr (c, has) ↦ rw (has, fall_back) (refl, h, e)
  ]

  turn-Stuck : (k : Call) (w : World) → Stuck n w → Stuck n (turned k w (begin o now w.cache))
  unfolding begin
  turn-Stuck k w (none_waits, h) =
      let (used, held) = fallback_used n now w.cache h in
      rw (used, begin) (none_waits, fall_back-Held (should_use_fallback now w.cache).1 held)

begin-Stuck : (n : ℕ) (k : Call) (now : ℕ) (w : World) → Stuck n w → Stuck n (begin_call k now w)
unfolding begin_call
begin-Stuck n (gets key) now w = turn-Stuck (get key) n now (gets key) w
begin-Stuck n (sets key value ttl) now w =
    turn-Stuck (set w.cache.default_ttl key value ttl) n now (sets key value ttl) w
begin-Stuck n (deletes key) now w = turn-Stuck (delete key) n now (deletes key) w
begin-Stuck n (deletes_pattern prefix) now w =
    turn-Stuck (delete_pattern prefix) n now (deletes_pattern prefix) w
begin-Stuck n (asks key) now w = turn-Stuck (exists key) n now (asks key) w
begin-Stuck n increments now w = turn-Stuck incr n now increments w
begin-Stuck n expires now w = turn-Stuck expire n now expires w

empty_append : {P : Type 0} (before after : List Call) (k : Call) → [] ≡ before ++ k ∷ after → P
empty_append [] after k h = cc
empty_append (x ∷ before) after k h = cc

step-Stuck : (n : ℕ) (v w : World) → Step v w → Stuck n v → Stuck n w
unfolding connect disconnect
step-Stuck n v w (begins k now) s = begin-Stuck n k now v s
step-Stuck n v w (ends before after k now a here) (none_waits, h) =
    empty_append before after k (sym none_waits ∙ here)
step-Stuck n v w (connects answers) (none_waits, (f, o, e)) = elim (Bool-cases v.cache.connected) [
  | inl on ↦ rw (on, connect) (none_waits, (f, o, e))
  | inr off ↦ rw (off, connect) (none_waits, (f, o, e))
]
step-Stuck n v w disconnects s = s

-- Where there is a fallback, the circuit is not closed and no exchange is in flight, then over any
-- pieces of get, set, delete, delete_pattern, exists, incr, expire, connect and disconnect, at any
-- times and in any order, the circuit stays not closed, and none of the seven operations on keys
-- starts an exchange with Redis.
pub run-Stuck : (n : ℕ) (u w : World) → Reach u w → Stuck n u → Stuck n w
run-Stuck n u w start s = s
run-Stuck n u w (later {v = v} r step) s = step-Stuck n v w step (run-Stuck n u v r s)
