-- ===== src/Redis/Steps.antt =====
-- app/core/redis_cache.py: the pieces of the operations, in any order.
use application_workflow_ser.Base.{ℕ, ◌≡◌, String, Bool, Option, List, ◌∷◌, ◌++◌}
use application_workflow_ser.Redis.{
  RedisCache, Turn, done, waits, begin, finish, get, set, delete, delete_pattern, exists, incr,
  expire, connect, disconnect,
}

pub data Call : Type 0 where
  gets : String → Call
  sets : String → String → Option ℕ → Call
  deletes : String → Call
  deletes_pattern : String → Call
  asks : String → Call
  increments expires : Call

-- What Redis answers to a call.
abbrev pub Reply : Call → Type 0
Reply (gets key) = Option String
Reply (sets key value ttl) = Unit {0}
Reply (deletes key) = Bool
Reply (deletes_pattern prefix) = ℕ
Reply (asks key) = Bool
Reply increments = ℕ
Reply expires = Unit {0}

pub record World : Type 0 where
  pub cache : RedisCache
  -- The calls that wait for Redis.
  pub waiting : List Call

abbrev pub turned : {A : Type 0} → Call → World → Turn A × RedisCache → World
turned k w (done a, r) = record w { cache = r }
turned k w (waits, r) = record { cache = r; waiting = k ∷ w.waiting }

unfoldable pub begin_call : Call → ℕ → World → World
unfolding begin get set delete delete_pattern exists incr expire
begin_call (gets key) now w = turned (gets key) w (begin (get key) now w.cache)
begin_call (sets key value ttl) now w =
    turned (sets key value ttl) w (begin (set w.cache.default_ttl key value ttl) now w.cache)
begin_call (deletes key) now w = turned (deletes key) w (begin (delete key) now w.cache)
begin_call (deletes_pattern prefix) now w =
    turned (deletes_pattern prefix) w (begin (delete_pattern prefix) now w.cache)
begin_call (asks key) now w = turned (asks key) w (begin (exists key) now w.cache)
begin_call increments now w = turned increments w (begin incr now w.cache)
begin_call expires now w = turned expires w (begin expire now w.cache)

unfoldable pub finish_call : (k : Call) → ℕ → Option (Reply k) → RedisCache → RedisCache
unfolding finish get set delete delete_pattern exists incr expire
finish_call (gets key) now a r = (finish (get key) now a r).1
finish_call (sets key value ttl) now a r = (finish (set r.default_ttl key value ttl) now a r).1
finish_call (deletes key) now a r = (finish (delete key) now a r).1
finish_call (deletes_pattern prefix) now a r = (finish (delete_pattern prefix) now a r).1
finish_call (asks key) now a r = (finish (exists key) now a r).1
finish_call increments now a r = (finish incr now a r).1
finish_call expires now a r = (finish expire now a r).1

pub data Step (w : World) : World → Type 0 where
  begins : (k : Call) (now : ℕ) → Step w (begin_call k now w)
  ends :
      (before after : List Call) (k : Call) (now : ℕ) (a : Option (Reply k))
      → w.waiting ≡ before ++ k ∷ after
      → Step w (record { cache = finish_call k now a w.cache; waiting = before ++ after })
  connects : (answers : Bool) → Step w (record w { cache = connect answers w.cache })
  disconnects : Step w (record w { cache = disconnect w.cache })

pub data Reach (u : World) : World → Type 0 where
  start : Reach u u
  later : {v w : World} → Reach u v → Step v w → Reach u w
