-- ===== src/Cache/Calls.antt =====
-- app/core/cache.py: sequences of calls of the LRU cache.
use application_workflow_ser.Base.{
  ℕ, ◌<◌, ◌≤◌, ◌≡◌, refl, ◌∙◌, String, Option, none, some, List, [], ◌∷◌, arith, length,
}
use application_workflow_ser.Cache.{
  LruCache, get, set, delete, clear, invalidate_pattern, new_cache,
}
use application_workflow_ser.Cache.Capacity.{
  IsValid, get-IsValid, max_size-get, max_size-after_set, after_set, set-after_set,
  after_set-IsValid, delete-IsValid, invalidate_pattern-IsValid,
}

-- A call of a method. `set` reads the clock twice.
pub data Call (V : Type 0) : Type 0 where
  get_at : ℕ → String → Call V
  set_at : ℕ → ℕ → String → V → Option ℕ → Call V
  delete_key : String → Call V
  clear_all : Call V
  invalidate : String → Call V

module _ {V : Type 0} where
  unfoldable pub step : Call V → LruCache V → Option (LruCache V)
  step (get_at now key) c = some (get now key c).1
  step (set_at now now' key value ttl) c = set now now' key value ttl c
  step (delete_key key) c = some (delete key c).1
  step clear_all c = some (clear c)
  step (invalidate pattern) c = some (invalidate_pattern pattern c).1

  -- `none` when a call raises.
  unfoldable pub run : List (Call V) → LruCache V → Option (LruCache V)
  run [] c = some c
  run (x ∷ xs) c = elim (step x c) [ none ↦ none | some c' ↦ run xs c' ]

  -- The maximal size is never changed.
  record Steady (c c' : LruCache V) : Type 0 where
    valid : IsValid c'
    limit : c'.max_size ≡ c.max_size

  step-Steady :
      (x : Call V) (c : LruCache V)
      → 0 < c.max_size
      → IsValid c
      → (c' : LruCache V) × (step x c ≡ some c') × Steady c c'
  unfolding step
  step-Steady (get_at now key) c p v = (
    (get now key c).1,
    refl,
    record { valid = get-IsValid now key c v; limit = max_size-get now key c },
  )
  step-Steady (set_at now now' key value ttl) c p v = (
    after_set now now' key value ttl c,
    set-after_set now now' key value ttl c p,
    record {
      valid = after_set-IsValid now now' key value ttl c p v;
      limit = max_size-after_set now now' key value ttl c;
    },
  )
  step-Steady (delete_key key) c p v = (
    (delete key c).1,
    refl,
    record { valid = delete-IsValid key c v; limit = unfold delete in ground arith },
  )
  step-Steady clear_all c p v = (
    clear c,
    refl,
    record {
      valid = unfold clear in record { distinct = tt; bounded = omega arith; sized = refl };
      limit = unfold clear in refl;
    },
  )
  step-Steady (invalidate pattern) c p v = (
    (invalidate_pattern pattern c).1,
    refl,
    record {
      valid = invalidate_pattern-IsValid pattern c v;
      limit = unfold invalidate_pattern in refl;
    },
  )

  run-Steady :
      (xs : List (Call V)) (c : LruCache V)
      → 0 < c.max_size
      → IsValid c
      → (c' : LruCache V) × (run xs c ≡ some c') × Steady c c'
  unfolding run
  run-Steady [] c p v = (c, refl, record { valid = v; limit = refl })
  run-Steady (x ∷ xs) c p v =
      let (d, ran, s) = step-Steady x c p v in
      let (d', ran', s') = run-Steady xs d (omega (arith, s.limit)) s.valid in
      (d', rw (ran, run) ran', record { valid = s'.valid; limit = s'.limit ∙ s.limit })

  -- From a new cache with room for at least one entry, no sequence of calls raises, and after it
  -- no key stands twice, there are at most `max_size` entries, and the size statistic is exact.
  pub run-IsValid :
      (max_size default_ttl : ℕ) (xs : List (Call V))
      → 0 < max_size
      → (c : LruCache V) × (run xs (new_cache max_size default_ttl) ≡ some c)
        × IsValid c
        × (length c.cache ≤ max_size)
  unfolding new_cache
  run-IsValid max_size default_ttl xs p =
      let (c, ran, s) =
        run-Steady xs _ p (record { distinct = tt; bounded = omega arith; sized = refl }) in
      (c, ran, s.valid, omega (arith, s.valid.bounded, s.limit))
