-- ===== src/Examples/Cache.antt =====
-- The LRU cache of app/core/cache.py at concrete inputs.
use text.Mathlib.Text.{starts_with}
use application_workflow_ser.Base.{
  ℕ, ◌+◌, ◌-◌, ◌≤◌, ◌≡◌, refl, String, true, false, Option, none, some, List, [], ◌∷◌, ◌++◌, arith,
  eq_iff, ltb, if◌then◌else◌, length, drop, keep,
}
use application_workflow_ser.Base.Dict
use application_workflow_ser.Base.Dict.{Dict}
use application_workflow_ser.Base.Sweep
use application_workflow_ser.Base.Sweep.{del_all}
use application_workflow_ser.Cache.{
  CacheEntry, LruCache, new_cache, is_expired, get, set, evict_expired, evict_lru, store,
  move_to_end, delete, clear, invalidate_pattern, fresh, ttl_or,
}
use application_workflow_ser.Cache.Capacity.{IsValid}
use application_workflow_ser.Cache.Calls.{
  Call, get_at, set_at, delete_key, invalidate, step, run, run-IsValid,
}
use application_workflow_ser.Cache.Reads.{
  visible, live_value, get-visible, visible-set_self, visible-set_other,
}
use application_workflow_ser.Cache.Order.{kept, set-order, invalidate_pattern-visible}
use application_workflow_ser.Cache.Cached.{Clocks, cached, cached-twice}

program : Unit {0}
unfolding new_cache get set evict_expired evict_lru store move_to_end delete clear
    invalidate_pattern step run Dict.get Dict.put Dict.del del_all keep cached is_expired
program = tt

-- Two entries in a cache for two, the older one under "a".
abbrev entry : ℕ → ℕ → CacheEntry ℕ
entry value created_at = record { value = value; created_at = created_at; ttl = 60; hits = 0 }

abbrev two : LruCache ℕ
two = record {
  cache = ("a", entry 1 100) ∷ ("b", entry 2 110) ∷ [];
  max_size = 2;
  default_ttl = 60;
  stats = record { hits = 0; misses = 0; evictions = 0; size = 2; max_size = 2 };
}

two-IsValid : IsValid two
unfolding program
two-IsValid = record { distinct = (refl, (refl, tt)); bounded = omega arith; sized = refl }

abbrev calls : List (Call ℕ)
calls =
    set_at 1 1 "a" 1 none
    ∷ set_at 2 2 "b" 2 (some 5)
    ∷ get_at 3 "a"
    ∷ set_at 4 4 "c" 3 none
    ∷ delete_key "a"
    ∷ invalidate "c"
    ∷ []

-- A `get` of "a" makes "b" the entry that goes.
abbrev recently_used : Option (List String)
recently_used =
    elim (run {V = ℕ}
      (set_at 1 1 "a" 1 none ∷ set_at 2 2 "b" 2 none ∷ get_at 3 "a" ∷ set_at 4 4 "c" 3 none ∷ [])
      (new_cache 2 60)) [ none ↦ none | some c ↦ some (Sweep.keys c.cache) ]

recently_used_runs : recently_used ≡ some ("a" ∷ "c" ∷ [])
unfolding recently_used program
recently_used_runs = refl

-- With no room at all the loop of `set` runs into an empty cache, and the call raises.
set_no_room : set {V = ℕ} 1 1 "a" 1 none (new_cache 0 60) ≡ none
unfolding program
set_no_room = refl

-- A full cache makes room also for a key that it holds: "a" goes, though "b" is overwritten.
set_overwrites :
    set 120 120 "b" 7 none two
    ≡ some (record two {
      cache = ("b", entry 7 120) ∷ [];
      stats = record { hits = 0; misses = 0; evictions = 1; size = 1; max_size = 2 };
    })
unfolding program
set_overwrites = refl

run-IsValid_example :
    (c : LruCache ℕ) × (run calls (new_cache 2 60) ≡ some c) × IsValid c × (length c.cache ≤ 2)
run-IsValid_example = run-IsValid 2 60 calls (omega arith)

get-visible_example :
    ((get 120 "a" two).0 ≡ visible 120 two "a")
    × ((get 120 "a" two).1.stats.hits + (get 120 "a" two).1.stats.misses ≡ 0 + 0 + 1)
    × (visible 165 (get 120 "a" two).1 "b" ≡ visible 165 two "b")
get-visible_example = get-visible 120 165 "a" "b" two (omega arith)

visible-set_self_example :
    (c : LruCache ℕ) × (set 120 120 "c" 3 (some 5) two ≡ some c)
    × (visible 124 c "c" ≡ (if ltb (120 + ttl_or (some 5) 60) 124 then none else some 3))
visible-set_self_example = visible-set_self 120 120 124 "c" 3 (some 5) two (omega arith)

abbrev roomy : LruCache ℕ
roomy = record two { max_size = 3 }

visible-set_other_example :
    (c : LruCache ℕ) × (set 120 120 "c" 3 none roomy ≡ some c)
    × (visible 150 c "a" ≡ visible 150 roomy "a")
visible-set_other_example =
    visible-set_other 120 120 150 "c" "a" 3 none roomy (omega arith)
      (ground (arith, eq_iff "c" "a"))

set-order_example :
    let stay = drop (length (kept 165 two) + 1 - 2) (kept 165 two) in
    (c : LruCache ℕ) × (set 165 165 "c" 3 none two ≡ some c)
    × (c.cache ≡ Dict.del stay "c" ++ ("c", fresh 165 3 none 60) ∷ [])
    × (c.stats.evictions + length stay ≡ 0 + 2)
set-order_example = set-order 165 165 "c" 3 none two (omega arith) two-IsValid

invalidate_pattern-visible_example :
    ((invalidate_pattern "a" two).0 + length (invalidate_pattern "a" two).1.cache ≡ 2)
    × (visible 120 (invalidate_pattern "a" two).1 "b"
        ≡ (if starts_with "b" "a" then none else visible 120 two "b"))
invalidate_pattern-visible_example = invalidate_pattern-visible "a" 120 "b" two two-IsValid

abbrev clocks : ℕ → Clocks
clocks t = record { at_get = t; at_evict = t; at_store = t }

cached-twice_example :
    (c' c'' : LruCache (Option ℕ)) × (cached (clocks 5) "k" none (some 7) (new_cache 2 60)
      ≡ some (true, some 7, c'))
    × (cached (clocks 6) "k" none (some 8) c' ≡ some (false, some 7, c''))
unfolding new_cache
cached-twice_example =
    cached-twice (clocks 5) (clocks 6) "k" none (some 7) (some 8) (new_cache 2 60) (omega arith)
      (unfold visible live_value Dict.get in refl) (omega arith)
