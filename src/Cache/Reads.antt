-- ===== src/Cache/Reads.antt =====
-- app/core/cache.py: what can be read from the LRU cache after a call.
use application_workflow_ser.Base.{
  ℕ, ◌+◌, ◌≤◌, ◌<◌, ◌≡◌, ◌≢◌, refl, String, false, Option, none, some, arith, ltb, leb, ◌-◌, zero,
  eq_refl, if◌then◌else◌, inl, inr, Bool-cases, Option-cases, eq_iff, str_eq, length,
}
use application_workflow_ser.Base.Dict
use application_workflow_ser.Base.Dict.{Dict, get-del, get-append}
use application_workflow_ser.Base.Moves.{get-last}
use application_workflow_ser.Cache.{CacheEntry, LruCache, is_expired, found, get, set, ttl_or}
use application_workflow_ser.Cache.Capacity.{store-cache, touch-cache, after_set, set-after_set}

module _ {V : Type 0} where
  unfoldable pub live_value : ℕ → Option (CacheEntry V) → Option V
  live_value now none = none
  live_value now (some e) = if ltb (e.created_at + e.ttl) now then none else some e.value

  -- What a caller can read under a key at a time, said without the cache's bookkeeping.
  unfoldable pub visible : ℕ → LruCache V → String → Option V
  unfolding live_value
  visible now c key = live_value now (Dict.get c.cache key)

  -- A hit or a miss changes nothing that can be read under any key.
  visible-found :
      (now later : ℕ) (key j : String) (c : LruCache V) (e : CacheEntry V)
      → now ≤ later
      → Dict.get c.cache key ≡ some e
      → visible later (found now key c (some e)).1 j ≡ visible later c j
  unfolding visible live_value found is_expired
  visible-found now later key j c e h hit = elim (Bool-cases (ltb (e.created_at + e.ttl) now)) [
    | inl old ↦ rw old (rw get-del (ground (arith, eq_iff key j, hit)))
    | inr live ↦
        rw live
          (rw (touch-cache c.cache key e _ hit) (rw get-last (ground (arith, eq_iff key j, hit))))
  ]

  -- `get` returns exactly what is visible, counts one hit or one miss, and nothing that can be
  -- read then or later under any key changes.
  pub get-visible :
      (now later : ℕ) (key j : String) (c : LruCache V)
      → now ≤ later
      → ((get now key c).0 ≡ visible now c key)
        × ((get now key c).1.stats.hits + (get now key c).1.stats.misses
            ≡ c.stats.hits + c.stats.misses + 1)
        × (visible later (get now key c).1 j ≡ visible later c j)
  unfolding get visible live_value
  get-visible now later key j c h = elim (Option-cases (Dict.get c.cache key)) [
    | inl miss ↦ rw (miss, found) (refl, omega arith, refl)
    | inr (e, hit) ↦ rw hit (
      unfold found is_expired in ground arith,
      unfold found is_expired in ground arith,
      visible-found now later key j c e h hit,
    )
  ]

  pub visible-after_set :
      (now now' later : ℕ) (key : String) (value : V) (ttl : Option ℕ) (c : LruCache V)
      → visible later (after_set now now' key value ttl c) key
        ≡ (if ltb (now' + ttl_or ttl c.default_ttl) later then none else some value)
  unfolding visible live_value after_set
  visible-after_set now now' later key value ttl c = rw store-cache (rw get-last (rw (eq_refl key)))

  -- A value that was just stored can be read until its time to live has passed, and not after. The
  -- time to live is the one given, or the default where none or zero was given.
  pub visible-set_self :
      (now now' later : ℕ) (key : String) (value : V) (ttl : Option ℕ) (c : LruCache V)
      → 0 < c.max_size
      → (c' : LruCache V) × (set now now' key value ttl c ≡ some c')
        × (visible later c' key
            ≡ (if ltb (now' + ttl_or ttl c.default_ttl) later then none else some value))
  visible-set_self now now' later key value ttl c p = (
    after_set now now' key value ttl c,
    set-after_set now now' key value ttl c p,
    visible-after_set now now' later key value ttl c,
  )

  -- While there is room, a `set` changes what can be read under its own key only.
  pub visible-set_other :
      (now now' later : ℕ) (key j : String) (value : V) (ttl : Option ℕ) (c : LruCache V)
      → length c.cache < c.max_size
      → key ≢ j
      → (c' : LruCache V) × (set now now' key value ttl c ≡ some c')
        × (visible later c' j ≡ visible later c j)
  unfolding visible
  visible-set_other now now' later key j value ttl c room ne =
      let e : leb c.max_size (length c.cache) ≡ false = ground arith in
      let n : length c.cache + 1 - c.max_size ≡ zero = omega arith in
      let k : str_eq key j ≡ false = ground (arith, eq_iff key j) in
      (
        after_set now now' key value ttl c,
        set-after_set now now' key value ttl c (omega arith),
        unfold after_set in rw store-cache (rw get-last (rw (e, k) (rw n))),
      )
