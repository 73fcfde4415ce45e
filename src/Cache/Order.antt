-- ===== src/Cache/Order.antt =====
-- app/core/cache.py: which entries `set` and `invalidate_pattern` drop.
use text.Mathlib.Text.{starts_with}
use application_workflow_ser.Base.{
  ℕ, suc, ◌+◌, ◌-◌, ◌<◌, ◌≡◌, refl, ap, String, Option, none, some, ◌∷◌, [], ◌++◌, arith, leb,
  if◌then◌else◌, inl, inr, not, Bool-cases, Option-cases, length, length-drop, drop, keep,
}
use application_workflow_ser.Base.Dict
use application_workflow_ser.Base.Dict.{Dict, Distinct, get-keep, keep_absent}
use application_workflow_ser.Base.Sweep.{keys, del_all-keep, length-keep-split}
use application_workflow_ser.Cache.{
  CacheEntry, LruCache, is_expired, evict_expired, set, store, fresh, make_room, invalidate_pattern,
}
use application_workflow_ser.Cache.Capacity.{
  IsValid, store-cache, after_set, set-after_set, max_size-make_room,
}
use application_workflow_ser.Cache.Reads.{live_value, visible}

module _ {V : Type 0} where
  -- What a full cache holds once its expired entries are out; a cache with room is left alone.
  pub kept : ℕ → LruCache V → Dict (CacheEntry V)
  kept now c =
      if leb c.max_size (length c.cache)
      then keep (λ e. not (is_expired now e.1)) c.cache
      else c.cache

  length-keys : (d : Dict (CacheEntry V)) → length (keys d) ≡ length d
  length-keys [] = refl
  length-keys (e ∷ d) = ap suc (length-keys d)

  make_room-kept :
      (now : ℕ) (c : LruCache V)
      → Distinct c.cache
      → ((make_room now c).cache ≡ kept now c)
        × ((make_room now c).stats.evictions + length (kept now c)
            ≡ c.stats.evictions + length c.cache)
  unfolding kept evict_expired
  make_room-kept now c u = elim (Bool-cases (leb c.max_size (length c.cache))) [
    | inr room ↦ rw room (refl, refl)
    | inl full ↦ rw full (
      del_all-keep (λ e. is_expired now e.1) c.cache u,
      omega (
        arith,
        length-keys (keep (λ e. is_expired now e.1) c.cache),
        length-keep-split (λ e. is_expired now e.1) c.cache,
      ),
    )
  ]

  -- On a valid cache with room for at least one entry, `set` drops the expired entries if the
  -- cache is full, then exactly as many of the least recently used ones as are over the limit,
  -- keeps the order of the rest, puts the new entry last, and counts every dropped entry.
  pub set-order :
      (now now' : ℕ) (key : String) (value : V) (ttl : Option ℕ) (c : LruCache V)
      → 0 < c.max_size
      → IsValid c
      → let stay = drop (length (kept now c) + 1 - c.max_size) (kept now c) in
        (c' : LruCache V) × (set now now' key value ttl c ≡ some c')
        × (c'.cache ≡ Dict.del stay key ++ (key, fresh now' value ttl c.default_ttl) ∷ [])
        × (c'.stats.evictions + length stay ≡ c.stats.evictions + length c.cache)
  unfolding after_set
  set-order now now' key value ttl c p v =
      let (same_cache, counted) = make_room-kept now c v.distinct in
      let m = max_size-make_room now c in
      (
        after_set now now' key value ttl c,
        set-after_set now now' key value ttl c p,
        rw store-cache (rw (m, same_cache)),
        unfold store in
            rw (m, same_cache)
              (omega
                (arith, counted, length-drop (length (kept now c) + 1 - c.max_size) (kept now c))),
      )

  -- On a valid cache `invalidate_pattern` makes exactly the keys with the prefix unreadable, at
  -- every time, and returns the number of entries that are gone.
  pub invalidate_pattern-visible :
      (pattern : String) (later : ℕ) (j : String) (c : LruCache V)
      → IsValid c
      → ((invalidate_pattern pattern c).0 + length (invalidate_pattern pattern c).1.cache
          ≡ length c.cache)
        × (visible later (invalidate_pattern pattern c).1 j
            ≡ (if starts_with j pattern then none else visible later c j))
  unfolding invalidate_pattern visible
  invalidate_pattern-visible pattern later j c v =
      let p = λ (e : String × CacheEntry V). starts_with e.0 pattern in
      let q = λ (e : String × CacheEntry V). not (p e) in
      let seen : live_value later (Dict.get (keep q c.cache) j)
          ≡ (if starts_with j pattern then none else live_value later (Dict.get c.cache j)) =
        elim (Option-cases (Dict.get c.cache j)) [
          | inl miss ↦ rw (keep_absent q c.cache j miss) (rw miss (ground arith))
          | inr (e, hit) ↦ rw (get-keep q c.cache j e v.distinct hit) (rw hit (ground arith))
        ] in
      rw (del_all-keep p c.cache v.distinct)
        (omega (arith, length-keys (keep p c.cache), length-keep-split p c.cache), seen)
