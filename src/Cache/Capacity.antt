-- ===== src/Cache/Capacity.antt =====
-- app/core/cache.py: what every operation of the LRU cache keeps.
use text.Mathlib.Text.{starts_with}
use native.Mathlib.Nat.{add-zero}
use application_workflow_ser.Base.{
  ℕ, zero, suc, ◌+◌, ◌-◌, ◌≤◌, ◌<◌, ◌≡◌, refl, ap, ◌∙◌, leb→le, String, Option, some, [], ◌∷◌, ◌++◌,
  arith, leb, inl, inr, not, Bool-cases, Option-cases, eq_refl, length, length-drop, drop,
  length-keep-le,
}
use application_workflow_ser.Base.Dict
use application_workflow_ser.Base.Dict.{
  Dict, Distinct, get-put, get-del, put-Distinct, del-Distinct, length-del, del_absent,
  keep-Distinct, drop-Distinct, append-Distinct,
}
use application_workflow_ser.Base.Moves.{
  del-put, length-del-le, put-append, absent-del, last-Distinct, length-last, length-last-le,
}
use application_workflow_ser.Base.Sweep.{del_all-keep}
use application_workflow_ser.Cache.{
  CacheEntry, CacheStats, LruCache, is_expired, move_to_end, found, get, evict_expired, evict_lru,
  store, make_room, set, fresh, delete, invalidate_pattern,
}

-- No key twice, never more entries than `max_size`, and the size statistic exact.
pub record IsValid {V : Type 0} (c : LruCache V) : Type 0 where
  pub distinct : Distinct c.cache
  pub bounded : length c.cache ≤ c.max_size
  pub sized : c.stats.size ≡ length c.cache

module _ {V : Type 0} where
  -- The loop of `set` drops from the front until there is room for one more.
  pub evict_lru-drop :
      (m : ℕ) (d : Dict (CacheEntry V)) (st : CacheStats)
      → 0 < m
      → evict_lru m d st
        ≡ some
            (drop (length d + 1 - m) d, record st { evictions = st.evictions + (length d + 1 - m) })
  unfolding evict_lru
  evict_lru-drop zero d st h = absurd (omega arith)
  evict_lru-drop (suc m) [] st h =
      let e : zero + 1 - suc m ≡ zero = omega arith in rw e (ground (arith, add-zero st.evictions))
  evict_lru-drop (suc m) (e ∷ d) st h = elim (Bool-cases (leb (suc m) (length (e ∷ d)))) [
    | inl full ↦
        let n : suc (length d) + 1 - suc m ≡ suc (length d + 1 - suc m) =
          omega (arith, leb→le _ _ full) in
        rw full (rw n (evict_lru-drop (suc m) d _ h ∙ ground arith))
    | inr room ↦
        let n : suc (length d) + 1 - suc m ≡ zero = ground arith in
        rw room (rw n (ground (arith, add-zero st.evictions)))
  ]

  move_to_end_found :
      (d : Dict (CacheEntry V)) (k : String) (e : CacheEntry V)
      → Dict.get d k ≡ some e
      → move_to_end d k ≡ Dict.del d k ++ (k, e) ∷ []
  unfolding move_to_end
  move_to_end_found d k e h = rw (h, move_to_end)

  -- A stored entry stands last, once.
  pub store-cache :
      (key : String) (e : CacheEntry V) (c : LruCache V)
      → (store key e c).cache ≡ Dict.del c.cache key ++ (key, e) ∷ []
  unfolding store
  store-cache key e c =
      move_to_end_found (Dict.put c.cache key e) key e (rw get-put (rw (eq_refl key)))
      ∙ ap (λ d. d ++ (key, e) ∷ []) (del-put c.cache key e)

  -- A hit moves the entry to the end and counts the hit.
  pub touch-cache :
      (d : Dict (CacheEntry V)) (k : String) (e e' : CacheEntry V)
      → Dict.get d k ≡ some e
      → Dict.put (move_to_end d k) k e' ≡ Dict.del d k ++ (k, e') ∷ []
  touch-cache d k e e' h =
      rw (move_to_end_found d k e h) (put-append (Dict.del d k) k e e' (absent-del d k))

  -- Each operation keeps the invariant.
  pub get-IsValid :
      (now : ℕ) (key : String) (c : LruCache V) → IsValid c → IsValid (get now key c).1
  unfolding get
  get-IsValid now key c v = elim (Option-cases (Dict.get c.cache key)) [
    | inl miss ↦
        rw (miss, found) (record { distinct = v.distinct; bounded = v.bounded; sized = v.sized })
    | inr (e, hit) ↦
        rw (hit, found)
          (elim (Bool-cases (is_expired now e)) [
            | inl old ↦ rw old (record {
              distinct = del-Distinct c.cache key v.distinct;
              bounded = omega (arith, length-del-le c.cache key, v.bounded);
              sized = refl;
            })
            | inr live ↦ rw live (
                rw (touch-cache c.cache key e _ hit) (record {
                  distinct = last-Distinct c.cache key _ v.distinct;
                  bounded = omega (
                    arith,
                    length-last c.cache key (record e { hits = e.hits + 1 }) e v.distinct hit,
                  );
                  sized = omega (
                    arith,
                    length-last c.cache key (record e { hits = e.hits + 1 }) e v.distinct hit,
                    v.sized,
                  );
                }))
          ])
  ]

  pub max_size-get :
      (now : ℕ) (key : String) (c : LruCache V) → (get now key c).1.max_size ≡ c.max_size
  unfolding get found
  max_size-get now key c = ground arith

  pub default_ttl-get :
      (now : ℕ) (key : String) (c : LruCache V) → (get now key c).1.default_ttl ≡ c.default_ttl
  unfolding get found
  default_ttl-get now key c = ground arith

  evict_expired-IsValid : (now : ℕ) (c : LruCache V) → IsValid c → IsValid (evict_expired now c).1
  unfolding evict_expired
  evict_expired-IsValid now c v =
      rw (del_all-keep (λ e. is_expired now e.1) c.cache v.distinct) (record {
        distinct = keep-Distinct _ c.cache v.distinct;
        bounded = omega (arith, length-keep-le (λ e. not (is_expired now e.1)) c.cache, v.bounded);
        sized = refl;
      })

  make_room-IsValid : (now : ℕ) (c : LruCache V) → IsValid c → IsValid (make_room now c)
  make_room-IsValid now c v = elim (Bool-cases (leb c.max_size (length c.cache))) [
    | inl full ↦ rw full (evict_expired-IsValid now c v)
    | inr room ↦ rw room v
  ]

  store-IsValid :
      (key : String) (e : CacheEntry V) (c : LruCache V)
      → Distinct c.cache
      → length c.cache < c.max_size
      → IsValid (store key e c)
  store-IsValid key e c u h = record {
    distinct = rw store-cache (last-Distinct c.cache key e u);
    bounded = rw store-cache (unfold store in omega (arith, length-last-le c.cache key e));
    sized = unfold store in refl;
  }

  pub max_size-make_room : (now : ℕ) (c : LruCache V) → (make_room now c).max_size ≡ c.max_size
  unfolding evict_expired
  max_size-make_room now c = elim (Bool-cases (leb c.max_size (length c.cache))) [
    | inl full ↦ rw full
    | inr room ↦ rw room
  ]

  -- The cache that `set` leaves, with its loops gone: the oldest entries over the limit are dropped.
  unfoldable pub after_set : ℕ → ℕ → String → V → Option ℕ → LruCache V → LruCache V
  after_set now now' key value ttl c =
      let r = make_room now c in
      let over = length r.cache + 1 - r.max_size in
      store key (fresh now' value ttl c.default_ttl) (record r {
        cache = drop over r.cache;
        stats = record r.stats { evictions = r.stats.evictions + over };
      })

  pub set-after_set :
      (now now' : ℕ) (key : String) (value : V) (ttl : Option ℕ) (c : LruCache V)
      → 0 < c.max_size
      → set now now' key value ttl c ≡ some (after_set now now' key value ttl c)
  unfolding set after_set
  set-after_set now now' key value ttl c p =
      let r = make_room now c in
      rw (evict_lru-drop r.max_size r.cache r.stats (omega (arith, max_size-make_room now c)), set)

  pub max_size-after_set :
      (now now' : ℕ) (key : String) (value : V) (ttl : Option ℕ) (c : LruCache V)
      → (after_set now now' key value ttl c).max_size ≡ c.max_size
  unfolding after_set store
  max_size-after_set now now' key value ttl c = max_size-make_room now c

  pub after_set-IsValid :
      (now now' : ℕ) (key : String) (value : V) (ttl : Option ℕ) (c : LruCache V)
      → 0 < c.max_size
      → IsValid c
      → IsValid (after_set now now' key value ttl c)
  unfolding after_set
  after_set-IsValid now now' key value ttl c p v =
      let r = make_room now c in
      let vr : IsValid r = make_room-IsValid now c v in
      let over = length r.cache + 1 - r.max_size in
      store-IsValid key (fresh now' value ttl c.default_ttl)
        (record r {
          cache = drop over r.cache;
          stats = record r.stats { evictions = r.stats.evictions + over };
        })
        (drop-Distinct over r.cache vr.distinct)
        (omega (arith, length-drop over r.cache, vr.bounded, max_size-make_room now c))

  pub delete-IsValid : (key : String) (c : LruCache V) → IsValid c → IsValid (delete key c).1
  unfolding delete
  delete-IsValid key c v = elim (Option-cases (Dict.get c.cache key)) [
    | inl miss ↦ rw (miss, delete) v
    | inr (e, hit) ↦
        rw (hit, delete)
          (record {
            distinct = del-Distinct c.cache key v.distinct;
            bounded = omega (arith, length-del-le c.cache key, v.bounded);
            sized = refl;
          })
  ]

  pub invalidate_pattern-IsValid :
      (pattern : String) (c : LruCache V) → IsValid c → IsValid (invalidate_pattern pattern c).1
  unfolding invalidate_pattern
  invalidate_pattern-IsValid pattern c v =
      rw (del_all-keep (λ e. starts_with e.0 pattern) c.cache v.distinct) (record {
        distinct = keep-Distinct _ c.cache v.distinct;
        bounded =
            omega (arith, length-keep-le (λ e. not (starts_with e.0 pattern)) c.cache, v.bounded);
        sized = refl;
      })
