-- ===== src/Cache/Cached.antt =====
-- app/core/cache.py: the decorators `cached` and `async_cached`, which have one body. The key is the
-- text that the wrapper builds from the prefix and the hash of the arguments; `result` is what the
-- decorated function returns, `none` for Python's `None`.
use application_workflow_ser.Base.{
  ℕ, ◌+◌, ◌≤◌, ◌<◌, ◌≡◌, refl, String, Bool, true, false, Option, none, some, arith, ltb, inl, inr,
  sym, ◌∙◌, ◌⊎◌,
}
use application_workflow_ser.Cache.{LruCache, get, set, ttl_or}
use application_workflow_ser.Cache.Reads.{visible, get-visible, visible-after_set}
use application_workflow_ser.Cache.Capacity.{
  max_size-get, default_ttl-get, after_set, max_size-after_set, set-after_set,
}

pub record Clocks : Type 0 where
  pub at_get : ℕ
  pub at_evict : ℕ
  pub at_store : ℕ

module _ {A : Type 0} where
  missed :
      Clocks
      → String
      → Option ℕ
      → Option A
      → LruCache (Option A)
      → Option (Bool × Option A × LruCache (Option A))
  missed t key ttl result c = elim (set t.at_evict t.at_store key result ttl c) [
    | none ↦ none
    | some c' ↦ some (true, result, c')
  ]

  wrapped :
      Clocks
      → String
      → Option ℕ
      → Option A
      → Option (Option A)
      → LruCache (Option A)
      → Option (Bool × Option A × LruCache (Option A))
  unfolding missed
  wrapped t key ttl result none c = missed t key ttl result c
  wrapped t key ttl result (some none) c = missed t key ttl result c
  wrapped t key ttl result (some (some a)) c = some (false, some a, c)

  -- Whether the function was called, the wrapper's result, and the cache; `none` if it raises.
  unfoldable pub cached :
      Clocks
      → String
      → Option ℕ
      → Option A
      → LruCache (Option A)
      → Option (Bool × Option A × LruCache (Option A))
  unfolding wrapped
  cached t key ttl result c =
      let (value, c') = get t.at_get key c in wrapped t key ttl result value c'

  -- What a later call does about a first result: Python's `None` is computed again.
  abbrev pub recomputes : Option A → Bool
  recomputes none = true
  recomputes (some a) = false

  abbrev pub or_else : Option A → Option A → Option A
  or_else none other = other
  or_else (some a) other = some a

  cached_hit :
      (t : Clocks) (key : String) (ttl : Option ℕ) (result : Option A) (a : A)
      (c : LruCache (Option A))
      → visible t.at_get c key ≡ some (some a)
      → cached t key ttl result c ≡ some (false, some a, (get t.at_get key c).1)
  unfolding cached
  cached_hit t key ttl result a c e =
      rw ((get-visible t.at_get t.at_get key key c (omega arith)).0 ∙ e, wrapped)

  -- A miss, and a stored `None`, call the function and store what it returns.
  cached_miss :
      (t : Clocks) (key : String) (ttl : Option ℕ) (result : Option A) (c : LruCache (Option A))
      (v : Option (Option A))
      → v ≡ visible t.at_get c key
      → (v ≡ none) ⊎ (v ≡ some none)
      → cached t key ttl result c ≡ missed t key ttl result (get t.at_get key c).1
  unfolding cached
  cached_miss t key ttl result c v e (inl p) =
      rw ((get-visible t.at_get t.at_get key key c (omega arith)).0 ∙ sym e ∙ p, wrapped)
  cached_miss t key ttl result c v e (inr p) =
      rw ((get-visible t.at_get t.at_get key key c (omega arith)).0 ∙ sym e ∙ p, wrapped)

  first_cache : Clocks → String → Option ℕ → Option A → LruCache (Option A) → LruCache (Option A)
  first_cache t key ttl result c =
      after_set t.at_evict t.at_store key result ttl (get t.at_get key c).1

  cached_first :
      (t : Clocks) (key : String) (ttl : Option ℕ) (result : Option A) (c : LruCache (Option A))
      → 0 < c.max_size
      → (visible t.at_get c key ≡ none) ⊎ (visible t.at_get c key ≡ some none)
      → cached t key ttl result c ≡ some (true, result, first_cache t key ttl result c)
  unfolding first_cache
  cached_first t key ttl result c p m =
      cached_miss t key ttl result c (visible t.at_get c key) refl m
      ∙ unfold missed in
        rw (
          set-after_set t.at_evict t.at_store key result ttl (get t.at_get key c).1
              (omega (arith, max_size-get t.at_get key c)),
          missed,
        )

  visible-first_cache :
      (t : Clocks) (later : ℕ) (key : String) (ttl : Option ℕ) (result : Option A)
      (c : LruCache (Option A))
      → later ≤ t.at_store + ttl_or ttl c.default_ttl
      → visible later (first_cache t key ttl result c) key ≡ some result
  unfolding first_cache
  visible-first_cache t later key ttl result c h =
      let fits : ltb (t.at_store + ttl_or ttl c.default_ttl) later ≡ false = ground arith in
      visible-after_set t.at_evict t.at_store later key result ttl (get t.at_get key c).1
      ∙ rw (default_ttl-get t.at_get key c) (rw fits)

  -- After a miss, a second call before the entry expires returns the first result without calling
  -- the function; but where the first result was `None`, it calls the function again.
  pub cached-twice :
      (t t' : Clocks) (key : String) (ttl : Option ℕ) (first second : Option A)
      (c : LruCache (Option A))
      → 0 < c.max_size
      → visible t.at_get c key ≡ none
      → t'.at_get ≤ t.at_store + ttl_or ttl c.default_ttl
      → (c' c'' : LruCache (Option A)) × (cached t key ttl first c ≡ some (true, first, c'))
        × (cached t' key ttl second c' ≡ some (recomputes first, or_else first second, c''))
  cached-twice t t' key ttl none second c p miss h =
      let r : Option A = none in
      let c' = first_cache t key ttl none c in
      (
        c',
        first_cache t' key ttl second c',
        cached_first t key ttl none c p (inl miss),
        cached_first t' key ttl second c'
            (unfold first_cache in
              omega (
                arith,
                max_size-after_set t.at_evict t.at_store key r ttl (get t.at_get key c).1,
                max_size-get t.at_get key c,
              ))
            (inr (visible-first_cache t t'.at_get key ttl none c h)),
      )
  cached-twice t t' key ttl (some a) second c p miss h =
      let c' = first_cache t key ttl (some a) c in
      (
        c',
        (get t'.at_get key c').1,
        cached_first t key ttl (some a) c p (inl miss),
        cached_hit t' key ttl second a c' (visible-first_cache t t'.at_get key ttl (some a) c h),
      )
