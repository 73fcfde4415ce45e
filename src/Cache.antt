-- ===== src/Cache.antt =====
-- app/core/cache.py: the LRU cache with a time to live for each entry.
-- Times are natural numbers of clock ticks. A method holds the lock from its first to its last
-- line, so it is one function from the cache to its result and the cache after it; each reading
-- of the clock is an argument. `name` is read by log lines only and is left out.
pub mod Capacity
pub mod Calls
pub mod Reads
pub mod Order
pub mod Cached
use text.Mathlib.Text.{starts_with}
use application_workflow_ser.Base.{
  ℕ, ◌+◌, String, Bool, true, false, Option, none, some, [], ◌∷◌, ◌++◌, ltb, leb, if◌then◌else◌,
  length, keep,
}
use application_workflow_ser.Base.Dict
use application_workflow_ser.Base.Dict.{Dict}
use application_workflow_ser.Base.Sweep.{keys, del_all}

pub record CacheEntry (V : Type 0) : Type 0 where
  pub value : V
  pub created_at : ℕ
  pub ttl : ℕ
  pub hits : ℕ

pub record CacheStats : Type 0 where
  pub hits : ℕ
  pub misses : ℕ
  pub evictions : ℕ
  pub size : ℕ
  pub max_size : ℕ

pub record LruCache (V : Type 0) : Type 0 where
  pub cache : Dict (CacheEntry V)
  pub max_size : ℕ
  pub default_ttl : ℕ
  pub stats : CacheStats

-- `ttl or self._default_ttl`
abbrev pub ttl_or : Option ℕ → ℕ → ℕ
ttl_or none default = default
ttl_or (some t) default = if leb t 0 then default else t

module _ {V : Type 0} where
  -- `time.time() - self.created_at > self.ttl`, over the integers
  unfoldable pub is_expired : ℕ → CacheEntry V → Bool
  is_expired now e = ltb (e.created_at + e.ttl) now

  unfoldable pub new_cache : ℕ → ℕ → LruCache V
  new_cache max_size default_ttl = record {
    cache = [];
    max_size = max_size;
    default_ttl = default_ttl;
    stats = record { hits = 0; misses = 0; evictions = 0; size = 0; max_size = max_size };
  }

  -- `OrderedDict.move_to_end`
  unfoldable pub move_to_end : Dict (CacheEntry V) → String → Dict (CacheEntry V)
  move_to_end d k = elim (Dict.get d k) [ none ↦ d | some e ↦ Dict.del d k ++ (k, e) ∷ [] ]

  found : ℕ → String → LruCache V → Option (CacheEntry V) → Option V × LruCache V
  found now key c none = (none, record c { stats = record c.stats { misses = c.stats.misses + 1 } })
  found now key c (some e) =
      if is_expired now e
      then (let rest = Dict.del c.cache key in
          (
            none,
            record c {
              cache = rest;
              stats = record c.stats {
                misses = c.stats.misses + 1;
                evictions = c.stats.evictions + 1;
                size = length rest;
              };
            },
          ))
      else (
        some e.value,
        record c {
          cache = Dict.put (move_to_end c.cache key) key (record e { hits = e.hits + 1 });
          stats = record c.stats { hits = c.stats.hits + 1 };
        },
      )

  unfoldable pub get : ℕ → String → LruCache V → Option V × LruCache V
  unfolding found
  get now key c = found now key c (Dict.get c.cache key)

  -- The number of entries evicted, and the cache without them.
  unfoldable pub evict_expired : ℕ → LruCache V → ℕ × LruCache V
  evict_expired now c =
      let expired_keys = keys (keep (λ e. is_expired now e.1) c.cache) in
      let rest = del_all c.cache expired_keys in
      (
        length expired_keys,
        record c {
          cache = rest;
          stats = record c.stats {
            evictions = c.stats.evictions + length expired_keys;
            size = length rest;
          };
        },
      )

  -- The `while` loop of `set`. On an empty cache `next(iter(...))` raises, here `none`.
  unfoldable pub evict_lru :
      ℕ → Dict (CacheEntry V) → CacheStats → Option (Dict (CacheEntry V) × CacheStats)
  evict_lru max_size [] st = if leb max_size 0 then none else some ([], st)
  evict_lru max_size (e ∷ rest) st =
      let next = evict_lru max_size rest (record st { evictions = st.evictions + 1 }) in
      if leb max_size (length (e ∷ rest)) then next else some (e ∷ rest, st)

  abbrev pub fresh : ℕ → V → Option ℕ → ℕ → CacheEntry V
  fresh now value ttl default = record {
    value = value;
    created_at = now;
    ttl = ttl_or ttl default;
    hits = 0;
  }

  unfoldable pub store : String → CacheEntry V → LruCache V → LruCache V
  store key e c =
      let d = move_to_end (Dict.put c.cache key e) key in
      record c { cache = d; stats = record c.stats { size = length d } }

  abbrev pub make_room : ℕ → LruCache V → LruCache V
  make_room now c = if leb c.max_size (length c.cache) then (evict_expired now c).1 else c

  -- The clock is read twice: `now` for the eviction, `now'` for the entry.
  unfoldable pub set : ℕ → ℕ → String → V → Option ℕ → LruCache V → Option (LruCache V)
  set now now' key value ttl c =
      let roomy = make_room now c in
      elim (evict_lru roomy.max_size roomy.cache roomy.stats) [
        | none ↦ none
        | some (d, st) ↦ some (
            store key (fresh now' value ttl c.default_ttl) (record roomy { cache = d; stats = st }))
      ]

  unfoldable pub delete : String → LruCache V → Bool × LruCache V
  delete key c = elim (Dict.get c.cache key) [
    | none ↦ (false, c)
    | some e ↦
        let rest = Dict.del c.cache key in
        (true, record c { cache = rest; stats = record c.stats { size = length rest } })
  ]

  unfoldable pub clear : LruCache V → LruCache V
  clear c = record c { cache = []; stats = record c.stats { size = 0 } }

  unfoldable pub invalidate_pattern : String → LruCache V → ℕ × LruCache V
  invalidate_pattern pattern c =
      let keys_to_delete = keys (keep (λ e. starts_with e.0 pattern) c.cache) in
      let rest = del_all c.cache keys_to_delete in
      (
        length keys_to_delete,
        record c { cache = rest; stats = record c.stats { size = length rest } },
      )
