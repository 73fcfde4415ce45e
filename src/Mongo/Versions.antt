-- ===== src/Mongo/Versions.antt =====
-- A collection with a unique index on a number (`_migrations` and its `version`), which is no part of
-- the program: an interface with the documented behaviour of the calls, and a collection in memory.
use application_workflow_ser.Base.{
  ℕ, Bool, false, ◌&&◌, ◌||◌, Option, none, some, List, [], ◌∷◌, ◌≡◌, refl, ◌∙◌, arith, ◌==◌, keep,
  if◌then◌else◌,
}
use application_workflow_ser.Mongo.{changed}

module _ {D : Type 0} (version_of : D → ℕ) where
  abbrev pub has_version : ℕ → List D → Bool
  has_version v [] = false
  has_version v (d ∷ l) = version_of d == v || has_version v l

  abbrev pub passes : (D → Bool) → Option D → Bool
  passes p none = false
  passes p (some d) = p d

  pub record VersionTable : Type 1 where
    pub Store : Type 0
    -- the document with a version: the index is unique
    pub find_version : Store → ℕ → Option D
    -- `find(filter).sort("version", 1)`
    pub find_where : Store → (D → Bool) → List D
    -- `insert_one` of a document whose version is not there; another raises `DuplicateKeyError`
    pub insert_one : Store → D → Store
    -- `update_one({"version": v}, …)`, with an update that keeps the version
    pub update_one : Store → ℕ → (D → D) → Store
    pub find-insert :
        (s : Store) (d : D) (v : ℕ)
        → find_version s (version_of d) ≡ none
        → find_version (insert_one s d) v ≡ (if version_of d == v then some d else find_version s v)
    pub find-update :
        (s : Store) (u v : ℕ) (f : D → D)
        → ((d : D) → version_of (f d) ≡ version_of d)
        → find_version (update_one s u f) v
          ≡ (if u == v then changed f (find_version s v) else find_version s v)
    pub found :
        (s : Store) (p : D → Bool) (v : ℕ)
        → has_version v (find_where s p) ≡ passes p (find_version s v)

module _ {D : Type 0} (version_of : D → ℕ) where
  unfoldable pub lookup_version : List D → ℕ → Option D
  lookup_version [] v = none
  lookup_version (d ∷ l) v = if version_of d == v then some d else lookup_version l v

  unfoldable pub update_first : List D → ℕ → (D → D) → List D
  update_first [] v f = []
  update_first (d ∷ l) v f =
      let rest = update_first l v f in if version_of d == v then f d ∷ l else d ∷ rest

  has-keep :
      (q : ℕ → Bool) (v : ℕ) (l : List D)
      → has_version version_of v (keep (λ d. q (version_of d)) l)
        ≡ (has_version version_of v l && q v)
  unfolding keep
  has-keep q v [] = refl
  has-keep q v (d ∷ l) = ground (arith, has-keep q v l)

  passes-has :
      (p : D → Bool) (v : ℕ) (l : List D)
      → (has_version version_of v l && passes version_of p (lookup_version l v))
        ≡ passes version_of p (lookup_version l v)
  unfolding lookup_version
  passes-has p v [] = refl
  passes-has p v (d ∷ l) = ground (arith, passes-has p v l)

  pub lookup-update :
      (l : List D) (u v : ℕ) (f : D → D)
      → ((d : D) → version_of (f d) ≡ version_of d)
      → lookup_version (update_first l u f) v
        ≡ (if u == v then changed f (lookup_version l v) else lookup_version l v)
  unfolding lookup_version update_first
  lookup-update [] u v f h = ground arith
  lookup-update (d ∷ l) u v f h = ground (arith, lookup-update l u v f h, h d)

  pub found-where :
      (s : List D) (p : D → Bool) (v : ℕ)
      → has_version version_of v
          (keep (λ d. passes version_of p (lookup_version s (version_of d))) s)
        ≡ passes version_of p (lookup_version s v)
  found-where s p v =
      has-keep (λ u. passes version_of p (lookup_version s u)) v s ∙ passes-has p v s

  pub lookup-insert :
      (s : List D) (d : D) (v : ℕ)
      → lookup_version (d ∷ s) v ≡ (if version_of d == v then some d else lookup_version s v)
  unfolding lookup_version
  lookup-insert s d v = refl

  -- A collection in memory.
  abbrev pub versions_in_memory : VersionTable version_of
  versions_in_memory = record {
    Store = List D;
    find_version = lookup_version;
    find_where = λ s p. keep (λ d. passes version_of p (lookup_version s (version_of d))) s;
    insert_one = λ s d. d ∷ s;
    update_one = update_first;
    find-insert = λ s d v _. lookup-insert s d v;
    find-update = λ s u v f h. lookup-update s u v f h;
    found = found-where;
  }
