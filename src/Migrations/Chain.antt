-- ===== src/Migrations/Chain.antt =====
-- app/migrations/runner.py: a run of migrations that all succeed, in the loop of `migrate_up`.
use application_workflow_ser.Base.{
  ℕ, ◌<◌, ◌≡◌, inl, inr, refl, ◌∙◌, ap, false, Option, none, some, List, [], ◌∷◌, ◌++◌, arith, ◌==◌,
  map, if◌then◌else◌, Option-cases, append-nil, append_assoc, All,
}
use application_workflow_ser.Text.{Text}
use application_workflow_ser.Migrations.Data.{Migration, MigrationRecord, Outcome, Stamp, Platform}
use application_workflow_ser.Migrations.{World, apply_all, beyond}
use application_workflow_ser.Migrations.Loops.{up_succeeds, with_record, applied_record, apply_next}

-- The database after the `up` of each migration, unless one raises.
unfoldable pub upgraded : {Db : Type 0} → List (Migration Db) → Db → Option Db
upgraded [] db = some db
upgraded (m ∷ ms) db = elim (m.up db).0 [ some e ↦ none | none ↦ upgraded ms (m.up db).1 ]

-- The versions rise.
abbrev pub Rising : {Db : Type 0} → List (Migration Db) → Type 0
Rising [] = Unit
Rising {Db} (m ∷ ms) = All (λ (n : Migration Db). m.version < n.version) ms × Rising ms

module _ (p : Platform) (Db : Type 0) (stamp : ℕ → Stamp) (duplicate : Text)
    (target : Option ℕ) where
  open p use {table, locks}

  abbrev pub loop :
      List (Migration Db)
      → List MigrationRecord
      → World p Db
      → Outcome (List MigrationRecord) × World p Db
  loop = apply_all p Db stamp duplicate target false

  abbrev pub applied_of : Migration Db → MigrationRecord
  applied_of = applied_record p Db stamp duplicate

  abbrev pub doc_of : World p Db → ℕ → Option MigrationRecord
  doc_of w v = table.find_version w.migrations v

  -- The records of migrations, put over those that are there.
  unfoldable pub overlay : List (Migration Db) → ℕ → Option MigrationRecord → Option MigrationRecord
  overlay [] v o = o
  overlay (m ∷ ms) v o = overlay ms v (if m.version == v then some (applied_of m) else o)

  pub installed : List (Migration Db) → World p Db → World p Db
  installed [] w = w
  installed (m ∷ ms) w = installed ms (with_record p Db stamp duplicate m (applied_of m) w)

  pub Smooth : List (Migration Db) → World p Db → Type 0
  Smooth [] w = Unit
  Smooth (m ∷ ms) w =
      (beyond p Db target m.version ≡ false)
      × (doc_of w m.version ≡ none)
      × ((m.up w.db).0 ≡ none)
      × Smooth ms (with_record p Db stamp duplicate m (applied_of m) w)

  pub apply_prefix :
      (ms rest : List (Migration Db)) (records : List MigrationRecord) (w : World p Db)
      → Smooth ms w
      → loop (ms ++ rest) records w ≡ loop rest (records ++ map (applied_of) ms) (installed ms w)
  unfolding Smooth installed
  apply_prefix [] rest records w s = rw append-nil refl
  apply_prefix (m ∷ ms) rest records w (near, new, good, s) =
      let step = up_succeeds p Db stamp duplicate m w new good in
      apply_next p Db stamp duplicate target m (ms ++ rest) records w (applied_of m) near
        (ap (λ x. x.0) step)
      ∙ ap (λ x. loop (ms ++ rest) (records ++ applied_of m ∷ []) x.1) step
      ∙ apply_prefix ms rest (records ++ applied_of m ∷ []) _ s
      ∙ ap (λ rs. loop rest rs (installed (m ∷ ms) w))
          (append_assoc records (applied_of m ∷ []) (map applied_of ms))

  pub installed-db :
      (ms : List (Migration Db)) (w : World p Db) (db : Db)
      → upgraded ms w.db ≡ some db
      → (installed ms w).db ≡ db
  unfolding installed upgraded
  installed-db [] w db h = ground arith
  installed-db (m ∷ ms) w db h = elim (Option-cases (m.up w.db).0) [
    | inl good ↦ installed-db ms _ db (rw (good, upgraded) at h)
    | inr (e, bad) ↦ absurd (ground (arith, bad, h))
  ]

  pub installed-lock : (ms : List (Migration Db)) (w : World p Db) → (installed ms w).lock ≡ w.lock
  unfolding installed
  installed-lock [] w = refl
  installed-lock (m ∷ ms) w = installed-lock ms _

  pub installed-doc :
      (ms : List (Migration Db)) (w : World p Db) (v : ℕ)
      → Smooth ms w
      → doc_of (installed ms w) v ≡ overlay ms v (doc_of w v)
  unfolding installed overlay Smooth
  installed-doc [] w v s = refl
  installed-doc (m ∷ ms) w v (near, new, good, s) =
      installed-doc ms _ v s
      ∙ ap (overlay ms v) (table.find-insert w.migrations (applied_of m) v new)

  -- The conditions of a run, each on its own.
  pub record Ready (ms : List (Migration Db)) (w : World p Db) (db : Db) : Type 0 where
    pub within : All (λ (m : Migration Db). beyond p Db target m.version ≡ false) ms
    pub new : All (λ (m : Migration Db). doc_of w m.version ≡ none) ms
    pub rising : Rising ms
    pub runs : upgraded ms w.db ≡ some db

  still_new :
      (m : Migration Db) (ms : List (Migration Db)) (w : World p Db)
      → doc_of w m.version ≡ none
      → All (λ (n : Migration Db). m.version < n.version) ms
      → All (λ (n : Migration Db). doc_of w n.version ≡ none) ms
      → All
          (λ (n : Migration Db).
            doc_of (with_record p Db stamp duplicate m (applied_of m) w) n.version ≡ none)
          ms
  still_new m [] w new above all = tt
  still_new m (n ∷ ms) w new above all = (
    ground (arith, table.find-insert w.migrations (applied_of m) n.version new, above.0, all.0),
    still_new m ms w new above.1 all.1,
  )

  pub Ready-Smooth :
      (ms : List (Migration Db)) (w : World p Db) (db : Db) → Ready ms w db → Smooth ms w
  unfolding Smooth upgraded
  Ready-Smooth [] w db r = tt
  Ready-Smooth (m ∷ ms) w db r = elim (Option-cases (m.up w.db).0) [
    | inl good ↦ (
      r.within.0,
      r.new.0,
      good,
      Ready-Smooth ms _ db record {
        within = r.within.1;
        new = still_new m ms w r.new.0 r.rising.0 r.new.1;
        rising = r.rising.1;
        runs = rw (good, upgraded) at r.runs;
      },
    )
    | inr (e, bad) ↦ absurd (ground (arith, bad, r.runs))
  ]
