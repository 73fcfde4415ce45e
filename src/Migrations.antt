-- ===== src/Migrations.antt =====
-- app/migrations/runner.py: the runner. A migration's `up` and `down` act on
-- a database of any type and may raise in the middle; the database calls of the runner itself raise
-- only where the unique index refuses a version. What a migration's run is stamped with (its time and
-- its duration) is an argument, by its version.
pub mod Data
pub mod Lock
pub mod Loops
pub mod Undo
pub mod Stale
pub mod Up
pub mod Chain
pub mod Pending
pub mod Completes
pub mod Down
pub mod Unlocks
pub mod Files
pub mod Discovered
use application_workflow_ser.Base.{
  ℕ, zero, suc, ◌+◌, Bool, true, false, not, Option, none, some, List, [], ◌∷◌, ◌++◌, ltb, leb,
  if◌then◌else◌, keep, map, max, length,
}
use application_workflow_ser.Text.{Text, same_text}
use application_workflow_ser.Mongo.Versions.{has_version}
use application_workflow_ser.Migrations.Data.{
  MigrationStatus, applied, failed, rolled_back, is_applied, Migration, MigrationRecord, version_of,
  MigrationLock, LockTable, Outcome, returned, locked, migration_failed, duplicate_version, Stamp,
  Platform, by_version, descending,
}

module _ (p : Platform) (Db : Type 0) where
  open p use {table, locks}

  pub record World : Type 0 where
    pub db : Db
    pub migrations : table.Store
    pub lock : locks.Store

  -- `_acquire_lock` and `_release_lock`, with the identity of the process.
  unfoldable pub acquire_lock : ℕ → ℕ → Text → World → Bool × World
  acquire_lock now timeout id w =
      let lock : MigrationLock = record {
        locked_at = now;
        locked_by = id;
        expires_at = now + timeout;
      } in
      elim (locks.find_lock w.lock) [
        | none ↦ (true, record w { lock = locks.insert_lock w.lock lock })
        | some old ↦
            if ltb old.expires_at now
            then (true, record w { lock = locks.replace_expired w.lock now lock })
            else (false, w)
      ]

  unfoldable pub release_lock : Text → World → World
  release_lock id w = record w { lock = locks.delete_by w.lock id }

  unfoldable pub get_applied_migrations : World → List MigrationRecord
  get_applied_migrations w = table.find_where w.migrations (λ r. is_applied r.status)

  -- `discovered` is what `discover_migrations` returns.
  unfoldable pub get_pending_migrations : List (Migration Db) → World → List (Migration Db)
  unfolding get_applied_migrations
  get_pending_migrations discovered w =
      keep (λ m. not (has_version version_of m.version (get_applied_migrations w))) discovered

  abbrev pub record_of : Stamp → MigrationStatus → Option Text → Migration Db → MigrationRecord
  record_of t status error m = record {
    version = m.version;
    name = m.name;
    description = m.description;
    applied_at = t.applied_at;
    execution_time_ms = t.execution_time_ms;
    status = status;
    checksum = m.checksum;
    error_message = error;
  }

  -- `insert_one`; `none` is the `DuplicateKeyError`.
  unfoldable pub insert_record : MigrationRecord → World → Option World
  insert_record r w = elim (table.find_version w.migrations r.version) [
    | none ↦ some (record w { migrations = table.insert_one w.migrations r })
    | some old ↦ none
  ]

  -- One round of `migrate_up`: the record, or what is raised.
  pub data Round : Type 0 where
    recorded : MigrationRecord → Round
    raised : Outcome (List MigrationRecord) → Round

  abbrev pub failure_kept : Migration Db → Text → World → Option World → Round × World
  failure_kept m e w (some w') = (raised (migration_failed m.version e), w')
  failure_kept m e w none = (raised (duplicate_version m.version), w)

  -- The `except` clause.
  unfoldable pub fail_up : (ℕ → Stamp) → Migration Db → Text → World → Round × World
  fail_up stamp m e w =
      failure_kept m e w (insert_record (record_of (stamp m.version) failed (some e) m) w)

  abbrev pub success_kept : (ℕ → Stamp) → Text → Migration Db → World → Option World → Round × World
  success_kept stamp duplicate m w (some w') =
      (recorded (record_of (stamp m.version) applied none m), w')
  success_kept stamp duplicate m w none = fail_up stamp m duplicate w

  abbrev pub after_up : (ℕ → Stamp) → Text → Migration Db → World → Option Text → Round × World
  after_up stamp duplicate m w none =
      success_kept stamp duplicate m w
        (insert_record (record_of (stamp m.version) applied none m) w)
  after_up stamp duplicate m w (some e) = fail_up stamp m e w

  -- `duplicate` is the message of a `DuplicateKeyError`.
  unfoldable pub run_up : (ℕ → Stamp) → Text → Migration Db → World → Round × World
  unfolding fail_up
  run_up stamp duplicate m w =
      let (error, db') = m.up w.db in after_up stamp duplicate m (record w { db = db' }) error

  -- `if target_version and migration.version > target_version`: the target 0 is none.
  abbrev pub beyond : Option ℕ → ℕ → Bool
  beyond none v = false
  beyond (some zero) v = false
  beyond (some (suc t)) v = ltb (suc t) v

  -- The loop of `migrate_up`.
  unfoldable pub apply_all :
      (ℕ → Stamp)
      → Text
      → Option ℕ
      → Bool
      → List (Migration Db)
      → List MigrationRecord
      → World
      → Outcome (List MigrationRecord) × World
  apply_all stamp duplicate target dry_run [] records w = (returned records, w)
  apply_all stamp duplicate target dry_run (m ∷ ms) records w = elim (beyond target m.version) [
    | true ↦ (returned records, w)
    | false ↦ elim dry_run [
      | true ↦ apply_all stamp duplicate target dry_run ms records w
      | false ↦ elim (run_up stamp duplicate m w).0 [
        | recorded r ↦
            apply_all stamp duplicate target dry_run ms (records ++ r ∷ [])
              (run_up stamp duplicate m w).1
        | raised e ↦ (e, (run_up stamp duplicate m w).1)
      ]
    ]
  ]

  abbrev pub released :
      Text → Outcome (List MigrationRecord) × World → Outcome (List MigrationRecord) × World
  released id (o, w) = (o, release_lock id w)

  -- The `try … finally` of both calls, under the lock unless it is a dry run.
  abbrev pub under_lock :
      ℕ
      → ℕ
      → Text
      → Bool
      → (World → Outcome (List MigrationRecord) × World)
      → World
      → Outcome (List MigrationRecord) × World
  under_lock now timeout id true body w = body w
  under_lock now timeout id false body w = elim (acquire_lock now timeout id w).0 [
    | false ↦ (locked, (acquire_lock now timeout id w).1)
    | true ↦ released id (body (acquire_lock now timeout id w).1)
  ]

  -- A process: the time at which it asks for the lock, the timeout and its identity.
  pub record Caller : Type 0 where
    pub now : ℕ
    pub timeout : ℕ
    pub id : Text

  unfoldable pub migrate_up :
      Caller
      → (ℕ → Stamp)
      → Text
      → List (Migration Db)
      → Option ℕ
      → Bool
      → World
      → Outcome (List MigrationRecord) × World
  migrate_up c stamp duplicate discovered target dry_run =
      under_lock c.now c.timeout c.id dry_run
        λ w. apply_all stamp duplicate target dry_run (get_pending_migrations discovered w) [] w

  -- `if target_version is not None and record.version <= target_version`
  abbrev pub reached : Option ℕ → ℕ → Bool
  reached none v = false
  reached (some t) v = leb v t

  abbrev pub roll_back : MigrationRecord → MigrationRecord
  roll_back r = record r { status = rolled_back }

  -- One round of `migrate_down`.
  abbrev pub after_down : Migration Db → MigrationRecord → World → Option Text → Round × World
  after_down m r w none = (
    recorded (roll_back r),
    record w { migrations = table.update_one w.migrations m.version roll_back },
  )
  after_down m r w (some e) = (raised (migration_failed m.version e), w)

  unfoldable pub run_down : Migration Db → MigrationRecord → World → Round × World
  run_down m r w = let (error, db') = m.down w.db in after_down m r (record w { db = db' }) error

  abbrev pub is_none : Option ℕ → Bool
  is_none none = true
  is_none (some t) = false

  -- The loop of `migrate_down`.
  unfoldable pub undo_all :
      List (Migration Db)
      → Option ℕ
      → Bool
      → List MigrationRecord
      → List MigrationRecord
      → World
      → Outcome (List MigrationRecord) × World
  undo_all discovered target dry_run [] records w = (returned records, w)
  undo_all discovered target dry_run (r ∷ rs) records w = elim (reached target r.version) [
    | true ↦ (returned records, w)
    | false ↦ elim (by_version r.version discovered) [
      | none ↦ undo_all discovered target dry_run rs records w
      | some m ↦ elim dry_run [
        | true ↦ elim (is_none target) [
          | true ↦ (returned records, w)
          | false ↦ undo_all discovered target dry_run rs records w
        ]
        | false ↦ elim (run_down m r w).0 [
          | raised e ↦ (e, (run_down m r w).1)
          | recorded done ↦ elim (is_none target) [
            | true ↦ (returned (records ++ done ∷ []), (run_down m r w).1)
            | false ↦
                undo_all discovered target dry_run rs (records ++ done ∷ []) (run_down m r w).1
          ]
        ]
      ]
    ]
  ]

  unfoldable pub migrate_down :
      Caller
      → List (Migration Db)
      → Option ℕ
      → Bool
      → World
      → Outcome (List MigrationRecord) × World
  migrate_down c discovered target dry_run =
      under_lock c.now c.timeout c.id dry_run
        λ w. undo_all discovered target dry_run (descending (get_applied_migrations w)) [] w

  -- A mismatch: the recorded and the present checksum of a version.
  abbrev mismatch_of : MigrationRecord → Option (Migration Db) → List (ℕ × Text × Text)
  mismatch_of r none = []
  mismatch_of r (some m) =
      if not (same_text m.checksum r.checksum) then (r.version, r.checksum, m.checksum) ∷ [] else []

  unfoldable pub mismatches : List (Migration Db) → List MigrationRecord → List (ℕ × Text × Text)
  mismatches discovered [] = []
  mismatches discovered (r ∷ rs) =
      mismatch_of r (by_version r.version discovered) ++ mismatches discovered rs

  unfoldable pub verify_checksums : List (Migration Db) → World → List (ℕ × Text × Text)
  unfolding mismatches get_applied_migrations
  verify_checksums discovered w = mismatches discovered (get_applied_migrations w)

  -- The numbers of `get_status`; the lists beside them are those of the two calls above.
  pub record Status : Type 0 where
    pub total_migrations : ℕ
    pub applied_count : ℕ
    pub pending_count : ℕ
    pub current_version : ℕ
    pub latest_version : ℕ

  abbrev highest : ℕ → List ℕ → ℕ
  highest v [] = v
  highest v (u ∷ us) = highest (max v u) us

  unfoldable pub get_status : List (Migration Db) → World → Status
  unfolding get_applied_migrations get_pending_migrations
  get_status discovered w =
      let done = get_applied_migrations w in
      record {
        total_migrations = length discovered;
        applied_count = length done;
        pending_count = length (get_pending_migrations discovered w);
        current_version = highest 0 (map version_of done);
        latest_version = highest 0 (map (λ m. m.version) discovered);
      }
