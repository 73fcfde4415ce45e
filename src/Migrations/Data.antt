-- ===== src/Migrations/Data.antt =====
-- app/migrations/models.py, and the data of app/migrations/runner.py with the two collections that it
-- uses, which are no part of the program.
use application_workflow_ser.Base.{
  ℕ, Bool, true, false, Option, none, some, List, [], ◌∷◌, ltb, leb, ◌==◌, ◌≡◌, refl, if◌then◌else◌,
}
use application_workflow_ser.Text.{Text, same_text}
use application_workflow_ser.Mongo.Versions.{VersionTable}

pub data MigrationStatus : Type 0 where
  pending applied failed rolled_back : MigrationStatus

abbrev pub is_applied : MigrationStatus → Bool
is_applied applied = true
is_applied _ = false

-- `up` and `down`: the message of the exception, if one is raised, and the database afterwards.
pub record Migration (Db : Type 0) : Type 0 where
  pub version : ℕ
  pub name : Text
  pub description : Text
  pub checksum : Text
  pub up : Db → Option Text × Db
  pub down : Db → Option Text × Db

pub record MigrationRecord : Type 0 where
  pub version : ℕ
  pub name : Text
  pub description : Text
  pub applied_at : ℕ
  pub execution_time_ms : ℕ
  pub status : MigrationStatus
  pub checksum : Text
  pub error_message : Option Text

-- `MigrationRecord.version` of a document.
abbrev pub version_of : MigrationRecord → ℕ
version_of r = r.version

pub record MigrationLock : Type 0 where
  pub locked_at : ℕ
  pub locked_by : Text
  pub expires_at : ℕ

-- What `replace_one({"_id": …, "expires_at": {"$lt": now}}, …)` and
-- `delete_one({"_id": …, "locked_by": …})` do to the document.
abbrev pub replaced : ℕ → MigrationLock → Option MigrationLock → Option MigrationLock
replaced now l none = none
replaced now l (some o) = if ltb o.expires_at now then some l else some o

abbrev pub deleted : Text → Option MigrationLock → Option MigrationLock
deleted by none = none
deleted by (some o) = if same_text o.locked_by by then none else some o

-- The collection `_migration_locks` at the key "migration_lock", and what the calls do there.
pub record LockTable : Type 1 where
  pub Store : Type 0
  pub find_lock : Store → Option MigrationLock
  -- `insert_one` where there is none; it raises where there is one
  pub insert_lock : Store → MigrationLock → Store
  pub replace_expired : Store → ℕ → MigrationLock → Store
  pub delete_by : Store → Text → Store
  pub find-insert :
      (s : Store) (l : MigrationLock) → find_lock s ≡ none → find_lock (insert_lock s l) ≡ some l
  pub find-replace :
      (s : Store) (now : ℕ) (l : MigrationLock)
      → find_lock (replace_expired s now l) ≡ replaced now l (find_lock s)
  pub find-delete : (s : Store) (by : Text) → find_lock (delete_by s by) ≡ deleted by (find_lock s)

-- A lock collection in memory.
abbrev pub lock_in_memory : LockTable
lock_in_memory = record {
  Store = Option MigrationLock;
  find_lock = λ s. s;
  insert_lock = λ s l. some l;
  replace_expired = λ s now l. replaced now l s;
  delete_by = λ s by. deleted by s;
  find-insert = λ s l _. refl;
  find-replace = λ s now l. refl;
  find-delete = λ s by. refl;
}

-- What a call returns or raises: `MigrationLockError`, `MigrationError` of a version with the message
-- of its cause, or the `DuplicateKeyError` of a version.
pub data Outcome (A : Type 0) : Type 0 where
  returned : A → Outcome A
  locked : Outcome A
  migration_failed : ℕ → Text → Outcome A
  duplicate_version : ℕ → Outcome A

pub record Stamp : Type 0 where
  pub applied_at : ℕ
  pub execution_time_ms : ℕ

pub record Platform : Type 1 where
  pub table : VersionTable version_of
  pub locks : LockTable

-- `{m.version: m for m in …}.get(v)`: the last one wins.
unfoldable pub by_version : {Db : Type 0} → ℕ → List (Migration Db) → Option (Migration Db)
by_version v [] = none
by_version v (m ∷ ms) = elim (by_version v ms) [
  | some n ↦ some n
  | none ↦ if m.version == v then some m else none
]

-- `sort(key=lambda r: r.version, reverse=True)`, which is stable.
insert_descending : MigrationRecord → List MigrationRecord → List MigrationRecord
insert_descending r [] = r ∷ []
insert_descending r (s ∷ rs) =
    let later = insert_descending r rs in if leb s.version r.version then r ∷ s ∷ rs else s ∷ later

unfoldable pub descending : List MigrationRecord → List MigrationRecord
unfolding insert_descending
descending [] = []
descending (r ∷ rs) = insert_descending r (descending rs)
