-- ===== src/Examples/Migrations.antt =====
-- The migration runner in memory. The database is the list of the versions that ran.
use application_workflow_ser.Base.{
  ℕ, ◌≡◌, refl, Bool, false, Option, none, some, List, [], ◌∷◌, arith, map, ◌==◌, if◌then◌else◌,
  keep,
}
use application_workflow_ser.Text.{Text, text, same_text}
use application_workflow_ser.Mongo.Versions.{versions_in_memory, lookup_version, update_first}
use application_workflow_ser.Migrations.Data.{
  Migration, MigrationRecord, MigrationLock, applied, failed, rolled_back, version_of,
  lock_in_memory, Outcome, returned, migration_failed, duplicate_version, Stamp, Platform,
  by_version, descending,
}
use application_workflow_ser.Migrations.{
  World, Caller, migrate_up, migrate_down, acquire_lock, release_lock, get_pending_migrations,
  get_applied_migrations, insert_record, fail_up, run_up, apply_all, run_down, undo_all, record_of,
}
use application_workflow_ser.Migrations.Chain.{upgraded, overlay, Ready, applied_of}
use application_workflow_ser.Migrations.Completes.{up-completes, up-fails}
use application_workflow_ser.Migrations.Up.{up-repeats}
use application_workflow_ser.Migrations.Stale.{Stale, run, up, down, Stale-forever}
use application_workflow_ser.Migrations.Down.{Undone, down-bounded}
use application_workflow_ser.Migrations.Unlocks.{Unlocked, calls-Unlocked}
use application_workflow_ser.Migrations.Files.{parse_filename, discover_migrations}
use application_workflow_ser.Migrations.Discovered.{
  number, Ordered, count, count_files, parse-filename, discover-all,
}

abbrev platform : Platform
platform = record { table = versions_in_memory version_of; locks = lock_in_memory }

abbrev Db : Type 0
Db = List ℕ

-- A migration that notes its version, and one that raises.
abbrev good : ℕ → Migration Db
good v = record {
  version = v;
  name = text "m";
  description = text "d";
  checksum = text "c";
  up = λ db. (none, v ∷ db);
  down = λ db. (none, db);
}

abbrev bad : ℕ → Migration Db
bad v = record (good v) { up = λ db. (some (text "no"), db) }

abbrev stamp : ℕ → Stamp
stamp v = record { applied_at = v; execution_time_ms = 1 }

abbrev w0 : World platform Db
w0 = record { db = []; migrations = []; lock = none }

abbrev caller : Caller platform Db
caller = record { now = 10; timeout = 300; id = text "host-1" }

program : Unit {0}
unfolding migrate_up migrate_down acquire_lock release_lock get_pending_migrations
    get_applied_migrations insert_record fail_up run_up apply_all run_down undo_all by_version
    descending lookup_version update_first same_text keep upgraded overlay parse_filename
    discover_migrations
program = tt

abbrev up_call :
    List (Migration Db) → World platform Db → Outcome (List MigrationRecord) × World platform Db
up_call ms = migrate_up platform Db caller stamp (text "dup") ms none false

-- The second migration is never recorded once it has failed, though it runs again.
fail_runs :
    ((up_call (good 1 ∷ bad 2 ∷ good 3 ∷ []) w0).0 ≡ migration_failed 2 (text "no"))
    × ((up_call (good 1 ∷ good 2 ∷ good 3 ∷ []) (up_call (good 1 ∷ bad 2 ∷ good 3 ∷ []) w0).1).0
        ≡ duplicate_version 2)
    × ((up_call (good 1 ∷ good 2 ∷ good 3 ∷ []) (up_call (good 1 ∷ bad 2 ∷ good 3 ∷ []) w0).1).1.db
        ≡ 2 ∷ 1 ∷ [])
unfolding program
fail_runs = (refl, refl, refl)

filename_runs : parse_filename (text "001_initial_indexes.py") ≡ some (1, text "initial_indexes")
unfolding program
filename_runs = refl

abbrev old_record : MigrationRecord
old_record = record_of platform Db (stamp 2) rolled_back none (good 2)

abbrev w1 : World platform Db
w1 = record { db = 1 ∷ []; migrations = old_record ∷ []; lock = none }

Stale-forever_example :
    Stale platform Db 2
      (run platform Db
        (text "dup")
        (up caller stamp (good 2 ∷ []) none false ∷ down caller (good 2 ∷ []) (some 0) false ∷ [])
        w1).migrations
Stale-forever_example =
    Stale-forever platform Db (text "dup") 2
      (up caller stamp (good 2 ∷ []) none false ∷ down caller (good 2 ∷ []) (some 0) false ∷ []) w1
      (unfold Stale program in (old_record, refl, refl))

up-repeats_example :
    let (o, v) = up_call (good 2 ∷ []) w1 in
    (o ≡ duplicate_version 2) × (v.db ≡ 2 ∷ 1 ∷ []) × (v.migrations ≡ old_record ∷ [])
up-repeats_example =
    up-repeats platform Db stamp (text "dup") caller (good 2 ∷ []) none (good 2) [] old_record w1
      refl (unfold program in refl) refl (unfold program in refl)

abbrev three : List (Migration Db)
three = good 1 ∷ good 2 ∷ good 3 ∷ []

ready : Ready platform Db stamp (text "dup") (some 2) (good 1 ∷ good 2 ∷ []) w0 (2 ∷ 1 ∷ [])
unfolding program
ready = record {
  within = (refl, (refl, tt));
  new = (refl, (refl, tt));
  rising = omega arith;
  runs = refl;
}

up-completes_example :
    let v = migrate_up platform Db caller stamp (text "dup") three (some 2) false w0 in
    (v.0
      ≡ returned (map (applied_of platform Db stamp (text "dup") (some 2)) (good 1 ∷ good 2 ∷ [])))
    × (v.1.db ≡ 2 ∷ 1 ∷ [])
    × ((u : ℕ)
        → lookup_version version_of v.1.migrations u
          ≡ overlay platform Db stamp
              (text "dup")
              (some 2)
              (good 1 ∷ good 2 ∷ [])
              u
              (lookup_version version_of [] u))
    × (◌≡◌ {A = Option MigrationLock} v.1.lock none)
    × (get_pending_migrations platform Db three v.1 ≡ good 3 ∷ [])
up-completes_example =
    up-completes platform Db stamp (text "dup") (some 2) caller three w0 refl (good 1 ∷ good 2 ∷ [])
      (good 3 ∷ []) (2 ∷ 1 ∷ []) (unfold program in refl) (omega arith) ready refl

one-Ready : Ready platform Db stamp (text "dup") none (good 1 ∷ []) w0 (1 ∷ [])
unfolding program
one-Ready = record { within = (refl, tt); new = (refl, tt); rising = omega arith; runs = refl }

abbrev broken : List (Migration Db)
broken = good 1 ∷ bad 2 ∷ good 3 ∷ []

up-fails_example :
    let v = up_call broken w0 in
    (v.0 ≡ migration_failed 2 (text "no"))
    × (v.1.db ≡ 1 ∷ [])
    × ((u : ℕ)
        → lookup_version version_of v.1.migrations u ≡ (
            if 2 == u
            then some (record_of platform Db (stamp 2) failed (some (text "no")) (bad 2))
            else overlay platform Db stamp
                (text "dup")
                none
                (good 1 ∷ [])
                u
                (lookup_version version_of [] u)))
    × (◌≡◌ {A = Option MigrationLock} v.1.lock none)
up-fails_example =
    up-fails platform Db stamp (text "dup") none caller broken w0 refl (good 1 ∷ []) (good 3 ∷ [])
      (bad 2) (1 ∷ []) (text "no") (unfold program in refl) one-Ready (omega arith) refl
      (unfold program in refl) refl

abbrev w2 : World platform Db
w2 = record {
  db = 2 ∷ 1 ∷ [];
  migrations =
      record_of platform Db (stamp 2) applied none (good 2)
      ∷ record_of platform Db (stamp 1) applied none (good 1)
      ∷ [];
  lock = none;
}

down-bounded_example : Undone platform Db (some 1) (lookup_version version_of w2.migrations 2) 2 (
    lookup_version version_of
      (migrate_down platform Db caller three (some 1) false w2).1.migrations
      2)
down-bounded_example = down-bounded platform Db caller three (some 1) false w2 2

calls-Unlocked_example :
    Unlocked platform Db caller w2
      (migrate_up platform Db caller stamp (text "dup") broken none false w2)
    × Unlocked platform Db caller w2 (migrate_down platform Db caller broken none false w2)
calls-Unlocked_example = calls-Unlocked platform Db caller stamp (text "dup") broken none w2

parse-filename_example : parse_filename (text "001_m.py") ≡ some (number 0 (text "001"), text "m")
parse-filename_example = parse-filename b'0' (text "01") b'm' [] (omega arith) (refl, tt)

modules : ℕ → Text → Option (Migration Db)
modules v name = some (good v)

abbrev listing : List Text
listing = text "2_b.py" ∷ text "001_a.py" ∷ text "readme.md" ∷ []

discover-all_example :
    Ordered (discover_migrations modules (some listing))
    × ((q : Migration Db → Bool)
        → count q (discover_migrations modules (some listing)) ≡ count_files q modules listing)
    × (discover_migrations modules none ≡ [])
discover-all_example = discover-all modules listing
