-- ===== src/Migrations/Up.antt =====
-- app/migrations/runner.py: what `migrate_up` does to the database and to the records.
use application_workflow_ser.Base.{ℕ, ◌≡◌, refl, ◌∙◌, ap, true, false, Option, some, List, [], ◌∷◌}
use application_workflow_ser.Text.{Text}
use application_workflow_ser.Migrations.Data.{
  Migration, MigrationRecord, Outcome, duplicate_version, Stamp, Platform,
}
use application_workflow_ser.Migrations.{
  World, apply_all, Caller, released, release_lock, acquire_lock, migrate_up,
  get_pending_migrations, get_applied_migrations, beyond,
}
use application_workflow_ser.Migrations.Lock.{
  held, is_takable, acquire-Acquired, under_taken, Acquired,
}
use application_workflow_ser.Migrations.Loops.{doc, up_taken, apply_raise}

module _ (p : Platform) (Db : Type 0) where
  open p use {table, locks}

  pending-eq :
      (discovered : List (Migration Db)) (w v : World p Db)
      → v.migrations ≡ w.migrations
      → get_pending_migrations p Db discovered v ≡ get_pending_migrations p Db discovered w
  unfolding get_pending_migrations get_applied_migrations
  pending-eq discovered w v h = rw h refl

  module _ (stamp : ℕ → Stamp) (duplicate : Text) (c : Caller p Db)
      (discovered : List (Migration Db)) (target : Option ℕ) where
    abbrev the_doc : World p Db → ℕ → Option MigrationRecord
    the_doc = doc p Db stamp duplicate

    abbrev loop :
        List (Migration Db)
        → List MigrationRecord
        → World p Db
        → Outcome (List MigrationRecord) × World p Db
    loop = apply_all p Db stamp duplicate target false

    pub up_locked :
        (w : World p Db)
        → is_takable p Db c.now (held p Db w) ≡ true
        → let at = (acquire_lock p Db c.now c.timeout c.id w).1 in
          Acquired p Db c.now c.timeout c.id w at
          × (migrate_up p Db c stamp duplicate discovered target false w
              ≡ released p Db c.id (loop (get_pending_migrations p Db discovered w) [] at))
    unfolding migrate_up
    up_locked w free =
        let at = (acquire_lock p Db c.now c.timeout c.id w).1 in
        let a = (acquire-Acquired p Db c.now c.timeout c.id w free).1 in
        (
          a,
          under_taken p Db c.now c.timeout c.id
                (λ x. loop (get_pending_migrations p Db discovered x) [] x) w free
              ∙ ap (λ ms. released p Db c.id (loop ms [] at))
                  (pending-eq discovered w at a.migrations),
        )

    -- A call that is no dry run, finds the lock free or expired and has a first pending migration that is
    -- not beyond the target and whose version has a document: `up` of that migration runs on the
    -- database, the call raises `DuplicateKeyError`, and the records stay as they are.
    pub up-repeats :
        (m : Migration Db) (ms : List (Migration Db)) (old : MigrationRecord) (w : World p Db)
        → is_takable p Db c.now (held p Db w) ≡ true
        → get_pending_migrations p Db discovered w ≡ m ∷ ms
        → beyond p Db target m.version ≡ false
        → table.find_version w.migrations m.version ≡ some old
        → let (o, v) = migrate_up p Db c stamp duplicate discovered target false w in
          (o ≡ duplicate_version m.version) × (v.db ≡ (m.up w.db).1) × (v.migrations ≡ w.migrations)
    up-repeats m ms old w free first near stale =
        let (a, e) = up_locked w free in
        let at = (acquire_lock p Db c.now c.timeout c.id w).1 in
        let taken =
          up_taken p Db stamp duplicate m at old
            (ap (λ x. table.find_version x m.version) a.migrations ∙ stale) in
        rw e (
          rw first (
            rw
              (apply_raise p Db stamp duplicate target m ms [] at (duplicate_version m.version) near
                (ap (λ x. x.0) taken))
              (rw taken (unfold release_lock in (refl, ap (λ x. (m.up x).1) a.db, a.migrations)))))
