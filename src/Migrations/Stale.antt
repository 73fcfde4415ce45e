-- ===== src/Migrations/Stale.antt =====
-- app/migrations/runner.py: a version whose document says failed or rolled back.
use application_workflow_ser.Base.{
  ℕ, ◌≡◌, inl, inr, refl, Bool, true, false, Option, some, List, [], ◌∷◌, arith, ◌==◌,
  if◌then◌else◌, Bool-cases, Option-cases,
}
use application_workflow_ser.Text.{Text}
use application_workflow_ser.Migrations.Data.{
  Migration, MigrationRecord, MigrationStatus, failed, rolled_back, Outcome, Stamp, Platform,
}
use application_workflow_ser.Migrations.{
  World, run_up, run_down, Caller, under_lock, release_lock, acquire_lock, migrate_up, migrate_down,
  get_pending_migrations, roll_back,
}
use application_workflow_ser.Migrations.Lock.{
  held, is_takable, acquire-Acquired, under_taken, under_busy,
}
use application_workflow_ser.Migrations.Loops.{
  doc, up_taken, up_succeeds, up_fails, apply_all-keeps, applied_record, failed_record,
}
use application_workflow_ser.Migrations.Undo.{undo_all-keeps}

abbrev pub is_stale : MigrationStatus → Bool
is_stale failed = true
is_stale rolled_back = true
is_stale _ = false

module _ (p : Platform) (Db : Type 0) where
  open p use {table, locks}

  -- Calls of the runner, each with what it is given.
  pub data Call : Type 0 where
    up : Caller p Db → (ℕ → Stamp) → List (Migration Db) → Option ℕ → Bool → Call
    down : Caller p Db → List (Migration Db) → Option ℕ → Bool → Call

  unfoldable pub run : Text → List Call → World p Db → World p Db
  run duplicate [] w = w
  run duplicate (up c stamp discovered target dry ∷ ks) w =
      run duplicate ks (migrate_up p Db c stamp duplicate discovered target dry w).1
  run duplicate (down c discovered target dry ∷ ks) w =
      run duplicate ks (migrate_down p Db c discovered target dry w).1

  -- A condition on the collection alone that the body keeps, the call keeps.
  pub under_lock-keeps :
      (P : table.Store → Type 0) (c : Caller p Db) (dry : Bool)
      (body : World p Db → Outcome (List MigrationRecord) × World p Db)
      → ((w : World p Db) → P w.migrations → P (body w).1.migrations)
      → (w : World p Db) → P w.migrations
      → P (under_lock p Db c.now c.timeout c.id dry body w).1.migrations
  under_lock-keeps P c true body k w h = k w h
  under_lock-keeps P c false body k w h = elim (Bool-cases (is_takable p Db c.now (held p Db w))) [
    | inl free ↦
        let (got, a) = acquire-Acquired p Db c.now c.timeout c.id w free in
        rw (under_taken p Db c.now c.timeout c.id body w free) (
          unfold release_lock in k (acquire_lock p Db c.now c.timeout c.id w).1 (rw a.migrations h))
    | inr busy ↦ rw (under_busy p Db c.now c.timeout c.id body w busy) h
  ]

  -- The version has a document, which says failed or rolled back.
  unfoldable pub Stale : ℕ → table.Store → Type 0
  Stale v s = (r : MigrationRecord) × (table.find_version s v ≡ some r) × (is_stale r.status ≡ true)

  run_up-Stale :
      (stamp : ℕ → Stamp) (duplicate : Text) (v : ℕ) (m : Migration Db) (w : World p Db)
      → Stale v w.migrations
      → Stale v (run_up p Db stamp duplicate m w).1.migrations
  unfolding Stale
  run_up-Stale stamp duplicate v m w (r, there, unfit) =
      elim (Option-cases (doc p Db stamp duplicate w m.version)) [
        | inr (old, taken) ↦ rw (up_taken p Db stamp duplicate m w old taken) (r, there, unfit)
        | inl new ↦ elim (Option-cases (m.up w.db).0) [
          | inl good ↦ rw (up_succeeds p Db stamp duplicate m w new good) (
            r,
            ground (
              arith,
              table.find-insert w.migrations (applied_record p Db stamp duplicate m) v new,
              there,
              new,
            ),
            unfit,
          )
          | inr (e, bad) ↦ rw (up_fails p Db stamp duplicate m w e new bad) (
            r,
            ground (
              arith,
              table.find-insert w.migrations (failed_record p Db stamp duplicate e m) v new,
              there,
              new,
            ),
            unfit,
          )
        ]
      ]

  run_down-Stale :
      (v : ℕ) (m : Migration Db) (r : MigrationRecord) (w : World p Db)
      → Stale v w.migrations
      → Stale v (run_down p Db m r w).1.migrations
  unfolding Stale run_down
  run_down-Stale v m r w (old, there, unfit) = elim (Option-cases (m.down w.db).0) [
    | inr (e, bad) ↦ rw bad (old, there, unfit)
    | inl good ↦ rw good (
      (if m.version == v then roll_back p Db old else old),
      ground
          (arith, table.find-update w.migrations m.version v (roll_back p Db) (λ d. refl), there),
      ground (arith, unfit),
    )
  ]

  up-Stale :
      (c : Caller p Db) (stamp : ℕ → Stamp) (duplicate : Text) (discovered : List (Migration Db))
      (target : Option ℕ) (dry : Bool) (v : ℕ) (w : World p Db)
      → Stale v w.migrations
      → Stale v (migrate_up p Db c stamp duplicate discovered target dry w).1.migrations
  unfolding migrate_up
  up-Stale c stamp duplicate discovered target dry v w h =
      under_lock-keeps (Stale v) c dry _
        (λ u i.
          apply_all-keeps p Db stamp duplicate (λ x. Stale v x.migrations)
            (λ m x j. run_up-Stale stamp duplicate v m x j) target dry
            (get_pending_migrations p Db discovered u) [] u i)
        w h

  down-Stale :
      (c : Caller p Db) (discovered : List (Migration Db)) (target : Option ℕ) (dry : Bool) (v : ℕ)
      (w : World p Db)
      → Stale v w.migrations
      → Stale v (migrate_down p Db c discovered target dry w).1.migrations
  unfolding migrate_down
  down-Stale c discovered target dry v w h =
      under_lock-keeps (Stale v) c dry _
        (λ u i.
          undo_all-keeps p Db discovered target (λ x. Stale v x.migrations)
            (λ m r x _ _ j. run_down-Stale v m r x j) dry _ [] u i)
        w h

  -- Where the document of a version says failed or rolled back, then whatever calls of the runner
  -- follow, in whatever order and with whatever outcome, the version still has a document, and that
  -- says failed or rolled back. None of them records the version as applied.
  pub Stale-forever :
      (duplicate : Text) (v : ℕ) (ks : List Call) (w : World p Db)
      → Stale v w.migrations
      → Stale v (run duplicate ks w).migrations
  unfolding run
  Stale-forever duplicate v [] w h = h
  Stale-forever duplicate v (up c stamp discovered target dry ∷ ks) w h =
      Stale-forever duplicate v ks _ (up-Stale c stamp duplicate discovered target dry v w h)
  Stale-forever duplicate v (down c discovered target dry ∷ ks) w h =
      Stale-forever duplicate v ks _ (down-Stale c discovered target dry v w h)
