-- ===== src/Migrations/Completes.antt =====
-- app/migrations/runner.py: `migrate_up` where every migration succeeds, and where one fails.
use application_workflow_ser.Base.{
  ℕ, ◌<◌, ◌≡◌, refl, ◌∙◌, ap, true, false, Option, none, some, List, [], ◌∷◌, ◌++◌, arith, ◌==◌,
  map, if◌then◌else◌, All,
}
use application_workflow_ser.Text.{Text}
use application_workflow_ser.Migrations.Data.{
  Migration, MigrationRecord, Outcome, returned, migration_failed, Stamp, Platform,
}
use application_workflow_ser.Migrations.{
  World, Caller, release_lock, acquire_lock, migrate_up, apply_all, beyond,
}
use application_workflow_ser.Migrations.Lock.{held, is_takable, Acquired, release-free}
use application_workflow_ser.Migrations.Loops.{
  up_fails, with_record, failed_record, apply_stop, apply_raise,
}
use application_workflow_ser.Migrations.Up.{up_locked}
use application_workflow_ser.Migrations.Chain.{
  loop, applied_of, doc_of, upgraded, overlay, Rising, installed, Smooth, apply_prefix,
  installed-db, installed-lock, installed-doc, Ready, Ready-Smooth,
}
use application_workflow_ser.Migrations.Pending.{pending, pending-after}

module _ (p : Platform) (Db : Type 0) (stamp : ℕ → Stamp) (duplicate : Text)
    (target : Option ℕ) where
  open p use {table}

  overlay_miss :
      (ms : List (Migration Db)) (v : ℕ) (o : Option MigrationRecord)
      → All (λ (n : Migration Db). n.version < v) ms
      → overlay p Db stamp duplicate target ms v o ≡ o
  unfolding overlay
  overlay_miss [] v o h = refl
  overlay_miss (m ∷ ms) v o h =
      ap (overlay p Db stamp duplicate target ms v) (ground (arith, h.0)) ∙ overlay_miss ms v o h.1

  -- The next migration is beyond the target, or there is none.
  abbrev pub Stops : List (Migration Db) → Type 0
  Stops [] = Unit
  Stops (m ∷ ms) = beyond p Db target m.version ≡ true

  loop-Stops :
      (rest : List (Migration Db)) (records : List MigrationRecord) (w : World p Db)
      → Stops rest
      → loop p Db stamp duplicate target rest records w ≡ (returned records, w)
  unfolding apply_all
  loop-Stops [] records w h = refl
  loop-Stops (m ∷ ms) records w h = apply_stop p Db stamp duplicate target m ms records w false h

  module _ (c : Caller p Db) (discovered : List (Migration Db)) (w : World p Db)
      (free : is_takable p Db c.now (held p Db w) ≡ true) where
    abbrev pub docs : World p Db → ℕ → Option MigrationRecord
    docs v = doc_of p Db stamp duplicate target v

    abbrev pub call : Outcome (List MigrationRecord) × World p Db
    call = migrate_up p Db c stamp duplicate discovered target false w

    abbrev at : World p Db
    at = (acquire_lock p Db c.now c.timeout c.id w).1

    taken : Acquired p Db c.now c.timeout c.id w at
    taken = (up_locked p Db stamp duplicate c discovered target w free).0

    at-Ready :
        (ms : List (Migration Db)) (db : Db)
        → Ready p Db stamp duplicate target ms w db
        → Ready p Db stamp duplicate target ms at db
    at-Ready ms db r = record {
      within = r.within;
      new = new_at ms r.new;
      rising = r.rising;
      runs = ap (upgraded ms) taken.db ∙ r.runs;
    }
      where
        new_at :
            (ns : List (Migration Db))
            → All (λ (m : Migration Db). docs w m.version ≡ none) ns
            → All (λ (m : Migration Db). docs at m.version ≡ none) ns
        new_at [] h = tt
        new_at (n ∷ ns) h =
            (ap (λ x. table.find_version x n.version) taken.migrations ∙ h.0, new_at ns h.1)

    module _ (done : List (Migration Db)) (db : Db)
        (r : Ready p Db stamp duplicate target done w db) where
      after : World p Db
      after = installed p Db stamp duplicate target done at

      smooth : Smooth p Db stamp duplicate target done at
      smooth = Ready-Smooth p Db stamp duplicate target done at db (at-Ready done db r)

      call-eq :
          (rest : List (Migration Db))
          → pending p Db stamp duplicate target discovered w ≡ done ++ rest
          → call ≡ (
              let (o, v) =
                loop p Db stamp duplicate target rest
                  (map (applied_of p Db stamp duplicate target) done)
                  after in
              (o, release_lock p Db c.id v))
      unfolding after
      call-eq rest e =
          (up_locked p Db stamp duplicate c discovered target w free).1
          ∙ ap
              (λ ms.
                let (o, v) = loop p Db stamp duplicate target ms [] at in
                (o, release_lock p Db c.id v))
              e
          ∙ ap (λ x. (x.0, release_lock p Db c.id x.1))
              (apply_prefix p Db stamp duplicate target done rest [] at smooth)

      after-db : after.db ≡ db
      unfolding after
      after-db = installed-db p Db stamp duplicate target done at db (at-Ready done db r).runs

      after-doc : (u : ℕ) → docs after u ≡ overlay p Db stamp duplicate target done u (docs w u)
      unfolding after
      after-doc u =
          installed-doc p Db stamp duplicate target done at u smooth
          ∙ ap (λ x. overlay p Db stamp duplicate target done u (table.find_version x u))
              taken.migrations

      -- The caller's lock goes when it is released.
      unlocked :
          (v : World p Db) → v.lock ≡ after.lock → held p Db (release_lock p Db c.id v) ≡ none
      unfolding after
      unlocked v h =
          release-free p Db c.id v _
            (ap p.locks.find_lock (h ∙ installed-lock p Db stamp duplicate target done at)
              ∙ taken.mine)
            refl

    -- Where the lock can be taken and the pending migrations are `done`, whose versions rise, stay
    -- within the target, have no document and run without an exception, followed by `rest`, which is
    -- empty or begins beyond the target: the call returns the records of `done`, the database is the
    -- one that their `up` make, each has its record and every other version keeps its own, the lock is
    -- free, and exactly `rest` is pending.
    pub up-completes :
        (done rest : List (Migration Db)) (db : Db)
        → pending p Db stamp duplicate target discovered w ≡ done ++ rest
        → Rising (done ++ rest)
        → Ready p Db stamp duplicate target done w db
        → Stops rest
        → (call.0 ≡ returned (map (applied_of p Db stamp duplicate target) done))
          × (call.1.db ≡ db)
          × ((u : ℕ) → docs call.1 u ≡ overlay p Db stamp duplicate target done u (docs w u))
          × (held p Db call.1 ≡ none)
          × (pending p Db stamp duplicate target discovered call.1 ≡ rest)
    unfolding release_lock
    up-completes done rest db e rising r stops =
        let all =
          call-eq done db r rest e
          ∙ ap (λ x. (x.0, release_lock p Db c.id x.1))
              (loop-Stops rest _ (after done db r) stops) in
        let docs_after = after-doc done db r in
        (
          ap (λ x. x.0) all,
          ap (λ x. x.1.db) all ∙ after-db done db r,
          λ u. ap (λ x. docs x.1 u) all ∙ docs_after u,
          ap (λ x. held p Db x.1) all ∙ unlocked done db r (after done db r) refl,
          ap (λ x. pending p Db stamp duplicate target discovered x.1) all
              ∙ pending-after p Db stamp duplicate target discovered done rest w
                  (release_lock p Db c.id (after done db r)) e rising docs_after,
        )

    -- Where the migrations `done` run as before, and the next one has no document, is within the target
    -- and raises: the call raises `MigrationError`, the database is the one that it leaves, its record
    -- says failed, the migrations before it have their records, every other version keeps its own, and
    -- the lock is free.
    pub up-fails :
        (done later : List (Migration Db)) (m : Migration Db) (db : Db) (e : Text)
        → pending p Db stamp duplicate target discovered w ≡ done ++ m ∷ later
        → Ready p Db stamp duplicate target done w db
        → All (λ (n : Migration Db). n.version < m.version) done
        → beyond p Db target m.version ≡ false
        → docs w m.version ≡ none
        → (m.up db).0 ≡ some e
        → (call.0 ≡ migration_failed m.version e)
          × (call.1.db ≡ (m.up db).1)
          × ((u : ℕ)
              → docs call.1 u ≡ (
                  if m.version == u
                  then some (failed_record p Db stamp duplicate e m)
                  else overlay p Db stamp duplicate target done u (docs w u)))
          × (held p Db call.1 ≡ none)
    unfolding release_lock
    up-fails done later m db e h r below near new bad =
        let v = after done db r in
        let up_db = ap m.up (after-db done db r) in
        let new_there =
          after-doc done db r m.version
          ∙ overlay_miss done m.version (docs w m.version) below
          ∙ new in
        let round = up_fails p Db stamp duplicate m v e new_there (ap (λ x. x.0) up_db ∙ bad) in
        let raises =
          apply_raise p Db stamp duplicate target m later _ v (migration_failed m.version e) near
            (ap (λ x. x.0) round)
          ∙ ap (λ x. (migration_failed m.version e, x.1)) round in
        let all =
          call-eq done db r (m ∷ later) h ∙ ap (λ x. (x.0, release_lock p Db c.id x.1)) raises in
        (
          ap (λ x. x.0) all,
          ap (λ x. x.1.db) all ∙ ap (λ x. x.1) up_db,
          λ u.
              ap (λ x. docs x.1 u) all
              ∙ table.find-insert v.migrations (failed_record p Db stamp duplicate e m) u new_there
              ∙ ap
                  (λ x. if m.version == u then some (failed_record p Db stamp duplicate e m) else x)
                  (after-doc done db r u),
          ap (λ x. held p Db x.1) all
              ∙ unlocked done db r
                  (with_record p Db stamp duplicate m (failed_record p Db stamp duplicate e m) v)
                  refl,
        )
