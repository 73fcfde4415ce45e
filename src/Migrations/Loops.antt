-- ===== src/Migrations/Loops.antt =====
-- app/migrations/runner.py: one round of `migrate_up` by its cases, and what the rounds keep the loops
-- keep.
use application_workflow_ser.Base.{
  ◌⊎◌, ℕ, ◌≡◌, inl, inr, refl, Bool, true, false, Option, none, some, List, [], ◌∷◌, ◌++◌,
  Bool-cases, Option-cases,
}
use application_workflow_ser.Text.{Text}
use application_workflow_ser.Migrations.Data.{
  applied, failed, Migration, MigrationRecord, Outcome, returned, migration_failed,
  duplicate_version, Stamp, Platform,
}
use application_workflow_ser.Migrations.{
  World, Round, recorded, raised, run_up, insert_record, apply_all, record_of, beyond,
}

module _ (p : Platform) (Db : Type 0) (stamp : ℕ → Stamp) (duplicate : Text) where
  open p use {table}

  -- The document of a version.
  abbrev pub doc : World p Db → ℕ → Option MigrationRecord
  doc w v = table.find_version w.migrations v

  abbrev pub applied_record : Migration Db → MigrationRecord
  applied_record m = record_of p Db (stamp m.version) applied none m

  abbrev pub failed_record : Text → Migration Db → MigrationRecord
  failed_record e m = record_of p Db (stamp m.version) failed (some e) m

  -- The world after `up` and the insertion of a record.
  abbrev pub with_record : Migration Db → MigrationRecord → World p Db → World p Db
  with_record m r w = record w { db = (m.up w.db).1; migrations = table.insert_one w.migrations r }

  insert_new :
      (r : MigrationRecord) (w : World p Db)
      → doc w r.version ≡ none
      → insert_record p Db r w ≡ some (record w { migrations = table.insert_one w.migrations r })
  unfolding insert_record
  insert_new r w new = rw (new, insert_record) refl

  insert_taken :
      (r old : MigrationRecord) (w : World p Db)
      → doc w r.version ≡ some old
      → insert_record p Db r w ≡ none
  unfolding insert_record
  insert_taken r old w taken = rw (taken, insert_record) refl

  pub up_succeeds :
      (m : Migration Db) (w : World p Db)
      → doc w m.version ≡ none
      → (m.up w.db).0 ≡ none
      → run_up p Db stamp duplicate m w
        ≡ (recorded (applied_record m), with_record m (applied_record m) w)
  unfolding run_up
  up_succeeds m w new good =
      rw good (rw (insert_new (applied_record m) (record w { db = (m.up w.db).1 }) new) refl)

  pub up_fails :
      (m : Migration Db) (w : World p Db) (e : Text)
      → doc w m.version ≡ none
      → (m.up w.db).0 ≡ some e
      → run_up p Db stamp duplicate m w
        ≡ (raised (migration_failed m.version e), with_record m (failed_record e m) w)
  unfolding run_up
  up_fails m w e new bad =
      rw bad (rw (insert_new (failed_record e m) (record w { db = (m.up w.db).1 }) new) refl)

  pub up_taken :
      (m : Migration Db) (w : World p Db) (old : MigrationRecord)
      → doc w m.version ≡ some old
      → run_up p Db stamp duplicate m w
        ≡ (raised (duplicate_version m.version), record w { db = (m.up w.db).1 })
  unfolding run_up
  up_taken m w old taken = elim (Option-cases (m.up w.db).0) [
    | inl good ↦ rw good (
        rw (insert_taken (applied_record m) old (record w { db = (m.up w.db).1 }) taken) (
          rw (insert_taken (failed_record duplicate m) old (record w { db = (m.up w.db).1 }) taken)
            refl))
    | inr (e, bad) ↦
        rw bad
          (rw (insert_taken (failed_record e m) old (record w { db = (m.up w.db).1 }) taken) refl)
  ]

  module _ (target : Option ℕ) (m : Migration Db) (ms : List (Migration Db))
      (records : List MigrationRecord) (w : World p Db) where
    abbrev apply :
        Bool
        → List (Migration Db)
        → List MigrationRecord
        → World p Db
        → Outcome (List MigrationRecord) × World p Db
    apply dry = apply_all p Db stamp duplicate target dry

    pub apply_stop :
        (dry : Bool)
        → beyond p Db target m.version ≡ true
        → apply dry (m ∷ ms) records w ≡ (returned records, w)
    unfolding apply_all
    apply_stop dry h = rw (h, apply_all) refl

    pub apply_dry :
        beyond p Db target m.version ≡ false
        → apply true (m ∷ ms) records w ≡ apply true ms records w
    unfolding apply_all
    apply_dry h = rw (h, apply_all) refl

    pub apply_next :
        (r : MigrationRecord)
        → beyond p Db target m.version ≡ false
        → (run_up p Db stamp duplicate m w).0 ≡ recorded r
        → apply false (m ∷ ms) records w
          ≡ apply false ms (records ++ r ∷ []) (run_up p Db stamp duplicate m w).1
    unfolding apply_all
    apply_next r h e = rw (h, apply_all) (rw (e, apply_all) refl)

    pub apply_raise :
        (o : Outcome (List MigrationRecord))
        → beyond p Db target m.version ≡ false
        → (run_up p Db stamp duplicate m w).0 ≡ raised o
        → apply false (m ∷ ms) records w ≡ (o, (run_up p Db stamp duplicate m w).1)
    unfolding apply_all
    apply_raise o h e = rw (h, apply_all) (rw (e, apply_all) refl)

  pub Round-cases :
      (x : Round p Db)
      → ((r : MigrationRecord) × (x ≡ recorded r))
        ⊎ ((o : Outcome (List MigrationRecord)) × (x ≡ raised o))
  Round-cases (recorded r) = inl (r, refl)
  Round-cases (raised o) = inr (o, refl)

  pub apply_all-keeps :
      (P : World p Db → Type 0)
      → ((m : Migration Db) (w : World p Db) → P w → P (run_up p Db stamp duplicate m w).1)
      → (target : Option ℕ) (dry : Bool) (ms : List (Migration Db)) (records : List MigrationRecord)
        (w : World p Db)
      → P w
      → P (apply_all p Db stamp duplicate target dry ms records w).1
  apply_all-keeps P k target dry [] records w h = unfold apply_all in h
  apply_all-keeps P k target dry (m ∷ ms) records w h =
      elim (Bool-cases (beyond p Db target m.version)) [
        | inl stop ↦ rw (apply_stop target m ms records w dry stop) h
        | inr go ↦ elim (Bool-cases dry) [
          | inl yes' ↦ rw yes' (
              rw (apply_dry target m ms records w go)
                (apply_all-keeps P k target true ms records w h))
          | inr no' ↦ elim (Round-cases (run_up p Db stamp duplicate m w).0) [
            | inl (r, e) ↦ rw no' (
                rw (apply_next target m ms records w r go e) (
                  apply_all-keeps P k target false ms (records ++ r ∷ [])
                    (run_up p Db stamp duplicate m w).1 (k m w h)))
            | inr (o, e) ↦ rw no' (rw (apply_raise target m ms records w o go e) (k m w h))
          ]
        ]
      ]
