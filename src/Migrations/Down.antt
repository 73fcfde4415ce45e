-- ===== src/Migrations/Down.antt =====
-- app/migrations/runner.py: what `migrate_down` may change, and the lock after either call.
use application_workflow_ser.Base.{
  ℕ, ◌≡◌, ◌⊎◌, inl, inr, refl, ◌∙◌, ap, Bool, false, Option, none, some, List, [], arith, ◌==◌,
  Bool-cases, Option-cases,
}
use application_workflow_ser.Mongo.{changed}
use application_workflow_ser.Migrations.Data.{Migration, MigrationRecord, Platform}
use application_workflow_ser.Migrations.{
  World, run_down, undo_all, Caller, migrate_down, get_applied_migrations, roll_back, reached,
  descending,
}
use application_workflow_ser.Migrations.Undo.{undo_all-keeps}
use application_workflow_ser.Migrations.Stale.{under_lock-keeps}

module _ (p : Platform) (Db : Type 0) where
  open p use {table, locks}

  -- A version's document is as before, or above the target and marked as rolled back.
  abbrev pub Undone : Option ℕ → Option MigrationRecord → ℕ → Option MigrationRecord → Type 0
  Undone target before v now =
      (now ≡ before) ⊎ ((reached p Db target v ≡ false) × (now ≡ changed (roll_back p Db) before))

  abbrev AllUndone : Option ℕ → table.Store → table.Store → Type 0
  AllUndone target s t = (v : ℕ) → Undone target (table.find_version s v) v (table.find_version t v)

  marked :
      (target : Option ℕ) (v : ℕ) (before now : Option MigrationRecord)
      → Undone target before v now
      → changed (roll_back p Db) now ≡ changed (roll_back p Db) before
  marked target v before now (inl same) = ap (changed (roll_back p Db)) same
  marked target v none now (inr (above, e)) = ap (changed (roll_back p Db)) e
  marked target v (some r) now (inr (above, e)) = ap (changed (roll_back p Db)) e

  round-Undone :
      (target : Option ℕ) (s : table.Store) (m : Migration Db) (r : MigrationRecord)
      (w : World p Db)
      → reached p Db target r.version ≡ false
      → m.version ≡ r.version
      → AllUndone target s w.migrations
      → AllUndone target s (run_down p Db m r w).1.migrations
  unfolding run_down
  round-Undone target s m r w above same h v = elim (Option-cases (m.down w.db).0) [
    | inr (e, bad) ↦ rw bad (h v)
    | inl good ↦ rw good (elim (Bool-cases (m.version == v)) [
      | inr other ↦
          rw (table.find-update w.migrations m.version v (roll_back p Db) (λ d. refl))
            (rw other (h v))
      | inl here ↦ inr (
        ground (arith, above, same, here),
        table.find-update w.migrations m.version v (roll_back p Db) (λ d. refl)
            ∙ rw here (marked target v (table.find_version s v) _ (h v)),
      )
    ])
  ]

  -- Whatever `down` raises and wherever the call stops: a record of `migrate_down` is as before, or its
  -- version is above the target and it is marked as rolled back. So no version is lost, and none at
  -- or below the target is touched.
  pub down-bounded :
      (c : Caller p Db) (discovered : List (Migration Db)) (target : Option ℕ) (dry : Bool)
      (w : World p Db) (v : ℕ)
      → Undone target
          (table.find_version w.migrations v)
          v
          (table.find_version (migrate_down p Db c discovered target dry w).1.migrations v)
  unfolding migrate_down
  down-bounded c discovered target dry w =
      under_lock-keeps p Db (AllUndone target w.migrations) c dry
        (λ x. undo_all p Db discovered target dry (descending (get_applied_migrations p Db x)) [] x)
        (λ x h.
          undo_all-keeps p Db discovered target (λ y. AllUndone target w.migrations y.migrations)
            (λ m r y above same k. round-Undone target w.migrations m r y above same k) dry
            (descending (get_applied_migrations p Db x)) [] x h)
        w (λ v. inl refl)
