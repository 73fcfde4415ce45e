-- ===== src/Migrations/Unlocks.antt =====
-- app/migrations/runner.py: the lock after a call of the runner.
use application_workflow_ser.Base.{
  ℕ, ◌≡◌, ◌⊎◌, inl, inr, refl, ◌∙◌, ap, true, false, Option, none, List, [], Bool-cases,
  Option-cases,
}
use application_workflow_ser.Text.{Text}
use application_workflow_ser.Migrations.Data.{
  Migration, MigrationRecord, Outcome, locked, Stamp, Platform,
}
use application_workflow_ser.Migrations.{
  World, run_up, run_down, apply_all, undo_all, Caller, under_lock, acquire_lock, migrate_up,
  migrate_down, get_pending_migrations, get_applied_migrations,
}
use application_workflow_ser.Migrations.Data.{descending}
use application_workflow_ser.Migrations.Lock.{
  held, is_takable, acquire-Acquired, under_taken, under_busy, release-free,
}
use application_workflow_ser.Migrations.Loops.{
  doc, up_taken, up_succeeds, up_fails, apply_all-keeps,
}
use application_workflow_ser.Migrations.Undo.{undo_all-keeps}

module _ (p : Platform) (Db : Type 0) where
  open p use {table, locks}

  run_up-lock :
      (stamp : ℕ → Stamp) (duplicate : Text) (m : Migration Db) (w : World p Db)
      → (run_up p Db stamp duplicate m w).1.lock ≡ w.lock
  run_up-lock stamp duplicate m w = elim (Option-cases (doc p Db stamp duplicate w m.version)) [
    | inr (old, taken) ↦ ap (λ x. x.1.lock) (up_taken p Db stamp duplicate m w old taken)
    | inl new ↦ elim (Option-cases (m.up w.db).0) [
      | inl good ↦ ap (λ x. x.1.lock) (up_succeeds p Db stamp duplicate m w new good)
      | inr (e, bad) ↦ ap (λ x. x.1.lock) (up_fails p Db stamp duplicate m w e new bad)
    ]
  ]

  run_down-lock :
      (m : Migration Db) (r : MigrationRecord) (w : World p Db)
      → (run_down p Db m r w).1.lock ≡ w.lock
  unfolding run_down
  run_down-lock m r w = elim (Option-cases (m.down w.db).0) [
    | inl good ↦ rw good refl
    | inr (e, bad) ↦ rw bad refl
  ]

  -- A call that got the lock leaves none; one that did not changes nothing.
  abbrev pub Unlocked :
      Caller p Db → World p Db → Outcome (List MigrationRecord) × World p Db → Type 0
  Unlocked c w (o, v) =
      ((is_takable p Db c.now (held p Db w) ≡ true) × (held p Db v ≡ none))
      ⊎ ((is_takable p Db c.now (held p Db w) ≡ false) × (o ≡ locked) × (v ≡ w))

  under_lock-Unlocked :
      (c : Caller p Db) (body : World p Db → Outcome (List MigrationRecord) × World p Db)
      (w : World p Db)
      → ((x : World p Db) → (body x).1.lock ≡ x.lock)
      → Unlocked c w (under_lock p Db c.now c.timeout c.id false body w)
  under_lock-Unlocked c body w k = elim (Bool-cases (is_takable p Db c.now (held p Db w))) [
    | inr busy ↦ inr (
      busy,
      ap (λ x. x.0) (under_busy p Db c.now c.timeout c.id body w busy),
      ap (λ x. x.1) (under_busy p Db c.now c.timeout c.id body w busy),
    )
    | inl free ↦
        let at = (acquire_lock p Db c.now c.timeout c.id w).1 in
        let a = (acquire-Acquired p Db c.now c.timeout c.id w free).1 in
        inl (
          free,
          ap (λ x. held p Db x.1) (under_taken p Db c.now c.timeout c.id body w free)
              ∙ release-free p Db c.id (body at).1 _ (ap locks.find_lock (k at) ∙ a.mine) refl,
        )
  ]

  -- Whatever `up` and `down` raise, after `migrate_up` and after `migrate_down` no lock is held; unless
  -- there is a lock that has not expired: then the call raises `MigrationLockError`, and the
  -- database, the records and the lock stay as they are.
  pub calls-Unlocked :
      (c : Caller p Db) (stamp : ℕ → Stamp) (duplicate : Text) (discovered : List (Migration Db))
      (target : Option ℕ) (w : World p Db)
      → Unlocked c w (migrate_up p Db c stamp duplicate discovered target false w)
        × Unlocked c w (migrate_down p Db c discovered target false w)
  unfolding migrate_up migrate_down
  calls-Unlocked c stamp duplicate discovered target w = (
    under_lock-Unlocked c
        (λ x.
          apply_all p Db stamp duplicate target false (get_pending_migrations p Db discovered x) []
            x)
        w
        (λ x.
          apply_all-keeps p Db stamp duplicate (λ y. y.lock ≡ x.lock)
            (λ m y h. run_up-lock stamp duplicate m y ∙ h) target false
            (get_pending_migrations p Db discovered x) [] x refl),
    under_lock-Unlocked c
        (λ x.
          undo_all p Db discovered target false (descending (get_applied_migrations p Db x)) [] x)
        w
        (λ x.
          undo_all-keeps p Db discovered target (λ y. y.lock ≡ x.lock)
            (λ m r y _ _ h. run_down-lock m r y ∙ h) false
            (descending (get_applied_migrations p Db x)) [] x refl),
  )
