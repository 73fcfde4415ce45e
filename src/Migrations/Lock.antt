-- ===== src/Migrations/Lock.antt =====
-- app/migrations/runner.py: the lock around `migrate_up` and `migrate_down`.
use application_workflow_ser.Base.{
  ℕ, ◌+◌, ◌≡◌, inl, inr, refl, ap, Bool, true, false, Option, none, some, List, ltb, arith,
  if◌then◌else◌, Option-cases,
}
use application_workflow_ser.Text.{Text, same_text_refl}
use application_workflow_ser.Migrations.Data.{
  MigrationRecord, MigrationLock, Outcome, locked, Platform,
}
use application_workflow_ser.Migrations.{World, released, under_lock, acquire_lock, release_lock}

module _ (p : Platform) (Db : Type 0) where
  open p use {table, locks}

  abbrev pub held : World p Db → Option MigrationLock
  held w = locks.find_lock w.lock

  abbrev new_lock : ℕ → ℕ → Text → MigrationLock
  new_lock now timeout id = record { locked_at = now; locked_by = id; expires_at = now + timeout }

  acquire_free :
      (now timeout : ℕ) (id : Text) (w : World p Db)
      → held w ≡ none
      → acquire_lock p Db now timeout id w
        ≡ (true, record w { lock = locks.insert_lock w.lock (new_lock now timeout id) })
  unfolding acquire_lock
  acquire_free now timeout id w h = rw (h, acquire_lock) refl

  acquire_old :
      (now timeout : ℕ) (id : Text) (w : World p Db) (old : MigrationLock)
      → held w ≡ some old
      → acquire_lock p Db now timeout id w ≡ (
          if ltb old.expires_at now
          then (
            true,
            record w { lock = locks.replace_expired w.lock now (new_lock now timeout id) },
          )
          else (false, w))
  unfolding acquire_lock
  acquire_old now timeout id w old h = rw (h, acquire_lock) refl

  -- The lock is the caller's, and nothing else has changed.
  pub record Acquired (now timeout : ℕ) (id : Text) (w v : World p Db) : Type 0 where
    pub mine : held v ≡ some (new_lock now timeout id)
    pub db : v.db ≡ w.db
    pub migrations : v.migrations ≡ w.migrations

  -- The lock may be taken: there is none, or an expired one.
  abbrev pub is_takable : ℕ → Option MigrationLock → Bool
  is_takable now none = true
  is_takable now (some old) = ltb old.expires_at now

  pub acquire-Acquired :
      (now timeout : ℕ) (id : Text) (w : World p Db)
      → is_takable now (held w) ≡ true
      → ((acquire_lock p Db now timeout id w).0 ≡ true)
        × Acquired now timeout id w (acquire_lock p Db now timeout id w).1
  acquire-Acquired now timeout id w t = elim (Option-cases (held w)) [
    | inl free ↦
        rw (acquire_free now timeout id w free)
          (refl, record { mine = locks.find-insert w.lock _ free; db = refl; migrations = refl })
    | inr (old, there) ↦
        let late : ltb old.expires_at now ≡ true = rw there at t in
        rw (acquire_old now timeout id w old there) (
          rw late (
            refl,
            record {
              mine =
                  rw (locks.find-replace w.lock now (new_lock now timeout id))
                    (rw there (rw late refl));
              db = refl;
              migrations = refl;
            },
          ))
  ]

  pub acquire_busy :
      (now timeout : ℕ) (id : Text) (w : World p Db)
      → is_takable now (held w) ≡ false
      → acquire_lock p Db now timeout id w ≡ (false, w)
  acquire_busy now timeout id w t = elim (Option-cases (held w)) [
    | inl free ↦ ground (arith, free, t)
    | inr (old, there) ↦
        let live : ltb old.expires_at now ≡ false = rw there at t in
        rw (acquire_old now timeout id w old there) (rw live refl)
  ]

  pub release-free :
      (id : Text) (w : World p Db) (l : MigrationLock)
      → held w ≡ some l
      → l.locked_by ≡ id
      → held (release_lock p Db id w) ≡ none
  unfolding release_lock
  release-free id w l h e =
      rw (locks.find-delete w.lock id) (rw h (rw e (rw (same_text_refl id) refl)))

  module _ (now timeout : ℕ) (id : Text)
      (body : World p Db → Outcome (List MigrationRecord) × World p Db) (w : World p Db) where
    pub under_taken :
        is_takable now (held w) ≡ true
        → under_lock p Db now timeout id false body w
          ≡ released p Db id (body (acquire_lock p Db now timeout id w).1)
    under_taken t = rw ((acquire-Acquired now timeout id w t).0, under_lock) refl

    pub under_busy :
        is_takable now (held w) ≡ false → under_lock p Db now timeout id false body w ≡ (locked, w)
    under_busy t =
        rw (ap (λ x. x.0) (acquire_busy now timeout id w t), under_lock)
          (ap (λ x. (locked, x.1)) (acquire_busy now timeout id w t))
