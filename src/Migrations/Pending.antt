-- ===== src/Migrations/Pending.antt =====
-- app/migrations/runner.py: what is pending once some migrations are applied.
use application_workflow_ser.Base.{
  inl, inr, ℕ, ◌<◌, ◌≡◌, refl, sym, fun_ext, ◌∙◌, ap, Bool, false, not, ◌||◌, Option, List, [], ◌∷◌,
  ◌++◌, arith, ◌==◌, Bool-cases, keep, All,
}
use application_workflow_ser.Text.{Text}
use application_workflow_ser.Mongo.Versions.{passes}
use application_workflow_ser.Migrations.Data.{
  Migration, MigrationRecord, is_applied, version_of, Stamp, Platform,
}
use application_workflow_ser.Migrations.{World, get_pending_migrations, get_applied_migrations}
use application_workflow_ser.Migrations.Chain.{doc_of, overlay, Rising}

module _ (p : Platform) (Db : Type 0) (stamp : ℕ → Stamp) (duplicate : Text)
    (target : Option ℕ) where
  open p use {table}

  abbrev is_done : List (Migration Db) → ℕ → Bool
  is_done [] v = false
  is_done (m ∷ ms) v = m.version == v || is_done ms v

  says_applied : Option MigrationRecord → Bool
  says_applied o = passes version_of (λ r. is_applied r.status) o

  overlay-applied :
      (ms : List (Migration Db)) (v : ℕ) (o : Option MigrationRecord)
      → says_applied (overlay p Db stamp duplicate target ms v o) ≡ (is_done ms v || says_applied o)
  unfolding overlay says_applied
  overlay-applied [] v o = refl
  overlay-applied (m ∷ ms) v o = elim (Bool-cases (m.version == v)) [
    | inl same ↦ rw same (overlay-applied ms v _ ∙ ground arith)
    | inr other ↦ rw other (overlay-applied ms v o)
  ]

  keep-keep :
      (q r : Migration Db → Bool) (ms : List (Migration Db))
      → keep (λ m. not (q m || r m)) ms ≡ keep (λ m. not (q m)) (keep (λ m. not (r m)) ms)
  unfolding keep
  keep-keep q r [] = refl
  keep-keep q r (m ∷ ms) = ground (arith, keep-keep q r ms)

  -- Migrations above all that are done are kept, and the done ones are dropped.
  not_done :
      (m : Migration Db) (done ms : List (Migration Db))
      → All (λ (n : Migration Db). m.version < n.version) ms
      → keep (λ n. not (is_done (m ∷ done) n.version)) ms
        ≡ keep (λ n. not (is_done done n.version)) ms
  unfolding keep
  not_done m done [] h = refl
  not_done m done (n ∷ ms) h = ground (arith, not_done m done ms h.1, h.0)

  keep_all : (ms : List (Migration Db)) → keep (λ n. not (is_done [] n.version)) ms ≡ ms
  unfolding keep
  keep_all [] = refl
  keep_all (m ∷ ms) = ap (◌∷◌ m) (keep_all ms)

  All-append-right :
      (P : Migration Db → Type 0) (xs ys : List (Migration Db)) → All P (xs ++ ys) → All P ys
  All-append-right P [] ys h = h
  All-append-right P (x ∷ xs) ys h = All-append-right P xs ys h.1

  rest_kept :
      (done rest : List (Migration Db))
      → Rising (done ++ rest)
      → keep (λ n. not (is_done done n.version)) (done ++ rest) ≡ rest
  unfolding keep
  rest_kept [] rest r = keep_all rest
  rest_kept (m ∷ done) rest r =
      ground (arith, not_done m done (done ++ rest) r.0, rest_kept done rest r.1)

  abbrev pub pending : List (Migration Db) → World p Db → List (Migration Db)
  pending = get_pending_migrations p Db

  abbrev unapplied : (ℕ → Option MigrationRecord) → List (Migration Db) → List (Migration Db)
  unapplied docs = keep (λ m. not (says_applied (docs m.version)))

  pending-docs :
      (discovered : List (Migration Db)) (w : World p Db)
      → pending discovered w ≡ unapplied (doc_of p Db stamp duplicate target w) discovered
  unfolding get_pending_migrations get_applied_migrations says_applied
  pending-docs discovered w =
      ap (λ f. keep f discovered)
        (fun_ext λ m. ap not (table.found w.migrations (λ r. is_applied r.status) m.version))

  pub pending-after :
      (discovered done rest : List (Migration Db)) (w v : World p Db)
      → pending discovered w ≡ done ++ rest
      → Rising (done ++ rest)
      → ((u : ℕ)
          → doc_of p Db stamp duplicate target v u
            ≡ overlay p Db stamp duplicate target done u (doc_of p Db stamp duplicate target w u))
      → pending discovered v ≡ rest
  pending-after discovered done rest w v e r h =
      pending-docs discovered v
      ∙ ap (λ f. keep f discovered)
          (fun_ext λ m. ap not (ap says_applied (h m.version) ∙ overlay-applied done m.version _))
      ∙ keep-keep (λ m. is_done done m.version)
          (λ m. says_applied (doc_of p Db stamp duplicate target w m.version)) discovered
      ∙ ap (keep (λ m. not (is_done done m.version))) (sym (pending-docs discovered w) ∙ e)
      ∙ rest_kept done rest r
