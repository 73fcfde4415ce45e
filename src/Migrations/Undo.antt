-- ===== src/Migrations/Undo.antt =====
-- app/migrations/runner.py: the loop of `migrate_down` by its cases, and what the rounds keep the loop
-- keeps.
use application_workflow_ser.Base.{
  ℕ, ◌≡◌, ◌⊎◌, inl, inr, refl, ◌∙◌, Bool, true, false, Option, none, some, List, [], ◌∷◌, ◌++◌,
  arith, Bool-cases, Option-cases,
}
use application_workflow_ser.Migrations.Data.{
  Migration, MigrationRecord, Outcome, returned, Platform, by_version,
}
use application_workflow_ser.Migrations.{
  World, Round, recorded, raised, run_down, undo_all, reached, is_none,
}

pub by_version-version :
    {Db : Type 0} (v : ℕ) (ms : List (Migration Db)) (m : Migration Db)
    → by_version v ms ≡ some m
    → m.version ≡ v
unfolding by_version
by_version-version v [] m h = cc
by_version-version v (n ∷ ms) m h = elim (Option-cases (by_version v ms)) [
  | inl none' ↦ ground (arith, none', h)
  | inr (k, there) ↦ by_version-version v ms m (there ∙ (rw (there, by_version) at h))
]

module _ (p : Platform) (Db : Type 0) (d : List (Migration Db)) (target : Option ℕ) where
  abbrev undo :
      Bool
      → List MigrationRecord
      → List MigrationRecord
      → World p Db
      → Outcome (List MigrationRecord) × World p Db
  undo dry = undo_all p Db d target dry

  module _ (r : MigrationRecord) (rs records : List MigrationRecord) (w : World p Db) where
    undo_stop :
        (dry : Bool)
        → reached p Db target r.version ≡ true
        → undo dry (r ∷ rs) records w ≡ (returned records, w)
    unfolding undo_all
    undo_stop dry h = rw (h, undo_all) refl

    module _ (more : reached p Db target r.version ≡ false) where
      undo_lost :
          (dry : Bool)
          → by_version r.version d ≡ none
          → undo dry (r ∷ rs) records w ≡ undo dry rs records w
      unfolding undo_all
      undo_lost dry l = rw (more, undo_all) (rw (l, undo_all) refl)

      module _ (m : Migration Db) (there : by_version r.version d ≡ some m) where
        undo_dry : undo true (r ∷ rs) records w ≡ elim (is_none p Db target) [
          | true ↦ (returned records, w)
          | false ↦ undo true rs records w
        ]
        unfolding undo_all
        undo_dry = rw (more, undo_all) (rw (there, undo_all) refl)

        undo_raise :
            (o : Outcome (List MigrationRecord))
            → (run_down p Db m r w).0 ≡ raised o
            → undo false (r ∷ rs) records w ≡ (o, (run_down p Db m r w).1)
        unfolding undo_all
        undo_raise o e = rw (more, undo_all) (rw (there, undo_all) (rw (e, undo_all) refl))

        undo_next :
            (s : MigrationRecord)
            → (run_down p Db m r w).0 ≡ recorded s
            → undo false (r ∷ rs) records w ≡ elim (is_none p Db target) [
              | true ↦ (returned (records ++ s ∷ []), (run_down p Db m r w).1)
              | false ↦ undo false rs (records ++ s ∷ []) (run_down p Db m r w).1
            ]
        unfolding undo_all
        undo_next s e = rw (more, undo_all) (rw (there, undo_all) (rw (e, undo_all) refl))

  Round-cases :
      (x : Round p Db)
      → ((r : MigrationRecord) × (x ≡ recorded r))
        ⊎ ((o : Outcome (List MigrationRecord)) × (x ≡ raised o))
  Round-cases (recorded r) = inl (r, refl)
  Round-cases (raised o) = inr (o, refl)

  -- A condition that each executed round keeps.
  abbrev pub Kept : (World p Db → Type 0) → Type 0
  Kept P =
      (m : Migration Db) (r : MigrationRecord) (w : World p Db)
      → reached p Db target r.version ≡ false
      → m.version ≡ r.version
      → P w
      → P (run_down p Db m r w).1

  pub undo_all-keeps :
      (P : World p Db → Type 0)
      → Kept P
      → (dry : Bool) (rs records : List MigrationRecord) (w : World p Db) → P w
      → P (undo_all p Db d target dry rs records w).1
  undo_all-keeps P k dry [] records w h = unfold undo_all in h
  undo_all-keeps P k dry (r ∷ rs) records w h = elim (Bool-cases (reached p Db target r.version)) [
    | inl stop ↦ rw (undo_stop r rs records w dry stop) h
    | inr go ↦ elim (Option-cases (by_version r.version d)) [
      | inl lost ↦ rw (undo_lost r rs records w go dry lost) (undo_all-keeps P k dry rs records w h)
      | inr (m, there) ↦ elim (Bool-cases dry) [
        | inl yes' ↦ rw yes' (
            rw (undo_dry r rs records w go m there) (elim (Bool-cases (is_none p Db target)) [
              | inl one ↦ rw one h
              | inr all ↦ rw all (undo_all-keeps P k true rs records w h)
            ]))
        | inr no' ↦
            let w' = (run_down p Db m r w).1 in
            let h' = k m r w go (by_version-version r.version d m there) h in
            rw no' (elim (Round-cases (run_down p Db m r w).0) [
              | inl (s, e) ↦
                  rw (undo_next r rs records w go m there s e)
                    (elim (Bool-cases (is_none p Db target)) [
                      | inl one ↦ rw one h'
                      | inr all ↦ rw all (undo_all-keeps P k false rs (records ++ s ∷ []) w' h')
                    ])
              | inr (o, e) ↦ rw (undo_raise r rs records w go m there o e) h'
            ])
      ]
    ]
  ]
