-- ===== src/Migrations/Discovered.antt =====
-- app/migrations/runner.py: the file names that are migrations, and the order of what is discovered.
use application_workflow_ser.Base.{
  ℕ, ◌+◌, ◌-◌, ◌*◌, ◌≤◌, ◌≡◌, refl, ap, ◌∙◌, Bool, not, ◌&&◌, ◌==◌, if◌then◌else◌, Bool-cases, inl,
  inr, true, false, Option, none, some, List, [], ◌∷◌, ◌++◌, arith, All,
}
use application_workflow_ser.Text.{Text, text, same_text, begins}
use application_workflow_ser.Migrations.Data.{Migration}
use application_workflow_ser.Migrations.Files.{
  named, before_py, match_from, parse_filename, insert_name, sorted_names, ends_py, loaded,
  load_migration_file, with_loaded, load_all, insert_version, by_versions, discover_migrations,
}

-- The number that digits stand for, after those read before.
unfoldable pub number : ℕ → Text → ℕ
number v [] = v
number v (c ∷ s) = number (v * 10 + (c - b'0')) s

abbrev pub Digits : Text → Type 0
Digits = All (λ c. (b'0' ≤ c) × (c ≤ b'9'))

not_py : (c : ℕ) (s : Text) → same_text (c ∷ (s ++ text ".py")) (text ".py") ≡ false
unfolding same_text
not_py c [] = ground arith
not_py c (d ∷ []) = ground arith
not_py c (d ∷ e ∷ []) = ground arith
not_py c (d ∷ e ∷ f ∷ s) = ground arith

-- A text without a line feed.
abbrev pub OneLine : Text → Type 0
OneLine = All (λ c. (c == 10) ≡ false)

before_py-append : (s : Text) → OneLine s → before_py (s ++ text ".py") ≡ some s
unfolding before_py
before_py-append [] h = unfold same_text in refl
before_py-append (c ∷ s) h = rw (not_py c s) (rw h.0 (rw (before_py-append s h.1) refl))

match-Digits :
    (ds : Text) (v c : ℕ) (name : Text)
    → Digits ds
    → OneLine (c ∷ name)
    → match_from true v (ds ++ b'_' ∷ ((c ∷ name) ++ text ".py")) ≡ some (number v ds, c ∷ name)
unfolding match_from number
match-Digits [] v c name h o = rw (before_py-append (c ∷ name) o) refl
match-Digits (d ∷ ds) v c name h o =
    ground (arith, match-Digits ds (v * 10 + (d - b'0')) c name h.1 o, h.0)

-- A file name of digits, an underscore, a name that is not empty and has no line feed, and ".py" is
-- read as the number that the digits stand for and the name.
pub parse-filename :
    (d : ℕ) (ds : Text) (c : ℕ) (name : Text)
    → Digits (d ∷ ds)
    → OneLine (c ∷ name)
    → parse_filename ((d ∷ ds) ++ b'_' ∷ ((c ∷ name) ++ text ".py"))
      ≡ some (number 0 (d ∷ ds), c ∷ name)
unfolding parse_filename number
parse-filename d ds c name h o =
    ground (arith, match-Digits ds (0 * 10 + (d - b'0')) c name h.1 o, h.0)

-- The two tests of discovery let through every name that parses.
before_py-other : (s : Text) → ends_py s ≡ false → before_py s ≡ none
unfolding before_py ends_py
before_py-other [] h = refl
before_py-other (c ∷ s) h =
    let hs : ends_py s ≡ false = ground (arith, h) in
    let not_here : same_text (c ∷ s) (text ".py") ≡ false = ground (arith, h) in
    rw not_here (
      rw (before_py-other s hs)
        (elim (Bool-cases (c == 10)) [ inl feed ↦ rw feed refl | inr other ↦ rw other refl ]))

match-other : (b : Bool) (v : ℕ) (s : Text) → ends_py s ≡ false → match_from b v s ≡ none
unfolding match_from ends_py
match-other b v [] h = refl
match-other b v (c ∷ s) h =
    let hs : ends_py s ≡ false = ground (arith, h) in
    let more = match-other true (v * 10 + (c - b'0')) s hs in
    rw (before_py-other s hs) (ground (arith, more))

underscored : (f : Text) → begins (text "_") f ≡ true → match_from false 0 f ≡ none
unfolding match_from begins
underscored [] h = refl
underscored (c ∷ s) h = ground (arith, h)

parse_filename-other :
    (f : Text) → (ends_py f && not (begins (text "_") f)) ≡ false → parse_filename f ≡ none
unfolding parse_filename
parse_filename-other f h = elim (Bool-cases (ends_py f)) [
  | inr no_py ↦ match-other false 0 f no_py
  | inl py ↦ underscored f (ground (arith, h, py))
]

module _ {Db : Type 0} where
  abbrev pub Ordered : List (Migration Db) → Type 0
  Ordered [] = Unit
  Ordered (m ∷ ms) = All (λ (n : Migration Db). m.version ≤ n.version) ms × Ordered ms

  above :
      (v w : ℕ) (ms : List (Migration Db))
      → v ≤ w
      → All (λ (n : Migration Db). w ≤ n.version) ms
      → All (λ (n : Migration Db). v ≤ n.version) ms
  above v w [] h a = tt
  above v w (m ∷ ms) h a = (omega (arith, a.0), above v w ms h a.1)

  insert-above :
      (v : ℕ) (m : Migration Db) (ms : List (Migration Db))
      → v ≤ m.version
      → All (λ (n : Migration Db). v ≤ n.version) ms
      → All (λ (n : Migration Db). v ≤ n.version) (insert_version m ms)
  unfolding insert_version
  insert-above v m [] h a = (h, tt)
  insert-above v m (n ∷ ms) h a = ground (arith, insert-above v m ms h a.1, a.0, a.1)

  insert-Ordered :
      (m : Migration Db) (ms : List (Migration Db)) → Ordered ms → Ordered (insert_version m ms)
  unfolding insert_version
  insert-Ordered m [] o = (tt, tt)
  insert-Ordered m (n ∷ ms) o = ground (
    arith,
    insert-Ordered m ms o.1,
    insert-above n.version m ms,
    above m.version n.version ms,
    o.0,
  )

  by_versions-Ordered : (ms : List (Migration Db)) → Ordered (by_versions ms)
  unfolding by_versions
  by_versions-Ordered [] = tt
  by_versions-Ordered (m ∷ ms) = insert-Ordered m (by_versions ms) (by_versions-Ordered ms)

  -- How many of the migrations pass a test.
  unfoldable pub count : (Migration Db → Bool) → List (Migration Db) → ℕ
  count q [] = 0
  count q (m ∷ ms) = (if q m then 1 else 0) + count q ms

  abbrev pub passes : (Migration Db → Bool) → Option (Migration Db) → ℕ
  passes q none = 0
  passes q (some m) = if q m then 1 else 0

  -- The files of a directory, in its own order, whose names parse and which load to such a migration.
  unfoldable pub count_files :
      (Migration Db → Bool) → (ℕ → Text → Option (Migration Db)) → List Text → ℕ
  count_files q module_of [] = 0
  count_files q module_of (f ∷ fs) =
      passes q (loaded module_of (parse_filename f)) + count_files q module_of fs

  count-insert :
      (q : Migration Db → Bool) (m : Migration Db) (ms : List (Migration Db))
      → count q (insert_version m ms) ≡ (if q m then 1 else 0) + count q ms
  unfolding count insert_version
  count-insert q m [] = refl
  count-insert q m (n ∷ ms) = ground (arith, count-insert q m ms)

  count-by_versions :
      (q : Migration Db → Bool) (ms : List (Migration Db)) → count q (by_versions ms) ≡ count q ms
  unfolding count by_versions
  count-by_versions q [] = refl
  count-by_versions q (m ∷ ms) =
      omega (arith, count-insert q m (by_versions ms), count-by_versions q ms)

  count_files-insert :
      (q : Migration Db → Bool) (module_of : ℕ → Text → Option (Migration Db)) (f : Text)
      (fs : List Text)
      → count_files q module_of (insert_name f fs) ≡ count_files q module_of (f ∷ fs)
  unfolding count_files insert_name
  count_files-insert q module_of f [] = refl
  count_files-insert q module_of f (g ∷ fs) = ground (arith, count_files-insert q module_of f fs)

  count_files-sorted :
      (q : Migration Db → Bool) (module_of : ℕ → Text → Option (Migration Db)) (fs : List Text)
      → count_files q module_of (sorted_names fs) ≡ count_files q module_of fs
  unfolding count_files sorted_names
  count_files-sorted q module_of [] = refl
  count_files-sorted q module_of (f ∷ fs) =
      count_files-insert q module_of f (sorted_names fs)
      ∙ ap (◌+◌ (passes q (loaded module_of (parse_filename f))))
          (count_files-sorted q module_of fs)

  count-with :
      (q : Migration Db → Bool) (module_of : ℕ → Text → Option (Migration Db))
      (o : Option (Migration Db)) (ms : List (Migration Db))
      → count q (with_loaded module_of o ms) ≡ passes q o + count q ms
  unfolding count
  count-with q module_of none ms = omega arith
  count-with q module_of (some m) ms = refl

  count-load_all :
      (q : Migration Db → Bool) (module_of : ℕ → Text → Option (Migration Db)) (fs : List Text)
      → count q (load_all module_of fs) ≡ count_files q module_of fs
  unfolding count count_files load_all load_migration_file
  count-load_all q module_of [] = refl
  count-load_all q module_of (f ∷ fs) = elim (Bool-cases (ends_py f && not (begins (text "_") f))) [
    | inl named ↦ rw named (
        count-with q module_of _ (load_all module_of fs)
        ∙ ap (◌+◌ (passes q (loaded module_of (parse_filename f)))) (count-load_all q module_of fs))
    | inr other ↦
        rw other (rw (parse_filename-other f other) (count-load_all q module_of fs ∙ omega arith))
  ]

  -- Discovery of a directory returns, with their versions in order, exactly the migrations that its
  -- files give, each as often as files give it: a file gives the migration that importing it gives,
  -- if its name is digits, an underscore and a name before ".py". A missing directory gives none.
  pub discover-all :
      (module_of : ℕ → Text → Option (Migration Db)) (names : List Text)
      → Ordered (discover_migrations module_of (some names))
        × ((q : Migration Db → Bool)
            → count q (discover_migrations module_of (some names)) ≡ count_files q module_of names)
        × (discover_migrations module_of none ≡ [])
  unfolding discover_migrations
  discover-all module_of names = (
    by_versions-Ordered _,
    λ q.
        count-by_versions q _
        ∙ count-load_all q module_of (sorted_names names)
        ∙ count_files-sorted q module_of names,
    refl,
  )
