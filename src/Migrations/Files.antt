-- ===== src/Migrations/Files.antt =====
-- app/migrations/runner.py: `discover_migrations` and `_load_migration_file`. What importing a file gives
-- is an argument, `none` where it raises or lacks `up` or `down`. File names have
-- only the ASCII digits.
use application_workflow_ser.Base.{
  ℕ, ◌+◌, ◌-◌, ◌*◌, Bool, true, false, not, ◌&&◌, ◌||◌, Option, none, some, List, [], ◌∷◌, leb,
  ◌==◌, if◌then◌else◌,
}
use mathlib.Core.Option
use application_workflow_ser.Text.{Text, text, same_text, begins, text_le}
use application_workflow_ser.Migrations.Data.{Migration}

abbrev pub is_digit : ℕ → Bool
is_digit c = leb b'0' c && leb c b'9'

-- `(.+)\.py$`, without the test that the group is not empty; `.` is no line feed
unfoldable pub before_py : Text → Option Text
before_py [] = none
before_py (c ∷ s) =
    let rest = Option.map (λ t. c ∷ t) (before_py s) in
    if same_text (c ∷ s) (text ".py") then some [] else if c == 10 then none else rest

abbrev pub named : ℕ → Option Text → Option (ℕ × Text)
named v none = none
named v (some []) = none
named v (some (c ∷ s)) = some (v, c ∷ s)

-- `^(\d+)_(.+)\.py$`, from the value of the digits read and whether there is one
unfoldable pub match_from : Bool → ℕ → Text → Option (ℕ × Text)
match_from some_digit v [] = none
match_from some_digit v (c ∷ s) =
    let more = match_from true (v * 10 + (c - b'0')) s in
    if is_digit c then more else if c == b'_' && some_digit then named v (before_py s) else none

unfoldable pub parse_filename : Text → Option (ℕ × Text)
unfolding match_from before_py
parse_filename = match_from false 0

-- Text order, as `sorted` has it.
unfoldable pub insert_name : Text → List Text → List Text
insert_name s [] = s ∷ []
insert_name s (t ∷ ts) =
    let later = insert_name s ts in if text_le s t then s ∷ t ∷ ts else t ∷ later

unfoldable pub sorted_names : List Text → List Text
unfolding insert_name text_le
sorted_names [] = []
sorted_names (s ∷ ts) = insert_name s (sorted_names ts)

unfoldable pub ends_py : Text → Bool
ends_py [] = false
ends_py (c ∷ s) = same_text (c ∷ s) (text ".py") || ends_py s

module _ {Db : Type 0} (module_of : ℕ → Text → Option (Migration Db)) where
  abbrev pub loaded : Option (ℕ × Text) → Option (Migration Db)
  loaded none = none
  loaded (some (v, name)) = module_of v name

  unfoldable pub load_migration_file : Text → Option (Migration Db)
  load_migration_file filename = loaded (parse_filename filename)

  abbrev pub with_loaded : Option (Migration Db) → List (Migration Db) → List (Migration Db)
  with_loaded none ms = ms
  with_loaded (some m) ms = m ∷ ms

  unfoldable pub load_all : List Text → List (Migration Db)
  unfolding load_migration_file ends_py
  load_all [] = []
  load_all (f ∷ fs) =
      let rest = load_all fs in
      if ends_py f && not (begins (text "_") f)
      then with_loaded (load_migration_file f) rest
      else rest

-- `sort(key=lambda m: m.version)`, which is stable.
unfoldable pub insert_version :
    {Db : Type 0} → Migration Db → List (Migration Db) → List (Migration Db)
insert_version m [] = m ∷ []
insert_version m (n ∷ ms) =
    let later = insert_version m ms in if leb m.version n.version then m ∷ n ∷ ms else n ∷ later

unfoldable pub by_versions : {Db : Type 0} → List (Migration Db) → List (Migration Db)
by_versions [] = []
by_versions (m ∷ ms) = insert_version m (by_versions ms)

-- `none` is a directory that does not exist.
unfoldable pub discover_migrations :
    {Db : Type 0} → (ℕ → Text → Option (Migration Db)) → Option (List Text) → List (Migration Db)
unfolding load_all by_versions sorted_names
discover_migrations module_of none = []
discover_migrations module_of (some names) = by_versions (load_all module_of (sorted_names names))
