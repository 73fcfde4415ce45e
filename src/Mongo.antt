-- ===== src/Mongo.antt =====
-- The document collections that the services use (MongoDB, through motor), which are no part of the
-- program: an interface with the documented behaviour of the calls that it makes, with the key `_id`
-- or `id` as a text, and a collection in memory that has it.
pub mod Versions
pub mod Documents
use application_workflow_ser.Base.{
  String, Bool, true, false, Option, none, some, ◌≡◌, arith, if◌then◌else◌, str_eq, eq_iff,
  Option-cases, inl, inr,
}
use application_workflow_ser.Base.Dict
use application_workflow_ser.Base.Dict.{Dict, get-put, get-del}

abbrev pub changed {ℓ} : {D : Type ℓ} → (D → D) → Option D → Option D
changed f none = none
changed f (some d) = some (f d)

pub record Collection (D : Type 0) : Type 1 where
  pub Store : Type 0
  -- `find_one({"id": k})`
  pub find_one : Store → String → Option D
  -- `update_one({"id": k}, …)`, the update as a function of the document
  pub update_one : Store → String → (D → D) → Store
  -- `modified_count > 0` of that call
  pub modified : Store → String → (D → D) → Bool
  -- `insert_one` under a key that is not there yet
  pub insert_one : Store → String → D → Store
  -- `delete_one({"id": k})`
  pub delete_one : Store → String → Store
  pub find-update :
      (s : Store) (k j : String) (f : D → D)
      → find_one (update_one s k f) j
        ≡ (if str_eq k j then changed f (find_one s j) else find_one s j)
  pub modified_missing :
      (s : Store) (k : String) (f : D → D) → find_one s k ≡ none → modified s k f ≡ false
  pub find-insert :
      (s : Store) (k j : String) (d : D)
      → find_one s k ≡ none
      → find_one (insert_one s k d) j ≡ (if str_eq k j then some d else find_one s j)
  pub find-delete :
      (s : Store) (k j : String)
      → find_one (delete_one s k) j ≡ (if str_eq k j then none else find_one s j)

module _ {D : Type 0} where
  unfoldable pub update_dict : Dict D → String → (D → D) → Dict D
  update_dict s k f = elim (Dict.get s k) [ none ↦ s | some d ↦ Dict.put s k (f d) ]

  unfoldable pub is_there : Dict D → String → Bool
  is_there s k = elim (Dict.get s k) [ none ↦ false | some d ↦ true ]

  pub get-update_dict :
      (s : Dict D) (k j : String) (f : D → D)
      → Dict.get (update_dict s k f) j
        ≡ (if str_eq k j then changed f (Dict.get s j) else Dict.get s j)
  unfolding update_dict
  get-update_dict s k j f = elim (Option-cases (Dict.get s k)) [
    | inl miss ↦ rw (miss, update_dict) (ground (arith, eq_iff k j))
    | inr (d, hit) ↦ rw (hit, update_dict) (rw (get-put s k (f d) j) (ground (arith, eq_iff k j)))
  ]

  pub is_there_missing : (s : Dict D) (k : String) → Dict.get s k ≡ none → is_there s k ≡ false
  unfolding is_there
  is_there_missing s k h = rw (h, is_there)

-- A collection in memory.
abbrev pub in_memory : (D : Type 0) → Collection D
in_memory D = record {
  Store = Dict D;
  find_one = Dict.get;
  update_one = update_dict;
  modified = λ s k f. is_there s k;
  insert_one = Dict.put;
  delete_one = Dict.del;
  find-update = get-update_dict;
  modified_missing = λ s k f h. is_there_missing s k h;
  find-insert = λ s k j d _. get-put s k d j;
  find-delete = λ s k j. get-del s k j;
}
