-- ===== src/Mongo/Documents.antt =====
-- A collection whose documents have unique ids, with the filtered reads and writes of the webhook
-- service: an interface with the documented behaviour of the calls, and a collection in memory. A
-- filter is a test of a document, and an update a function of it.
use application_workflow_ser.Base.{
  ℕ, ◌+◌, ◌≤◌, ◌≡◌, refl, String, Bool, true, not, Option, none, some, List, [], ◌∷◌, arith,
  if◌then◌else◌, str_eq, eq_iff, Option-cases, Bool-cases, inl, inr, All,
}
use application_workflow_ser.Base.Dict
use application_workflow_ser.Base.Dict.{Dict, get-put, get-del}
use application_workflow_ser.Mongo.{changed, update_dict, get-update_dict}

-- A document that passes a filter.
abbrev pub only : {D : Type 0} → (D → Bool) → Option D → Option D
only p none = none
only p (some d) = if p d then some d else none

pub record Documents (D : Type 0) : Type 1 where
  pub Store : Type 0
  -- `find_one({"id": k})`
  pub find_one : Store → String → Option D
  -- `find(filter)`, and with `.sort` by an order of the documents; `count_documents(filter)`
  pub find : Store → (D → Bool) → List D
  pub find_sorted : Store → (D → Bool) → (D → D → Bool) → List D
  pub count : Store → (D → Bool) → ℕ
  -- `insert_one` of a new id
  pub insert_one : Store → String → D → Store
  -- `update_one({"id": k, …}, …)` and `delete_one({"id": k, …})`, with a filter on the rest
  pub update_one : Store → String → (D → Bool) → (D → D) → Store
  pub delete_one : Store → String → (D → Bool) → Store
  -- `delete_many(filter)`
  pub delete_many : Store → (D → Bool) → Store
  pub find-All : (s : Store) (p : D → Bool) → All (λ d. p d ≡ true) (find s p)
  pub sorted-All :
      (s : Store) (p : D → Bool) (le : D → D → Bool) → All (λ d. p d ≡ true) (find_sorted s p le)
  pub find-insert :
      (s : Store) (k j : String) (d : D)
      → find_one s k ≡ none
      → find_one (insert_one s k d) j ≡ (if str_eq k j then some d else find_one s j)
  pub find-update :
      (s : Store) (k j : String) (p : D → Bool) (f : D → D)
      → find_one (update_one s k p f) j ≡ (
          if str_eq k j then changed (λ d. if p d then f d else d) (find_one s j) else find_one s j)
  pub find-delete :
      (s : Store) (k j : String) (p : D → Bool)
      → find_one (delete_one s k p) j
        ≡ (if str_eq k j then only (λ d. not (p d)) (find_one s j) else find_one s j)
  pub find-delete_many :
      (s : Store) (j : String) (p : D → Bool)
      → find_one (delete_many s p) j ≡ only (λ d. not (p d)) (find_one s j)
  pub count-insert :
      (s : Store) (k : String) (d : D) (p : D → Bool)
      → find_one s k ≡ none
      → count (insert_one s k d) p ≡ count s p + (if p d then 1 else 0)
  pub count-update :
      (s : Store) (k : String) (p q : D → Bool) (f : D → D)
      → ((d : D) → q (f d) ≡ q d)
      → count (update_one s k p f) q ≡ count s q
  pub count-delete :
      (s : Store) (k : String) (p q : D → Bool) → count (delete_one s k p) q ≤ count s q

module _ {D : Type 0} where
  unfoldable pub find_in : Dict D → (D → Bool) → List D
  find_in [] p = []
  find_in ((k, d) ∷ s) p = let rest = find_in s p in if p d then d ∷ rest else rest

  pub find_in-All : (s : Dict D) (p : D → Bool) → All (λ d. p d ≡ true) (find_in s p)
  unfolding find_in
  find_in-All [] p = tt
  find_in-All ((k, d) ∷ s) p = elim (Bool-cases (p d)) [
    | inl keeps ↦ rw keeps (keeps, find_in-All s p)
    | inr drops ↦ rw drops (find_in-All s p)
  ]

  insert_by : (D → D → Bool) → D → List D → List D
  insert_by le d [] = d ∷ []
  insert_by le d (e ∷ es) = let rest = insert_by le d es in if le d e then d ∷ e ∷ es else e ∷ rest

  unfoldable pub sort_by : (D → D → Bool) → List D → List D
  unfolding insert_by
  sort_by le [] = []
  sort_by le (d ∷ ds) = insert_by le d (sort_by le ds)

  insert_by-All :
      (P : D → Type 0) (le : D → D → Bool) (d : D) (es : List D)
      → P d
      → All P es
      → All P (insert_by le d es)
  unfolding insert_by
  insert_by-All P le d [] h a = (h, tt)
  insert_by-All P le d (e ∷ es) h a = elim (Bool-cases (le d e)) [
    | inl first ↦ rw first (h, a)
    | inr later ↦ rw later (a.0, insert_by-All P le d es h a.1)
  ]

  pub sort_by-All :
      (P : D → Type 0) (le : D → D → Bool) (ds : List D) → All P ds → All P (sort_by le ds)
  unfolding sort_by
  sort_by-All P le [] a = tt
  sort_by-All P le (d ∷ ds) a = insert_by-All P le d (sort_by le ds) a.0 (sort_by-All P le ds a.1)

  delete_doc : Dict D → String → (D → Bool) → Option D → Dict D
  delete_doc s k p none = s
  delete_doc s k p (some d) = if p d then Dict.del s k else s

  unfoldable pub delete_from : Dict D → String → (D → Bool) → Dict D
  unfolding delete_doc
  delete_from s k p = delete_doc s k p (Dict.get s k)

  unfoldable pub delete_passing : Dict D → (D → Bool) → Dict D
  delete_passing [] p = []
  delete_passing ((k, d) ∷ s) p =
      let rest = delete_passing s p in if p d then Dict.del rest k else (k, d) ∷ rest

  unfoldable pub count_in : Dict D → (D → Bool) → ℕ
  count_in [] p = 0
  count_in ((k, d) ∷ s) p = count_in s p + (if p d then 1 else 0)

  pub get-delete_from :
      (s : Dict D) (k j : String) (p : D → Bool)
      → Dict.get (delete_from s k p) j
        ≡ (if str_eq k j then only (λ d. not (p d)) (Dict.get s j) else Dict.get s j)
  unfolding delete_from
  get-delete_from s k j p = elim (Option-cases (Dict.get s k)) [
    | inl miss ↦ rw miss (ground (arith, eq_iff k j, miss))
    | inr (d, hit) ↦ rw hit (elim (Bool-cases (p d)) [
      | inl gone ↦ rw gone (rw get-del (ground (arith, eq_iff k j, hit, gone)))
      | inr stays ↦ rw stays (ground (arith, eq_iff k j, hit, stays))
    ])
  ]

  pub get-delete_passing :
      (s : Dict D) (j : String) (p : D → Bool)
      → Dict.get (delete_passing s p) j ≡ only (λ d. not (p d)) (Dict.get s j)
  unfolding delete_passing Dict.get
  get-delete_passing [] j p = refl
  get-delete_passing ((k, d) ∷ s) j p =
      ground (arith, get-delete_passing s j p, get-del (delete_passing s p) k j, eq_iff k j)

  pub count-put :
      (s : Dict D) (k : String) (d : D) (p : D → Bool)
      → Dict.get s k ≡ none
      → count_in (Dict.put s k d) p ≡ count_in s p + (if p d then 1 else 0)
  unfolding count_in Dict.put Dict.get
  count-put [] k d p h = refl
  count-put ((j, e) ∷ s) k d p h = ground (arith, count-put s k d p, eq_iff j k)

  count-put_same :
      (s : Dict D) (k : String) (d e : D) (p : D → Bool)
      → Dict.get s k ≡ some d
      → p e ≡ p d
      → count_in (Dict.put s k e) p ≡ count_in s p
  unfolding count_in Dict.put Dict.get
  count-put_same [] k d e p h i = cc
  count-put_same ((j, c) ∷ s) k d e p h i = ground (arith, count-put_same s k d e p, eq_iff j k)

  pub count-update_dict :
      (s : Dict D) (k : String) (p q : D → Bool) (f : D → D)
      → ((d : D) → q (f d) ≡ q d)
      → count_in (update_dict s k (λ d. if p d then f d else d)) q ≡ count_in s q
  unfolding update_dict
  count-update_dict s k p q f h = elim (Option-cases (Dict.get s k)) [
    | inl miss ↦ rw (miss, update_dict) refl
    | inr (d, hit) ↦ rw (hit, update_dict) (count-put_same s k d _ q hit (ground (arith, h d)))
  ]

  count-del : (s : Dict D) (k : String) (q : D → Bool) → count_in (Dict.del s k) q ≤ count_in s q
  unfolding count_in Dict.del
  count-del [] k q = omega arith
  count-del ((j, d) ∷ s) k q = ground (arith, count-del s k q)

  pub count-delete_from :
      (s : Dict D) (k : String) (p q : D → Bool) → count_in (delete_from s k p) q ≤ count_in s q
  unfolding delete_from
  count-delete_from s k p q = elim (Option-cases (Dict.get s k)) [
    | inl miss ↦ rw miss (omega arith)
    | inr (d, hit) ↦ rw hit (ground (arith, count-del s k q))
  ]

-- A collection in memory.
abbrev pub documents_in_memory : (D : Type 0) → Documents D
documents_in_memory D = record {
  Store = Dict D;
  find_one = Dict.get;
  find = find_in;
  find_sorted = λ s p le. sort_by le (find_in s p);
  find-All = find_in-All;
  sorted-All = λ s p le. sort_by-All (λ d. p d ≡ true) le (find_in s p) (find_in-All s p);
  count = count_in;
  insert_one = Dict.put;
  update_one = λ s k p f. update_dict s k (λ d. if p d then f d else d);
  delete_one = delete_from;
  delete_many = delete_passing;
  find-insert = λ s k j d _. get-put s k d j;
  find-update = λ s k j p f. get-update_dict s k j (λ d. if p d then f d else d);
  find-delete = get-delete_from;
  find-delete_many = get-delete_passing;
  count-insert = λ s k d p h. count-put s k d p h;
  count-update = λ s k p q f h. count-update_dict s k p q f h;
  count-delete = count-delete_from;
}
