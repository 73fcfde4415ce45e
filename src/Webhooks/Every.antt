-- ===== src/Webhooks/Every.antt =====
-- A condition at every document of a collection, kept by the writes of the webhook service.
use application_workflow_ser.Base.{
  String, Bool, true, false, not, Option, none, some, ◌≡◌, if◌then◌else◌, str_eq,
}
use application_workflow_ser.Mongo.{changed}
use application_workflow_ser.Mongo.Documents.{Documents, only}

module _ {D : Type 0} (P : D → Type 0) where
  abbrev pub At : Option D → Type 0
  At none = Unit
  At (some d) = P d

  if-At : (b : Bool) (x y : Option D) → At x → At y → At (if b then x else y)
  if-At true x y h i = h
  if-At false x y h i = i

  changed-At : (f : D → D) → ((d : D) → P d → P (f d)) → (x : Option D) → At x → At (changed f x)
  changed-At f k none h = h
  changed-At f k (some d) h = k d h

  when-At :
      (q : D → Bool) (f : D → D)
      → ((d : D) → P d → P (f d))
      → (d : D) → P d
      → P (if q d then f d else d)
  when-At q f k d h = go (q d)
    where
      go : (b : Bool) → P (if b then f d else d)
      go true = k d h
      go false = h

  only-At : (q : D → Bool) (x : Option D) → At x → At (only q x)
  only-At q none h = h
  only-At q (some d) h = if-At (q d) (some d) none h tt

  module _ (c : Documents D) where
    open c use {Store, find_one, insert_one, update_one, delete_one}

    abbrev pub Every : Store → Type 0
    Every s = (k : String) → At (find_one s k)

    pub insert-Every :
        (s : Store) (k : String) (d : D)
        → find_one s k ≡ none
        → P d
        → Every s
        → Every (insert_one s k d)
    insert-Every s k d free h e j =
        rw (c.find-insert s k j d free) (if-At (str_eq k j) (some d) (find_one s j) h (e j))

    pub update-Every :
        (s : Store) (k : String) (q : D → Bool) (f : D → D)
        → ((d : D) → P d → P (f d))
        → Every s
        → Every (update_one s k q f)
    update-Every s k q f keep_ e j = rw (c.find-update s k j q f) (
        if-At (str_eq k j) _ (find_one s j) (changed-At _ (when-At q f keep_) (find_one s j) (e j))
          (e j))

    pub delete-Every : (s : Store) (k : String) (q : D → Bool) → Every s → Every (delete_one s k q)
    delete-Every s k q e j =
        rw (c.find-delete s k j q) (
          if-At (str_eq k j) _ (find_one s j) (only-At (λ d. not (q d)) (find_one s j) (e j)) (e j))
