-- ===== src/Applications/Keys.antt =====
-- app/routers/app_router.py: the keys of a list in their order, and positions in it.
use application_workflow_ser.Base.{
  ℕ, zero, suc, ◌+◌, ◌<◌, ◌≡◌, refl, ap, ◌∙◌, Bool, true, false, ◌||◌, Option, none, some, List, [],
  ◌∷◌, arith, length, take, drop, Bool-cases, inl, inr,
}
use application_workflow_ser.Text.{Text, same_text, same_text_refl, same_text_sym, text_le}
use application_workflow_ser.Applications.Pages.{
  insert_key, sorted_keys, index?, last?, Content, keys_of,
}

unfoldable pub member : Text → List Text → Bool
member k [] = false
member k (x ∷ xs) = same_text x k || member k xs

-- No key stands twice.
abbrev pub Distinct : List Text → Type 0
Distinct [] = Unit
Distinct (x ∷ xs) = (member x xs ≡ false) × Distinct xs

abbrev pub get_elem? : List Text → ℕ → Option Text
get_elem? [] i = none
get_elem? (x ∷ xs) zero = some x
get_elem? (x ∷ xs) (suc i) = get_elem? xs i

member-insert :
    (k x : Text) (xs : List Text) → member k (insert_key x xs) ≡ (same_text x k || member k xs)
unfolding member insert_key
member-insert k x [] = refl
member-insert k x (y ∷ ys) = ground (arith, member-insert k x ys)

pub member-sorted : (k : Text) (xs : List Text) → member k (sorted_keys xs) ≡ member k xs
unfolding member sorted_keys
member-sorted k [] = refl
member-sorted k (x ∷ xs) = ground (arith, member-insert k x (sorted_keys xs), member-sorted k xs)

insert_key-Distinct :
    (x : Text) (xs : List Text) → member x xs ≡ false → Distinct xs → Distinct (insert_key x xs)
unfolding member insert_key
insert_key-Distinct x [] h d = (refl, tt)
insert_key-Distinct x (y ∷ ys) h (a, d) = elim (Bool-cases (text_le y x)) [
  | inl first ↦ rw first (h, (a, d))
  | inr later ↦ rw later (
    ground (arith, member-insert y x ys, same_text_sym x y, h, a),
    insert_key-Distinct x ys (ground (arith, h)) d,
  )
]

pub sorted_keys-Distinct : (xs : List Text) → Distinct xs → Distinct (sorted_keys xs)
unfolding sorted_keys
sorted_keys-Distinct [] d = tt
sorted_keys-Distinct (x ∷ xs) (a, d) =
    insert_key-Distinct x (sorted_keys xs) (member-sorted x xs ∙ a) (sorted_keys-Distinct xs d)

get-member :
    (x k : Text) (xs : List Text) (i : ℕ)
    → get_elem? xs i ≡ some k
    → member x xs ≡ false
    → same_text x k ≡ false
unfolding member
get-member x k [] i g h = cc
get-member x k (y ∷ ys) zero g h = ground (arith, same_text_sym x y, g, h)
get-member x k (y ∷ ys) (suc i) g h = get-member x k ys i g (ground (arith, h))

pub index-get :
    (xs : List Text) (k : Text) (i : ℕ)
    → Distinct xs
    → get_elem? xs i ≡ some k
    → index? xs k ≡ some i
unfolding index?
index-get [] k i d g = cc
index-get (x ∷ xs) k zero d g = ground (arith, same_text_refl k, g)
index-get (x ∷ xs) k (suc i) (a, d) g =
    rw (index-get xs k i d g) (rw (get-member x k xs i g a) refl)

pub get-drop : (s : ℕ) (xs : List Text) (m : ℕ) → get_elem? (drop s xs) m ≡ get_elem? xs (s + m)
get-drop zero xs m = ap (get_elem? xs) (omega arith)
get-drop (suc s) [] m = refl
get-drop (suc s) (x ∷ xs) m =
    let e : suc (s + m) ≡ suc s + m = omega arith in get-drop s xs m ∙ ap (get_elem? (x ∷ xs)) e

pub last-get :
    (m : ℕ) (xs : List Text)
    → m < length xs
    → (k : Text) × (last? (take (suc m) xs) ≡ some k) × (get_elem? xs m ≡ some k)
last-get m [] h = ground (arith, h)
last-get zero (x ∷ xs) h = (x, refl, refl)
last-get (suc m) (x ∷ []) h = ground (arith, h)
last-get (suc m) (x ∷ y ∷ ys) h = last-get m (y ∷ ys) (omega (arith, h))

length-insert : (k : Text) (xs : List Text) → length (insert_key k xs) ≡ suc (length xs)
unfolding insert_key
length-insert k [] = refl
length-insert k (x ∷ xs) = ground (arith, length-insert k xs)

pub length-sorted : (xs : List Text) → length (sorted_keys xs) ≡ length xs
unfolding sorted_keys
length-sorted [] = refl
length-sorted (x ∷ xs) = omega (arith, length-insert x (sorted_keys xs), length-sorted xs)

pub length-keys :
    {Rest : Type 0} (content : Content Rest) → length (keys_of content) ≡ length content
length-keys [] = refl
length-keys ((k, j) ∷ content) = ap (λ n. suc n) (length-keys content)

text_le_total : (s t : Text) → text_le s t ≡ false → text_le t s ≡ true
unfolding text_le
text_le_total [] t h = ground (arith, h)
text_le_total (c ∷ s) [] h = refl
text_le_total (c ∷ s) (d ∷ t) h = ground (arith, h, text_le_total s t)

-- Each key is at most the one before it.
abbrev pub Below : Text → List Text → Type 0
Below x [] = Unit
Below x (y ∷ ys) = text_le y x ≡ true

abbrev pub Descending : List Text → Type 0
Descending [] = Unit
Descending (x ∷ xs) = Below x xs × Descending xs

insert_key-Below :
    (k x : Text) (xs : List Text) → text_le k x ≡ true → Below x xs → Below x (insert_key k xs)
unfolding insert_key
insert_key-Below k x [] h b = h
insert_key-Below k x (y ∷ ys) h b = elim (Bool-cases (text_le y k)) [
  | inl first ↦ rw first h
  | inr later ↦ rw later b
]

insert_key-Descending : (k : Text) (xs : List Text) → Descending xs → Descending (insert_key k xs)
unfolding insert_key
insert_key-Descending k [] d = (tt, tt)
insert_key-Descending k (x ∷ xs) (b, d) = elim (Bool-cases (text_le x k)) [
  | inl first ↦ rw first (first, (b, d))
  | inr later ↦
      rw later (insert_key-Below k x xs (text_le_total x k later) b, insert_key-Descending k xs d)
]

pub sorted_keys-Descending : (xs : List Text) → Descending (sorted_keys xs)
unfolding sorted_keys
sorted_keys-Descending [] = tt
sorted_keys-Descending (x ∷ xs) =
    insert_key-Descending x (sorted_keys xs) (sorted_keys-Descending xs)
