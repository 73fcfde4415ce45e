-- ===== src/Applications/Walks.antt =====
-- app/routers/app_router.py: following the cursors from page to page.
use application_workflow_ser.Base.{
  ℕ, zero, suc, ◌+◌, ◌<◌, ◌≤◌, ◌≡◌, refl, ap, ◌∙◌, sym, true, false, Option, none, some, List, [],
  ◌∷◌, ◌++◌, arith, length, take, drop, ltb, append_assoc,
}
use application_workflow_ser.Text.{Text}
use application_workflow_ser.Applications.Filters.{Datetime, FilterParams}
use application_workflow_ser.Applications.Pages.{
  start_after, last?, page_at, Content, find_job, jobs_of, Cursors, fetch_user_doc_paginated,
}
use application_workflow_ser.Applications.Keys.{Distinct, index-get, get-drop, last-get}

take-take : (n : ℕ) (xs : List Text) → take n (take (suc n) xs) ≡ take n xs
take-take zero xs = refl
take-take (suc n) [] = refl
take-take (suc n) (x ∷ xs) = ap (λ t. x ∷ t) (take-take n xs)

length-take_next : (n : ℕ) (xs : List Text) → ltb n (length (take (suc n) xs)) ≡ ltb n (length xs)
length-take_next zero [] = refl
length-take_next zero (x ∷ xs) = ground arith
length-take_next (suc n) [] = refl
length-take_next (suc n) (x ∷ xs) = ground (arith, length-take_next n xs)

take-all : (n : ℕ) (xs : List Text) → length xs ≤ n → take n xs ≡ xs
take-all zero [] h = refl
take-all zero (x ∷ xs) h = ground (arith, h)
take-all (suc n) [] h = refl
take-all (suc n) (x ∷ xs) h = ap (λ t. x ∷ t) (take-all n xs (omega (arith, h)))

pub take-drop : (n : ℕ) (xs : List Text) → take n xs ++ drop n xs ≡ xs
take-drop zero xs = refl
take-drop (suc n) [] = refl
take-drop (suc n) (x ∷ xs) = ap (λ t. x ∷ t) (take-drop n xs)

drop-nil : (n : ℕ) → drop {A = Text} n [] ≡ []
drop-nil zero = refl
drop-nil (suc n) = refl

pub drop-drop : (n m : ℕ) (xs : List Text) → drop (n + m) xs ≡ drop m (drop n xs)
drop-drop zero m xs = ap (λ k. drop k xs) (omega arith)
drop-drop (suc n) m [] = drop-nil (suc n + m) ∙ sym (drop-nil m)
drop-drop (suc n) m (x ∷ xs) =
    let e : suc n + m ≡ suc (n + m) = omega arith in ap (λ k. drop k (x ∷ xs)) e ∙ drop-drop n m xs

-- A page in the middle, and the last page.
pub page_middle :
    (keys : List Text) (m s : ℕ)
    → Distinct keys
    → suc m < length (drop s keys)
    → let page = page_at keys (suc m) s in
      (k : Text) × (page.keys ≡ take (suc m) (drop s keys))
      × (page.next ≡ some k)
      × (start_after keys (some k) ≡ s + suc m)
unfolding page_at start_after
page_middle keys m s d h =
    let (k, is_last, at) = last-get m (drop s keys) (omega (arith, h)) in
    let more : ltb (suc m) (length (take (suc (suc m)) (drop s keys))) ≡ true =
      length-take_next (suc m) (drop s keys) ∙ ground (arith, h) in
    (
      k,
      take-take (suc m) (drop s keys),
      rw more (ap last? (take-take (suc m) (drop s keys)) ∙ is_last),
      rw (index-get keys k (s + m) d (sym (get-drop s keys m) ∙ at), start_after) (omega arith),
    )

pub page_last :
    (keys : List Text) (m s : ℕ)
    → length (drop s keys) ≤ suc m
    → let page = page_at keys (suc m) s in (page.keys ≡ drop s keys) × (page.next ≡ none)
unfolding page_at
page_last keys m s h =
    let no_more : ltb (suc m) (length (take (suc (suc m)) (drop s keys))) ≡ false =
      length-take_next (suc m) (drop s keys) ∙ ground (arith, h) in
    (take-take (suc m) (drop s keys) ∙ take-all (suc m) (drop s keys) h, rw no_more refl)

pub jobs-append :
    {Rest : Type 0} (content : Content Rest) (a b : List Text)
    → jobs_of content (a ++ b) ≡ jobs_of content a ++ jobs_of content b
jobs-append content [] b = refl
jobs-append content (k ∷ a) b =
    ap (λ t. find_job content k ++ t) (jobs-append content a b)
    ∙ sym (append_assoc (find_job content k) (jobs_of content a) (jobs_of content b))

abbrev pub join :
    {Rest : Type 0} → Option (Content Rest) → Option (Content Rest) → Option (Content Rest)
join none b = none
join (some a) none = none
join (some a) (some b) = some (a ++ b)

module _ (cursors : Cursors) (parse_date : Text → Option Datetime) {Rest : Type 0} (limit : ℕ)
    (filters : FilterParams) (doc : Option (Content Rest)) where
  -- A client that asks for page after page, as long as it gets a cursor, at most `fuel` pages: what it
  -- has got, if it came to the end.
  unfoldable pub walk : ℕ → Option Text → Option (Content Rest)
  unfolding fetch_user_doc_paginated
  walk zero cursor = none
  walk (suc fuel) cursor =
      elim (fetch_user_doc_paginated cursors parse_date limit cursor filters doc) [
        | none ↦ none
        | some f ↦ elim f.next_cursor [
          | none ↦ f.doc
          | some next ↦ join f.doc (walk fuel (some next))
        ]
      ]
