-- ===== src/Applications/Complete.antt =====
-- app/routers/app_router.py: a client that follows the cursors gets every application once.
use application_workflow_ser.Base.{
  ℕ, zero, suc, ◌+◌, ◌≤◌, ◌≡◌, refl, ap, ◌∙◌, sym, Bool, true, false, Option, none, some, List, [],
  ◌∷◌, ◌++◌, arith, length, take, drop, length-drop, ltb, Bool-cases, inl, inr,
}
use mathlib.Core.Path.{subst}
use application_workflow_ser.Text.{Text}
use application_workflow_ser.Applications.Filters.{
  Datetime, Job, FilterParams, is_set, is_filtered, passes, add_passing, filter_all, apply_filters,
}
use application_workflow_ser.Applications.Pages.{
  start_after, Page, page_at, sorted_keys, Content, jobs_of, keys_of, Cursors, encode_cursor,
  decode_cursor, decoded, encoded, page_of, fetch_user_doc_paginated,
}
use application_workflow_ser.Applications.Keys.{
  member, Descending, sorted_keys-Descending, Distinct, member-sorted, sorted_keys-Distinct,
  length-sorted, length-keys,
}
use application_workflow_ser.Applications.Walks.{
  page_middle, page_last, take-drop, drop-drop, jobs-append, join, walk,
}

decoded_set :
    (cursors : Cursors) (s : Text)
    → is_set (some s) ≡ true
    → decoded cursors (some s) ≡ decode_cursor cursors s
unfolding decoded
decoded_set cursors [] h = cc
decoded_set cursors (x ∷ s) h = refl

-- A cursor decodes to the id that it was made of.
decoded-encode :
    (cursors : Cursors)
    → ((s : Text) → cursors.b64decode (cursors.b64encode s) ≡ some s)
    → ((s : Text) → is_set (some (cursors.b64encode s)) ≡ is_set (some s))
    → ((k : Text) → cursors.loads_id (cursors.dumps_id k) ≡ some k)
    → ((k : Text) → is_set (some (cursors.dumps_id k)) ≡ true)
    → (k : Text) → decoded cursors (some (encode_cursor cursors k)) ≡ some k
unfolding encode_cursor decode_cursor
decoded-encode cursors b64 b64_set json json_set k =
    decoded_set cursors (encode_cursor cursors k) (b64_set (cursors.dumps_id k) ∙ json_set k)
    ∙ rw (b64 (cursors.dumps_id k), decode_cursor) (json k)

module _ {Rest : Type 0} where
  -- What a filter keeps of a content: its keys, each once if they were so.
  abbrev Kept : Content Rest → Option (Content Rest) → Type 0
  Kept content none = Unit
  Kept content (some rest) =
      Distinct (keys_of rest)
      × ((k : Text) → member k (keys_of content) ≡ false → member k (keys_of rest) ≡ false)

  add_passing-Kept :
      (k : Text) (j : Job Rest) (content : Content Rest) (b : Option Bool)
      (r : Option (Content Rest))
      → member k (keys_of content) ≡ false
      → Kept content r
      → Kept ((k, j) ∷ content) (add_passing (k, j) b r)
  unfolding add_passing member
  add_passing-Kept k j content none r a h = tt
  add_passing-Kept k j content (some b) none a h = tt
  add_passing-Kept k j content (some true) (some rest) a (d, sub) =
      ((sub k a, d), λ i h. ground (arith, h, sub i))
  add_passing-Kept k j content (some false) (some rest) a (d, sub) =
      (d, λ i h. ground (arith, h, sub i))

  filter_all-Kept :
      (parse_date : Text → Option Datetime) (f : FilterParams) (content : Content Rest)
      → Distinct (keys_of content)
      → Kept content (filter_all parse_date f content)
  unfolding filter_all
  filter_all-Kept parse_date f [] d = (tt, λ k h. h)
  filter_all-Kept parse_date f ((k, j) ∷ content) (a, d) =
      add_passing-Kept k j content (passes parse_date f j) (filter_all parse_date f content) a
        (filter_all-Kept parse_date f content d)

  apply_filters-Kept :
      (parse_date : Text → Option Datetime) (f : FilterParams) (content : Content Rest)
      → Distinct (keys_of content)
      → Kept content (apply_filters parse_date f content)
  unfolding apply_filters
  apply_filters-Kept parse_date f content d = elim (Bool-cases (is_filtered f)) [
    | inl set ↦ rw set (filter_all-Kept parse_date f content d)
    | inr unset ↦ rw unset (d, λ k h. h)
  ]

module _ (cursors : Cursors) (parse_date : Text → Option Datetime) {Rest : Type 0}
    (inverse : (k : Text) → decoded cursors (some (encode_cursor cursors k)) ≡ some k) (m : ℕ)
    (filters : FilterParams) (e : Text × Job Rest) (content : Content Rest) (x : Text × Job Rest)
    (others : Content Rest)
    (kept_eq : apply_filters parse_date filters (e ∷ content) ≡ some (x ∷ others))
    (distinct : Distinct (keys_of (x ∷ others))) where
  abbrev kept : Content Rest
  kept = x ∷ others

  abbrev keys : List Text
  keys = sorted_keys (keys_of kept)

  abbrev walk_here : ℕ → Option Text → Option (Content Rest)
  walk_here = walk cursors parse_date (suc m) filters (some (e ∷ content))

  -- What follows a page.
  abbrev after : ℕ → Page → Option (Content Rest)
  after fuel page = elim (encoded cursors page.next) [
    | none ↦ some (jobs_of kept page.keys)
    | some next ↦ join (some (jobs_of kept page.keys)) (walk_here fuel (some next))
  ]

  fetched :
      (cursor : Option Text)
      → fetch_user_doc_paginated cursors parse_date (suc m) cursor filters (some (e ∷ content))
        ≡ some (page_of cursors parse_date (suc m) cursor kept)
  unfolding fetch_user_doc_paginated
  fetched cursor = rw (kept_eq, fetch_user_doc_paginated) refl

  stepped :
      (fuel s : ℕ) (cursor : Option Text)
      → start_after keys (decoded cursors cursor) ≡ s
      → walk_here (suc fuel) cursor ≡ after fuel (page_at keys (suc m) s)
  unfolding walk page_of
  stepped fuel s cursor h =
      rw (fetched cursor, walk) (ap (λ t. after fuel (page_at keys (suc m) t)) h)

  walk_from :
      (fuel s : ℕ) (cursor : Option Text)
      → start_after keys (decoded cursors cursor) ≡ s
      → length (drop s keys) ≤ fuel
      → 1 ≤ fuel
      → walk_here fuel cursor ≡ some (jobs_of kept (drop s keys))
  walk_from zero s cursor h l g = ground (arith, g)
  walk_from (suc fuel) s cursor h l g = elim (Bool-cases (ltb (suc m) (length (drop s keys)))) [
    | inl more ↦
        let (k, page_keys, next, start) =
          page_middle keys m s (sorted_keys-Distinct (keys_of kept) distinct)
            (ground (arith, more)) in
        let rest =
          walk_from fuel (s + suc m) (some (encode_cursor cursors k))
            (ap (start_after keys) (inverse k) ∙ start)
            (omega (arith, length-drop (s + suc m) keys, length-drop s keys, l))
            (ground (arith, more, l)) in
        stepped fuel s cursor h
        ∙ rw next (
            rw page_keys (
              rw rest (
                ap some (
                  sym (jobs-append kept (take (suc m) (drop s keys)) (drop (s + suc m) keys))
                  ∙ ap (jobs_of kept) (
                      ap (λ t. take (suc m) (drop s keys) ++ t) (drop-drop s (suc m) keys)
                      ∙ take-drop (suc m) (drop s keys))))))
    | inr last ↦
        let (page_keys, next) = page_last keys m s (ground (arith, last)) in
        stepped fuel s cursor h ∙ rw next (rw page_keys refl)
  ]

-- Where base64 and JSON give back what they were given, and write nothing only for nothing, the keys
-- of the user's document are distinct and the filters do not raise and leave something: a client that
-- starts without a cursor and follows `next_cursor` comes to the end after at most as many pages as
-- there are applications left, for every page size of at least one. It has got the jobs at the filtered
-- keys in descending order, and the list of keys that it went through has each of them exactly once.
pub walk_complete :
    (cursors : Cursors) (parse_date : Text → Option Datetime) {Rest : Type 0}
    → ((s : Text) → cursors.b64decode (cursors.b64encode s) ≡ some s)
    → ((s : Text) → is_set (some (cursors.b64encode s)) ≡ is_set (some s))
    → ((k : Text) → cursors.loads_id (cursors.dumps_id k) ≡ some k)
    → ((k : Text) → is_set (some (cursors.dumps_id k)) ≡ true)
    → (m fuel : ℕ) (filters : FilterParams) (e : Text × Job Rest) (content : Content Rest)
      (x : Text × Job Rest) (others : Content Rest)
    → Distinct (keys_of (e ∷ content))
    → apply_filters parse_date filters (e ∷ content) ≡ some (x ∷ others)
    → length (x ∷ others) ≤ fuel
    → let ks = sorted_keys (keys_of (x ∷ others)) in
      (walk cursors parse_date (suc m) filters (some (e ∷ content)) fuel none
        ≡ some (jobs_of (x ∷ others) ks))
      × Descending ks
      × Distinct ks
      × ((k : Text) → member k ks ≡ member k (keys_of (x ∷ others)))
unfolding start_after decoded
walk_complete cursors parse_date b64 b64_set json json_set m fuel filters e content x others d
      kept_eq l =
    let ok =
      subst (Kept (e ∷ content)) kept_eq (apply_filters-Kept parse_date filters (e ∷ content) d) in
    let all = keys_of (x ∷ others) in
    (
      walk_from cursors parse_date (decoded-encode cursors b64 b64_set json json_set) m filters e
          content x others kept_eq ok.0 fuel 0 none refl
          (omega (arith, length-sorted all, length-keys (x ∷ others), l)) (omega (arith, l)),
      sorted_keys-Descending all,
      sorted_keys-Distinct all ok.0,
      λ k. member-sorted k all,
    )
