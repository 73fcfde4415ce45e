-- ===== src/Applications/Pages.antt =====
-- app/routers/app_router.py: the pages of the lists of applications. The cursor of a page is
-- base64 and JSON of libraries; a call that raises gives `none`.
use application_workflow_ser.Base.{
  ℕ, suc, Bool, false, Option, none, some, List, [], ◌∷◌, ◌++◌, ltb, if◌then◌else◌, length, take,
  drop,
}
use application_workflow_ser.Text.{Text, same_text, text_le}
use application_workflow_ser.Applications.Filters.{Datetime, Job, FilterParams, apply_filters}

-- `sorted(keys, reverse=True)`
unfoldable pub insert_key : Text → List Text → List Text
insert_key k [] = k ∷ []
insert_key k (x ∷ xs) = let later = insert_key k xs in if text_le x k then k ∷ x ∷ xs else x ∷ later

unfoldable pub sorted_keys : List Text → List Text
unfolding insert_key
sorted_keys [] = []
sorted_keys (k ∷ ks) = insert_key k (sorted_keys ks)

-- `keys.index(k)`, which raises where `k` is not there.
unfoldable pub index? : List Text → Text → Option ℕ
index? [] k = none
index? (x ∷ xs) k =
    let later = index? xs k in
    if same_text x k then some 0 else elim later [ none ↦ none | some i ↦ some (suc i) ]

-- `start_idx`, from what the cursor decodes to.
unfoldable pub start_after : List Text → Option Text → ℕ
unfolding index?
start_after keys none = 0
start_after keys (some k) = elim (index? keys k) [ none ↦ 0 | some i ↦ suc i ]

abbrev pub last? : List Text → Option Text
last? [] = none
last? (x ∷ []) = some x
last? (x ∷ y ∷ ys) = last? (y ∷ ys)

-- A page: its keys, `has_more` and the key of `next_cursor`.
pub record Page : Type 0 where
  pub keys : List Text
  pub has_more : Bool
  pub next : Option Text

unfoldable pub page_at : List Text → ℕ → ℕ → Page
page_at keys limit start =
    let slice = take (suc limit) (drop start keys) in
    record {
      keys = take limit slice;
      has_more = ltb limit (length slice);
      next = if ltb limit (length slice) then last? (take limit slice) else none;
    }

-- The content of a document: job data by id.
abbrev pub Content : Type 0 → Type 0
Content Rest = List (Text × Job Rest)

module _ {Rest : Type 0} where
  -- `content[k]`, if it is there
  abbrev pub find_job : Content Rest → Text → Content Rest
  find_job [] k = []
  find_job ((x, j) ∷ content) k =
      let others = find_job content k in if same_text x k then (x, j) ∷ [] else others

  -- `{k: content[k] for k in page_keys if k in content}`
  abbrev pub jobs_of : Content Rest → List Text → Content Rest
  jobs_of content [] = []
  jobs_of content (k ∷ ks) = find_job content k ++ jobs_of content ks

  abbrev pub keys_of : Content Rest → List Text
  keys_of [] = []
  keys_of ((k, j) ∷ content) = k ∷ keys_of content

-- The content of the page (none where there is no document), `has_more`, the cursor, the count.
pub record Fetched (Rest : Type 0) : Type 0 where
  pub doc : Option (Content Rest)
  pub has_more : Bool
  pub next_cursor : Option Text
  pub total_count : ℕ

abbrev pub nothing : (Rest : Type 0) → Fetched Rest
nothing Rest = record { doc = none; has_more = false; next_cursor = none; total_count = 0 }

-- Of libraries: URL-safe base64 of the bytes of a text, and the JSON object with one key "id".
pub record Cursors : Type 0 where
  pub b64encode : Text → Text
  pub b64decode : Text → Option Text
  pub dumps_id : Text → Text
  pub loads_id : Text → Option Text

unfoldable pub encode_cursor : Cursors → Text → Text
encode_cursor c last_id = c.b64encode (c.dumps_id last_id)

-- The id in the cursor; none where the cursor is not valid or has no id.
unfoldable pub decode_cursor : Cursors → Text → Option Text
decode_cursor c cursor = elim (c.b64decode cursor) [ none ↦ none | some s ↦ c.loads_id s ]

-- What the cursor decodes to, where there is a cursor and it is not empty.
unfoldable pub decoded : Cursors → Option Text → Option Text
unfolding decode_cursor
decoded c none = none
decoded c (some []) = none
decoded c (some (x ∷ s)) = decode_cursor c (x ∷ s)

abbrev pub encoded : Cursors → Option Text → Option Text
encoded c none = none
encoded c (some k) = some (encode_cursor c k)

module _ (cursors : Cursors) (parse_date : Text → Option Datetime) {Rest : Type 0} where
  unfoldable pub page_of : ℕ → Option Text → Content Rest → Fetched Rest
  unfolding page_at start_after sorted_keys decoded
  page_of limit cursor [] = nothing Rest
  page_of limit cursor (e ∷ content) =
      let all_keys = sorted_keys (keys_of (e ∷ content)) in
      let page = page_at all_keys limit (start_after all_keys (decoded cursors cursor)) in
      record {
        doc = some (jobs_of (e ∷ content) page.keys);
        has_more = page.has_more;
        next_cursor = encoded cursors page.next;
        total_count = length all_keys;
      }

  -- From the content of the user's document; with no document there is none.
  unfoldable pub fetch_user_doc_paginated :
      ℕ → Option Text → FilterParams → Option (Content Rest) → Option (Fetched Rest)
  unfolding page_of
  fetch_user_doc_paginated limit cursor filters none = some (nothing Rest)
  fetch_user_doc_paginated limit cursor filters (some []) = some (nothing Rest)
  fetch_user_doc_paginated limit cursor filters (some (e ∷ content)) =
      elim (apply_filters parse_date filters (e ∷ content)) [
        | none ↦ none
        | some kept ↦ some (page_of limit cursor kept)
      ]
