-- ===== src/Examples/Applications.antt =====
-- The pages of a list of three applications. Base64 puts a letter before the text, if there is one.
use application_workflow_ser.Base.{ℕ, ◌≡◌, refl, true, Option, none, some, [], ◌∷◌, arith}
use application_workflow_ser.Text.{Text, text, lower, same_text, text_le}
use application_workflow_ser.Applications.Filters.{
  Datetime, Entry, missing, value, no_date, as_date, JobDate, Job, FilterParams, is_filtered,
  passes_text, lowered, either, job_date, read_date, naive, before, passes_from, passes_to,
  passes_dates, passes, add_passing, filter_all, apply_filters, is_set,
}
use application_workflow_ser.Applications.Pages.{
  sorted_keys, insert_key, Content, jobs_of, keys_of, Cursors, page_of, page_at, start_after,
  index?, decoded, decode_cursor, encode_cursor, fetch_user_doc_paginated,
}
use application_workflow_ser.Applications.Keys.{Descending, Distinct, member}
use application_workflow_ser.Applications.Walks.{walk}
use application_workflow_ser.Applications.Complete.{walk_complete}

-- A letter before a text that is not empty.
abbrev marked : Text → Text
marked [] = []
marked (c ∷ s) = 0 ∷ c ∷ s

abbrev unmarked : Text → Option Text
unmarked [] = some []
unmarked (c ∷ s) = some s

unmarked-marked : (s : Text) → unmarked (marked s) ≡ some s
unmarked-marked [] = refl
unmarked-marked (c ∷ s) = refl

marked_set : (s : Text) → is_set (some (marked s)) ≡ is_set (some s)
marked_set [] = refl
marked_set (c ∷ s) = refl

abbrev cursors : Cursors
cursors = record {
  b64encode = marked;
  b64decode = unmarked;
  dumps_id = λ k. 1 ∷ k;
  loads_id = unmarked;
}

abbrev no_parse : Text → Option Datetime
no_parse s = none

abbrev job : Entry → JobDate → Job ℕ
job portal date = record {
  portal = portal;
  company_name = missing;
  company = missing;
  title = missing;
  created_at = date;
  applied_at = no_date;
  rest = 0;
}

abbrev doc : Content ℕ
doc =
    (text "b", job (value (text "Indeed")) no_date)
    ∷ (text "c", job (value (text "LinkedIn")) no_date)
    ∷ (text "a", job (value (text "Indeed")) no_date)
    ∷ []

abbrev all : FilterParams
all = record { portal = none; company_name = none; title = none; date_from = none; date_to = none }

abbrev indeed : FilterParams
indeed = record all { portal = some (text "INDEED") }

abbrev since : FilterParams
since = record all { date_from = some (record { clock = 5; is_aware = true }) }

program : Unit {0}
unfolding is_filtered passes_text lowered lower either job_date read_date naive before passes_from
    passes_to passes_dates passes add_passing filter_all apply_filters same_text text_le sorted_keys
    insert_key page_of page_at start_after index? decoded decode_cursor encode_cursor
    fetch_user_doc_paginated walk member
program = tt

-- Two pages of one application each, the later id first.
abbrev kept : Content ℕ
kept =
    (text "b", job (value (text "Indeed")) no_date)
    ∷ (text "a", job (value (text "Indeed")) no_date)
    ∷ []

walk_complete_example :
    (walk cursors no_parse 1 indeed (some doc) 2 none
      ≡ some (jobs_of kept (sorted_keys (keys_of kept))))
    × Descending (sorted_keys (keys_of kept))
    × Distinct (sorted_keys (keys_of kept))
    × ((k : Text) → member k (sorted_keys (keys_of kept)) ≡ member k (keys_of kept))
walk_complete_example =
    walk_complete cursors no_parse unmarked-marked marked_set (λ k. refl) (λ k. refl) 0 2 indeed
      (text "b", job (value (text "Indeed")) no_date)
      ((text "c", job (value (text "LinkedIn")) no_date)
        ∷ (text "a", job (value (text "Indeed")) no_date)
        ∷ [])
      (text "b", job (value (text "Indeed")) no_date)
      ((text "a", job (value (text "Indeed")) no_date) ∷ [])
      (unfold program in (refl, (refl, (refl, tt)))) (unfold program in refl) (omega arith)

sorted : sorted_keys (keys_of doc) ≡ text "c" ∷ text "b" ∷ text "a" ∷ []
sorted = unfold program in refl

-- A date with a time zone raises at the first job that has a date.
aware_raises :
    apply_filters no_parse since
      ((text "a", job missing (as_date (record { clock = 9; is_aware = true }))) ∷ doc)
    ≡ none
aware_raises = unfold program in refl
