-- ===== src/Applications/Filters.antt =====
-- app/routers/app_router.py: the filters of the lists of applications. A call that raises gives `none`.
use application_workflow_ser.Base.{
  ℕ, Bool, true, false, not, ◌||◌, Option, none, some, List, [], ◌∷◌, ltb, if◌then◌else◌,
}
use application_workflow_ser.Text.{Text, lower, occurs, same_text}

-- A datetime by the reading of its clock; `is_aware` where it has a time zone.
pub record Datetime : Type 0 where
  pub clock : ℕ
  pub is_aware : Bool

-- What a document holds at a key: nothing, `None`, or a text.
pub data Entry : Type 0 where
  missing null : Entry
  value : Text → Entry

-- A date as it is stored: nothing, a text or a datetime.
pub data JobDate : Type 0 where
  no_date : JobDate
  as_text : Text → JobDate
  as_date : Datetime → JobDate

-- The job data that the filters read, and the rest.
pub record Job (Rest : Type 0) : Type 0 where
  pub portal : Entry
  pub company_name : Entry
  pub company : Entry
  pub title : Entry
  pub created_at : JobDate
  pub applied_at : JobDate
  pub rest : Rest

pub record FilterParams : Type 0 where
  pub portal : Option Text
  pub company_name : Option Text
  pub title : Option Text
  pub date_from : Option Datetime
  pub date_to : Option Datetime

-- Whether a filter is set: an empty text is not.
abbrev pub is_set : Option Text → Bool
is_set none = false
is_set (some []) = false
is_set (some (c ∷ s)) = true

abbrev pub has_date : Option Datetime → Bool
has_date none = false
has_date (some d) = true

unfoldable pub is_filtered : FilterParams → Bool
is_filtered f =
    is_set f.portal
    || is_set f.company_name
    || is_set f.title
    || has_date f.date_from
    || has_date f.date_to

-- `job_data.get(key, "").lower()`, which raises on `None`.
unfoldable pub lowered : Entry → Option Text
lowered missing = some []
lowered null = none
lowered (value s) = some (lower s)

-- `job_data.get("company_name", "") or job_data.get("company", "")`
unfoldable pub either : Entry → Entry → Entry
either (value (c ∷ s)) b = value (c ∷ s)
either (value []) b = b
either null b = b
either missing b = b

-- One filter on a text: whether the job passes.
unfoldable pub passes_text : (Text → Text → Bool) → Option Text → Entry → Option Bool
unfolding lowered
passes_text test none e = some true
passes_text test (some []) e = some true
passes_text test (some (c ∷ s)) e = elim (lowered e) [
  | none ↦ none
  | some t ↦ some (test (lower (c ∷ s)) t)
]

-- `a < b` on datetimes raises where one of the two has a time zone and the other has none.
unfoldable pub before : Datetime → Datetime → Option Bool
before a b =
    if a.is_aware
    then (if b.is_aware then some (ltb a.clock b.clock) else none)
    else (if b.is_aware then none else some (ltb a.clock b.clock))

unfoldable pub naive : Datetime → Datetime
naive d = record d { is_aware = false }

-- `job_data.get("created_at") or job_data.get("applied_at")`
unfoldable pub job_date : {Rest : Type 0} → Job Rest → JobDate
job_date j = go j.created_at j.applied_at
  where
    go : JobDate → JobDate → JobDate
    go no_date b = b
    go (as_text []) b = b
    go (as_text (c ∷ s)) b = as_text (c ∷ s)
    go (as_date d) b = as_date d

unfoldable pub passes_from : Option Datetime → Datetime → Option Bool
unfolding before
passes_from none d = some true
passes_from (some f) d = elim (before d f) [ none ↦ none | some b ↦ some (not b) ]

unfoldable pub passes_to : Option Datetime → Datetime → Option Bool
unfolding before
passes_to none d = some true
passes_to (some t) d = elim (before t d) [ none ↦ none | some b ↦ some (not b) ]

-- `continue` at the first filter that fails.
abbrev pub and_then : Option Bool → Option Bool → Option Bool
and_then none b = none
and_then (some false) b = some false
and_then (some true) b = b

unfoldable pub passes_dates : FilterParams → Option Datetime → Option Bool
unfolding passes_from passes_to
passes_dates f none = some true
passes_dates f (some d) = and_then (passes_from f.date_from d) (passes_to f.date_to d)

unfoldable pub add_passing : {A : Type 0} → A → Option Bool → Option (List A) → Option (List A)
add_passing x none rest = none
add_passing x (some b) none = none
add_passing x (some b) (some rest) = some (if b then x ∷ rest else rest)

module _ (parse_date : Text → Option Datetime) where
  -- The date of the job: a text goes through `fromisoformat`, and a time zone is dropped.
  unfoldable pub read_date : JobDate → Option Datetime
  unfolding naive
  read_date no_date = none
  read_date (as_text s) = elim (parse_date s) [ none ↦ none | some d ↦ some (naive d) ]
  read_date (as_date d) = some (naive d)

  unfoldable pub passes : {Rest : Type 0} → FilterParams → Job Rest → Option Bool
  unfolding passes_text either read_date job_date passes_dates
  passes f j = and_then (passes_text (λ s t. same_text t s) f.portal j.portal) (
      and_then (passes_text occurs f.company_name (either j.company_name j.company))
        (and_then (passes_text occurs f.title j.title) (passes_dates f (read_date (job_date j)))))

  unfoldable pub filter_all :
      {Rest : Type 0} → FilterParams → List (Text × Job Rest) → Option (List (Text × Job Rest))
  unfolding add_passing passes
  filter_all f [] = some []
  filter_all f ((k, j) ∷ content) = add_passing (k, j) (passes f j) (filter_all f content)

  unfoldable pub apply_filters :
      {Rest : Type 0} → FilterParams → List (Text × Job Rest) → Option (List (Text × Job Rest))
  unfolding filter_all is_filtered
  apply_filters f content = if is_filtered f then filter_all f content else some content
