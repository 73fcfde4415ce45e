-- ===== src/RateLimit/Window.antt =====
-- app/core/rate_limit.py: what the entries of a list weigh in a window, and what the filters keep of it.
use application_workflow_ser.Base.{
  ℕ, ◌+◌, ◌≤◌, ◌≡◌, refl, Bool, true, ◌&&◌, none, List, [], ◌∷◌, ◌++◌, arith, ltb, leb,
  if◌then◌else◌, keep, All, eq_iff, String,
}
use application_workflow_ser.Base.Dict
use application_workflow_ser.Base.Dict.{Dict, Distinct}
use application_workflow_ser.RateLimit.{Entry, within, total, swept, entries_of, is_empty}

-- The requests of a list that fall into the window of a width that ends at a time.
unfoldable pub in_window : ℕ → ℕ → List Entry → ℕ
in_window width t [] = 0
in_window width t (e ∷ l) =
    let rest = in_window width t l in
    if leb e.timestamp t && ltb t (e.timestamp + width) then e.count + rest else rest

pub in_window-append :
    (w t : ℕ) (l m : List Entry) → in_window w t (l ++ m) ≡ in_window w t l + in_window w t m
unfolding in_window
in_window-append w t [] m = omega arith
in_window-append w t (e ∷ l) m = ground (arith, in_window-append w t l m)

pub weight-append :
    (p : Entry → Bool) (l m : List Entry)
    → total (keep p (l ++ m)) ≡ total (keep p l) + total (keep p m)
unfolding keep total
weight-append p [] m = omega arith
weight-append p (e ∷ l) m = ground (arith, weight-append p l m)

-- A filter at an earlier time and with a wider window drops nothing of a later window.
pub keep-later :
    (w v t now : ℕ) (l : List Entry)
    → w ≤ v
    → now ≤ t
    → total (keep (within w t) (keep (within v now) l)) ≡ total (keep (within w t) l)
unfolding keep total within
keep-later w v t now [] h i = refl
keep-later w v t now (e ∷ l) h i = ground (arith, keep-later w v t now l h i)

pub weight-earlier :
    (w t now : ℕ) (l : List Entry)
    → now ≤ t
    → total (keep (within w t) l) ≤ total (keep (within w now) l)
unfolding keep total within
weight-earlier w t now [] h = omega arith
weight-earlier w t now (e ∷ l) h = ground (arith, weight-earlier w t now l h)

pub in_window-past :
    (w t : ℕ) (l : List Entry)
    → All (λ e. e.timestamp ≤ t) l
    → in_window w t l ≡ total (keep (within w t) l)
unfolding in_window keep total within
in_window-past w t [] h = refl
in_window-past w t (e ∷ l) h = ground (arith, in_window-past w t l h.1, h.0)

module _ (day now : ℕ) where
  swept_absent :
      (d : Dict (List Entry)) (u : String)
      → Dict.get d u ≡ none
      → Dict.get (swept day now d) u ≡ none
  unfolding swept Dict.get
  swept_absent [] u h = refl
  swept_absent ((v, l) ∷ d) u h = ground (arith, swept_absent d u)

  pub swept-Distinct : (d : Dict (List Entry)) → Distinct d → Distinct (swept day now d)
  unfolding swept
  swept-Distinct [] h = tt
  swept-Distinct ((v, l) ∷ d) h = ground (arith, swept-Distinct d h.1, swept_absent d v h.0)

  empty_iff : (l : List Entry) → is_empty l ≡ true → l ≡ []
  empty_iff [] h = refl
  empty_iff (e ∷ l) h = cc

  -- The cleanup filters the entries of every user.
  pub get-swept :
      (d : Dict (List Entry)) (u : String)
      → Distinct d
      → entries_of (Dict.get (swept day now d) u)
        ≡ keep (within day now) (entries_of (Dict.get d u))
  unfolding swept Dict.get
  get-swept [] u h = unfold keep in refl
  get-swept ((v, l) ∷ d) u h = ground (
    arith,
    get-swept d u h.1,
    swept_absent d v h.0,
    empty_iff (keep (within day now) l),
    eq_iff v u,
  )
