-- ===== src/RateLimit/Sliding.antt =====
-- app/core/rate_limit.py: the limiter's windows against the memory of every admitted request.
use application_workflow_ser.Base.{
  All-append, ℕ, ◌+◌, ◌≤◌, ◌≡◌, refl, true, false, not, List, [], ◌∷◌, ◌++◌, arith, ltb, keep, All,
  eq_iff, String, str_eq, ap, ◌∙◌, sym, inl, inr, Bool-cases, Option-cases,
}
use application_workflow_ser.Base.Dict
use application_workflow_ser.Base.Dict.{Dict, Distinct, get-put, put-Distinct}
use application_workflow_ser.RateLimit.{
  Entry, Limit, Limiter, within, total, entries_of, cleanup_old_entries, check, opened,
}
use application_workflow_ser.RateLimit.Ideal.{
  Call, Memory, entry_of, remember, remember_if, ideal_allows,
}
use application_workflow_ser.RateLimit.Window.{
  in_window, in_window-append, weight-append, keep-later, weight-earlier, in_window-past,
  swept-Distinct, get-swept,
}

module _ (day : ℕ) (lim : Limit) where
  -- The limiter's windows agree with the memory about every window that ends from a time on.
  pub record Agrees (t : ℕ) (c : Limiter) (g : Memory) : Type 0 where
    pub distinct : Distinct c.windows
    pub recent :
        (u : String) (s : ℕ)
        → t ≤ s
        → total (keep (within lim.window_seconds s) (entries_of (Dict.get c.windows u)))
          ≡ total (keep (within lim.window_seconds s) (g u))
    pub past : (u : String) (s : ℕ) → t ≤ s → All (λ e. e.timestamp ≤ s) (g u)
    pub bounded : (u : String) (s : ℕ) → in_window lim.window_seconds s (g u) ≤ lim.max_requests

  pub cleanup-Agrees :
      (t now : ℕ) (c : Limiter) (g : Memory)
      → lim.window_seconds ≤ day
      → t ≤ now
      → Agrees t c g
      → Agrees now (cleanup_old_entries day now c) g
  unfolding cleanup_old_entries
  cleanup-Agrees t now c g w h a =
      elim (Bool-cases (ltb now (c.last_cleanup + c.cleanup_interval))) [
        | inl soon ↦ rw soon record {
          distinct = a.distinct;
          recent = λ u s i. a.recent u s (omega arith);
          past = λ u s i. a.past u s (omega arith);
          bounded = a.bounded;
        }
        | inr due ↦ rw due record {
          distinct = swept-Distinct day now c.windows a.distinct;
          recent = λ u s i.
              rw (get-swept day now c.windows u a.distinct)
                (keep-later lim.window_seconds day s now _ w i ∙ a.recent u s (omega arith));
          past = λ u s i. a.past u s (omega arith);
          bounded = a.bounded;
        }
      ]

  pub later-Agrees : (t t' : ℕ) (c : Limiter) (g : Memory) → t ≤ t' → Agrees t c g → Agrees t' c g
  later-Agrees t t' c g h a = record {
    distinct = a.distinct;
    recent = λ u s i. a.recent u s (omega arith);
    past = λ u s i. a.past u s (omega arith);
    bounded = a.bounded;
  }

  -- The requests that count at a time weigh as much in the limiter as in the memory.
  weight-Agrees :
      (t : ℕ) (c : Limiter) (g : Memory) (u : String)
      → Agrees t c g
      → total (keep (within lim.window_seconds t) (entries_of (Dict.get c.windows u)))
        ≡ in_window lim.window_seconds t (g u)
  weight-Agrees t c g u a =
      a.recent u t (omega arith)
      ∙ sym (in_window-past lim.window_seconds t (g u) (a.past u t (omega arith)))

  opened-Distinct :
      (user : String) (c : Limiter)
      → Distinct c.windows
      → Distinct (opened user c (Dict.get c.windows user)).windows
  unfolding opened
  opened-Distinct user c h = elim (Option-cases (Dict.get c.windows user)) [
    | inl new ↦ rw new (put-Distinct c.windows user [] h)
    | inr (l, old) ↦ rw old h
  ]

  opened-entries :
      (user u : String) (c : Limiter)
      → entries_of (Dict.get (opened user c (Dict.get c.windows user)).windows u)
        ≡ entries_of (Dict.get c.windows u)
  unfolding opened
  opened-entries user u c = elim (Option-cases (Dict.get c.windows user)) [
    | inl new ↦ rw new (rw get-put (ground (arith, eq_iff user u, new)))
    | inr (l, old) ↦ rw old refl
  ]

  abbrev pub user_entries : Limiter → String → List Entry
  user_entries c u = entries_of (Dict.get c.windows u)

  abbrev pub current : Call → Limiter → List Entry
  current k c = keep (within lim.window_seconds k.at) (user_entries c k.user)

  -- The limiter after an admitted request.
  abbrev pub admit_at : Call → Limiter → Limiter
  admit_at k c =
      let c' = opened k.user c (Dict.get c.windows k.user) in
      record c' { windows = Dict.put c'.windows k.user (current k c ++ entry_of k ∷ []) }

  window-later :
      (t s : ℕ) (c : Limiter) (g : Memory) (u : String)
      → Agrees t c g
      → t ≤ s
      → in_window lim.window_seconds s (g u) ≤ in_window lim.window_seconds t (g u)
  window-later t s c g u a h = omega (
    arith,
    in_window-past lim.window_seconds s (g u) (a.past u s h),
    in_window-past lim.window_seconds t (g u) (a.past u t (omega arith)),
    weight-earlier lim.window_seconds s t (g u) h,
  )

  one-bounded :
      (k : Call) (c : Limiter) (g : Memory) (s : ℕ)
      → Agrees k.at c g
      → ideal_allows lim g k ≡ true
      → in_window lim.window_seconds s (g k.user ++ entry_of k ∷ []) ≤ lim.max_requests
  unfolding ideal_allows in_window
  one-bounded k c g s a ok =
      rw in_window-append (ground (arith, a.bounded k.user s, window-later k.at s c g k.user a, ok))

  remember-bounded :
      (k : Call) (c : Limiter) (g : Memory) (u : String) (s : ℕ)
      → Agrees k.at c g
      → ideal_allows lim g k ≡ true
      → in_window lim.window_seconds s (remember g k.user (entry_of k) u) ≤ lim.max_requests
  unfolding remember
  remember-bounded k c g u s a ok = elim (Bool-cases (str_eq k.user u)) [
    | inl same ↦ rw same (rw (sym ((eq_iff k.user u).0 same)) (one-bounded k c g s a ok))
    | inr other ↦ rw other (a.bounded u s)
  ]

  remember-past :
      (k : Call) (g : Memory) (u : String) (s : ℕ)
      → k.at ≤ s
      → All (λ e. e.timestamp ≤ s) (g u)
      → All (λ e. e.timestamp ≤ s) (remember g k.user (entry_of k) u)
  unfolding remember
  remember-past k g u s h a = elim (Bool-cases (str_eq k.user u)) [
    | inl same ↦ rw same (All-append (λ e. e.timestamp ≤ s) (g u) (entry_of k) a h)
    | inr other ↦ rw other a
  ]

  remember-recent :
      (k : Call) (c : Limiter) (g : Memory) (u : String) (s : ℕ)
      → Agrees k.at c g
      → k.at ≤ s
      → total (keep (within lim.window_seconds s) (user_entries (admit_at k c) u))
        ≡ total (keep (within lim.window_seconds s) (remember g k.user (entry_of k) u))
  unfolding remember
  remember-recent k c g u s a h = rw get-put (elim (Bool-cases (str_eq k.user u)) [
    | inl same ↦ rw same (
        rw (sym ((eq_iff k.user u).0 same)) (
          omega (
            arith,
            weight-append (within lim.window_seconds s) (current k c) (entry_of k ∷ []),
            weight-append (within lim.window_seconds s) (g k.user) (entry_of k ∷ []),
            keep-later lim.window_seconds lim.window_seconds s k.at (user_entries c k.user)
                (omega arith) h,
            a.recent k.user s h,
          )))
    | inr other ↦ rw other (rw opened-entries (a.recent u s h))
  ])

  admit-Agrees :
      (k : Call) (c : Limiter) (g : Memory)
      → Agrees k.at c g
      → ideal_allows lim g k ≡ true
      → Agrees k.at (admit_at k c) (remember g k.user (entry_of k))
  admit-Agrees k c g a ok = record {
    distinct = put-Distinct _ k.user _ (opened-Distinct k.user c a.distinct);
    recent = λ u s h. remember-recent k c g u s a h;
    past = λ u s h. remember-past k g u s h (a.past u s h);
    bounded = λ u s. remember-bounded k c g u s a ok;
  }

  refuse-Agrees :
      (k : Call) (c : Limiter) (g : Memory)
      → Agrees k.at c g
      → Agrees k.at (opened k.user c (Dict.get c.windows k.user)) g
  refuse-Agrees k c g a = record {
    distinct = opened-Distinct k.user c a.distinct;
    recent = λ u s h. rw opened-entries (a.recent u s h);
    past = a.past;
    bounded = a.bounded;
  }

  ideal-weight :
      (k : Call) (c : Limiter) (g : Memory)
      → Agrees k.at c g
      → ideal_allows lim g k ≡ not (ltb lim.max_requests (total (current k c) + k.increment))
  unfolding ideal_allows
  ideal-weight k c g a = rw (weight-Agrees k.at c g k.user a) refl

  -- A call decides like the ideal limiter and keeps the agreement.
  pub check-Agrees :
      (k : Call) (c : Limiter) (g : Memory)
      → Agrees k.at c g
      → ((check k.at k.user lim k.increment c).0.allowed ≡ ideal_allows lim g k)
        × Agrees k.at
            (check k.at k.user lim k.increment c).1
            (remember_if (ideal_allows lim g k) g k)
  check-Agrees k c g a =
      elim (Bool-cases (ltb lim.max_requests (total (current k c) + k.increment))) [
        | inl over ↦
            let no' : ideal_allows lim g k ≡ false = ideal-weight k c g a ∙ ap not over in
            rw no' (unfold check in rw over (refl, refuse-Agrees k c g a))
        | inr room ↦
            let ok : ideal_allows lim g k ≡ true = ideal-weight k c g a ∙ ap not room in
            rw ok (unfold check in rw room (refl, admit-Agrees k c g a ok))
      ]
