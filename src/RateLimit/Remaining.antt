-- ===== src/RateLimit/Remaining.antt =====
-- app/core/rate_limit.py: the number of requests that a verdict says remain.
use application_workflow_ser.Base.{
  ℕ, ◌+◌, ◌<◌, ◌≡◌, ◌⊎◌, refl, String, true, false, [], ◌∷◌, arith, ltb, keep, inl, inr, Bool-cases,
  Option-cases, eq_refl,
}
use application_workflow_ser.Base.Dict
use application_workflow_ser.Base.Dict.{get-put}
use application_workflow_ser.RateLimit.{Limit, Limiter, within, total, check, opened, entries_of}
use application_workflow_ser.RateLimit.Window.{weight-append, keep-later}

module _ (now : ℕ) (user : String) (lim : Limit) (increment : ℕ) (c : Limiter) where
  -- The requests of the user in the window that ends now, before and after the call.
  abbrev pub used : Limiter → ℕ
  used d = total (keep (within lim.window_seconds now) (entries_of (Dict.get d.windows user)))

  opened-used : used (opened user c (Dict.get c.windows user)) ≡ used c
  unfolding opened
  opened-used = elim (Option-cases (Dict.get c.windows user)) [
    | inl new ↦ rw new (rw get-put (rw (eq_refl user) refl))
    | inr (l, old) ↦ rw old (rw old refl)
  ]

  new-weight :
      0 < lim.window_seconds
      → total (
          keep (within lim.window_seconds now) (record { timestamp = now; count = increment } ∷ []))
        ≡ increment
  unfolding total keep within
  new-weight w = ground (arith, w)

  -- A request that the limiter admits leaves exactly the number of requests that the verdict says
  -- remain; one that it refuses would exceed the limit, and uses up nothing.
  pub check-remaining :
      0 < lim.window_seconds
      → let (v, c') = check now user lim increment c in
        ((v.allowed ≡ true) × (v.remaining + used c' ≡ lim.max_requests))
        ⊎ ((v.allowed ≡ false) × (lim.max_requests < used c + increment) × (used c' ≡ used c))
  unfolding check
  check-remaining w = elim (Bool-cases (ltb lim.max_requests (used c + increment))) [
    | inl over ↦ rw over (inr (refl, ground (arith, over), opened-used))
    | inr room ↦ rw room (
        inl (
          refl,
          rw get-put (
              rw (eq_refl user) (
                ground (
                  arith,
                  weight-append (within lim.window_seconds now)
                      (keep (within lim.window_seconds now) (entries_of (Dict.get c.windows user)))
                      (record { timestamp = now; count = increment } ∷ []),
                  keep-later lim.window_seconds lim.window_seconds now now
                      (entries_of (Dict.get c.windows user)) (omega arith) (omega arith),
                  new-weight w,
                  room,
                ))),
        ))
  ]
