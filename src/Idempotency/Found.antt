-- ===== src/Idempotency/Found.antt =====
-- app/core/idempotency.py: the wrapper before the call of the function, by the record under its key.
use application_workflow_ser.Base.{
  ◌⊎◌, ℕ, ◌+◌, ◌≡◌, refl, String, Bool, not, none, some, arith, ltb, if◌then◌else◌, inl, inr,
  Bool-cases, Option-cases, eq_refl,
}
use application_workflow_ser.Base.Dict
use application_workflow_ser.Base.Dict.{
  Dict, Distinct, get-put, get-del, get-keep, keep_absent, put-Distinct, del-Distinct,
}
use application_workflow_ser.Idempotency.{
  completed, failed, IdempotencyRecord, IdempotencyStore, Readings, BeginTimes, execute, replay,
  duplicate, begin, begin_found, get, fetched, cleanup_expired, claim, set_pending, put_pending,
  replayable, delete,
}
use application_workflow_ser.Idempotency.Kept.{
  By, Holds, get_self, get-Holds, get-Distinct, get-ttl, swept_store,
}

module _ {R : Type 0} where
  cleanup_absent :
      (t : Readings) (k : String) (s : IdempotencyStore R)
      → Distinct s.store
      → Dict.get s.store k ≡ none
      → Dict.get (cleanup_expired t s).store k ≡ none
  cleanup_absent t k s u h =
      rw (swept_store t s u) (elim (Bool-cases (ltb t.tick (s.last_cleanup + s.cleanup_interval))) [
        | inl soon ↦ rw soon h
        | inr due ↦ rw due (keep_absent _ s.store k h)
      ])

  get_absent :
      (t : Readings) (k : String) (s : IdempotencyStore R)
      → Distinct s.store
      → Dict.get s.store k ≡ none
      → (get t k s).0 ≡ none
  unfolding get fetched
  get_absent t k s u h = rw (cleanup_absent t k s u h) refl

  -- What `get` does not return is not there afterwards.
  fetched_gone :
      (at : ℕ) (k : String) (s : IdempotencyStore R)
      → (fetched at k s (Dict.get s.store k)).0 ≡ none
      → Dict.get (fetched at k s (Dict.get s.store k)).1.store k ≡ none
  unfolding fetched
  fetched_gone at k s h = elim (Option-cases (Dict.get s.store k)) [
    | inl miss ↦ rw miss miss
    | inr (r, hit) ↦ rw hit (elim (Bool-cases (ltb (r.created_at + s.ttl) at)) [
      | inl old ↦ rw old (rw get-del (rw (eq_refl k) refl))
      | inr live ↦ ground (arith, h, hit, live)
    ])
  ]

module _ {R : Type 0} where
  get_gone :
      (t : Readings) (k : String) (s : IdempotencyStore R)
      → (get t k s).0 ≡ none
      → Dict.get (get t k s).1.store k ≡ none
  unfolding get
  get_gone t k s h = fetched_gone t.age_at k (cleanup_expired t s) h

  cleanup_same :
      (t : Readings) (k : String) (s : IdempotencyStore R) (r : IdempotencyRecord R)
      → Holds s k r
      → (Dict.get (cleanup_expired t s).store k ≡ none)
        ⊎ (Dict.get (cleanup_expired t s).store k ≡ some r)
  cleanup_same t k s r h =
      rw (swept_store t s h.distinct)
        (elim (Bool-cases (ltb t.tick (s.last_cleanup + s.cleanup_interval))) [
          | inl soon ↦ rw soon (inr h.there)
          | inr due ↦ rw due (
              rw
                (get-keep (λ e. not (ltb (e.1.created_at + s.ttl) t.cutoff_at)) s.store k r
                  h.distinct h.there)
                (elim (Bool-cases (ltb (r.created_at + s.ttl) t.cutoff_at)) [
                  | inl old ↦ rw old (inl refl)
                  | inr live ↦ rw live (inr refl)
                ]))
        ])

  -- `get` finds the record of the key or nothing.
  get_same :
      (t : Readings) (k : String) (s : IdempotencyStore R) (r : IdempotencyRecord R)
      → Holds s k r
      → ((get t k s).0 ≡ none) ⊎ ((get t k s).0 ≡ some r)
  unfolding get fetched
  get_same t k s r h = elim (cleanup_same t k s r h) [
    | inl miss ↦ rw miss (inl refl)
    | inr hit ↦
        rw hit (elim (Bool-cases (ltb (r.created_at + (cleanup_expired t s).ttl) t.age_at)) [
          | inl old ↦ rw old (inl refl)
          | inr live ↦ rw live (inr refl)
        ])
  ]

module _ {R : Type 0} (filled : R → Bool) where
  -- With no record under the key a claim lets the request run, with a live one it does not.
  claim_absent :
      (t : BeginTimes) (k : String) (s : IdempotencyStore R)
      → Distinct s.store
      → Dict.get s.store k ≡ none
      → (claim filled t k s).0 ≡ execute
  unfolding set_pending put_pending
  claim_absent t k s u h = rw (get_absent t.second k s u h) refl

  claim_held :
      (t : BeginTimes) (k : String) (s : IdempotencyStore R) (r : IdempotencyRecord R)
      → By (r.created_at + s.ttl) t.second
      → Holds s k r
      → (claim filled t k s).0 ≡ duplicate
  unfolding set_pending put_pending
  claim_held t k s r b h = rw (get_self t.second k s r b h) refl

  found_completed :
      (t : BeginTimes) (k : String) (s : IdempotencyStore R) (r : IdempotencyRecord R) (b : R)
      → Holds s k r
      → r.status ≡ completed
      → r.response ≡ some b
      → By (r.created_at + s.ttl) t.second
      → (begin_found filled t k (some r, s)).0 ≡ (if filled b then replay b else duplicate)
  unfolding begin_found replayable
  found_completed t k s r b h c p j = rw c (
      rw p (elim (Bool-cases (filled b)) [
        | inl full ↦ rw full refl
        | inr empty ↦ rw empty (claim_held t k s r j h)
      ]))

  pub begin_completed :
      (t : BeginTimes) (k : String) (s : IdempotencyStore R) (r : IdempotencyRecord R) (b : R)
      → Holds s k r
      → r.status ≡ completed
      → r.response ≡ some b
      → By (r.created_at + s.ttl) t.first
      → By (r.created_at + s.ttl) t.second
      → (begin filled t k s).0 ≡ (if filled b then replay b else duplicate)
  unfolding begin
  begin_completed t k s r b h c p i j = rw (get_self t.first k s r i h) (
      found_completed t k (get t.first k s).1 r b (get-Holds t.first k k s r i h) c p
        (rw (get-ttl t.first k s) j))

  found_failed :
      (t : BeginTimes) (k : String) (s : IdempotencyStore R) (r : IdempotencyRecord R)
      → Distinct s.store
      → r.status ≡ failed
      → (begin_found filled t k (some r, s)).0 ≡ execute
  unfolding begin_found replayable delete
  found_failed t k s r u f = elim (Option-cases r.response) [
    | inl nothing ↦ rw f (
        rw nothing
          (claim_absent t k _ (del-Distinct s.store k u) (rw get-del (rw (eq_refl k) refl))))
    | inr (b, some') ↦ rw f (
        rw some' (claim_absent t k _ (del-Distinct s.store k u) (rw get-del (rw (eq_refl k) refl))))
  ]

  found_none :
      (t : BeginTimes) (k : String) (s : IdempotencyStore R)
      → Distinct s.store
      → Dict.get s.store k ≡ none
      → (begin_found filled t k (none, s)).0 ≡ execute
  unfolding begin_found
  found_none t k s u h = claim_absent t k s u h

  pub begin_failed :
      (t : BeginTimes) (k : String) (s : IdempotencyStore R) (r : IdempotencyRecord R)
      → Holds s k r
      → r.status ≡ failed
      → (begin filled t k s).0 ≡ execute
  unfolding begin
  begin_failed t k s r h f = elim (get_same t.first k s r h) [
    | inl gone ↦
        rw gone (found_none t k _ (get-Distinct t.first k s h.distinct) (get_gone t.first k s gone))
    | inr hit ↦ rw hit (found_failed t k _ r (get-Distinct t.first k s h.distinct) f)
  ]
