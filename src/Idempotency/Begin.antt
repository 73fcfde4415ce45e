-- ===== src/Idempotency/Begin.antt =====
-- app/core/idempotency.py: the wrapper up to the call of the function.
use application_workflow_ser.Base.{
  ℕ, ◌+◌, ◌≡◌, ◌≢◌, refl, String, Bool, true, false, Option, none, some, arith, inl, inr,
  Bool-cases, eq_iff, eq_refl,
}
use application_workflow_ser.Base.Dict
use application_workflow_ser.Base.Dict.{
  Dict, Distinct, get-put, get-del, put-Distinct, del-Distinct,
}
use application_workflow_ser.Idempotency.{
  is_pending, is_failed, IdempotencyRecord, IdempotencyStore, BeginTimes, Begun, execute, duplicate,
  get, put_pending, set_pending, delete, new_record, begin, begin_found, started, claim, replayable,
  replay_or,
}
use application_workflow_ser.Idempotency.Kept.{
  By, Holds, get-Holds, get_self, get-ttl, get-Distinct, set_pending-Holds,
}

module _ {R : Type 0} (filled : R → Bool) where
  abbrev pub Both : ℕ → BeginTimes → Type 0
  Both x t = By x t.first × By x t.second

  started-state : (p : Bool × IdempotencyStore R) → (started filled p).1 ≡ p.1
  started-state (true, s) = refl
  started-state (false, s) = refl

  claim-Holds :
      (t : BeginTimes) (k j : String) (s : IdempotencyStore R) (r : IdempotencyRecord R)
      → By (r.created_at + s.ttl) t.second
      → Holds s j r
      → Holds (claim filled t k s).1 j r
  claim-Holds t k j s r b h =
      rw (started-state (set_pending t.second t.create_at k s))
        (set_pending-Holds t.second t.create_at k j s r b h)

  delete-Holds :
      (k j : String) (s : IdempotencyStore R) (r : IdempotencyRecord R)
      → k ≢ j
      → Holds s j r
      → Holds (delete k s) j r
  unfolding delete
  delete-Holds k j s r n h = record {
    distinct = del-Distinct s.store k h.distinct;
    there = rw get-del (ground (arith, eq_iff k j, n, h.there));
  }

  replay_or-state :
      (o : Option R) (c : Begun R × IdempotencyStore R) (s : IdempotencyStore R)
      (P : IdempotencyStore R → Type 0)
      → P c.1
      → P s
      → P (replay_or filled o c s).1
  replay_or-state none c s P p q = p
  replay_or-state (some b) c s P p q = q

  found-Holds :
      (t : BeginTimes) (k j : String) (o : Option (IdempotencyRecord R)) (s : IdempotencyStore R)
      (r : IdempotencyRecord R)
      → is_pending r.status ≡ true
      → ((k ≡ j) → o ≡ some r)
      → By (r.created_at + s.ttl) t.second
      → Holds s j r
      → Holds (begin_found filled t k (o, s)).1 j r
  unfolding begin_found
  found-Holds t k j none s r p e b h = claim-Holds t k j s r b h
  found-Holds t k j (some q) s r p e b h = elim (Bool-cases (is_pending q.status)) [
    | inl busy ↦ rw busy h
    | inr idle ↦ rw idle (
        let other : k ≢ j = λ same. ground (arith, e same) in
        replay_or-state (replayable filled q) _ s (λ x. Holds x j r)
          (elim (Bool-cases (is_failed q.status)) [
            | inl bad ↦ rw bad (
                claim-Holds t k j (delete k s) r (unfold delete in b)
                  (delete-Holds k j s r other h))
            | inr good ↦ rw good (claim-Holds t k j s r b h)
          ])
          h)
  ]

  -- Beginning a request under any key keeps a pending record that has not expired.
  pub begin-Holds :
      (t : BeginTimes) (k j : String) (s : IdempotencyStore R) (r : IdempotencyRecord R)
      → is_pending r.status ≡ true
      → Both (r.created_at + s.ttl) t
      → Holds s j r
      → Holds (begin filled t k s).1 j r
  unfolding begin
  begin-Holds t k j s r p b h =
      found-Holds t k j (get t.first k s).0 (get t.first k s).1 r p
        (λ same. rw same (get_self t.first j s r b.0 h)) (rw (get-ttl t.first k s) b.1)
        (get-Holds t.first k j s r b.0 h)

  found_pending :
      (t : BeginTimes) (k : String) (s : IdempotencyStore R) (r : IdempotencyRecord R)
      → is_pending r.status ≡ true
      → (begin_found filled t k (some r, s)).0 ≡ duplicate
  unfolding begin_found
  found_pending t k s r p = rw p refl

  -- Under its own key the request is refused.
  pub begin_pending :
      (t : BeginTimes) (k : String) (s : IdempotencyStore R) (r : IdempotencyRecord R)
      → is_pending r.status ≡ true
      → By (r.created_at + s.ttl) t.first
      → Holds s k r
      → (begin filled t k s).0 ≡ duplicate
  unfolding begin
  begin_pending t k s r p b h =
      rw (get_self t.first k s r b h) (found_pending t k (get t.first k s).1 r p)

  -- A request that may run has a new pending record.
  put_new :
      (now : ℕ) (k : String) (o : Option (IdempotencyRecord R)) (s : IdempotencyStore R)
      → (started filled (put_pending now k (o, s))).0 ≡ execute
      → Dict.get (started filled (put_pending now k (o, s))).1.store k ≡ some (new_record now)
  unfolding put_pending
  put_new now k none s e = rw get-put (rw (eq_refl k) refl)
  put_new now k (some r) s e = cc

  claim_new :
      (t : BeginTimes) (k : String) (s : IdempotencyStore R)
      → (claim filled t k s).0 ≡ execute
      → Dict.get (claim filled t k s).1.store k ≡ some (new_record t.create_at)
  unfolding set_pending
  claim_new t k s e = put_new t.create_at k (get t.second k s).0 (get t.second k s).1 e

  New : BeginTimes → String → Begun R × IdempotencyStore R → Type 0
  New t k c = c.0 ≡ execute → Dict.get c.1.store k ≡ some (new_record t.create_at)

  replay_or-New :
      (t : BeginTimes) (k : String) (o : Option R) (c : Begun R × IdempotencyStore R)
      (s : IdempotencyStore R)
      → New t k c
      → New t k (replay_or filled o c s)
  unfolding New
  replay_or-New t k none c s n = n
  replay_or-New t k (some b) c s n = λ e. cc

  found-New :
      (t : BeginTimes) (k : String) (o : Option (IdempotencyRecord R)) (s : IdempotencyStore R)
      → New t k (begin_found filled t k (o, s))
  unfolding begin_found
  found-New t k none s = unfold New in claim_new t k s
  found-New t k (some q) s = elim (Bool-cases (is_pending q.status)) [
    | inl busy ↦ rw busy (unfold New in λ e. cc)
    | inr idle ↦
        rw idle (replay_or-New t k (replayable filled q) _ s (unfold New in claim_new t k _))
  ]

  pub begin_new :
      (t : BeginTimes) (k : String) (s : IdempotencyStore R)
      → (begin filled t k s).0 ≡ execute
      → Dict.get (begin filled t k s).1.store k ≡ some (new_record t.create_at)
  unfolding begin
  begin_new t k s = unfold New in found-New t k (get t.first k s).0 (get t.first k s).1

  put_pending-Distinct :
      (now : ℕ) (k : String) (o : Option (IdempotencyRecord R)) (s : IdempotencyStore R)
      → Distinct s.store
      → Distinct (put_pending now k (o, s)).1.store
  unfolding put_pending
  put_pending-Distinct now k none s u = put-Distinct s.store k (new_record now) u
  put_pending-Distinct now k (some r) s u = u

  claim-Distinct :
      (t : BeginTimes) (k : String) (s : IdempotencyStore R)
      → Distinct s.store
      → Distinct (claim filled t k s).1.store
  unfolding set_pending
  claim-Distinct t k s u =
      rw (started-state (put_pending t.create_at k (get t.second k s)))
        (put_pending-Distinct t.create_at k _ _ (get-Distinct t.second k s u))

  found-Distinct :
      (t : BeginTimes) (k : String) (o : Option (IdempotencyRecord R)) (s : IdempotencyStore R)
      → Distinct s.store
      → Distinct (begin_found filled t k (o, s)).1.store
  unfolding begin_found
  found-Distinct t k none s u = claim-Distinct t k s u
  found-Distinct t k (some q) s u = elim (Bool-cases (is_pending q.status)) [
    | inl busy ↦ rw busy u
    | inr idle ↦ rw idle (
        replay_or-state (replayable filled q) _ s (λ x. Distinct x.store)
          (elim (Bool-cases (is_failed q.status)) [
            | inl bad ↦
                rw bad (claim-Distinct t k (delete k s) (unfold delete in del-Distinct s.store k u))
            | inr good ↦ rw good (claim-Distinct t k s u)
          ])
          u)
  ]

  pub begin-Distinct :
      (t : BeginTimes) (k : String) (s : IdempotencyStore R)
      → Distinct s.store
      → Distinct (begin filled t k s).1.store
  unfolding begin
  begin-Distinct t k s u = found-Distinct t k _ _ (get-Distinct t.first k s u)
