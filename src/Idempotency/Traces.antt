-- ===== src/Idempotency/Traces.antt =====
-- app/core/idempotency.py: requests that interleave at the await of the wrapped function.
use application_workflow_ser.Base.{
  ◌⊎◌, ℕ, ◌+◌, ◌≡◌, ◌≢◌, refl, sym, ◌∙◌, String, Bool, true, some, arith, [], inl, inr, Bool-cases,
  Option-cases, eq_iff, str_eq,
}
use application_workflow_ser.Base.Dict
use application_workflow_ser.Base.Dict.{
  Dict, Distinct, get-put, get-del, put-Distinct, del-Distinct,
}
use application_workflow_ser.Text.{Text}
use application_workflow_ser.Errors.{Result, ok, raise}
use application_workflow_ser.Idempotency.{
  is_pending, IdempotencyRecord, IdempotencyStore, BeginTimes, Begun, execute, replay, duplicate,
  begin, finish, set_completed, set_failed, new_record,
}
use application_workflow_ser.Idempotency.Kept.{Holds}
use application_workflow_ser.Idempotency.Begin.{
  Both, begin-Holds, begin_pending, begin_new, begin-Distinct,
}

-- The store, and the executions that are under way: their keys, each with the time of its claim.
pub record Running (R : Type 0) : Type 0 where
  pub store : IdempotencyStore R
  pub executions : Dict ℕ

abbrev pub launched : {R : Type 0} → ℕ → String → Begun R → Dict ℕ → Dict ℕ
launched now k execute d = Dict.put d k now
launched now k _ d = d

abbrev pub empty_store : {R : Type 0} → ℕ → ℕ → ℕ → IdempotencyStore R
empty_store ttl interval now = record {
  store = [];
  ttl = ttl;
  cleanup_interval = interval;
  last_cleanup = now;
}

launched-cases :
    {R : Type 0} (now : ℕ) (k : String) (b : Begun R) (d : Dict ℕ) (j : String) (u : ℕ)
    → Dict.get (launched now k b d) j ≡ some u
    → (Dict.get d j ≡ some u) ⊎ ((b ≡ execute) × (k ≡ j) × (now ≡ u))
launched-cases now k execute d j u h = elim (Bool-cases (str_eq k j)) [
  | inl same ↦ inr (refl, (eq_iff k j).0 same, ground (arith, get-put d k now j, same, h))
  | inr other ↦ inl (ground (arith, get-put d k now j, other, h))
]
launched-cases now k (replay b) d j u h = inl h
launched-cases now k duplicate d j u h = inl h

module _ {A R : Type 0} (filled : R → Bool) (error_body : Text → R) (to_dict : A → R) where
  unfoldable pub begun : BeginTimes → String → Running R → Running R
  begun t k w =
      let (b, s) = begin filled t k w.store in
      record { store = s; executions = launched t.create_at k b w.executions }

  unfoldable pub finished : ℕ → String → Result A → Running R → Running R
  finished now k outcome w = record {
    store = (finish filled error_body to_dict now k outcome w.store).1;
    executions = Dict.del w.executions k;
  }

  -- The readings of a request come before any execution under way is older than the store's ttl.
  abbrev pub InTime : BeginTimes → Running R → Type 0
  InTime t w =
      (j : String) (u : ℕ) → Dict.get w.executions j ≡ some u → Both filled (u + w.store.ttl) t

  pub data Reach : Running R → Type 0 where
    start :
        (ttl interval now : ℕ)
        → Reach (record { store = empty_store ttl interval now; executions = [] })
    begins :
        (t : BeginTimes) (k : String) (w : Running R) → InTime t w → Reach w → Reach (begun t k w)
    finishes :
        (now : ℕ) (k : String) (u : ℕ) (outcome : Result A) (w : Running R)
        → Dict.get w.executions k ≡ some u
        → Reach w
        → Reach (finished now k outcome w)

  -- Every execution under way has its pending record.
  pub record Claimed (w : Running R) : Type 0 where
    pub distinct : Distinct w.store.store
    pub records :
        (j : String) (u : ℕ)
        → Dict.get w.executions j ≡ some u
        → (r : IdempotencyRecord R) × (is_pending r.status ≡ true)
          × (r.created_at ≡ u)
          × (Dict.get w.store.store j ≡ some r)

  RecordOf : (w : Running R) (j : String) (u : ℕ) → Type 0
  RecordOf w j u =
      (r : IdempotencyRecord R) × (is_pending r.status ≡ true)
      × (r.created_at ≡ u)
      × (Dict.get w.store.store j ≡ some r)

  begun-records :
      (t : BeginTimes) (k : String) (w : Running R)
      → InTime t w
      → Claimed w
      → (j : String) (u : ℕ) → Dict.get (begun t k w).executions j ≡ some u
      → RecordOf (begun t k w) j u
  unfolding begun RecordOf
  begun-records t k w i c j u h =
      elim (launched-cases t.create_at k (begin filled t k w.store).0 w.executions j u h) [
        | inl old ↦
            let (r, p, e, g) = c.records j u old in
            let in_time : Both filled (r.created_at + w.store.ttl) t = rw e (i j u old) in
            (
              r,
              p,
              e,
              (begin-Holds filled t k j w.store r p in_time
                  record { distinct = c.distinct; there = g }).there,
            )
        | inr (new, same, at) ↦
            (new_record t.create_at, refl, at, rw (sym same) (begin_new filled t k w.store new))
      ]

  begun-Claimed :
      (t : BeginTimes) (k : String) (w : Running R) → InTime t w → Claimed w → Claimed (begun t k w)
  begun-Claimed t k w i c = record {
    distinct = unfold begun in begin-Distinct filled t k w.store c.distinct;
    records = λ j u h. unfold RecordOf in begun-records t k w i c j u h;
  }

  finish-Distinct :
      (now : ℕ) (k : String) (outcome : Result A) (s : IdempotencyStore R)
      → Distinct s.store
      → Distinct (finish filled error_body to_dict now k outcome s).1.store
  unfolding finish set_completed set_failed
  finish-Distinct now k (ok a) s u = put-Distinct s.store k _ u
  finish-Distinct now k (raise e) s u = elim (Option-cases (Dict.get s.store k)) [
    | inl miss ↦ rw miss u
    | inr (r, hit) ↦ rw hit (put-Distinct s.store k _ u)
  ]

  finish_other :
      (now : ℕ) (k j : String) (outcome : Result A) (s : IdempotencyStore R)
      → k ≢ j
      → Dict.get (finish filled error_body to_dict now k outcome s).1.store j ≡ Dict.get s.store j
  unfolding finish set_completed set_failed
  finish_other now k j (ok a) s n = rw get-put (ground (arith, eq_iff k j, n))
  finish_other now k j (raise e) s n = elim (Option-cases (Dict.get s.store k)) [
    | inl miss ↦ rw miss refl
    | inr (r, hit) ↦ rw hit (rw get-put (ground (arith, eq_iff k j, n)))
  ]

  finished-Claimed :
      (now : ℕ) (k : String) (outcome : Result A) (w : Running R)
      → Claimed w
      → Claimed (finished now k outcome w)
  unfolding finished
  finished-Claimed now k outcome w c = record {
    distinct = finish-Distinct now k outcome w.store c.distinct;
    records = λ j u h.
        let other : k ≢ j = λ same. ground (arith, get-del w.executions k j, eq_iff k j, h, same) in
        let (r, p, e, g) =
          c.records j u (ground (arith, get-del w.executions k j, eq_iff k j, h, other)) in
        (r, p, e, finish_other now k j outcome w.store other ∙ g);
  }

  reach-Claimed : (w : Running R) → Reach w → Claimed w
  unfolding Dict.get
  reach-Claimed w (start ttl interval now) = record { distinct = tt; records = λ j u h. cc }
  reach-Claimed w (begins t k w' i before) = begun-Claimed t k w' i (reach-Claimed w' before)
  reach-Claimed w (finishes now k u outcome w' h before) =
      finished-Claimed now k outcome w' (reach-Claimed w' before)

  -- However requests interleave, as long as no execution outlives the store's time to live, a request
  -- whose key has an execution under way is refused as a duplicate, and the execution keeps its
  -- record.
  pub begin-exclusive :
      (t : BeginTimes) (k : String) (w : Running R) (u : ℕ)
      → Reach w
      → InTime t w
      → Dict.get w.executions k ≡ some u
      → ((begin filled t k w.store).0 ≡ duplicate)
        × ((begun t k w).executions ≡ w.executions)
        × ((r : IdempotencyRecord R) × (is_pending r.status ≡ true)
            × (Dict.get (begun t k w).store.store k ≡ some r))
  unfolding begun
  begin-exclusive t k w u reach i h =
      let c = reach-Claimed w reach in
      let (r, p, e, g) = c.records k u h in
      let in_time : Both filled (r.created_at + w.store.ttl) t = rw e (i k u h) in
      let holds : Holds w.store k r = record { distinct = c.distinct; there = g } in
      let refused = begin_pending filled t k w.store r p in_time.0 holds in
      (refused, rw refused refl, (r, p, (begin-Holds filled t k k w.store r p in_time holds).there))
