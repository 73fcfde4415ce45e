-- ===== src/Idempotency/Kept.antt =====
-- app/core/idempotency.py: what the calls leave of a record that has not expired.
use application_workflow_ser.Base.{
  ℕ, ◌+◌, ◌≤◌, ◌≡◌, ◌≢◌, refl, ◌∙◌, String, not, Option, none, some, arith, ltb, if◌then◌else◌, inl,
  inr, Bool-cases, Option-cases, eq_iff, keep,
}
use application_workflow_ser.Base.Dict
use application_workflow_ser.Base.Dict.{
  Dict, Distinct, get-put, get-del, get-keep, put-Distinct, del-Distinct, keep-Distinct,
}
use application_workflow_ser.Base.Sweep.{del_all-keep}
use application_workflow_ser.Idempotency.{
  IdempotencyRecord, IdempotencyStore, Readings, cleanup_expired, fetched, get, put_pending,
  set_pending, new_record,
}

-- No clock reading of a call that counts for a record's age is later than a time.
abbrev pub By : ℕ → Readings → Type 0
By x t = (t.cutoff_at ≤ x) × (t.age_at ≤ x)

module _ {R : Type 0} where
  -- A store with a record under a key, and no key twice.
  pub record Holds (s : IdempotencyStore R) (k : String) (r : IdempotencyRecord R) : Type 0 where
    pub distinct : Distinct s.store
    pub there : Dict.get s.store k ≡ some r

  pub swept_store :
      (t : Readings) (s : IdempotencyStore R)
      → Distinct s.store
      → (cleanup_expired t s).store ≡ (
          if ltb t.tick (s.last_cleanup + s.cleanup_interval)
          then s.store
          else keep (λ e. not (ltb (e.1.created_at + s.ttl) t.cutoff_at)) s.store)
  unfolding cleanup_expired
  swept_store t s u = elim (Bool-cases (ltb t.tick (s.last_cleanup + s.cleanup_interval))) [
    | inl soon ↦ rw soon refl
    | inr due ↦ rw due (del_all-keep (λ e. ltb (e.1.created_at + s.ttl) t.cutoff_at) s.store u)
  ]

  pub cleanup-Distinct :
      (t : Readings) (s : IdempotencyStore R)
      → Distinct s.store
      → Distinct (cleanup_expired t s).store
  cleanup-Distinct t s u =
      rw (swept_store t s u) (elim (Bool-cases (ltb t.tick (s.last_cleanup + s.cleanup_interval))) [
        | inl soon ↦ rw soon u
        | inr due ↦ rw due (keep-Distinct _ s.store u)
      ])

  pub cleanup-ttl : (t : Readings) (s : IdempotencyStore R) → (cleanup_expired t s).ttl ≡ s.ttl
  unfolding cleanup_expired
  cleanup-ttl t s = ground arith

  cleanup-Holds :
      (t : Readings) (s : IdempotencyStore R) (j : String) (r : IdempotencyRecord R)
      → t.cutoff_at ≤ r.created_at + s.ttl
      → Holds s j r
      → Holds (cleanup_expired t s) j r
  cleanup-Holds t s j r b h = record {
    distinct = cleanup-Distinct t s h.distinct;
    there =
        rw (swept_store t s h.distinct)
          (elim (Bool-cases (ltb t.tick (s.last_cleanup + s.cleanup_interval))) [
            | inl soon ↦ rw soon h.there
            | inr due ↦ rw due (rw (get-keep _ s.store j r h.distinct h.there) (ground arith))
          ]);
  }

  fetched-Distinct :
      (at : ℕ) (key : String) (s : IdempotencyStore R) (o : Option (IdempotencyRecord R))
      → Distinct s.store
      → Distinct (fetched at key s o).1.store
  unfolding fetched
  fetched-Distinct at key s none u = u
  fetched-Distinct at key s (some r) u = elim (Bool-cases (ltb (r.created_at + s.ttl) at)) [
    | inl old ↦ rw old (del-Distinct s.store key u)
    | inr live ↦ rw live u
  ]

  pub get-Distinct :
      (t : Readings) (key : String) (s : IdempotencyStore R)
      → Distinct s.store
      → Distinct (get t key s).1.store
  unfolding get
  get-Distinct t key s u =
      fetched-Distinct t.age_at key _ (Dict.get (cleanup_expired t s).store key)
        (cleanup-Distinct t s u)

  fetched-Holds :
      (at : ℕ) (key j : String) (s : IdempotencyStore R) (r : IdempotencyRecord R)
      → at ≤ r.created_at + s.ttl
      → Holds s j r
      → Holds (fetched at key s (Dict.get s.store key)).1 j r
  unfolding fetched
  fetched-Holds at key j s r b h = elim (Option-cases (Dict.get s.store key)) [
    | inl miss ↦ rw miss h
    | inr (r', hit) ↦ rw hit (elim (Bool-cases (ltb (r'.created_at + s.ttl) at)) [
      | inl old ↦ rw old record {
        distinct = del-Distinct s.store key h.distinct;
        there = rw get-del (ground (arith, eq_iff key j, hit, h.there));
      }
      | inr live ↦ rw live h
    ])
  ]

  fetched_self :
      (at : ℕ) (j : String) (s : IdempotencyStore R) (r : IdempotencyRecord R)
      → at ≤ r.created_at + s.ttl
      → Holds s j r
      → (fetched at j s (Dict.get s.store j)).0 ≡ some r
  unfolding fetched
  fetched_self at j s r b h = rw h.there (ground arith)

  -- `get` of any key keeps a record that has not expired, and finds it under its own key.
  pub get-Holds :
      (t : Readings) (key j : String) (s : IdempotencyStore R) (r : IdempotencyRecord R)
      → By (r.created_at + s.ttl) t
      → Holds s j r
      → Holds (get t key s).1 j r
  unfolding get
  get-Holds t key j s r b h =
      fetched-Holds t.age_at key j (cleanup_expired t s) r (rw (cleanup-ttl t s) b.1)
        (cleanup-Holds t s j r b.0 h)

  pub get_self :
      (t : Readings) (j : String) (s : IdempotencyStore R) (r : IdempotencyRecord R)
      → By (r.created_at + s.ttl) t
      → Holds s j r
      → (get t j s).0 ≡ some r
  unfolding get
  get_self t j s r b h =
      fetched_self t.age_at j (cleanup_expired t s) r (rw (cleanup-ttl t s) b.1)
        (cleanup-Holds t s j r b.0 h)

  fetched-ttl :
      (at : ℕ) (key : String) (s : IdempotencyStore R) (o : Option (IdempotencyRecord R))
      → (fetched at key s o).1.ttl ≡ s.ttl
  unfolding fetched
  fetched-ttl at key s o = ground arith

  pub get-ttl : (t : Readings) (key : String) (s : IdempotencyStore R) → (get t key s).1.ttl ≡ s.ttl
  unfolding get
  get-ttl t key s = fetched-ttl t.age_at key _ _ ∙ cleanup-ttl t s

  put-Holds :
      (s : IdempotencyStore R) (k j : String) (v r : IdempotencyRecord R)
      → k ≢ j
      → Holds s j r
      → Holds (record s { store = Dict.put s.store k v }) j r
  put-Holds s k j v r n h = record {
    distinct = put-Distinct s.store k v h.distinct;
    there = rw get-put (ground (arith, eq_iff k j, n, h.there));
  }

  put_pending-Holds :
      (now : ℕ) (k j : String) (o : Option (IdempotencyRecord R)) (s : IdempotencyStore R)
      (r : IdempotencyRecord R)
      → ((k ≡ j) → o ≡ some r)
      → Holds s j r
      → Holds (put_pending now k (o, s)).1 j r
  unfolding put_pending
  put_pending-Holds now k j (some q) s r e h = h
  put_pending-Holds now k j none s r e h =
      put-Holds s k j (new_record now) r (λ same. ground (arith, e same)) h

  -- Claiming a key keeps a record that has not expired, and fails under its own key.
  pub set_pending-Holds :
      (t : Readings) (now : ℕ) (k j : String) (s : IdempotencyStore R) (r : IdempotencyRecord R)
      → By (r.created_at + s.ttl) t
      → Holds s j r
      → Holds (set_pending t now k s).1 j r
  unfolding set_pending
  set_pending-Holds t now k j s r b h =
      put_pending-Holds now k j (get t k s).0 (get t k s).1 r
        (λ same. rw same (get_self t j s r b h)) (get-Holds t k j s r b h)
