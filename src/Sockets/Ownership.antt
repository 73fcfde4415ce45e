-- ===== src/Sockets/Ownership.antt =====
-- app/core/websocket_manager.py: the two maps of the connection manager agree.
use application_workflow_ser.Base.{
  ◌≡◌, refl, sym, ◌∙◌, String, true, false, not, ◌&&◌, ◌||◌, Option, none, some, List, [], ◌∷◌,
  ◌++◌, str_eq, keep, if◌then◌else◌, arith, eq_iff, inl, inr, Bool-cases, Option-cases,
}
use application_workflow_ser.Base.Dict
use application_workflow_ser.Base.Dict.{Dict, get-put, get-del}
use application_workflow_ser.Sockets.{
  Manager, member, add, discard, set_of, sockets_of, connect, stored, leave, disconnect,
}

member-discard :
    (ws j : String) (s : List String) → member j (discard ws s) ≡ (member j s && not (str_eq ws j))
unfolding member discard keep
member-discard ws j [] = refl
member-discard ws j (x ∷ xs) =
    ground (arith, member-discard ws j xs, eq_iff ws j, eq_iff ws x, eq_iff j x)

member-append :
    (ws j : String) (s : List String) → member j (s ++ ws ∷ []) ≡ (member j s || str_eq j ws)
unfolding member
member-append ws j [] = ground arith
member-append ws j (x ∷ xs) = ground (arith, member-append ws j xs)

member-add : (ws j : String) (s : List String) → member j (add ws s) ≡ (member j s || str_eq j ws)
member-add ws j s = ground (arith, member-append ws j s, eq_iff j ws)

stored-set :
    (user u : String) (s : List String) (d : Dict (List String))
    → set_of (Dict.get (stored user s d) u) ≡ (if str_eq user u then s else set_of (Dict.get d u))
unfolding stored
stored-set user u [] d = rw get-del (ground (arith, eq_iff user u))
stored-set user u (x ∷ xs) d = rw get-put (ground (arith, eq_iff user u))

-- A socket stands in the set of its user, which has a name, and in no other.
pub record Owned (m : Manager) : Type 0 where
  pub listed :
      (ws user : String)
      → Dict.get m.websocket_to_user ws ≡ some user
      → (member ws (sockets_of m user) ≡ true) × (str_eq user "" ≡ false)
  pub owned :
      (ws user : String)
      → member ws (sockets_of m user) ≡ true
      → Dict.get m.websocket_to_user ws ≡ some user

connect-sockets :
    (ws user u : String) (m : Manager)
    → sockets_of (connect ws user m) u
      ≡ (if str_eq user u then add ws (sockets_of m user) else sockets_of m u)
unfolding connect sockets_of
connect-sockets ws user u m = rw get-put (ground arith)

connect-user :
    (ws user j : String) (m : Manager)
    → Dict.get (connect ws user m).websocket_to_user j
      ≡ (if str_eq ws j then some user else Dict.get m.websocket_to_user j)
unfolding connect
connect-user ws user j m = get-put m.websocket_to_user ws user j

pub connect-Owned :
    (ws user : String) (m : Manager)
    → Dict.get m.websocket_to_user ws ≡ none
    → str_eq user "" ≡ false
    → Owned m
    → Owned (connect ws user m)
connect-Owned ws user m fresh name o = record {
  listed = λ j u h. ground (
    arith,
    connect-user ws user j m,
    connect-sockets ws user u m,
    member-add ws j (sockets_of m user),
    o.listed j u,
    eq_iff ws j,
    eq_iff j ws,
    eq_iff user u,
    h,
    name,
  );
  owned = λ j u h. ground (
    arith,
    connect-user ws user j m,
    connect-sockets ws user u m,
    member-add ws j (sockets_of m user),
    o.owned j u,
    eq_iff ws j,
    eq_iff j ws,
    eq_iff user u,
    h,
    fresh,
  );
}

discard_absent : (ws : String) (s : List String) → member ws s ≡ false → discard ws s ≡ s
unfolding member discard keep
discard_absent ws [] h = refl
discard_absent ws (x ∷ xs) h = ground (arith, discard_absent ws xs)

leave-sockets :
    (ws user u : String) (m : Manager)
    → str_eq user "" ≡ false
    → member ws (sockets_of m user) ≡ true
    → sockets_of (leave ws (some user) m) u
      ≡ (if str_eq user u then discard ws (sockets_of m user) else sockets_of m u)
unfolding leave sockets_of
leave-sockets ws user u m name there =
    rw name (
      rw there
        (stored-set user u (discard ws (set_of (Dict.get m.connections user))) m.connections))

leave-user :
    (ws : String) (user : Option String) (m : Manager)
    → (leave ws user m).websocket_to_user ≡ m.websocket_to_user
unfolding leave
leave-user ws none m = refl
leave-user ws (some user) m = ground arith

-- The sockets of a user without one.
forgotten-sockets :
    (ws u : String) (m : Manager)
    → sockets_of (record m { websocket_to_user = Dict.del m.websocket_to_user ws }) u
      ≡ sockets_of m u
unfolding sockets_of
forgotten-sockets ws u m = refl

other_absent :
    (ws user u : String) (m : Manager)
    → Owned m
    → Dict.get m.websocket_to_user ws ≡ some user
    → str_eq user u ≡ false
    → member ws (sockets_of m u) ≡ false
other_absent ws user u m o h n = ground (arith, o.owned ws u, eq_iff user u, h, n)

none_absent :
    (ws u : String) (m : Manager)
    → Owned m
    → Dict.get m.websocket_to_user ws ≡ none
    → member ws (sockets_of m u) ≡ false
none_absent ws u m o h = ground (arith, o.owned ws u, h)

known-sockets :
    (ws user u : String) (m : Manager)
    → Owned m
    → Dict.get m.websocket_to_user ws ≡ some user
    → (if str_eq user u then discard ws (sockets_of m user) else sockets_of m u)
      ≡ discard ws (sockets_of m u)
known-sockets ws user u m o h = elim (Bool-cases (str_eq user u)) [
  | inl same ↦ rw same (rw ((eq_iff user u).0 same) refl)
  | inr other ↦
      rw other (sym (discard_absent ws (sockets_of m u) (other_absent ws user u m o h other)))
]

-- The sockets after a socket has left.
pub disconnect-sockets :
    (ws u : String) (m : Manager)
    → Owned m
    → sockets_of (disconnect ws m) u ≡ discard ws (sockets_of m u)
unfolding disconnect
disconnect-sockets ws u m o = elim (Option-cases (Dict.get m.websocket_to_user ws)) [
  | inl unknown ↦ rw unknown (
      unfold leave in
      forgotten-sockets ws u m
      ∙ sym (discard_absent ws (sockets_of m u) (none_absent ws u m o unknown)))
  | inr (user, hit) ↦
      let (there, name) = o.listed ws user hit in
      rw hit (
        leave-sockets ws user u _ name (rw (forgotten-sockets ws user m) there)
        ∙ known-sockets ws user u m o hit)
]

pub disconnect-user :
    (ws j : String) (m : Manager)
    → Dict.get (disconnect ws m).websocket_to_user j
      ≡ (if str_eq ws j then none else Dict.get m.websocket_to_user j)
unfolding disconnect
disconnect-user ws j m =
    rw (leave-user ws (Dict.get m.websocket_to_user ws) _) (get-del m.websocket_to_user ws j)

pub disconnect-Owned : (ws : String) (m : Manager) → Owned m → Owned (disconnect ws m)
disconnect-Owned ws m o = record {
  listed = λ j u h. ground (
    arith,
    disconnect-user ws j m,
    disconnect-sockets ws u m o,
    member-discard ws j (sockets_of m u),
    o.listed j u,
    h,
  );
  owned = λ j u h. ground (
    arith,
    disconnect-user ws j m,
    disconnect-sockets ws u m o,
    member-discard ws j (sockets_of m u),
    o.owned j u,
    h,
  );
}
