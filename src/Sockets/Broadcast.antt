-- ===== src/Sockets/Broadcast.antt =====
-- app/core/websocket_manager.py: broadcasts, with connects and disconnects between their pieces.
use application_workflow_ser.Base.{
  ◌+◌, ◌≡◌, refl, sym, ◌∙◌, ap, String, Bool, true, false, ◌||◌, Option, none, some, List, [], ◌∷◌,
  ◌++◌, str_eq, keep, length, if◌then◌else◌, arith, eq_iff, inl, inr, Bool-cases,
}
use application_workflow_ser.Base.Dict
use application_workflow_ser.Base.Dict.{get-put}
use application_workflow_ser.Sockets.{
  Manager, new_manager, member, sockets_of, connect, disconnect, Message, Cast, begin_broadcast,
  send_from, send_next, drop_from, drop_next,
}
use application_workflow_ser.Sockets.Ownership.{
  Owned, connect-Owned, disconnect-Owned, disconnect-user,
}

pub data Step (m : Manager) : Manager → Type 0 where
  -- A new socket of a user with a name.
  joins :
      (ws user : String)
      → Dict.get m.websocket_to_user ws ≡ none
      → str_eq user "" ≡ false
      → Step m (connect ws user m)
  leaves : (ws : String) → Step m (disconnect ws m)
  -- A piece of a broadcast that changes the maps.
  drops : (b : Cast) → Step m (drop_next b m).1

pub data Reach : Manager → Type 0 where
  start : Reach new_manager
  later : {m n : Manager} → Reach m → Step m n → Reach n

drop_from-Owned : (b : Cast) (l : List String) (m : Manager) → Owned m → Owned (drop_from b l m).1
unfolding drop_from
drop_from-Owned b [] m o = o
drop_from-Owned b (ws ∷ rest) m o = disconnect-Owned ws m o

step-Owned : (m n : Manager) → Step m n → Owned m → Owned n
step-Owned m n (joins ws user fresh name) o = connect-Owned ws user m fresh name o
step-Owned m n (leaves ws) o = disconnect-Owned ws m o
step-Owned m n (drops b) o = unfold drop_next in drop_from-Owned b b.disconnected m o

-- After any calls of connect with new sockets of named users and of disconnect, and any pieces of
-- broadcasts, in any order, a socket stands in the set of the user that it maps to and in no other.
pub reach-Owned : (m : Manager) → Reach m → Owned m
unfolding Dict.get sockets_of member
reach-Owned m start = record { listed = λ ws user h. cc; owned = λ ws user h. cc }
reach-Owned m (later {m = k} before step) = step-Owned k m step (reach-Owned k before)

member-last : (x y : String) (l : List String) → member x (l ++ y ∷ []) ≡ (member x l || str_eq x y)
unfolding member
member-last x y [] = ground arith
member-last x y (z ∷ l) = ground (arith, member-last x y l)

connect-user :
    (ws u j : String) (m : Manager)
    → Dict.get (connect ws u m).websocket_to_user j
      ≡ (if str_eq ws j then some u else Dict.get m.websocket_to_user j)
unfolding connect
connect-user ws u j m = get-put m.websocket_to_user ws u j

-- A broadcast to a user that began at m0, and the manager meanwhile. Others connect and disconnect
-- between its pieces; a socket that was there at the beginning does not connect again.
module _ (up : String → Bool) (user : String) (message : Message) (m0 : Manager) where
  pub data Casting : Cast → Manager → Type 0 where
    begun : Casting (begin_broadcast user message m0) m0
    sends : {b : Cast} {m : Manager} → Casting b m → Casting (send_next up b) m
    cleans :
        {b : Cast} {m : Manager}
        → Casting b m
        → b.todo ≡ []
        → Casting (drop_next b m).0 (drop_next b m).1
    others_join :
        {b : Cast} {m : Manager} (ws u : String)
        → Casting b m
        → member ws (sockets_of m0 user) ≡ false
        → Dict.get m.websocket_to_user ws ≡ none
        → str_eq u "" ≡ false
        → Casting b (connect ws u m)
    others_leave :
        {b : Cast} {m : Manager} (ws : String) → Casting b m → Casting b (disconnect ws m)

  abbrev is_none : Option String → Bool
  is_none none = true
  is_none (some u) = false

  -- A socket that the broadcast began with and that does not take the message is still to do, or is
  -- to be disconnected, or is gone.
  abbrev Handled : Cast → Manager → Type 0
  Handled b m =
      (b.sent_count + length (keep up b.todo) ≡ length (keep up (sockets_of m0 user)))
      × ((x : String)
          → member x (sockets_of m0 user) ≡ true
          → up x ≡ false
          → (member x b.todo
              || (member x b.disconnected || is_none (Dict.get m.websocket_to_user x)))
            ≡ true)

  send_from-Handled :
      (b : Cast) (l : List String) (m : Manager)
      → Handled (record b { todo = l }) m
      → Handled (send_from up b l) m
  unfolding send_from keep member
  send_from-Handled b [] m h = h
  send_from-Handled b (ws ∷ rest) m (n, h) = elim (Bool-cases (up ws)) [
    | inl takes ↦
        rw takes (ground (arith, n, takes), λ x i d. ground (arith, h x i d, eq_iff x ws, takes, d))
    | inr fails ↦ rw fails (
      ground (arith, n, fails),
      λ x i d. ground (arith, h x i d, member-last x ws b.disconnected),
    )
  ]

  drop_from-Handled :
      (b : Cast) (l : List String) (m : Manager)
      → Handled (record b { disconnected = l }) m
      → b.todo ≡ []
      → Handled (drop_from b l m).0 (drop_from b l m).1
  unfolding drop_from member
  drop_from-Handled b [] m h empty = h
  drop_from-Handled b (ws ∷ rest) m (n, h) empty =
      (n, λ x i d. ground (arith, h x i d, disconnect-user ws x m, eq_iff x ws, eq_iff ws x))

  casting-Handled : (b : Cast) (m : Manager) → Casting b m → Handled b m
  unfolding begin_broadcast send_next drop_next
  casting-Handled b m begun = (omega arith, λ x i d. rw i refl)
  casting-Handled b m (sends {b = c} k) = send_from-Handled c c.todo m (casting-Handled c m k)
  casting-Handled b m (cleans {b = c} {m = n} k empty) =
      drop_from-Handled c c.disconnected n (casting-Handled c n k) empty
  casting-Handled b m (others_join {m = n} ws u k new fresh name) =
      let (c, h) = casting-Handled b n k in
      (c, λ x i d. ground (arith, h x i d, connect-user ws u x n, eq_iff ws x, new, i))
  casting-Handled b m (others_leave {m = n} ws k) =
      let (c, h) = casting-Handled b n k in
      (c, λ x i d. ground (arith, h x i d, disconnect-user ws x n))

  casting-Owned : (b : Cast) (m : Manager) → Owned m0 → Casting b m → Owned m
  unfolding drop_next
  casting-Owned b m o begun = o
  casting-Owned b m o (sends {b = c} k) = casting-Owned c m o k
  casting-Owned b m o (cleans {b = c} {m = n} k empty) =
      drop_from-Owned c c.disconnected n (casting-Owned c n o k)
  casting-Owned b m o (others_join {m = n} ws u k new fresh name) =
      connect-Owned ws u n fresh name (casting-Owned b n o k)
  casting-Owned b m o (others_leave {m = n} ws k) = disconnect-Owned ws n (casting-Owned b n o k)

  none_left : (o : Option String) → is_none o ≡ true → o ≡ none
  none_left none h = refl
  none_left (some u) h = cc

  in_no_set :
      (m : Manager) (x u : String)
      → Owned m
      → Dict.get m.websocket_to_user x ≡ none
      → member x (sockets_of m u) ≡ false
  in_no_set m x u o h = ground (arith, o.owned x u, h)

  done_all :
      (b : Cast) (m : Manager) (x : String)
      → b.todo ≡ []
      → b.disconnected ≡ []
      → (member x b.todo || (member x b.disconnected || is_none (Dict.get m.websocket_to_user x)))
        ≡ true
      → Dict.get m.websocket_to_user x ≡ none
  unfolding member
  done_all b m x sent cleaned h = none_left (Dict.get m.websocket_to_user x) (
      ap (λ t. member x [] || (member x t || is_none (Dict.get m.websocket_to_user x)))
        (sym cleaned)
      ∙ ap
          (λ t. member x t || (member x b.disconnected || is_none (Dict.get m.websocket_to_user x)))
          (sym sent)
      ∙ h)

  counted :
      (b : Cast)
      → b.todo ≡ []
      → b.sent_count + length (keep up b.todo) ≡ length (keep up (sockets_of m0 user))
      → b.sent_count ≡ length (keep up (sockets_of m0 user))
  unfolding keep
  counted b sent h =
      let e : b.sent_count ≡ b.sent_count + length (keep up []) = omega arith in
      e ∙ ap (λ t. b.sent_count + length (keep up t)) (sym sent) ∙ h

  -- Take a broadcast that began in a state that connects of new sockets of named users, disconnects
  -- and pieces of broadcasts lead to. Between its own pieces there may be connects, of sockets that are
  -- not registered and were not the user's at the beginning, and disconnects, those of other broadcasts
  -- too. At its end the count is the number of the sockets that the user had at the beginning and that
  -- took the message, and each of these sockets that did not take it is registered no more and stands
  -- in no user's set.
  pub casting-reached :
      (b : Cast) (m : Manager)
      → Reach m0
      → Casting b m
      → b.todo ≡ []
      → b.disconnected ≡ []
      → (b.sent_count ≡ length (keep up (sockets_of m0 user)))
        × ((x : String)
            → member x (sockets_of m0 user) ≡ true
            → up x ≡ false
            → (Dict.get m.websocket_to_user x ≡ none)
              × ((u : String) → member x (sockets_of m u) ≡ false))
  casting-reached b m r k sent cleaned =
      let (count, handled) = casting-Handled b m k in
      let o = casting-Owned b m (reach-Owned m0 r) k in
      (
        counted b sent count,
        λ x i d.
            let away = done_all b m x sent cleaned (handled x i d) in
            (away, λ u. in_no_set m x u o away),
      )
