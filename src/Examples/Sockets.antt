-- ===== src/Examples/Sockets.antt =====
-- The connection manager with two users.
use application_workflow_ser.Base.{
  ◌≡◌, refl, String, Bool, true, false, [], ◌∷◌, str_eq, keep, length, none, some, if◌then◌else◌,
}
use application_workflow_ser.Base.Dict
use application_workflow_ser.Sockets.{
  Manager, new_manager, member, discard, sockets_of, connect, stored, leave, disconnect, total,
  get_connection_count, Message, status_update, Cast, begin_broadcast, send_from, send_next,
  drop_from, drop_next,
}
use application_workflow_ser.Sockets.Ownership.{Owned}
use application_workflow_ser.Sockets.Broadcast.{
  Reach, start, later, joins, reach-Owned, Casting, begun, sends, cleans, others_join,
  casting-reached,
}

program : Unit {0}
unfolding Dict.get Dict.put Dict.del member discard sockets_of connect stored leave disconnect total
    get_connection_count begin_broadcast send_from send_next drop_from drop_next keep
program = tt

abbrev m3 : Manager
m3 = connect "s3" "v" (connect "s2" "u" (connect "s1" "u" new_manager))

-- "s1" is gone.
abbrev up : String → Bool
up ws = if str_eq ws "s1" then false else true

abbrev news : Message
news = status_update "a" "success" none none

-- The broadcast to "u", with a new socket of "u" after the first send.
abbrev b0 : Cast
b0 = begin_broadcast "u" news m3

abbrev m4 : Manager
m4 = connect "s4" "u" m3

abbrev b2 : Cast
b2 = send_next up (send_next up b0)

abbrev b3 : Cast
b3 = (drop_next b2 m4).0

abbrev m5 : Manager
m5 = (drop_next b2 m4).1

counts :
    (b3.sent_count ≡ 1)
    × (get_connection_count (some "u") m5 ≡ 2)
    × (get_connection_count none m5 ≡ 3)
unfolding program
counts = (refl, refl, refl)

leave_runs : (disconnect "s2" (disconnect "s1" m3)).connections ≡ ("v", "s3" ∷ []) ∷ []
unfolding program
leave_runs = refl

m3-Reach : Reach m3
unfolding program
m3-Reach =
    later (later (later start (joins "s1" "u" refl refl)) (joins "s2" "u" refl refl))
      (joins "s3" "v" refl refl)

reach-Owned_example : Owned m3
reach-Owned_example = reach-Owned m3 m3-Reach

path_m5 : Casting up "u" news m3 b3 m5
unfolding program
path_m5 = cleans (sends (others_join "s4" "u" (sends begun) refl refl refl)) refl

casting-reached_example :
    (b3.sent_count ≡ length (keep up (sockets_of m3 "u")))
    × ((x : String)
        → member x (sockets_of m3 "u") ≡ true
        → up x ≡ false
        → (Dict.get m5.websocket_to_user x ≡ none)
          × ((u : String) → member x (sockets_of m5 u) ≡ false))
casting-reached_example =
    casting-reached up "u" news m3 b3 m5 m3-Reach path_m5 (unfold program in refl)
      (unfold program in refl)
