-- ===== src/Sockets.antt =====
-- app/core/websocket_manager.py: the connection manager. A socket is named by a text. A set of sockets is
-- the list of its members. What the outside does, accepting a socket and delivering a message to it,
-- is an argument. A broadcast is pieces: the copy of the set, a send for each socket, a disconnect for
-- each that failed.
pub mod Ownership
pub mod Broadcast
use application_workflow_ser.Base.{
  ℕ, ◌+◌, String, Bool, true, false, not, ◌&&◌, ◌||◌, Option, none, some, List, [], ◌∷◌, ◌++◌,
  str_eq, keep, length, map, if◌then◌else◌,
}
use application_workflow_ser.Base.Dict
use application_workflow_ser.Text.{Text}
use application_workflow_ser.Base.Dict.{Dict}

pub record Manager : Type 0 where
  pub connections : Dict (List String)
  pub websocket_to_user : Dict String

abbrev pub new_manager : Manager
new_manager = record { connections = []; websocket_to_user = [] }

-- `ws in s`
unfoldable pub member : String → List String → Bool
member ws [] = false
member ws (x ∷ xs) = str_eq ws x || member ws xs

abbrev pub add : String → List String → List String
add ws s = if member ws s then s else s ++ ws ∷ []

unfoldable pub discard : String → List String → List String
discard ws s = keep (λ x. not (str_eq ws x)) s

abbrev pub set_of : Option (List String) → List String
set_of none = []
set_of (some s) = s

-- `self._connections.get(user_id, set())`
unfoldable pub sockets_of : Manager → String → List String
sockets_of m user = set_of (Dict.get m.connections user)

-- `connect` after the handshake was accepted; the welcome message changes nothing.
unfoldable pub connect : String → String → Manager → Manager
unfolding sockets_of
connect ws user m = record {
  connections = Dict.put m.connections user (add ws (sockets_of m user));
  websocket_to_user = Dict.put m.websocket_to_user ws user;
}

-- `if not self._connections[user_id]: del self._connections[user_id]`
unfoldable pub stored : String → List String → Dict (List String) → Dict (List String)
stored user [] d = Dict.del d user
stored user (x ∷ xs) d = Dict.put d user (x ∷ xs)

-- The access `self._connections[user_id]` of a `defaultdict` makes the entry.
abbrev entered : String → Manager → Manager
entered user m = record m {
  connections = elim (Dict.get m.connections user) [
    | none ↦ Dict.put m.connections user []
    | some s ↦ m.connections
  ];
}

unfoldable pub leave : String → Option String → Manager → Manager
unfolding stored discard sockets_of
leave ws none m = m
leave ws (some user) m =
    let gone = stored user (discard ws (sockets_of m user)) m.connections in
    if str_eq user ""
    then m
    else if member ws (sockets_of m user)
    then record m { connections = gone }
    else entered user m

unfoldable pub disconnect : String → Manager → Manager
unfolding leave
disconnect ws m =
    leave ws (Dict.get m.websocket_to_user ws)
      (record m { websocket_to_user = Dict.del m.websocket_to_user ws })

-- `len(conns)` for the values of the map, added up.
unfoldable pub total : Dict (List String) → ℕ
total [] = 0
total ((user, s) ∷ d) = length s + total d

-- `get_connection_count`, where no user and the empty name count all, and `get_connected_users`.
unfoldable pub get_connection_count : Option String → Manager → ℕ
unfolding sockets_of total
get_connection_count none m = total m.connections
get_connection_count (some user) m =
    if str_eq user "" then total m.connections else length (sockets_of m user)

abbrev pub get_connected_users : Manager → List String
get_connected_users m = map (λ e. e.0) m.connections

-- The messages of `send_status_update` and `send_batch_update`, without their time stamps.
pub data Message : Type 0 where
  status_update : (application_id status : String) → Option ℕ → Option Text → Message
  batch_update : (batch_id status : String) (total processed failed : ℕ) → Message

-- A broadcast on its way: the sockets it has still to send to, the count, and those that failed.
pub record Cast : Type 0 where
  pub message : Message
  pub todo : List String
  pub sent_count : ℕ
  pub disconnected : List String

-- `broadcast_to_user` up to its first send.
unfoldable pub begin_broadcast : String → Message → Manager → Cast
unfolding sockets_of
begin_broadcast user message m = record {
  message = message;
  todo = sockets_of m user;
  sent_count = 0;
  disconnected = [];
}

-- One send. `up ws` says that the socket is connected and takes the message.
unfoldable pub send_from : (String → Bool) → Cast → List String → Cast
send_from up b [] = record b { todo = [] }
send_from up b (ws ∷ rest) =
    if up ws
    then record b { todo = rest; sent_count = b.sent_count + 1 }
    else record b { todo = rest; disconnected = b.disconnected ++ ws ∷ [] }

unfoldable pub send_next : (String → Bool) → Cast → Cast
unfolding send_from
send_next up b = send_from up b b.todo

-- After the sends, one disconnect of a socket that failed.
unfoldable pub drop_from : Cast → List String → Manager → Cast × Manager
unfolding disconnect
drop_from b [] m = (record b { disconnected = [] }, m)
drop_from b (ws ∷ rest) m = (record b { disconnected = rest }, disconnect ws m)

unfoldable pub drop_next : Cast → Manager → Cast × Manager
unfolding drop_from
drop_next b m = drop_from b b.disconnected m

-- `if error_reason: message["error_reason"] = error_reason`
abbrev pub given_reason : Option Text → Option Text
given_reason none = none
given_reason (some []) = none
given_reason (some (c ∷ s)) = some (c ∷ s)

-- Both go on as the broadcast that they begin.
unfoldable pub send_status_update :
    String → String → String → Option ℕ → Option Text → Manager → Cast
unfolding begin_broadcast
send_status_update user id status job_count error_reason =
    begin_broadcast user (status_update id status job_count (given_reason error_reason))

unfoldable pub send_batch_update : String → String → String → ℕ → ℕ → ℕ → Manager → Cast
unfolding begin_broadcast
send_batch_update user id status total processed failed =
    begin_broadcast user (batch_update id status total processed failed)
