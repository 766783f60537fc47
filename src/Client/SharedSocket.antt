-- ===== src/Client/SharedSocket.antt =====
-- src/shared-websocket.ts: the virtual sockets of the rooms over one physical socket.
pub mod Listeners
pub mod Branches
pub mod Kept
pub mod Steps
pub mod Idle
pub mod Runs
pub mod Asked
pub mod Views
pub mod Heard
pub mod Counts
pub mod Once
mod Examples
use vip_real_time_collaborat.Base.{
  ℕ, suc, ◌+◌, Bool, true, false, not, ◌&&◌, ◌||◌, Option, none, some, List, [], ◌∷◌, ◌++◌, ◌==◌,
  drop, length, if◌then◌else◌,
}
use vip_real_time_collaborat.Base.Text.{starts_with, Text, text}
use vip_real_time_collaborat.Base.Maps.{lookup, has, set, remove}
use vip_real_time_collaborat.Packages.{
  Lib0, Ws, ReadyState, connecting, opened, closing, closed, is_open,
}
use vip_real_time_collaborat.Auth.{strip_slashes, before_question, after_question}
use vip_real_time_collaborat.Protocol.Reader.{Result, ok, err}
use vip_real_time_collaborat.Protocol.{
  ProtocolMessage, subscribe, subscribed, room_data, unsubscribe, room_closed, encode_message,
  decode_message,
}

-- CONNECTING or OPEN.
abbrev pub is_active : ReadyState → Bool
is_active connecting = true
is_active opened = true
is_active closing = false
is_active closed = false

abbrev pub is_connecting : ReadyState → Bool
is_connecting connecting = true
is_connecting opened = false
is_connecting closing = false
is_connecting closed = false

-- parseRoomUrl: the grant and the room, or what it throws. `search_get` is the `auth` of a query.
unfoldable pub parse_room_url : (Text → Option Text) → Text → Text → Option (Text × Text)
unfolding strip_slashes before_question after_question
parse_room_url search_get value server_url =
    let room_prefix = strip_slashes server_url ++ text "/" in
    let remainder = drop (length room_prefix) value in
    let room = before_question remainder in
    let query : Text = elim (after_question remainder) [ none ↦ [] | some q ↦ q ] in
    if not (starts_with room_prefix value)
    then none
    else if length room == 0
    then none
    else elim (search_get query) [
      | none ↦ none
      | some grant ↦ if length grant == 0 then none else some (grant, room)
    ]

pub record SharedWebSocket : Type 0 where
  pub id : ℕ
  pub grant : Text
  pub ready : ReadyState

-- The current physical socket: the bytes given to `send`, and the codes of the calls of `close`, `none` for
-- no code.
pub record Physical : Type 0 where
  pub id : ℕ
  pub grant : Text
  pub ready : ReadyState
  pub sent : List (List ℕ)
  pub close_codes : List (Option ℕ)

-- A call of a virtual socket's callback; `from_room` is the mark of a room's own close event.
pub data Notice : Type 0 where
  on_open : ℕ → Notice
  on_message : ℕ → List ℕ → Notice
  on_error : ℕ → Notice
  on_close : ℕ → Option ℕ → (from_room : Bool) → Notice

-- `virtual_sockets` is the Map of registered sockets, `detached` those that a close of the physical socket
-- has taken out of it and that are not closed yet; any other socket is CLOSED. `faults` says what the next
-- sends do, `true` for one that throws (no entry: it succeeds). `notices` has the newest first.
pub record Shared : Type 0 where
  pub physical : Option Physical
  pub virtual_sockets : List (Text × SharedWebSocket)
  pub detached : List (Text × SharedWebSocket)
  pub next_id : ℕ
  pub faults : List Bool
  pub notices : List Notice

unfoldable pub new_shared : List Bool → Shared
new_shared faults = record {
  physical = none;
  virtual_sockets = [];
  detached = [];
  next_id = 0;
  faults = faults;
  notices = [];
}

unfoldable pub notify : Notice → Shared → Shared
notify n s = record s { notices = n ∷ s.notices }

abbrev pub with_ready : ReadyState → SharedWebSocket → SharedWebSocket
with_ready ready v = record v { ready = ready }

-- `socket.send` on the open physical socket, and whether it does not throw.
unfoldable pub physical_send : List ℕ → Physical → List Bool → Shared → Shared × Bool
physical_send bytes p [] s =
    (record s { physical = some (record p { sent = p.sent ++ bytes ∷ [] }) }, true)
physical_send bytes p (false ∷ faults) s =
    (record s { physical = some (record p { sent = p.sent ++ bytes ∷ [] }); faults = faults }, true)
physical_send bytes p (true ∷ faults) s = (record s { faults = faults }, false)

unfoldable pub open_physical_socket : Text → Shared → Shared
open_physical_socket grant s = record s {
  physical =
      some
        (record { id = s.next_id; grant = grant; ready = connecting; sent = []; close_codes = [] });
  next_id = suc s.next_id;
}

unfoldable pub register : Text → Text → Shared → Shared
unfolding set
register room grant s = record s {
  virtual_sockets =
      set room (record { id = s.next_id; grant = grant; ready = connecting }) s.virtual_sockets;
  next_id = suc s.next_id;
}

-- The readyState of a socket by its room and id.
unfoldable pub detached_ready : ℕ → List (Text × SharedWebSocket) → ReadyState
detached_ready id [] = closed
detached_ready id ((room, v) ∷ m) = if v.id == id then v.ready else detached_ready id m

abbrev pub registered_ready : ℕ → ReadyState → Option SharedWebSocket → ReadyState
registered_ready id otherwise none = otherwise
registered_ready id otherwise (some v) = if v.id == id then v.ready else otherwise

unfoldable pub ready_of : Text → ℕ → Shared → ReadyState
unfolding lookup detached_ready
ready_of room id s =
    registered_ready id (detached_ready id s.detached) (lookup room s.virtual_sockets)

-- A socket is no longer detached.
unfoldable pub without_socket : ℕ → List (Text × SharedWebSocket) → List (Text × SharedWebSocket)
without_socket id [] = []
without_socket id ((room, v) ∷ m) =
    let rest = without_socket id m in if v.id == id then rest else (room, v) ∷ rest

unfoldable pub removed_if :
    Text
    → ℕ
    → List (Text × SharedWebSocket)
    → Option SharedWebSocket
    → List (Text × SharedWebSocket)
unfolding remove
removed_if room id m none = m
removed_if room id m (some v) = if v.id == id then remove room m else m

-- `virtualSockets.delete( room )` if the room's socket is the one with the id; it becomes CLOSED.
unfoldable pub unregister : Text → ℕ → Shared → Shared
unfolding lookup removed_if without_socket
unregister room id s = record s {
  virtual_sockets = removed_if room id s.virtual_sockets (lookup room s.virtual_sockets);
  detached = without_socket id s.detached;
}

module _ (w : Ws) where
  abbrev pub closed_physical : Option ℕ → Physical → Physical
  closed_physical code p = record p {
    ready = w.after_close p.ready;
    close_codes = p.close_codes ++ code ∷ [];
  }

  unfoldable pub close_physical_socket_normally : Shared → Shared
  close_physical_socket_normally s = elim s.physical [
    | none ↦ s
    | some p ↦
        if is_active p.ready then record s { physical = some (closed_physical none p) } else s
  ]

  -- The `finally` of closeVirtualSocket.
  unfoldable pub finish_close : Bool → Shared → Shared
  unfolding close_physical_socket_normally
  finish_close unsubscribe_failed s =
      if unsubscribe_failed || length s.virtual_sockets == 0
      then close_physical_socket_normally s
      else s

module _ (l : Lib0) (w : Ws) where
  unfoldable pub send_physical_message : ProtocolMessage → Shared → Shared × Bool
  unfolding physical_send
  send_physical_message m s = elim s.physical [
    | none ↦ (s, true)
    | some p ↦
        if is_open p.ready
        then elim (encode_message l m) [
          | ok bytes ↦ physical_send bytes p s.faults s
          | err e ↦ (s, false)
        ]
        else (s, true)
  ]

  -- The constructor, on a room and grant from parseRoomUrl; it throws where the state comes with `false`.
  unfoldable pub construct : Text → Text → Shared → Shared × Bool
  unfolding has send_physical_message open_physical_socket register
  construct room grant s = elim (encode_message l (subscribe room grant)) [
    | err e ↦ (s, false)
    | ok bytes ↦ if has room s.virtual_sockets then (s, false) else elim s.physical [
      | none ↦ (register room grant (open_physical_socket grant s), true)
      | some p ↦
          let (s1, sent) = send_physical_message (subscribe room grant) s in
          if sent then (register room grant s1, true) else (s1, false)
    ]
  ]

  -- closeVirtualSocket on a socket that is not closing or closed. `reaction` is what its `onclose` does.
  unfoldable pub close_virtual_socket :
      (Shared → Shared) → Text → ℕ → Option ℕ → Bool → Bool → Shared → Shared
  unfolding unregister send_physical_message notify finish_close
  close_virtual_socket reaction room id code from_room send_unsubscribe s =
      let s1 = unregister room id s in
      let (s2, sent) =
        if send_unsubscribe then send_physical_message (unsubscribe room) s1 else (s1, true) in
      finish_close w (not sent) (reaction (notify (on_close id code from_room) s2))

  -- SharedWebSocket.close.
  unfoldable pub close : (Shared → Shared) → Text → ℕ → ℕ → Shared → Shared
  unfolding ready_of close_virtual_socket
  close reaction room id code s =
      if is_active (ready_of room id s)
      then close_virtual_socket reaction room id (some code) false true s
      else s

  -- SharedWebSocket.send of bytes, and whether it does not throw.
  unfoldable pub send : Text → ℕ → List ℕ → Shared → Shared × Bool
  unfolding ready_of send_physical_message close_physical_socket_normally
  send room id payload s =
      if not (is_open (ready_of room id s))
      then (s, false)
      else let (s1, sent) = send_physical_message (room_data room payload) s in
        if sent then (s1, true) else (close_physical_socket_normally w s1, false)

-- What a callback does before it returns: it makes sockets, sends on sockets, and closes sockets, whose
-- `onclose` does the same.
pub data Calls : Type 0 where
  returns : Calls
  constructs : Text → Text → Calls → Calls
  sends : Text → ℕ → List ℕ → Calls → Calls
  closes : Text → ℕ → ℕ → Calls → Calls → Calls

module _ (l : Lib0) (w : Ws) where
  unfoldable pub perform : Calls → Shared → Shared
  unfolding construct send close
  perform returns s = s
  perform (constructs room grant rest) s = perform rest (construct l w room grant s).0
  perform (sends room id payload rest) s = perform rest (send l w room id payload s).0
  perform (closes room id code inner rest) s =
      perform rest (close l w (perform inner) room id code s)
