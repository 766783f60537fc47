-- ===== src/Session.antt =====
-- websocket-server/multiplex-session.ts, room-websocket.ts and physical-heartbeat.ts: the rooms that one
-- physical socket carries.
-- What setupWSConnection and the package's listeners do on an adapter (send, close) are later events:
-- the code calls them last in a handler.
pub mod State
pub mod Rooms
pub mod Closing
pub mod Heartbeat
pub mod Sending
pub mod Invariant
pub mod Grants
pub mod Authorization
pub mod Behaviour
pub mod Attempts
pub mod Wire
mod Examples
use vip_real_time_collaborat.Base.{
  ℕ, suc, ◌+◌, Bool, true, false, not, ◌&&◌, ◌||◌, Option, none, some, List, [], ◌∷◌, ◌++◌, length,
  leb, ltb, ◌==◌, if◌then◌else◌,
}
use vip_real_time_collaborat.Base.Text.{Text, ◌===◌}
use vip_real_time_collaborat.Base.Maps.{contains, add, delete, lookup, set, remove}
use vip_real_time_collaborat.Packages.{Lib0, Jwt, Ws, ReadyState, is_open, closed}
use vip_real_time_collaborat.Auth.{
  SyncTokenPayload, Verified, granted, expired, invalid, verify_token_grant,
  verify_token_grant_ignoring_expiration,
}
use vip_real_time_collaborat.Protocol.Reader.{ok, err}
use vip_real_time_collaborat.Protocol.{
  ProtocolMessage, subscribe, subscribed, room_data, unsubscribe, room_closed, encode_message,
  decode_message,
}
use State.{
  CloseReason, authorization_rejected, grant_expired, client_unsubscribe, server_room_close,
  physical_connection_close, is_server_room_close, Session, expected_reason, expect_reason,
  forget_reason, adapter_room, drop_adapter, holds, record_room_close,
}

-- The part of the close listener that takes the room off the session.
pub release_room : Text → CloseReason → Session → Session
release_room room reason s = record s {
  rooms = remove room s.rooms;
  closed_rooms = add room s.closed_rooms;
  stats = record (s.stats) {
    room_closes = s.stats.room_closes + 1;
    close_reasons = reason ∷ s.stats.close_reasons;
  };
}

-- The close listener of addRoom; `send_closed` is its call of sendRoomClosed.
pub close_listener : (Text → Session → Session) → Text → ℕ → Session → Session
close_listener send_closed room id s =
    let reason = expected_reason id s.expected in
    let s1 : Session = record s { expected = forget_reason id s.expected } in
    let s2 = release_room room reason s1 in
    if holds (lookup room s.rooms) id
    then if is_server_room_close reason && is_open s.physical.ready then send_closed room s2 else s2
    else s1

-- RoomWebSocket.close: an adapter that is CLOSED emits nothing.
pub close_adapter : (Text → Session → Session) → ℕ → Session → Session
close_adapter send_closed id s = elim (adapter_room id s.open_adapters) [
  | none ↦ s
  | some room ↦
      close_listener send_closed room id
        (record s { open_adapters = drop_adapter id s.open_adapters })
]

pub close_room : (Text → Session → Session) → ℕ → CloseReason → Session → Session
close_room send_closed id reason s =
    close_adapter send_closed id (record s { expected = expect_reason id reason s.expected })

-- Nothing is sent for a close that was expected (`close_room_silent`).
abbrev pub unsent : Text → Session → Session
unsent room s = s

close_all : List (Text × ℕ) → Session → Session
close_all [] s = s
close_all ((room, id) ∷ m) s = close_all m (close_room unsent id physical_connection_close s)

pub cleanup_rooms : Session → Session
cleanup_rooms s = close_all s.rooms s

pub put_sent : ProtocolMessage → Session → Session
put_sent m s = record s { physical = record (s.physical) { sent = s.physical.sent ++ m ∷ [] } }

pub set_faults : List Bool → Session → Session
set_faults faults s = record s { physical = record (s.physical) { faults = faults } }

-- addRoom before its first send.
pub register_room : Text → Session → Session
register_room room s =
    let rooms = set room s.next_adapter s.rooms in
    record s {
      rooms = rooms;
      open_adapters = s.open_adapters ++ (s.next_adapter, room) ∷ [];
      next_adapter = suc s.next_adapter;
      peak_room_count =
          if ltb s.peak_room_count (length rooms) then length rooms else s.peak_room_count;
      closed_rooms = delete room s.closed_rooms;
      stats = record (s.stats) { room_opens = s.stats.room_opens + 1 };
    }

module _ (w : Ws) where
  pub physical_close : ℕ → Session → Session
  physical_close code s = record s {
    physical = record (s.physical) {
      ready = w.after_close s.physical.ready;
      close_codes = s.physical.close_codes ++ code ∷ [];
    };
  }

  pub close_physical : ℕ → Session → Session
  close_physical code s = physical_close code (cleanup_rooms s)

  pub handle_physical_send_error : Session → Session
  handle_physical_send_error s =
      let s1 = cleanup_rooms s in if is_open s1.physical.ready then physical_close 1011 s1 else s1

  -- `physical.send` with what the environment makes of it.
  pub physical_send : ProtocolMessage → List Bool → Session → Session × Bool
  physical_send m [] s = (put_sent m s, true)
  physical_send m (false ∷ faults) s = (put_sent m (set_faults faults s), true)
  physical_send m (true ∷ faults) s = (handle_physical_send_error (set_faults faults s), false)

module _ (l : Lib0) (w : Ws) where
  -- The state, and whether the send did not fail at once. An error that `send` reports later is the
  -- event `send_error`.
  pub send_physical_message : ProtocolMessage → Session → Session × Bool
  send_physical_message m s = elim (encode_message l m) [
    | err e ↦ (handle_physical_send_error w s, false)
    | ok bytes ↦ physical_send w m s.physical.faults s
  ]

  pub send_room_closed : ℕ → Text → Session → Session
  send_room_closed code room s = (send_physical_message (room_closed room code) s).0

  pub reject_room : Text → Session → Session
  reject_room room s = send_room_closed 4004 room (record_room_close authorization_rejected s)

  pub reject_authorization_bypass : Text → Session → Session
  reject_authorization_bypass room s =
      let s1 = reject_room room (record s { bypass_attempts = s.bypass_attempts + 1 }) in
      if leb 2 s1.bypass_attempts then close_physical w 1008 s1 else s1

  pub unsubscribe_room : Text → Session → Session
  unsubscribe_room room s = elim (lookup room s.rooms) [
    | none ↦ s
    | some id ↦ close_room (send_room_closed 4005) id client_unsubscribe s
  ]

  pub add_room : Text → Session → Session
  add_room room s =
      let (s1, sent) = send_physical_message (subscribed room) (register_room room s) in
      if sent then record s1 { set_up = s.next_adapter ∷ s1.set_up } else s1

  -- A data message is delivered to its room; one for a room that was closed is dropped.
  pub receive_data : Text → List ℕ → Session → Session
  receive_data room payload s = elim (lookup room s.rooms) [
    | some id ↦ record s { delivered = (id, payload) ∷ s.delivered }
    | none ↦ if contains room s.closed_rooms then s else reject_authorization_bypass room s
  ]

abbrev pub or_empty : Option Text → Text
or_empty none = []
or_empty (some t) = t

-- `wp_client_id ?? connection_id ?? ''`.
unfoldable pub effective_client_id : SyncTokenPayload → Text
effective_client_id p = elim p.wp_client_id [ some t ↦ t | none ↦ or_empty p.connection_id ]

unfoldable pub matches_physical_identity : SyncTokenPayload → SyncTokenPayload → Bool
unfolding effective_client_id
matches_physical_identity payload initial =
    payload.user_id == initial.user_id
    && (payload.blog_id == initial.blog_id
        && effective_client_id payload === effective_client_id initial)

module _ (l : Lib0) (w : Ws) (j : Jwt) (secret : Text) (initial : SyncTokenPayload) where
  pub admit : Text → SyncTokenPayload → Bool → Session → Session
  admit room payload is_expired s =
      if not (payload.room_name === room) || not (matches_physical_identity payload initial)
      then reject_authorization_bypass l w room s
      else if is_expired
      then send_room_closed l w 4005 room (record_room_close grant_expired s)
      else add_room l w payload.room_name s

  pub authorize : Text → Text → Session → Session
  authorize room grant s = elim (verify_token_grant j grant secret) [
    | granted payload ↦ admit room payload false s
    | invalid ↦ reject_room l w room s
    | expired ↦ elim (verify_token_grant_ignoring_expiration j grant secret) [
      | granted payload ↦ admit room payload true s
      | expired ↦ reject_room l w room s
      | invalid ↦ reject_room l w room s
    ]
  ]

  pub subscribe_room : Text → Text → Session → Session
  subscribe_room room grant s = elim (lookup room s.rooms) [
    | some id ↦ (send_physical_message l w (subscribed room) s).0
    | none ↦ authorize room grant s
  ]

  pub handle_message : ProtocolMessage → Session → Session
  handle_message (subscribe room grant) s = subscribe_room room grant s
  handle_message (room_data room payload) s = receive_data l w room payload s
  handle_message (unsubscribe room) s = unsubscribe_room l w room s
  handle_message (subscribed room) s = close_physical w 1002 s
  handle_message (room_closed room code) s = close_physical w 1002 s

  pub handle_physical_message : List ℕ → Bool → Session → Session
  handle_physical_message bytes is_binary s =
      if not (is_open s.physical.ready)
      then cleanup_rooms s
      else if not is_binary
      then close_physical w 1002 s
      else elim (decode_message l bytes) [
        | err e ↦ close_physical w 1002 s
        | ok m ↦ handle_message m s
      ]

-- `closed` is the readyState when the event is emitted.
pub handle_physical_close : Session → Session
handle_physical_close s =
    let s1 : Session = record s { physical = record (s.physical) { ready = closed } } in
    cleanup_rooms
      (record s1 { stats = record (s1.stats) { peaks = s1.peak_room_count ∷ s1.stats.peaks } })

module _ (l : Lib0) (w : Ws) where
  -- RoomWebSocket.send and a close by the server.
  pub room_send : ℕ → List ℕ → Session → Session
  room_send id payload s = elim (adapter_room id s.open_adapters) [
    | none ↦ s
    | some room ↦ (send_physical_message l w (room_data room payload) s).0
  ]

  pub room_close : ℕ → Session → Session
  room_close id s = close_adapter (send_room_closed l w 4005) id s
