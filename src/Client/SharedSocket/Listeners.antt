-- ===== src/Client/SharedSocket/Listeners.antt =====
-- src/shared-websocket.ts: the listeners of the physical socket, and the runs of the adapter.
use vip_real_time_collaborat.Base.{
  ℕ, Bool, true, false, not, Option, none, some, List, [], ◌∷◌, ◌==◌, if◌then◌else◌,
}
use vip_real_time_collaborat.Base.Text.{Text, ◌===◌}
use vip_real_time_collaborat.Base.Maps.{lookup}
use vip_real_time_collaborat.Packages.{Lib0, Ws, ReadyState, opened, closing, is_open}
use vip_real_time_collaborat.Protocol.Reader.{ok, err}
use vip_real_time_collaborat.Protocol.{
  ProtocolMessage, subscribe, subscribed, room_data, unsubscribe, room_closed, decode_message,
}
use vip_real_time_collaborat.Client.ClosePolicy.{multiplex_protocol_failure_close_code}
use vip_real_time_collaborat.Client.SharedSocket.{
  SharedWebSocket, Physical, on_open, on_message, on_error, on_close, Shared, notify, with_ready,
  is_connecting, closed_physical, close_physical_socket_normally, send_physical_message, construct,
  close_virtual_socket, close, send, is_active, detached_ready, without_socket, Calls, perform,
}

-- The socket of the room becomes OPEN.
unfoldable pub open_room : Text → List (Text × SharedWebSocket) → List (Text × SharedWebSocket)
open_room room [] = []
open_room room ((r, v) ∷ m) =
    if r === room then (r, with_ready opened v) ∷ m else (r, v) ∷ open_room room m

abbrev pub is_open_physical : Option Physical → Bool
is_open_physical none = false
is_open_physical (some p) = is_open p.ready

abbrev pub set_ready : ReadyState → Physical → Physical
set_ready ready p = record p { ready = ready }

module _ (l : Lib0) (w : Ws) where
  -- The loops over the sockets; the lists have what their callbacks do, and are empty where they end. An error
  -- that a callback throws is caught.
  unfoldable pub notify_errors : List Calls → List (Text × SharedWebSocket) → Shared → Shared
  unfolding notify perform
  notify_errors reactions [] s = s
  notify_errors [] ((room, v) ∷ m) s = notify_errors [] m (notify (on_error v.id) s)
  notify_errors (c ∷ cs) ((room, v) ∷ m) s =
      notify_errors cs m (perform l w c (notify (on_error v.id) s))

  -- One that an earlier callback has closed is left out.
  unfoldable pub notify_closes :
      Option ℕ → List Calls → List (Text × SharedWebSocket) → Shared → Shared
  unfolding notify perform detached_ready without_socket
  notify_closes code reactions [] s = s
  notify_closes code [] ((room, v) ∷ m) s =
      let s1 : Shared = record s { detached = without_socket v.id s.detached } in
      let skipped = notify_closes code [] m s in
      let told = notify_closes code [] m (notify (on_close v.id code false) s1) in
      if is_active (detached_ready v.id s.detached) then told else skipped
  notify_closes code (c ∷ cs) ((room, v) ∷ m) s =
      let s1 : Shared = record s { detached = without_socket v.id s.detached } in
      let skipped = notify_closes code (c ∷ cs) m s in
      let told = notify_closes code cs m (perform l w c (notify (on_close v.id code false) s1)) in
      if is_active (detached_ready v.id s.detached) then told else skipped

  unfoldable pub handle_close : Option ℕ → List Calls → Shared → Shared
  unfolding notify_closes
  handle_close code reactions s =
      notify_closes code reactions s.virtual_sockets
        (record s { physical = none; virtual_sockets = []; detached = s.virtual_sockets })

  -- A socket that a message is for; `calls` is what its callback does.
  unfoldable pub receive_subscribed : Text → Calls → Shared → Shared
  unfolding lookup open_room notify perform
  receive_subscribed room calls s = elim (lookup room s.virtual_sockets) [
    | none ↦ s
    | some v ↦
        if is_connecting v.ready
        then perform l w calls (
            notify (on_open v.id) (record s { virtual_sockets = open_room room s.virtual_sockets }))
        else s
  ]

  unfoldable pub receive_data : Text → List ℕ → Calls → Shared → Shared
  unfolding lookup notify perform
  receive_data room payload calls s = elim (lookup room s.virtual_sockets) [
    | none ↦ s
    | some v ↦ if is_open v.ready then perform l w calls (notify (on_message v.id payload) s) else s
  ]

-- The events of a physical socket, with what the callbacks do that they lead to.
pub data Signal : Type 0 where
  signal_open : Signal
  signal_message : List ℕ → Calls → Signal
  signal_error : List Calls → Signal
  signal_closing : Signal
  signal_close : Option ℕ → List Calls → Signal

-- Calls on virtual sockets, and events of the physical socket with the given id.
pub data Event : Type 0 where
  constructed : Text → Text → Event
  close_called : Text → ℕ → ℕ → Calls → Event
  send_called : Text → ℕ → List ℕ → Event
  signalled : ℕ → Signal → Event

module _ (w : Ws) where
  -- `socket.close( MULTIPLEX_PROTOCOL_FAILURE_CLOSE_CODE )`.
  unfoldable pub fail_protocol : Physical → Shared → Shared
  fail_protocol p s = record s {
    physical = some (closed_physical w (some multiplex_protocol_failure_close_code) p);
  }

module _ (l : Lib0) (w : Ws) where
  unfoldable pub receive_room_closed : Text → ℕ → Calls → Shared → Shared
  unfolding lookup close_virtual_socket perform
  receive_room_closed room code calls s = elim (lookup room s.virtual_sockets) [
    | none ↦ s
    | some v ↦ close_virtual_socket l w (perform l w calls) room v.id (some code) true false s
  ]

  -- The switch of onmessage.
  unfoldable pub receive : Physical → ProtocolMessage → Calls → Shared → Shared
  unfolding receive_subscribed receive_data receive_room_closed fail_protocol
  receive p (subscribed room) calls s = receive_subscribed l w room calls s
  receive p (room_data room payload) calls s = receive_data l w room payload calls s
  receive p (room_closed room code) calls s = receive_room_closed room code calls s
  receive p (subscribe room grant) calls s = fail_protocol w p s
  receive p (unsubscribe room) calls s = fail_protocol w p s

  unfoldable pub handle_message : Physical → List ℕ → Calls → Shared → Shared
  unfolding receive fail_protocol
  handle_message p bytes calls s = elim (decode_message l bytes) [
    | err e ↦ fail_protocol w p s
    | ok message ↦ receive p message calls s
  ]

  -- The loop of onopen over the registered sockets.
  unfoldable pub subscribe_all : List (Text × SharedWebSocket) → Shared → Shared
  unfolding send_physical_message close_physical_socket_normally
  subscribe_all [] s = s
  subscribe_all ((room, v) ∷ m) s =
      let (s1, sent) = send_physical_message l w (subscribe room v.grant) s in
      let next = subscribe_all m s in
      let next1 = subscribe_all m s1 in
      if not (is_open_physical s.physical)
      then s
      else if not (is_connecting v.ready)
      then next
      else if sent
      then next1
      else close_physical_socket_normally w s1

  unfoldable pub handle_open : Physical → Shared → Shared
  unfolding subscribe_all
  handle_open p s =
      subscribe_all s.virtual_sockets (record s { physical = some (set_ready opened p) })

  -- A socket opens only while it is CONNECTING.
  unfoldable pub handle_signal : Physical → Signal → Shared → Shared
  unfolding handle_open handle_message notify_errors handle_close
  handle_signal p signal_open s = if is_connecting p.ready then handle_open p s else s
  handle_signal p (signal_message bytes calls) s = handle_message p bytes calls s
  handle_signal p (signal_error reactions) s = notify_errors l w reactions s.virtual_sockets s
  handle_signal p signal_closing s = record s { physical = some (set_ready closing p) }
  handle_signal p (signal_close code reactions) s = handle_close l w code reactions s

  unfoldable pub step : Event → Shared → Shared
  unfolding construct close send perform handle_signal
  step (constructed room grant) s = (construct l w room grant s).0
  step (close_called room id code calls) s = close l w (perform l w calls) room id code s
  step (send_called room id payload) s = (send l w room id payload s).0
  step (signalled id signal) s = elim s.physical [
    | none ↦ s
    | some p ↦ if p.id == id then handle_signal p signal s else s
  ]

  unfoldable pub run : List Event → Shared → Shared
  unfolding step
  run [] s = s
  run (e ∷ es) s = run es (step e s)
