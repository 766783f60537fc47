-- ===== src/Link.antt =====
-- src/shared-websocket.ts and websocket-server/multiplex-session.ts together: the adapter of an editor
-- over a connection to a session. Messages arrive in order, as the bytes that they were encoded to.
pub mod Arrivals
pub mod Exchange
pub mod Openings
pub mod Authority
mod Examples
use vip_real_time_collaborat.Base.{
  ℕ, zero, suc, Bool, true, false, if◌then◌else◌, Option, none, some, List, [], ◌∷◌,
}
use vip_real_time_collaborat.Base.Text.{Text}
use vip_real_time_collaborat.Packages.{Lib0, Ws, Jwt}
use vip_real_time_collaborat.Auth.{SyncTokenPayload}
use vip_real_time_collaborat.Protocol.{ProtocolMessage, encode_message}
use vip_real_time_collaborat.Protocol.Reader.{Result, ok, err}
use vip_real_time_collaborat.Session.Heartbeat.{
  Connection, new_connection, Event as SessionEvent, message, socket_closing, socket_close,
  send_error, adapter_send, adapter_close, heartbeat, pong, step as take_event,
}
use vip_real_time_collaborat.Client.SharedSocket.{Physical, Shared, new_shared, Calls}
use vip_real_time_collaborat.Client.SharedSocket.Listeners.{
  Signal, signal_open, signal_message, signal_error, signal_closing, signal_close,
  Event as EditorEvent, constructed, close_called, send_called, signalled, step as take_step,
}

-- `read_up` of the messages that the current physical socket has sent were handled by the session, and
-- `read_down` of those that the session has sent by the editor.
pub record Link : Type 0 where
  pub editor : Shared
  pub connection : Connection
  pub read_up : ℕ
  pub read_down : ℕ

unfoldable pub message_at : {A : Type 0} → ℕ → List A → Option A
message_at n [] = none
message_at zero (m ∷ ms) = some m
message_at (suc n) (m ∷ ms) = message_at n ms

abbrev pub sent_of : Option Physical → List (List ℕ)
sent_of none = []
sent_of (some p) = p.sent

module _ (l : Lib0) (w : Ws) where
  abbrev pub encoded : Option ProtocolMessage → Option (List ℕ)
  encoded none = none
  encoded (some m) = elim (encode_message l m) [ ok bytes ↦ some bytes | err e ↦ none ]

  -- The next message of the session arrives at the editor; `calls` is what its callback does.
  unfoldable pub carry_down : Calls → Link → Link
  unfolding message_at take_step
  carry_down calls k = elim (encoded (message_at k.read_down k.connection.session.physical.sent)) [
    | none ↦ k
    | some bytes ↦ elim k.editor.physical [
      | none ↦ k
      | some p ↦ record k {
        editor = take_step l w (signalled p.id (signal_message bytes calls)) k.editor;
        read_down = suc k.read_down;
      }
    ]
  ]

module _ (l : Lib0) (w : Ws) (j : Jwt) (secret : Text) (initial : SyncTokenPayload) where
  -- The next message of the editor arrives at the session.
  unfoldable pub carry_up : Link → Link
  unfolding message_at take_event
  carry_up k = elim (message_at k.read_up (sent_of k.editor.physical)) [
    | none ↦ k
    | some bytes ↦ record k {
      connection = take_event l w j secret initial (message bytes true) k.connection;
      read_up = suc k.read_up;
    }
  ]

-- The events of one side other than the arrival of a message.
abbrev pub is_message_signal : Signal → Bool
is_message_signal signal_open = false
is_message_signal (signal_message bytes calls) = true
is_message_signal (signal_error reactions) = false
is_message_signal signal_closing = false
is_message_signal (signal_close code reactions) = false

abbrev pub is_editor_arrival : EditorEvent → Bool
is_editor_arrival (constructed room grant) = false
is_editor_arrival (close_called room id code calls) = false
is_editor_arrival (send_called room id payload) = false
is_editor_arrival (signalled id signal) = is_message_signal signal

abbrev pub is_session_arrival : SessionEvent → Bool
is_session_arrival (message bytes is_binary) = true
is_session_arrival socket_closing = false
is_session_arrival socket_close = false
is_session_arrival send_error = false
is_session_arrival (adapter_send id payload) = false
is_session_arrival (adapter_close id) = false
is_session_arrival (heartbeat ping_throws) = false
is_session_arrival pong = false

-- Messages arrive by `arrives_up` and `arrives_down` alone.
pub data Event : Type 0 where
  editor_acts : EditorEvent → Event
  session_acts : SessionEvent → Event
  arrives_up : Event
  arrives_down : Calls → Event

unfoldable pub new_link : List Bool → List Bool → Link
unfolding new_shared new_connection
new_link editor_faults session_faults = record {
  editor = new_shared editor_faults;
  connection = new_connection session_faults;
  read_up = 0;
  read_down = 0;
}

module _ (l : Lib0) (w : Ws) (j : Jwt) (secret : Text) (initial : SyncTokenPayload) where
  unfoldable pub step : Event → Link → Link
  unfolding carry_up carry_down take_step take_event
  step (editor_acts e) k =
      if is_editor_arrival e then k else record k { editor = take_step l w e k.editor }
  step (session_acts e) k =
      if is_session_arrival e
      then k
      else record k { connection = take_event l w j secret initial e k.connection }
  step arrives_up k = carry_up l w j secret initial k
  step (arrives_down calls) k = carry_down l w calls k

  unfoldable pub run : List Event → Link → Link
  unfolding step
  run [] k = k
  run (e ∷ es) k = run es (step e k)
