-- ===== src/Session/Heartbeat.antt =====
-- websocket-server/physical-heartbeat.ts, and a session with its heartbeat under the events of its
-- environment.
use vip_real_time_collaborat.Base.{
  ℕ, ◌+◌, Bool, true, false, not, List, [], ◌∷◌, length, ◌==◌, if◌then◌else◌,
}
use vip_real_time_collaborat.Base.Text.{Text}
use vip_real_time_collaborat.Packages.{Lib0, Jwt, Ws, closing, is_open}
use vip_real_time_collaborat.Auth.{SyncTokenPayload}
use vip_real_time_collaborat.Session.State.{Session, new_session}
use vip_real_time_collaborat.Session.{
  cleanup_rooms, close_physical, handle_physical_send_error, handle_physical_message,
  handle_physical_close, room_send, room_close,
}

-- `empty_timeouts` counts recordConnectionFailure( 'zero_room_timeout' ).
pub record Connection : Type 0 where
  pub session : Session
  pub pong_received : Bool
  pub stopped : Bool
  pub pings : ℕ
  pub empty_timeouts : ℕ

-- What the package does at the socket, and what reaches the session from it. `heartbeat` is an expiry
-- of the interval, with whether `ping` throws.
pub data Event : Type 0 where
  message : List ℕ → Bool → Event
  socket_closing : Event
  socket_close : Event
  send_error : Event
  adapter_send : ℕ → List ℕ → Event
  adapter_close : ℕ → Event
  heartbeat : Bool → Event
  pong : Event

abbrev pub on_session : (Session → Session) → Connection → Connection
on_session f c = record c { session = f c.session }

-- start of the session: a second call does nothing.
unfoldable pub start : Connection → Connection
start c = if c.session.started then c else record c {
  session = record (c.session) { started = true };
  pong_received = true;
  stopped = false;
}

module _ (w : Ws) where
  unfoldable pub physical_terminate : Session → Session
  physical_terminate s = record s {
    physical = record (s.physical) { ready = w.after_terminate s.physical.ready };
  }

  -- stop(), onUnresponsive() and terminate().
  unfoldable pub give_up : Connection → Connection
  give_up c = record c { stopped = true; session = physical_terminate (cleanup_rooms c.session) }

  unfoldable pub handle_interval : Bool → Connection → Connection
  handle_interval ping_throws c =
      if c.stopped
      then c
      else if not (is_open c.session.physical.ready)
      then record c { stopped = true }
      else if length c.session.rooms == 0
      then record c {
        stopped = true;
        empty_timeouts = c.empty_timeouts + 1;
        session = close_physical w 4001 c.session;
      }
      else if not c.pong_received
      then give_up c
      else if ping_throws
      then give_up (record c { pong_received = false })
      else record c { pong_received = false; pings = c.pings + 1 }

abbrev pub set_closing : Session → Session
set_closing s = record s { physical = record (s.physical) { ready = closing } }

module _ (l : Lib0) (w : Ws) (j : Jwt) (secret : Text) (initial : SyncTokenPayload) where
  -- The listeners of a started session.
  unfoldable pub handle : Event → Connection → Connection
  handle (message bytes is_binary) =
      on_session (handle_physical_message l w j secret initial bytes is_binary)
  handle socket_closing = on_session set_closing
  handle socket_close = λ c. record c { stopped = true; session = handle_physical_close c.session }
  handle send_error = on_session (handle_physical_send_error w)
  handle (adapter_send id payload) = on_session (room_send l w id payload)
  handle (adapter_close id) = on_session (room_close l w id)
  handle (heartbeat ping_throws) = handle_interval w ping_throws
  handle pong = λ c. if c.stopped then c else record c { pong_received = true }

  unfoldable pub step : Event → Connection → Connection
  step e c = if c.session.started then handle e c else c

  unfoldable pub run : List Event → Connection → Connection
  run [] c = c
  run (e ∷ es) c = run es (step e c)

-- A connection whose session was started on an open socket.
unfoldable pub new_connection : List Bool → Connection
unfolding start
new_connection faults = start (record {
  session = new_session faults;
  pong_received = false;
  stopped = true;
  pings = 0;
  empty_timeouts = 0;
})
