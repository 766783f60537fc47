-- ===== src/Link/Arrivals.antt =====
-- src/shared-websocket.ts and websocket-server/multiplex-session.ts: what an arriving message becomes.
use vip_real_time_collaborat.Base.{
  ℕ, suc, ◌≡◌, refl, ==_iff, true, some, List, [], ◌∷◌, ◌++◌, length,
}
use vip_real_time_collaborat.Base.Text.{Text}
use vip_real_time_collaborat.Packages.{Lib0, Lib0Laws, Ws, Jwt, is_open}
use vip_real_time_collaborat.Auth.{SyncTokenPayload}
use vip_real_time_collaborat.Protocol.{ProtocolMessage, encode_message, decode_message}
use vip_real_time_collaborat.Protocol.Reader.{ok}
use vip_real_time_collaborat.Protocol.RoundTrip.{TextsWellFormed, decode_message-encode_message}
use vip_real_time_collaborat.Session.{handle_message}
use vip_real_time_collaborat.Session.Heartbeat.{on_session, handle, step as take_event}
use vip_real_time_collaborat.Session.Wire.{handle_physical_message-decoded}
use vip_real_time_collaborat.Client.SharedSocket.{Physical, Shared, Calls}
use vip_real_time_collaborat.Client.SharedSocket.Listeners.{
  receive, handle_message as hear_message, handle_signal, signalled, signal_message, step,
}
use vip_real_time_collaborat.Link.{Link, message_at, sent_of, carry_down, carry_up}

pub message_at-append :
    {A : Type 0} (ms : List A) (m : A) → message_at (length ms) (ms ++ m ∷ []) ≡ some m
unfolding message_at
message_at-append [] m = refl
message_at-append (n ∷ ms) m = message_at-append ms m

module _ (l : Lib0) (w : Ws) (laws : Lib0Laws l) where
  signal-received :
      (p : Physical) (m : ProtocolMessage) (bytes : List ℕ) (calls : Calls) (s : Shared)
      → decode_message l bytes ≡ ok m
      → handle_signal l w p (signal_message bytes calls) s ≡ receive l w p m calls s
  unfolding handle_signal hear_message
  signal-received p m bytes calls s d = rw (d, hear_message) refl

  step-received :
      (p : Physical) (m : ProtocolMessage) (bytes : List ℕ) (calls : Calls) (s : Shared)
      → s.physical ≡ some p
      → decode_message l bytes ≡ ok m
      → step l w (signalled p.id (signal_message bytes calls)) s ≡ receive l w p m calls s
  unfolding step
  step-received p m bytes calls s e d =
      simp (e, (==_iff p.id p.id).1 refl, step) (signal-received p m bytes calls s d)

  pub carry_down-received :
      (p : Physical) (m : ProtocolMessage) (bytes : List ℕ) (calls : Calls) (k : Link)
      → message_at k.read_down k.connection.session.physical.sent ≡ some m
      → k.editor.physical ≡ some p
      → encode_message l m ≡ ok bytes
      → TextsWellFormed l m
      → (carry_down l w calls k).editor ≡ receive l w p m calls k.editor
  unfolding carry_down
  carry_down-received p m bytes calls k n e b t =
      rw (n, carry_down)
        (rw b (
          simp e (
            step-received p m bytes calls k.editor e
              (decode_message-encode_message l laws m bytes b t))))

  pub carry_up-handled :
      (j : Jwt) (secret : Text) (initial : SyncTokenPayload) (m : ProtocolMessage) (bytes : List ℕ)
      (k : Link)
      → message_at k.read_up (sent_of k.editor.physical) ≡ some bytes
      → k.connection.session.started ≡ true
      → is_open k.connection.session.physical.ready ≡ true
      → encode_message l m ≡ ok bytes
      → TextsWellFormed l m
      → carry_up l w j secret initial k ≡ record k {
        connection = on_session (handle_message l w j secret initial m) k.connection;
        read_up = suc k.read_up;
      }
  unfolding carry_up take_event handle
  carry_up-handled j secret initial m bytes k n z o b t =
      rw (n, carry_up)
        (simp z (
          simp
            (handle_physical_message-decoded l w j secret initial bytes m k.connection.session o
              (decode_message-encode_message l laws m bytes b t))
            refl))
