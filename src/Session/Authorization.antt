-- ===== src/Session/Authorization.antt =====
-- websocket-server/multiplex-session.ts: a room is opened only under a grant for it, whatever happens at
-- the socket.
use vip_real_time_collaborat.Base.{◌≡◌, refl, inl, inr, Bool, true, false, List, [], ◌∷◌, arith}
use vip_real_time_collaborat.Base.Text.{Text}
use vip_real_time_collaborat.Base.Maps.{has}
use vip_real_time_collaborat.Packages.{Lib0, Ws, WsLaws, Jwt}
use vip_real_time_collaborat.Auth.{SyncTokenPayload}
use vip_real_time_collaborat.Session.State.{Session, new_session}
use vip_real_time_collaborat.Session.Closing.{IsConsistent}
use vip_real_time_collaborat.Session.Sending.{
  Answered, Keeps, Keeps-refl, Keeps-trans, Keeps-ended, Keeps-mono, cleanup_rooms-Keeps,
  close_physical-Keeps, handle_physical_send_error-Keeps,
}
use vip_real_time_collaborat.Session.Invariant.{room_send-Keeps, room_close-Keeps}
use vip_real_time_collaborat.Session.{cleanup_rooms, handle_physical_close}
use vip_real_time_collaborat.Session.Heartbeat.{
  Connection, Event, message, socket_closing, socket_close, send_error, adapter_send, adapter_close,
  heartbeat, pong, physical_terminate, give_up, handle_interval, handle, step, run, new_connection,
}
use vip_real_time_collaborat.Session.Grants.{EventGrants, Granted, handle_physical_message-Keeps}

pub no_room :
    (faults : List Bool) (room : Text) → has room (new_connection faults).session.rooms ≡ true → ⊥
unfolding new_connection new_session has
no_room faults room h = cc

pub fresh-IsConsistent : (faults : List Bool) → IsConsistent (new_connection faults).session
unfolding new_connection new_session
fresh-IsConsistent faults = record {
  adapters = refl;
  distinct = tt;
  rising = omega arith;
  apart = tt;
  nothing_expected = refl;
  gauge = omega arith;
  peak = omega arith;
}

module _ (l : Lib0) (w : Ws) (laws : WsLaws w) (j : Jwt) (secret : Text)
    (initial : SyncTokenPayload) where
  handle_physical_close-Keeps :
      (P : Text → Type 0) (s : Session) → Keeps P s (handle_physical_close s)
  unfolding handle_physical_close
  handle_physical_close-Keeps P s =
      Keeps-trans P (Keeps-ended P s _ (λ v. ground arith) refl refl refl refl)
        (cleanup_rooms-Keeps P _)

  give_up-Keeps : (P : Text → Type 0) (c : Connection) → Keeps P c.session (give_up w c).session
  unfolding give_up physical_terminate
  give_up-Keeps P c = Keeps-trans P (cleanup_rooms-Keeps P c.session) (
      Keeps-ended P (cleanup_rooms c.session) _ (λ v. ground arith) (laws.terminate_ends _) refl
        refl refl)

  handle_interval-Keeps :
      (P : Text → Type 0) (ping_throws : Bool) (c : Connection)
      → Keeps P c.session (handle_interval w ping_throws c).session
  unfolding handle_interval
  handle_interval-Keeps P t c = ground (
    arith,
    Keeps-refl P c.session,
    close_physical-Keeps P w laws 4001 c.session,
    give_up-Keeps P c,
    give_up-Keeps P (record c { pong_received = false }),
  )

  handle-Keeps :
      (e : Event) (c : Connection)
      → Keeps (EventGrants l j secret initial e) c.session (handle l w j secret initial e c).session
  unfolding handle
  handle-Keeps (message bytes is_binary) c =
      handle_physical_message-Keeps l w laws j secret initial bytes is_binary c.session
  handle-Keeps socket_closing c = Keeps-ended _ c.session _ (λ v. ground arith) refl refl refl refl
  handle-Keeps socket_close c = handle_physical_close-Keeps _ c.session
  handle-Keeps send_error c = handle_physical_send_error-Keeps _ w laws c.session
  handle-Keeps (adapter_send id payload) c = room_send-Keeps _ l w laws id payload c.session
  handle-Keeps (adapter_close id) c = room_close-Keeps _ l w laws id c.session
  handle-Keeps (heartbeat ping_throws) c = handle_interval-Keeps _ ping_throws c
  handle-Keeps pong c = ground (arith, Keeps-refl (λ r. ⊥) c.session)

  pub step-Keeps :
      (e : Event) (c : Connection)
      → Keeps (EventGrants l j secret initial e) c.session (step l w j secret initial e c).session
  unfolding step
  step-Keeps e c =
      ground (arith, handle-Keeps e c, Keeps-refl (EventGrants l j secret initial e) c.session)

  pub run-Keeps :
      (es : List Event) (c : Connection)
      → Keeps (Granted l j secret initial es) c.session (run l w j secret initial es c).session
  unfolding run
  run-Keeps [] c = Keeps-refl _ c.session
  run-Keeps (e ∷ es) c =
      Keeps-trans _
        (Keeps-mono _ (Granted l j secret initial (e ∷ es)) (λ r g. inl g) (step-Keeps e c))
        (Keeps-mono _ (Granted l j secret initial (e ∷ es)) (λ r g. inr g)
          (run-Keeps es (step l w j secret initial e c)))

  -- After any events at a new connection its session is consistent: the open adapters are those of the
  -- rooms, no room is both open and closed, no close is expected, and the gauge equals the number of
  -- rooms, which the peak bounds.
  pub run-IsConsistent :
      (faults : List Bool) (es : List Event)
      → IsConsistent (run l w j secret initial es (new_connection faults)).session
  run-IsConsistent faults es =
      (run-Keeps es (new_connection faults)).consistent (fresh-IsConsistent faults)

  -- A room is open after a run only if some binary message of the run subscribed to it under a grant that
  -- verified, had not expired, named the room, and belonged to the connection's user, blog and client.
  pub run-Granted :
      (faults : List Bool) (es : List Event) (room : Text)
      → has room (run l w j secret initial es (new_connection faults)).session.rooms ≡ true
      → Granted l j secret initial es room
  run-Granted faults es room h =
      elim ((run-Keeps es (new_connection faults)).no_new (fresh-IsConsistent faults) room h) [
        | inl g ↦ g
        | inr old ↦ absurd (no_room faults room old)
      ]

  -- A client is told that it is subscribed to a room only after such a message, too.
  pub run-Answered :
      (faults : List Bool) (es : List Event) (room : Text)
      → Answered room (run l w j secret initial es (new_connection faults)).session.physical.sent
      → Granted l j secret initial es room
  unfolding new_connection new_session
  run-Answered faults es room h =
      elim ((run-Keeps es (new_connection faults)).answered (fresh-IsConsistent faults) room h) [
        | inl (inl g) ↦ g
        | inl (inr old) ↦ absurd (no_room faults room old)
        | inr none_sent ↦ absurd none_sent
      ]
