-- ===== src/Session/Attempts.antt =====
-- websocket-server/multiplex-session.ts: how many attempts to bypass the authorization a session allows.
use vip_real_time_collaborat.Base.{◌+◌, ◌≤◌, inl, inr, List, arith, leb, Bool-cases}
use vip_real_time_collaborat.Base.Text.{Text}
use vip_real_time_collaborat.Packages.{Lib0, Ws, WsLaws, Jwt}
use vip_real_time_collaborat.Auth.{SyncTokenPayload}
use vip_real_time_collaborat.Session.State.{Session}
use vip_real_time_collaborat.Session.Closing.{IsConsistent}
use vip_real_time_collaborat.Session.Sending.{Keeps, close_physical-Keeps, reject_room-Keeps}
use vip_real_time_collaborat.Session.Invariant.{reject_authorization_bypass-Keeps}
use vip_real_time_collaborat.Session.Authorization.{run-Keeps}
use vip_real_time_collaborat.Session.Behaviour.{HasEnded, reject_authorization_bypass_again}
use vip_real_time_collaborat.Session.{close_physical, reject_room, reject_authorization_bypass}
use vip_real_time_collaborat.Session.Heartbeat.{Connection, Event, on_session, run}

module _ (l : Lib0) (w : Ws) (laws : WsLaws w) where
  attempt_counted :
      (room : Text) (s : Session)
      → IsConsistent s
      → 1 ≤ (reject_authorization_bypass l w room s).bypass_attempts
  unfolding reject_authorization_bypass
  attempt_counted room s v = elim (Bool-cases (leb 2 (reject_room l w room s0).bypass_attempts)) [
    | inl e ↦ rw e (omega (arith, k.counted v0, shut.counted (k.consistent v0)))
    | inr e ↦ rw e (omega (arith, k.counted v0))
  ]
    where
      s0 : Session
      s0 = record s { bypass_attempts = s.bypass_attempts + 1 }

      v0 : IsConsistent s0
      v0 = ground (arith, v)

      k : Keeps (λ r. ⊥) s0 (reject_room l w room s0)
      k = reject_room-Keeps (λ r. ⊥) l w laws room s0

      shut :
          Keeps (λ r. ⊥) (reject_room l w room s0) (close_physical w 1008 (reject_room l w room s0))
      shut = close_physical-Keeps (λ r. ⊥) w laws 1008 (reject_room l w room s0)

module _ (l : Lib0) (w : Ws) (laws : WsLaws w) (j : Jwt) (secret : Text)
    (initial : SyncTokenPayload) where
  -- Two attempts to bypass the authorization of a consistent session, for any rooms and with any events
  -- between them, where a close ends a socket: after the second the socket is not open, and no room or
  -- adapter is left.
  pub two_attempts_end :
      (room other : Text) (es : List Event) (c : Connection)
      → IsConsistent c.session
      → HasEnded (
          reject_authorization_bypass l w other
            (run l w j secret initial es
              (on_session (reject_authorization_bypass l w room) c)).session)
  two_attempts_end room other es c v =
      let first = reject_authorization_bypass-Keeps (λ r. ⊥) l w laws room c.session in
      let tried : Connection = on_session (reject_authorization_bypass l w room) c in
      let later = run-Keeps l w laws j secret initial es tried in
      let ended : Session = (run l w j secret initial es tried).session in
      reject_authorization_bypass_again l w laws other ended (later.consistent (first.consistent v))
        (omega
          (arith, attempt_counted l w laws room c.session v, later.counted (first.consistent v)))
