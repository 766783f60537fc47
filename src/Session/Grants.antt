-- ===== src/Session/Grants.antt =====
-- websocket-server/multiplex-session.ts: a message opens, and announces, the room that it asks for alone,
-- and under a grant for it.
use vip_real_time_collaborat.Base.{
  ℕ, ◌≡◌, refl, sym, ap, ◌⊎◌, inl, inr, Bool, true, false, not, none, List, [], ◌∷◌, arith, ◌||◌,
  Bool-cases, Option-cases,
}
use vip_real_time_collaborat.Base.Text.{Text, ◌===◌, ===_iff}
use vip_real_time_collaborat.Base.Maps.{lookup, lookup-has}
use vip_real_time_collaborat.Packages.{Lib0, Ws, WsLaws, Jwt, is_open}
use vip_real_time_collaborat.Auth.{
  SyncTokenPayload, Verified, granted, expired, invalid, verify_token_grant,
  verify_token_grant_ignoring_expiration,
}
use vip_real_time_collaborat.Protocol.{
  ProtocolMessage, subscribe, subscribed, room_data, unsubscribe, room_closed, decode_message,
  room_of,
}
use vip_real_time_collaborat.Protocol.Reader.{Result-cases, ok}
use vip_real_time_collaborat.Session.State.{grant_expired, Session, record_room_close}
use vip_real_time_collaborat.Session.Sending.{
  Keeps, Keeps-trans, Keeps-mono, cleanup_rooms-Keeps, close_physical-Keeps,
  send_physical_message-Keeps, send_room_closed-Keeps, reject_room-Keeps, record_room_close-Keeps,
  unsubscribe_room-Keeps,
}
use vip_real_time_collaborat.Session.Invariant.{
  reject_authorization_bypass-Keeps, add_room-Keeps, receive_data-Keeps,
}
use vip_real_time_collaborat.Session.{
  matches_physical_identity, admit, authorize, subscribe_room, handle_message,
  handle_physical_message,
}
use vip_real_time_collaborat.Session.Heartbeat.{
  Event, message, socket_closing, socket_close, send_error, adapter_send, adapter_close, heartbeat,
  pong,
}

Verified-cases :
    (r : Verified) → ((p : SyncTokenPayload) × (r ≡ granted p)) ⊎ ((r ≡ expired) ⊎ (r ≡ invalid))
Verified-cases (granted p) = inl (p, refl)
Verified-cases expired = inr (inl refl)
Verified-cases invalid = inr (inr refl)

module _ (j : Jwt) (secret : Text) (initial : SyncTokenPayload) where
  -- The grant verifies, has not expired, names the room, and belongs to the user, blog and client of
  -- the physical connection.
  pub record Grants (grant : Text) (room : Text) : Type 0 where
    pub payload : SyncTokenPayload
    pub verified : verify_token_grant j grant secret ≡ granted payload
    pub same_room : payload.room_name ≡ room
    pub same_identity : matches_physical_identity payload initial ≡ true

module _ (l : Lib0) (j : Jwt) (secret : Text) (initial : SyncTokenPayload) where
  -- A room that was asked for, under a grant for it.
  abbrev pub Asked : Text → Text → Text → Type 0
  Asked room grant r = (room ≡ r) × Grants j secret initial grant r

  -- The event is a binary message that subscribes to the room under a grant for it.
  abbrev pub EventGrants : Event → Text → Type 0
  EventGrants (message bytes is_binary) room =
      (grant : Text) × (is_binary ≡ true)
      × (decode_message l bytes ≡ ok (subscribe room grant))
      × Grants j secret initial grant room
  EventGrants socket_closing room = ⊥
  EventGrants socket_close room = ⊥
  EventGrants send_error room = ⊥
  EventGrants (adapter_send id payload) room = ⊥
  EventGrants (adapter_close id) room = ⊥
  EventGrants (heartbeat ping_throws) room = ⊥
  EventGrants pong room = ⊥

  abbrev pub Granted : List Event → Text → Type 0
  Granted [] room = ⊥
  Granted (e ∷ es) room = EventGrants e room ⊎ Granted es room

module _ (l : Lib0) (w : Ws) (laws : WsLaws w) (j : Jwt) (secret : Text)
    (initial : SyncTokenPayload) where
  admit_fresh-Keeps :
      (grant room : Text) (payload : SyncTokenPayload) (s : Session)
      → lookup room s.rooms ≡ none
      → verify_token_grant j grant secret ≡ granted payload
      → Keeps
          (Asked l j secret initial room grant)
          s
          (admit l w j secret initial room payload false s)
  unfolding admit
  admit_fresh-Keeps grant room payload s e g =
      elim (Bool-cases
        (not (payload.room_name === room) || not (matches_physical_identity payload initial))) [
          | inl t ↦ rw t (reject_authorization_bypass-Keeps _ l w laws room s)
          | inr f ↦
              let same : payload.room_name ≡ room =
                ground (arith, f, ===_iff payload.room_name room) in
              rw f (
                add_room-Keeps _ l w laws payload.room_name s (rw same e) (
                  sym same,
                  record {
                    payload = payload;
                    verified = g;
                    same_room = refl;
                    same_identity = ground (arith, f);
                  },
                ))
        ]

  admit_expired-Keeps :
      (P : Text → Type 0) (room : Text) (payload : SyncTokenPayload) (s : Session)
      → Keeps P s (admit l w j secret initial room payload true s)
  unfolding admit
  admit_expired-Keeps P room payload s =
      elim (Bool-cases
        (not (payload.room_name === room) || not (matches_physical_identity payload initial))) [
          | inl t ↦ rw t (reject_authorization_bypass-Keeps P l w laws room s)
          | inr f ↦ rw f (
              Keeps-trans P (record_room_close-Keeps P grant_expired s)
                (send_room_closed-Keeps P l w laws 4005 room (record_room_close grant_expired s)))
        ]

  authorize-Keeps :
      (room grant : Text) (s : Session)
      → lookup room s.rooms ≡ none
      → Keeps (Asked l j secret initial room grant) s (authorize l w j secret initial room grant s)
  unfolding authorize
  authorize-Keeps room grant s e = elim (Verified-cases (verify_token_grant j grant secret)) [
    | inl (p, g) ↦ rw (g, authorize) (admit_fresh-Keeps grant room p s e g)
    | inr (inr g) ↦ rw (g, authorize) (reject_room-Keeps _ l w laws room s)
    | inr (inl g) ↦ elim (Verified-cases (verify_token_grant_ignoring_expiration j grant secret)) [
      | inl (p, i) ↦ rw (g, i, authorize) (admit_expired-Keeps _ room p s)
      | inr (inr i) ↦ rw (g, i, authorize) (reject_room-Keeps _ l w laws room s)
      | inr (inl i) ↦ rw (g, i, authorize) (reject_room-Keeps _ l w laws room s)
    ]
  ]

  subscribe_room-Keeps :
      (room grant : Text) (s : Session)
      → Keeps
          (Asked l j secret initial room grant)
          s
          (subscribe_room l w j secret initial room grant s)
  unfolding subscribe_room
  subscribe_room-Keeps room grant s = elim (Option-cases (lookup room s.rooms)) [
    | inl e ↦ rw (e, subscribe_room) (authorize-Keeps room grant s e)
    | inr (id, e) ↦
        rw (e, subscribe_room)
          (send_physical_message-Keeps _ l w laws (subscribed room) s
            (λ r x. inr (rw (← ap room_of x) (lookup-has room s.rooms id e))))
  ]

  handle_message-Keeps :
      (bytes : List ℕ) (m : ProtocolMessage) (s : Session)
      → decode_message l bytes ≡ ok m
      → Keeps
          (EventGrants l j secret initial (message bytes true))
          s
          (handle_message l w j secret initial m s)
  unfolding handle_message
  handle_message-Keeps bytes (subscribe room grant) s d =
      Keeps-mono (Asked l j secret initial room grant)
        (EventGrants l j secret initial (message bytes true))
        (λ r (same, g). (grant, refl, rw same at d, g)) (subscribe_room-Keeps room grant s)
  handle_message-Keeps bytes (room_data room payload) s d =
      receive_data-Keeps _ l w laws room payload s
  handle_message-Keeps bytes (unsubscribe room) s d = unsubscribe_room-Keeps _ l w laws room s
  handle_message-Keeps bytes (subscribed room) s d = close_physical-Keeps _ w laws 1002 s
  handle_message-Keeps bytes (room_closed room code) s d = close_physical-Keeps _ w laws 1002 s

  pub handle_physical_message-Keeps :
      (bytes : List ℕ) (is_binary : Bool) (s : Session)
      → Keeps
          (EventGrants l j secret initial (message bytes is_binary))
          s
          (handle_physical_message l w j secret initial bytes is_binary s)
  unfolding handle_physical_message
  handle_physical_message-Keeps bytes false s = elim (Bool-cases (is_open s.physical.ready)) [
    | inl o ↦ rw o (close_physical-Keeps _ w laws 1002 s)
    | inr o ↦ rw o (cleanup_rooms-Keeps _ s)
  ]
  handle_physical_message-Keeps bytes true s = elim (Bool-cases (is_open s.physical.ready)) [
    | inr o ↦ rw o (cleanup_rooms-Keeps _ s)
    | inl o ↦ elim (Result-cases (decode_message l bytes)) [
      | inr (x, d) ↦ rw (o, handle_physical_message, d) (close_physical-Keeps _ w laws 1002 s)
      | inl (m, d) ↦ rw (o, handle_physical_message, d) (handle_message-Keeps bytes m s d)
    ]
  ]
