-- ===== src/Session/Behaviour.antt =====
-- websocket-server/multiplex-session.ts and physical-heartbeat.ts: what single requests and lapses lead to.
use vip_real_time_collaborat.Base.{
  ℕ, ◌+◌, ◌≤◌, ◌≡◌, ◌≢◌, refl, Bool, true, false, none, some, List, [], ◌∷◌, ◌++◌, arith, length,
  leb, ◌==◌,
}
use vip_real_time_collaborat.Base.Text.{Text, ===_iff, ===_refl}
use vip_real_time_collaborat.Base.Maps.{
  contains, contains-add, contains-delete, lookup, remove, has-remove, has-lookup, has-none,
  set_absent,
}
use vip_real_time_collaborat.Packages.{Lib0, Ws, WsLaws, Jwt, is_open}
use vip_real_time_collaborat.Auth.{SyncTokenPayload}
use vip_real_time_collaborat.Protocol.{ProtocolMessage, subscribed, encode_message}
use vip_real_time_collaborat.Protocol.Reader.{ok}
use vip_real_time_collaborat.Session.State.{client_unsubscribe, Session}
use vip_real_time_collaborat.Session.Closing.{
  IsConsistent, released, close_room_lem, cleanup_rooms-Cleaned,
}
use vip_real_time_collaborat.Session.Sending.{Keeps, reject_room-Keeps}
use vip_real_time_collaborat.Session.Invariant.{close_physical_ends}
use vip_real_time_collaborat.Session.Grants.{Grants}
use vip_real_time_collaborat.Session.{
  release_room, put_sent, physical_send, send_physical_message, send_room_closed, reject_room,
  reject_authorization_bypass, unsubscribe_room, register_room, add_room, receive_data, admit,
  authorize, subscribe_room,
}
use vip_real_time_collaborat.Session.Heartbeat.{
  Connection, physical_terminate, give_up, handle_interval,
}

-- The socket is not open, and no room or adapter is left.
abbrev pub HasEnded : Session → Type 0
HasEnded s = (is_open s.physical.ready ≡ false) × (s.rooms ≡ []) × (s.open_adapters ≡ [])

module _ (l : Lib0) (w : Ws) (laws : WsLaws w) where
  pub reject_authorization_bypass_again :
      (room : Text) (s : Session)
      → IsConsistent s
      → 1 ≤ s.bypass_attempts
      → HasEnded (reject_authorization_bypass l w room s)
  unfolding reject_authorization_bypass
  reject_authorization_bypass_again room s v h =
      let twice : leb 2 (reject_room l w room s0).bypass_attempts ≡ true =
        ground (arith, k.counted v0) in
      rw twice (close_physical_ends w laws 1008 (reject_room l w room s0) (k.consistent v0))
    where
      s0 : Session
      s0 = record s { bypass_attempts = s.bypass_attempts + 1 }

      v0 : IsConsistent s0
      v0 = ground arith

      k : Keeps (λ r. ⊥) s0 (reject_room l w room s0)
      k = reject_room-Keeps (λ r. ⊥) l w laws room s0

module _ (l : Lib0) (w : Ws) where
  unsubscribe_room_lem :
      (room : Text) (id : ℕ) (s : Session)
      → IsConsistent s
      → lookup room s.rooms ≡ some id
      → unsubscribe_room l w room s ≡ released room id client_unsubscribe s
  unfolding unsubscribe_room
  unsubscribe_room_lem room id s v e =
      rw (e, unsubscribe_room)
        (close_room_lem (send_room_closed l w 4005) room id client_unsubscribe s v e refl)

  released_gone :
      (room : Text) (id : ℕ) (s : Session)
      → IsConsistent s
      → let t = released room id client_unsubscribe s in
        (lookup room t.rooms ≡ none) × (contains room t.closed_rooms ≡ true)
  unfolding release_room
  released_gone room id s v = (
    has-lookup room (remove room s.rooms)
        (ground (arith, has-remove room room s.rooms v.distinct, ===_refl room)),
    ground (arith, contains-add room room s.closed_rooms, ===_refl room),
  )

  unsubscribe_absent :
      (room : Text) (s : Session) → lookup room s.rooms ≡ none → unsubscribe_room l w room s ≡ s
  unfolding unsubscribe_room
  unsubscribe_absent room s e = rw (e, unsubscribe_room)

  receive_closed :
      (room : Text) (payload : List ℕ) (s : Session)
      → lookup room s.rooms ≡ none
      → contains room s.closed_rooms ≡ true
      → receive_data l w room payload s ≡ s
  unfolding receive_data
  receive_closed room payload s e c = rw (e, receive_data, c)

  -- After a room was unsubscribed it is not open, and a second unsubscribe and late data for it change
  -- nothing.
  pub unsubscribe_room_late :
      (room : Text) (id : ℕ) (payload : List ℕ) (s : Session)
      → IsConsistent s
      → lookup room s.rooms ≡ some id
      → (lookup room (unsubscribe_room l w room s).rooms ≡ none)
        × (unsubscribe_room l w room (unsubscribe_room l w room s) ≡ unsubscribe_room l w room s)
        × (receive_data l w room payload (unsubscribe_room l w room s)
            ≡ unsubscribe_room l w room s)
  unsubscribe_room_late room id payload s v e =
      let (gone, shut) = released_gone room id s v in
      rw (unsubscribe_room_lem room id s v e)
        (gone, unsubscribe_absent room _ gone, receive_closed room payload _ gone shut)

  pub send_accepted :
      (m : ProtocolMessage) (bytes : List ℕ) (s : Session)
      → encode_message l m ≡ ok bytes
      → s.physical.faults ≡ []
      → send_physical_message l w m s ≡ (put_sent m s, true)
  unfolding send_physical_message physical_send
  send_accepted m bytes s e f = rw (e, send_physical_message) (rw (f, physical_send))

  -- The session after a room was added on a socket that took the message.
  abbrev added : Text → Session → Session
  added room s = record (put_sent (subscribed room) (register_room room s)) {
    set_up = s.next_adapter ∷ s.set_up;
  }

  add_room_lem :
      (room : Text) (bytes : List ℕ) (s : Session)
      → encode_message l (subscribed room) ≡ ok bytes
      → s.physical.faults ≡ []
      → add_room l w room s ≡ added room s
  unfolding add_room
  add_room_lem room bytes s e f =
      rw
        (send_accepted (subscribed room) bytes (register_room room s) e (unfold register_room in f))
        (unfold put_sent register_room in refl)

module _ (l : Lib0) (w : Ws) (j : Jwt) (secret : Text) (initial : SyncTokenPayload) where
  subscribe_room_granted :
      (room grant : Text) (s : Session)
      → lookup room s.rooms ≡ none
      → Grants j secret initial grant room
      → subscribe_room l w j secret initial room grant s ≡ add_room l w room s
  unfolding subscribe_room authorize admit
  subscribe_room_granted room grant s e g =
      rw (e, subscribe_room)
        (rw (g.verified, authorize)
          (ground (arith, g.same_room, g.same_identity, ===_iff g.payload.room_name room)))

  -- A subscribe under a grant for the room opens it, tells the client, and hands the new adapter to
  -- the room server, where the socket takes the message.
  pub subscribe_room_opens :
      (room grant : Text) (bytes : List ℕ) (s : Session)
      → lookup room s.rooms ≡ none
      → Grants j secret initial grant room
      → encode_message l (subscribed room) ≡ ok bytes
      → s.physical.faults ≡ []
      → let t = subscribe_room l w j secret initial room grant s in
        (t.rooms ≡ s.rooms ++ (room, s.next_adapter) ∷ [])
        × (t.physical.sent ≡ s.physical.sent ++ subscribed room ∷ [])
        × (t.set_up ≡ s.next_adapter ∷ s.set_up)
        × (contains room t.closed_rooms ≡ false)
  subscribe_room_opens room grant bytes s e g c f =
      rw (subscribe_room_granted room grant s e g, add_room_lem l w room bytes s c f)
        (unfold put_sent register_room in
          (
            set_absent room s.next_adapter s.rooms (has-none room s.rooms e),
            refl,
            refl,
            ground (arith, contains-delete room room s.closed_rooms, ===_refl room),
          ))

not_empty : (m : List (Text × ℕ)) → m ≢ [] → (length m == 0) ≡ false
not_empty [] h = absurd (h refl)
not_empty (x ∷ m) h = ground arith

module _ (w : Ws) (laws : WsLaws w) where
  give_up_ends : (c : Connection) → IsConsistent c.session → HasEnded (give_up w c).session
  unfolding give_up physical_terminate
  give_up_ends c v =
      let k = cleanup_rooms-Cleaned c.session v in
      (laws.terminate_ends _, k.no_rooms, k.no_adapters)

  give_up_stops : (c : Connection) → (give_up w c).stopped ≡ true
  unfolding give_up
  give_up_stops c = refl

  -- Two intervals with no pong between them end a session that has rooms: every room is closed, and the
  -- socket terminated.
  pub handle_interval_unanswered :
      (first second : Bool) (c : Connection)
      → IsConsistent c.session
      → c.stopped ≡ false
      → is_open c.session.physical.ready ≡ true
      → c.session.rooms ≢ []
      → let t = handle_interval w second (handle_interval w first c) in
        HasEnded t.session × (t.stopped ≡ true)
  unfolding handle_interval
  handle_interval_unanswered first second c v n o r =
      let asked : Connection = record c { pong_received = false } in
      let waiting : Connection = record c { pong_received = false; pings = c.pings + 1 } in
      ground (
        arith,
        not_empty c.session.rooms r,
        give_up_ends c v,
        give_up_ends asked v,
        give_up_ends waiting v,
        give_up_stops c,
        give_up_stops asked,
        give_up_stops waiting,
      )
