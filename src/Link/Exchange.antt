-- ===== src/Link/Exchange.antt =====
-- src/shared-websocket.ts and websocket-server/multiplex-session.ts: a subscription and its payloads, from
-- the call of one side to the callback of the other.
use vip_real_time_collaborat.Base.{
  ℕ, suc, ◌≡◌, refl, ap, ◌∙◌, ==_iff, true, none, some, List, [], ◌∷◌, ◌++◌, length, arith,
}
use vip_real_time_collaborat.Base.Text.{Text}
use vip_real_time_collaborat.Base.Maps.{lookup}
use vip_real_time_collaborat.Packages.{Lib0, Lib0Laws, Ws, Jwt, is_open, opened}
use vip_real_time_collaborat.Auth.{SyncTokenPayload}
use vip_real_time_collaborat.Protocol.{
  ProtocolMessage, subscribe, subscribed, room_data, encode_message,
}
use vip_real_time_collaborat.Protocol.Reader.{ok}
use vip_real_time_collaborat.Protocol.RoundTrip.{
  TextsWellFormed, frame, encode_message_needs, encode_message-frame,
}
use vip_real_time_collaborat.Session.State.{adapter_room}
use vip_real_time_collaborat.Session.{subscribe_room, room_send}
use vip_real_time_collaborat.Session.Heartbeat.{on_session}
use vip_real_time_collaborat.Session.Grants.{Grants}
use vip_real_time_collaborat.Session.Behaviour.{subscribe_room_opens}
use vip_real_time_collaborat.Session.Wire.{
  handle_message-subscribe, handle_message-data, room_send-sent,
}
use vip_real_time_collaborat.Client.SharedSocket.{
  SharedWebSocket, Physical, Shared, on_open, on_message, notify, with_ready, is_connecting,
  ready_of, Calls, perform, physical_send, send_physical_message, send,
}
use vip_real_time_collaborat.Client.SharedSocket.Listeners.{
  open_room, receive, receive_subscribed, receive_data,
}
use vip_real_time_collaborat.Link.{Link, message_at, sent_of, carry_down, carry_up}
use vip_real_time_collaborat.Link.Arrivals.{
  message_at-append, carry_down-received, carry_up-handled,
}

lookup-open_room :
    (room : Text) (v : SharedWebSocket) (m : List (Text × SharedWebSocket))
    → lookup room m ≡ some v
    → lookup room (open_room room m) ≡ some (with_ready opened v)
unfolding lookup open_room
lookup-open_room room v [] e = absurd cc
lookup-open_room room v ((r, u) ∷ m) e = ground (arith, lookup-open_room room v m, e)

-- The virtual socket of the room is open, and its `open` was the last callback.
abbrev pub HasOpened : Text → SharedWebSocket → Shared → Shared → Type 0
HasOpened room v before after =
    (lookup room after.virtual_sockets ≡ some (with_ready opened v))
    × (after.notices ≡ on_open v.id ∷ before.notices)

-- `on_open` comes before what the callback does.
receive_subscribed-HasOpened :
    (l : Lib0) (w : Ws) (p : Physical) (room : Text) (v : SharedWebSocket) (calls : Calls)
    (s : Shared)
    → lookup room s.virtual_sockets ≡ some v
    → is_connecting v.ready ≡ true
    → (t : Shared) × (HasOpened room v s t
        × (receive l w p (subscribed room) calls s ≡ perform l w calls t))
unfolding receive receive_subscribed notify
receive_subscribed-HasOpened l w p room v calls s e c = (
  notify (on_open v.id) (record s { virtual_sockets = open_room room s.virtual_sockets }),
  ((lookup-open_room room v s.virtual_sockets e, refl), simp (e, receive_subscribed) (simp c refl)),
)

receive-data :
    (l : Lib0) (w : Ws) (p : Physical) (room : Text) (payload : List ℕ) (v : SharedWebSocket)
    (calls : Calls) (s : Shared)
    → lookup room s.virtual_sockets ≡ some v
    → is_open v.ready ≡ true
    → receive l w p (room_data room payload) calls s
      ≡ perform l w calls (notify (on_message v.id payload) s)
unfolding receive receive_data
receive-data l w p room payload v calls s e c = simp (e, receive_data) (simp c refl)

ready_of-found :
    (room : Text) (v : SharedWebSocket) (s : Shared)
    → lookup room s.virtual_sockets ≡ some v
    → ready_of room v.id s ≡ v.ready
unfolding ready_of
ready_of-found room v s h = simp (h, ready_of) (simp ((==_iff v.id v.id).1 refl) refl)

module _ (l : Lib0) (w : Ws) where
  send-accepted :
      (m : ProtocolMessage) (bytes : List ℕ) (p : Physical) (s : Shared)
      → s.physical ≡ some p
      → is_open p.ready ≡ true
      → s.faults ≡ []
      → encode_message l m ≡ ok bytes
      → send_physical_message l w m s
        ≡ (record s { physical = some (record p { sent = p.sent ++ bytes ∷ [] }) }, true)
  unfolding send_physical_message physical_send
  send-accepted m bytes p s e o f b =
      simp (e, send_physical_message) (simp o (simp b (simp (f, physical_send) refl)))

  -- A socket that is open hands its message to an open physical socket that takes it.
  send-sent :
      (room : Text) (payload bytes : List ℕ) (v : SharedWebSocket) (p : Physical) (s : Shared)
      → s.physical ≡ some p
      → is_open p.ready ≡ true
      → lookup room s.virtual_sockets ≡ some v
      → is_open v.ready ≡ true
      → s.faults ≡ []
      → encode_message l (room_data room payload) ≡ ok bytes
      → sent_of (send l w room v.id payload s).0.physical ≡ p.sent ++ bytes ∷ []
  unfolding send
  send-sent room payload bytes v p s e o h c f b =
      simp (ready_of-found room v s h, send)
        (simp c (simp (send-accepted (room_data room payload) bytes p s e o f b) refl))

module _ (l : Lib0) (w : Ws) (laws : Lib0Laws l) where
  -- A room that the encoder takes in a subscribe can be answered.
  answer :
      (room grant : Text) (bytes : List ℕ)
      → encode_message l (subscribe room grant) ≡ ok bytes
      → encode_message l (subscribed room) ≡ ok (frame l (subscribed room))
  answer room grant bytes b =
      let v = encode_message_needs l (subscribe room grant) bytes b in
      encode_message-frame l laws (subscribed room)
        (record { room_present = v.room_present; room_fits = v.room_fits; fields_fit = tt })

  answered :
      (room : Text) (v : SharedWebSocket) (p : Physical) (calls : Calls) (k : Link)
      → k.editor.physical ≡ some p
      → lookup room k.editor.virtual_sockets ≡ some v
      → is_connecting v.ready ≡ true
      → message_at k.read_down k.connection.session.physical.sent ≡ some (subscribed room)
      → encode_message l (subscribed room) ≡ ok (frame l (subscribed room))
      → l.is_well_formed room ≡ true
      → (t : Shared) × (HasOpened room v k.editor t
          × ((carry_down l w calls k).editor ≡ perform l w calls t))
  answered room v p calls k e h c n b t =
      let (s, (opens, is)) = receive_subscribed-HasOpened l w p room v calls k.editor h c in
      (
        s,
        (
          opens,
          carry_down-received l w laws p (subscribed room) (frame l (subscribed room)) calls k n e b
                t
              ∙ is,
        ),
      )

  -- An editor's subscribe under a grant for its room, on an open connection without other messages in
  -- transit that takes the answer: when it has arrived, the session has the room, with a new adapter that
  -- is given to the room server; when the answer has arrived, the virtual socket of the room is open and
  -- its `open` was called, and the editor then does what that callback calls.
  pub carry_down-carry_up-HasOpened :
      (j : Jwt) (secret : Text) (initial : SyncTokenPayload) (room grant : Text) (bytes : List ℕ)
      (v : SharedWebSocket) (p : Physical) (calls : Calls) (k : Link)
      → k.editor.physical ≡ some p
      → message_at k.read_up p.sent ≡ some bytes
      → encode_message l (subscribe room grant) ≡ ok bytes
      → TextsWellFormed l (subscribe room grant)
      → lookup room k.editor.virtual_sockets ≡ some v
      → is_connecting v.ready ≡ true
      → k.read_down ≡ length k.connection.session.physical.sent
      → k.connection.session.started ≡ true
      → is_open k.connection.session.physical.ready ≡ true
      → k.connection.session.physical.faults ≡ []
      → lookup room k.connection.session.rooms ≡ none
      → Grants j secret initial grant room
      → let arrived = carry_up l w j secret initial k in
        (arrived.connection.session.rooms
          ≡ k.connection.session.rooms ++ (room, k.connection.session.next_adapter) ∷ [])
        × (arrived.connection.session.set_up
            ≡ k.connection.session.next_adapter ∷ k.connection.session.set_up)
        × ((t : Shared) × (HasOpened room v k.editor t
              × ((carry_down l w calls arrived).editor ≡ perform l w calls t)))
  carry_down-carry_up-HasOpened j secret initial room grant bytes v p calls k e n b t h c r z o f a
        g =
      let handled =
        carry_up-handled l w laws j secret initial (subscribe room grant) bytes k
          (ap (λ x. message_at k.read_up (sent_of x)) e ∙ n) z o b t in
      let reply = answer room grant bytes b in
      let opens =
        subscribe_room_opens l w j secret initial room grant (frame l (subscribed room))
          k.connection.session a g reply f in
      let k1 : Link = record k {
        connection = on_session (subscribe_room l w j secret initial room grant) k.connection;
        read_up = suc k.read_up;
      } in
      let next : message_at k.read_down k1.connection.session.physical.sent
          ≡ some (subscribed room) =
        ap (message_at k.read_down) opens.1
        ∙ (ap (λ i. message_at i (k.connection.session.physical.sent ++ subscribed room ∷ [])) r
            ∙ message_at-append k.connection.session.physical.sent (subscribed room)) in
      rw handled (
        rw (handle_message-subscribe l w j secret initial room grant k.connection.session)
          (opens.0, opens.2, answered room v p calls k1 e h c next reply t.0))

  -- In an open room of an open connection without other messages in transit: a payload that the editor
  -- sends is emitted on the adapter of the room, and one that the adapter sends is given to `onmessage` of
  -- the virtual socket of the room, unchanged, before anything that this callback calls, where the encoder takes them and the sends do not fail.
  pub carry-delivered :
      (j : Jwt) (secret : Text) (initial : SyncTokenPayload) (room : Text) (asked replied : List ℕ)
      (bytes answer_bytes : List ℕ) (v : SharedWebSocket) (p : Physical) (id : ℕ) (calls : Calls)
      (k : Link)
      → k.editor.physical ≡ some p
      → is_open p.ready ≡ true
      → lookup room k.editor.virtual_sockets ≡ some v
      → is_open v.ready ≡ true
      → k.editor.faults ≡ []
      → lookup room k.connection.session.rooms ≡ some id
      → adapter_room id k.connection.session.open_adapters ≡ some room
      → k.connection.session.started ≡ true
      → is_open k.connection.session.physical.ready ≡ true
      → k.connection.session.physical.faults ≡ []
      → k.read_up ≡ length p.sent
      → k.read_down ≡ length k.connection.session.physical.sent
      → l.is_well_formed room ≡ true
      → encode_message l (room_data room asked) ≡ ok bytes
      → encode_message l (room_data room replied) ≡ ok answer_bytes
      → ((carry_up l w j secret initial (record k {
        editor = (send l w room v.id asked k.editor).0;
      })).connection.session.delivered
          ≡ (id, asked) ∷ k.connection.session.delivered)
        × ((carry_down l w calls
              (record k { connection = on_session (room_send l w id replied) k.connection })).editor
            ≡ perform l w calls (notify (on_message v.id replied) k.editor))
  carry-delivered j secret initial room asked replied bytes answer_bytes v p id calls k e o h c f rs
        ad z so sf u d t b1 b2 =
      let k1 : Link = record k { editor = (send l w room v.id asked k.editor).0 } in
      let k2 : Link = record k {
        connection = on_session (room_send l w id replied) k.connection;
      } in
      let sent1 = send-sent l w room asked bytes v p k.editor e o h c f b1 in
      let sent2 = room_send-sent l w room replied answer_bytes id k.connection.session ad b2 sf in
      let next1 : message_at k.read_up (sent_of k1.editor.physical) ≡ some bytes =
        ap (message_at k.read_up) sent1
        ∙ (ap (λ i. message_at i (p.sent ++ bytes ∷ [])) u ∙ message_at-append p.sent bytes) in
      let next2 : message_at k.read_down k2.connection.session.physical.sent
          ≡ some (room_data room replied) =
        ap (message_at k.read_down) sent2
        ∙ (ap
              (λ i.
                message_at i (k.connection.session.physical.sent ++ room_data room replied ∷ []))
              d
            ∙ message_at-append k.connection.session.physical.sent (room_data room replied)) in
      (
        ap (λ x. x.connection.session.delivered)
              (carry_up-handled l w laws j secret initial (room_data room asked) bytes k1 next1 z so
                b1 t)
            ∙ handle_message-data l w j secret initial room asked id k.connection.session rs,
        carry_down-received l w laws p (room_data room replied) answer_bytes calls k2 next2 e b2 t
            ∙ receive-data l w p room replied v calls k.editor h c,
      )
