-- ===== src/Link/Authority.antt =====
-- src/shared-websocket.ts over websocket-server/multiplex-session.ts: the editor's sockets are open under
-- grants that the server has verified.
use mathlib.Core.Path.{subst}
use mathlib.Core.Option.{some-injective}
use vip_real_time_collaborat.Base.{
  ◌⊎◌, Bool-cases, ℕ, zero, suc, ◌≡◌, refl, sym, ap, ◌∙◌, inl, inr, Bool, true, false, Option, none,
  some, List, [], ◌∷◌, All,
}
use vip_real_time_collaborat.Base.Text.{Text, ◌===◌, ===_iff}
use vip_real_time_collaborat.Base.Maps.{lookup, has}
use vip_real_time_collaborat.Packages.{Lib0, Lib0Laws, Ws, WsLaws, Jwt, is_open}
use vip_real_time_collaborat.Auth.{SyncTokenPayload}
use vip_real_time_collaborat.Protocol.{
  ProtocolMessage, room_of, subscribe, subscribed, encode_message, decode_message,
}
use vip_real_time_collaborat.Protocol.Reader.{Result, ok, err}
use vip_real_time_collaborat.Protocol.RoundTrip.{decode_message-encode_message}
use vip_real_time_collaborat.Protocol.Strict.{decode_message_valid}
use vip_real_time_collaborat.Protocol.Types.{encoded-subscribed}
use vip_real_time_collaborat.Session.State.{Session, new_session}
use vip_real_time_collaborat.Session.Closing.{IsConsistent}
use vip_real_time_collaborat.Session.Sending.{Answered, Keeps, Keeps-mono}
use vip_real_time_collaborat.Session.Heartbeat.{
  Connection, new_connection, start as start_session, Event as SessionEvent, message,
  socket_closing, socket_close, send_error, adapter_send, adapter_close, heartbeat, pong,
  step as take_event,
}
use vip_real_time_collaborat.Session.Grants.{Grants, EventGrants}
use vip_real_time_collaborat.Session.Authorization.{step-Keeps, fresh-IsConsistent, no_room}
use vip_real_time_collaborat.Client.SharedSocket.{SharedWebSocket, Calls}
use vip_real_time_collaborat.Client.SharedSocket.Listeners.{
  Event as EditorEvent, constructed, close_called, send_called, signalled, signal_open,
  signal_message, signal_error, signal_closing, signal_close, step as take_step,
}
use vip_real_time_collaborat.Client.SharedSocket.Branches.{by_option, by_test}
use vip_real_time_collaborat.Client.SharedSocket.Kept.{any_calls}
use vip_real_time_collaborat.Client.SharedSocket.Steps.{EventAsks, event_asks, step-kept}
use vip_real_time_collaborat.Link.{
  Link, message_at, sent_of, encoded, carry_down, carry_up, is_editor_arrival, is_session_arrival,
  Event, editor_acts, session_acts, arrives_up, arrives_down, new_link, step, run,
}
use vip_real_time_collaborat.Link.Openings.{IsOpenOnly, OpenOnly-Stepped, fresh-IsOpenOnly}

-- Some grant for the room verifies, has not expired, and belongs to the connection.
abbrev pub HasGrant : Jwt → Text → SyncTokenPayload → Text → Type 0
HasGrant j secret initial room = (grant : Text) × Grants j secret initial grant room

module _ (l : Lib0) (w : Ws) (laws : Lib0Laws l) (ws_laws : WsLaws w) (j : Jwt) (secret : Text)
    (initial : SyncTokenPayload) where
  abbrev Allowed : Text → Type 0
  Allowed room = (l.is_well_formed room ≡ true) × HasGrant j secret initial room

  EventGrants-Allowed :
      (e : SessionEvent) (room : Text) → EventGrants l j secret initial e room → Allowed room
  EventGrants-Allowed (message bytes is_binary) room (grant, b, d, g) =
      ((decode_message_valid l laws bytes (subscribe room grant) d).1.0, (grant, g))
  EventGrants-Allowed socket_closing room h = absurd h
  EventGrants-Allowed socket_close room h = absurd h
  EventGrants-Allowed send_error room h = absurd h
  EventGrants-Allowed (adapter_send id payload) room h = absurd h
  EventGrants-Allowed (adapter_close id) room h = absurd h
  EventGrants-Allowed (heartbeat ping_throws) room h = absurd h
  EventGrants-Allowed pong room h = absurd h

  record SessionAllows (s : Session) : Type 0 where
    consistent : IsConsistent s
    rooms : (room : Text) → has room s.rooms ≡ true → Allowed room
    answers : (room : Text) → Answered room s.physical.sent → Allowed room

  take_event-Allows :
      (e : SessionEvent) (c : Connection)
      → SessionAllows c.session
      → SessionAllows (take_event l w j secret initial e c).session
  take_event-Allows e c a =
      let k : Keeps Allowed c.session (take_event l w j secret initial e c).session =
        Keeps-mono (EventGrants l j secret initial e) Allowed (EventGrants-Allowed e)
          (step-Keeps l w ws_laws j secret initial e c) in
      record {
        consistent = k.consistent a.consistent;
        rooms =
            λ room h. elim (k.no_new a.consistent room h) [ inl p ↦ p | inr m ↦ a.rooms room m ];
        answers = λ room h. elim (k.answered a.consistent room h) [
          | inl (inl p) ↦ p
          | inl (inr m) ↦ a.rooms room m
          | inr m ↦ a.answers room m
        ];
      }

  message_at-Answered :
      (n : ℕ) (ms : List ProtocolMessage) (room : Text)
      → message_at n ms ≡ some (subscribed room)
      → Answered room ms
  unfolding message_at
  message_at-Answered n [] room e = cc
  message_at-Answered zero (m ∷ ms) room e = inl (some-injective m (subscribed room) e)
  message_at-Answered (suc n) (m ∷ ms) room e = inr (message_at-Answered n ms room e)

  room_read : Result ProtocolMessage → Text
  room_read (ok m) = room_of m
  room_read (err e) = []

  -- A `subscribed` that the editor reads is one of the session's, for the same room.
  read-Allowed :
      (m : ProtocolMessage) (bytes : List ℕ) (room : Text) (s : Session)
      → SessionAllows s
      → ((asked : Text) → m ≡ subscribed asked → Answered asked s.physical.sent)
      → encode_message l m ≡ ok bytes
      → decode_message l bytes ≡ ok (subscribed room)
      → Allowed room
  unfolding room_read
  read-Allowed m bytes room s a sent e d =
      let is = encoded-subscribed l laws m bytes room e d in
      let allowed = a.answers (room_of m) (sent (room_of m) is) in
      let encodes : encode_message l (subscribed (room_of m)) ≡ ok bytes =
        ap (encode_message l) (sym is) ∙ e in
      let same =
        sym (decode_message-encode_message l laws (subscribed (room_of m)) bytes encodes allowed.0)
        ∙ d in
      subst Allowed (ap room_read same) allowed

  encoded-some :
      (m : ProtocolMessage) (bytes : List ℕ) (r : Result (List ℕ))
      → encode_message l m ≡ r
      → (elim r as (λ x. Option (List ℕ)) [ ok bs ↦ some bs | err e ↦ none ]) ≡ some bytes
      → encode_message l m ≡ ok bytes
  encoded-some m bytes (ok bs) r e = r ∙ ap ok (some-injective bs bytes e)
  encoded-some m bytes (err x) r e = absurd cc

  arriving-Allowed :
      (o : Option ProtocolMessage) (bytes : List ℕ) (room : Text) (s : Session)
      → SessionAllows s
      → ((asked : Text) → o ≡ some (subscribed asked) → Answered asked s.physical.sent)
      → encoded l w o ≡ some bytes
      → decode_message l bytes ≡ ok (subscribed room)
      → Allowed room
  arriving-Allowed none bytes room s a sent e d = absurd cc
  arriving-Allowed (some m) bytes room s a sent e d =
      read-Allowed m bytes room s a (λ asked q. sent asked (ap some q))
        (encoded-some m bytes (encode_message l m) refl e) d

  record LinkAllows (k : Link) : Type 0 where
    editor : IsOpenOnly Allowed k.editor
    session : SessionAllows k.connection.session

  -- An event of the editor that is no message opens no room.
  other_asks :
      (e : EditorEvent) → is_editor_arrival e ≡ false → EventAsks l (λ m. Unit {0}) Allowed e
  other_asks (constructed room grant) h = tt
  other_asks (close_called room id code calls) h = event_asks l (close_called room id code calls)
  other_asks (send_called room id payload) h = tt
  other_asks (signalled id signal_open) h = tt
  other_asks (signalled id (signal_message bytes calls)) h = absurd cc
  other_asks (signalled id (signal_error reactions)) h =
      event_asks l (signalled id (signal_error reactions))
  other_asks (signalled id signal_closing) h = tt
  other_asks (signalled id (signal_close code reactions)) h =
      event_asks l (signalled id (signal_close code reactions))

  carry_down-Allows :
      (calls : Calls) (k : Link) → LinkAllows k → LinkAllows (carry_down l w calls k)
  unfolding carry_down
  carry_down-Allows calls k a =
      by_option LinkAllows k _
        (encoded l w (message_at k.read_down k.connection.session.physical.sent)) (λ e. a)
        (λ bytes e.
          by_option LinkAllows k _ k.editor.physical (λ q. a)
            (λ p q. record {
              editor =
                  step-kept (OpenOnly-Stepped Allowed l w)
                    (signalled p.id (signal_message bytes calls)) k.editor
                    (
                      any_calls (λ m. Unit) (λ m. tt) calls,
                      λ room d.
                          arriving-Allowed
                            (message_at k.read_down k.connection.session.physical.sent) bytes room
                            k.connection.session a.session
                            (λ asked x.
                              message_at-Answered k.read_down k.connection.session.physical.sent
                                asked x)
                            e d,
                    )
                    a.editor;
              session = a.session;
            }))

  carry_up-Allows : (k : Link) → LinkAllows k → LinkAllows (carry_up l w j secret initial k)
  unfolding carry_up
  carry_up-Allows k a =
      by_option LinkAllows k _ (message_at k.read_up (sent_of k.editor.physical)) (λ e. a)
        (λ bytes e. record {
          editor = a.editor;
          session = take_event-Allows (message bytes true) k.connection a.session;
        })

  step-Allows : (e : Event) (k : Link) → LinkAllows k → LinkAllows (step l w j secret initial e k)
  unfolding step
  step-Allows (editor_acts e) k a =
      by_test LinkAllows (is_editor_arrival e) k (record k { editor = take_step l w e k.editor })
        (λ h. a)
        (λ h. record {
          editor = step-kept (OpenOnly-Stepped Allowed l w) e k.editor (other_asks e h) a.editor;
          session = a.session;
        })
  step-Allows (session_acts e) k a =
      by_test LinkAllows (is_session_arrival e) k
        (record k { connection = take_event l w j secret initial e k.connection }) (λ h. a)
        (λ h. record { editor = a.editor; session = take_event-Allows e k.connection a.session })
  step-Allows arrives_up k a = carry_up-Allows k a
  step-Allows (arrives_down calls) k a = carry_down-Allows calls k a

  run-Allows :
      (es : List Event) (k : Link) → LinkAllows k → LinkAllows (run l w j secret initial es k)
  unfolding run
  run-Allows [] k a = a
  run-Allows (e ∷ es) k a = run-Allows es (step l w j secret initial e k) (step-Allows e k a)

  fresh-Allows :
      (editor_faults session_faults : List Bool)
      → LinkAllows (new_link editor_faults session_faults)
  unfolding new_link new_connection new_session start_session
  fresh-Allows editor_faults session_faults = record {
    editor = fresh-IsOpenOnly Allowed editor_faults;
    session = record {
      consistent = fresh-IsConsistent session_faults;
      rooms = λ room h. absurd (no_room session_faults room h);
      answers = λ room h. absurd h;
    };
  }

  lookup-cases :
      (room r : Text) (u v : SharedWebSocket) (m : List (Text × SharedWebSocket))
      → lookup room ((r, u) ∷ m) ≡ some v
      → ((r === room ≡ true) × (v ≡ u)) ⊎ ((r === room ≡ false) × (lookup room m ≡ some v))
  unfolding lookup
  lookup-cases room r u v m e = elim (Bool-cases (r === room)) [
    | inl t ↦ inl (t, sym (some-injective u v (sym (rw t refl) ∙ e)))
    | inr f ↦ inr (f, sym (rw f refl) ∙ e)
  ]

  open-Allowed :
      (room : Text) (v : SharedWebSocket) (m : List (Text × SharedWebSocket))
      → All (λ (x : Text × SharedWebSocket). is_open x.1.ready ≡ true → Allowed x.0) m
      → lookup room m ≡ some v
      → is_open v.ready ≡ true
      → Allowed room
  unfolding lookup
  open-Allowed room v [] a e o = absurd cc
  open-Allowed room v ((r, u) ∷ m) (a, b) e o = elim (lookup-cases room r u v m e) [
    | inl (same, k) ↦
        subst Allowed ((===_iff r room).0 same) (a (ap (λ x. is_open x.ready) (sym k) ∙ o))
    | inr (other, k) ↦ open-Allowed room v m b k o
  ]

  -- Whatever editor, session and environment do, and whenever the messages of the two sides arrive: a
  -- virtual socket of the editor is open only for a room for which some grant verifies at the server, has
  -- not expired, and belongs to the user, blog and client of the connection, where lib0 behaves as
  -- documented and a close ends a socket.
  pub run-HasGrant :
      (editor_faults session_faults : List Bool) (es : List Event) (room : Text)
      (v : SharedWebSocket)
      → lookup room
          (run l w j secret initial es
            (new_link editor_faults session_faults)).editor.virtual_sockets
        ≡ some v
      → is_open v.ready ≡ true
      → HasGrant j secret initial room
  run-HasGrant editor_faults session_faults es room v e o =
      (open-Allowed room v _
        (run-Allows es (new_link editor_faults session_faults)
          (fresh-Allows editor_faults session_faults)).editor
        e o).1
