-- ===== src/Session/Sending.antt =====
-- websocket-server/multiplex-session.ts: what each operation of a session keeps.
use vip_real_time_collaborat.Base.{
  ℕ, ◌≤◌, ◌≡◌, refl, ◌⊎◌, inl, inr, Bool, true, false, some, List, [], ◌∷◌, ◌++◌, arith, Bool-cases,
  Option-cases,
}
use vip_real_time_collaborat.Base.Text.{Text}
use vip_real_time_collaborat.Base.Maps.{lookup, has, has-remove}
use vip_real_time_collaborat.Packages.{Lib0, Ws, WsLaws, is_open}
use vip_real_time_collaborat.Protocol.{ProtocolMessage, subscribed, room_closed, encode_message}
use vip_real_time_collaborat.Protocol.Reader.{Result-cases}
use vip_real_time_collaborat.Session.State.{
  CloseReason, client_unsubscribe, authorization_rejected, Session, record_room_close,
}
use vip_real_time_collaborat.Session.Closing.{
  IsConsistent, released, released-IsConsistent, close_room_lem, cleanup_rooms-Cleaned,
}
use vip_real_time_collaborat.Session.{
  release_room, cleanup_rooms, put_sent, set_faults, physical_close, close_physical,
  handle_physical_send_error, physical_send, send_physical_message, send_room_closed, reject_room,
  unsubscribe_room,
}

-- While the socket is open, at most one attempt to bypass the authorization was made.
abbrev pub IsLimited : Session → Type 0
IsLimited s = is_open s.physical.ready ≡ true → s.bypass_attempts ≤ 1

-- The client was told that it is subscribed to the room.
abbrev pub Answered : Text → List ProtocolMessage → Type 0
Answered room [] = ⊥
Answered room (m ∷ ms) = (m ≡ subscribed room) ⊎ Answered room ms

Answered-append :
    (room : Text) (ms : List ProtocolMessage) (m : ProtocolMessage)
    → Answered room (ms ++ m ∷ [])
    → (m ≡ subscribed room) ⊎ Answered room ms
Answered-append room [] m (inl e) = inl e
Answered-append room [] m (inr h) = absurd h
Answered-append room (n ∷ ms) m (inl e) = inr (inl e)
Answered-append room (n ∷ ms) m (inr h) = elim (Answered-append room ms m h) [
  | inl e ↦ inl e
  | inr k ↦ inr (inr k)
]

-- From `s` to `t`: consistency and the limit are kept, an ended socket stays so, attempts only grow
-- in number, and any room that is new, or new among the answers, satisfies `P`.
pub record Keeps (P : Text → Type 0) (s t : Session) : Type 0 where
  pub consistent : IsConsistent s → IsConsistent t
  pub limited : IsConsistent s → IsLimited s → IsLimited t
  pub ended : IsConsistent s → is_open s.physical.ready ≡ false → is_open t.physical.ready ≡ false
  pub counted : IsConsistent s → s.bypass_attempts ≤ t.bypass_attempts
  pub no_new : IsConsistent s → (r : Text) → has r t.rooms ≡ true → P r ⊎ (has r s.rooms ≡ true)
  pub answered :
      IsConsistent s
      → (r : Text) → Answered r t.physical.sent
      → (P r ⊎ (has r s.rooms ≡ true)) ⊎ Answered r s.physical.sent

module _ (P : Text → Type 0) where
  pub Keeps-refl : (s : Session) → Keeps P s s
  Keeps-refl s = record {
    consistent = λ v. v;
    limited = λ v h. h;
    ended = λ v h. h;
    counted = λ v. omega arith;
    no_new = λ v r h. inr h;
    answered = λ v r h. inr h;
  }

  -- Consistency of the first state may be taken for granted.
  pub Keeps-given : {s t : Session} → (IsConsistent s → Keeps P s t) → Keeps P s t
  Keeps-given f = record {
    consistent = λ v. (f v).consistent v;
    limited = λ v. (f v).limited v;
    ended = λ v. (f v).ended v;
    counted = λ v. (f v).counted v;
    no_new = λ v. (f v).no_new v;
    answered = λ v. (f v).answered v;
  }

  pub Keeps-trans : {s t u : Session} → Keeps P s t → Keeps P t u → Keeps P s u
  Keeps-trans {s} {t} {u} a b = record {
    consistent = λ v. b.consistent (a.consistent v);
    limited = λ v h. b.limited (a.consistent v) (a.limited v h);
    ended = λ v h. b.ended (a.consistent v) (a.ended v h);
    counted = λ v. omega (arith, a.counted v, b.counted (a.consistent v));
    no_new =
        λ v r h. elim (b.no_new (a.consistent v) r h) [ inl p ↦ inl p | inr k ↦ a.no_new v r k ];
    answered = λ v r h. elim (b.answered (a.consistent v) r h) [
      | inl (inl p) ↦ inl (inl p)
      | inl (inr k) ↦ inl (a.no_new v r k)
      | inr k ↦ a.answered v r k
    ];
  }

  -- A socket that ends keeps the rest as it was.
  pub Keeps-ended :
      (s t : Session)
      → (IsConsistent s → IsConsistent t)
      → is_open t.physical.ready ≡ false
      → t.bypass_attempts ≡ s.bypass_attempts
      → t.rooms ≡ s.rooms
      → t.physical.sent ≡ s.physical.sent
      → Keeps P s t
  Keeps-ended s t c e b m q = record {
    consistent = c;
    limited = λ v h o. cc;
    ended = λ v h. e;
    counted = λ v. omega arith;
    no_new = λ v r h. inr (rw m at h);
    answered = λ v r h. inr (rw q at h);
  }

  -- A change that keeps what consistency and the limit speak of.
  pub Keeps-same :
      (s t : Session)
      → (IsConsistent s → IsConsistent t)
      → t.physical.ready ≡ s.physical.ready
      → t.bypass_attempts ≡ s.bypass_attempts
      → t.rooms ≡ s.rooms
      → t.physical.sent ≡ s.physical.sent
      → Keeps P s t
  Keeps-same s t c e b m q = record {
    consistent = c;
    limited = λ v h o. rw b (h (rw e at o));
    ended = λ v h. rw e h;
    counted = λ v. omega arith;
    no_new = λ v r h. inr (rw m at h);
    answered = λ v r h. inr (rw q at h);
  }

  pub cleanup_rooms-Keeps : (s : Session) → Keeps P s (cleanup_rooms s)
  unfolding has
  cleanup_rooms-Keeps s = record {
    consistent = λ v. (cleanup_rooms-Cleaned s v).consistent;
    limited = λ v h o.
        let c = cleanup_rooms-Cleaned s v in rw c.same_attempts (h (rw c.same_physical at o));
    ended = λ v h. rw (cleanup_rooms-Cleaned s v).same_physical h;
    counted = λ v. omega (arith, (cleanup_rooms-Cleaned s v).same_attempts);
    no_new = λ v r h. cc (rw (cleanup_rooms-Cleaned s v).no_rooms at h);
    answered = λ v r h. inr (rw (cleanup_rooms-Cleaned s v).same_physical at h);
  }

  pub released-Keeps :
      (room : Text) (id : ℕ) (reason : CloseReason) (s : Session)
      → lookup room s.rooms ≡ some id
      → Keeps P s (released room id reason s)
  unfolding release_room
  released-Keeps room id reason s e = record {
    consistent = λ v. unfold release_room in (released-IsConsistent room id reason s v e);
    limited = λ v h. h;
    ended = λ v h. h;
    counted = λ v. omega arith;
    no_new = λ v r h. inr (ground (arith, has-remove r room s.rooms v.distinct));
    answered = λ v r h. inr h;
  }

pub Keeps-mono :
    (P Q : Text → Type 0) {s t : Session} → ((r : Text) → P r → Q r) → Keeps P s t → Keeps Q s t
Keeps-mono P Q f k = record {
  consistent = k.consistent;
  limited = k.limited;
  ended = k.ended;
  counted = k.counted;
  no_new = λ v r h. elim (k.no_new v r h) [ inl p ↦ inl (f r p) | inr m ↦ inr m ];
  answered = λ v r h. elim (k.answered v r h) [
    | inl (inl p) ↦ inl (inl (f r p))
    | inl (inr m) ↦ inl (inr m)
    | inr m ↦ inr m
  ];
}

module _ (P : Text → Type 0) (w : Ws) (laws : WsLaws w) where
  pub physical_close-Keeps : (code : ℕ) (s : Session) → Keeps P s (physical_close w code s)
  unfolding physical_close
  physical_close-Keeps code s =
      Keeps-ended P s _ (λ v. ground arith) (laws.close_ends s.physical.ready) refl refl refl

  pub close_physical-Keeps : (code : ℕ) (s : Session) → Keeps P s (close_physical w code s)
  unfolding close_physical
  close_physical-Keeps code s =
      Keeps-trans P (cleanup_rooms-Keeps P s) (physical_close-Keeps code (cleanup_rooms s))

  pub handle_physical_send_error-Keeps : (s : Session) → Keeps P s (handle_physical_send_error w s)
  unfolding handle_physical_send_error
  handle_physical_send_error-Keeps s =
      elim (Bool-cases (is_open (cleanup_rooms s).physical.ready)) [
        | inl e ↦
            rw e (
              Keeps-trans P (cleanup_rooms-Keeps P s) (physical_close-Keeps 1011 (cleanup_rooms s)))
        | inr e ↦ rw e (cleanup_rooms-Keeps P s)
      ]

module _ (P : Text → Type 0) where
  -- An answer is only for a room that is open, or satisfies `P`.
  abbrev pub IsAnswerable : ProtocolMessage → Session → Type 0
  IsAnswerable m s = (r : Text) → m ≡ subscribed r → P r ⊎ (has r s.rooms ≡ true)

  put_sent-Keeps : (m : ProtocolMessage) (s : Session) → IsAnswerable m s → Keeps P s (put_sent m s)
  unfolding put_sent
  put_sent-Keeps m s a = record {
    consistent = λ v. ground arith;
    limited = λ v h. h;
    ended = λ v h. h;
    counted = λ v. omega arith;
    no_new = λ v r h. inr h;
    answered = λ v r h. elim (Answered-append r s.physical.sent m h) [
      | inl e ↦ inl (a r e)
      | inr k ↦ inr k
    ];
  }

  set_faults-Keeps : (faults : List Bool) (s : Session) → Keeps P s (set_faults faults s)
  unfolding set_faults
  set_faults-Keeps faults s = Keeps-same P s _ (λ v. ground arith) refl refl refl refl

  pub record_room_close-Keeps :
      (reason : CloseReason) (s : Session) → Keeps P s (record_room_close reason s)
  unfolding record_room_close
  record_room_close-Keeps reason s = Keeps-same P s _ (λ v. ground arith) refl refl refl refl

module _ (P : Text → Type 0) (l : Lib0) (w : Ws) (laws : WsLaws w) where
  physical_send-Keeps :
      (m : ProtocolMessage) (faults : List Bool) (s : Session)
      → IsAnswerable P m s
      → Keeps P s (physical_send w m faults s).0
  unfolding physical_send set_faults
  physical_send-Keeps m [] s a = put_sent-Keeps P m s a
  physical_send-Keeps m (false ∷ faults) s a =
      Keeps-trans P (set_faults-Keeps P faults s) (put_sent-Keeps P m (set_faults faults s) a)
  physical_send-Keeps m (true ∷ faults) s a =
      Keeps-trans P (set_faults-Keeps P faults s)
        (handle_physical_send_error-Keeps P w laws (set_faults faults s))

  pub send_physical_message-Keeps :
      (m : ProtocolMessage) (s : Session)
      → IsAnswerable P m s
      → Keeps P s (send_physical_message l w m s).0
  unfolding send_physical_message
  send_physical_message-Keeps m s a = elim (Result-cases (encode_message l m)) [
    | inr (x, r) ↦ rw (r, send_physical_message) (handle_physical_send_error-Keeps P w laws s)
    | inl (bytes, r) ↦ rw (r, send_physical_message) (physical_send-Keeps m s.physical.faults s a)
  ]

  pub send_room_closed-Keeps :
      (code : ℕ) (room : Text) (s : Session) → Keeps P s (send_room_closed l w code room s)
  unfolding send_room_closed
  send_room_closed-Keeps code room s =
      send_physical_message-Keeps (room_closed room code) s (λ r e. absurd cc)

  pub reject_room-Keeps : (room : Text) (s : Session) → Keeps P s (reject_room l w room s)
  unfolding reject_room
  reject_room-Keeps room s =
      Keeps-trans P (record_room_close-Keeps P authorization_rejected s)
        (send_room_closed-Keeps 4004 room (record_room_close authorization_rejected s))

  pub unsubscribe_room-Keeps : (room : Text) (s : Session) → Keeps P s (unsubscribe_room l w room s)
  unfolding unsubscribe_room
  unsubscribe_room-Keeps room s = elim (Option-cases (lookup room s.rooms)) [
    | inl e ↦ rw (e, unsubscribe_room) (Keeps-refl P s)
    | inr (id, e) ↦
        rw (e, unsubscribe_room)
          (Keeps-given P (λ v.
            rw (close_room_lem (send_room_closed l w 4005) room id client_unsubscribe s v e refl)
              (released-Keeps P room id client_unsubscribe s e)))
  ]
