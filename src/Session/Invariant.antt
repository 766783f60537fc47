-- ===== src/Session/Invariant.antt =====
-- websocket-server/multiplex-session.ts: what the handlers of a session keep under every event.
use vip_real_time_collaborat.Base.{
  ℕ, suc, ◌+◌, ◌≡◌, refl, sym, ap, inl, inr, false, none, some, List, [], ◌∷◌, ◌++◌, arith, length,
  if◌then◌else◌, Bool-cases, Option-cases, leb,
}
use vip_real_time_collaborat.Base.Text.{Text, ◌===◌, ===_iff}
use vip_real_time_collaborat.Base.Maps.{
  contains, lookup, has, set, has-set, has-none, set_absent, Distinct-set, length-set_absent,
}
use vip_real_time_collaborat.Packages.{Lib0, Ws, WsLaws, is_open}
use vip_real_time_collaborat.Protocol.{subscribed, room_data, room_of}
use vip_real_time_collaborat.Session.State.{server_room_close, Session, adapter_room}
use vip_real_time_collaborat.Session.Rooms.{
  adapters_of-append, Rising-append, Apart-append, lookup-adapter_room,
}
use vip_real_time_collaborat.Session.Closing.{
  IsConsistent, released, close_adapter_lem, cleanup_rooms-Cleaned,
}
use vip_real_time_collaborat.Session.Sending.{
  Keeps, Keeps-refl, Keeps-trans, Keeps-given, Keeps-same, released-Keeps, close_physical-Keeps,
  send_physical_message-Keeps, send_room_closed-Keeps, reject_room-Keeps,
}
use vip_real_time_collaborat.Session.{
  physical_close, close_physical, send_physical_message, send_room_closed, reject_room,
  reject_authorization_bypass, register_room, add_room, receive_data, close_adapter, room_send,
  room_close,
}

-- After a cleanup and a close the socket is not open, and no room is left.
pub close_physical_ends :
    (w : Ws) (laws : WsLaws w) (code : ℕ) (s : Session)
    → IsConsistent s
    → (is_open (close_physical w code s).physical.ready ≡ false)
      × ((close_physical w code s).rooms ≡ [])
      × ((close_physical w code s).open_adapters ≡ [])
unfolding close_physical physical_close
close_physical_ends w laws code s v =
    let c = cleanup_rooms-Cleaned s v in (laws.close_ends _, c.no_rooms, c.no_adapters)

pub register_room-IsConsistent :
    (room : Text) (s : Session)
    → IsConsistent s
    → lookup room s.rooms ≡ none
    → IsConsistent (register_room room s)
unfolding register_room
register_room-IsConsistent room s v e = record {
  adapters = rw (added, v.adapters) (sym (adapters_of-append room s.next_adapter s.rooms));
  distinct = Distinct-set room s.next_adapter s.rooms v.distinct;
  rising = rw added (Rising-append room 0 s.next_adapter s.rooms v.rising);
  apart = rw added (Apart-append room s.next_adapter s.rooms s.closed_rooms v.apart);
  nothing_expected = v.nothing_expected;
  gauge = omega (arith, v.gauge, longer);
  peak = ground (arith, v.peak, longer);
}
  where
    absent : has room s.rooms ≡ false
    absent = has-none room s.rooms e

    added : set room s.next_adapter s.rooms ≡ s.rooms ++ (room, s.next_adapter) ∷ []
    added = set_absent room s.next_adapter s.rooms absent

    longer : length (set room s.next_adapter s.rooms) ≡ suc (length s.rooms)
    longer = length-set_absent room s.next_adapter s.rooms absent

register_room-Keeps :
    (P : Text → Type 0) (room : Text) (s : Session)
    → lookup room s.rooms ≡ none
    → P room
    → Keeps P s (register_room room s)
unfolding register_room
register_room-Keeps P room s e p = record {
  consistent = λ v. unfold register_room in (register_room-IsConsistent room s v e);
  limited = λ v h. h;
  ended = λ v h. h;
  counted = λ v. omega arith;
  no_new = λ v r h. elim (Bool-cases (room === r)) [
    | inl same ↦ inl (rw (← (===_iff room r).0 same) p)
    | inr other ↦ inr (ground (arith, has-set r room s.next_adapter s.rooms))
  ];
  answered = λ v r h. inr h;
}

module _ (P : Text → Type 0) (l : Lib0) (w : Ws) (laws : WsLaws w) where
  counted_attempt :
      (s : Session)
      → IsConsistent s
      → IsConsistent (record s { bypass_attempts = s.bypass_attempts + 1 })
  counted_attempt s v = ground arith

  pub reject_authorization_bypass-Keeps :
      (room : Text) (s : Session) → Keeps P s (reject_authorization_bypass l w room s)
  unfolding reject_authorization_bypass
  reject_authorization_bypass-Keeps room s =
      elim (Bool-cases (leb 2 (reject_room l w room s0).bypass_attempts)) [
        | inl e ↦ rw e (record {
          consistent = λ v. shut.consistent (k.consistent (counted_attempt s v));
          limited = λ v h o.
              cc (o, (close_physical_ends w laws 1008 s1 (k.consistent (counted_attempt s v))).0);
          ended = λ v h.
              shut.ended (k.consistent (counted_attempt s v)) (k.ended (counted_attempt s v) h);
          counted = λ v. omega (
            arith,
            k.counted (counted_attempt s v),
            shut.counted (k.consistent (counted_attempt s v)),
          );
          no_new = λ v r h. elim (shut.no_new (k.consistent (counted_attempt s v)) r h) [
            | inl p ↦ inl p
            | inr m ↦ k.no_new (counted_attempt s v) r m
          ];
          answered = λ v r h. elim (shut.answered (k.consistent (counted_attempt s v)) r h) [
            | inl (inl p) ↦ inl (inl p)
            | inl (inr m) ↦ inl (k.no_new (counted_attempt s v) r m)
            | inr m ↦ k.answered (counted_attempt s v) r m
          ];
        })
        | inr e ↦ rw e (record {
          consistent = λ v. k.consistent (counted_attempt s v);
          limited = λ v h o. ground arith;
          ended = λ v h. k.ended (counted_attempt s v) h;
          counted = λ v. omega (arith, k.counted (counted_attempt s v));
          no_new = λ v r h. k.no_new (counted_attempt s v) r h;
          answered = λ v r h. k.answered (counted_attempt s v) r h;
        })
      ]
    where
      s0 : Session
      s0 = record s { bypass_attempts = s.bypass_attempts + 1 }

      s1 : Session
      s1 = reject_room l w room s0

      k : Keeps P s0 s1
      k = reject_room-Keeps P l w laws room s0

      shut : Keeps P s1 (close_physical w 1008 s1)
      shut = close_physical-Keeps P w laws 1008 s1

  pub add_room-Keeps :
      (room : Text) (s : Session)
      → lookup room s.rooms ≡ none
      → P room
      → Keeps P s (add_room l w room s)
  unfolding add_room
  add_room-Keeps room s e p =
      elim (Bool-cases (send_physical_message l w (subscribed room) (register_room room s)).1) [
        | inl t ↦
            rw t (Keeps-trans P both (Keeps-same P _ _ (λ v. ground arith) refl refl refl refl))
        | inr f ↦ rw f both
      ]
    where
      both : Keeps P s (send_physical_message l w (subscribed room) (register_room room s)).0
      both = Keeps-trans P (register_room-Keeps P room s e p) (
          send_physical_message-Keeps P l w laws (subscribed room) (register_room room s)
            (λ r x. inl (rw (← ap room_of x) p)))

  pub receive_data-Keeps :
      (room : Text) (payload : List ℕ) (s : Session) → Keeps P s (receive_data l w room payload s)
  unfolding receive_data
  receive_data-Keeps room payload s = elim (Option-cases (lookup room s.rooms)) [
    | inr (id, e) ↦ rw (e, receive_data) (Keeps-same P s _ (λ v. ground arith) refl refl refl refl)
    | inl e ↦ elim (Bool-cases (contains room s.closed_rooms)) [
      | inl c ↦ rw (e, receive_data, c) (Keeps-refl P s)
      | inr c ↦ rw (e, receive_data, c) (reject_authorization_bypass-Keeps room s)
    ]
  ]

  pub room_send-Keeps :
      (id : ℕ) (payload : List ℕ) (s : Session) → Keeps P s (room_send l w id payload s)
  unfolding room_send
  room_send-Keeps id payload s = elim (Option-cases (adapter_room id s.open_adapters)) [
    | inl e ↦ rw (e, room_send) (Keeps-refl P s)
    | inr (room, e) ↦
        rw (e, room_send)
          (send_physical_message-Keeps P l w laws (room_data room payload) s (λ r x. absurd cc))
  ]

  closed_by_server :
      (room : Text) (id : ℕ) (s : Session)
      → lookup room s.rooms ≡ some id
      → Keeps P s (
          if is_open s.physical.ready
          then send_room_closed l w 4005 room (released room id server_room_close s)
          else released room id server_room_close s)
  closed_by_server room id s e = elim (Bool-cases (is_open s.physical.ready)) [
    | inl o ↦ rw o (
        Keeps-trans P (released-Keeps P room id server_room_close s e)
          (send_room_closed-Keeps P l w laws 4005 room (released room id server_room_close s)))
    | inr o ↦ rw o (released-Keeps P room id server_room_close s e)
  ]

  pub room_close-Keeps : (id : ℕ) (s : Session) → Keeps P s (room_close l w id s)
  unfolding room_close close_adapter
  room_close-Keeps id s = Keeps-given P (λ v.
      elim (Option-cases (adapter_room id s.open_adapters)) [
        | inl e ↦ rw (e, room_close, close_adapter) (Keeps-refl P s)
        | inr (room, e) ↦ rw (close_adapter_lem (send_room_closed l w 4005) room id s v e) (
            closed_by_server room id s
              (lookup-adapter_room room id s.rooms v.distinct (rw v.adapters at e)))
      ])
