-- ===== src/Client/SharedSocket/Once.antt =====
-- src/shared-websocket.ts: how often the `onclose` of a virtual socket is called, whatever the callbacks do.
use mathlib.Core.Path.{subst}
use vip_real_time_collaborat.Base.{
  ℕ, ◌+◌, ◌<◌, ◌≤◌, ◌≡◌, refl, sym, ◌⊎◌, inl, inr, Bool, true, false, Option, List, [], ◌∷◌, All,
  ◌==◌, ==_iff, Bool-cases, arith,
}
use vip_real_time_collaborat.Base.Text.{Text}
use vip_real_time_collaborat.Packages.{Lib0, Ws, connecting}
use vip_real_time_collaborat.Protocol.{subscribe}
use vip_real_time_collaborat.Client.SharedSocket.{
  SharedWebSocket, Notice, on_open, on_message, on_error, on_close, Shared, new_shared, notify,
  unregister, open_physical_socket, register, without_socket, is_active, detached_ready,
}
use vip_real_time_collaborat.Client.SharedSocket.Listeners.{fail_protocol, Event, run}
use vip_real_time_collaborat.Client.SharedSocket.Kept.{IsFound, Kept, is_close}
use vip_real_time_collaborat.Client.SharedSocket.Steps.{Stepped, events_ask, run-kept}
use vip_real_time_collaborat.Client.SharedSocket.Heard.{closes_of}
use vip_real_time_collaborat.Client.SharedSocket.Views.{
  SameView, send_physical_message-SameView, close-SameView, finish_close-SameView,
}
use vip_real_time_collaborat.Client.SharedSocket.Counts.{
  sockets_of, one_if, set-sockets_of, open_room-sockets_of, total, unregister-total, released-total,
}

module _ (l : Lib0) (w : Ws) (i : ℕ) where
  -- The calls of the socket's `onclose` and those that may come.
  abbrev lives : Shared → ℕ
  lives s = closes_of i s.notices + total i s

  abbrev IsAtMost : ℕ → ℕ → Type 0
  IsAtMost n next_id = (n ≤ 1) × ((i < next_id) ⊎ (n ≡ 0))

  -- One in all, and none before the socket is made.
  abbrev IsOnce : Shared → Type 0
  IsOnce s = IsAtMost (lives s) s.next_id

  -- The same while the socket of the id is closed and not yet told.
  abbrev IsOwed : ℕ → Shared → Type 0
  IsOwed id s = IsAtMost (lives s + one_if (id == i)) s.next_id

  IsAtMost-mono : (n m next_id : ℕ) → m ≤ n → IsAtMost n next_id → IsAtMost m next_id
  IsAtMost-mono n m next_id h (a, inl b) = (omega (arith, h, a), inl b)
  IsAtMost-mono n m next_id h (a, inr b) = (omega (arith, h, a), inr (omega (arith, h, b)))

  lives-SameView : (s t : Shared) → SameView s t → lives t ≡ lives s
  lives-SameView s t v = simp (v.notices) (simp (v.virtual_sockets) (simp (v.detached) refl))

  same_view :
      (b : ℕ) (s t : Shared)
      → SameView s t
      → IsAtMost (lives s + b) s.next_id
      → IsAtMost (lives t + b) t.next_id
  same_view b s t v a =
      subst (λ n. IsAtMost (lives t + b) n) (sym v.next_id)
        (subst (λ n. IsAtMost (n + b) s.next_id) (sym (lives-SameView s t v)) a)

  same-IsOnce : (s t : Shared) → SameView s t → IsOnce s → IsOnce t
  same-IsOnce s t v a =
      subst (λ n. IsAtMost (lives t) n) (sym v.next_id)
        (subst (λ n. IsAtMost n s.next_id) (sym (lives-SameView s t v)) a)

  on_close-closes_of :
      (id : ℕ) (code : Option ℕ) (from_room : Bool) (ns : List Notice)
      → closes_of i (on_close id code from_room ∷ ns) ≡ closes_of i ns + one_if (id == i)
  on_close-closes_of id code from_room ns = ground arith

  other-closes_of :
      (n : Notice) (ns : List Notice) → is_close n ≡ false → closes_of i (n ∷ ns) ≡ closes_of i ns
  other-closes_of (on_open id) ns e = refl
  other-closes_of (on_message id payload) ns e = refl
  other-closes_of (on_error id) ns e = refl
  other-closes_of (on_close id code from_room) ns e = absurd cc

  -- A new socket has the next id.
  register-IsOnce : (room grant : Text) (s : Shared) → IsOnce s → IsOnce (register room grant s)
  unfolding register
  register-IsOnce room grant s (a, b) =
      let grows =
        set-sockets_of i room (record { id = s.next_id; grant = grant; ready = connecting })
          s.virtual_sockets in
      elim (Bool-cases (s.next_id == i)) [
        | inl h ↦ ground (arith, grows, a, b, h, (==_iff s.next_id i).0 h)
        | inr h ↦ ground (arith, grows, a, b, h)
      ]

  open_physical_socket-IsOnce :
      (grant : Text) (s : Shared) → IsOnce s → IsOnce (open_physical_socket grant s)
  unfolding open_physical_socket
  open_physical_socket-IsOnce grant s (a, inl b) = (a, inl (omega (arith, b)))
  open_physical_socket-IsOnce grant s (a, inr b) = (a, inr b)

  told_closing :
      (id : ℕ) (code : Option ℕ) (from_room : Bool) (s : Shared)
      → IsOwed id s
      → IsOnce (notify (on_close id code from_room) s)
  unfolding notify
  told_closing id code from_room s a =
      let counted = on_close-closes_of id code from_room s.notices in
      IsAtMost-mono (lives s + one_if (id == i)) _ s.next_id (omega (arith, counted)) a

  notified_other : (n : Notice) (s : Shared) → is_close n ≡ false → IsOnce s → IsOnce (notify n s)
  unfolding notify
  notified_other n s e a =
      let counted = other-closes_of n s.notices e in
      IsAtMost-mono (lives s) _ s.next_id (omega (arith, counted)) a

  unregister-IsOwed :
      (room : Text) (id : ℕ) (s : Shared)
      → IsFound room id s
      → IsOnce s
      → IsOwed id (unregister room id s)
  unfolding unregister
  unregister-IsOwed room id s f a =
      let taken = unregister-total i room id s f in
      IsAtMost-mono (lives s) _ s.next_id (omega (arith, taken)) a

  released-IsOnce :
      (id : ℕ) (code : Option ℕ) (s : Shared)
      → is_active (detached_ready id s.detached) ≡ true
      → IsOnce s
      → IsOnce
          (notify (on_close id code false) (record s { detached = without_socket id s.detached }))
  unfolding notify
  released-IsOnce id code s h a =
      let counted = on_close-closes_of id code false s.notices in
      let taken = released-total i id s.detached h in
      IsAtMost-mono (lives s) _ s.next_id (omega (arith, counted, taken)) a

  Once-Kept : Kept l w (λ m. Unit {0}) IsOnce IsOnce IsOwed
  Once-Kept = record {
    weaken = λ s a. a;
    sent = λ m s p a. same-IsOnce s _ (send_physical_message-SameView l w m s) a;
    sent_within = λ m s p a. same-IsOnce s _ (send_physical_message-SameView l w m s) a;
    closed_normally = λ s a. same-IsOnce s _ (close-SameView l w s) a;
    finished = λ b s a. same-IsOnce s _ (finish_close-SameView l w b s) a;
    opened = λ room grant s p a.
        register-IsOnce room grant (open_physical_socket grant s)
          (open_physical_socket-IsOnce grant s a);
    joined = λ room grant p s x e a.
        register-IsOnce room grant _
          (same-IsOnce s _ (send_physical_message-SameView l w (subscribe room grant) s) a);
    unregistered = unregister-IsOwed;
    sent_closing =
        λ id m s p a. same_view (one_if (id == i)) s _ (send_physical_message-SameView l w m s) a;
    told = told_closing;
    notified = notified_other;
    released = released-IsOnce;
  }

  sockets_ask :
      (m : List (Text × SharedWebSocket)) → All (λ (x : Text × SharedWebSocket). Unit {0}) m
  sockets_ask [] = tt
  sockets_ask (x ∷ m) = (tt, sockets_ask m)

  Once-Stepped : Stepped l w (λ m. Unit {0}) (λ room. Unit {0}) IsOnce IsOnce IsOwed
  unfolding fail_protocol
  Once-Stepped = record {
    kept = Once-Kept;
    again = λ s a. sockets_ask s.virtual_sockets;
    answered = λ room s o a.
        let same = open_room-sockets_of i room s.virtual_sockets in
        IsAtMost-mono (lives s) _ s.next_id (omega (arith, same)) a;
    failed = λ p s e a. a;
    opens = λ p s e c a. a;
    stops = λ p s e a. a;
    detaches = λ s a. IsAtMost-mono (lives s) _ s.next_id (omega arith) a;
  }

  fresh-IsOnce : (faults : List Bool) → IsOnce (new_shared faults)
  unfolding new_shared
  fresh-IsOnce faults = (omega arith, inr refl)

  -- Whatever rooms are made, used and closed, whatever the callbacks call while they run, whatever the
  -- server sends and whichever sends fail: `onclose` of a virtual socket is called once at most; before it
  -- the socket is registered once at most, and afterwards it is not registered again.
  pub run-closes_of :
      (faults : List Bool) (es : List Event)
      → let s = run l w es (new_shared faults) in
        closes_of i s.notices + (sockets_of i s.virtual_sockets + sockets_of i s.detached) ≤ 1
  run-closes_of faults es =
      (run-kept Once-Stepped es (new_shared faults) (events_ask l es) (fresh-IsOnce faults)).0
