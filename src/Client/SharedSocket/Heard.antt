-- ===== src/Client/SharedSocket/Heard.antt =====
-- src/shared-websocket.ts: who hears of the close of the physical socket, whatever the callbacks do.
use mathlib.Core.Path.{subst}
use vip_real_time_collaborat.Base.{
  ◌≤◌, ℕ, suc, ◌<◌, ◌≡◌, refl, ap, ◌∙◌, ◌⊎◌, inl, inr, Bool, true, false, Option, none, some, List,
  [], ◌∷◌, ◌==◌, ==_iff, if◌then◌else◌, Bool-cases, arith,
}
use vip_real_time_collaborat.Base.Text.{Text}
use vip_real_time_collaborat.Packages.{Lib0, Ws}
use vip_real_time_collaborat.Client.SharedSocket.{
  SharedWebSocket, Physical, Notice, on_open, on_message, on_error, on_close, Shared, notify,
  is_active, detached_ready, without_socket, Calls,
}
use vip_real_time_collaborat.Client.SharedSocket.Listeners.{
  notify_closes, handle_close, handle_signal, signalled, signal_close, step,
}
use vip_real_time_collaborat.Client.SharedSocket.Branches.{by_test}
use vip_real_time_collaborat.Client.SharedSocket.Views.{View-Kept}
use vip_real_time_collaborat.Client.SharedSocket.Kept.{
  any_calls, any_reactions, Kept, perform-kept, notify_closes-kept,
}

-- How often `onclose` of the socket was called.
abbrev pub closes_of : ℕ → List Notice → ℕ
closes_of i [] = 0
closes_of i (on_open id ∷ ns) = closes_of i ns
closes_of i (on_message id payload ∷ ns) = closes_of i ns
closes_of i (on_error id ∷ ns) = closes_of i ns
closes_of i (on_close id code from_room ∷ ns) =
    let rest = closes_of i ns in if id == i then suc rest else rest

without-detached_ready :
    (id i : ℕ) (m : List (Text × SharedWebSocket))
    → id == i ≡ false
    → detached_ready i (without_socket id m) ≡ detached_ready i m
unfolding detached_ready without_socket
without-detached_ready id i [] e = refl
without-detached_ready id i ((room, v) ∷ m) e = ground (arith, without-detached_ready id i m e, e)

closes_of-grows :
    (i : ℕ) (n : Notice) (ns : List Notice) (k : ℕ) → k < closes_of i ns → k < closes_of i (n ∷ ns)
closes_of-grows i (on_open id) ns k h = h
closes_of-grows i (on_message id payload) ns k h = h
closes_of-grows i (on_error id) ns k h = h
closes_of-grows i (on_close id code from_room) ns k h = ground (arith, h)

module _ (l : Lib0) (w : Ws) where
  -- The socket `i` and the number of calls of its `onclose` before.
  module _ (i before : ℕ) where
    abbrev HasHeard : List (Text × SharedWebSocket) → List Notice → Type 0
    HasHeard d ns = before < closes_of i ns

    -- It was told, or it is still among the detached sockets.
    abbrev IsWaiting : List (Text × SharedWebSocket) → List Notice → Type 0
    IsWaiting d ns =
        (before ≤ closes_of i ns)
        × ((before < closes_of i ns) ⊎ (is_active (detached_ready i d) ≡ true))

    -- It was told, or it is still detached, or it is the one that is being closed.
    abbrev IsClosing : ℕ → List (Text × SharedWebSocket) → List Notice → Type 0
    IsClosing id d ns =
        (before ≤ closes_of i ns)
        × ((id == i ≡ true) ⊎ ((before < closes_of i ns) ⊎ (is_active (detached_ready i d) ≡ true)))

    closes_of-at :
        (id : ℕ) (code : Option ℕ) (from_room : Bool) (ns : List Notice)
        → before ≤ closes_of i ns
        → id == i ≡ true
        → before < closes_of i (on_close id code from_room ∷ ns)
    closes_of-at id code from_room ns b e = ground (arith, b, e)

    closes_of-keeps :
        (n : Notice) (ns : List Notice) → before ≤ closes_of i ns → before ≤ closes_of i (n ∷ ns)
    closes_of-keeps (on_open id) ns h = h
    closes_of-keeps (on_message id payload) ns h = h
    closes_of-keeps (on_error id) ns h = h
    closes_of-keeps (on_close id code from_room) ns h = ground (arith, h)

    adds :
        (n : Notice) (d : List (Text × SharedWebSocket)) (ns : List Notice)
        → IsWaiting d ns
        → IsWaiting d (n ∷ ns)
    adds n d ns (b, inl h) = (closes_of-keeps n ns b, inl (closes_of-grows i n ns before h))
    adds n d ns (b, inr a) = (closes_of-keeps n ns b, inr a)

    removes :
        (id : ℕ) (d : List (Text × SharedWebSocket)) (ns : List Notice)
        → IsWaiting d ns
        → IsClosing id (without_socket id d) ns
    removes id d ns (b, inl h) = (b, inr (inl h))
    removes id d ns (b, inr a) = (
      b,
      elim (Bool-cases (id == i)) [
        | inl e ↦ inl e
        | inr e ↦ inr (inr (ap is_active (without-detached_ready id i d e) ∙ a))
      ],
    )

    tells :
        (id : ℕ) (code : Option ℕ) (from_room : Bool) (d : List (Text × SharedWebSocket))
        (ns : List Notice)
        → IsClosing id d ns
        → IsWaiting d (on_close id code from_room ∷ ns)
    tells id code from_room d ns (b, inl e) = (
      closes_of-keeps (on_close id code from_room) ns b,
      inl (closes_of-at id code from_room ns b e),
    )
    tells id code from_room d ns (b, inr h) = adds (on_close id code from_room) d ns (b, h)

    Waiting-Kept :
        Kept l w
          (λ m. Unit {0})
          (λ s. IsWaiting s.detached s.notices)
          (λ s. IsWaiting s.detached s.notices)
          (λ id s. IsClosing id s.detached s.notices)
    Waiting-Kept = View-Kept l w IsWaiting IsClosing removes tells adds

    Heard-Kept :
        Kept l w
          (λ m. Unit {0})
          (λ s. HasHeard s.detached s.notices)
          (λ s. HasHeard s.detached s.notices)
          (λ id s. HasHeard s.detached s.notices)
    Heard-Kept =
        View-Kept l w HasHeard (λ id. HasHeard) (λ id d ns h. h)
          (λ id code from_room d ns h. closes_of-grows i (on_close id code from_room) ns before h)
          (λ n d ns h. closes_of-grows i n ns before h)

    heard :
        (s : Shared)
        → IsWaiting s.detached s.notices
        → is_active (detached_ready i s.detached) ≡ false
        → HasHeard s.detached s.notices
    heard s (b, inl h) e = h
    heard s (b, inr a) e = absurd cc

    head_heard :
        (v : SharedWebSocket) (s : Shared)
        → v.id == i ≡ true
        → IsWaiting s.detached s.notices
        → is_active (detached_ready v.id s.detached) ≡ false
        → HasHeard s.detached s.notices
    head_heard v s e wait f =
        heard s wait
          (subst (λ x. is_active (detached_ready x s.detached) ≡ false) ((==_iff v.id i).0 e) f)

    tail_ready :
        (room : Text) (v : SharedWebSocket) (m : List (Text × SharedWebSocket))
        → v.id == i ≡ false
        → is_active (detached_ready i ((room, v) ∷ m)) ≡ true
        → is_active (detached_ready i m) ≡ true
    unfolding detached_ready
    tail_ready room v m e a = ground (arith, e, a)

    -- The loop goes on to the socket, and past it nothing is forgotten.
    notify_closes-HasHeard :
        (code : Option ℕ) (cs : List Calls) (m : List (Text × SharedWebSocket)) (s : Shared)
        → is_active (detached_ready i m) ≡ true
        → IsWaiting s.detached s.notices
        → before < closes_of i (notify_closes l w code cs m s).notices
    unfolding notify_closes notify detached_ready
    notify_closes-HasHeard code cs [] s a wait = absurd cc
    notify_closes-HasHeard code [] ((room, v) ∷ m) s a wait = elim (Bool-cases (v.id == i)) [
      | inl e ↦
          by_test (λ (t : Shared). before < closes_of i t.notices)
            (is_active (detached_ready v.id s.detached)) _ _
            (λ h.
              notify_closes-kept Heard-Kept code [] m _ tt
                (closes_of-at v.id code false s.notices wait.0 e))
            (λ h. notify_closes-kept Heard-Kept code [] m s tt (head_heard v s e wait h))
      | inr e ↦
          by_test (λ (t : Shared). before < closes_of i t.notices)
            (is_active (detached_ready v.id s.detached)) _ _
            (λ h.
              notify_closes-HasHeard code [] m _ (tail_ready room v m e a)
                (Waiting-Kept.released v.id code s h wait))
            (λ h. notify_closes-HasHeard code [] m s (tail_ready room v m e a) wait)
    ]
    notify_closes-HasHeard code (c ∷ cs) ((room, v) ∷ m) s a wait = elim (Bool-cases (v.id == i)) [
      | inl e ↦
          by_test (λ (t : Shared). before < closes_of i t.notices)
            (is_active (detached_ready v.id s.detached)) _ _
            (λ h.
              notify_closes-kept Heard-Kept code cs m _ (any_reactions (λ m. Unit) (λ m. tt) cs) (
                perform-kept Heard-Kept c _ (any_calls (λ m. Unit) (λ m. tt) c)
                  (closes_of-at v.id code false s.notices wait.0 e)))
            (λ h.
              notify_closes-kept Heard-Kept code (c ∷ cs) m s
                (any_reactions (λ m. Unit) (λ m. tt) (c ∷ cs)) (head_heard v s e wait h))
      | inr e ↦
          by_test (λ (t : Shared). before < closes_of i t.notices)
            (is_active (detached_ready v.id s.detached)) _ _
            (λ h. notify_closes-HasHeard code cs m _ (tail_ready room v m e a) (
              perform-kept Waiting-Kept c _ (any_calls (λ m. Unit) (λ m. tt) c)
                (Waiting-Kept.released v.id code s h wait)))
            (λ h. notify_closes-HasHeard code (c ∷ cs) m s (tail_ready room v m e a) wait)
    ]

  -- When the physical socket closes, `onclose` is called of every virtual socket that is registered and
  -- CONNECTING or OPEN, at the latest when the event has been handled: whatever rooms the callbacks of the
  -- other sockets make, use and close, and whichever sends fail.
  pub step-closes_of :
      (code : Option ℕ) (reactions : List Calls) (i : ℕ) (p : Physical) (s : Shared)
      → s.physical ≡ some p
      → is_active (detached_ready i s.virtual_sockets) ≡ true
      → closes_of i s.notices
        < closes_of i (step l w (signalled p.id (signal_close code reactions)) s).notices
  unfolding step handle_signal handle_close
  step-closes_of code reactions i p s e a =
      simp (e, (==_iff p.id p.id).1 refl, step)
        (notify_closes-HasHeard i (closes_of i s.notices) code reactions s.virtual_sockets
          (record s { physical = none; virtual_sockets = []; detached = s.virtual_sockets }) a
          (omega arith, inr a))
