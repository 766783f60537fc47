-- ===== src/Client/SharedSocket/Steps.antt =====
-- src/shared-websocket.ts: what the listeners of the physical socket keep, and runs.
use vip_real_time_collaborat.Base.{
  inl, ℕ, ◌≡◌, refl, ap, true, false, not, none, some, List, [], ◌∷◌, All, ◌==◌, if◌then◌else◌,
}
use vip_real_time_collaborat.Base.Text.{Text}
use vip_real_time_collaborat.Base.Maps.{lookup}
use vip_real_time_collaborat.Packages.{Lib0, Ws, opened, closing, is_open}
use vip_real_time_collaborat.Protocol.Reader.{Result, ok, err}
use vip_real_time_collaborat.Protocol.{
  ProtocolMessage, subscribe, subscribed, room_data, unsubscribe, room_closed, decode_message,
}
use vip_real_time_collaborat.Client.SharedSocket.{
  SharedWebSocket, Physical, on_open, on_message, Shared, is_connecting,
  close_physical_socket_normally, send_physical_message, Calls, perform,
}
use vip_real_time_collaborat.Client.SharedSocket.Listeners.{
  open_room, is_open_physical, set_ready, receive_subscribed, receive_data, receive_room_closed,
  fail_protocol, receive, handle_message, subscribe_all, handle_open, handle_close, Signal,
  signal_open, signal_message, signal_error, signal_closing, signal_close, handle_signal, Event,
  constructed, close_called, send_called, signalled, step, run,
}
use vip_real_time_collaborat.Client.SharedSocket.Branches.{by_option, by_test}
use vip_real_time_collaborat.Client.SharedSocket.Kept.{
  Asks, AllAsk, any_calls, any_reactions, Kept, construct-kept, close_virtual_socket-kept,
  close-kept, send-kept, perform-kept, perform-within, notify_errors-kept, notify_closes-kept,
}

-- `O` holds of the rooms that a `subscribed` arrives for.
pub record Stepped (l : Lib0) (w : Ws) (P : ProtocolMessage → Type 0) (O : Text → Type 0)
    (I J : Shared → Type 0) (U : ℕ → Shared → Type 0) : Type 0 where
  pub kept : Kept l w P I J U
  pub again :
      (s : Shared)
      → I s
      → All (λ (x : Text × SharedWebSocket). P (subscribe x.0 x.1.grant)) s.virtual_sockets
  pub answered :
      (room : Text) (s : Shared)
      → O room
      → I s
      → I (record s { virtual_sockets = open_room room s.virtual_sockets })
  pub failed : (p : Physical) (s : Shared) → s.physical ≡ some p → I s → I (fail_protocol w p s)
  pub opens :
      (p : Physical) (s : Shared)
      → s.physical ≡ some p
      → is_connecting p.ready ≡ true
      → I s
      → I (record s { physical = some (set_ready opened p) })
  pub stops :
      (p : Physical) (s : Shared)
      → s.physical ≡ some p
      → I s
      → I (record s { physical = some (set_ready closing p) })
  pub detaches :
      (s : Shared)
      → I s
      → I (record s { physical = none; virtual_sockets = []; detached = s.virtual_sockets })

-- What the calls of an event ask for, and what a message that arrives may open.
abbrev pub EventAsks : Lib0 → (ProtocolMessage → Type 0) → (Text → Type 0) → Event → Type 0
EventAsks l P O (constructed room grant) = P (subscribe room grant)
EventAsks l P O (close_called room id code calls) = P (unsubscribe room) × Asks P calls
EventAsks l P O (send_called room id payload) = P (room_data room payload)
EventAsks l P O (signalled id signal_open) = Unit {0}
EventAsks l P O (signalled id (signal_message bytes calls)) =
    Asks P calls × ((room : Text) → decode_message l bytes ≡ ok (subscribed room) → O room)
EventAsks l P O (signalled id (signal_error reactions)) = AllAsk P reactions
EventAsks l P O (signalled id signal_closing) = Unit {0}
EventAsks l P O (signalled id (signal_close code reactions)) = AllAsk P reactions

module _ {l : Lib0} {w : Ws} {P : ProtocolMessage → Type 0} {O : Text → Type 0}
    {I J : Shared → Type 0} {U : ℕ → Shared → Type 0} (k : Stepped l w P O I J U) where
  receive-kept :
      (p : Physical) (m : ProtocolMessage) (calls : Calls) (s : Shared)
      → s.physical ≡ some p
      → Asks P calls
      → ((room : Text) → m ≡ subscribed room → O room)
      → I s
      → I (receive l w p m calls s)
  unfolding receive receive_subscribed receive_data receive_room_closed
  receive-kept p (subscribed room) calls s e a o i =
      by_option I s _ (lookup room s.virtual_sockets) (λ n. i)
        (λ v n.
          by_test I (is_connecting v.ready) _ s
            (λ h.
              perform-kept k.kept calls _ a
                (k.kept.notified (on_open v.id) _ refl (k.answered room s (o room refl) i)))
            (λ h. i))
  receive-kept p (room_data room payload) calls s e a o i =
      by_option I s _ (lookup room s.virtual_sockets) (λ n. i)
        (λ v n.
          by_test I (is_open v.ready) _ s
            (λ h.
              perform-kept k.kept calls _ a (k.kept.notified (on_message v.id payload) s refl i))
            (λ h. i))
  receive-kept p (room_closed room code) calls s e a o i =
      by_option I s _ (lookup room s.virtual_sockets) (λ n. i)
        (λ v n.
          close_virtual_socket-kept k.kept (perform l w calls) room v.id (some code) true false s
            (inl (v, (n, refl))) (λ h. absurd cc) (λ t. perform-within k.kept calls t a)
            (k.kept.weaken s i))
  receive-kept p (subscribe room grant) calls s e a o i = k.failed p s e i
  receive-kept p (unsubscribe room) calls s e a o i = k.failed p s e i

  decoded-kept :
      (p : Physical) (calls : Calls) (s : Shared) (r : Result ProtocolMessage)
      → s.physical ≡ some p
      → Asks P calls
      → ((room : Text) → r ≡ ok (subscribed room) → O room)
      → I s
      → I (elim r as (λ x. Shared) [
        | err e ↦ fail_protocol w p s
        | ok message ↦ receive l w p message calls s
      ])
  decoded-kept p calls s (err x) e a o i = k.failed p s e i
  decoded-kept p calls s (ok m) e a o i =
      receive-kept p m calls s e a (λ room q. o room (ap ok q)) i

  subscribe_all-kept :
      (m : List (Text × SharedWebSocket)) (s : Shared)
      → All (λ (x : Text × SharedWebSocket). P (subscribe x.0 x.1.grant)) m
      → I s
      → I (subscribe_all l w m s)
  unfolding subscribe_all
  subscribe_all-kept [] s a i = i
  subscribe_all-kept ((room, v) ∷ m) s (p, a) i =
      let sent = send_physical_message l w (subscribe room v.grant) s in
      let after = k.kept.sent (subscribe room v.grant) s p i in
      let next = subscribe_all l w m s in
      let next1 = subscribe_all l w m sent.0 in
      let stop = close_physical_socket_normally w sent.0 in
      by_test I (not (is_open_physical s.physical)) s
        (if not (is_connecting v.ready) then next else if sent.1 then next1 else stop) (λ h. i)
        (λ h.
          by_test I (not (is_connecting v.ready)) next (if sent.1 then next1 else stop)
            (λ g. subscribe_all-kept m s a i)
            (λ g.
              by_test I sent.1 next1 stop (λ t. subscribe_all-kept m sent.0 a after)
                (λ t. k.kept.closed_normally sent.0 (k.kept.weaken _ after))))

  handle_signal-kept :
      (id : ℕ) (p : Physical) (signal : Signal) (s : Shared)
      → s.physical ≡ some p
      → EventAsks l P O (signalled id signal)
      → I s
      → I (handle_signal l w p signal s)
  unfolding handle_signal handle_open handle_message handle_close
  handle_signal-kept id p signal_open s e a i =
      by_test I (is_connecting p.ready) (handle_open l w p s) s
        (λ h. subscribe_all-kept s.virtual_sockets _ (k.again s i) (k.opens p s e h i)) (λ h. i)
  handle_signal-kept id p (signal_message bytes calls) s e (a, o) i =
      decoded-kept p calls s (decode_message l bytes) e a o i
  handle_signal-kept id p (signal_error reactions) s e a i =
      notify_errors-kept k.kept reactions s.virtual_sockets s a i
  handle_signal-kept id p signal_closing s e a i = k.stops p s e i
  handle_signal-kept id p (signal_close code reactions) s e a i =
      notify_closes-kept k.kept code reactions s.virtual_sockets _ a (k.detaches s i)

  pub step-kept : (e : Event) (s : Shared) → EventAsks l P O e → I s → I (step l w e s)
  unfolding step
  step-kept (constructed room grant) s p i = construct-kept k.kept room grant s p i
  step-kept (close_called room id code calls) s (p, a) i =
      close-kept k.kept calls room id code s p a i
  step-kept (send_called room id payload) s p i = send-kept k.kept room id payload s p i
  step-kept (signalled id signal) s a i =
      by_option I s _ s.physical (λ e. i)
        (λ p e.
          by_test I (p.id == id) (handle_signal l w p signal s) s
            (λ h. handle_signal-kept id p signal s e a i) (λ h. i))

  pub run-kept : (es : List Event) (s : Shared) → All (EventAsks l P O) es → I s → I (run l w es s)
  unfolding run
  run-kept [] s a i = i
  run-kept (e ∷ es) s (b, a) i = run-kept es (step l w e s) a (step-kept e s b i)

-- Any event asks for messages and rooms of which nothing is required.
pub event_asks : (l : Lib0) (e : Event) → EventAsks l (λ m. Unit {0}) (λ room. Unit {0}) e
event_asks l (constructed room grant) = tt
event_asks l (close_called room id code calls) = (tt, any_calls (λ m. Unit) (λ m. tt) calls)
event_asks l (send_called room id payload) = tt
event_asks l (signalled id signal_open) = tt
event_asks l (signalled id (signal_message bytes calls)) =
    (any_calls (λ m. Unit) (λ m. tt) calls, λ room e. tt)
event_asks l (signalled id (signal_error reactions)) = any_reactions (λ m. Unit) (λ m. tt) reactions
event_asks l (signalled id signal_closing) = tt
event_asks l (signalled id (signal_close code reactions)) =
    any_reactions (λ m. Unit) (λ m. tt) reactions

pub events_ask :
    (l : Lib0) (es : List Event) → All (EventAsks l (λ m. Unit {0}) (λ room. Unit {0})) es
events_ask l [] = tt
events_ask l (e ∷ es) = (event_asks l e, events_ask l es)
