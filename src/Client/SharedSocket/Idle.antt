-- ===== src/Client/SharedSocket/Idle.antt =====
-- src/shared-websocket.ts: a registered room has a physical socket, and none is kept without a room.
use mathlib.Core.Path.{subst}
use vip_real_time_collaborat.Base.{
  ℕ, ◌≡◌, ◌≢◌, refl, sym, ap, ◌∙◌, Bool, true, false, ◌||◌, Option, none, some, List, [], ◌∷◌,
  arith, length, ◌==◌,
}
use vip_real_time_collaborat.Base.Text.{Text}
use vip_real_time_collaborat.Base.Maps.{lookup, set, remove}
use vip_real_time_collaborat.Packages.{Lib0, Ws, ReadyState, is_open}
use vip_real_time_collaborat.Protocol.{ProtocolMessage, subscribe, encode_message}
use vip_real_time_collaborat.Client.SharedSocket.{
  SharedWebSocket, Physical, Shared, notify, is_active, removed_if, unregister,
  close_physical_socket_normally, physical_send, send_physical_message, finish_close,
  open_physical_socket, register,
}
use vip_real_time_collaborat.Client.SharedSocket.Branches.{by_option, by_test, by_result}
use vip_real_time_collaborat.Client.SharedSocket.Kept.{Kept}

-- Whether there is a physical socket, and one that is CONNECTING or OPEN.
abbrev pub activity : Option Physical → Option Bool
activity none = none
activity (some p) = some (is_active p.ready)

-- Without a physical socket no room is registered, and with one that is CONNECTING or OPEN some room is.
abbrev pub Tidy : Option Bool → List (Text × SharedWebSocket) → Type 0
Tidy none m = m ≡ []
Tidy (some true) m = m ≢ []
Tidy (some false) m = Unit {0}

abbrev pub IsTidy : Shared → Type 0
IsTidy s = Tidy (activity s.physical) s.virtual_sockets

-- The first half of it.
abbrev Weak : Option Bool → List (Text × SharedWebSocket) → Type 0
Weak a m = a ≡ none → m ≡ []

abbrev pub IsWeak : Shared → Type 0
IsWeak s = Weak (activity s.physical) s.virtual_sockets

Tidy-Weak : (a : Option Bool) (m : List (Text × SharedWebSocket)) → Tidy a m → Weak a m
Tidy-Weak none m t e = t
Tidy-Weak (some true) m t e = absurd (ground (arith, e))
Tidy-Weak (some false) m t e = absurd (ground (arith, e))

Weak-Tidy : (a : Option Bool) (m : List (Text × SharedWebSocket)) → Weak a m → m ≢ [] → Tidy a m
Weak-Tidy none m t n = t refl
Weak-Tidy (some true) m t n = n
Weak-Tidy (some false) m t n = tt

-- The call leaves the activity of the physical socket and the registered rooms as they are.
abbrev Leaves : Shared → Shared → Type 0
Leaves s t = (activity t.physical ≡ activity s.physical) × (t.virtual_sockets ≡ s.virtual_sockets)

physical_send-Leaves :
    (bytes : List ℕ) (p : Physical) (faults : List Bool) (s : Shared)
    → s.physical ≡ some p
    → Leaves s (physical_send bytes p faults s).0
unfolding physical_send
physical_send-Leaves bytes p [] s e = (rw e refl, refl)
physical_send-Leaves bytes p (false ∷ faults) s e = (rw e refl, refl)
physical_send-Leaves bytes p (true ∷ faults) s e = (refl, refl)

-- `close` leaves a socket neither CONNECTING nor OPEN.
abbrev pub CloseStops : Ws → Type 0
CloseStops w = (r : ReadyState) → is_active (w.after_close r) ≡ false

set-filled :
    (room : Text) (v : SharedWebSocket) (m : List (Text × SharedWebSocket)) → set room v m ≢ []
unfolding set
set-filled room v [] e = ground (arith, e)
set-filled room v ((r, u) ∷ m) e = ground (arith, e)

some-active : (p : Physical) (o : Option Physical) → o ≡ some p → activity o ≢ none
some-active p none e k = cc
some-active p (some q) e k = cc

removed-nil : (room : Text) (id : ℕ) (o : Option SharedWebSocket) → removed_if room id [] o ≡ []
unfolding removed_if remove
removed-nil room id none = refl
removed-nil room id (some v) = ground arith

module _ (l : Lib0) (w : Ws) (stops : CloseStops w) where
  send_physical_message-Leaves :
      (m : ProtocolMessage) (s : Shared) → Leaves s (send_physical_message l w m s).0
  unfolding send_physical_message
  send_physical_message-Leaves m s =
      by_option (λ (r : Shared × Bool). Leaves s r.0) (s, true) _ s.physical (λ e. (refl, refl))
        (λ p e.
          by_test (λ (r : Shared × Bool). Leaves s r.0) (is_open p.ready) _ (s, true)
            (λ h.
              by_result (λ (r : Shared × Bool). Leaves s r.0)
                (λ bytes. physical_send bytes p s.faults s) (s, false) (encode_message l m)
                (λ bytes k. physical_send-Leaves bytes p s.faults s e) (refl, refl))
            (λ h. (refl, refl)))

  active-Tidy :
      (s : Shared) (p : Physical) → s.physical ≡ some p → is_active p.ready ≡ false → IsTidy s
  active-Tidy s p e h = rw e (rw h tt)

  closed_normally : (s : Shared) → IsWeak s → IsTidy (close_physical_socket_normally w s)
  unfolding close_physical_socket_normally
  closed_normally s k =
      by_option IsTidy s _ s.physical
        (λ e. subst (λ o. Tidy (activity o) s.virtual_sockets) (sym e) (k (ap activity e)))
        (λ p e.
          by_test IsTidy (is_active p.ready) _ s (λ h. rw (stops p.ready) tt)
            (λ h. active-Tidy s p e h))

  finished : (b : Bool) (s : Shared) → IsWeak s → IsTidy (finish_close w b s)
  unfolding finish_close
  finished b s k =
      by_test IsTidy (b || length s.virtual_sockets == 0) (close_physical_socket_normally w s) s
        (λ h. closed_normally s k)
        (λ h. Weak-Tidy (activity s.physical) s.virtual_sockets k (λ n. ground (arith, h, n)))

  registered :
      (room grant : Text) (s : Shared) → activity s.physical ≢ none → IsTidy (register room grant s)
  unfolding register
  registered room grant s n =
      Weak-Tidy (activity s.physical) _ (λ e. absurd (n e)) (set-filled room _ s.virtual_sockets)

  pub Tidy-Kept : Kept l w (λ m. Unit {0}) IsTidy IsWeak (λ id. IsWeak)
  unfolding open_physical_socket notify unregister
  Tidy-Kept = record {
    weaken = λ s t. Tidy-Weak (activity s.physical) s.virtual_sockets t;
    sent = λ m s p t. let (a, b) = send_physical_message-Leaves m s in rw (a, b) t;
    sent_within = λ m s p t. let (a, b) = send_physical_message-Leaves m s in rw (a, b) t;
    sent_closing = λ id m s p t. let (a, b) = send_physical_message-Leaves m s in rw (a, b) t;
    closed_normally = closed_normally;
    finished = finished;
    opened = λ room grant s p t. registered room grant (open_physical_socket grant s) (λ e. cc);
    joined = λ room grant p s q e t.
        registered room grant (send_physical_message l w (subscribe room grant) s).0 (λ n.
          some-active p s.physical e
            (sym (send_physical_message-Leaves (subscribe room grant) s).0 ∙ n));
    unregistered = λ room id s x t e. rw (t e) (removed-nil room id (lookup room []));
    notified = λ n s x t. t;
    told = λ id code from_room s t. t;
    released = λ id code s x t. t;
  }
