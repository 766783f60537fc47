-- ===== src/Client/SharedSocket/Runs.antt =====
-- src/shared-websocket.ts: every run keeps the physical socket and the registered rooms in step.
use mathlib.Core.Path.{subst}
use vip_real_time_collaborat.Base.{
  ◌≡◌, ◌≢◌, refl, ap, ◌∙◌, Bool, true, false, Option, none, some, List, [], ◌∷◌, All, arith,
}
use vip_real_time_collaborat.Base.Text.{Text}
use vip_real_time_collaborat.Packages.{Lib0, Ws, ReadyState}
use vip_real_time_collaborat.Client.SharedSocket.{
  SharedWebSocket, new_shared, is_active, is_connecting,
}
use vip_real_time_collaborat.Client.SharedSocket.Listeners.{open_room, fail_protocol, Event, run}
use vip_real_time_collaborat.Client.SharedSocket.Idle.{
  activity, Tidy, IsTidy, IsWeak, CloseStops, Tidy-Kept,
}
use vip_real_time_collaborat.Client.SharedSocket.Steps.{Stepped, run-kept, events_ask}

open_room-filled :
    (room : Text) (m : List (Text × SharedWebSocket)) → m ≢ [] → open_room room m ≢ []
unfolding open_room
open_room-filled room [] n e = n refl
open_room-filled room ((r, v) ∷ m) n e = ground (arith, e)

Tidy-open_room :
    (a : Option Bool) (room : Text) (m : List (Text × SharedWebSocket))
    → Tidy a m
    → Tidy a (open_room room m)
unfolding open_room
Tidy-open_room none room m t = rw t refl
Tidy-open_room (some true) room m t = open_room-filled room m t
Tidy-open_room (some false) room m t = tt

no_demand : (m : List (Text × SharedWebSocket)) → All (λ (x : Text × SharedWebSocket). Unit {0}) m
no_demand [] = tt
no_demand (x ∷ m) = (tt, no_demand m)

connecting_active : (r : ReadyState) → is_connecting r ≡ true → is_active r ≡ true
connecting_active r h = ground (arith, h)

module _ (l : Lib0) (w : Ws) (stops : CloseStops w) where
  Tidy-Stepped : Stepped l w (λ m. Unit {0}) (λ room. Unit {0}) IsTidy IsWeak (λ id. IsWeak)
  unfolding fail_protocol
  Tidy-Stepped = record {
    kept = Tidy-Kept l w stops;
    again = λ s t. no_demand s.virtual_sockets;
    answered = λ room s o t. Tidy-open_room (activity s.physical) room s.virtual_sockets t;
    failed = λ p s e t. rw (stops p.ready) tt;
    opens = λ p s e c t.
        subst (λ a. Tidy a s.virtual_sockets)
          (ap activity e ∙ ap some (connecting_active p.ready c)) t;
    stops = λ p s e t. tt;
    detaches = λ s t. refl;
  }

  fresh-IsTidy : (faults : List Bool) → IsTidy (new_shared faults)
  unfolding new_shared
  fresh-IsTidy faults = refl

  -- Whatever rooms are opened, used and closed, whatever the callbacks call, whatever the server
  -- sends and whichever sends fail, where `close` leaves a WebSocket neither connecting nor open:
  -- while a room is registered there is a physical socket, and while a physical socket is connecting
  -- or open some room is registered.
  pub run-IsTidy : (faults : List Bool) (es : List Event) → IsTidy (run l w es (new_shared faults))
  run-IsTidy faults es =
      run-kept Tidy-Stepped es (new_shared faults) (events_ask l es) (fresh-IsTidy faults)
