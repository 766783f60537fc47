-- ===== src/Link/Openings.antt =====
-- src/shared-websocket.ts: a virtual socket becomes open by a `subscribed` for its room alone.
use mathlib.Core.Path.{subst}
use vip_real_time_collaborat.Base.{
  ℕ, ◌≡◌, sym, ◌||◌, Bool, true, false, Option, none, some, List, [], ◌∷◌, All, ◌==◌, length,
}
use vip_real_time_collaborat.Base.Text.{Text, ◌===◌, ===_iff}
use vip_real_time_collaborat.Base.Maps.{lookup, set, remove}
use vip_real_time_collaborat.Packages.{Lib0, Ws, connecting, opened, is_open}
use vip_real_time_collaborat.Protocol.{ProtocolMessage, subscribe, encode_message}
use vip_real_time_collaborat.Client.SharedSocket.{
  SharedWebSocket, Physical, Shared, new_shared, notify, with_ready, is_active, removed_if,
  unregister, close_physical_socket_normally, physical_send, send_physical_message, finish_close,
  open_physical_socket, register,
}
use vip_real_time_collaborat.Client.SharedSocket.Listeners.{open_room, fail_protocol}
use vip_real_time_collaborat.Client.SharedSocket.Branches.{by_option, by_test, by_result}
use vip_real_time_collaborat.Client.SharedSocket.Kept.{Kept}
use vip_real_time_collaborat.Client.SharedSocket.Steps.{Stepped}

module _ (P : Text → Type 0) where
  abbrev pub OpenUnder : Text × SharedWebSocket → Type 0
  OpenUnder (room, v) = is_open v.ready ≡ true → P room

  -- Every registered socket that is open has a room with `P`.
  abbrev pub IsOpenOnly : Shared → Type 0
  IsOpenOnly s = All OpenUnder s.virtual_sockets

  remove-All :
      (room : Text) (m : List (Text × SharedWebSocket))
      → All OpenUnder m
      → All OpenUnder (remove room m)
  unfolding remove
  remove-All room [] a = tt
  remove-All room ((r, v) ∷ m) (a, b) =
      by_test (All OpenUnder) (r === room) m ((r, v) ∷ remove room m) (λ h. b)
        (λ h. (a, remove-All room m b))

  removed-All :
      (room : Text) (id : ℕ) (m : List (Text × SharedWebSocket)) (o : Option SharedWebSocket)
      → All OpenUnder m
      → All OpenUnder (removed_if room id m o)
  unfolding removed_if
  removed-All room id m none a = a
  removed-All room id m (some v) a =
      by_test (All OpenUnder) (v.id == id) (remove room m) m (λ h. remove-All room m a) (λ h. a)

  set-All :
      (room grant : Text) (id : ℕ) (m : List (Text × SharedWebSocket))
      → All OpenUnder m
      → All OpenUnder (set room (record { id = id; grant = grant; ready = connecting }) m)
  unfolding set
  set-All room grant id [] a = (λ h. absurd cc, tt)
  set-All room grant id ((r, u) ∷ m) (a, b) =
      by_test (All OpenUnder) (r === room) _ _ (λ h. (λ o. absurd cc, b))
        (λ h. (a, set-All room grant id m b))

  open_room-All :
      (room : Text) (m : List (Text × SharedWebSocket))
      → P room
      → All OpenUnder m
      → All OpenUnder (open_room room m)
  unfolding open_room
  open_room-All room [] p a = tt
  open_room-All room ((r, v) ∷ m) p (a, b) =
      by_test (All OpenUnder) (r === room) ((r, with_ready opened v) ∷ m)
        ((r, v) ∷ open_room room m) (λ h. (λ o. subst P (sym ((===_iff r room).0 h)) p, b))
        (λ h. (a, open_room-All room m p b))

  module _ (l : Lib0) (w : Ws) where
    physical_send-IsOpenOnly :
        (bytes : List ℕ) (p : Physical) (faults : List Bool) (s : Shared)
        → IsOpenOnly s
        → IsOpenOnly (physical_send bytes p faults s).0
    unfolding physical_send
    physical_send-IsOpenOnly bytes p [] s i = i
    physical_send-IsOpenOnly bytes p (false ∷ faults) s i = i
    physical_send-IsOpenOnly bytes p (true ∷ faults) s i = i

    sent-IsOpenOnly :
        (m : ProtocolMessage) (s : Shared)
        → IsOpenOnly s
        → IsOpenOnly (send_physical_message l w m s).0
    unfolding send_physical_message
    sent-IsOpenOnly m s i =
        by_option (λ (r : Shared × Bool). IsOpenOnly r.0) (s, true) _ s.physical (λ e. i)
          (λ p e.
            by_test (λ (r : Shared × Bool). IsOpenOnly r.0) (is_open p.ready) _ (s, true)
              (λ h.
                by_result (λ (r : Shared × Bool). IsOpenOnly r.0)
                  (λ bytes. physical_send bytes p s.faults s) (s, false) (encode_message l m)
                  (λ bytes k. physical_send-IsOpenOnly bytes p s.faults s i) i)
              (λ h. i))

    closed_normally : (s : Shared) → IsOpenOnly s → IsOpenOnly (close_physical_socket_normally w s)
    unfolding close_physical_socket_normally
    closed_normally s i =
        by_option IsOpenOnly s _ s.physical (λ e. i)
          (λ p e. by_test IsOpenOnly (is_active p.ready) _ s (λ h. i) (λ h. i))

    finished : (b : Bool) (s : Shared) → IsOpenOnly s → IsOpenOnly (finish_close w b s)
    unfolding finish_close
    finished b s i =
        by_test IsOpenOnly (b || length s.virtual_sockets == 0) (close_physical_socket_normally w s)
          s (λ h. closed_normally s i) (λ h. i)

    OpenOnly-Kept : Kept l w (λ m. Unit {0}) IsOpenOnly IsOpenOnly (λ id. IsOpenOnly)
    unfolding register open_physical_socket notify unregister
    OpenOnly-Kept = record {
      weaken = λ s i. i;
      sent = λ m s p i. sent-IsOpenOnly m s i;
      sent_within = λ m s p i. sent-IsOpenOnly m s i;
      sent_closing = λ id m s p i. sent-IsOpenOnly m s i;
      closed_normally = closed_normally;
      finished = finished;
      opened = λ room grant s p i. set-All room grant _ s.virtual_sockets i;
      joined = λ room grant q s p e i.
          set-All room grant _ _ (sent-IsOpenOnly (subscribe room grant) s i);
      unregistered =
          λ room id s x i. removed-All room id s.virtual_sockets (lookup room s.virtual_sockets) i;
      notified = λ n s x i. i;
      told = λ id code from_room s i. i;
      released = λ id code s x i. i;
    }

    no_demand :
        (m : List (Text × SharedWebSocket)) → All (λ (x : Text × SharedWebSocket). Unit {0}) m
    no_demand [] = tt
    no_demand (x ∷ m) = (tt, no_demand m)

    -- Messages that arrive open rooms with `P` at most.
    pub OpenOnly-Stepped : Stepped l w (λ m. Unit {0}) P IsOpenOnly IsOpenOnly (λ id. IsOpenOnly)
    unfolding fail_protocol
    OpenOnly-Stepped = record {
      kept = OpenOnly-Kept;
      again = λ s i. no_demand s.virtual_sockets;
      answered = λ room s p i. open_room-All room s.virtual_sockets p i;
      failed = λ p s e i. i;
      opens = λ p s e c i. i;
      stops = λ p s e i. i;
      detaches = λ s i. tt;
    }

  pub fresh-IsOpenOnly : (faults : List Bool) → IsOpenOnly (new_shared faults)
  unfolding new_shared
  fresh-IsOpenOnly faults = tt
