-- ===== src/Client/SharedSocket/Asked.antt =====
-- src/shared-websocket.ts with websocket-server/protocol.ts: the adapter sends what the calls ask for, and
-- the server can read it.
use mathlib.Core.Path.{subst}
use vip_real_time_collaborat.Base.{
  ℕ, ◌≡◌, sym, ◌⊎◌, inl, inr, Bool, true, false, ◌||◌, Option, none, some, List, [], ◌∷◌, ◌++◌, All,
  length, ◌==◌,
}
use vip_real_time_collaborat.Base.Text.{Text, ◌===◌, ===_iff}
use vip_real_time_collaborat.Base.Maps.{lookup, set, remove}
use vip_real_time_collaborat.Packages.{Lib0, Lib0Laws, Ws, opened, is_open}
use vip_real_time_collaborat.Protocol.Reader.{ok}
use vip_real_time_collaborat.Protocol.{ProtocolMessage, subscribe, encode_message, decode_message}
use vip_real_time_collaborat.Protocol.RoundTrip.{TextsWellFormed, decode_message-encode_message}
use vip_real_time_collaborat.Client.SharedSocket.{
  SharedWebSocket, Physical, Shared, new_shared, notify, with_ready, is_active, removed_if,
  unregister, close_physical_socket_normally, physical_send, send_physical_message, finish_close,
  open_physical_socket, register,
}
use vip_real_time_collaborat.Client.SharedSocket.Listeners.{open_room, fail_protocol, Event, run}
use vip_real_time_collaborat.Client.SharedSocket.Branches.{by_option, by_test, by_result}
use vip_real_time_collaborat.Client.SharedSocket.Kept.{Kept}
use vip_real_time_collaborat.Client.SharedSocket.Steps.{Stepped, EventAsks, run-kept}

-- The bytes are among those sent.
abbrev pub IsSent : List ℕ → List (List ℕ) → Type 0
IsSent bytes [] = ⊥
IsSent bytes (x ∷ xs) = (bytes ≡ x) ⊎ IsSent bytes xs

All-IsSent :
    (Q : List ℕ → Type 0) (bytes : List ℕ) (xs : List (List ℕ))
    → All Q xs
    → IsSent bytes xs
    → Q bytes
All-IsSent Q bytes [] a h = absurd h
All-IsSent Q bytes (x ∷ xs) a (inl e) = rw e a.0
All-IsSent Q bytes (x ∷ xs) a (inr h) = All-IsSent Q bytes xs a.1 h

All-snoc :
    (Q : List ℕ → Type 0) (xs : List (List ℕ)) (x : List ℕ) → All Q xs → Q x → All Q (xs ++ x ∷ [])
All-snoc Q [] x a h = (h, tt)
All-snoc Q (y ∷ ys) x a h = (a.0, All-snoc Q ys x a.1 h)

module _ (l : Lib0) (w : Ws) (P : ProtocolMessage → Type 0) where
  -- The bytes encode a message with `P`.
  abbrev Encodes : List ℕ → Type 0
  Encodes bytes = (m : ProtocolMessage) × (P m × (encode_message l m ≡ ok bytes))

  abbrev Sends : Option Physical → Type 0
  Sends none = Unit {0}
  Sends (some p) = All Encodes p.sent

  abbrev Subscribes : Text × SharedWebSocket → Type 0
  Subscribes (room, v) = P (subscribe room v.grant)

  -- All that was sent was asked for, and so was every subscription that may be sent again.
  abbrev IsAsked : Shared → Type 0
  IsAsked s = Sends s.physical × All Subscribes s.virtual_sockets

  Sends-some : (o : Option Physical) (p : Physical) → o ≡ some p → Sends o → All Encodes p.sent
  Sends-some o p e h = subst Sends e h

  physical_send-IsAsked :
      (bytes : List ℕ) (p : Physical) (faults : List Bool) (s : Shared)
      → Encodes bytes
      → s.physical ≡ some p
      → IsAsked s
      → IsAsked (physical_send bytes p faults s).0
  unfolding physical_send
  physical_send-IsAsked bytes p [] s h e (a, b) =
      (All-snoc Encodes p.sent bytes (Sends-some s.physical p e a) h, b)
  physical_send-IsAsked bytes p (false ∷ faults) s h e (a, b) =
      (All-snoc Encodes p.sent bytes (Sends-some s.physical p e a) h, b)
  physical_send-IsAsked bytes p (true ∷ faults) s h e (a, b) = (a, b)

  sent-IsAsked :
      (m : ProtocolMessage) (s : Shared)
      → P m
      → IsAsked s
      → IsAsked (send_physical_message l w m s).0
  unfolding send_physical_message
  sent-IsAsked m s p i =
      by_option (λ (r : Shared × Bool). IsAsked r.0) (s, true) _ s.physical (λ e. i)
        (λ q e.
          by_test (λ (r : Shared × Bool). IsAsked r.0) (is_open q.ready) _ (s, true)
            (λ h.
              by_result (λ (r : Shared × Bool). IsAsked r.0)
                (λ bytes. physical_send bytes q s.faults s) (s, false) (encode_message l m)
                (λ bytes k. physical_send-IsAsked bytes q s.faults s (m, (p, k)) e i) i)
            (λ h. i))

  closed_normally : (s : Shared) → IsAsked s → IsAsked (close_physical_socket_normally w s)
  unfolding close_physical_socket_normally
  closed_normally s (a, b) =
      by_option IsAsked s _ s.physical (λ e. (a, b))
        (λ p e.
          by_test IsAsked (is_active p.ready) _ s (λ h. (Sends-some s.physical p e a, b))
            (λ h. (a, b)))

  finished : (b : Bool) (s : Shared) → IsAsked s → IsAsked (finish_close w b s)
  unfolding finish_close
  finished b s i =
      by_test IsAsked (b || length s.virtual_sockets == 0) (close_physical_socket_normally w s) s
        (λ h. closed_normally s i) (λ h. i)

  remove-Subscribes :
      (room : Text) (m : List (Text × SharedWebSocket))
      → All Subscribes m
      → All Subscribes (remove room m)
  unfolding remove
  remove-Subscribes room [] a = tt
  remove-Subscribes room ((r, v) ∷ m) (a, b) =
      by_test (All Subscribes) (r === room) m ((r, v) ∷ remove room m) (λ h. b)
        (λ h. (a, remove-Subscribes room m b))

  removed-Subscribes :
      (room : Text) (id : ℕ) (m : List (Text × SharedWebSocket)) (o : Option SharedWebSocket)
      → All Subscribes m
      → All Subscribes (removed_if room id m o)
  unfolding removed_if
  removed-Subscribes room id m none a = a
  removed-Subscribes room id m (some v) a =
      by_test (All Subscribes) (v.id == id) (remove room m) m (λ h. remove-Subscribes room m a)
        (λ h. a)

  set-Subscribes :
      (room : Text) (v : SharedWebSocket) (m : List (Text × SharedWebSocket))
      → P (subscribe room v.grant)
      → All Subscribes m
      → All Subscribes (set room v m)
  unfolding set
  set-Subscribes room v [] p a = (p, tt)
  set-Subscribes room v ((r, u) ∷ m) p (a, b) =
      by_test (All Subscribes) (r === room) ((r, v) ∷ m) ((r, u) ∷ set room v m)
        (λ h. (subst (λ x. P (subscribe x v.grant)) (sym ((===_iff r room).0 h)) p, b))
        (λ h. (a, set-Subscribes room v m p b))

  open_room-Subscribes :
      (room : Text) (m : List (Text × SharedWebSocket))
      → All Subscribes m
      → All Subscribes (open_room room m)
  unfolding open_room
  open_room-Subscribes room [] a = tt
  open_room-Subscribes room ((r, v) ∷ m) (a, b) =
      by_test (All Subscribes) (r === room) ((r, with_ready opened v) ∷ m)
        ((r, v) ∷ open_room room m) (λ h. (a, b)) (λ h. (a, open_room-Subscribes room m b))

  Asked-Kept : Kept l w P IsAsked IsAsked (λ id. IsAsked)
  unfolding register open_physical_socket notify unregister
  Asked-Kept = record {
    weaken = λ s i. i;
    sent = sent-IsAsked;
    sent_within = sent-IsAsked;
    sent_closing = λ id. sent-IsAsked;
    closed_normally = closed_normally;
    finished = finished;
    opened = λ room grant s p (a, b). (tt, set-Subscribes room _ s.virtual_sockets p b);
    joined = λ room grant q s p e i.
        let (a, b) = sent-IsAsked (subscribe room grant) s p i in (a, set-Subscribes room _ _ p b);
    unregistered = λ room id s x (a, b).
        (a, removed-Subscribes room id s.virtual_sockets (lookup room s.virtual_sockets) b);
    notified = λ n s x i. i;
    told = λ id code from_room s i. i;
    released = λ id code s x i. i;
  }

  Asked-Stepped : Stepped l w P (λ room. Unit {0}) IsAsked IsAsked (λ id. IsAsked)
  unfolding fail_protocol
  Asked-Stepped = record {
    kept = Asked-Kept;
    again = λ s i. i.1;
    answered = λ room s o (a, b). (a, open_room-Subscribes room s.virtual_sockets b);
    failed = λ p s e (a, b). (Sends-some s.physical p e a, b);
    opens = λ p s e c (a, b). (Sends-some s.physical p e a, b);
    stops = λ p s e (a, b). (Sends-some s.physical p e a, b);
    detaches = λ s i. (tt, tt);
  }

  fresh-IsAsked : (faults : List Bool) → IsAsked (new_shared faults)
  unfolding new_shared
  fresh-IsAsked faults = (tt, tt)

  -- Let `P` hold of the messages that the calls of a run ask for, those within callbacks included: the
  -- subscribe of each room that is constructed, under its grant, the unsubscribe of each room that is
  -- closed, and each payload that is sent. Let it hold only of messages whose texts have no lone surrogate.
  -- Then all bytes that the current physical socket was given encode a message with `P`, and decodeMessage
  -- reads that message from them, where lib0 behaves as documented.
  pub run-decode_message :
      (laws : Lib0Laws l) (faults : List Bool) (es : List Event) (p : Physical) (bytes : List ℕ)
      → ((m : ProtocolMessage) → P m → TextsWellFormed l m)
      → All (EventAsks l P (λ room. Unit {0})) es
      → (run l w es (new_shared faults)).physical ≡ some p
      → IsSent bytes p.sent
      → (m : ProtocolMessage) × (P m
          × ((encode_message l m ≡ ok bytes) × (decode_message l bytes ≡ ok m)))
  run-decode_message laws faults es p bytes t a e h =
      let (sends, again) = run-kept Asked-Stepped es (new_shared faults) a (fresh-IsAsked faults) in
      let (m, (asked, k)) =
        All-IsSent Encodes bytes p.sent
          (Sends-some (run l w es (new_shared faults)).physical p e sends) h in
      (m, (asked, (k, decode_message-encode_message l laws m bytes k (t m asked))))
