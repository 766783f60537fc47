-- ===== src/Client/SharedSocket/Kept.antt =====
-- src/shared-websocket.ts: what the calls and the fan-out loops keep, for any property that the single
-- changes of the state keep.
use vip_real_time_collaborat.Base.Maps.{lookup}
use vip_real_time_collaborat.Base.{
  inr, ◌⊎◌, ℕ, ◌≡◌, refl, Bool, true, false, not, Option, none, some, List, [], ◌∷◌, if◌then◌else◌,
}
use vip_real_time_collaborat.Base.Text.{Text}
use vip_real_time_collaborat.Base.Maps.{has}
use vip_real_time_collaborat.Packages.{Lib0, Ws, is_open}
use vip_real_time_collaborat.Protocol.{
  ProtocolMessage, subscribe, room_data, unsubscribe, encode_message,
}
use vip_real_time_collaborat.Client.SharedSocket.{
  on_open, on_message, SharedWebSocket, Notice, SharedWebSocket, Physical, Notice, on_error,
  on_close, Shared, notify, is_active, unregister, ready_of, detached_ready, without_socket,
  open_physical_socket, register, close_physical_socket_normally, finish_close,
  send_physical_message, construct, close_virtual_socket, close, send, Calls, returns, constructs,
  sends, closes, perform,
}
use vip_real_time_collaborat.Client.SharedSocket.Listeners.{notify_errors, notify_closes}
use vip_real_time_collaborat.Client.SharedSocket.Branches.{by_option, by_test, by_result}

-- The messages that the calls ask for.
abbrev pub Asks : (ProtocolMessage → Type 0) → Calls → Type 0
Asks P returns = Unit {0}
Asks P (constructs room grant rest) = P (subscribe room grant) × Asks P rest
Asks P (sends room id payload rest) = P (room_data room payload) × Asks P rest
Asks P (closes room id code inner rest) = P (unsubscribe room) × (Asks P inner × Asks P rest)

abbrev pub AllAsk : (ProtocolMessage → Type 0) → List Calls → Type 0
AllAsk P [] = Unit {0}
AllAsk P (c ∷ cs) = Asks P c × AllAsk P cs

pub any_calls :
    (P : ProtocolMessage → Type 0) → ((m : ProtocolMessage) → P m) → (c : Calls) → Asks P c
any_calls P f returns = tt
any_calls P f (constructs room grant rest) = (f (subscribe room grant), any_calls P f rest)
any_calls P f (sends room id payload rest) = (f (room_data room payload), any_calls P f rest)
any_calls P f (closes room id code inner rest) =
    (f (unsubscribe room), (any_calls P f inner, any_calls P f rest))

pub any_reactions :
    (P : ProtocolMessage → Type 0) → ((m : ProtocolMessage) → P m) → (cs : List Calls) → AllAsk P cs
any_reactions P f [] = tt
any_reactions P f (c ∷ cs) = (any_calls P f c, any_reactions P f cs)

-- The socket of the room and id is registered, or it is CONNECTING or OPEN.
abbrev pub IsFound : Text → ℕ → Shared → Type 0
IsFound room id s =
    ((v : SharedWebSocket) × ((lookup room s.virtual_sockets ≡ some v) × (v.id ≡ id)))
    ⊎ (is_active (ready_of room id s) ≡ true)

abbrev pub is_close : Notice → Bool
is_close (on_open id) = false
is_close (on_message id payload) = false
is_close (on_error id) = false
is_close (on_close id code from_room) = true

-- `I` holds between the calls, `J` within a close, before its last step, and `U` of the id of a socket that
-- is closed and whose `onclose` has not been called.
pub record Kept (l : Lib0) (w : Ws) (P : ProtocolMessage → Type 0) (I J : Shared → Type 0)
    (U : ℕ → Shared → Type 0) : Type 0 where
  pub weaken : (s : Shared) → I s → J s
  pub sent : (m : ProtocolMessage) (s : Shared) → P m → I s → I (send_physical_message l w m s).0
  pub sent_within :
      (m : ProtocolMessage) (s : Shared) → P m → J s → J (send_physical_message l w m s).0
  pub closed_normally : (s : Shared) → J s → I (close_physical_socket_normally w s)
  pub finished : (b : Bool) (s : Shared) → J s → I (finish_close w b s)
  pub opened :
      (room grant : Text) (s : Shared)
      → P (subscribe room grant)
      → J s
      → I (register room grant (open_physical_socket grant s))
  pub joined :
      (room grant : Text) (p : Physical) (s : Shared)
      → P (subscribe room grant)
      → s.physical ≡ some p
      → J s
      → I (register room grant (send_physical_message l w (subscribe room grant) s).0)
  pub unregistered :
      (room : Text) (id : ℕ) (s : Shared) → IsFound room id s → J s → U id (unregister room id s)
  pub sent_closing :
      (id : ℕ) (m : ProtocolMessage) (s : Shared)
      → P m
      → U id s
      → U id (send_physical_message l w m s).0
  pub told :
      (id : ℕ) (code : Option ℕ) (from_room : Bool) (s : Shared)
      → U id s
      → J (notify (on_close id code from_room) s)
  pub notified : (n : Notice) (s : Shared) → is_close n ≡ false → I s → I (notify n s)
  pub released :
      (id : ℕ) (code : Option ℕ) (s : Shared)
      → is_active (detached_ready id s.detached) ≡ true
      → I s
      → I (notify (on_close id code false) (record s { detached = without_socket id s.detached }))

module _ {l : Lib0} {w : Ws} {P : ProtocolMessage → Type 0} {I J : Shared → Type 0}
    {U : ℕ → Shared → Type 0} (k : Kept l w P I J U) where
  -- The constructor, for the property `K` between or within the calls.
  construct_by :
      (K : Shared → Type 0) (room grant : Text) (s : Shared)
      → P (subscribe room grant)
      → ((t : Shared) → I t → K t)
      → J s
      → K s
      → K (send_physical_message l w (subscribe room grant) s).0
      → K (construct l w room grant s).0
  unfolding construct
  construct_by K room grant s p strong j here after =
      let sent = send_physical_message l w (subscribe room grant) s in
      let made : Shared × Bool = (register room grant (open_physical_socket grant s), true) in
      let joins : Shared × Bool =
        if sent.1 then (register room grant sent.0, true) else (sent.0, false) in
      let opens : Shared × Bool = elim s.physical as (λ x. Shared × Bool) [
        | none ↦ made
        | some q ↦ joins
      ] in
      by_result (λ (r : Shared × Bool). K r.0)
        (λ bytes. if has room s.virtual_sockets then (s, false) else opens) (s, false)
        (encode_message l (subscribe room grant))
        (λ bytes e.
          by_test (λ (r : Shared × Bool). K r.0) (has room s.virtual_sockets) (s, false) opens
            (λ h. here)
            (λ h.
              by_option (λ (r : Shared × Bool). K r.0) made (λ q. joins) s.physical
                (λ n. strong _ (k.opened room grant s p j))
                (λ q n.
                  by_test (λ (r : Shared × Bool). K r.0) sent.1 (register room grant sent.0, true)
                    (sent.0, false) (λ t. strong _ (k.joined room grant q s p n j)) (λ t. after))))
        here

  pub construct-kept :
      (room grant : Text) (s : Shared)
      → P (subscribe room grant)
      → I s
      → I (construct l w room grant s).0
  construct-kept room grant s p i =
      construct_by I room grant s p (λ t h. h) (k.weaken s i) i
        (k.sent (subscribe room grant) s p i)

  construct-within :
      (room grant : Text) (s : Shared)
      → P (subscribe room grant)
      → J s
      → J (construct l w room grant s).0
  construct-within room grant s p i =
      construct_by J room grant s p k.weaken i i (k.sent_within (subscribe room grant) s p i)

  pub close_virtual_socket-kept :
      (f : Shared → Shared) (room : Text) (id : ℕ) (code : Option ℕ) (from_room unsubscribes : Bool)
      (s : Shared)
      → IsFound room id s
      → (unsubscribes ≡ true → P (unsubscribe room))
      → ((t : Shared) → J t → J (f t))
      → J s
      → I (close_virtual_socket l w f room id code from_room unsubscribes s)
  unfolding close_virtual_socket
  close_virtual_socket-kept f room id code from_room true s q p g j = k.finished _ _ (
      g _ (
        k.told id code from_room _ (k.sent_closing id _ _ (p refl) (k.unregistered room id s q j))))
  close_virtual_socket-kept f room id code from_room false s q p g j =
      k.finished false _ (g _ (k.told id code from_room _ (k.unregistered room id s q j)))

  close_by :
      (K : Shared → Type 0) (f : Shared → Shared) (room : Text) (id code : ℕ) (s : Shared)
      → P (unsubscribe room)
      → ((t : Shared) → J t → J (f t))
      → ((t : Shared) → I t → K t)
      → J s
      → K s
      → K (close l w f room id code s)
  unfolding close
  close_by K f room id code s p g strong j here =
      by_test K (is_active (ready_of room id s))
        (close_virtual_socket l w f room id (some code) false true s) s
        (λ h.
          strong _
            (close_virtual_socket-kept f room id (some code) false true s (inr h) (λ e. p) g j))
        (λ h. here)

  send_by :
      (K : Shared → Type 0) (room : Text) (id : ℕ) (payload : List ℕ) (s : Shared)
      → J (send_physical_message l w (room_data room payload) s).0
      → ((t : Shared) → I t → K t)
      → K s
      → K (send_physical_message l w (room_data room payload) s).0
      → K (send l w room id payload s).0
  unfolding send
  send_by K room id payload s j strong here after =
      let sent = send_physical_message l w (room_data room payload) s in
      by_test (λ (r : Shared × Bool). K r.0) (not (is_open (ready_of room id s))) (s, false)
        (if sent.1 then (sent.0, true) else (close_physical_socket_normally w sent.0, false))
        (λ h. here)
        (λ h.
          by_test (λ (r : Shared × Bool). K r.0) sent.1 (sent.0, true)
            (close_physical_socket_normally w sent.0, false) (λ t. after)
            (λ t. strong _ (k.closed_normally sent.0 j)))

  pub send-kept :
      (room : Text) (id : ℕ) (payload : List ℕ) (s : Shared)
      → P (room_data room payload)
      → I s
      → I (send l w room id payload s).0
  send-kept room id payload s p i =
      let after = k.sent (room_data room payload) s p i in
      send_by I room id payload s (k.weaken _ after) (λ t h. h) i after

  send-within :
      (room : Text) (id : ℕ) (payload : List ℕ) (s : Shared)
      → P (room_data room payload)
      → J s
      → J (send l w room id payload s).0
  send-within room id payload s p j =
      let after = k.sent_within (room_data room payload) s p j in
      send_by J room id payload s after k.weaken j after

  pub perform-within : (c : Calls) (s : Shared) → Asks P c → J s → J (perform l w c s)
  unfolding perform
  perform-within returns s a j = j
  perform-within (constructs room grant rest) s (p, a) j =
      perform-within rest _ a (construct-within room grant s p j)
  perform-within (sends room id payload rest) s (p, a) j =
      perform-within rest _ a (send-within room id payload s p j)
  perform-within (closes room id code inner rest) s (p, (b, a)) j =
      perform-within rest _ a (
        close_by J (perform l w inner) room id code s p (λ t. perform-within inner t b) k.weaken j
          j)

  pub close-kept :
      (c : Calls) (room : Text) (id code : ℕ) (s : Shared)
      → P (unsubscribe room)
      → Asks P c
      → I s
      → I (close l w (perform l w c) room id code s)
  close-kept c room id code s p a i =
      close_by I (perform l w c) room id code s p (λ t. perform-within c t a) (λ t h. h)
        (k.weaken s i) i

  pub perform-kept : (c : Calls) (s : Shared) → Asks P c → I s → I (perform l w c s)
  unfolding perform
  perform-kept returns s a i = i
  perform-kept (constructs room grant rest) s (p, a) i =
      perform-kept rest _ a (construct-kept room grant s p i)
  perform-kept (sends room id payload rest) s (p, a) i =
      perform-kept rest _ a (send-kept room id payload s p i)
  perform-kept (closes room id code inner rest) s (p, (b, a)) i =
      perform-kept rest _ a (close-kept inner room id code s p b i)

  pub notify_errors-kept :
      (cs : List Calls) (m : List (Text × SharedWebSocket)) (s : Shared)
      → AllAsk P cs
      → I s
      → I (notify_errors l w cs m s)
  unfolding notify_errors
  notify_errors-kept cs [] s a i = i
  notify_errors-kept [] ((room, v) ∷ m) s a i =
      notify_errors-kept [] m _ tt (k.notified (on_error v.id) s refl i)
  notify_errors-kept (c ∷ cs) ((room, v) ∷ m) s (b, a) i =
      notify_errors-kept cs m _ a (perform-kept c _ b (k.notified (on_error v.id) s refl i))

  pub notify_closes-kept :
      (code : Option ℕ) (cs : List Calls) (m : List (Text × SharedWebSocket)) (s : Shared)
      → AllAsk P cs
      → I s
      → I (notify_closes l w code cs m s)
  unfolding notify_closes
  notify_closes-kept code cs [] s a i = i
  notify_closes-kept code [] ((room, v) ∷ m) s a i =
      by_test I (is_active (detached_ready v.id s.detached)) _ _
        (λ h. notify_closes-kept code [] m _ tt (k.released v.id code s h i))
        (λ h. notify_closes-kept code [] m s tt i)
  notify_closes-kept code (c ∷ cs) ((room, v) ∷ m) s (b, a) i =
      by_test I (is_active (detached_ready v.id s.detached)) _ _
        (λ h. notify_closes-kept code cs m _ a (perform-kept c _ b (k.released v.id code s h i)))
        (λ h. notify_closes-kept code (c ∷ cs) m s (b, a) i)
