-- ===== src/Server/Timeouts.antt =====
-- websocket-server/server.ts: no admitted connection is left without its time limit.
use vip_real_time_collaborat.Base.{
  ℕ, ◌≡◌, ◌⊎◌, inl, inr, Bool, true, false, ◌&&◌, ◌||◌, some, List, [], ◌∷◌, arith, ◌==◌,
  if◌then◌else◌, Bool-cases,
}
use vip_real_time_collaborat.Auth.{SyncTokenPayload}
use vip_real_time_collaborat.Server.Limits.{
  Config, should_allow_collaborator, should_allow_connection,
}
use vip_real_time_collaborat.Server.{
  Server, new_server, Event, upgraded, timed_out, closed, maintained, step, run, handle_connection,
  handle_timeout, handle_close, reconcile_connected_clients, client_of, is_listed, unlist,
  close_socket, turn_away, admit_socket,
}
use vip_real_time_collaborat.Server.Capacity.{unidentified}

abbrev pub is_called : ℕ → ℕ → List (ℕ × ℕ) → Bool
is_called id code [] = false
is_called id code ((i, c) ∷ calls) = (i == id && c == code) || is_called id code calls

-- The timer of the connection is pending, or it has fired: the socket was told to close with 4001.
abbrev pub IsTimed : Server → ℕ → Type 0
IsTimed s id = (is_listed id s.timeouts ≡ true) ⊎ (is_called id 4001 s.close_calls ≡ true)

abbrev AreTimed : Server → Type 0
AreTimed s = (id : ℕ) → is_listed id s.listening ≡ true → IsTimed s id

pub is_listed-unlist :
    (i id : ℕ) (ids : List ℕ)
    → is_listed i (unlist id ids) ≡ (if id == i then false else is_listed i ids)
unfolding unlist
is_listed-unlist i id [] = ground arith
is_listed-unlist i id (j ∷ ids) = ground (arith, is_listed-unlist i id ids)

handle_timeout-AreTimed : (id : ℕ) (s : Server) → AreTimed s → AreTimed (handle_timeout id s)
unfolding handle_timeout close_socket
handle_timeout-AreTimed id s a i = elim (Bool-cases (is_listed id s.timeouts)) [
  | inl e ↦ rw e (λ h. ground (arith, a i h, is_listed-unlist i id s.timeouts))
  | inr e ↦ rw e (λ h. a i h)
]

handle_close-AreTimed : (id code : ℕ) (s : Server) → AreTimed s → AreTimed (handle_close id code s)
unfolding handle_close
handle_close-AreTimed id code s a i = elim (Bool-cases (is_listed id s.listening)) [
  | inl e ↦ rw e (λ h.
      ground (arith, h, a i, is_listed-unlist i id s.timeouts, is_listed-unlist i id s.listening))
  | inr e ↦ rw e (λ h. a i h)
]

turned_away :
    (s : Server) (id code : ℕ)
    → AreTimed s
    → (i : ℕ) → is_listed i s.listening ≡ true
    → (is_listed i s.timeouts ≡ true) ⊎ (is_called i 4001 ((id, code) ∷ s.close_calls) ≡ true)
turned_away s id code a i h = ground (arith, a i h)

handle_connection-AreTimed :
    (config : Config) (grant : SyncTokenPayload) (multiplex : Bool) (s : Server)
    → AreTimed s
    → AreTimed (handle_connection config grant multiplex s)
unfolding handle_connection turn_away close_socket admit_socket
handle_connection-AreTimed config grant multiplex s a i =
    let clients = unidentified s.next_id ∷ s.clients in
    elim (Bool-cases (should_allow_collaborator config clients (some grant.user_id))) [
      | inl e ↦ elim (Bool-cases (should_allow_connection config clients (client_of grant))) [
        | inl k ↦ rw (e, k) (λ h. ground (arith, h, a i))
        | inr k ↦ rw (e, k) (turned_away s s.next_id 4002 a i)
      ]
      | inr e ↦ rw e (turned_away s s.next_id 4003 a i)
    ]

step-AreTimed : (config : Config) (e : Event) (s : Server) → AreTimed s → AreTimed (step config e s)
unfolding step reconcile_connected_clients
step-AreTimed config (upgraded grant multiplex) s a =
    handle_connection-AreTimed config grant multiplex s a
step-AreTimed config (timed_out id) s a = handle_timeout-AreTimed id s a
step-AreTimed config (closed id code) s a = handle_close-AreTimed id code s a
step-AreTimed config maintained s a = a

run-AreTimed :
    (config : Config) (es : List Event) (s : Server) → AreTimed s → AreTimed (run config es s)
unfolding run
run-AreTimed config [] s a = a
run-AreTimed config (e ∷ es) s a =
    run-AreTimed config es (step config e s) (step-AreTimed config e s a)

no_listener : AreTimed new_server
unfolding new_server
no_listener id h = absurd (ground (arith, h))

-- Whatever connects, times out and closes, in any order: an admitted connection that is not closed has
-- its timer pending, or its timer has fired and the socket was told to close with 4001.
pub run-IsTimed :
    (config : Config) (es : List Event) (id : ℕ)
    → is_listed id (run config es new_server).listening ≡ true
    → IsTimed (run config es new_server) id
run-IsTimed config es id h = run-AreTimed config es new_server no_listener id h
