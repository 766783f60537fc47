-- ===== src/Server/Capacity.antt =====
-- websocket-server/server.ts: the limits hold whatever connects, times out and closes.
use vip_real_time_collaborat.Base.{
  ℕ, ◌≤◌, ◌≡◌, refl, sym, ap, ◌∙◌, ◌⊎◌, inl, inr, Bool, true, none, some, List, [], ◌∷◌, arith,
  Bool-cases,
}
use vip_real_time_collaborat.Base.Integers.{pos}
use vip_real_time_collaborat.Auth.{SyncTokenPayload}
use vip_real_time_collaborat.Server.Limits.{
  WebSocketWithIdentity, Config, has_user, get_active_collaborator_count,
  should_allow_collaborator_with_limit, should_allow_collaborator, should_allow_connection,
}
use vip_real_time_collaborat.Server.Limits.Counts.{
  leave, admitted, admitted-length, admitted-leave, get_active_collaborator_count_cons,
  get_active_collaborator_count-leave,
}
use vip_real_time_collaborat.Server.Limits.Laws.{should_allow_collaborator_with_limit_iff}
use vip_real_time_collaborat.Server.{
  Server, new_server, Event, upgraded, timed_out, closed, maintained, step, run, handle_connection,
  handle_timeout, handle_close, reconcile_connected_clients, is_listed, client_of, turn_away,
  close_socket, admit_socket,
}

abbrev pub unidentified : ℕ → WebSocketWithIdentity
unidentified id = record { id = id; wp_client_id = none; user_id = none }

abbrev pub identified : ℕ → SyncTokenPayload → WebSocketWithIdentity
identified id grant = record {
  id = id;
  wp_client_id = client_of grant;
  user_id = some grant.user_id;
}

-- An opening socket stays without an identity, or both limits let it in.
handle_connection-cases :
    (config : Config) (grant : SyncTokenPayload) (multiplex : Bool) (s : Server)
    → let next = handle_connection config grant multiplex s in
      let clients = unidentified s.next_id ∷ s.clients in
      (next.clients ≡ clients)
      ⊎ ((should_allow_collaborator config clients (some grant.user_id) ≡ true)
          × (next.clients ≡ identified s.next_id grant ∷ s.clients))
unfolding handle_connection
handle_connection-cases config grant multiplex s =
    let clients = unidentified s.next_id ∷ s.clients in
    elim (Bool-cases (should_allow_collaborator config clients (some grant.user_id))) [
      | inl e ↦ elim (Bool-cases (should_allow_connection config clients (client_of grant))) [
        | inl k ↦ inr (e, rw (e, k) refl)
        | inr k ↦ inl (rw (e, k) refl)
      ]
      | inr e ↦ inl (rw e refl)
    ]

allowed-count :
    (config : Config) (m id : ℕ) (grant : SyncTokenPayload) (clients : List WebSocketWithIdentity)
    → config.max_collaborators ≡ pos m
    → should_allow_collaborator config (unidentified id ∷ clients) (some grant.user_id) ≡ true
    → get_active_collaborator_count clients ≤ m
    → get_active_collaborator_count (identified id grant ∷ clients) ≤ m
unfolding should_allow_collaborator has_user
allowed-count config m id grant clients h e k =
    let fact =
      (should_allow_collaborator_with_limit_iff m grant.user_id (unidentified id ∷ clients)).0 (
        ap (should_allow_collaborator_with_limit (unidentified id ∷ clients) (some grant.user_id))
          (sym h)
        ∙ e) in
    ground (
      arith,
      fact,
      get_active_collaborator_count_cons (unidentified id) clients,
      get_active_collaborator_count_cons (identified id grant) clients,
    )

-- An opening lets a new collaborator in only below the limit.
handle_connection-collaborators :
    (config : Config) (m : ℕ) (grant : SyncTokenPayload) (multiplex : Bool) (s : Server)
    → config.max_collaborators ≡ pos m
    → get_active_collaborator_count s.clients ≤ m
    → get_active_collaborator_count (handle_connection config grant multiplex s).clients ≤ m
handle_connection-collaborators config m grant multiplex s h k =
    elim (handle_connection-cases config grant multiplex s) [
      | inl e ↦
          rw e
            (omega (arith, get_active_collaborator_count_cons (unidentified s.next_id) s.clients))
      | inr (a, e) ↦ rw e (allowed-count config m s.next_id grant s.clients h a k)
    ]

handle_connection-admitted :
    (config : Config) (m : ℕ) (grant : SyncTokenPayload) (multiplex : Bool) (s : Server)
    → config.max_connections ≡ pos m
    → admitted s.clients ≤ m
    → admitted (handle_connection config grant multiplex s).clients ≤ m
unfolding handle_connection turn_away close_socket admit_socket should_allow_connection admitted
handle_connection-admitted config m grant multiplex s h k =
    rw h (ground (arith, admitted-length s.clients))

handle_close-clients :
    (id code : ℕ) (s : Server) → (handle_close id code s).clients ≡ leave id s.clients
unfolding handle_close
handle_close-clients id code s = elim (Bool-cases (is_listed id s.listening)) [
  | inl e ↦ rw e refl
  | inr e ↦ rw e refl
]

handle_timeout-clients : (id : ℕ) (s : Server) → (handle_timeout id s).clients ≡ s.clients
unfolding handle_timeout
handle_timeout-clients id s = elim (Bool-cases (is_listed id s.timeouts)) [
  | inl e ↦ rw e refl
  | inr e ↦ rw e refl
]

step-collaborators :
    (config : Config) (m : ℕ) (e : Event) (s : Server)
    → config.max_collaborators ≡ pos m
    → get_active_collaborator_count s.clients ≤ m
    → get_active_collaborator_count (step config e s).clients ≤ m
unfolding step reconcile_connected_clients
step-collaborators config m (upgraded grant multiplex) s h k =
    handle_connection-collaborators config m grant multiplex s h k
step-collaborators config m (timed_out id) s h k = rw (handle_timeout-clients id s) k
step-collaborators config m (closed id code) s h k =
    rw (handle_close-clients id code s)
      (omega (arith, get_active_collaborator_count-leave id s.clients))
step-collaborators config m maintained s h k = k

step-admitted :
    (config : Config) (m : ℕ) (e : Event) (s : Server)
    → config.max_connections ≡ pos m
    → admitted s.clients ≤ m
    → admitted (step config e s).clients ≤ m
unfolding step reconcile_connected_clients
step-admitted config m (upgraded grant multiplex) s h k =
    handle_connection-admitted config m grant multiplex s h k
step-admitted config m (timed_out id) s h k = rw (handle_timeout-clients id s) k
step-admitted config m (closed id code) s h k =
    rw (handle_close-clients id code s) (omega (arith, admitted-leave id s.clients))
step-admitted config m maintained s h k = k

run-collaborators :
    (config : Config) (m : ℕ) (es : List Event) (s : Server)
    → config.max_collaborators ≡ pos m
    → get_active_collaborator_count s.clients ≤ m
    → get_active_collaborator_count (run config es s).clients ≤ m
unfolding run
run-collaborators config m [] s h k = k
run-collaborators config m (e ∷ es) s h k =
    run-collaborators config m es (step config e s) h (step-collaborators config m e s h k)

run-admitted :
    (config : Config) (m : ℕ) (es : List Event) (s : Server)
    → config.max_connections ≡ pos m
    → admitted s.clients ≤ m
    → admitted (run config es s).clients ≤ m
unfolding run
run-admitted config m [] s h k = k
run-admitted config m (e ∷ es) s h k =
    run-admitted config m es (step config e s) h (step-admitted config m e s h k)

no_collaborator : get_active_collaborator_count new_server.clients ≡ 0
unfolding new_server get_active_collaborator_count
no_collaborator = refl

none_admitted : admitted new_server.clients ≡ 0
unfolding new_server admitted
none_admitted = refl

-- Whatever connects, times out and closes, in any order: with a limit of `m` collaborators at most
-- `m` different users have an admitted connection that is not closed.
pub run_collaborators_bounded :
    (config : Config) (m : ℕ) (es : List Event)
    → config.max_collaborators ≡ pos m
    → get_active_collaborator_count (run config es new_server).clients ≤ m
run_collaborators_bounded config m es h =
    run-collaborators config m es new_server h (omega (arith, no_collaborator))

-- Whatever connects, times out and closes, in any order: with a limit of `m` connections at most
-- `m` of the sockets that are not closed have been admitted.
pub run_connections_bounded :
    (config : Config) (m : ℕ) (es : List Event)
    → config.max_connections ≡ pos m
    → admitted (run config es new_server).clients ≤ m
run_connections_bounded config m es h =
    run-admitted config m es new_server h (omega (arith, none_admitted))
