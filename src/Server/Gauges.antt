-- ===== src/Server/Gauges.antt =====
-- websocket-server/metrics.ts: the gauges that the server keeps of its connections.
pub mod Sockets
use vip_real_time_collaborat.Base.{
  ℕ, zero, suc, ◌+◌, ◌-◌, ◌≤◌, ◌<◌, ◌≡◌, ◌≢◌, ◌⊎◌, All, refl, sym, ap, ◌∙◌, inl, inr, Bool, true,
  false, not, ◌&&◌, ◌||◌, Option, none, some, List, [], ◌∷◌, arith, length, ◌==◌, ==_iff,
  if◌then◌else◌, Bool-cases,
}
use vip_real_time_collaborat.Auth.{SyncTokenPayload}
use vip_real_time_collaborat.Server.Limits.{
  WebSocketWithIdentity, Config, has_user, same_user, get_active_collaborator_count,
  should_allow_collaborator, should_allow_connection,
}
use vip_real_time_collaborat.Server.Limits.Counts.{
  leave, admitted, admitted-length, get_active_collaborator_count_cons, new_user,
}
use vip_real_time_collaborat.Server.{
  Server, new_server, Event, upgraded, timed_out, closed, maintained, step, run, handle_connection,
  handle_timeout, handle_close, reconcile_connected_clients, is_listed, unlist, client_of,
  turn_away, close_socket, admit_socket,
}
use vip_real_time_collaborat.Server.Timeouts.{is_listed-unlist}
use vip_real_time_collaborat.Server.Capacity.{unidentified, identified}
use vip_real_time_collaborat.Server.Gauges.Sockets.{
  Below, HasListener, Below-weaken, Below-leave, length-unlist, length-unlist_listed,
  HasListener-unlist, heard_other, heard-leave, no_identity, new_user-same, unheard-leave,
  weaken_listener, heard_left, admitted-leave_one, unheard_admitted,
}

-- Each listener is counted by the gauge.
pub record Gauged (s : Server) : Type 0 where
  pub below : Below s.next_id s.clients
  pub heard : All (HasListener s.listening) s.clients
  pub counted : length s.listening ≤ s.active_connections
  pub present : length s.listening ≤ admitted s.clients
  pub collaborators : s.active_collaborators ≡ get_active_collaborator_count s.clients

-- A socket that is turned away has no identity, and changes no gauge.
turned_away-Gauged :
    (s t : Server)
    → Gauged s
    → t.next_id ≡ suc s.next_id
    → t.clients ≡ unidentified s.next_id ∷ s.clients
    → t.listening ≡ s.listening
    → t.active_connections ≡ s.active_connections
    → t.active_collaborators ≡ s.active_collaborators
    → Gauged t
unfolding admitted
turned_away-Gauged s t g n c l a k = record {
  below = rw (n, c) (omega arith, g.below);
  heard = rw (l, c) (inl refl, g.heard);
  counted = rw (l, a) g.counted;
  present = rw (l, c) (omega (arith, g.present));
  collaborators = rw c (
      omega (
        arith,
        k,
        g.collaborators,
        get_active_collaborator_count_cons (unidentified s.next_id) s.clients,
      ));
}

admit_socket-Gauged :
    (grant : SyncTokenPayload) (multiplex : Bool) (s joined : Server)
    → Gauged s
    → joined.next_id ≡ suc s.next_id
    → joined.listening ≡ s.listening
    → joined.active_connections ≡ s.active_connections
    → Gauged (admit_socket s.next_id grant multiplex s.clients joined)
unfolding admit_socket admitted
admit_socket-Gauged grant multiplex s joined g n l a = record {
  below = rw n (omega arith, g.below);
  heard =
      let others : All (HasListener (s.next_id ∷ joined.listening)) s.clients =
        rw l (weaken_listener s.next_id s.listening s.clients g.heard) in
      (inr (ground arith), others);
  counted = rw (l, a) (omega (arith, g.counted));
  present = rw l (omega (arith, g.present));
  collaborators = refl;
}

handle_connection-Gauged :
    (config : Config) (grant : SyncTokenPayload) (multiplex : Bool) (s : Server)
    → Gauged s
    → Gauged (handle_connection config grant multiplex s)
unfolding handle_connection turn_away close_socket
handle_connection-Gauged config grant multiplex s g =
    let clients = unidentified s.next_id ∷ s.clients in
    let joined : Server = record s { clients = clients; next_id = suc s.next_id } in
    elim (Bool-cases (should_allow_collaborator config clients (some grant.user_id))) [
      | inl e ↦ elim (Bool-cases (should_allow_connection config clients (client_of grant))) [
        | inl k ↦ rw (e, k) (admit_socket-Gauged grant multiplex s joined g refl refl refl)
        | inr k ↦ rw (e, k) (turned_away-Gauged s _ g refl refl refl refl refl)
      ]
      | inr e ↦ rw e (turned_away-Gauged s _ g refl refl refl refl refl)
    ]

handle_timeout-Gauged : (id : ℕ) (s : Server) → Gauged s → Gauged (handle_timeout id s)
unfolding handle_timeout close_socket
handle_timeout-Gauged id s g = elim (Bool-cases (is_listed id s.timeouts)) [
  | inl e ↦ rw e (record {
    below = g.below;
    heard = g.heard;
    counted = g.counted;
    present = g.present;
    collaborators = g.collaborators;
  })
  | inr e ↦ rw e g
]

handle_close-Gauged : (id code : ℕ) (s : Server) → Gauged s → Gauged (handle_close id code s)
unfolding handle_close
handle_close-Gauged id code s g = elim (Bool-cases (is_listed id s.listening)) [
  | inl e ↦ rw e (record {
    below = Below-leave id s.next_id s.clients g.below;
    heard = heard-leave id s.listening s.next_id s.clients g.below g.heard;
    counted = omega (arith, g.counted, length-unlist_listed id s.listening e);
    present =
        omega (
          arith,
          g.present,
          length-unlist_listed id s.listening e,
          admitted-leave_one id s.clients,
        );
    collaborators = refl;
  })
  | inr e ↦ rw e (record {
    below = Below-leave id s.next_id s.clients g.below;
    heard = heard_left id s.listening s.clients g.heard;
    counted = g.counted;
    present = omega (arith, g.present, unheard_admitted id s.listening s.clients g.heard e);
    collaborators = g.collaborators ∙ sym (unheard-leave id s.listening s.clients g.heard e).1;
  })
]

step-Gauged : (config : Config) (e : Event) (s : Server) → Gauged s → Gauged (step config e s)
unfolding step reconcile_connected_clients
step-Gauged config (upgraded grant multiplex) s g =
    handle_connection-Gauged config grant multiplex s g
step-Gauged config (timed_out id) s g = handle_timeout-Gauged id s g
step-Gauged config (closed id code) s g = handle_close-Gauged id code s g
step-Gauged config maintained s g = record {
  below = g.below;
  heard = g.heard;
  counted = omega (arith, g.present, admitted-length s.clients);
  present = g.present;
  collaborators = refl;
}

run-Gauged : (config : Config) (es : List Event) (s : Server) → Gauged s → Gauged (run config es s)
unfolding run
run-Gauged config [] s g = g
run-Gauged config (e ∷ es) s g = run-Gauged config es (step config e s) (step-Gauged config e s g)

nothing_open : Gauged new_server
unfolding new_server admitted get_active_collaborator_count
nothing_open = record {
  below = tt;
  heard = tt;
  counted = omega arith;
  present = omega arith;
  collaborators = refl;
}

-- Whatever connects, times out and closes, with maintenance at any time: the gauge of collaborators is the
-- number of different users of the open connections, and the gauge of connections is never below the
-- number of admitted connections that are open, so that no close takes it below 0.
pub run-gauges :
    (config : Config) (es : List Event)
    → let s = run config es new_server in
      (s.active_collaborators ≡ get_active_collaborator_count s.clients)
      × (length s.listening ≤ s.active_connections)
run-gauges config es =
    let g = run-Gauged config es new_server nothing_open in (g.collaborators, g.counted)
