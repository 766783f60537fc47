-- ===== src/Server.antt =====
-- websocket-server/server.ts: the connections of the server.
pub mod Limits
pub mod Upgrade
pub mod Capacity
pub mod Timeouts
pub mod Gauges
pub mod Requests
pub mod Metrics
pub mod Start
mod Examples
use vip_real_time_collaborat.Base.{
  ℕ, suc, ◌+◌, ◌-◌, Bool, true, false, not, ◌&&◌, ◌||◌, Option, none, some, List, [], ◌∷◌, ◌++◌,
  ◌==◌, ltb, leb, length, if◌then◌else◌,
}
use vip_real_time_collaborat.Base.Text.{Text, text, ◌===◌}
use vip_real_time_collaborat.Base.Maps.{contains}
use vip_real_time_collaborat.Packages.{Jwt}
use vip_real_time_collaborat.Auth.{
  SyncTokenPayload, AuthResult, authenticated, missing_token, invalid_token,
  is_request_authenticated, get_request_pathname, validate_legacy_room_path,
}
use vip_real_time_collaborat.Server.Limits.{
  WebSocketWithIdentity, Config, should_allow_collaborator, should_allow_connection,
  get_active_connection_count, get_active_client_count, get_active_collaborator_count,
}
use vip_real_time_collaborat.Server.Limits.Counts.{leave}
use vip_real_time_collaborat.Server.Upgrade.{
  Failure, collaborator_limit_exceeded, connection_limit_exceeded,
}

-- `clients` is wss.clients; sockets are named by numbers. `close_calls` are the calls of `close` with
-- their codes, `sessions` the sockets given to a MultiplexSession, `documents` those given to
-- setupWSConnection with their docName, `listening` those with the server's close listener, and
-- `timeouts` the pending timers. The rest are metrics, gauges the last three; lists have the newest first.
-- `-` stops at 0: the gauge of connections is above 0 wherever it goes down.
pub record Server : Type 0 where
  pub clients : List WebSocketWithIdentity
  pub next_id : ℕ
  pub close_calls : List (ℕ × ℕ)
  pub sessions : List ℕ
  pub documents : List (ℕ × Text)
  pub listening : List ℕ
  pub timeouts : List ℕ
  pub failures : List Failure
  pub connection_opens : ℕ
  pub connection_closes : List ℕ
  pub active_connections : ℕ
  pub active_clients : ℕ
  pub active_collaborators : ℕ

unfoldable pub new_server : Server
new_server = record {
  clients = [];
  next_id = 0;
  close_calls = [];
  sessions = [];
  documents = [];
  listening = [];
  timeouts = [];
  failures = [];
  connection_opens = 0;
  connection_closes = [];
  active_connections = 0;
  active_clients = 0;
  active_collaborators = 0;
}

abbrev pub is_listed : ℕ → List ℕ → Bool
is_listed id [] = false
is_listed id (i ∷ ids) = i == id || is_listed id ids

unfoldable pub unlist : ℕ → List ℕ → List ℕ
unlist id [] = []
unlist id (i ∷ ids) = let rest = unlist id ids in if i == id then rest else i ∷ rest

abbrev pub nullish : Option Text → Option Text → Option Text
nullish none other = other
nullish (some t) other = some t

abbrev pub client_of : SyncTokenPayload → Option Text
client_of grant = nullish grant.wp_client_id grant.connection_id

unfoldable pub close_socket : ℕ → ℕ → Server → Server
close_socket id code s = record s { close_calls = (id, code) ∷ s.close_calls }

unfoldable pub turn_away : Failure → ℕ → ℕ → Server → Server
unfolding close_socket
turn_away failure id code s = close_socket id code (record s { failures = failure ∷ s.failures })

-- ws.wpClientId and ws.userId are set, the session or document is set up, the opening is recorded and
-- the timer and the close listener are installed. `rest` are the other members of wss.clients.
unfoldable pub admit_socket :
    ℕ → SyncTokenPayload → Bool → List WebSocketWithIdentity → Server → Server
unfolding get_active_client_count get_active_collaborator_count
admit_socket id grant is_multiplex rest s =
    let clients =
      record { id = id; wp_client_id = client_of grant; user_id = some grant.user_id } ∷ rest in
    record s {
      clients = clients;
      sessions = if is_multiplex then id ∷ s.sessions else s.sessions;
      documents = if is_multiplex then s.documents else (id, grant.room_name) ∷ s.documents;
      connection_opens = s.connection_opens + 1;
      active_connections = s.active_connections + 1;
      active_clients = get_active_client_count clients;
      active_collaborators = get_active_collaborator_count clients;
      timeouts = id ∷ s.timeouts;
      listening = id ∷ s.listening;
    }

-- The callback of handleUpgrade. The ws package has added the socket to wss.clients by then, without
-- an identity; `is_multiplex` is whether it agreed on the subprotocol.
unfoldable pub handle_connection : Config → SyncTokenPayload → Bool → Server → Server
unfolding turn_away admit_socket should_allow_collaborator should_allow_connection
handle_connection config grant is_multiplex s =
    let id = s.next_id in
    let clients = record { id = id; wp_client_id = none; user_id = none } ∷ s.clients in
    let joined : Server = record s { clients = clients; next_id = suc id } in
    if not (should_allow_collaborator config clients (some grant.user_id))
    then turn_away collaborator_limit_exceeded id 4003 joined
    else if not (should_allow_connection config clients (client_of grant))
    then turn_away connection_limit_exceeded id 4002 joined
    else admit_socket id grant is_multiplex s.clients joined

-- The timer of a connection.
unfoldable pub handle_timeout : ℕ → Server → Server
unfolding unlist close_socket
handle_timeout id s =
    if is_listed id s.timeouts
    then close_socket id 4001 (record s { timeouts = unlist id s.timeouts })
    else s

-- A socket is closed: the ws package takes it out of wss.clients, then the listener runs.
unfoldable pub handle_close : ℕ → ℕ → Server → Server
unfolding unlist leave get_active_client_count get_active_collaborator_count
handle_close id code s =
    let clients = leave id s.clients in
    if is_listed id s.listening
    then record s {
      clients = clients;
      listening = unlist id s.listening;
      timeouts = unlist id s.timeouts;
      connection_closes = code ∷ s.connection_closes;
      active_connections = s.active_connections - 1;
      active_clients = get_active_client_count clients;
      active_collaborators = get_active_collaborator_count clients;
    }
    else record s { clients = clients }

-- reconcileConnectedClients, from the maintenance loop of the metrics.
unfoldable pub reconcile_connected_clients : Server → Server
unfolding get_active_client_count get_active_collaborator_count
reconcile_connected_clients s = record s {
  active_connections = get_active_connection_count s.clients;
  active_clients = get_active_client_count s.clients;
  active_collaborators = get_active_collaborator_count s.clients;
}

-- What happens at the server, in order.
pub data Event : Type 0 where
  upgraded : SyncTokenPayload → Bool → Event
  timed_out : ℕ → Event
  closed : ℕ → ℕ → Event
  maintained : Event

unfoldable pub step : Config → Event → Server → Server
unfolding handle_connection handle_timeout handle_close reconcile_connected_clients
step config (upgraded grant is_multiplex) s = handle_connection config grant is_multiplex s
step config (timed_out id) s = handle_timeout id s
step config (closed id code) s = handle_close id code s
step config maintained s = reconcile_connected_clients s

unfoldable pub run : Config → List Event → Server → Server
unfolding step
run config [] s = s
run config (e ∷ es) s = run config es (step config e s)
