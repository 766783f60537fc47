-- ===== src/Server/Examples.antt =====
-- websocket-server/server.ts and connection-limits.ts on concrete requests and connections.
use vip_real_time_collaborat.Base.{
  ◌≤◌, ◌≡◌, refl, ◌↔◌, true, false, Option, none, some, List, [], ◌∷◌, length,
}
use vip_real_time_collaborat.Base.Text.{Text, text}
use vip_real_time_collaborat.Base.Integers.{pos}
use vip_real_time_collaborat.Packages.{string, number, undefined, claims, Jwt}
use vip_real_time_collaborat.Auth.{SyncTokenPayload, authenticated, is_request_authenticated}
use vip_real_time_collaborat.Server.Limits.{Config, get_active_collaborator_count}
use vip_real_time_collaborat.Server.{
  Server, new_server, Event, upgraded, timed_out, closed, maintained, run,
}
use vip_real_time_collaborat.Server.Upgrade.{absent, single, Request, handle_upgrade, upgrade}
use vip_real_time_collaborat.Server.Upgrade.Routes.{HasRoute, upgrade_iff}
use vip_real_time_collaborat.Server.Capacity.{run_collaborators_bounded}
use vip_real_time_collaborat.Server.Gauges.{run-gauges}
use vip_real_time_collaborat.Server.Timeouts.{IsTimed, run-IsTimed}

abbrev jwt : Jwt
jwt = record {
  verify = λ t s ignore. claims record {
    blog_id = number 1;
    user_id = number 5;
    username = string (text "ann");
    room_name = string (text "r");
    wp_client_id = string (text "tab");
    connection_id = undefined;
  };
}

abbrev grant : SyncTokenPayload
grant = record {
  blog_id = 1;
  connection_id = none;
  room_name = text "r";
  user_id = 5;
  username = text "ann";
  wp_client_id = some (text "tab");
}

abbrev search_get : Text → Option Text
search_get query = some (text "t")

abbrev legacy : Request
legacy = record { url = some (text "/_ws/r/?auth=t"); sec_websocket_protocol = absent }

abbrev multiplexed : Request
multiplexed = record {
  url = some (text "/_ws/vip-rtc?auth=t");
  sec_websocket_protocol = single (text "a, vip-rtc-multiplex-v1");
}

abbrev config : Config
config = record { max_connections = pos 2; buffer_connections = pos 1; max_collaborators = pos 1 }

abbrev events : List Event
events = upgraded grant true ∷ upgraded grant false ∷ timed_out 0 ∷ closed 1 1000 ∷ []

requests :
    (upgrade jwt search_get (text "s") legacy ≡ handle_upgrade grant)
    × (upgrade jwt search_get (text "s") multiplexed ≡ handle_upgrade grant)
unfolding upgrade
requests = (refl, refl)

second_socket :
    (run config (upgraded grant true ∷ upgraded grant false ∷ []) new_server).close_calls ≡ []
unfolding run new_server
second_socket = refl

upgrade_iff_example : (upgrade jwt search_get (text "s") multiplexed ≡ handle_upgrade grant) ↔ (
    (is_request_authenticated jwt search_get multiplexed.url (text "s") ≡ authenticated grant)
    × HasRoute multiplexed grant)
upgrade_iff_example = upgrade_iff jwt search_get (text "s") multiplexed grant

run_collaborators_bounded_example :
    get_active_collaborator_count (run config events new_server).clients ≤ 1
run_collaborators_bounded_example = run_collaborators_bounded config 1 events refl

run-IsTimed_example : IsTimed (run config events new_server) 0
unfolding run new_server
run-IsTimed_example = run-IsTimed config events 0 refl

run-gauges_example :
    let s = run config events new_server in
    (s.active_collaborators ≡ get_active_collaborator_count s.clients)
    × (length s.listening ≤ s.active_connections)
run-gauges_example = run-gauges config events

-- One socket is admitted and one of another user turned away, maintenance runs, and the second leaves.
abbrev drifted : Server
drifted =
    run config
      (upgraded grant true
        ∷ upgraded (record grant { user_id = 6 }) true
        ∷ maintained
        ∷ closed 1 4003
        ∷ [])
      new_server

-- The gauge of connections still counts the socket that is gone.
drifts : (drifted.active_connections ≡ 2) × (length drifted.clients ≡ 1)
unfolding run new_server
drifts = (refl, refl)
