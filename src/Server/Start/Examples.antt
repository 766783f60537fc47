-- ===== src/Server/Start/Examples.antt =====
-- websocket-server/index.ts on a concrete environment.
use vip_real_time_collaborat.Base.{◌≡◌, ◌≤◌, refl, true, none, some, List, [], ◌∷◌}
use vip_real_time_collaborat.Base.Text.{text}
use vip_real_time_collaborat.Base.Integers.{pos, negsuc}
use vip_real_time_collaborat.Auth.{SyncTokenPayload}
use vip_real_time_collaborat.Server.{Event, upgraded, timed_out, run, new_server}
use vip_real_time_collaborat.Server.Limits.{get_active_collaborator_count}
use vip_real_time_collaborat.Server.Limits.Counts.{admitted}
use vip_real_time_collaborat.Server.Start.{Environment, Process, start_process, parse_int_from_env}
use vip_real_time_collaborat.Server.Start.Decimal.{digits, decimal, start_process_bounded}

abbrev environment : Environment
environment = record {
  vip_rtc_ws_auth_secret = some (text "s");
  vip_rtc_ws_max_connections = none;
  vip_rtc_ws_buffer_connections = some (text "a few");
  vip_rtc_ws_max_collaborators = some (text "2");
  host = some (text "");
  port = some (text "0");
  connection_timeout = none;
  metrics_port = some (text "9100");
}

abbrev process : Process
process = record {
  jwt_secret = text "s";
  connection_timeout = pos 14400000;
  config = record {
    max_connections = pos 1500;
    buffer_connections = pos 50;
    max_collaborators = pos 2;
  };
  host = text "localhost";
  port = pos 1234;
  metrics_port = some (some (pos 9100));
}

-- An unreadable limit and a port of 0 give the defaults.
started : start_process environment ≡ some process
unfolding start_process
started = refl

exits : start_process (record environment { vip_rtc_ws_auth_secret = none }) ≡ none
unfolding start_process
exits = refl

-- A limit of -1 stays -1.
minus_one : parse_int_from_env (some (text "-1")) 300 ≡ negsuc 0
unfolding parse_int_from_env
minus_one = refl

abbrev grant : SyncTokenPayload
grant = record {
  blog_id = 1;
  user_id = 5;
  username = text "ed";
  room_name = text "a";
  wp_client_id = some (text "tab");
  connection_id = none;
}

abbrev events : List Event
events = upgraded grant true ∷ timed_out 0 ∷ []

start_process_bounded_example :
    let clients = (run process.config events new_server).clients in
    (admitted clients ≤ 1500) × (get_active_collaborator_count clients ≤ 2)
unfolding decimal digits start_process
start_process_bounded_example =
    start_process_bounded environment process none (some 2) events refl refl refl
