-- ===== src/Server/Start.antt =====
-- websocket-server/index.ts and the environment's part of websocket-server/config.ts: what the process
-- starts with.
pub mod Decimal
mod Examples
use vip_real_time_collaborat.Base.{
  ℕ, ◌*◌, Bool, true, false, Option, none, some, List, [], ◌∷◌, ◌==◌, length, if◌then◌else◌,
}
use vip_real_time_collaborat.Base.Text.{Text, text, or_text}
use vip_real_time_collaborat.Base.Integers.{ℤ, pos, negsuc}
use vip_real_time_collaborat.Base.ParseInt.{parse_int}
use vip_real_time_collaborat.Server.Limits.{Config}

-- The variables of the environment, `none` for one that is not set.
pub record Environment : Type 0 where
  pub vip_rtc_ws_auth_secret : Option Text
  pub vip_rtc_ws_max_connections : Option Text
  pub vip_rtc_ws_buffer_connections : Option Text
  pub vip_rtc_ws_max_collaborators : Option Text
  pub host : Option Text
  pub port : Option Text
  pub connection_timeout : Option Text
  pub metrics_port : Option Text

abbrev pub default_connection_timeout : ℕ
default_connection_timeout = 4 * 60 * 60 * 1000

abbrev pub default_port : ℕ
default_port = 1234

abbrev pub default_host : Text
default_host = text "localhost"

abbrev pub default_max_connections : ℕ
default_max_connections = 1500

abbrev pub default_buffer_connections : ℕ
default_buffer_connections = 50

abbrev pub default_max_collaborators : ℕ
default_max_collaborators = 300

abbrev int_or : ℕ → Option ℤ → ℤ
int_or default_value none = pos default_value
int_or default_value (some n) = n

unfoldable pub parse_int_from_env : Option Text → ℕ → ℤ
unfolding parse_int
parse_int_from_env env_value default_value = int_or default_value (parse_int (or_text env_value []))

-- `parsed || default`: NaN and 0 are falsy.
abbrev truthy_or : ℕ → Option ℤ → ℤ
truthy_or default_value none = pos default_value
truthy_or default_value (some (pos n)) = if n == 0 then pos default_value else pos n
truthy_or default_value (some (negsuc n)) = negsuc n

unfoldable pub config_of : Environment → Config
unfolding parse_int_from_env
config_of env = record {
  max_connections = parse_int_from_env env.vip_rtc_ws_max_connections default_max_connections;
  buffer_connections =
      parse_int_from_env env.vip_rtc_ws_buffer_connections default_buffer_connections;
  max_collaborators = parse_int_from_env env.vip_rtc_ws_max_collaborators default_max_collaborators;
}

-- What the process runs: the arguments of createRtcServer and of `listen`, and the port of the metrics
-- server, if there is one; `none` in it is NaN.
pub record Process : Type 0 where
  pub jwt_secret : Text
  pub connection_timeout : ℤ
  pub config : Config
  pub host : Text
  pub port : ℤ
  pub metrics_port : Option (Option ℤ)

abbrev text_or : Text → Text → Text
text_or default_value t = if length t == 0 then default_value else t

abbrev metrics_port_of : Text → Option (Option ℤ)
metrics_port_of t = if length t == 0 then none else some (parse_int t)

-- `none` is `process.exit( 1 )`.
unfoldable pub start_process : Environment → Option Process
unfolding config_of parse_int
start_process env =
    let jwt_secret = or_text env.vip_rtc_ws_auth_secret [] in
    if length jwt_secret == 0
    then none
    else some (record {
      jwt_secret = jwt_secret;
      connection_timeout =
          truthy_or default_connection_timeout (parse_int (or_text env.connection_timeout []));
      config = config_of env;
      host = text_or default_host (or_text env.host []);
      port = truthy_or default_port (parse_int (or_text env.port []));
      metrics_port = metrics_port_of (or_text env.metrics_port []);
    })
