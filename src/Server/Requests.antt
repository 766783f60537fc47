-- ===== src/Server/Requests.antt =====
-- websocket-server/server.ts: createRtcServer as a whole, from the HTTP request to the open connection.
pub mod Vouched
pub mod Served
mod Examples
use vip_real_time_collaborat.Base.{
  ℕ, Bool, true, false, ◌||◌, Option, none, some, List, [], ◌∷◌, if◌then◌else◌,
}
use vip_real_time_collaborat.Base.Text.{Text, text, ◌===◌}
use vip_real_time_collaborat.Base.Maps.{contains}
use vip_real_time_collaborat.Packages.{Jwt}
use vip_real_time_collaborat.Auth.{get_request_pathname}
use vip_real_time_collaborat.Server.Limits.{Config}
use vip_real_time_collaborat.Server.Upgrade.{
  Decision, reject, handle_upgrade, HttpStatus, Failure, Request, multiplex_subprotocol,
  requested_protocols, upgrade,
}
use vip_real_time_collaborat.Server.{
  Server, new_server, handle_connection, handle_timeout, handle_close, reconcile_connected_clients,
}

-- The answer to a request that asks for no upgrade.
pub data HttpResponse : Type 0 where
  ok_200 not_found_404 : HttpResponse

unfoldable pub respond : Option Text → HttpResponse
unfolding get_request_pathname contains
respond url =
    if contains (get_request_pathname url)
      (text "/cache-healthcheck" ∷ text "/health" ∷ text "/ready" ∷ [])
    then ok_200
    else not_found_404

-- The server with the answers it has written, newest first.
pub record RtcServer : Type 0 where
  pub server : Server
  pub responses : List HttpResponse
  pub rejections : List HttpStatus

unfoldable pub new_rtc_server : RtcServer
unfolding new_server
new_rtc_server = record { server = new_server; responses = []; rejections = [] }

-- recordConnectionFailure and rejectHttpUpgrade.
abbrev reject_http_upgrade : HttpStatus → Failure → RtcServer → RtcServer
reject_http_upgrade status failure s = record s {
  server = record s.server { failures = failure ∷ s.server.failures };
  rejections = status ∷ s.rejections;
}

-- `handleProtocols` accepts the subprotocol where it is asked for.
abbrev agrees_on_multiplex : Request → Bool
agrees_on_multiplex request =
    contains multiplex_subprotocol (requested_protocols request.sec_websocket_protocol)

-- What the listener of `upgrade` makes of its decision. `completes` is whether the ws package finishes the
-- handshake and calls back.
abbrev pub act_on : Config → Request → Bool → Decision → RtcServer → RtcServer
act_on config request completes (reject status failure) s = reject_http_upgrade status failure s
act_on config request true (handle_upgrade grant) s = record s {
  server = handle_connection config grant (agrees_on_multiplex request) s.server;
}
act_on config request false (handle_upgrade grant) s = s

pub data Arrival : Type 0 where
  http_requested : Option Text → Arrival
  upgrade_requested : Request → Bool → Arrival
  timer_fired : ℕ → Arrival
  socket_closed : ℕ → ℕ → Arrival
  maintenance : Arrival

module _ (j : Jwt) (search_get : Text → Option Text) (secret : Text) (config : Config) where
  unfoldable pub serve : Arrival → RtcServer → RtcServer
  unfolding respond upgrade handle_connection handle_timeout handle_close
      reconcile_connected_clients
  serve (http_requested url) s = record s { responses = respond url ∷ s.responses }
  serve (upgrade_requested request completes) s =
      act_on config request completes (upgrade j search_get secret request) s
  serve (timer_fired id) s = record s { server = handle_timeout id s.server }
  serve (socket_closed id code) s = record s { server = handle_close id code s.server }
  serve maintenance s = record s { server = reconcile_connected_clients s.server }

  -- The arrivals, newest first.
  unfoldable pub serve_all : List Arrival → RtcServer
  unfolding serve new_rtc_server
  serve_all [] = new_rtc_server
  serve_all (a ∷ arrivals) = serve a (serve_all arrivals)
