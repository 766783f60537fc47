-- ===== src/Server/Requests/Examples.antt =====
-- websocket-server/server.ts on concrete requests.
use vip_real_time_collaborat.Base.{◌≡◌, refl, true, Option, some, List, [], ◌∷◌, All}
use vip_real_time_collaborat.Base.Text.{Text, text}
use vip_real_time_collaborat.Base.Integers.{pos}
use vip_real_time_collaborat.Packages.{string, number, undefined, claims, Jwt}
use vip_real_time_collaborat.Server.Limits.{Config}
use vip_real_time_collaborat.Server.Upgrade.{absent, single, Request, unauthorized, bad_request}
use vip_real_time_collaborat.Server.{new_server}
use vip_real_time_collaborat.Server.Requests.{
  ok_200, not_found_404, RtcServer, Arrival, http_requested, upgrade_requested, serve_all,
}
use vip_real_time_collaborat.Server.Requests.Vouched.{IsKnown, IsGranted}
use vip_real_time_collaborat.Server.Requests.Served.{serve_all-IsVouched}

abbrev jwt : Jwt
jwt = record {
  verify = λ t s ignore. claims record {
    blog_id = number 1;
    user_id = number 5;
    username = string (text "ann");
    room_name = string (text "r");
    wp_client_id = string (text "tab");
    connection_id = undefined;
  };
}

abbrev search_get : Text → Option Text
search_get query = some (text "t")

abbrev config : Config
config = record { max_connections = pos 2; buffer_connections = pos 1; max_collaborators = pos 1 }

abbrev legacy : Request
legacy = record { url = some (text "/_ws/r/?auth=t"); sec_websocket_protocol = absent }

abbrev elsewhere : Request
elsewhere = record { url = some (text "/_ws/q/?auth=t"); sec_websocket_protocol = absent }

abbrev chatty : Request
chatty = record { url = some (text "/_ws/r"); sec_websocket_protocol = single (text "chat") }

-- Newest first.
abbrev arrivals : List Arrival
arrivals =
    upgrade_requested legacy true
    ∷ upgrade_requested elsewhere true
    ∷ upgrade_requested chatty true
    ∷ http_requested (some (text "/ready/"))
    ∷ http_requested (some (text "/metrics"))
    ∷ []

abbrev served : RtcServer
served = serve_all jwt search_get (text "s") config arrivals

served_runs :
    (served.responses ≡ ok_200 ∷ not_found_404 ∷ [])
    × ((served.rejections ≡ unauthorized ∷ bad_request ∷ [])
        × (served.server.documents ≡ (0, text "r") ∷ []))
unfolding serve_all new_server
served_runs = (refl, (refl, refl))

serve_all-IsVouched_example :
    All (IsKnown jwt search_get (text "s") arrivals) served.server.clients
    × All (IsGranted jwt search_get (text "s") arrivals) served.server.documents
serve_all-IsVouched_example = serve_all-IsVouched jwt search_get (text "s") config arrivals
