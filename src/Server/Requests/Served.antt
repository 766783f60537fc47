-- ===== src/Server/Requests/Served.antt =====
-- websocket-server/server.ts: over a whole run, every open connection and every document served has been
-- vouched for by a token.
use vip_real_time_collaborat.Base.{
  ◌≡◌, refl, ◌⊎◌, inl, inr, Bool, true, false, Option, List, [], ◌∷◌, All, Bool-cases,
}
use vip_real_time_collaborat.Base.Text.{Text}
use vip_real_time_collaborat.Packages.{Jwt}
use vip_real_time_collaborat.Auth.{SyncTokenPayload}
use vip_real_time_collaborat.Server.Limits.{Config}
use vip_real_time_collaborat.Server.Upgrade.{
  Request, Decision, reject, handle_upgrade, HttpStatus, Failure, upgrade,
}
use vip_real_time_collaborat.Server.{
  Server, new_server, handle_timeout, handle_close, is_listed, reconcile_connected_clients,
  close_socket,
}
use vip_real_time_collaborat.Server.Requests.{
  RtcServer, new_rtc_server, act_on, Arrival, http_requested, upgrade_requested, timer_fired,
  socket_closed, maintenance, serve, serve_all,
}
use vip_real_time_collaborat.Server.Requests.Vouched.{
  IsKnown, IsGranted, IsVouched, IsVouched-later, IsKnown-leave, upgrade-Vouches,
  handle_connection-IsVouched,
}

Decision-cases :
    (d : Decision)
    → ((status : HttpStatus) × ((failure : Failure) × (d ≡ reject status failure)))
      ⊎ ((grant : SyncTokenPayload) × (d ≡ handle_upgrade grant))
Decision-cases (reject status failure) = inl (status, (failure, refl))
Decision-cases (handle_upgrade grant) = inr (grant, refl)

module _ (j : Jwt) (search_get : Text → Option Text) (secret : Text) (config : Config) where
  -- A step that changes neither the sockets nor the documents.
  same-IsVouched :
      (arrivals : List Arrival) (s t : Server)
      → IsVouched j search_get secret arrivals s
      → t.clients ≡ s.clients
      → t.documents ≡ s.documents
      → IsVouched j search_get secret arrivals t
  same-IsVouched arrivals s t v c d = record {
    clients = rw c v.clients;
    documents = rw d v.documents;
  }

  act_on-IsVouched :
      (request : Request) (completes : Bool) (arrivals : List Arrival) (s : RtcServer)
      → IsVouched j search_get secret (upgrade_requested request completes ∷ arrivals) s.server
      → IsVouched j search_get secret
          (upgrade_requested request completes ∷ arrivals)
          (act_on config request completes (upgrade j search_get secret request) s).server
  act_on-IsVouched request true arrivals s v =
      elim (Decision-cases (upgrade j search_get secret request)) [
        | inl (status, (failure, e)) ↦ rw e (
            same-IsVouched _ s.server (record s.server { failures = failure ∷ s.server.failures }) v
              refl refl)
        | inr (grant, e) ↦ rw e (
            handle_connection-IsVouched j search_get secret config request true grant _ arrivals
              s.server (upgrade-Vouches j search_get secret request grant e) v)
      ]
  act_on-IsVouched request false arrivals s v =
      elim (Decision-cases (upgrade j search_get secret request)) [
        | inl (status, (failure, e)) ↦ rw e (
            same-IsVouched _ s.server (record s.server { failures = failure ∷ s.server.failures }) v
              refl refl)
        | inr (grant, e) ↦ rw e v
      ]

  serve-IsVouched :
      (a : Arrival) (arrivals : List Arrival) (s : RtcServer)
      → IsVouched j search_get secret arrivals s.server
      → IsVouched j search_get secret (a ∷ arrivals) (serve j search_get secret config a s).server
  unfolding serve handle_timeout handle_close close_socket reconcile_connected_clients
  serve-IsVouched (http_requested url) arrivals s v =
      IsVouched-later j search_get secret (http_requested url) arrivals s.server v
  serve-IsVouched (upgrade_requested request completes) arrivals s v =
      act_on-IsVouched request completes arrivals s (
        IsVouched-later j search_get secret (upgrade_requested request completes) arrivals s.server
          v)
  serve-IsVouched (timer_fired id) arrivals s v =
      let w = IsVouched-later j search_get secret (timer_fired id) arrivals s.server v in
      elim (Bool-cases (is_listed id s.server.timeouts)) [
        | inl e ↦ rw e (same-IsVouched _ s.server _ w refl refl)
        | inr e ↦ rw e w
      ]
  serve-IsVouched (socket_closed id code) arrivals s v =
      let w = IsVouched-later j search_get secret (socket_closed id code) arrivals s.server v in
      let left =
        IsKnown-leave j search_get secret (socket_closed id code ∷ arrivals) id s.server.clients
          w.clients in
      elim (Bool-cases (is_listed id s.server.listening)) [
        | inl e ↦ rw e (record { clients = left; documents = w.documents })
        | inr e ↦ rw e (record { clients = left; documents = w.documents })
      ]
  serve-IsVouched maintenance arrivals s v =
      let w = IsVouched-later j search_get secret maintenance arrivals s.server v in
      record { clients = w.clients; documents = w.documents }

  run-IsVouched :
      (arrivals : List Arrival)
      → IsVouched j search_get secret arrivals
          (serve_all j search_get secret config arrivals).server
  unfolding serve_all new_rtc_server new_server
  run-IsVouched [] = record { clients = tt; documents = tt }
  run-IsVouched (a ∷ arrivals) =
      serve-IsVouched a arrivals (serve_all j search_get secret config arrivals)
        (run-IsVouched arrivals)

  -- Whatever requests arrive, with timers, closes and maintenance in any order: every open connection with
  -- an identity has the user and the client of a grant, and every document is served under the room of a
  -- grant, where the grant comes from a request that arrived with a route for it and with a token that is
  -- not empty, verifies under the secret and has not expired.
  pub serve_all-IsVouched :
      (arrivals : List Arrival)
      → let s = (serve_all j search_get secret config arrivals).server in
        All (IsKnown j search_get secret arrivals) s.clients
        × All (IsGranted j search_get secret arrivals) s.documents
  serve_all-IsVouched arrivals = let v = run-IsVouched arrivals in (v.clients, v.documents)
