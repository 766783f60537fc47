-- ===== src/Editor/Modal/Examples.antt =====
-- src/components/collaboration-limit-modal.tsx on concrete runs.
use vip_real_time_collaborat.Base.{◌≡◌, refl, false, true, none, some, List, [], ◌∷◌, if◌then◌else◌}
use vip_real_time_collaborat.Client.ClosePolicy.{physical, collaborator_limit_exceeded}
use vip_real_time_collaborat.Client.Provider.{
  SyncStatus, connecting, connected, disconnected, new_provider, session, fetched, status, closed,
  status_connecting, status_connected,
}
use vip_real_time_collaborat.Client.Provider as Provider
use vip_real_time_collaborat.Editor.Ticket.{submitted}
use vip_real_time_collaborat.Editor.Modal.{
  Event, status_seen, upgrade_clicked, ticket_settled, run, render, success,
  is_sync_connection_error_handled, error_code,
}
use vip_real_time_collaborat.Editor.Modal.History.{statuses, met_limit, telemetry_posts-run}
use vip_real_time_collaborat.Editor.Modal.Refinement.{view, limit_reported, is_some, render-session}

-- The provider is turned away twice at the collaborator limit of the server.
abbrev provided : List Provider.Event
provided =
    fetched false
    ∷ status status_connecting
    ∷ status status_connected
    ∷ closed physical (some 4003)
    ∷ closed physical (some 4003)
    ∷ []

abbrev limited : SyncStatus
limited = disconnected collaborator_limit_exceeded none

-- Newest first: a ticket is asked for between the two.
abbrev seen : List Event
seen =
    status_seen limited
    ∷ ticket_settled submitted
    ∷ upgrade_clicked
    ∷ status_seen limited
    ∷ status_seen connected
    ∷ status_seen connecting
    ∷ []

seen_emitted : statuses seen ≡ (session 2 7 provided).emitted
unfolding Provider.run Provider.connect new_provider
seen_emitted = refl

seen_runs : ((run seen).upgrade_state ≡ success) × ((run seen).telemetry_posts ≡ 1)
unfolding run
seen_runs = (refl, refl)

render-session_example :
    let m = run seen in
    let reported = limit_reported (session 2 7 provided).emitted in
    (render true m ≡ view true reported m.upgrade_state)
    × (is_sync_connection_error_handled false (error_code m.connection_status) ≡ is_some reported)
render-session_example = render-session 2 7 provided seen true seen_emitted

telemetry_posts-run_example :
    (run seen).telemetry_posts ≡ (if met_limit (statuses seen) then 1 else 0)
telemetry_posts-run_example = telemetry_posts-run seen

-- A ticket that settles after the connection is back: the next limit opens on `Request sent`.
stale_ticket :
    (run (
      status_seen limited
      ∷ ticket_settled submitted
      ∷ status_seen connected
      ∷ upgrade_clicked
      ∷ status_seen limited
      ∷ [])).upgrade_state
    ≡ success
unfolding run
stale_ticket = refl
