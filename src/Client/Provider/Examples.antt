-- ===== src/Client/Provider/Examples.antt =====
-- src/websocket-client.ts on concrete runs.
use vip_real_time_collaborat.Base.{
  ℕ, suc, ◌≡◌, refl, inl, inr, true, false, some, List, [], ◌∷◌, All,
}
use vip_real_time_collaborat.Client.ClosePolicy.{physical, unknown_error}
use vip_real_time_collaborat.Client.RoomLimit.{AwarenessState, info}
use vip_real_time_collaborat.Client.Provider.{
  Provider, new_provider, Event, waited, fetched, closed, status, sync, settled, destroyed,
  reconnect_requested, disconnected, get_retry_status_fields, status_connecting, status_connected,
  connect, run, session, handle_connection_close,
}
use vip_real_time_collaborat.Client.Provider.Retries.{HasStopped, run_final_close, run_destroyed}
use vip_real_time_collaborat.Client.Provider.Statuses.{InRange, is_error, IsCalm, IsHonest}
use vip_real_time_collaborat.Client.Provider.Reports.{
  session_statuses-IsCalm, session_delays-InRange, handle_connection_close_announced,
}

-- A socket that is opened, closed and opened again.
abbrev events : List Event
events =
    fetched false
    ∷ status status_connecting
    ∷ status status_connected
    ∷ closed physical (some 1006)
    ∷ waited
    ∷ fetched false
    ∷ status status_connecting
    ∷ sync true
    ∷ []

abbrev opened : Provider
opened = session 2 7 (fetched false ∷ status status_connecting ∷ status status_connected ∷ [])

-- The room has two earlier connections under a limit of two.
abbrev crowded : List (ℕ × AwarenessState)
crowded = (7, info (some 30)) ∷ (4, info (some 10)) ∷ (9, info (some 20)) ∷ []

counts :
    ((session 2 7 events).connects ≡ 2)
    × (((session 2 7 events).requested ≡ 2000 ∷ [])
        × ((session 2 7
              (fetched false ∷ status status_connected ∷ settled true crowded ∷ [])).disconnects
            ≡ 1))
unfolding run connect new_provider
counts = (refl, (refl, refl))

run_final_close_example : HasStopped opened.connects (
    run 2 7
      (closed physical (some 1008) ∷ waited ∷ fetched false ∷ reconnect_requested ∷ [])
      opened)
unfolding run connect new_provider
run_final_close_example =
    run_final_close 2 7 physical (some 1008) opened
      (waited ∷ fetched false ∷ reconnect_requested ∷ []) refl (inr (inr (inl refl)))

run_destroyed_example :
    HasStopped opened.connects (run 2 7 (destroyed ∷ waited ∷ fetched false ∷ []) opened)
unfolding run connect new_provider
run_destroyed_example = run_destroyed 2 7 opened (waited ∷ fetched false ∷ []) refl

session_statuses-IsCalm_example :
    let s = session 2 7 events in
    (s.has_connection_error ≡ is_error s.emitted) × (IsCalm s.emitted × All IsHonest s.emitted)
session_statuses-IsCalm_example = session_statuses-IsCalm 2 7 events

session_delays-InRange_example : All InRange (session 2 7 events).requested
session_delays-InRange_example = session_delays-InRange 2 7 events

handle_connection_close_announced_example :
    let next = handle_connection_close physical (some 1006) opened in
    let fields = get_retry_status_fields opened in
    (next.emitted ≡ disconnected unknown_error (some fields) ∷ opened.emitted)
    × ((next.requested ≡ fields.will_auto_retry_in_ms ∷ opened.requested)
        × (next.waits ≡ suc opened.waits))
unfolding run connect new_provider
handle_connection_close_announced_example =
    handle_connection_close_announced physical (some 1006) opened refl refl refl
