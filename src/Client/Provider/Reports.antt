-- ===== src/Client/Provider/Reports.antt =====
-- src/websocket-client.ts: what the provider reports over a whole run.
use vip_real_time_collaborat.Base.{
  ℕ, zero, suc, ◌≡◌, refl, sym, ◌∙◌, inl, inr, Bool, true, false, Option, some, List, [], ◌∷◌,
  arith, All, if◌then◌else◌,
}
use vip_real_time_collaborat.Client.ClosePolicy.{WebSocketCloseScope, get_web_socket_close_policy}
use vip_real_time_collaborat.Client.ClosePolicy.Laws.{include_retry_metadata-modal}
use vip_real_time_collaborat.Client.Provider.{
  Provider, new_provider, Event, waited, fetch_failed, fetched, closed, status, sync, stable,
  awareness_changed, disconnected, get_retry_status_fields, settled, destroyed, reconnect_requested,
  status_connecting, status_connected, status_disconnected, emit, connect, resume_wait,
  resume_failure, resume_token, report_close, handle_connection_close, reset_attempts,
  schedule_evaluate, evaluate, listen, step, run, session,
}
use vip_real_time_collaborat.Client.RoomLimit.{AwarenessState, is_limit_enforced}
use vip_real_time_collaborat.Client.Provider.Statuses.{
  InRange, is_error, IsCalm, IsHonest, IsFair, either-IsFair, connect-IsFair, resume_failure-IsFair,
  handle_connection_close-IsFair, handle_status-IsFair, handle_sync-IsFair, dispose_provider-IsFair,
  resume_token-IsFair, resume_wait-IsFair,
}

waited-IsFair :
    (w : ℕ) (s : Provider)
    → IsFair s
    → IsFair (elim w [ zero ↦ s | suc m ↦ resume_wait (record s { waits = m }) ])
waited-IsFair zero s f = f
waited-IsFair (suc m) s f = resume_wait-IsFair (record s { waits = m }) f

failed-IsFair :
    (w : ℕ) (st : Option ℕ) (s : Provider)
    → IsFair s
    → IsFair (elim w [ zero ↦ s | suc m ↦ resume_failure st (record s { fetches = m }) ])
failed-IsFair zero st s f = f
failed-IsFair (suc m) st s f = resume_failure-IsFair st (record s { fetches = m }) f

fetched-IsFair :
    (w : ℕ) (throws : Bool) (s : Provider)
    → IsFair s
    → IsFair (elim w [ zero ↦ s | suc m ↦ resume_token throws (record s { fetches = m }) ])
fetched-IsFair zero throws s f = f
fetched-IsFair (suc m) throws s f = resume_token-IsFair throws (record s { fetches = m }) f

fresh-IsFair : IsFair new_provider
unfolding new_provider
fresh-IsFair = (refl, (tt, (tt, tt)))

module _ (limit client_id : ℕ) where
  schedule_evaluate-IsFair :
      (s : Provider) → IsFair s → IsFair (schedule_evaluate limit client_id s)
  unfolding schedule_evaluate
  schedule_evaluate-IsFair s f =
      either-IsFair (is_limit_enforced limit) (record s { settle_timer = true }) s f f

  evaluate-IsFair :
      (wsconnected : Bool) (states : List (ℕ × AwarenessState)) (s : Provider)
      → IsFair s
      → IsFair (evaluate limit client_id wsconnected states s)
  unfolding evaluate
  evaluate-IsFair true states s f = f
  evaluate-IsFair false states s f = f

  listen-IsFair : (e : Event) (s : Provider) → IsFair s → IsFair (listen limit client_id e s)
  unfolding listen reset_attempts
  listen-IsFair (closed scope code) s f = handle_connection_close-IsFair scope code s f
  listen-IsFair (status status_connected) s f =
      handle_status-IsFair status_connected (schedule_evaluate limit client_id s)
        (schedule_evaluate-IsFair s f)
  listen-IsFair (status status_connecting) s f = handle_status-IsFair status_connecting s f
  listen-IsFair (status status_disconnected) s f = handle_status-IsFair status_disconnected s f
  listen-IsFair (sync synced) s f = handle_sync-IsFair synced s f
  listen-IsFair stable s f = either-IsFair s.reset_timer (reset_attempts s) s f f
  listen-IsFair awareness_changed s f = schedule_evaluate-IsFair s f
  listen-IsFair (settled wsconnected states) s f =
      either-IsFair s.settle_timer (evaluate limit client_id wsconnected states s) s
        (evaluate-IsFair wsconnected states s f) f
  listen-IsFair waited s f = f
  listen-IsFair (fetch_failed st) s f = f
  listen-IsFair (fetched throws) s f = f
  listen-IsFair destroyed s f = f
  listen-IsFair reconnect_requested s f = f

  heard-IsFair :
      (e : Event) (s : Provider)
      → IsFair s
      → IsFair (if s.disposed then s else listen limit client_id e s)
  heard-IsFair e s f =
      either-IsFair s.disposed s (listen limit client_id e s) f (listen-IsFair e s f)

  step-IsFair : (e : Event) (s : Provider) → IsFair s → IsFair (step limit client_id e s)
  unfolding step
  step-IsFair waited s f = waited-IsFair s.waits s f
  step-IsFair (fetch_failed st) s f = failed-IsFair s.fetches st s f
  step-IsFair (fetched throws) s f = fetched-IsFair s.fetches throws s f
  step-IsFair destroyed s f = dispose_provider-IsFair s f
  step-IsFair reconnect_requested s f = connect-IsFair s f
  step-IsFair (closed scope code) s f = heard-IsFair (closed scope code) s f
  step-IsFair (status st) s f = heard-IsFair (status st) s f
  step-IsFair (sync synced) s f = heard-IsFair (sync synced) s f
  step-IsFair stable s f = heard-IsFair stable s f
  step-IsFair awareness_changed s f = heard-IsFair awareness_changed s f
  step-IsFair (settled wsconnected states) s f = heard-IsFair (settled wsconnected states) s f

  run-IsFair : (es : List Event) (s : Provider) → IsFair s → IsFair (run limit client_id es s)
  unfolding run
  run-IsFair [] s f = f
  run-IsFair (e ∷ es) s f = run-IsFair es (step limit client_id e s) (step-IsFair e s f)

  session-IsFair : (es : List Event) → IsFair (session limit client_id es)
  session-IsFair es =
      run-IsFair es (connect new_provider) (connect-IsFair new_provider fresh-IsFair)

  -- Whatever happens to a provider: it holds an error exactly while the last status is `disconnected`,
  -- no `connecting` replaces an error, an error of the plugin's own modal carries no retry fields, and
  -- every countdown announced is between one and fifteen seconds.
  pub session_statuses-IsCalm :
      (es : List Event)
      → let s = session limit client_id es in
        (s.has_connection_error ≡ is_error s.emitted) × (IsCalm s.emitted × All IsHonest s.emitted)
  session_statuses-IsCalm es = let (a, (b, (c, d))) = session-IsFair es in (a, (b, c))

  -- Whatever happens to a provider, it never waits for less than one second or more than fifteen before
  -- it connects again.
  pub session_delays-InRange :
      (es : List Event) → All InRange (session limit client_id es).requested
  session_delays-InRange es = let (a, (b, (c, d))) = session-IsFair es in d

-- On a close with retry fields, of a client that may retry and has connected before, the delay announced
-- to the editor is the delay then waited for.
pub handle_connection_close_announced :
    (scope : WebSocketCloseScope) (code : Option ℕ) (s : Provider)
    → s.eligible ≡ true
    → s.has_attempted_connect ≡ true
    → (get_web_socket_close_policy scope code s.room_limit_exceeded).include_retry_metadata ≡ true
    → let next = handle_connection_close scope code s in
      let policy = get_web_socket_close_policy scope code s.room_limit_exceeded in
      let fields = get_retry_status_fields s in
      (next.emitted ≡ disconnected policy.error_code (some fields) ∷ s.emitted)
      × ((next.requested ≡ fields.will_auto_retry_in_ms ∷ s.requested) × (next.waits ≡ suc s.waits))
unfolding handle_connection_close report_close emit connect
handle_connection_close_announced scope code s e k h =
    elim (include_retry_metadata-modal scope code s.room_limit_exceeded) [
      | inl m ↦ absurd (ground (arith, h, m.1))
      | inr m ↦ simp (sym m.1 ∙ h, h, e, k) (refl, (refl, refl))
    ]
