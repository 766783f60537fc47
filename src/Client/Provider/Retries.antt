-- ===== src/Client/Provider/Retries.antt =====
-- src/websocket-client.ts: when the client stops connecting, and how long it waits.
use vip_real_time_collaborat.Base.{
  ℕ, zero, suc, ◌≡◌, refl, ◌⊎◌, inl, inr, Bool, true, false, Option, List, [], ◌∷◌, arith,
  if◌then◌else◌, Bool-cases,
}
use vip_real_time_collaborat.Client.ClosePolicy.{WebSocketCloseScope, get_web_socket_close_policy}
use vip_real_time_collaborat.Client.ClosePolicy.Laws.{IsFinal, should_retry-IsFinal}
use vip_real_time_collaborat.Client.Provider.{
  Provider, Event, waited, fetch_failed, fetched, closed, status, sync, stable, awareness_changed,
  settled, destroyed, reconnect_requested, status_connecting, status_connected, status_disconnected,
  emit, connect, resume_wait, resume_failure, dispose_provider, resume_token, report_close,
  handle_connection_close, handle_status, handle_sync, reset_attempts, schedule_evaluate, evaluate,
  listen, step, run,
}

-- The client is not eligible to connect, and has called provider.connect `n` times.
abbrev pub HasStopped : ℕ → Provider → Type 0
HasStopped n s = (s.eligible ≡ false) × (s.connects ≡ n)

connect-HasStopped : (n : ℕ) (s : Provider) → HasStopped n s → HasStopped n (connect s)
unfolding connect
connect-HasStopped n s h = ground (arith, h.0, h.1)

dispose_provider-HasStopped :
    (n : ℕ) (s : Provider) → HasStopped n s → HasStopped n (dispose_provider s)
unfolding dispose_provider
dispose_provider-HasStopped n s h = ground (arith, h.0, h.1)

handle_connection_close-HasStopped :
    (n : ℕ) (scope : WebSocketCloseScope) (code : Option ℕ) (s : Provider)
    → HasStopped n s
    → HasStopped n (handle_connection_close scope code s)
unfolding handle_connection_close report_close emit
handle_connection_close-HasStopped n scope code s h =
    elim (Bool-cases (get_web_socket_close_policy scope code s.room_limit_exceeded).should_retry) [
      | inl e ↦ rw e (connect-HasStopped n _ h)
      | inr e ↦ rw e (refl, h.1)
    ]

module _ (limit client_id : ℕ) where
  listen-HasStopped :
      (n : ℕ) (e : Event) (s : Provider)
      → HasStopped n s
      → HasStopped n (listen limit client_id e s)
  unfolding listen handle_status emit handle_sync reset_attempts evaluate schedule_evaluate
  listen-HasStopped n (closed scope code) s h = handle_connection_close-HasStopped n scope code s h
  listen-HasStopped n (status status_connected) s h = ground (arith, h.0, h.1)
  listen-HasStopped n (status status_connecting) s h = ground (arith, h.0, h.1)
  listen-HasStopped n (status status_disconnected) s h = h
  listen-HasStopped n (sync synced) s h = ground (arith, h.0, h.1)
  listen-HasStopped n stable s h = ground (arith, h.0, h.1)
  listen-HasStopped n awareness_changed s h = ground (arith, h.0, h.1)
  listen-HasStopped n (settled wsconnected states) s h = ground (arith, h.0, h.1)
  listen-HasStopped n waited s h = h
  listen-HasStopped n (fetch_failed st) s h = h
  listen-HasStopped n (fetched throws) s h = h
  listen-HasStopped n destroyed s h = h
  listen-HasStopped n reconnect_requested s h = h

  either-HasStopped :
      (n : ℕ) (b : Bool) (s t : Provider)
      → HasStopped n s
      → HasStopped n t
      → HasStopped n (if b then s else t)
  either-HasStopped n true s t h k = h
  either-HasStopped n false s t h k = k

  waited-HasStopped :
      (n w : ℕ) (s : Provider)
      → HasStopped n s
      → HasStopped n (elim w [ zero ↦ s | suc m ↦ resume_wait (record s { waits = m }) ])
  unfolding resume_wait
  waited-HasStopped n zero s h = h
  waited-HasStopped n (suc m) s h = rw h.0 (refl, h.1)

  failed-HasStopped :
      (n w : ℕ) (st : Option ℕ) (s : Provider)
      → HasStopped n s
      → HasStopped n (elim w [ zero ↦ s | suc m ↦ resume_failure st (record s { fetches = m }) ])
  unfolding resume_failure
  failed-HasStopped n zero st s h = h
  failed-HasStopped n (suc m) st s h = rw h.0 (refl, h.1)

  fetched-HasStopped :
      (n w : ℕ) (throws : Bool) (s : Provider)
      → HasStopped n s
      → HasStopped n (elim w [ zero ↦ s | suc m ↦ resume_token throws (record s { fetches = m }) ])
  unfolding resume_token
  fetched-HasStopped n zero throws s h = h
  fetched-HasStopped n (suc m) throws s h = rw h.0 (refl, h.1)

  step-HasStopped :
      (n : ℕ) (e : Event) (s : Provider) → HasStopped n s → HasStopped n (step limit client_id e s)
  unfolding step
  step-HasStopped n waited s h = waited-HasStopped n s.waits s h
  step-HasStopped n (fetch_failed st) s h = failed-HasStopped n s.fetches st s h
  step-HasStopped n (fetched throws) s h = fetched-HasStopped n s.fetches throws s h
  step-HasStopped n destroyed s h = dispose_provider-HasStopped n s h
  step-HasStopped n reconnect_requested s h = connect-HasStopped n s h
  step-HasStopped n (closed scope code) s h =
      either-HasStopped n s.disposed s _ h (listen-HasStopped n (closed scope code) s h)
  step-HasStopped n (status st) s h =
      either-HasStopped n s.disposed s _ h (listen-HasStopped n (status st) s h)
  step-HasStopped n (sync synced) s h =
      either-HasStopped n s.disposed s _ h (listen-HasStopped n (sync synced) s h)
  step-HasStopped n stable s h =
      either-HasStopped n s.disposed s _ h (listen-HasStopped n stable s h)
  step-HasStopped n awareness_changed s h =
      either-HasStopped n s.disposed s _ h (listen-HasStopped n awareness_changed s h)
  step-HasStopped n (settled wsconnected states) s h =
      either-HasStopped n s.disposed s _ h (listen-HasStopped n (settled wsconnected states) s h)

  run-HasStopped :
      (n : ℕ) (es : List Event) (s : Provider)
      → HasStopped n s
      → HasStopped n (run limit client_id es s)
  unfolding run
  run-HasStopped n [] s h = h
  run-HasStopped n (e ∷ es) s h =
      run-HasStopped n es (step limit client_id e s) (step-HasStopped n e s h)

  final-HasStopped :
      (scope : WebSocketCloseScope) (code : Option ℕ) (s : Provider)
      → (get_web_socket_close_policy scope code s.room_limit_exceeded).should_retry ≡ false
      → HasStopped s.connects (handle_connection_close scope code s)
  unfolding handle_connection_close report_close emit
  final-HasStopped scope code s h = rw h (refl, refl)

  else-HasStopped :
      (n : ℕ) (b : Bool) (s t : Provider)
      → b ≡ false
      → HasStopped n t
      → HasStopped n (if b then s else t)
  else-HasStopped n true s t e h = absurd (ground (arith, e))
  else-HasStopped n false s t e h = h

  closed-HasStopped :
      (scope : WebSocketCloseScope) (code : Option ℕ) (s : Provider)
      → s.disposed ≡ false
      → (s.room_limit_exceeded ≡ true) ⊎ IsFinal scope code
      → HasStopped s.connects (step limit client_id (closed scope code) s)
  unfolding step listen
  closed-HasStopped scope code s d h =
      else-HasStopped s.connects s.disposed s _ d (
        final-HasStopped scope code s ((should_retry-IsFinal scope code s.room_limit_exceeded).1 h))

  -- A provider that has not been disposed of, on a close that is final, or on any close once the
  -- room was found over its limit: the client never calls provider.connect again, whatever
  -- settles, fires or is asked for.
  pub run_final_close :
      (scope : WebSocketCloseScope) (code : Option ℕ) (s : Provider) (es : List Event)
      → s.disposed ≡ false
      → (s.room_limit_exceeded ≡ true) ⊎ IsFinal scope code
      → HasStopped s.connects (run limit client_id (closed scope code ∷ es) s)
  unfolding run
  run_final_close scope code s es d h =
      run-HasStopped s.connects es (step limit client_id (closed scope code) s)
        (closed-HasStopped scope code s d h)

  disposed-HasStopped :
      (s : Provider) → s.disposed ≡ false → HasStopped s.connects (dispose_provider s)
  unfolding dispose_provider
  disposed-HasStopped s d = rw d (refl, refl)

  -- After `destroy` of a provider that has not been disposed of the client never calls
  -- provider.connect again, whatever was waiting or being fetched.
  pub run_destroyed :
      (s : Provider) (es : List Event)
      → s.disposed ≡ false
      → HasStopped s.connects (run limit client_id (destroyed ∷ es) s)
  unfolding run step
  run_destroyed s es d = run-HasStopped s.connects es _ (disposed-HasStopped s d)
