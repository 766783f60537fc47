-- ===== src/Client/Provider.antt =====
-- src/websocket-client.ts: a room's provider, its retries and the status that it reports. Timers and
-- promises that settle, events of the socket and calls of the editor are the steps.
pub mod Retries
pub mod Statuses
pub mod Reports
mod Examples
use vip_real_time_collaborat.Base.{
  ℕ, zero, suc, ◌+◌, ◌*◌, ◌^◌, Bool, true, false, not, ◌&&◌, ◌||◌, Option, none, some, List, [],
  ◌∷◌, ◌==◌, ltb, leb, if◌then◌else◌,
}
use vip_real_time_collaborat.Client.ClosePolicy.{
  WebSocketCloseScope, ConnectionErrorCode, authentication_failed, unknown_error,
  get_web_socket_close_policy,
}
use vip_real_time_collaborat.Client.RoomLimit.{
  AwarenessState, read_presences, is_limit_enforced, is_local_client_within_limit,
}

abbrev pub websocket_provider_max_backoff_in_ms : ℕ
websocket_provider_max_backoff_in_ms = 15000

abbrev pub background_retries_failed_threshold : ℕ
background_retries_failed_threshold = 3

unfoldable pub get_backoff_delay_in_ms : ℕ → ℕ
get_backoff_delay_in_ms attempts =
    let delay = 1000 * 2 ^ attempts in
    if leb delay websocket_provider_max_backoff_in_ms
    then delay
    else websocket_provider_max_backoff_in_ms

-- getTokenFetchErrorCode of error.ts on the status that the error carries.
unfoldable pub get_token_fetch_error_code : Option ℕ → ConnectionErrorCode
get_token_fetch_error_code none = unknown_error
get_token_fetch_error_code (some status) =
    if status == 401 || status == 403 then authentication_failed else unknown_error

pub record RetryStatusFields : Type 0 where
  pub will_auto_retry_in_ms : ℕ
  pub background_retries_failed : Bool

-- What SyncConnectionStatusEmitter emits.
pub data SyncStatus : Type 0 where
  connecting connected : SyncStatus
  disconnected : ConnectionErrorCode → Option RetryStatusFields → SyncStatus

-- The variables of the closures. `waits` are the calls of waitBeforeRetry that have not settled, by their
-- delays, and `fetches` the calls of fetchToken that have not. `connects` and `disconnects` count the
-- calls of provider.connect and provider.disconnect, `requested` are all delays asked for and `emitted`
-- all statuses, newest first.
pub record Provider : Type 0 where
  pub attempts : ℕ
  pub eligible : Bool
  pub has_attempted_connect : Bool
  pub room_limit_exceeded : Bool
  pub has_connection_error : Bool
  pub reset_timer : Bool
  pub settle_timer : Bool
  pub disposed : Bool
  pub waits : ℕ
  pub fetches : ℕ
  pub connects : ℕ
  pub disconnects : ℕ
  pub requested : List ℕ
  pub emitted : List SyncStatus

unfoldable pub new_provider : Provider
new_provider = record {
  attempts = 0;
  eligible = true;
  has_attempted_connect = false;
  room_limit_exceeded = false;
  has_connection_error = false;
  reset_timer = false;
  settle_timer = false;
  disposed = false;
  waits = 0;
  fetches = 0;
  connects = 0;
  disconnects = 0;
  requested = [];
  emitted = [];
}

abbrev pub get_retry_status_fields : Provider → RetryStatusFields
get_retry_status_fields s = record {
  will_auto_retry_in_ms = get_backoff_delay_in_ms s.attempts;
  background_retries_failed = leb background_retries_failed_threshold s.attempts;
}

unfoldable pub emit : SyncStatus → Provider → Provider
emit status s = record s { emitted = status ∷ s.emitted }

-- connect from the start of an attempt to the call of fetchToken.
unfoldable pub start_attempt : Provider → Provider
start_attempt s = record s {
  has_attempted_connect = true;
  attempts = s.attempts + 1;
  fetches = suc s.fetches;
}

-- connect up to its first await.
unfoldable pub connect : Provider → Provider
unfolding start_attempt get_backoff_delay_in_ms
connect s =
    if not s.eligible
    then s
    else if s.has_attempted_connect
    then record s {
      waits = suc s.waits;
      requested = get_backoff_delay_in_ms s.attempts ∷ s.requested;
    }
    else start_attempt s

-- connect after waitBeforeRetry.
unfoldable pub resume_wait : Provider → Provider
unfolding start_attempt
resume_wait s = if not s.eligible then s else start_attempt s

unfoldable pub handle_token_fetch_failure : ConnectionErrorCode → Provider → Provider
unfolding emit get_backoff_delay_in_ms
handle_token_fetch_failure code s =
    emit (disconnected code (some (get_retry_status_fields s)))
      (record s { has_connection_error = true })

-- connect where fetchToken has failed, with the status of its error.
unfoldable pub resume_failure : Option ℕ → Provider → Provider
unfolding connect handle_token_fetch_failure get_token_fetch_error_code
resume_failure status s =
    if s.eligible
    then connect (handle_token_fetch_failure (get_token_fetch_error_code status) s)
    else s

-- disposeProvider; the listeners are removed, and no timer stays.
unfoldable pub dispose_provider : Provider → Provider
dispose_provider s =
    if s.disposed
    then s
    else record s { disposed = true; eligible = false; reset_timer = false; settle_timer = false }

-- connect with the token; `throws` is whether provider.connect does.
unfoldable pub resume_token : Bool → Provider → Provider
unfolding dispose_provider
resume_token throws s =
    if not s.eligible
    then s
    else let s1 : Provider = record s { connects = suc s.connects } in
      if throws then dispose_provider s1 else s1

-- handleConnectionClose up to its test for a retry.
unfoldable pub report_close : WebSocketCloseScope → Option ℕ → Provider → Provider
unfolding get_web_socket_close_policy emit get_backoff_delay_in_ms
report_close scope code s =
    let policy = get_web_socket_close_policy scope code s.room_limit_exceeded in
    let s1 : Provider = record s {
      has_connection_error = true;
      eligible = if policy.should_retry then s.eligible else false;
    } in
    let fields =
      if policy.include_retry_metadata then some (get_retry_status_fields s1) else none in
    emit (disconnected policy.error_code fields) s1

unfoldable pub handle_connection_close : WebSocketCloseScope → Option ℕ → Provider → Provider
unfolding get_web_socket_close_policy report_close connect
handle_connection_close scope code s =
    let policy = get_web_socket_close_policy scope code s.room_limit_exceeded in
    let s1 = report_close scope code s in if policy.should_retry then connect s1 else s1

-- The status of y-websocket's `status` event.
pub data ConnectionStatus : Type 0 where
  status_connecting status_connected status_disconnected : ConnectionStatus

unfoldable pub handle_status : ConnectionStatus → Provider → Provider
unfolding emit
handle_status status_connected s =
    let s1 : Provider = record s { reset_timer = true } in
    if s1.has_connection_error then s1 else emit connected s1
handle_status status_connecting s =
    let s1 : Provider = record s { reset_timer = false } in
    if s1.has_connection_error then s1 else emit connecting s1
handle_status status_disconnected s = record s { reset_timer = false }

unfoldable pub handle_sync : Bool → Provider → Provider
unfolding emit
handle_sync synced s =
    if synced && s.has_connection_error
    then emit connected (record s { has_connection_error = false })
    else s

-- The timer of CONNECTION_STABLE_RESET_DELAY_MS.
unfoldable pub reset_attempts : Provider → Provider
reset_attempts s = record s { attempts = 0; reset_timer = false }

-- setupRoomClientLimit, for the limit of the room and the client's own id.
module _ (limit client_id : ℕ) where
  unfoldable pub schedule_evaluate : Provider → Provider
  schedule_evaluate s = if is_limit_enforced limit then record s { settle_timer = true } else s

  unfoldable pub evaluate : Bool → List (ℕ × AwarenessState) → Provider → Provider
  unfolding read_presences is_local_client_within_limit
  evaluate wsconnected states s =
      let s1 : Provider = record s { settle_timer = false } in
      let within = is_local_client_within_limit (read_presences states) client_id limit in
      if not wsconnected then s1 else record s1 {
        room_limit_exceeded = not within;
        disconnects = if within then s1.disconnects else suc s1.disconnects;
      }

-- A wait or fetch that settles, an event of y-websocket or of awareness, a timer, and `destroy`.
pub data Event : Type 0 where
  waited : Event
  fetch_failed : Option ℕ → Event
  fetched : Bool → Event
  closed : WebSocketCloseScope → Option ℕ → Event
  status : ConnectionStatus → Event
  sync : Bool → Event
  stable : Event
  awareness_changed : Event
  settled : Bool → List (ℕ × AwarenessState) → Event
  destroyed : Event
  reconnect_requested : Event

module _ (limit client_id : ℕ) where
  abbrev pub on_status : ConnectionStatus → Provider → Provider
  on_status status_connected s = schedule_evaluate limit client_id s
  on_status status_connecting s = s
  on_status status_disconnected s = s

  -- The listeners and timers of a provider that has not been disposed of.
  unfoldable pub listen : Event → Provider → Provider
  unfolding handle_connection_close handle_status handle_sync reset_attempts evaluate
      schedule_evaluate
  listen (closed scope code) s = handle_connection_close scope code s
  listen (status st) s = handle_status st (on_status st s)
  listen (sync synced) s = handle_sync synced s
  listen stable s = if s.reset_timer then reset_attempts s else s
  listen awareness_changed s = schedule_evaluate limit client_id s
  listen (settled wsconnected states) s =
      if s.settle_timer then evaluate limit client_id wsconnected states s else s
  listen _ s = s

  -- A wait or fetch settles only where one is pending.
  unfoldable pub step : Event → Provider → Provider
  unfolding connect resume_wait resume_failure resume_token dispose_provider listen
  step waited s = elim s.waits [ zero ↦ s | suc n ↦ resume_wait (record s { waits = n }) ]
  step (fetch_failed st) s = elim s.fetches [
    | zero ↦ s
    | suc n ↦ resume_failure st (record s { fetches = n })
  ]
  step (fetched throws) s = elim s.fetches [
    | zero ↦ s
    | suc n ↦ resume_token throws (record s { fetches = n })
  ]
  step destroyed s = dispose_provider s
  step reconnect_requested s = connect s
  step (closed scope code) s = if s.disposed then s else listen (closed scope code) s
  step (status st) s = if s.disposed then s else listen (status st) s
  step (sync synced) s = if s.disposed then s else listen (sync synced) s
  step stable s = if s.disposed then s else listen stable s
  step awareness_changed s = if s.disposed then s else listen awareness_changed s
  step (settled wsconnected states) s =
      if s.disposed then s else listen (settled wsconnected states) s

  unfoldable pub run : List Event → Provider → Provider
  unfolding step
  run [] s = s
  run (e ∷ es) s = run es (step e s)

  -- A provider is created and connects.
  abbrev pub session : List Event → Provider
  session es = run es (connect new_provider)
