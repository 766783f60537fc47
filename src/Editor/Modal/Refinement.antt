-- ===== src/Editor/Modal/Refinement.antt =====
-- The modal of src/components/collaboration-limit-modal.tsx on the statuses of src/websocket-client.ts:
-- what the user sees depends on the newest status and the ticket alone.
use vip_real_time_collaborat.Base.{
  ℕ, ◌≡◌, refl, ap, ◌∙◌, Bool, true, false, Option, none, some, List, [], ◌∷◌,
}
use vip_real_time_collaborat.Client.ClosePolicy.{
  ConnectionErrorCode, authentication_failed, connection_expired, connection_limit_exceeded,
  collaborator_limit_exceeded, room_connection_limit_exceeded, unknown_error, is_custom_modal_error,
}
use vip_real_time_collaborat.Client.Provider.{
  SyncStatus, connecting, connected, disconnected, RetryStatusFields, session,
}
use vip_real_time_collaborat.Client.Provider as Provider
use vip_real_time_collaborat.Client.Provider.Statuses.{is_error, IsCalm}
use vip_real_time_collaborat.Client.Provider.Reports.{session_statuses-IsCalm}
use vip_real_time_collaborat.Editor.Modal.{
  Message, too_many_open_connections, page_reached_limit, collaborator_limit_reached,
  environment_reached_limit, environment_reached_limit_admin, connection_limit_reached,
  server_at_capacity, server_at_capacity_admin, request_sent, request_sent_body,
  is_sync_connection_error_handled, UpgradeState, idle, submitting, success,
  CollaborationLimitModal, error_code, Dialog, render, Event, run,
}
use vip_real_time_collaborat.Editor.Modal.History.{statuses, newest, decides, Follows, run-Follows}

-- The three limits that the modal is for.
pub data Limit : Type 0 where
  room environment server : Limit

abbrev pub limit_of : ConnectionErrorCode → Option Limit
limit_of room_connection_limit_exceeded = some room
limit_of collaborator_limit_exceeded = some environment
limit_of connection_limit_exceeded = some server
limit_of authentication_failed = none
limit_of connection_expired = none
limit_of unknown_error = none

-- The limit that the newest status reports.
abbrev pub limit_reported : List SyncStatus → Option Limit
limit_reported [] = none
limit_reported (connecting ∷ l) = none
limit_reported (connected ∷ l) = none
limit_reported (disconnected code fields ∷ l) = limit_of code

abbrev notice : Message → Message → Dialog
notice title body = record {
  title = title;
  body = body;
  back_is_primary = false;
  copy_is_secondary = false;
  upgrade_button = none;
}

abbrev offer : Message → Bool → Dialog
offer body disabled = record {
  title = collaborator_limit_reached;
  body = body;
  back_is_primary = false;
  copy_is_secondary = true;
  upgrade_button = some disabled;
}

abbrev thanks : Dialog
thanks = record {
  title = request_sent;
  body = request_sent_body;
  back_is_primary = true;
  copy_is_secondary = true;
  upgrade_button = none;
}

-- What the modal is to show: a limit and the state of the ticket, for a user or an administrator.
abbrev pub dialog_for : Bool → Limit → UpgradeState → Dialog
dialog_for is_admin room ticket = notice too_many_open_connections page_reached_limit
dialog_for false server ticket = notice connection_limit_reached server_at_capacity
dialog_for true server ticket = notice connection_limit_reached server_at_capacity_admin
dialog_for false environment idle = offer environment_reached_limit false
dialog_for false environment submitting = offer environment_reached_limit true
dialog_for true environment idle = offer environment_reached_limit_admin false
dialog_for true environment submitting = offer environment_reached_limit_admin true
dialog_for is_admin environment success = thanks

abbrev pub view : Bool → Option Limit → UpgradeState → Option Dialog
view is_admin none ticket = none
view is_admin (some limit) ticket = some (dialog_for is_admin limit ticket)

abbrev pub is_some : Option Limit → Bool
is_some none = false
is_some (some limit) = true

-- Without a `connecting` after an error, a modal that is shown shows the newest status.
calm_decides : (l : List SyncStatus) → is_error l ≡ false → IsCalm l → decides l ≡ false
calm_decides [] e c = refl
calm_decides (connecting ∷ l) e (k, c) = calm_decides l k c
calm_decides (connected ∷ l) e c = refl
calm_decides (disconnected code fields ∷ l) e c = absurd cc

-- What is rendered of a component with a given status, visibility and ticket.
abbrev rendered : Bool → Option SyncStatus → Bool → UpgradeState → Option Dialog
rendered is_admin status shown ticket = render is_admin (record {
  connection_status = status;
  show_modal = shown;
  upgrade_state = ticket;
  telemetry_fired = false;
  telemetry_posts = 0;
  in_flight = 0;
  tickets = 0;
})

rendered_code :
    (is_admin : Bool) (ticket : UpgradeState) (code : ConnectionErrorCode)
    (f : Option RetryStatusFields)
    → rendered is_admin (some (disconnected code f)) (is_custom_modal_error code) ticket
      ≡ view is_admin (limit_of code) ticket
unfolding render
rendered_code is_admin ticket room_connection_limit_exceeded f = refl
rendered_code false ticket connection_limit_exceeded f = refl
rendered_code true ticket connection_limit_exceeded f = refl
rendered_code false idle collaborator_limit_exceeded f = refl
rendered_code false submitting collaborator_limit_exceeded f = refl
rendered_code true idle collaborator_limit_exceeded f = refl
rendered_code true submitting collaborator_limit_exceeded f = refl
rendered_code false success collaborator_limit_exceeded f = refl
rendered_code true success collaborator_limit_exceeded f = refl
rendered_code is_admin ticket authentication_failed f = refl
rendered_code is_admin ticket connection_expired f = refl
rendered_code is_admin ticket unknown_error f = refl

rendered_calm :
    (is_admin : Bool) (ticket : UpgradeState) (l : List SyncStatus)
    → IsCalm l
    → rendered is_admin (newest l) (decides l) ticket ≡ view is_admin (limit_reported l) ticket
unfolding render
rendered_calm is_admin ticket [] c = refl
rendered_calm is_admin ticket (connecting ∷ l) (k, c) = rw (calm_decides l k c) refl
rendered_calm is_admin ticket (connected ∷ l) c = refl
rendered_calm is_admin ticket (disconnected code fields ∷ l) c =
    rendered_code is_admin ticket code fields

render-view :
    (is_admin : Bool) (l : List SyncStatus) (m : CollaborationLimitModal)
    → IsCalm l
    → Follows l m
    → render is_admin m ≡ view is_admin (limit_reported l) m.upgrade_state
unfolding render
render-view is_admin l m c f =
    ap (λ st. rendered is_admin st m.show_modal m.upgrade_state) f.status
    ∙ ap (λ b. rendered is_admin (newest l) b m.upgrade_state) f.shown
    ∙ rendered_calm is_admin m.upgrade_state l c

handled-limit :
    (l : List SyncStatus)
    → is_sync_connection_error_handled false (error_code (newest l)) ≡ is_some (limit_reported l)
unfolding is_sync_connection_error_handled
handled-limit [] = refl
handled-limit (connecting ∷ l) = refl
handled-limit (connected ∷ l) = refl
handled-limit (disconnected authentication_failed fields ∷ l) = refl
handled-limit (disconnected connection_expired fields ∷ l) = refl
handled-limit (disconnected connection_limit_exceeded fields ∷ l) = refl
handled-limit (disconnected collaborator_limit_exceeded fields ∷ l) = refl
handled-limit (disconnected room_connection_limit_exceeded fields ∷ l) = refl
handled-limit (disconnected unknown_error fields ∷ l) = refl

-- The modal on the statuses of a provider is a function of the limit that the newest status reports and of
-- the state of the ticket: nothing is shown without a limit, and with one the dialog of that very limit.
-- The editor's own modal is kept away exactly while there is a limit.
pub render-session :
    (limit client_id : ℕ) (provided : List Provider.Event) (es : List Event) (is_admin : Bool)
    → statuses es ≡ (session limit client_id provided).emitted
    → let m = run es in
      let reported = limit_reported (session limit client_id provided).emitted in
      (render is_admin m ≡ view is_admin reported m.upgrade_state)
      × (is_sync_connection_error_handled false (error_code m.connection_status) ≡ is_some reported)
render-session limit client_id provided es is_admin e =
    let follows : Follows (session limit client_id provided).emitted (run es) =
      rw (← e) (run-Follows es) in
    (
      render-view is_admin (session limit client_id provided).emitted (run es)
          (session_statuses-IsCalm limit client_id provided).1.0 follows,
      ap (λ st. is_sync_connection_error_handled false (error_code st)) follows.status
          ∙ handled-limit (session limit client_id provided).emitted,
    )
