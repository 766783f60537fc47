-- ===== src/Editor/Modal.antt =====
-- src/components/collaboration-limit-modal.tsx, with the filter of src/index.ts that keeps the editor's
-- own modal away. The texts are named, not spelled out.
pub mod History
pub mod Refinement
mod Examples
use vip_real_time_collaborat.Base.{
  ℕ, zero, suc, ◌+◌, Bool, true, false, not, ◌&&◌, ◌||◌, Option, none, some, List, [], ◌∷◌,
  if◌then◌else◌,
}
use vip_real_time_collaborat.Client.ClosePolicy.{
  ConnectionErrorCode, authentication_failed, connection_expired, connection_limit_exceeded,
  collaborator_limit_exceeded, room_connection_limit_exceeded, unknown_error, is_custom_modal_error,
}
use vip_real_time_collaborat.Client.Provider.{SyncStatus, connecting, connected, disconnected}
use vip_real_time_collaborat.Editor.Ticket.{UpgradeTicketOutcome, submitted, mailto}

-- The titles and bodies, for an administrator or not.
pub data Message : Type 0 where
  too_many_open_connections page_reached_limit : Message
  collaborator_limit_reached environment_reached_limit environment_reached_limit_admin : Message
  connection_limit_reached server_at_capacity server_at_capacity_admin : Message
  request_sent request_sent_body : Message

pub record ConnectionErrorMessage : Type 0 where
  pub title : Message
  pub body : Message

unfoldable pub get_connection_error_message :
    Option ConnectionErrorCode → Bool → ConnectionErrorMessage
get_connection_error_message (some room_connection_limit_exceeded) is_admin = record {
  title = too_many_open_connections;
  body = page_reached_limit;
}
get_connection_error_message (some collaborator_limit_exceeded) is_admin = record {
  title = collaborator_limit_reached;
  body = if is_admin then environment_reached_limit_admin else environment_reached_limit;
}
get_connection_error_message _ is_admin = record {
  title = connection_limit_reached;
  body = if is_admin then server_at_capacity_admin else server_at_capacity;
}

-- CUSTOM_MODAL_ERROR_CODES.includes on a code that may be undefined.
abbrev pub is_handled_code : Option ConnectionErrorCode → Bool
is_handled_code none = false
is_handled_code (some code) = is_custom_modal_error code

-- The filter `editor.isSyncConnectionErrorHandled`.
unfoldable pub is_sync_connection_error_handled : Bool → Option ConnectionErrorCode → Bool
is_sync_connection_error_handled is_handled error_code =
    if is_handled_code error_code then true else is_handled

pub data UpgradeState : Type 0 where
  idle submitting success : UpgradeState

abbrev pub is_submitting : UpgradeState → Bool
is_submitting idle = false
is_submitting submitting = true
is_submitting success = false

abbrev pub is_sent : UpgradeState → Bool
is_sent idle = false
is_sent submitting = false
is_sent success = true

-- The state of the component and what it has done: the POSTs of the telemetry, the tickets in flight and
-- the tickets asked for.
pub record CollaborationLimitModal : Type 0 where
  pub connection_status : Option SyncStatus
  pub show_modal : Bool
  pub upgrade_state : UpgradeState
  pub telemetry_fired : Bool
  pub telemetry_posts : ℕ
  pub in_flight : ℕ
  pub tickets : ℕ

unfoldable pub new_modal : CollaborationLimitModal
new_modal = record {
  connection_status = none;
  show_modal = false;
  upgrade_state = idle;
  telemetry_fired = false;
  telemetry_posts = 0;
  in_flight = 0;
  tickets = 0;
}

abbrev pub error_code : Option SyncStatus → Option ConnectionErrorCode
error_code none = none
error_code (some connecting) = none
error_code (some connected) = none
error_code (some (disconnected code fields)) = some code

abbrev pub is_upgrade_code : Option ConnectionErrorCode → Bool
is_upgrade_code none = false
is_upgrade_code (some collaborator_limit_exceeded) = true
is_upgrade_code (some _) = false

abbrev pub is_upgrade_limit : CollaborationLimitModal → Bool
is_upgrade_limit m = is_upgrade_code (error_code m.connection_status)

-- The effect on [ connectionStatus ].
unfoldable pub show_effect : SyncStatus → CollaborationLimitModal → CollaborationLimitModal
show_effect connecting m = m
show_effect connected m = record m { show_modal = false; upgrade_state = idle }
show_effect (disconnected code fields) m = record m { show_modal = is_custom_modal_error code }

-- The effect on [ showModal, isUpgradeLimit ]. The ref makes a run on unchanged values come to nothing.
unfoldable pub telemetry_effect : CollaborationLimitModal → CollaborationLimitModal
telemetry_effect m =
    if not m.show_modal || (not (is_upgrade_limit m) || m.telemetry_fired)
    then m
    else record m { telemetry_fired = true; telemetry_posts = suc m.telemetry_posts }

-- A new status is rendered: both effects run with the state of this rendering, and the second again with
-- the state that the first sets.
unfoldable pub see_status : SyncStatus → CollaborationLimitModal → CollaborationLimitModal
unfolding show_effect telemetry_effect
see_status status m =
    telemetry_effect
      (show_effect status (telemetry_effect (record m { connection_status = some status })))

-- What is rendered: the title and body, whether the back button is the primary one, and whether the
-- upgrade button is there and disabled.
pub record Dialog : Type 0 where
  pub title : Message
  pub body : Message
  pub back_is_primary : Bool
  pub copy_is_secondary : Bool
  pub upgrade_button : Option Bool

abbrev dialog_of : Bool → Bool → UpgradeState → ConnectionErrorMessage → Dialog
dialog_of upgrade is_success state message = record {
  title = if is_success then request_sent else message.title;
  body = if is_success then request_sent_body else message.body;
  back_is_primary = is_success;
  copy_is_secondary = upgrade;
  upgrade_button = if upgrade && not is_success then some (is_submitting state) else none;
}

unfoldable pub render : Bool → CollaborationLimitModal → Option Dialog
unfolding get_connection_error_message
render is_admin m =
    if not m.show_modal
    then none
    else some (
        dialog_of (is_upgrade_limit m) (is_upgrade_limit m && is_sent m.upgrade_state)
          m.upgrade_state (get_connection_error_message (error_code m.connection_status) is_admin))

-- The upgrade button takes a click when it is there and not disabled.
abbrev pub can_click : CollaborationLimitModal → Bool
can_click m =
    m.show_modal
    && (is_upgrade_limit m
        && (not (is_sent m.upgrade_state) && not (is_submitting m.upgrade_state)))

-- handleUpgradeClick up to its await.
unfoldable pub handle_upgrade_click : CollaborationLimitModal → CollaborationLimitModal
handle_upgrade_click m =
    if can_click m
    then record m {
      upgrade_state = submitting;
      in_flight = suc m.in_flight;
      tickets = suc m.tickets;
    }
    else m

abbrev pub state_after : UpgradeTicketOutcome → UpgradeState
state_after submitted = success
state_after mailto = idle

-- handleUpgradeClick after its await, for a ticket that is in flight.
unfoldable pub finish_upgrade :
    UpgradeTicketOutcome → CollaborationLimitModal → CollaborationLimitModal
finish_upgrade outcome m = elim m.in_flight [
  | zero ↦ m
  | suc n ↦ record m { in_flight = n; upgrade_state = state_after outcome }
]

pub data Event : Type 0 where
  status_seen : SyncStatus → Event
  upgrade_clicked : Event
  ticket_settled : UpgradeTicketOutcome → Event

unfoldable pub step : Event → CollaborationLimitModal → CollaborationLimitModal
unfolding see_status handle_upgrade_click finish_upgrade
step (status_seen status) m = see_status status m
step upgrade_clicked m = handle_upgrade_click m
step (ticket_settled outcome) m = finish_upgrade outcome m

-- The events, newest first.
unfoldable pub run : List Event → CollaborationLimitModal
unfolding step new_modal
run [] = new_modal
run (e ∷ es) = step e (run es)
