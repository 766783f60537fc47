-- ===== src/Client/ClosePolicy.antt =====
-- src/websocket-close-policy.ts, with the error codes of src/types/sync.ts and
-- src/constants/sync-errors.ts: what a close of a socket or room means for the client.
pub mod Laws
mod Examples
use vip_real_time_collaborat.Base.{
  ℕ, Bool, true, false, not, ◌&&◌, ◌||◌, Option, none, some, ◌==◌, if◌then◌else◌,
}

pub data WebSocketCloseScope : Type 0 where
  physical room : WebSocketCloseScope

-- The codes that the provider uses.
pub data ConnectionErrorCode : Type 0 where
  authentication_failed connection_expired connection_limit_exceeded : ConnectionErrorCode
  collaborator_limit_exceeded room_connection_limit_exceeded unknown_error : ConnectionErrorCode

-- CUSTOM_MODAL_ERROR_CODES: the codes for which the plugin shows its own modal.
abbrev pub is_custom_modal_error : ConnectionErrorCode → Bool
is_custom_modal_error collaborator_limit_exceeded = true
is_custom_modal_error connection_limit_exceeded = true
is_custom_modal_error room_connection_limit_exceeded = true
is_custom_modal_error authentication_failed = false
is_custom_modal_error connection_expired = false
is_custom_modal_error unknown_error = false

pub record WebSocketClosePolicy : Type 0 where
  pub should_retry : Bool
  pub error_code : ConnectionErrorCode
  pub include_retry_metadata : Bool

abbrev pub multiplex_protocol_failure_close_code : ℕ
multiplex_protocol_failure_close_code = 4006

-- `code === n`, where the code may be undefined.
abbrev pub is_code : Option ℕ → ℕ → Bool
is_code none n = false
is_code (some c) n = c == n

unfoldable pub room_policy : Option ℕ → WebSocketClosePolicy
room_policy code =
    let retry = is_code code 4005 in
    record { should_retry = retry; error_code = unknown_error; include_retry_metadata = retry }

unfoldable pub physical_policy : Option ℕ → WebSocketClosePolicy
physical_policy code =
    let retry =
      not (is_code code 1002)
      && (not (is_code code 1008) && not (is_code code multiplex_protocol_failure_close_code)) in
    if is_code code 4001
    then record {
      should_retry = true;
      error_code = connection_expired;
      include_retry_metadata = true;
    }
    else if is_code code 4002
    then record {
      should_retry = true;
      error_code = connection_limit_exceeded;
      include_retry_metadata = false;
    }
    else if is_code code 4003
    then record {
      should_retry = true;
      error_code = collaborator_limit_exceeded;
      include_retry_metadata = false;
    }
    else record { should_retry = retry; error_code = unknown_error; include_retry_metadata = retry }

unfoldable pub get_web_socket_close_policy :
    WebSocketCloseScope → Option ℕ → Bool → WebSocketClosePolicy
unfolding room_policy physical_policy
get_web_socket_close_policy scope code true = record {
  should_retry = false;
  error_code = room_connection_limit_exceeded;
  include_retry_metadata = false;
}
get_web_socket_close_policy room code false = room_policy code
get_web_socket_close_policy physical code false = physical_policy code
