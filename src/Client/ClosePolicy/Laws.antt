-- ===== src/Client/ClosePolicy/Laws.antt =====
-- src/websocket-close-policy.ts: which closes are final, and what the modals are told.
use vip_real_time_collaborat.Base.{
  ℕ, ◌≡◌, refl, ◌⊎◌, ◌↔◌, inl, inr, Bool, true, false, Option, none, some, arith,
}
use vip_real_time_collaborat.Client.ClosePolicy.{
  WebSocketCloseScope, physical, room, is_custom_modal_error, get_web_socket_close_policy,
}

-- The closes after which the client must not reconnect.
abbrev pub IsFinal : WebSocketCloseScope → Option ℕ → Type 0
IsFinal room code = code ≡ some 4005 → ⊥
IsFinal physical code = (code ≡ some 1002) ⊎ ((code ≡ some 1008) ⊎ (code ≡ some 4006))

-- The client gives up exactly when it has left a full room, when a room was closed for any reason but
-- an interruption (4005), and when the socket was closed for a protocol or authorization failure
-- (1002, 1008, 4006).
pub should_retry-IsFinal :
    (scope : WebSocketCloseScope) (code : Option ℕ) (exceeded : Bool)
    → ((get_web_socket_close_policy scope code exceeded).should_retry ≡ false)
      ↔ ((exceeded ≡ true) ⊎ IsFinal scope code)
unfolding get_web_socket_close_policy
should_retry-IsFinal room code true = (λ h. inl refl, λ h. refl)
should_retry-IsFinal physical code true = (λ h. inl refl, λ h. refl)
should_retry-IsFinal room none false = (λ h. inr (λ e. cc), λ h. refl)
should_retry-IsFinal room (some c) false = (λ h. inr (λ e. ground arith), λ h. ground arith)
should_retry-IsFinal physical none false = (λ h. ground arith, λ h. ground arith)
should_retry-IsFinal physical (some c) false = (λ h. ground arith, λ h. ground arith)

-- An error that the plugin's own modal shows carries no retry fields, which would bring up the default
-- modal; any other error carries them exactly when the client retries.
pub include_retry_metadata-modal :
    (scope : WebSocketCloseScope) (code : Option ℕ) (exceeded : Bool)
    → let p = get_web_socket_close_policy scope code exceeded in
      ((is_custom_modal_error p.error_code ≡ true) × (p.include_retry_metadata ≡ false))
      ⊎ ((is_custom_modal_error p.error_code ≡ false) × (p.include_retry_metadata ≡ p.should_retry))
unfolding get_web_socket_close_policy
include_retry_metadata-modal room code true = inl (refl, refl)
include_retry_metadata-modal physical code true = inl (refl, refl)
include_retry_metadata-modal room none false = inr (refl, refl)
include_retry_metadata-modal room (some c) false = inr (refl, refl)
include_retry_metadata-modal physical none false = inr (refl, refl)
include_retry_metadata-modal physical (some c) false = ground arith
