-- ===== src/Client/Provider/Statuses.antt =====
-- src/websocket-client.ts: what the provider reports, and the delays it asks for.
use native.Mathlib.Nat.{one-le-pow}
use vip_real_time_collaborat.Base.{
  ℕ, suc, ◌≤◌, ◌≡◌, refl, sym, ◌∙◌, inl, inr, Bool, true, false, not, ◌&&◌, Option, none, some,
  List, [], ◌∷◌, arith, All, if◌then◌else◌, Bool-cases,
}
use vip_real_time_collaborat.Client.ClosePolicy.{
  WebSocketCloseScope, ConnectionErrorCode, is_custom_modal_error, get_web_socket_close_policy,
}
use vip_real_time_collaborat.Client.ClosePolicy.Laws.{include_retry_metadata-modal}
use vip_real_time_collaborat.Client.Provider.{
  Provider, SyncStatus, connecting, connected, disconnected, RetryStatusFields,
  get_retry_status_fields, get_token_fetch_error_code, ConnectionStatus, status_connecting,
  status_connected, status_disconnected, get_backoff_delay_in_ms, emit, start_attempt, connect,
  resume_wait, handle_token_fetch_failure, resume_failure, dispose_provider, resume_token,
  report_close, handle_connection_close, handle_status, handle_sync,
}

abbrev pub InRange : ℕ → Type 0
InRange delay = (1000 ≤ delay) × (delay ≤ 15000)

-- The last status is an error.
abbrev pub is_error : List SyncStatus → Bool
is_error [] = false
is_error (connecting ∷ l) = false
is_error (connected ∷ l) = false
is_error (disconnected code fields ∷ l) = true

-- No `connecting` replaces an error.
abbrev pub IsCalm : List SyncStatus → Type 0
IsCalm [] = Unit {0}
IsCalm (connecting ∷ l) = (is_error l ≡ false) × IsCalm l
IsCalm (connected ∷ l) = IsCalm l
IsCalm (disconnected code fields ∷ l) = IsCalm l

-- A status that brings up the default modal is no error of the plugin's own modal, and its countdown
-- is in range.
abbrev pub IsHonest : SyncStatus → Type 0
IsHonest connecting = Unit {0}
IsHonest connected = Unit {0}
IsHonest (disconnected code none) = Unit {0}
IsHonest (disconnected code (some f)) =
    (is_custom_modal_error code ≡ false) × InRange f.will_auto_retry_in_ms

abbrev pub IsFair : Provider → Type 0
IsFair s =
    (s.has_connection_error ≡ is_error s.emitted)
    × (IsCalm s.emitted × (All IsHonest s.emitted × All InRange s.requested))

get_backoff_delay_in_ms-InRange : (n : ℕ) → InRange (get_backoff_delay_in_ms n)
unfolding get_backoff_delay_in_ms
get_backoff_delay_in_ms-InRange n = ground (arith, one-le-pow n 2 (omega arith))

pub connect-IsFair : (s : Provider) → IsFair s → IsFair (connect s)
unfolding connect start_attempt
connect-IsFair s (a, (b, (c, d))) = elim (Bool-cases s.eligible) [
  | inr e ↦ simp e (a, (b, (c, d)))
  | inl e ↦ elim (Bool-cases s.has_attempted_connect) [
    | inl k ↦ simp (e, k) (a, (b, (c, (get_backoff_delay_in_ms-InRange s.attempts, d))))
    | inr k ↦ simp (e, k) (a, (b, (c, d)))
  ]
]

pub either-IsFair : (b : Bool) (s t : Provider) → IsFair s → IsFair t → IsFair (if b then s else t)
either-IsFair true s t f g = f
either-IsFair false s t f g = g

emit-IsFair :
    (code : ConnectionErrorCode) (fields : Option RetryStatusFields) (s : Provider)
    → s.has_connection_error ≡ true
    → IsCalm s.emitted
    → IsHonest (disconnected code fields)
    → All IsHonest s.emitted
    → All InRange s.requested
    → IsFair (emit (disconnected code fields) s)
unfolding emit
emit-IsFair code fields s e b h c d = (e, (b, ((h, c), d)))

token_error_default :
    (st : Option ℕ) → is_custom_modal_error (get_token_fetch_error_code st) ≡ false
unfolding get_token_fetch_error_code
token_error_default none = refl
token_error_default (some n) = ground arith

handle_token_fetch_failure-IsFair :
    (code : ConnectionErrorCode) (s : Provider)
    → is_custom_modal_error code ≡ false
    → IsFair s
    → IsFair (handle_token_fetch_failure code s)
unfolding handle_token_fetch_failure
handle_token_fetch_failure-IsFair code s m (a, (b, (c, d))) =
    emit-IsFair code (some (get_retry_status_fields s)) (record s { has_connection_error = true })
      refl b (m, get_backoff_delay_in_ms-InRange s.attempts) c d

pub resume_failure-IsFair : (st : Option ℕ) (s : Provider) → IsFair s → IsFair (resume_failure st s)
unfolding resume_failure
resume_failure-IsFair st s f =
    let code = get_token_fetch_error_code st in
    either-IsFair s.eligible (connect (handle_token_fetch_failure code s)) s
      (connect-IsFair (handle_token_fetch_failure code s)
        (handle_token_fetch_failure-IsFair code s (token_error_default st) f))
      f

-- The policy's fields, as handle_connection_close emits them.
policy-IsHonest :
    (scope : WebSocketCloseScope) (code : Option ℕ) (exceeded : Bool) (f : RetryStatusFields)
    → InRange f.will_auto_retry_in_ms
    → let p = get_web_socket_close_policy scope code exceeded in
      IsHonest (disconnected p.error_code (if p.include_retry_metadata then some f else none))
policy-IsHonest scope code exceeded f r =
    elim (Bool-cases (get_web_socket_close_policy scope code exceeded).include_retry_metadata) [
      | inl e ↦ elim (include_retry_metadata-modal scope code exceeded) [
        | inl m ↦ absurd (ground (arith, e, m.1))
        | inr m ↦ rw e (m.0, r)
      ]
      | inr e ↦ rw e tt
    ]

report_close-IsFair :
    (scope : WebSocketCloseScope) (code : Option ℕ) (s : Provider)
    → IsFair s
    → IsFair (report_close scope code s)
unfolding report_close emit
report_close-IsFair scope code s (a, (b, (c, d))) =
    let honest =
      policy-IsHonest scope code s.room_limit_exceeded (get_retry_status_fields s)
        (get_backoff_delay_in_ms-InRange s.attempts) in
    (refl, (b, ((honest, c), d)))

pub handle_connection_close-IsFair :
    (scope : WebSocketCloseScope) (code : Option ℕ) (s : Provider)
    → IsFair s
    → IsFair (handle_connection_close scope code s)
unfolding handle_connection_close
handle_connection_close-IsFair scope code s f =
    let s1 = report_close scope code s in
    let g = report_close-IsFair scope code s f in
    either-IsFair (get_web_socket_close_policy scope code s.room_limit_exceeded).should_retry
      (connect s1) s1 (connect-IsFair s1 g) g

pub handle_status-IsFair :
    (st : ConnectionStatus) (s : Provider) → IsFair s → IsFair (handle_status st s)
unfolding handle_status emit
handle_status-IsFair status_connected s (a, (b, (c, d))) =
    elim (Bool-cases s.has_connection_error) [
      | inl e ↦ simp e (sym e ∙ a, (b, (c, d)))
      | inr e ↦ simp e (refl, (b, ((tt, c), d)))
    ]
handle_status-IsFair status_connecting s (a, (b, (c, d))) =
    elim (Bool-cases s.has_connection_error) [
      | inl e ↦ simp e (sym e ∙ a, (b, (c, d)))
      | inr e ↦ simp e (refl, ((sym a ∙ e, b), ((tt, c), d)))
    ]
handle_status-IsFair status_disconnected s f = f

pub handle_sync-IsFair : (synced : Bool) (s : Provider) → IsFair s → IsFair (handle_sync synced s)
unfolding handle_sync emit
handle_sync-IsFair synced s (a, (b, (c, d))) =
    elim (Bool-cases (synced && s.has_connection_error)) [
      | inl e ↦ simp e (refl, (b, ((tt, c), d)))
      | inr e ↦ simp e (a, (b, (c, d)))
    ]

pub dispose_provider-IsFair : (s : Provider) → IsFair s → IsFair (dispose_provider s)
unfolding dispose_provider
dispose_provider-IsFair s f = elim (Bool-cases s.disposed) [ inl e ↦ simp e f | inr e ↦ simp e f ]

pub resume_token-IsFair : (throws : Bool) (s : Provider) → IsFair s → IsFair (resume_token throws s)
unfolding resume_token
resume_token-IsFair throws s f =
    let s1 : Provider = record s { connects = suc s.connects } in
    either-IsFair (not s.eligible) s (if throws then dispose_provider s1 else s1) f
      (either-IsFair throws (dispose_provider s1) s1 (dispose_provider-IsFair s1 f) f)

pub resume_wait-IsFair : (s : Provider) → IsFair s → IsFair (resume_wait s)
unfolding resume_wait start_attempt
resume_wait-IsFair s f = either-IsFair (not s.eligible) s (start_attempt s) f f
