-- ===== src/Server/Limits/Laws.antt =====
-- websocket-server/connection-limits.ts: which connections the limits let in.
use vip_real_time_collaborat.Base.{
  ℕ, suc, ◌+◌, ◌-◌, ◌≤◌, ◌≡◌, ◌⊎◌, ◌↔◌, true, Option, some, List, arith, ltb, length, if◌then◌else◌,
}
use vip_real_time_collaborat.Base.Text.{Text}
use vip_real_time_collaborat.Base.Integers.{pos}
use vip_real_time_collaborat.Server.Limits.{
  WebSocketWithIdentity, Config, is_client_active, should_allow_connection, has_user,
  get_active_collaborator_count, should_allow_collaborator_with_limit,
}

-- The places that only clients with a connection may take: the buffer, where the limit is at least
-- twice as large.
abbrev pub reserved : ℕ → ℕ → ℕ
reserved m b = if ltb m (b + b) then 0 else b

-- With a limit of `m` connections and a buffer of `b`, neither negative, a connection is allowed
-- exactly when the members of wss.clients are at most `m`, and at most `m` less the reserved
-- places unless its client has a connection already. The reserved places are `b`, or none where
-- `m` is below `2 b`.
pub should_allow_connection_iff :
    (config : Config) (m b : ℕ) (clients : List WebSocketWithIdentity) (wp_client_id : Option Text)
    → config.max_connections ≡ pos m
    → config.buffer_connections ≡ pos b
    → (should_allow_connection config clients wp_client_id ≡ true) ↔ (
        (length clients ≤ m)
        × ((length clients ≤ m - reserved m b) ⊎ (is_client_active clients wp_client_id ≡ true)))
unfolding should_allow_connection
should_allow_connection_iff config m b clients wp_client_id h k = rw (h, k) (ground arith)

-- With a limit of `m` collaborators, not negative, a user is allowed exactly when the user is
-- active already or fewer than `m` users are.
pub should_allow_collaborator_with_limit_iff :
    (m u : ℕ) (clients : List WebSocketWithIdentity)
    → (should_allow_collaborator_with_limit clients (some u) (pos m) ≡ true)
      ↔ ((has_user clients u ≡ true) ⊎ (suc (get_active_collaborator_count clients) ≤ m))
unfolding should_allow_collaborator_with_limit
should_allow_collaborator_with_limit_iff m u clients = ground arith
