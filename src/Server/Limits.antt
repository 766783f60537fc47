-- ===== src/Server/Limits.antt =====
-- websocket-server/connection-limits.ts: the limits on connections, clients and collaborators.
pub mod Counts
pub mod Laws
use vip_real_time_collaborat.Base.{
  ℕ, suc, ◌+◌, Bool, true, false, not, ◌&&◌, ◌||◌, Option, none, some, List, [], ◌∷◌, length, ◌==◌,
  if◌then◌else◌, ltb,
}
use vip_real_time_collaborat.Base.Text.{Text, ◌===◌}
use vip_real_time_collaborat.Base.Integers.{ℤ, pos, ltb_ℤ, is_minus_one, minus_ℤ, double_ℤ}

-- A member of `wss.clients`; the identity is set once the connection is admitted.
pub record WebSocketWithIdentity : Type 0 where
  pub id : ℕ
  pub wp_client_id : Option Text
  pub user_id : Option ℕ

-- MAX_CONNECTIONS, BUFFER_CONNECTIONS and MAX_COLLABORATORS of config.ts.
pub record Config : Type 0 where
  pub max_connections : ℤ
  pub buffer_connections : ℤ
  pub max_collaborators : ℤ

unfoldable pub calculate_soft_limit : ℤ → ℤ → ℤ
calculate_soft_limit max buffer = if ltb_ℤ max (double_ℤ buffer) then max else minus_ℤ max buffer

abbrev pub same_client : Option Text → Text → Bool
same_client none wp_client_id = false
same_client (some c) wp_client_id = c === wp_client_id

unfoldable pub has_client : List WebSocketWithIdentity → Text → Bool
unfolding ◌===◌
has_client [] wp_client_id = false
has_client (ws ∷ clients) wp_client_id =
    same_client ws.wp_client_id wp_client_id || has_client clients wp_client_id

unfoldable pub is_client_active : List WebSocketWithIdentity → Option Text → Bool
unfolding has_client
is_client_active clients none = false
is_client_active clients (some wp_client_id) =
    if length wp_client_id == 0 then false else has_client clients wp_client_id

abbrev pub get_active_connection_count : List WebSocketWithIdentity → ℕ
get_active_connection_count clients = length clients

-- The Set of the values of wpClientId, where `undefined` counts too.
abbrev same_value : Option Text → Option Text → Bool
same_value none none = true
same_value none (some t) = false
same_value (some s) none = false
same_value (some s) (some t) = s === t

unfoldable pub contains_client : List (Option Text) → Option Text → Bool
unfolding ◌===◌
contains_client [] c = false
contains_client (d ∷ ids) c = same_value d c || contains_client ids c

unfoldable pub client_ids : List WebSocketWithIdentity → List (Option Text)
unfolding contains_client
client_ids [] = []
client_ids (ws ∷ clients) =
    let ids = client_ids clients in
    if contains_client ids ws.wp_client_id then ids else ws.wp_client_id ∷ ids

unfoldable pub get_active_client_count : List WebSocketWithIdentity → ℕ
unfolding client_ids
get_active_client_count clients = length (client_ids clients)

unfoldable pub should_allow_connection : Config → List WebSocketWithIdentity → Option Text → Bool
unfolding calculate_soft_limit is_client_active
should_allow_connection config clients wp_client_id =
    if is_minus_one config.max_connections
    then true
    else let current_total_connections = pos (get_active_connection_count clients) in
      let soft_limit = calculate_soft_limit config.max_connections config.buffer_connections in
      if ltb_ℤ config.max_connections current_total_connections
      then false
      else not (
          ltb_ℤ soft_limit current_total_connections && not (is_client_active clients wp_client_id))

abbrev pub same_user : Option ℕ → ℕ → Bool
same_user none user_id = false
same_user (some u) user_id = u == user_id

unfoldable pub has_user : List WebSocketWithIdentity → ℕ → Bool
has_user [] user_id = false
has_user (ws ∷ clients) user_id = same_user ws.user_id user_id || has_user clients user_id

abbrev pub is_user_active : List WebSocketWithIdentity → Option ℕ → Bool
is_user_active clients none = false
is_user_active clients (some user_id) = has_user clients user_id

-- The Set `userIds`, whose order is not read, and its size.
unfoldable pub contains_id : List ℕ → ℕ → Bool
contains_id [] u = false
contains_id (v ∷ ids) u = v == u || contains_id ids u

abbrev pub add_id : Option ℕ → List ℕ → List ℕ
add_id none ids = ids
add_id (some u) ids = if contains_id ids u then ids else u ∷ ids

unfoldable pub user_ids : List WebSocketWithIdentity → List ℕ
unfolding contains_id
user_ids [] = []
user_ids (ws ∷ clients) = add_id ws.user_id (user_ids clients)

unfoldable pub get_active_collaborator_count : List WebSocketWithIdentity → ℕ
unfolding user_ids
get_active_collaborator_count clients = length (user_ids clients)

unfoldable pub should_allow_collaborator_with_limit :
    List WebSocketWithIdentity → Option ℕ → ℤ → Bool
unfolding has_user get_active_collaborator_count
should_allow_collaborator_with_limit clients none max_collaborators = false
should_allow_collaborator_with_limit clients (some user_id) max_collaborators =
    if is_minus_one max_collaborators
    then true
    else if is_user_active clients (some user_id)
    then true
    else ltb_ℤ (pos (get_active_collaborator_count clients)) max_collaborators

unfoldable pub should_allow_collaborator : Config → List WebSocketWithIdentity → Option ℕ → Bool
unfolding should_allow_collaborator_with_limit
should_allow_collaborator config clients user_id =
    should_allow_collaborator_with_limit clients user_id config.max_collaborators
