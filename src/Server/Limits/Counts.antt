-- ===== src/Server/Limits/Counts.antt =====
-- websocket-server/connection-limits.ts: what joining and leaving do to the counts.
use vip_real_time_collaborat.Base.{
  Option-cases, inl, inr, ℕ, ◌+◌, ◌≤◌, ◌≡◌, refl, true, false, not, ◌&&◌, ◌||◌, Option, none, some,
  List, [], ◌∷◌, arith, length, ◌==◌, if◌then◌else◌,
}
use vip_real_time_collaborat.Server.Limits.{
  WebSocketWithIdentity, has_user, contains_id, user_ids, get_active_collaborator_count, same_user,
  add_id,
}

-- The Set `wss.clients` without a socket.
unfoldable pub leave : ℕ → List WebSocketWithIdentity → List WebSocketWithIdentity
leave id [] = []
leave id (ws ∷ clients) = if ws.id == id then clients else ws ∷ leave id clients

-- How many sockets carry an identity.
unfoldable pub admitted : List WebSocketWithIdentity → ℕ
admitted [] = 0
admitted (ws ∷ clients) = elim ws.user_id [ none ↦ 0 | some u ↦ 1 ] + admitted clients

pub admitted-length : (clients : List WebSocketWithIdentity) → admitted clients ≤ length clients
unfolding admitted
admitted-length [] = omega arith
admitted-length (ws ∷ clients) = ground (arith, admitted-length clients)

pub admitted-leave :
    (id : ℕ) (clients : List WebSocketWithIdentity) → admitted (leave id clients) ≤ admitted clients
unfolding leave admitted
admitted-leave id [] = omega arith
admitted-leave id (ws ∷ clients) = ground (arith, admitted-leave id clients)

-- The set of user ids has exactly the users that are active.
contains_id-user_ids :
    (clients : List WebSocketWithIdentity) (u : ℕ)
    → contains_id (user_ids clients) u ≡ has_user clients u
unfolding contains_id user_ids has_user
contains_id-user_ids [] u = refl
contains_id-user_ids (ws ∷ clients) u =
    elim ws.user_id
      as (λ o.
        contains_id (add_id o (user_ids clients)) u ≡ (same_user o u || has_user clients u)) [
          | none ↦ contains_id-user_ids clients u
          | some v ↦ ground (arith, contains_id-user_ids clients u, contains_id-user_ids clients v)
        ]

abbrev pub new_user : List WebSocketWithIdentity → Option ℕ → ℕ
new_user clients none = 0
new_user clients (some u) = if has_user clients u then 0 else 1

pub get_active_collaborator_count_cons :
    (ws : WebSocketWithIdentity) (clients : List WebSocketWithIdentity)
    → get_active_collaborator_count (ws ∷ clients)
      ≡ new_user clients ws.user_id + get_active_collaborator_count clients
unfolding get_active_collaborator_count
get_active_collaborator_count_cons ws clients =
    elim ws.user_id
      as (λ o.
        length (add_id o (user_ids clients)) ≡ new_user clients o + length (user_ids clients)) [
          | none ↦ omega arith
          | some u ↦ ground (arith, contains_id-user_ids clients u)
        ]

unfoldable user_of : ℕ → List WebSocketWithIdentity → Option ℕ
user_of id [] = none
user_of id (ws ∷ clients) = if ws.id == id then ws.user_id else user_of id clients

lost_user :
    (id : ℕ) (clients : List WebSocketWithIdentity) (u : ℕ)
    → has_user clients u ≡ true
    → has_user (leave id clients) u ≡ false
    → user_of id clients ≡ some u
unfolding leave has_user user_of
lost_user id [] u h k = absurd cc
lost_user id (ws ∷ clients) u h k = ground (arith, lost_user id clients u)

-- Whether the user is active only through the socket that leaves.
abbrev gone : ℕ → List WebSocketWithIdentity → ℕ → ℕ
gone id clients u = if has_user clients u && not (has_user (leave id clients) u) then 1 else 0

gone_same :
    (id : ℕ) (clients : List WebSocketWithIdentity) (u v : ℕ)
    → has_user clients u ≡ true
    → has_user (leave id clients) u ≡ false
    → has_user clients v ≡ true
    → has_user (leave id clients) v ≡ false
    → u ≡ v
gone_same id clients u v h k h' k' =
    ground (arith, lost_user id clients u h k, lost_user id clients v h' k')

leave-gone :
    (id : ℕ) (clients : List WebSocketWithIdentity) (u : ℕ)
    → get_active_collaborator_count (leave id clients) + gone id clients u
      ≤ get_active_collaborator_count clients
unfolding leave has_user
leave-gone id [] u = omega arith
leave-gone id (ws ∷ clients) u = elim (Option-cases ws.user_id) [
  | inl e ↦ ground (
    arith,
    e,
    get_active_collaborator_count_cons ws clients,
    get_active_collaborator_count_cons ws (leave id clients),
    leave-gone id clients u,
  )
  | inr (v, e) ↦ ground (
    arith,
    e,
    get_active_collaborator_count_cons ws clients,
    get_active_collaborator_count_cons ws (leave id clients),
    leave-gone id clients u,
    leave-gone id clients v,
    gone_same id clients u v,
  )
]

-- A socket that leaves adds no collaborator.
pub get_active_collaborator_count-leave :
    (id : ℕ) (clients : List WebSocketWithIdentity)
    → get_active_collaborator_count (leave id clients) ≤ get_active_collaborator_count clients
get_active_collaborator_count-leave id clients = omega (arith, leave-gone id clients 0)
