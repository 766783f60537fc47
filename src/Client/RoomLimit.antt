-- ===== src/Client/RoomLimit.antt =====
-- src/utilities/room-client-limit.ts: which connections keep their place in a room.
pub mod Sorting
pub mod Ranks
pub mod Quota
mod Examples
use vip_real_time_collaborat.Base.{
  ℕ, zero, suc, ◌+◌, Bool, true, false, not, ◌&&◌, Option, none, some, List, [], ◌∷◌, ltb, leb,
  ◌==◌, if◌then◌else◌,
}

-- A time in milliseconds, or `Number.POSITIVE_INFINITY`.
pub data JoinTime : Type 0 where
  at : ℕ → JoinTime
  infinity : JoinTime

pub record RoomLimitPresence : Type 0 where
  pub client_id : ℕ
  pub joined_at : JoinTime

-- A client's state as far as it is read: no `collaboratorInfo` object, or one whose `enteredAt` is a
-- number or is none.
pub data AwarenessState : Type 0 where
  no_info : AwarenessState
  info : Option ℕ → AwarenessState

abbrev pub joined : Option ℕ → JoinTime
joined none = infinity
joined (some t) = at t

unfoldable pub read_presences : List (ℕ × AwarenessState) → List RoomLimitPresence
read_presences [] = []
read_presences ((client_id, no_info) ∷ states) = read_presences states
read_presences ((client_id, info entered_at) ∷ states) =
    record { client_id = client_id; joined_at = joined entered_at } ∷ read_presences states

-- Whether byJoinOrder is at most 0: `a.joinedAt - b.joinedAt || a.clientId - b.clientId`, where
-- Infinity - Infinity is NaN, which is falsy.
unfoldable pub in_join_order : RoomLimitPresence → RoomLimitPresence → Bool
in_join_order a b = elim a.joined_at [
  | at t ↦ elim b.joined_at [
    | at u ↦ if t == u then leb a.client_id b.client_id else ltb t u
    | infinity ↦ true
  ]
  | infinity ↦ elim b.joined_at [ at u ↦ false | infinity ↦ leb a.client_id b.client_id ]
]

-- Array.prototype.sort, which is stable.
unfoldable pub insert_sorted : RoomLimitPresence → List RoomLimitPresence → List RoomLimitPresence
unfolding in_join_order
insert_sorted p [] = p ∷ []
insert_sorted p (q ∷ qs) = if in_join_order p q then p ∷ q ∷ qs else q ∷ insert_sorted p qs

unfoldable pub sort : List RoomLimitPresence → List RoomLimitPresence
unfolding insert_sorted
sort [] = []
sort (p ∷ ps) = insert_sorted p (sort ps)

-- findIndex; `none` is -1.
unfoldable pub rank_of : ℕ → List RoomLimitPresence → Option ℕ
rank_of id [] = none
rank_of id (p ∷ ps) =
    if p.client_id == id
    then some 0
    else elim (rank_of id ps) [ none ↦ none | some r ↦ some (suc r) ]

-- A limit of the model is a finite number, and not negative.
abbrev pub is_limit_enforced : ℕ → Bool
is_limit_enforced limit = ltb 0 limit

unfoldable pub is_local_client_within_limit : List RoomLimitPresence → ℕ → ℕ → Bool
unfolding sort rank_of
is_local_client_within_limit presences local_client_id limit =
    if not (is_limit_enforced limit)
    then true
    else elim (rank_of local_client_id (sort presences)) [ none ↦ true | some r ↦ ltb r limit ]
