-- ===== src/Client/RoomLimit/Examples.antt =====
-- src/utilities/room-client-limit.ts on concrete rooms.
use vip_real_time_collaborat.Base.{ℕ, ◌≡◌, refl, true, false, none, some, List, [], ◌∷◌, arith}
use vip_real_time_collaborat.Client.RoomLimit.{
  at, infinity, RoomLimitPresence, AwarenessState, no_info, info, read_presences,
  is_local_client_within_limit,
}
use vip_real_time_collaborat.Client.RoomLimit.Sorting.{tally}
use vip_real_time_collaborat.Client.RoomLimit.Quota.{tally-is_local_client_within_limit}

abbrev states : List (ℕ × AwarenessState)
states = (7, info (some 30)) ∷ (4, no_info) ∷ (9, info none) ∷ (2, info (some 30)) ∷ []

abbrev first : RoomLimitPresence
first = record { client_id = 7; joined_at = at 30 }

abbrev second : RoomLimitPresence
second = record { client_id = 2; joined_at = at 30 }

read_states :
    read_presences states ≡ first ∷ record { client_id = 9; joined_at = infinity } ∷ second ∷ []
unfolding read_presences
read_states = refl

-- The tie at time 30 goes to the smaller id; the connection without a join time is last.
decisions :
    (is_local_client_within_limit (read_presences states) 2 1 ≡ true)
    × ((is_local_client_within_limit (read_presences states) 7 1 ≡ false)
        × ((is_local_client_within_limit (read_presences states) 7 2 ≡ true)
            × ((is_local_client_within_limit (read_presences states) 9 2 ≡ false)
                × (is_local_client_within_limit (read_presences states) 4 1 ≡ true))))
unfolding read_presences is_local_client_within_limit
decisions = (refl, (refl, (refl, (refl, refl))))

tally-is_local_client_within_limit_example :
    tally
      (λ p. is_local_client_within_limit (read_presences states) p.client_id 2)
      (read_presences states)
    ≡ 2
unfolding read_presences
tally-is_local_client_within_limit_example =
    tally-is_local_client_within_limit states 2
      (
        (λ e. omega arith, (λ e. omega arith, (λ e. omega arith, tt))),
        ((λ e. omega arith, (λ e. omega arith, tt)), ((λ e. omega arith, tt), (tt, tt))),
      )
      refl
