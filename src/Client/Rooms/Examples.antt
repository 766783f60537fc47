-- ===== src/Client/Rooms/Examples.antt =====
-- src/websocket-client.ts: rooms on concrete objects.
use vip_real_time_collaborat.Base.{
  ℕ, ◌≤◌, ◌≡◌, ◌⊎◌, refl, Bool, none, some, List, [], ◌∷◌, ◌==◌, if◌then◌else◌,
}
use vip_real_time_collaborat.Base.Text.{Text, text}
use vip_real_time_collaborat.Base.Integers.{pos, negsuc}
use vip_real_time_collaborat.Base.ParseInt.{parse_int}
use vip_real_time_collaborat.Client.Rooms.{
  create_provider, Shim, no_yjs_module, unsupported_object, room, add_to_heartbeat, RoomEvent,
  opened, open_rooms,
}
use vip_real_time_collaborat.Client.Rooms.Names.{IsId, room_name_injective}
use vip_real_time_collaborat.Client.Rooms.Heartbeat.{
  count_key, reported, is_connected, owner, count_key-add_to_heartbeat,
}

abbrev post : Text
post = text "postType/post"

abbrev page : Text
page = text "postType/page"

numbers :
    (parse_int (text " 42px") ≡ some (pos 42))
    × ((parse_int (text "-7") ≡ some (negsuc 6)) × (parse_int (text "px") ≡ none))
unfolding parse_int
numbers = (refl, (refl, refl))

abbrev no_module : Shim
no_module = record { yjs_module = none }

creations :
    ((create_provider none none post (some (text "5")) no_module).0 ≡ no_yjs_module)
    × (((create_provider none (some 1) (text "taxonomy/tag") (some (text "5")) no_module).0
          ≡ unsupported_object)
        × ((create_provider (some (text "3")) (some 1) post none no_module).0
            ≡ room (text "site-3/postType/post-collection")))
unfolding create_provider
creations = (refl, (refl, refl))

-- Two posts are open, one of them is opened again by another provider, newest first.
abbrev events : List RoomEvent
events =
    opened 3 post (some (text "5"))
    ∷ opened 2 page (some (text "8"))
    ∷ opened 1 post (some (text "5"))
    ∷ []

abbrev connected : ℕ → Bool
connected p = p == 3

reports : add_to_heartbeat connected (open_rooms events) ≡ some (some 5 ∷ [])
unfolding add_to_heartbeat open_rooms
reports = refl

-- The room of a collection is reported under NaN.
collection : add_to_heartbeat connected (open_rooms (opened 3 post none ∷ [])) ≡ some (none ∷ [])
unfolding add_to_heartbeat open_rooms
collection = refl

count_key-add_to_heartbeat_example :
    let s = open_rooms events in
    (count_key (some 5) (reported (add_to_heartbeat connected s))
      ≡ (if is_connected connected (owner (some 5) events) then 1 else 0))
    × ((s.rooms ≡ [] × s.heartbeat_actions ≤ 1) ⊎ (s.heartbeat_actions ≡ 1))
count_key-add_to_heartbeat_example = count_key-add_to_heartbeat connected events (some 5)

five-IsId : IsId (some (text "5"))
five-IsId = (refl, λ e. cc)

room_name_injective_example : (post ≡ post) × (some (text "5") ≡ some (text "5"))
room_name_injective_example =
    room_name_injective none post post (some (text "5")) (some (text "5")) five-IsId five-IsId refl
