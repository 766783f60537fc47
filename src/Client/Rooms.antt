-- ===== src/Client/Rooms.antt =====
-- src/websocket-client.ts with src/yjs-shim.ts: which objects get a room, the room's name, and the rooms
-- that the page reports on the heartbeat.
pub mod Names
pub mod Heartbeat
mod Examples
use vip_real_time_collaborat.Base.{
  ℕ, zero, suc, ◌+◌, ◌-◌, ◌*◌, Bool, true, false, not, ◌&&◌, ◌||◌, Option, none, some, List, [],
  ◌∷◌, ◌++◌, ◌==◌, leb, length, if◌then◌else◌,
}
use vip_real_time_collaborat.Base.Text.{Text, text, starts_with, or_text}
use vip_real_time_collaborat.Base.Integers.{ℤ, pos, negsuc}
use vip_real_time_collaborat.Base.ParseInt.{parse_int}

abbrev is_falsy : Option ℤ → Bool
is_falsy none = true
is_falsy (some (pos n)) = n == 0
is_falsy (some (negsuc n)) = false

-- isUnsupportedObjectType.
unfoldable pub is_unsupported_object_type : Text → Option Text → Bool
unfolding parse_int
is_unsupported_object_type object_type none = false
is_unsupported_object_type object_type (some object_id) =
    not (starts_with (text "postType/") object_type) || is_falsy (parse_int object_id)

-- For the blog's id as it is printed, if there is one.
unfoldable pub room_name : Option Text → Text → Option Text → Text
room_name blog_id object_type object_id =
    text "site-"
    ++ (or_text blog_id (text "1")
        ++ (text "/" ++ (object_type ++ (text "-" ++ or_text object_id (text "collection")))))

-- What the provider creator comes to: the default result, or a provider for a room.
pub data Creation : Type 0 where
  no_yjs_module unsupported_object : Creation
  room : Text → Creation

-- The shim's module and the creator up to the construction of the provider. Modules are named by
-- numbers; `given` is the option Y.
pub record Shim : Type 0 where
  pub yjs_module : Option ℕ

abbrev set_yjs_module : ℕ → Shim → Shim
set_yjs_module y shim = record { yjs_module = some y }

abbrev pub is_yjs_module_set : Shim → Bool
is_yjs_module_set shim = elim shim.yjs_module [ none ↦ false | some y ↦ true ]

abbrev choose_room : Option Text → Text → Option Text → Creation
choose_room blog_id object_type object_id =
    if is_unsupported_object_type object_type object_id
    then unsupported_object
    else room (room_name blog_id object_type object_id)

unfoldable pub create_provider :
    Option Text → Option ℕ → Text → Option Text → Shim → Creation × Shim
unfolding is_unsupported_object_type room_name
create_provider blog_id (some y) object_type object_id shim =
    (choose_room blog_id object_type object_id, set_yjs_module y shim)
create_provider blog_id none object_type object_id shim =
    if not (is_yjs_module_set shim)
    then (no_yjs_module, shim)
    else (choose_room blog_id object_type object_id, shim)

-- A key of the Map openRooms; `none` is NaN, which a Map takes for equal to itself.
abbrev pub PostKey : Type 0
PostKey = Option ℕ

unfoldable pub same_key : PostKey → PostKey → Bool
same_key none none = true
same_key none (some n) = false
same_key (some m) none = false
same_key (some m) (some n) = m == n

unfoldable pub room_of : PostKey → List (PostKey × ℕ) → Option ℕ
unfolding same_key
room_of k [] = none
room_of k ((j, p) ∷ m) = if same_key j k then some p else room_of k m

unfoldable pub set_room : PostKey → ℕ → List (PostKey × ℕ) → List (PostKey × ℕ)
unfolding same_key
set_room k p [] = (k, p) ∷ []
set_room k p ((j, q) ∷ m) =
    let rest = set_room k p m in if same_key j k then (j, p) ∷ m else (j, q) ∷ rest

unfoldable pub delete_room : PostKey → List (PostKey × ℕ) → List (PostKey × ℕ)
unfolding same_key
delete_room k [] = []
delete_room k ((j, q) ∷ m) = let rest = delete_room k m in if same_key j k then m else (j, q) ∷ rest

abbrev post_id : Text → Option Text → Option ℤ
post_id object_type object_id =
    if starts_with (text "postType/") object_type
    then parse_int (or_text object_id [])
    else some (pos 0)

-- The key of a post id, unless `postId <= 0`, which NaN is not.
abbrev key_unless : Option ℤ → Option PostKey
key_unless none = some none
key_unless (some (pos n)) = if n == 0 then none else some (some n)
key_unless (some (negsuc n)) = none

unfoldable pub presence_key : Text → Option Text → Option PostKey
unfolding parse_int
presence_key object_type object_id = key_unless (post_id object_type object_id)

-- openRooms, with providers named by numbers, and how often addToHeartbeat has been added.
pub record OpenRooms : Type 0 where
  pub rooms : List (PostKey × ℕ)
  pub heartbeat_actions : ℕ

unfoldable pub no_rooms : OpenRooms
no_rooms = record { rooms = []; heartbeat_actions = 0 }

abbrev open_presence : ℕ → Option PostKey → OpenRooms → OpenRooms
open_presence provider none s = s
open_presence provider (some k) s = record {
  rooms = set_room k provider s.rooms;
  heartbeat_actions = if s.heartbeat_actions == 0 then 1 else s.heartbeat_actions;
}

unfoldable pub setup_room_presence : ℕ → Text → Option Text → OpenRooms → OpenRooms
unfolding presence_key set_room
setup_room_presence provider object_type object_id s =
    open_presence provider (presence_key object_type object_id) s

abbrev forget_room : Option PostKey → OpenRooms → OpenRooms
forget_room none s = s
forget_room (some k) s = record s { rooms = delete_room k s.rooms }

-- The function that setupRoomPresence returns.
unfoldable pub cleanup_room_presence : Text → Option Text → OpenRooms → OpenRooms
unfolding presence_key delete_room
cleanup_room_presence object_type object_id s = forget_room (presence_key object_type object_id) s

-- The keys of the rooms whose provider is connected.
unfoldable pub connected_keys : (ℕ → Bool) → List (PostKey × ℕ) → List PostKey
connected_keys wsconnected [] = []
connected_keys wsconnected ((k, p) ∷ m) =
    let rest = connected_keys wsconnected m in if wsconnected p then k ∷ rest else rest

-- addToHeartbeat: what it adds to the payload, if anything.
unfoldable pub add_to_heartbeat : (ℕ → Bool) → OpenRooms → Option (List PostKey)
unfolding connected_keys
add_to_heartbeat wsconnected s =
    let post_ids = connected_keys wsconnected s.rooms in
    if length post_ids == 0 then none else some post_ids

pub data RoomEvent : Type 0 where
  opened : ℕ → Text → Option Text → RoomEvent
  cleaned : Text → Option Text → RoomEvent

-- The events, newest first.
unfoldable pub open_rooms : List RoomEvent → OpenRooms
unfolding setup_room_presence cleanup_room_presence no_rooms
open_rooms [] = no_rooms
open_rooms (opened provider object_type object_id ∷ es) =
    setup_room_presence provider object_type object_id (open_rooms es)
open_rooms (cleaned object_type object_id ∷ es) =
    cleanup_room_presence object_type object_id (open_rooms es)
