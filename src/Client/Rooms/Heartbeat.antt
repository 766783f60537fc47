-- ===== src/Client/Rooms/Heartbeat.antt =====
-- src/websocket-client.ts: the Map of open rooms and what the heartbeat reports of it.
use vip_real_time_collaborat.Base.{
  ℕ, ◌+◌, ◌≤◌, ◌⊎◌, ◌≡◌, refl, sym, ap, ◌∙◌, ◌↔◌, inl, inr, Bool, true, false, Option, none, some,
  List, [], ◌∷◌, arith, ◌==◌, ==_iff, length, if◌then◌else◌, Bool-cases,
}
use vip_real_time_collaborat.Client.Rooms.{
  PostKey, same_key, room_of, set_room, delete_room, presence_key, OpenRooms, no_rooms,
  setup_room_presence, cleanup_room_presence, connected_keys, add_to_heartbeat, RoomEvent, opened,
  cleaned, open_rooms, open_presence, forget_room,
}

same_key_iff : (j k : PostKey) → (same_key j k ≡ true) ↔ (j ≡ k)
unfolding same_key
same_key_iff none none = (λ h. refl, λ h. refl)
same_key_iff none (some n) = (λ h. cc, λ h. cc)
same_key_iff (some m) none = (λ h. cc, λ h. cc)
same_key_iff (some m) (some n) = ground (arith, ==_iff m n)

-- The rooms as a function of the key, from the events alone, newest first: an opened room belongs to its
-- provider until a room of the same key is opened or cleaned up.
abbrev is_key : Option PostKey → PostKey → Bool
is_key none k = false
is_key (some j) k = same_key j k

abbrev pub owner : PostKey → List RoomEvent → Option ℕ
owner k [] = none
owner k (opened provider object_type object_id ∷ es) =
    if is_key (presence_key object_type object_id) k then some provider else owner k es
owner k (cleaned object_type object_id ∷ es) =
    if is_key (presence_key object_type object_id) k then none else owner k es

-- How often a key is reported.
abbrev pub count_key : PostKey → List PostKey → ℕ
count_key k [] = 0
count_key k (j ∷ ks) = (if same_key j k then 1 else 0) + count_key k ks

abbrev pub reported : Option (List PostKey) → List PostKey
reported none = []
reported (some ks) = ks

abbrev pub is_connected : (ℕ → Bool) → Option ℕ → Bool
is_connected wsconnected none = false
is_connected wsconnected (some p) = wsconnected p

abbrev Distinct : List (PostKey × ℕ) → Type 0
Distinct [] = Unit {0}
Distinct ((k, p) ∷ m) = (room_of k m ≡ none) × Distinct m

room_of-set_room :
    (j k : PostKey) (p : ℕ) (m : List (PostKey × ℕ))
    → room_of j (set_room k p m) ≡ (if same_key k j then some p else room_of j m)
unfolding room_of set_room
room_of-set_room j k p [] = refl
room_of-set_room j k p ((i, q) ∷ m) =
    ground (arith, room_of-set_room j k p m, same_key_iff i k, same_key_iff i j, same_key_iff k j)

Distinct-set_room :
    (k : PostKey) (p : ℕ) (m : List (PostKey × ℕ)) → Distinct m → Distinct (set_room k p m)
unfolding room_of set_room
Distinct-set_room k p [] d = (refl, tt)
Distinct-set_room k p ((i, q) ∷ m) d =
    ground
      (arith, Distinct-set_room k p m, room_of-set_room i k p m, same_key_iff i k, same_key_iff k i)

room_of-same :
    (j k : PostKey) (m : List (PostKey × ℕ)) → same_key j k ≡ true → room_of j m ≡ room_of k m
room_of-same j k m h = ap (λ i. room_of i m) ((same_key_iff j k).0 h)

room_of-delete_room :
    (j k : PostKey) (m : List (PostKey × ℕ))
    → Distinct m
    → room_of j (delete_room k m) ≡ (if same_key k j then none else room_of j m)
unfolding room_of delete_room
room_of-delete_room j k [] d = ground arith
room_of-delete_room j k ((i, q) ∷ m) d =
    ground (arith, room_of-delete_room j k m, same_key_iff i k, same_key_iff i j, same_key_iff k j)

Distinct-delete_room :
    (k : PostKey) (m : List (PostKey × ℕ)) → Distinct m → Distinct (delete_room k m)
unfolding room_of delete_room
Distinct-delete_room k [] d = tt
Distinct-delete_room k ((i, q) ∷ m) d =
    ground (
      arith,
      Distinct-delete_room k m,
      room_of-delete_room i k m,
      same_key_iff i k,
      same_key_iff k i,
    )

count_absent :
    (wsconnected : ℕ → Bool) (k : PostKey) (m : List (PostKey × ℕ))
    → room_of k m ≡ none
    → count_key k (connected_keys wsconnected m) ≡ 0
unfolding room_of connected_keys
count_absent wsconnected k [] h = refl
count_absent wsconnected k ((i, q) ∷ m) h = ground (arith, count_absent wsconnected k m)

count-connected :
    (wsconnected : ℕ → Bool) (k : PostKey) (m : List (PostKey × ℕ))
    → Distinct m
    → count_key k (connected_keys wsconnected m)
      ≡ (if is_connected wsconnected (room_of k m) then 1 else 0)
unfolding room_of connected_keys
count-connected wsconnected k [] d = refl
count-connected wsconnected k ((i, q) ∷ m) d =
    let rest = count-connected wsconnected k m d.1 in
    let absent = count_absent wsconnected k m in
    elim (Bool-cases (same_key i k)) [
      | inl e ↦ same_first e (absent (sym (room_of-same i k m e) ∙ d.0))
      | inr e ↦ ground (arith, e, rest)
    ]
  where
    same_first :
        same_key i k ≡ true
        → count_key k (connected_keys wsconnected m) ≡ 0
        → count_key k (connected_keys wsconnected ((i, q) ∷ m))
          ≡ (if is_connected wsconnected (room_of k ((i, q) ∷ m)) then 1 else 0)
    same_first e z = elim (Bool-cases (wsconnected q)) [
      | inl c ↦ ground (arith, e, z, c)
      | inr c ↦ ground (arith, e, z, c)
    ]

-- The Map has one room for each key, the ones of a function, and the heartbeat action is there with them.
record Agrees (s : OpenRooms) (own : PostKey → Option ℕ) : Type 0 where
  distinct : Distinct s.rooms
  owners : (k : PostKey) → room_of k s.rooms ≡ own k
  actions : (s.rooms ≡ [] × s.heartbeat_actions ≤ 1) ⊎ (s.heartbeat_actions ≡ 1)

action_once :
    (n : ℕ) (m : List (PostKey × ℕ)) → (m ≡ [] × n ≤ 1) ⊎ (n ≡ 1) → (if n == 0 then 1 else n) ≡ 1
action_once n m (inl (e, h)) = ground (arith, h)
action_once n m (inr h) = ground (arith, h)

open_presence-Agrees :
    (p : ℕ) (o : Option PostKey) (s : OpenRooms) (own : PostKey → Option ℕ)
    → Agrees s own
    → Agrees (open_presence p o s) (λ k. if is_key o k then some p else own k)
open_presence-Agrees p none s own a = a
open_presence-Agrees p (some j) s own a = record {
  distinct = Distinct-set_room j p s.rooms a.distinct;
  owners = λ k. rw (← a.owners k) (room_of-set_room k j p s.rooms);
  actions = inr (action_once s.heartbeat_actions s.rooms a.actions);
}

delete_empty : (j : PostKey) (m : List (PostKey × ℕ)) → m ≡ [] → delete_room j m ≡ []
unfolding delete_room
delete_empty j m e = rw e refl

forget_room-Agrees :
    (o : Option PostKey) (s : OpenRooms) (own : PostKey → Option ℕ)
    → Agrees s own
    → Agrees (forget_room o s) (λ k. if is_key o k then none else own k)
forget_room-Agrees none s own a = a
forget_room-Agrees (some j) s own a = record {
  distinct = Distinct-delete_room j s.rooms a.distinct;
  owners = λ k. rw (← a.owners k) (room_of-delete_room k j s.rooms a.distinct);
  actions = elim a.actions [ inl (e, h) ↦ inl (delete_empty j s.rooms e, h) | inr h ↦ inr h ];
}

open_rooms-Agrees : (es : List RoomEvent) → Agrees (open_rooms es) (λ k. owner k es)
unfolding open_rooms no_rooms setup_room_presence cleanup_room_presence room_of
open_rooms-Agrees [] = record {
  distinct = tt;
  owners = λ k. refl;
  actions = inl (refl, omega arith);
}
open_rooms-Agrees (opened p type id ∷ es) =
    open_presence-Agrees p (presence_key type id) (open_rooms es) (λ k. owner k es)
      (open_rooms-Agrees es)
open_rooms-Agrees (cleaned type id ∷ es) =
    forget_room-Agrees (presence_key type id) (open_rooms es) (λ k. owner k es)
      (open_rooms-Agrees es)

reported-add_to_heartbeat :
    (wsconnected : ℕ → Bool) (s : OpenRooms)
    → reported (add_to_heartbeat wsconnected s) ≡ connected_keys wsconnected s.rooms
unfolding add_to_heartbeat
reported-add_to_heartbeat wsconnected s = go (connected_keys wsconnected s.rooms)
  where
    go : (ks : List PostKey) → reported (if length ks == 0 then none else some ks) ≡ ks
    go [] = refl
    go (k ∷ ks) = ground arith

-- Whatever rooms are opened and cleaned up, the heartbeat reports a post exactly once if the provider that
-- opened its room last, with no clean-up of the room since, is connected, and does not report it otherwise.
-- It is added to the heartbeat at most once, and is there as soon as a room is.
pub count_key-add_to_heartbeat :
    (wsconnected : ℕ → Bool) (es : List RoomEvent) (k : PostKey)
    → let s = open_rooms es in
      (count_key k (reported (add_to_heartbeat wsconnected s))
        ≡ (if is_connected wsconnected (owner k es) then 1 else 0))
      × ((s.rooms ≡ [] × s.heartbeat_actions ≤ 1) ⊎ (s.heartbeat_actions ≡ 1))
count_key-add_to_heartbeat wsconnected es k =
    let a = open_rooms-Agrees es in
    let s = open_rooms es in
    (
      ap (count_key k) (reported-add_to_heartbeat wsconnected s)
          ∙ (count-connected wsconnected k s.rooms a.distinct
              ∙ ap (λ o. if is_connected wsconnected o then 1 else 0) (a.owners k)),
      a.actions,
    )
