-- ===== src/Auth/Paths.antt =====
-- websocket-server/auth.ts and utils.ts: the path of a room's own URL names the room.
use vip_real_time_collaborat.Base.{
  ℕ, ◌≡◌, ◌≢◌, refl, ◌⊎◌, ◌↔◌, inl, inr, Bool, true, false, some, [], ◌∷◌, ◌++◌, arith, All,
}
use vip_real_time_collaborat.Base.Text.{starts_with, Text, text, ◌===◌, ===_iff}
use vip_real_time_collaborat.Auth.{
  SyncTokenPayload, before_question, strip_slashes, raw_pathname, get_request_pathname,
  room_name_from_path, validate_legacy_room_path,
}

before_question-append :
    (path query : Text) → All (λ c. c ≢ b'?') path → before_question (path ++ b'?' ∷ query) ≡ path
unfolding before_question
before_question-append [] query a = refl
before_question-append (c ∷ path) query a =
    ground (arith, a.0, before_question-append path query a.1)

strip_slashes_cons :
    (c : ℕ) (s : Text) → s ≢ [] → strip_slashes s ≡ s → strip_slashes (c ∷ s) ≡ c ∷ s
unfolding strip_slashes
strip_slashes_cons c [] n h = absurd (n refl)
strip_slashes_cons c (d ∷ s) n h = rw h refl

strip_slashes-append : (p s : Text) → s ≢ [] → strip_slashes s ≡ s → strip_slashes (p ++ s) ≡ p ++ s
strip_slashes-append [] s n h = h
strip_slashes-append (c ∷ []) s n h = strip_slashes_cons c s n h
strip_slashes-append (c ∷ d ∷ p) s n h =
    strip_slashes_cons c (d ∷ p ++ s) (λ e. ground (arith, e)) (strip_slashes-append (d ∷ p) s n h)

get_request_pathname_path :
    (path query : Text)
    → path ≢ []
    → strip_slashes path ≡ path
    → All (λ c. c ≢ b'?') path
    → get_request_pathname (some (path ++ b'?' ∷ query)) ≡ path
unfolding get_request_pathname raw_pathname
get_request_pathname_path [] query n h a = absurd (n refl)
get_request_pathname_path (c ∷ path) query n h a =
    ground (arith, before_question-append (c ∷ path) query a, h)

-- The path of a room, with the proxy's prefix or without it.
abbrev pub room_path : Bool → Text → Text
room_path true room = text "/_ws/" ++ room
room_path false room = text "/" ++ room

no_question :
    (b : Bool) (room : Text) → All (λ c. c ≢ b'?') room → All (λ c. c ≢ b'?') (room_path b room)
no_question true room a = (
  λ e. ground arith,
  (λ e. ground arith, (λ e. ground arith, (λ e. ground arith, (λ e. ground arith, a)))),
)
no_question false room a = (λ e. ground arith, a)

named : (room : Text) → room ≢ [] → (room === []) ≡ false
unfolding ◌===◌
named [] n = absurd (n refl)
named (c ∷ room) n = refl

-- A room name that neither is nor starts like the proxy's prefix.
abbrev pub IsUnprefixed : Text → Type 0
IsUnprefixed room = ((room === text "_ws") ≡ false) × (starts_with (text "_ws/") room ≡ false)

-- A request for a room's own URL, `/_ws/<room>?…` or `/<room>?…`, is let in under a grant exactly when
-- the grant names the room: for a room name that is not empty, holds no `?`, does not end in a slash,
-- and, without the prefix, is not itself `_ws` or under it.
pub validate_legacy_room_path_iff :
    (b : Bool) (room query : Text) (payload : SyncTokenPayload)
    → room ≢ []
    → strip_slashes room ≡ room
    → All (λ c. c ≢ b'?') room
    → ((b ≡ true) ⊎ IsUnprefixed room)
    → (validate_legacy_room_path (some (room_path b room ++ b'?' ∷ query)) payload ≡ true)
      ↔ (payload.room_name ≡ room)
unfolding validate_legacy_room_path room_name_from_path
validate_legacy_room_path_iff true room query payload n h a u =
    rw
      (get_request_pathname_path (room_path true room) query (λ e. ground (arith, e))
        (strip_slashes-append (text "/_ws/") room n h) (no_question true room a))
      (===_iff payload.room_name room)
validate_legacy_room_path_iff false room query payload n h a u =
    rw
      (get_request_pathname_path (room_path false room) query (λ e. ground (arith, e))
        (strip_slashes-append (text "/") room n h) (no_question false room a))
      (elim u [
        | inl e ↦ absurd (ground (arith, e))
        | inr w ↦ rw (named room n, w.0, w.1) (===_iff payload.room_name room)
      ])
