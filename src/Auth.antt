-- ===== src/Auth.antt =====
-- websocket-server/auth.ts and utils.ts: sync tokens, and the path of a legacy room request.
pub mod Tokens
pub mod Paths
mod Examples
use vip_real_time_collaborat.Base.{
  ℕ, Bool, true, false, not, ◌&&◌, ◌||◌, Option, none, some, List, [], ◌∷◌, length, ◌==◌,
  if◌then◌else◌, drop,
}
use vip_real_time_collaborat.Base.Text.{starts_with, Text, text, ◌===◌}
use vip_real_time_collaborat.Packages.{
  JsValue, undefined, number, string, other, Claims, JwtOutcome, claims, text_payload,
  token_expired, jwt_error, Jwt,
}

pub record SyncTokenPayload : Type 0 where
  pub blog_id : ℕ
  pub connection_id : Option Text
  pub room_name : Text
  pub user_id : ℕ
  pub username : Text
  pub wp_client_id : Option Text

abbrev pub is_number : JsValue → Bool
is_number (number n) = true
is_number _ = false

abbrev pub is_string : JsValue → Bool
is_string (string s) = true
is_string _ = false

abbrev pub is_undefined : JsValue → Bool
is_undefined undefined = true
is_undefined _ = false

abbrev pub is_non_empty_string : JsValue → Bool
is_non_empty_string (string s) = not (length s == 0)
is_non_empty_string _ = false

-- isSyncTokenPayload on an object.
unfoldable pub is_sync_token_payload : Claims → Bool
is_sync_token_payload obj =
    let has_valid_wp_client_id = is_undefined obj.wp_client_id || is_string obj.wp_client_id in
    let has_valid_connection_id = is_undefined obj.connection_id || is_string obj.connection_id in
    is_number obj.blog_id
    && (is_number obj.user_id
        && (is_string obj.username
            && (is_non_empty_string obj.room_name
                && (has_valid_wp_client_id
                    && (has_valid_connection_id
                        && (is_string obj.wp_client_id || is_string obj.connection_id))))))

-- The object at the type that the test has established.
abbrev pub as_number : JsValue → ℕ
as_number (number n) = n
as_number _ = 0

abbrev pub as_string : JsValue → Text
as_string (string s) = s
as_string _ = []

abbrev pub as_optional : JsValue → Option Text
as_optional (string s) = some s
as_optional _ = none

abbrev pub as_sync_token_payload : Claims → SyncTokenPayload
as_sync_token_payload obj = record {
  blog_id = as_number obj.blog_id;
  connection_id = as_optional obj.connection_id;
  room_name = as_string obj.room_name;
  user_id = as_number obj.user_id;
  username = as_string obj.username;
  wp_client_id = as_optional obj.wp_client_id;
}

-- A payload, or what the function throws.
pub data Verified : Type 0 where
  granted : SyncTokenPayload → Verified
  expired : Verified
  invalid : Verified

unfoldable pub checked_payload : JwtOutcome → Verified
unfolding is_sync_token_payload
checked_payload (claims obj) =
    if is_sync_token_payload obj then granted (as_sync_token_payload obj) else invalid
checked_payload text_payload = invalid
checked_payload token_expired = expired
checked_payload jwt_error = invalid

module _ (j : Jwt) where
  -- verifyToken; its first test is of a missing or empty token.
  unfoldable pub verify_token : Text → Text → Bool → Verified
  unfolding checked_payload
  verify_token token secret ignore_expiration =
      if length token == 0
      then invalid
      else checked_payload (j.verify token secret ignore_expiration)

  unfoldable pub verify_token_grant : Text → Text → Verified
  unfolding verify_token
  verify_token_grant token secret = verify_token token secret false

  unfoldable pub verify_token_grant_ignoring_expiration : Text → Text → Verified
  unfolding verify_token
  verify_token_grant_ignoring_expiration token secret = verify_token token secret true

-- `url.split( '?' )[ 0 ]` and `[ 1 ]`.
unfoldable pub before_question : Text → Text
before_question [] = []
before_question (c ∷ s) = if c == b'?' then [] else c ∷ before_question s

unfoldable pub after_question : Text → Option Text
unfolding before_question
after_question [] = none
after_question (c ∷ s) = if c == b'?' then some (before_question s) else after_question s

-- `replace( /\/+$/, '' )`.
unfoldable pub strip_slashes : Text → Text
strip_slashes [] = []
strip_slashes (c ∷ s) = elim (strip_slashes s) [
  | [] ↦ if c == b'/' then [] else c ∷ []
  | d ∷ r ↦ c ∷ d ∷ r
]

-- `url?.split( '?' )[ 0 ] || '/'`; `none` is a request with no url.
unfoldable pub raw_pathname : Option Text → Text
unfolding before_question
raw_pathname none = text "/"
raw_pathname (some url) =
    let path = before_question url in if length path == 0 then text "/" else path

unfoldable pub get_request_pathname : Option Text → Text
unfolding raw_pathname strip_slashes ◌===◌
get_request_pathname url =
    let pathname = raw_pathname url in
    if pathname === text "/" then pathname else strip_slashes pathname

unfoldable pub room_name_from_path : Text → Text
room_name_from_path pathname =
    if starts_with (text "/_ws/") pathname then drop 5 pathname else drop 1 pathname

unfoldable pub validate_legacy_room_path : Option Text → SyncTokenPayload → Bool
unfolding get_request_pathname room_name_from_path
validate_legacy_room_path url payload =
    let pathname = get_request_pathname url in
    if pathname === text "/" || pathname === text "/_ws"
    then false
    else payload.room_name === room_name_from_path pathname

pub data AuthResult : Type 0 where
  authenticated : SyncTokenPayload → AuthResult
  missing_token : AuthResult
  invalid_token : AuthResult

-- The query of a request; `search_get` is `new URLSearchParams( query ).get( 'auth' )`.
abbrev pub request_query : Option Text → Text
request_query none = []
request_query (some url) = elim (after_question url) [ none ↦ [] | some q ↦ q ]

abbrev pub auth_result : Verified → AuthResult
auth_result (granted p) = authenticated p
auth_result expired = invalid_token
auth_result invalid = invalid_token

module _ (j : Jwt) (search_get : Text → Option Text) where
  unfoldable pub is_request_authenticated : Option Text → Text → AuthResult
  unfolding after_question verify_token
  is_request_authenticated url secret = elim (search_get (request_query url)) [
    | none ↦ missing_token
    | some token ↦
        if length token == 0 then missing_token else auth_result (verify_token j token secret false)
  ]
