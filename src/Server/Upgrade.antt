-- ===== src/Server/Upgrade.antt =====
-- websocket-server/server.ts: the listener of `upgrade`, from the headers to the call of handleUpgrade.
pub mod Routes
use vip_real_time_collaborat.Base.{
  ℕ, suc, ◌+◌, Bool, true, false, not, ◌&&◌, ◌||◌, Option, none, some, List, [], ◌∷◌, ◌++◌, ◌==◌,
  ltb, leb, length, if◌then◌else◌,
}
use vip_real_time_collaborat.Base.Text.{Text, text, ◌===◌}
use vip_real_time_collaborat.Base.Maps.{contains}
use vip_real_time_collaborat.Packages.{Jwt}
use vip_real_time_collaborat.Auth.{
  SyncTokenPayload, AuthResult, authenticated, missing_token, invalid_token,
  is_request_authenticated, get_request_pathname, validate_legacy_room_path,
}
use vip_real_time_collaborat.Server.Limits.{
  WebSocketWithIdentity, Config, should_allow_collaborator, should_allow_connection,
  get_active_collaborator_count,
}

abbrev pub multiplex_subprotocol : Text
multiplex_subprotocol = text "vip-rtc-multiplex-v1"

-- The header `sec-websocket-protocol`.
pub data Header : Type 0 where
  absent : Header
  single : Text → Header
  several : List Text → Header

-- `join( ',' )`.
unfoldable pub join_comma : List Text → Text
join_comma [] = []
join_comma (t ∷ []) = t
join_comma (t ∷ u ∷ ts) = t ++ b',' ∷ join_comma (u ∷ ts)

-- `split( ',' )`: the field that ends at the first comma, and the fields after it.
unfoldable pub split_comma : Text → List Text
split_comma [] = [] ∷ []
split_comma (c ∷ s) =
    let rest = split_comma s in
    if c == b','
    then [] ∷ rest
    else elim rest [ [] ↦ (c ∷ []) ∷ [] | field ∷ fields ↦ (c ∷ field) ∷ fields ]

-- The characters that `trim` removes, up to U+00FF, the last that a header can hold.
abbrev pub is_white_space : ℕ → Bool
is_white_space c = (leb 9 c && leb c 13) || (c == 32 || c == 160)

unfoldable pub trim_start : Text → Text
trim_start [] = []
trim_start (c ∷ s) = if is_white_space c then trim_start s else c ∷ s

unfoldable pub trim_end : Text → Text
trim_end [] = []
trim_end (c ∷ s) = elim (trim_end s) [
  | [] ↦ if is_white_space c then [] else c ∷ []
  | d ∷ r ↦ c ∷ d ∷ r
]

-- `map( trim ).filter( Boolean )`.
unfoldable pub trimmed : List Text → List Text
unfolding trim_start trim_end
trimmed [] = []
trimmed (t ∷ ts) =
    let protocol = trim_end (trim_start t) in
    if length protocol == 0 then trimmed ts else protocol ∷ trimmed ts

unfoldable pub requested_protocols : Header → List Text
unfolding join_comma split_comma trimmed
requested_protocols absent = []
requested_protocols (single header) =
    if length header == 0 then [] else trimmed (split_comma header)
requested_protocols (several headers) = trimmed (split_comma (join_comma headers))

-- The labels of `recordConnectionFailure`.
pub data Failure : Type 0 where
  unsupported_subprotocol missing_auth_token invalid_auth_token : Failure
  invalid_multiplex_path invalid_token_payload : Failure
  collaborator_limit_exceeded connection_limit_exceeded : Failure

pub data HttpStatus : Type 0 where
  bad_request unauthorized : HttpStatus

-- rejectHttpUpgrade with the failure recorded, or handleUpgrade with the grant.
pub data Decision : Type 0 where
  reject : HttpStatus → Failure → Decision
  handle_upgrade : SyncTokenPayload → Decision

pub record Request : Type 0 where
  pub url : Option Text
  pub sec_websocket_protocol : Header

module _ (j : Jwt) (search_get : Text → Option Text) (secret : Text) where
  -- The test of the path, under a grant.
  unfoldable pub check_path : Request → Bool → SyncTokenPayload → Decision
  unfolding get_request_pathname validate_legacy_room_path ◌===◌
  check_path request is_multiplex grant =
      if is_multiplex
      then (if get_request_pathname request.url === text "/_ws/vip-rtc"
          then handle_upgrade grant
          else reject bad_request invalid_multiplex_path)
      else if validate_legacy_room_path request.url grant
      then handle_upgrade grant
      else reject unauthorized invalid_token_payload

  -- The listener of `upgrade` up to handleUpgrade.
  unfoldable pub upgrade : Request → Decision
  unfolding requested_protocols contains is_request_authenticated check_path
  upgrade request =
      let protocols = requested_protocols request.sec_websocket_protocol in
      let is_multiplex = contains multiplex_subprotocol protocols in
      if not (length protocols == 0) && not is_multiplex
      then reject bad_request unsupported_subprotocol
      else elim (is_request_authenticated j search_get request.url secret) [
        | authenticated grant ↦ check_path request is_multiplex grant
        | missing_token ↦ reject unauthorized missing_auth_token
        | invalid_token ↦ reject unauthorized invalid_auth_token
      ]
