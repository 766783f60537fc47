-- ===== src/Auth/Examples.antt =====
-- websocket-server/auth.ts on a concrete request.
use vip_real_time_collaborat.Base.{◌≡◌, ◌≢◌, ◌↔◌, refl, inl, arith, true, Option, none, some, []}
use vip_real_time_collaborat.Base.Text.{Text, text}
use vip_real_time_collaborat.Packages.{string, number, undefined, claims, Jwt}
use vip_real_time_collaborat.Auth.{
  SyncTokenPayload, is_request_authenticated, request_query, strip_slashes,
  validate_legacy_room_path,
}
use vip_real_time_collaborat.Auth.Paths.{validate_legacy_room_path_iff}
use vip_real_time_collaborat.Auth.Tokens.{Signed, is_request_authenticated-Signed}

abbrev jwt : Jwt
jwt = record {
  verify = λ t s ignore. claims record {
    blog_id = number 1;
    user_id = number 5;
    username = string (text "ann");
    room_name = string (text "r");
    wp_client_id = undefined;
    connection_id = string (text "c");
  };
}

abbrev payload : SyncTokenPayload
payload = record {
  blog_id = 1;
  connection_id = some (text "c");
  room_name = text "r";
  user_id = 5;
  username = text "ann";
  wp_client_id = none;
}

abbrev search_get : Text → Option Text
search_get query = some query

is_request_authenticated-Signed_example :
    (token : Text) × ((search_get (request_query (some (text "/r?t"))) ≡ some token)
      × ((token ≢ []) × Signed jwt token (text "s") payload))
unfolding is_request_authenticated
is_request_authenticated-Signed_example =
    is_request_authenticated-Signed jwt search_get (some (text "/r?t")) (text "s") payload refl

validate_legacy_room_path_iff_example :
    (validate_legacy_room_path (some (text "/_ws/a/b?auth=t")) payload ≡ true)
    ↔ (payload.room_name ≡ text "a/b")
unfolding strip_slashes
validate_legacy_room_path_iff_example =
    validate_legacy_room_path_iff true (text "a/b") (text "auth=t") payload (λ e. ground (arith, e))
      refl (λ e. ground arith, (λ e. ground arith, (λ e. ground arith, tt))) (inl refl)
