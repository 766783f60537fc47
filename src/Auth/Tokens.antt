-- ===== src/Auth/Tokens.antt =====
-- websocket-server/auth.ts: whom a request is authenticated as.
use vip_real_time_collaborat.Base.{
  ◌≡◌, ◌≢◌, refl, inl, inr, Bool, true, false, Option, none, some, [], ◌||◌, arith, length, ◌==◌,
  if◌then◌else◌, Option-cases, Bool-cases,
}
use vip_real_time_collaborat.Base.Text.{Text}
use vip_real_time_collaborat.Packages.{
  JsValue, undefined, number, string, other, JwtOutcome, Claims, claims, text_payload,
  token_expired, jwt_error, Jwt,
}
use vip_real_time_collaborat.Auth.{
  SyncTokenPayload, authenticated, Verified, granted, expired, invalid, as_string, as_optional,
  is_string, is_non_empty_string, is_sync_token_payload, as_sync_token_payload, checked_payload,
  verify_token, auth_result, is_request_authenticated, request_query,
}

-- The token verifies under the secret, its expiry included, and its claims are those of the payload:
-- all of the right types, with a room, and with one of the two ids of the client.
pub record Signed (j : Jwt) (token : Text) (secret : Text) (payload : SyncTokenPayload)
    : Type 0 where
  pub obj : Claims
  pub verified : j.verify token secret false ≡ claims obj
  pub well_formed : is_sync_token_payload obj ≡ true
  pub fields : payload ≡ as_sync_token_payload obj
  pub named : payload.room_name ≢ []
  pub identified : (payload.wp_client_id ≡ none) → payload.connection_id ≢ none

accepted :
    (b : Bool) (x payload : SyncTokenPayload)
    → (if b then granted x else invalid) ≡ granted payload
    → (b ≡ true) × (payload ≡ x)
accepted true x payload h = (refl, ground (arith, h))
accepted false x payload h = absurd (ground (arith, h))

as_string-named : (v : JsValue) → is_non_empty_string v ≡ true → as_string v ≢ []
as_string-named (string s) h e = ground arith
as_string-named undefined h e = ground arith
as_string-named (number n) h e = ground arith
as_string-named other h e = ground arith

as_optional_identified :
    (v w : JsValue)
    → (is_string v || is_string w) ≡ true
    → as_optional v ≡ none
    → as_optional w ≢ none
as_optional_identified v (string t) h e k = ground arith
as_optional_identified (string s) w h e k = ground arith
as_optional_identified undefined undefined h e k = ground arith
as_optional_identified undefined (number m) h e k = ground arith
as_optional_identified undefined other h e k = ground arith
as_optional_identified (number n) undefined h e k = ground arith
as_optional_identified (number n) (number m) h e k = ground arith
as_optional_identified (number n) other h e k = ground arith
as_optional_identified other undefined h e k = ground arith
as_optional_identified other (number m) h e k = ground arith
as_optional_identified other other h e k = ground arith

well_formed_named : (obj : Claims) → is_sync_token_payload obj ≡ true → as_string obj.room_name ≢ []
unfolding is_sync_token_payload
well_formed_named obj h = as_string-named obj.room_name (ground (arith, h))

well_formed_identified :
    (obj : Claims)
    → is_sync_token_payload obj ≡ true
    → as_optional obj.wp_client_id ≡ none
    → as_optional obj.connection_id ≢ none
unfolding is_sync_token_payload
well_formed_identified obj h =
    as_optional_identified obj.wp_client_id obj.connection_id (ground (arith, h))

claims-Signed :
    (j : Jwt) (token secret : Text) (obj : Claims) (payload : SyncTokenPayload)
    → j.verify token secret false ≡ claims obj
    → is_sync_token_payload obj ≡ true
    → payload ≡ as_sync_token_payload obj
    → Signed j token secret payload
claims-Signed j token secret obj payload e w f = rw f (record {
  obj = obj;
  verified = e;
  well_formed = w;
  fields = refl;
  named = well_formed_named obj w;
  identified = well_formed_identified obj w;
})

checked_payload-granted :
    (j : Jwt) (token secret : Text) (o : JwtOutcome) (payload : SyncTokenPayload)
    → j.verify token secret false ≡ o
    → checked_payload o ≡ granted payload
    → Signed j token secret payload
unfolding checked_payload
checked_payload-granted j token secret (claims obj) payload e h =
    let (w, f) = accepted (is_sync_token_payload obj) (as_sync_token_payload obj) payload h in
    claims-Signed j token secret obj payload e w f
checked_payload-granted j token secret text_payload payload e h = absurd (ground arith)
checked_payload-granted j token secret token_expired payload e h = absurd (ground arith)
checked_payload-granted j token secret jwt_error payload e h = absurd (ground arith)

auth_result-granted :
    (v : Verified) (payload : SyncTokenPayload)
    → auth_result v ≡ authenticated payload
    → v ≡ granted payload
auth_result-granted (granted p) payload h = ground (arith, h)
auth_result-granted expired payload h = absurd (ground (arith, h))
auth_result-granted invalid payload h = absurd (ground (arith, h))

-- A request is authenticated only by the `auth` parameter of its query: a token that is not empty,
-- verifies under the secret and has not expired, whose claims have the right types, name a room, and
-- identify the client by one of the two ids; the grant is what those claims say.
pub is_request_authenticated-Signed :
    (j : Jwt) (search_get : Text → Option Text) (url : Option Text) (secret : Text)
    (payload : SyncTokenPayload)
    → is_request_authenticated j search_get url secret ≡ authenticated payload
    → (token : Text) × ((search_get (request_query url) ≡ some token)
        × ((token ≢ []) × Signed j token secret payload))
unfolding is_request_authenticated verify_token
is_request_authenticated-Signed j search_get url secret payload h =
    elim (Option-cases (search_get (request_query url))) [
      | inl e ↦ absurd (ground (arith, e, h))
      | inr (token, e) ↦ elim (Bool-cases (length token == 0)) [
        | inl z ↦ absurd (ground (arith, e, z, h))
        | inr z ↦ (
          token,
          (
            e,
            (
              λ k. ground (arith, z, k),
              checked_payload-granted j token secret (j.verify token secret false) payload refl (
                  auth_result-granted (checked_payload (j.verify token secret false)) payload
                    (ground (arith, e, z, h))),
            ),
          ),
        )
      ]
    ]
