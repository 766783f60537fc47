-- ===== src/Client/Identity/Examples.antt =====
-- src/websocket-client.ts: concrete identities and token requests.
use vip_real_time_collaborat.Base.{◌%◌, ◌≡◌, ◌⊎◌, refl, some, List, [], ◌∷◌, All}
use vip_real_time_collaborat.Base.Text.{Text, text}
use vip_real_time_collaborat.Client.Identity.{
  Source, secure, development, production, generate_uuid, api_rejects, api_token, Fetch, page_after,
}
use vip_real_time_collaborat.Client.Identity.Requests.{IsFrom, page_after-IsFrom}

fallback :
    generate_uuid (development (λ n. n % 16)) ≡ some (text "01234567-89ab-4cde-b012-3456789abcde")
unfolding generate_uuid
fallback = refl

abbrev fetch_from : Source → Fetch
fetch_from source = record {
  object_type = text "postType/post";
  object_id = text "5";
  source = source;
  reply = api_token (some (text "t"));
}

-- Newest first: the first call throws, the second makes the id.
abbrev fetches : List Fetch
fetches =
    record (fetch_from (secure (text "two"))) { reply = api_rejects }
    ∷ fetch_from (secure (text "one"))
    ∷ fetch_from production
    ∷ []

page_after-IsFrom_example :
    ((page_after fetches).requests ≡ [])
    ⊎ ((client : Text) × All (IsFrom client) (page_after fetches).requests)
page_after-IsFrom_example = page_after-IsFrom fetches
