-- ===== src/Client/Identity.antt =====
-- src/utilities/crypto.ts, src/utilities/function.ts and fetchAuthToken of src/websocket-client.ts: the
-- identity of a page and the tokens that it asks for under it.
pub mod Requests
mod Examples
use vip_real_time_collaborat.Base.{
  ℕ, zero, suc, ◌+◌, ◌%◌, Bool, true, false, Option, none, some, List, [], ◌∷◌, ◌==◌, ltb, length,
  if◌then◌else◌,
}
use vip_real_time_collaborat.Base.Text.{Text, text}
use vip_real_time_collaborat.Base.Maps.{lookup, set}

abbrev pub hex_digit : ℕ → ℕ
hex_digit n = if ltb n 10 then 48 + n else 87 + n

abbrev pub template : Text
template = text "xxxxxxxx-xxxx-4xxx-yxxx-xxxxxxxxxxxx"

-- `randomValue & 0x3 | 0x8` on a value below 16.
abbrev variant : ℕ → ℕ
variant random_value = random_value % 4 + 8

-- The replacement of each x and y; `random n` is the value of the n-th `( Math.random() * 16 ) | 0`.
unfoldable pub fill : (ℕ → ℕ) → ℕ → Text → Text
fill random n [] = []
fill random n (char ∷ t) =
    if char == b'x'
    then hex_digit (random n) ∷ fill random (suc n) t
    else if char == b'y'
    then hex_digit (variant (random n)) ∷ fill random (suc n) t
    else char ∷ fill random n t

-- What a call of generateUUID meets: a secure context with the UUID that it gives, or an insecure one in
-- development with its random values, or in production.
pub data Source : Type 0 where
  secure : Text → Source
  development : (ℕ → ℕ) → Source
  production : Source

-- `none` is the error that is thrown.
unfoldable pub generate_uuid : Source → Option Text
unfolding fill
generate_uuid (secure uuid) = some uuid
generate_uuid (development random) = some (fill random 0 template)
generate_uuid production = none

-- memoizeFn: the cache, and a call under the key of its arguments; `computed` is what `fn` would return
-- now, and `none` where it throws.
abbrev pub Cache : Type 0
Cache = List (Text × Text)

abbrev call_known : Text → Option Text → Cache → Option Text → Option Text × Cache
call_known key computed cache (some value) = (some value, cache)
call_known key none cache none = (none, cache)
call_known key (some value) cache none = (some value, set key value cache)

unfoldable pub memoized : Text → Option Text → Cache → Option Text × Cache
unfolding lookup set
memoized key computed cache = call_known key computed cache (lookup key cache)

-- JSON.stringify( [] ).
abbrev pub no_arguments : Text
no_arguments = text "[]"

unfoldable pub get_wp_client_id : Source → Cache → Option Text × Cache
unfolding memoized generate_uuid
get_wp_client_id source cache = memoized no_arguments (generate_uuid source) cache

pub record AuthRequest : Type 0 where
  pub sync_object_type : Text
  pub sync_object_id : Text
  pub wp_client_id : Text

-- The page: the cache of getWpClientId and the requests sent, newest first.
pub record Page : Type 0 where
  pub cache : Cache
  pub requests : List AuthRequest

unfoldable pub new_page : Page
new_page = record { cache = []; requests = [] }

-- What fetchAuthToken comes to: a token, the error that there is none, what apiFetch rejects with, or
-- what generateUUID throws.
pub data Fetched : Type 0 where
  token : Text → Fetched
  no_auth_token rejected no_uuid : Fetched

-- What apiFetch resolves to: it rejects, or gives a token that may be missing.
pub data ApiReply : Type 0 where
  api_rejects : ApiReply
  api_token : Option Text → ApiReply

unfoldable pub token_of : ApiReply → Fetched
token_of api_rejects = rejected
token_of (api_token none) = no_auth_token
token_of (api_token (some t)) = if length t == 0 then no_auth_token else token t

abbrev pub send_request : Text → Text → ApiReply → Page → Option Text × Cache → Fetched × Page
send_request object_type object_id reply page (none, cache) =
    (no_uuid, record { cache = cache; requests = page.requests })
send_request object_type object_id reply page (some client, cache) = (
  token_of reply,
  record {
    cache = cache;
    requests =
        record { sync_object_type = object_type; sync_object_id = object_id; wp_client_id = client }
        ∷ page.requests;
  },
)

unfoldable pub fetch_auth_token : Text → Text → Source → ApiReply → Page → Fetched × Page
unfolding get_wp_client_id token_of
fetch_auth_token object_type object_id source reply page =
    send_request object_type object_id reply page (get_wp_client_id source page.cache)

pub record Fetch : Type 0 where
  pub object_type : Text
  pub object_id : Text
  pub source : Source
  pub reply : ApiReply

-- The fetches of a page, newest first.
unfoldable pub page_after : List Fetch → Page
unfolding fetch_auth_token new_page
page_after [] = new_page
page_after (f ∷ fetches) =
    (fetch_auth_token f.object_type f.object_id f.source f.reply (page_after fetches)).1
