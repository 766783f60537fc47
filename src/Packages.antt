-- ===== src/Packages.antt =====
-- What the sources take from npm packages, as parameters with their documented behaviour.
-- lib0 (`encoding`, `decoding`, `string`): an encoder is the bytes written so far, a decoder the
-- bytes from its position on.
pub mod Sample
use vip_real_time_collaborat.Base.{
  ℕ, ◌+◌, ◌/◌, ◌%◌, ◌≤◌, ◌<◌, ◌≡◌, ◌≢◌, Bool, true, false, Option, some, List, [], ◌∷◌, ◌++◌,
  length, take, drop,
}
use vip_real_time_collaborat.Base.Text.{Text}

pub record Lib0 : Type 0 where
  pub write_var_uint : List ℕ → ℕ → List ℕ
  pub write_uint8_array : List ℕ → List ℕ → List ℕ
  pub read_uint8_array : List ℕ → ℕ → List ℕ × List ℕ
  pub read_tail : List ℕ → List ℕ
  pub has_content : List ℕ → Bool
  pub encode_utf8 : Text → List ℕ
  -- `none` is the exception of a fatal decoder.
  pub decode_utf8 : List ℕ → Option Text
  -- Whether a text has no lone surrogate (String.prototype.isWellFormed).
  pub is_well_formed : Text → Bool

-- Little-endian base 128, the top bit set on every byte but the last; arrays are written and read
-- as they are; UTF-8 is decoded strictly, and only lone surrogates are not encoded faithfully.
pub record Lib0Laws (l : Lib0) : Type 0 where
  pub write_last : (e : List ℕ) (v : ℕ) → v < 128 → l.write_var_uint e v ≡ e ++ v ∷ []
  pub write_group :
      (e : List ℕ) (v : ℕ)
      → 128 ≤ v
      → l.write_var_uint e v ≡ l.write_var_uint (e ++ (v % 128 + 128) ∷ []) (v / 128)
  pub write_array : (e bs : List ℕ) → l.write_uint8_array e bs ≡ e ++ bs
  pub read_array :
      (r : List ℕ) (n : ℕ) → n ≤ length r → l.read_uint8_array r n ≡ (take n r, drop n r)
  pub tail_all : (r : List ℕ) → l.read_tail r ≡ r
  pub content_nil : l.has_content [] ≡ false
  pub content_cons : (b : ℕ) (r : List ℕ) → l.has_content (b ∷ r) ≡ true
  pub decode-encode :
      (s : Text) → l.is_well_formed s ≡ true → l.decode_utf8 (l.encode_utf8 s) ≡ some s
  pub encode-decode :
      (bs : List ℕ) (s : Text)
      → l.decode_utf8 bs ≡ some s
      → (l.encode_utf8 s ≡ bs) × (l.is_well_formed s ≡ true)

-- A value of a decoded token's claim.
pub data JsValue : Type 0 where
  undefined : JsValue
  number : ℕ → JsValue
  string : Text → JsValue
  other : JsValue

-- The claims that the server reads.
pub record Claims : Type 0 where
  pub blog_id : JsValue
  pub user_id : JsValue
  pub username : JsValue
  pub room_name : JsValue
  pub wp_client_id : JsValue
  pub connection_id : JsValue

-- jsonwebtoken's `verify` returns the payload, an object or a text, or throws a TokenExpiredError or
-- some other error.
pub data JwtOutcome : Type 0 where
  claims : Claims → JwtOutcome
  text_payload : JwtOutcome
  token_expired : JwtOutcome
  jwt_error : JwtOutcome

-- `verify token secret ignoreExpiration`, with algorithms [HS256].
pub record Jwt : Type 0 where
  pub verify : Text → Text → Bool → JwtOutcome

-- Without the check of the expiry no token has expired, and the check itself changes nothing else.
pub record JwtLaws (j : Jwt) : Type 0 where
  pub never_expired : (t s : Text) → j.verify t s true ≢ token_expired
  pub expiry_only :
      (t s : Text) → j.verify t s false ≢ token_expired → j.verify t s true ≡ j.verify t s false

-- A WebSocket's readyState; `opened` is OPEN.
pub data ReadyState : Type 0 where
  connecting opened closing closed : ReadyState

abbrev pub is_open : ReadyState → Bool
is_open opened = true
is_open connecting = false
is_open closing = false
is_open closed = false

-- What `close` and `terminate` of a WebSocket make of its readyState.
pub record Ws : Type 0 where
  pub after_close : ReadyState → ReadyState
  pub after_terminate : ReadyState → ReadyState

-- Neither leaves the socket open.
pub record WsLaws (w : Ws) : Type 0 where
  pub close_ends : (r : ReadyState) → is_open (w.after_close r) ≡ false
  pub terminate_ends : (r : ReadyState) → is_open (w.after_terminate r) ≡ false
