-- ===== src/Protocol/Reader.antt =====
-- websocket-server/protocol.ts: protocol errors and the strict reader of incoming bytes.
use vip_real_time_collaborat.Base.{
  ℕ, zero, suc, ◌+◌, ◌*◌, ◌%◌, ◌^◌, Bool, not, ◌&&◌, none, some, List, [], ◌∷◌, ltb, leb, ◌==◌,
  if◌then◌else◌, length, ◌≡◌, refl, ◌⊎◌, inl, inr,
}
use vip_real_time_collaborat.Base.Text.{Text}
use vip_real_time_collaborat.Packages.{Lib0}

pub data ProtocolErrorReason : Type 0 where
  truncated trailing_data unsupported_version unknown_message_type : ProtocolErrorReason
  varuint_too_large invalid_string empty_room room_too_long : ProtocolErrorReason
  empty_grant grant_too_long empty_payload invalid_close_code : ProtocolErrorReason

-- What a function returns, or the reason of the ProtocolError that it throws.
pub data Result {ℓ} (A : Type ℓ) : Type ℓ where
  err : ProtocolErrorReason → Result A
  ok : A → Result A

infixl 5 ◌>>=◌
abbrev pub ◌>>=◌ {ℓ κ} : {A : Type ℓ} {R : Type κ} → Result A → (A → Result R) → Result R
◌>>=◌ result next = elim result [ err reason ↦ err reason | ok value ↦ next value ]

infixl 5 ◌>>◌
abbrev pub ◌>>◌ {ℓ} : {R : Type ℓ} → Result (Unit {0}) → Result R → Result R
◌>>◌ check next = elim check [ err reason ↦ err reason | ok passed ↦ next ]

-- `if ( ! test ) throw`.
abbrev pub guard : Bool → ProtocolErrorReason → Result (Unit {0})
guard test reason = if test then ok tt else err reason

-- The loop of readVarUint with `rounds` = 5 - byteIndex rounds left.
unfoldable pub read_var_uint_loop : ℕ → ℕ → ℕ → List ℕ → Result (ℕ × List ℕ)
read_var_uint_loop zero byte_index value reader = err varuint_too_large
read_var_uint_loop (suc rounds) byte_index value [] = err truncated
read_var_uint_loop (suc rounds) byte_index value (byte ∷ rest) =
    let value' = value + byte % 0x80 * 2 ^ (byte_index * 7) in
    let more = read_var_uint_loop rounds (byte_index + 1) value' rest in
    if byte_index == 4 && leb 0x80 byte
    then err varuint_too_large
    else if byte_index == 4 && ltb 0x0f byte
    then err varuint_too_large
    else if ltb byte 0x80
    then ok (value', rest)
    else more

unfoldable pub read_var_uint : List ℕ → Result (ℕ × List ℕ)
unfolding read_var_uint_loop
read_var_uint reader = read_var_uint_loop 5 0 0 reader

module _ (l : Lib0) where
  -- The bytes of a string after its length was read; `none` is the exception of decodeUtf8.
  unfoldable pub decode_string : List ℕ → Result Text
  decode_string bytes = elim (l.decode_utf8 bytes) [ none ↦ err invalid_string | some s ↦ ok s ]

  unfoldable pub read_string : List ℕ → ℕ → ProtocolErrorReason → Result (Text × List ℕ)
  unfolding decode_string
  read_string reader max_bytes too_long_reason = do
    (size, r) ← read_var_uint reader
    guard (not (ltb max_bytes size)) too_long_reason
    guard (not (ltb (length r) size)) truncated
    let field = l.read_uint8_array r size
    value ← decode_string field.0
    ok (value, field.1)

  unfoldable pub assert_done : List ℕ → Result (Unit {0})
  assert_done reader = guard (not (l.has_content reader)) trailing_data

pub Result-cases {ℓ} :
    {A : Type ℓ} (r : Result A) → ((a : A) × (r ≡ ok a)) ⊎ ((e : ProtocolErrorReason) × (r ≡ err e))
Result-cases (ok a) = inl (a, refl)
Result-cases (err e) = inr (e, refl)
