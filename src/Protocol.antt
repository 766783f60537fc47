-- ===== src/Protocol.antt =====
-- websocket-server/protocol.ts: the multiplex wire protocol, shared by server and editor client.
pub mod Reader
pub mod VarUint
pub mod Strings
pub mod Steps
pub mod RoundTrip
pub mod Strict
pub mod Types
mod Examples
use vip_real_time_collaborat.Base.{
  ℕ, ◌<◌, ◌≤◌, ◌≡◌, ◌≢◌, Bool, true, false, not, ◌||◌, Option, none, some, List, [], ◌∷◌, ltb, leb,
  ◌==◌, if◌then◌else◌, length,
}
use vip_real_time_collaborat.Base.Text.{Text}
use vip_real_time_collaborat.Packages.{Lib0}
use Reader.{
  ProtocolErrorReason, Result, ok, err, ◌>>=◌, ◌>>◌, guard, read_var_uint, read_string, assert_done,
  unsupported_version, unknown_message_type, room_too_long, grant_too_long, empty_room, empty_grant,
  empty_payload, invalid_close_code,
}

abbrev pub protocol_version : ℕ
protocol_version = 1

abbrev pub max_room_name_bytes : ℕ
max_room_name_bytes = 512

abbrev pub max_grant_bytes : ℕ
max_grant_bytes = 8192

abbrev pub min_private_room_close_code : ℕ
min_private_room_close_code = 4000

abbrev pub max_private_room_close_code : ℕ
max_private_room_close_code = 4999

-- `room_data` is the message of type 'data'.
pub data ProtocolMessage : Type 0 where
  subscribe : Text → Text → ProtocolMessage
  subscribed : Text → ProtocolMessage
  room_data : Text → List ℕ → ProtocolMessage
  unsubscribe : Text → ProtocolMessage
  room_closed : Text → ℕ → ProtocolMessage

abbrev pub room_of : ProtocolMessage → Text
room_of (subscribe r g) = r
room_of (subscribed r) = r
room_of (room_data r p) = r
room_of (unsubscribe r) = r
room_of (room_closed r c) = r

-- MESSAGE_TYPE_TO_WIRE_ID.
abbrev pub wire_id : ProtocolMessage → ℕ
wire_id (subscribe r g) = 0
wire_id (subscribed r) = 1
wire_id (room_data r p) = 2
wire_id (unsubscribe r) = 3
wire_id (room_closed r c) = 4

abbrev pub is_known_wire_id : ℕ → Bool
is_known_wire_id w = w == 0 || (w == 1 || (w == 2 || (w == 3 || w == 4)))

abbrev pub validate_room : Text → Result (Unit {0})
validate_room room = guard (not (length room == 0)) empty_room

-- A code is a number of the model, so `Number.isInteger` holds of it.
abbrev pub validate_room_close_code : ℕ → Result (Unit {0})
validate_room_close_code code =
    guard (not (ltb code min_private_room_close_code || ltb max_private_room_close_code code))
      invalid_close_code

module _ (l : Lib0) where
  unfoldable pub write_string : List ℕ → Text → ℕ → ProtocolErrorReason → Result (List ℕ)
  write_string encoder value max_bytes too_long_reason =
      let encoded = l.encode_utf8 value in
      if ltb max_bytes (length encoded)
      then err too_long_reason
      else ok (l.write_uint8_array (l.write_var_uint encoder (length encoded)) encoded)

  -- The switch of encodeMessage.
  unfoldable pub write_fields : List ℕ → ProtocolMessage → Result (List ℕ)
  write_fields encoder (subscribe room grant) = do
    guard (not (length grant == 0)) empty_grant
    write_string encoder grant max_grant_bytes grant_too_long
  write_fields encoder (subscribed room) = ok encoder
  write_fields encoder (room_data room payload) = do
    guard (not (length payload == 0)) empty_payload
    ok (l.write_uint8_array encoder payload)
  write_fields encoder (unsubscribe room) = ok encoder
  write_fields encoder (room_closed room code) = do
    validate_room_close_code code
    ok (l.write_var_uint encoder code)

  unfoldable pub encode_message : ProtocolMessage → Result (List ℕ)
  encode_message message = do
    validate_room (room_of message)
    let header = l.write_var_uint (l.write_var_uint [] protocol_version) (wire_id message)
    encoder ← write_string header (room_of message) max_room_name_bytes room_too_long
    write_fields encoder message

  unfoldable pub read_subscribe : Text → List ℕ → Result ProtocolMessage
  read_subscribe room reader = do
    (grant, rest) ← read_string l reader max_grant_bytes grant_too_long
    guard (not (length grant == 0)) empty_grant
    assert_done l rest
    ok (subscribe room grant)

  unfoldable pub read_data : Text → List ℕ → Result ProtocolMessage
  read_data room reader =
      let payload = l.read_tail reader in
      guard (not (length payload == 0)) empty_payload >> ok (room_data room payload)

  unfoldable pub read_room_closed : Text → List ℕ → Result ProtocolMessage
  read_room_closed room reader = do
    (code, rest) ← read_var_uint reader
    validate_room_close_code code
    assert_done l rest
    ok (room_closed room code)

  -- The switch of decodeMessage.
  unfoldable pub read_fields : ℕ → Text → List ℕ → Result ProtocolMessage
  read_fields wire room reader =
      if wire == 0
      then read_subscribe room reader
      else if wire == 1
      then assert_done l reader >> ok (subscribed room)
      else if wire == 2
      then read_data room reader
      else if wire == 3
      then assert_done l reader >> ok (unsubscribe room)
      else if wire == 4
      then read_room_closed room reader
      else err unknown_message_type

  unfoldable pub decode_message : List ℕ → Result ProtocolMessage
  decode_message bytes = do
    (version, r1) ← read_var_uint bytes
    guard (version == protocol_version) unsupported_version
    (wire, r2) ← read_var_uint r1
    guard (is_known_wire_id wire) unknown_message_type
    (room, r3) ← read_string l r2 max_room_name_bytes room_too_long
    validate_room room
    read_fields wire room r3
