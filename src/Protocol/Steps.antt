-- ===== src/Protocol/Steps.antt =====
-- websocket-server/protocol.ts: the steps of decodeMessage up to the fields of the message type.
use vip_real_time_collaborat.Base.{ℕ, ◌<◌, ◌≡◌, inl, inr, true, List, arith, length}
use vip_real_time_collaborat.Base.Text.{Text}
use vip_real_time_collaborat.Packages.{Lib0}
use vip_real_time_collaborat.Protocol.Reader.{
  Result-cases, ok, read_var_uint, read_string, room_too_long,
}
use vip_real_time_collaborat.Protocol.{
  ProtocolMessage, is_known_wire_id, read_fields, decode_message,
}

module _ (l : Lib0) where
  -- The header of a message: version 1, a known type, and a room.
  pub record Header (bytes : List ℕ) (wire : ℕ) (room : Text) (rest : List ℕ) : Type 0 where
    pub after_version : List ℕ
    pub after_type : List ℕ
    pub version_read : read_var_uint bytes ≡ ok (1, after_version)
    pub type_read : read_var_uint after_version ≡ ok (wire, after_type)
    pub type_known : is_known_wire_id wire ≡ true
    pub room_read : read_string l after_type 512 room_too_long ≡ ok (room, rest)
    pub room_present : 0 < length room

  pub decode_message_lem :
      (bytes : List ℕ) (wire : ℕ) (room : Text) (rest : List ℕ)
      → Header bytes wire room rest
      → decode_message l bytes ≡ read_fields l wire room rest
  unfolding decode_message
  decode_message_lem bytes wire room rest h =
      ground (arith, h.version_read, h.type_read, h.type_known, h.room_read, h.room_present)

  pub record Decoded (bytes : List ℕ) (m : ProtocolMessage) : Type 0 where
    pub wire : ℕ
    pub room : Text
    pub rest : List ℕ
    pub header : Header bytes wire room rest
    pub fields : read_fields l wire room rest ≡ ok m

  -- A message that was decoded has a header, and fields behind it.
  pub decode_message_parts :
      (bytes : List ℕ) (m : ProtocolMessage) → decode_message l bytes ≡ ok m → Decoded bytes m
  unfolding decode_message
  decode_message_parts bytes m e = elim (Result-cases (read_var_uint bytes)) [
    | inr (x, v) ↦ ground arith
    | inl ((version, r1), v) ↦ elim (Result-cases (read_var_uint r1)) [
      | inr (x, t) ↦ ground arith
      | inl ((wire, r2), t) ↦ elim (Result-cases (read_string l r2 512 room_too_long)) [
        | inr (x, s) ↦ ground arith
        | inl ((room, r3), s) ↦ record {
          wire = wire;
          room = room;
          rest = r3;
          header = record {
            after_version = r1;
            after_type = r2;
            version_read = ground arith;
            type_read = t;
            type_known = ground arith;
            room_read = s;
            room_present = ground arith;
          };
          fields = ground arith;
        }
      ]
    ]
  ]
