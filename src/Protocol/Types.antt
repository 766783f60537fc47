-- ===== src/Protocol/Types.antt =====
-- websocket-server/protocol.ts: a message keeps its type on the wire, whatever its texts.
use vip_real_time_collaborat.Base.{ℕ, ◌<◌, ◌≡◌, ◌≢◌, refl, sym, ◌∙◌, inl, inr, List, ◌∷◌, arith}
use vip_real_time_collaborat.Base.Text.{Text}
use vip_real_time_collaborat.Packages.{Lib0, Lib0Laws}
use vip_real_time_collaborat.Protocol.Reader.{
  Result-cases, ok, read_var_uint, read_string, grant_too_long,
}
use vip_real_time_collaborat.Protocol.{
  ProtocolMessage, subscribe, subscribed, room_data, unsubscribe, room_closed, room_of, wire_id,
  encode_message, decode_message, read_fields, read_subscribe, read_data, read_room_closed,
}
use vip_real_time_collaborat.Protocol.Steps.{Header, decode_message_parts}
use vip_real_time_collaborat.Protocol.RoundTrip.{frame, encode_message_needs, encode_message-frame}

module _ (l : Lib0) where
  not_subscribe :
      (room : Text) (rest : List ℕ) (r : Text) → read_subscribe l room rest ≢ ok (subscribed r)
  unfolding read_subscribe
  not_subscribe room rest r e = elim (Result-cases (read_string l rest 8192 grant_too_long)) [
    | inr (x, v) ↦ ground (arith, v, e)
    | inl ((grant, r2), v) ↦ ground (arith, v, e)
  ]

  not_data : (room : Text) (rest : List ℕ) (r : Text) → read_data l room rest ≢ ok (subscribed r)
  unfolding read_data
  not_data room rest r e = ground (arith, e)

  not_room_closed :
      (room : Text) (rest : List ℕ) (r : Text) → read_room_closed l room rest ≢ ok (subscribed r)
  unfolding read_room_closed
  not_room_closed room rest r e = elim (Result-cases (read_var_uint rest)) [
    | inr (x, v) ↦ ground (arith, v, e)
    | inl ((code, r2), v) ↦ ground (arith, v, e)
  ]

  read_fields-subscribed :
      (wire : ℕ) (room : Text) (rest : List ℕ) (r : Text)
      → read_fields l wire room rest ≡ ok (subscribed r)
      → wire ≡ 1
  unfolding read_fields
  read_fields-subscribed wire room rest r e =
      ground
        (arith, e, not_subscribe room rest r, not_data room rest r, not_room_closed room rest r)

  wire_id-subscribed : (m : ProtocolMessage) → wire_id m ≡ 1 → m ≡ subscribed (room_of m)
  wire_id-subscribed (subscribe room grant) e = absurd (omega arith)
  wire_id-subscribed (subscribed room) e = refl
  wire_id-subscribed (room_data room payload) e = absurd (omega arith)
  wire_id-subscribed (unsubscribe room) e = absurd (omega arith)
  wire_id-subscribed (room_closed room code) e = absurd (omega arith)

  small : (m : ProtocolMessage) → wire_id m < 128
  small (subscribe room grant) = omega arith
  small (subscribed room) = omega arith
  small (room_data room payload) = omega arith
  small (unsubscribe room) = omega arith
  small (room_closed room code) = omega arith

  read_header :
      (bytes rest more : List ℕ) (wire n : ℕ) (room : Text)
      → n < 128
      → bytes ≡ 1 ∷ n ∷ more
      → Header l bytes wire room rest
      → wire ≡ n
  unfolding read_var_uint
  read_header bytes rest more wire n room h e d =
      let version : d.after_version ≡ n ∷ more = ground (arith, rw e at d.version_read) in
      ground (arith, h, rw version at d.type_read)

  -- What decodes as a `subscribed` was encoded as one.
  pub encoded-subscribed :
      (laws : Lib0Laws l) (m : ProtocolMessage) (bytes : List ℕ) (r : Text)
      → encode_message l m ≡ ok bytes
      → decode_message l bytes ≡ ok (subscribed r)
      → m ≡ subscribed (room_of m)
  encoded-subscribed laws m bytes r e d =
      let p = decode_message_parts l bytes (subscribed r) d in
      let same : frame l m ≡ bytes =
        ground (arith, encode_message-frame l laws m (encode_message_needs l m bytes e)) in
      wire_id-subscribed m (
        sym (read_header bytes p.rest _ p.wire (wire_id m) p.room (small m) (sym same) p.header)
        ∙ read_fields-subscribed p.wire p.room p.rest r p.fields)
