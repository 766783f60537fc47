-- ===== src/Protocol/RoundTrip.antt =====
-- websocket-server/protocol.ts: which messages encodeMessage accepts, the frame that it writes, and
-- that decodeMessage reads it back.
use vip_real_time_collaborat.Base.{
  ℕ, ◌≤◌, ◌<◌, ◌≡◌, ◌∙◌, inl, inr, true, List, [], ◌∷◌, ◌++◌, arith, length,
}
use mathlib.Core.List.{append-nil}
use vip_real_time_collaborat.Base.Text.{Text}
use vip_real_time_collaborat.Packages.{Lib0, Lib0Laws}
use vip_real_time_collaborat.Protocol.Reader.{
  ProtocolErrorReason, Result-cases, ok, read_var_uint, room_too_long, grant_too_long,
}
use vip_real_time_collaborat.Protocol.VarUint.{groups, write_var_uint_lem, read_var_uint-groups}
use vip_real_time_collaborat.Protocol.Strings.{
  string_field, write_string_lem, read_string-field, assert_done_cases,
}
use vip_real_time_collaborat.Protocol.Steps.{Header, decode_message_lem}
use vip_real_time_collaborat.Protocol.{
  ProtocolMessage, subscribe, subscribed, room_data, unsubscribe, room_closed, room_of, wire_id,
  read_subscribe, read_data, read_room_closed, write_string, write_fields, encode_message,
  read_fields, decode_message,
}

module _ (l : Lib0) where
  -- The bounds on what stands behind the room.
  abbrev pub FieldsFit : ProtocolMessage → Type 0
  FieldsFit (subscribe room grant) = (0 < length grant) × (length (l.encode_utf8 grant) ≤ 8192)
  FieldsFit (subscribed room) = Unit
  FieldsFit (room_data room payload) = 0 < length payload
  FieldsFit (unsubscribe room) = Unit
  FieldsFit (room_closed room code) = (4000 ≤ code) × (code ≤ 4999)

  pub record IsEncodable (m : ProtocolMessage) : Type 0 where
    pub room_present : 0 < length (room_of m)
    pub room_fits : length (l.encode_utf8 (room_of m)) ≤ 512
    pub fields_fit : FieldsFit m

  -- No text of the message has a lone surrogate.
  abbrev pub TextsWellFormed : ProtocolMessage → Type 0
  TextsWellFormed (subscribe room grant) =
      (l.is_well_formed room ≡ true) × (l.is_well_formed grant ≡ true)
  TextsWellFormed (subscribed room) = l.is_well_formed room ≡ true
  TextsWellFormed (room_data room payload) = l.is_well_formed room ≡ true
  TextsWellFormed (unsubscribe room) = l.is_well_formed room ≡ true
  TextsWellFormed (room_closed room code) = l.is_well_formed room ≡ true

  abbrev pub fields_of : ProtocolMessage → List ℕ
  fields_of (subscribe room grant) = string_field l grant
  fields_of (subscribed room) = []
  fields_of (room_data room payload) = payload
  fields_of (unsubscribe room) = []
  fields_of (room_closed room code) = groups 4 code

  -- The layout of the module's comment: version, type, room, fields.
  abbrev pub frame : ProtocolMessage → List ℕ
  frame m = 1 ∷ wire_id m ∷ (string_field l (room_of m) ++ fields_of m)

  write_string_needs :
      (e : List ℕ) (s : Text) (max_bytes : ℕ) (reason : ProtocolErrorReason) (bs : List ℕ)
      → write_string l e s max_bytes reason ≡ ok bs
      → length (l.encode_utf8 s) ≤ max_bytes
  unfolding write_string
  write_string_needs e s max_bytes reason bs h = ground arith

  write_fields_needs :
      (e : List ℕ) (m : ProtocolMessage) (bs : List ℕ) → write_fields l e m ≡ ok bs → FieldsFit m
  unfolding write_fields
  write_fields_needs e (subscribe room grant) bs h =
      ground (arith, write_string_needs e grant 8192 grant_too_long bs)
  write_fields_needs e (subscribed room) bs h = tt
  write_fields_needs e (room_data room payload) bs h = ground arith
  write_fields_needs e (unsubscribe room) bs h = tt
  write_fields_needs e (room_closed room code) bs h = ground arith

  -- encodeMessage refuses every message with a field out of its bounds.
  pub encode_message_needs :
      (m : ProtocolMessage) (bs : List ℕ) → encode_message l m ≡ ok bs → IsEncodable m
  unfolding encode_message
  encode_message_needs m bs h =
      elim (Result-cases (write_string l header (room_of m) 512 room_too_long)) [
        | inl (e, w) ↦ record {
          room_present = ground arith;
          room_fits = write_string_needs header (room_of m) 512 room_too_long e w;
          fields_fit = write_fields_needs e m bs (ground (arith, w));
        }
        | inr (x, w) ↦ ground (arith, w)
      ]
    where
      header : List ℕ
      header = l.write_var_uint (l.write_var_uint [] 1) (wire_id m)

module _ (l : Lib0) (laws : Lib0Laws l) where
  wire_id_small : (m : ProtocolMessage) → wire_id m < 5
  wire_id_small (subscribe room grant) = omega arith
  wire_id_small (subscribed room) = omega arith
  wire_id_small (room_data room payload) = omega arith
  wire_id_small (unsubscribe room) = omega arith
  wire_id_small (room_closed room code) = omega arith

  header_lem : (w : ℕ) → w < 128 → l.write_var_uint (l.write_var_uint [] 1) w ≡ 1 ∷ w ∷ []
  header_lem w h = rw (laws.write_last [] 1 (omega arith)) (laws.write_last (1 ∷ []) w h)

  write_fields_lem :
      (e : List ℕ) (m : ProtocolMessage)
      → FieldsFit l m
      → write_fields l e m ≡ ok (e ++ fields_of l m)
  unfolding write_fields
  write_fields_lem e (subscribe room grant) h =
      ground (arith, write_string_lem l laws e grant 8192 grant_too_long)
  write_fields_lem e (subscribed room) h = rw append-nil
  write_fields_lem e (room_data room payload) h = ground (arith, laws.write_array e payload)
  write_fields_lem e (unsubscribe room) h = rw append-nil
  write_fields_lem e (room_closed room code) h = ground (arith, write_var_uint_lem l laws e code)

  -- A message within its bounds is encoded as its frame.
  pub encode_message-frame :
      (m : ProtocolMessage) → IsEncodable l m → encode_message l m ≡ ok (frame l m)
  unfolding encode_message
  encode_message-frame m v = ground (
    arith,
    header_lem (wire_id m),
    wire_id_small m,
    write_string_lem l laws (1 ∷ wire_id m ∷ []) (room_of m) 512 room_too_long,
    write_fields_lem (1 ∷ wire_id m ∷ string_field l (room_of m)) m,
  )

  -- The fields that a frame carries are read back.
  read_fields-frame :
      (m : ProtocolMessage)
      → IsEncodable l m
      → TextsWellFormed l m
      → read_fields l (wire_id m) (room_of m) (fields_of l m) ≡ ok m
  unfolding read_fields read_subscribe read_data read_room_closed
  read_fields-frame (subscribe room grant) v w = ground (
    arith,
    read_string-field l laws grant [] 8192 grant_too_long,
    assert_done_cases l laws [],
    append-nil (string_field l grant),
  )
  read_fields-frame (subscribed room) v w = ground (arith, assert_done_cases l laws [])
  read_fields-frame (room_data room payload) v w = ground (arith, laws.tail_all payload)
  read_fields-frame (unsubscribe room) v w = ground (arith, assert_done_cases l laws [])
  read_fields-frame (room_closed room code) v w =
      ground (
        arith,
        read_var_uint-groups code [],
        assert_done_cases l laws [],
        append-nil (groups 4 code),
      )

  room_well_formed :
      (m : ProtocolMessage) → TextsWellFormed l m → l.is_well_formed (room_of m) ≡ true
  room_well_formed (subscribe room grant) w = w.0
  room_well_formed (subscribed room) w = w
  room_well_formed (room_data room payload) w = w
  room_well_formed (unsubscribe room) w = w
  room_well_formed (room_closed room code) w = w

  read_one_byte : (w : ℕ) (rest : List ℕ) → w < 128 → read_var_uint (w ∷ rest) ≡ ok (w, rest)
  unfolding read_var_uint
  read_one_byte w rest h = ground arith

  decode_message-frame :
      (m : ProtocolMessage)
      → IsEncodable l m
      → TextsWellFormed l m
      → decode_message l (frame l m) ≡ ok m
  decode_message-frame m v w =
      decode_message_lem l (frame l m) (wire_id m) (room_of m) (fields_of l m) header
      ∙ read_fields-frame m v w
    where
      header : Header l (frame l m) (wire_id m) (room_of m) (fields_of l m)
      header = record {
        after_version = wire_id m ∷ (string_field l (room_of m) ++ fields_of l m);
        after_type = string_field l (room_of m) ++ fields_of l m;
        version_read = read_one_byte 1 _ (omega arith);
        type_read = read_one_byte (wire_id m) _ (omega (arith, wire_id_small m));
        type_known = ground (arith, wire_id_small m);
        room_read =
            read_string-field l laws (room_of m) (fields_of l m) 512 room_too_long
              (room_well_formed m w) v.room_fits (omega arith);
        room_present = v.room_present;
      }

  -- decodeMessage returns the message that encodeMessage encoded, where its texts have no lone
  -- surrogate and lib0 behaves as documented.
  pub decode_message-encode_message :
      (m : ProtocolMessage) (bs : List ℕ)
      → encode_message l m ≡ ok bs
      → TextsWellFormed l m
      → decode_message l bs ≡ ok m
  decode_message-encode_message m bs e w =
      let v = encode_message_needs l m bs e in
      let same : frame l m ≡ bs = ground (arith, encode_message-frame m v) in
      rw same at (decode_message-frame m v w)
