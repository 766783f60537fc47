-- ===== src/Protocol/Examples.antt =====
-- websocket-server/protocol.ts: runs of the codec, and the theorems at concrete inputs.
use vip_real_time_collaborat.Base.{ℕ, ◌≡◌, refl, List, [], ◌∷◌, arith}
use vip_real_time_collaborat.Base.Text.{Text, text}
use vip_real_time_collaborat.Packages.Sample.{sample_lib0, sample_laws, put}
use vip_real_time_collaborat.Protocol.Reader.{
  ok, err, unsupported_version, invalid_close_code, read_var_uint, read_string, assert_done,
  varuint_too_large, ProtocolErrorReason,
}
use vip_real_time_collaborat.Protocol.RoundTrip.{
  IsEncodable, TextsWellFormed, frame, encode_message-frame, decode_message-encode_message,
}
use vip_real_time_collaborat.Protocol.Strict.{
  decode_message_valid, encode_message-decode_message, decode_message_prefix,
}
use vip_real_time_collaborat.Protocol.{
  ProtocolMessage, room_closed, encode_message, decode_message, write_string, write_fields,
  read_room_closed, read_fields,
}

abbrev room_a : Text
room_a = text "a"

abbrev closing : ProtocolMessage
closing = room_closed room_a 4005

abbrev closing_bytes : List ℕ
closing_bytes = 1 ∷ 4 ∷ 1 ∷ 97 ∷ 165 ∷ 31 ∷ []

encode_closing : encode_message sample_lib0 closing ≡ ok closing_bytes
unfolding encode_message write_string write_fields put
encode_closing = refl

decode_closing : decode_message sample_lib0 closing_bytes ≡ ok closing
unfolding decode_message read_fields read_room_closed read_var_uint read_string assert_done
decode_closing = refl

decode_bad_code : decode_message sample_lib0 (1 ∷ 4 ∷ 1 ∷ 97 ∷ 5 ∷ []) ≡ err invalid_close_code
unfolding decode_message read_fields read_room_closed read_var_uint read_string assert_done
decode_bad_code = refl

decode_version_two : decode_message sample_lib0 (2 ∷ 4 ∷ []) ≡ err unsupported_version
unfolding decode_message read_var_uint
decode_version_two = refl

-- A fifth byte above 0x0f does not fit 32 bits.
read_wide : read_var_uint (0xff ∷ 0xff ∷ 0xff ∷ 0xff ∷ 0x10 ∷ []) ≡ err varuint_too_large
unfolding read_var_uint
read_wide = refl

read_300 : read_var_uint (172 ∷ 2 ∷ 7 ∷ []) ≡ ok (300, 7 ∷ [])
unfolding read_var_uint
read_300 = refl

closing-IsEncodable : IsEncodable sample_lib0 closing
closing-IsEncodable = omega arith

encode_message-frame_example : encode_message sample_lib0 closing ≡ ok (frame sample_lib0 closing)
encode_message-frame_example =
    encode_message-frame sample_lib0 sample_laws closing closing-IsEncodable

decode_message-encode_message_example : decode_message sample_lib0 closing_bytes ≡ ok closing
decode_message-encode_message_example =
    decode_message-encode_message sample_lib0 sample_laws closing closing_bytes encode_closing refl

decode_message_valid_example : IsEncodable sample_lib0 closing × TextsWellFormed sample_lib0 closing
decode_message_valid_example =
    decode_message_valid sample_lib0 sample_laws closing_bytes closing decode_closing

encode_message-decode_message_example :
    (encode_message sample_lib0 closing ≡ ok (frame sample_lib0 closing))
    × (decode_message sample_lib0 (frame sample_lib0 closing) ≡ ok closing)
encode_message-decode_message_example =
    encode_message-decode_message sample_lib0 sample_laws closing_bytes closing decode_closing

decode_message_prefix_example :
    (reason : ProtocolErrorReason) × (decode_message sample_lib0 (1 ∷ 4 ∷ 1 ∷ 97 ∷ 165 ∷ [])
      ≡ err reason)
decode_message_prefix_example =
    decode_message_prefix sample_lib0 sample_laws closing (1 ∷ 4 ∷ 1 ∷ 97 ∷ 165 ∷ []) 31 [] refl
      refl encode_closing
