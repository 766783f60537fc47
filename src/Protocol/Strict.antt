-- ===== src/Protocol/Strict.antt =====
-- websocket-server/protocol.ts: what decodeMessage accepts, and what more or fewer bytes do to it.
use vip_real_time_collaborat.Base.{
  ℕ, ◌≤◌, ◌<◌, ◌≡◌, sym, ◌∙◌, inl, inr, true, false, Bool, List, [], ◌∷◌, ◌++◌, arith, length,
  length-append,
}
use vip_real_time_collaborat.Base.Text.{Text}
use vip_real_time_collaborat.Packages.{Lib0, Lib0Laws}
use vip_real_time_collaborat.Protocol.Reader.{
  Result, Result-cases, ok, err, read_var_uint, read_string, assert_done, grant_too_long,
  trailing_data, room_too_long, ProtocolErrorReason,
}
use vip_real_time_collaborat.Protocol.VarUint.{read_var_uint-append}
use vip_real_time_collaborat.Protocol.Strings.{
  read_string-append, read_string_bounds, assert_done_cases,
}
use vip_real_time_collaborat.Protocol.Steps.{Header, decode_message_lem, decode_message_parts}
use vip_real_time_collaborat.Protocol.RoundTrip.{
  FieldsFit, IsEncodable, TextsWellFormed, encode_message-frame, decode_message-encode_message,
  frame,
}
use vip_real_time_collaborat.Protocol.{
  ProtocolMessage, subscribe, subscribed, room_data, unsubscribe, room_closed, room_of,
  encode_message, read_fields, decode_message, read_subscribe, read_data, read_room_closed,
}

-- The answer to a message with `more` bytes behind it: they join a payload, and end any other.
abbrev pub extended : ProtocolMessage → List ℕ → Result ProtocolMessage
extended (room_data room payload) more = ok (room_data room (payload ++ more))
extended (subscribe room grant) more = err trailing_data
extended (subscribed room) more = err trailing_data
extended (unsubscribe room) more = err trailing_data
extended (room_closed room code) more = err trailing_data

abbrev pub is_data : ProtocolMessage → Bool
is_data (room_data room payload) = true
is_data (subscribe room grant) = false
is_data (subscribed room) = false
is_data (unsubscribe room) = false
is_data (room_closed room code) = false

no_extension :
    (m' m : ProtocolMessage) (more : List ℕ) → is_data m ≡ false → extended m' more ≡ ok m → ⊥
no_extension (room_data room payload) (subscribe r g) more n e = cc
no_extension (room_data room payload) m more n e = ground arith
no_extension (subscribe room grant) m more n e = cc
no_extension (subscribed room) m more n e = cc
no_extension (unsubscribe room) m more n e = cc
no_extension (room_closed room code) m more n e = cc

module _ (l : Lib0) (laws : Lib0Laws l) where
  read_subscribe-append :
      (room : Text) (r : List ℕ) (m : ProtocolMessage) (x : ℕ) (more : List ℕ)
      → read_subscribe l room r ≡ ok m
      → read_subscribe l room (r ++ x ∷ more) ≡ err trailing_data
  unfolding read_subscribe
  read_subscribe-append room r m x more h =
      elim (Result-cases (read_string l r 8192 grant_too_long)) [
        | inr (e, p) ↦ ground arith
        | inl ((grant, rest), p) ↦ ground (
          arith,
          read_string-append l laws r (x ∷ more) 8192 grant_too_long grant rest p,
          assert_done_cases l laws rest,
          assert_done_cases l laws (rest ++ x ∷ more),
        )
      ]

  read_room_closed-append :
      (room : Text) (r : List ℕ) (m : ProtocolMessage) (x : ℕ) (more : List ℕ)
      → read_room_closed l room r ≡ ok m
      → read_room_closed l room (r ++ x ∷ more) ≡ err trailing_data
  unfolding read_room_closed
  read_room_closed-append room r m x more h = elim (Result-cases (read_var_uint r)) [
    | inr (e, p) ↦ ground arith
    | inl ((code, rest), p) ↦ ground (
      arith,
      read_var_uint-append r (x ∷ more) code rest p,
      assert_done_cases l laws rest,
      assert_done_cases l laws (rest ++ x ∷ more),
    )
  ]

  read_subscribe_is :
      (room : Text) (r : List ℕ) (m : ProtocolMessage)
      → read_subscribe l room r ≡ ok m
      → (grant : Text) × (m ≡ subscribe room grant)
        × (0 < length grant)
        × (length (l.encode_utf8 grant) ≤ 8192)
        × (l.is_well_formed grant ≡ true)
  unfolding read_subscribe
  read_subscribe_is room r m h = elim (Result-cases (read_string l r 8192 grant_too_long)) [
    | inr (e, p) ↦ absurd (ground arith)
    | inl ((grant, rest), p) ↦
        let (fits, well) = read_string_bounds l laws r 8192 grant_too_long grant rest p in
        (grant, ground (arith, assert_done_cases l laws rest), ground arith, fits, well)
  ]

  read_room_closed_is :
      (room : Text) (r : List ℕ) (m : ProtocolMessage)
      → read_room_closed l room r ≡ ok m
      → (code : ℕ) × (m ≡ room_closed room code) × (4000 ≤ code) × (code ≤ 4999)
  unfolding read_room_closed
  read_room_closed_is room r m h = elim (Result-cases (read_var_uint r)) [
    | inr (e, p) ↦ absurd (ground arith)
    | inl ((code, rest), p) ↦
        (code, ground (arith, assert_done_cases l laws rest), ground arith, ground arith)
  ]

  read_data_is :
      (room : Text) (r : List ℕ) (m : ProtocolMessage)
      → read_data l room r ≡ ok m
      → (m ≡ room_data room r) × (0 < length r)
  unfolding read_data
  read_data_is room r m h = ground (arith, laws.tail_all r)

  read_data-append :
      (room : Text) (r more : List ℕ)
      → 0 < length r
      → read_data l room (r ++ more) ≡ ok (room_data room (r ++ more))
  unfolding read_data
  read_data-append room r more h = ground (arith, laws.tail_all (r ++ more), length-append r more)

  assert_done-cons :
      (r : List ℕ) (x : ℕ) (more : List ℕ) → assert_done l (r ++ x ∷ more) ≡ err trailing_data
  unfolding assert_done
  assert_done-cons [] x more = ground (arith, laws.content_cons x more)
  assert_done-cons (b ∷ r) x more = ground (arith, laws.content_cons b (r ++ x ∷ more))

  read_fields-append :
      (wire : ℕ) (room : Text) (r : List ℕ) (m : ProtocolMessage) (x : ℕ) (more : List ℕ)
      → read_fields l wire room r ≡ ok m
      → read_fields l wire room (r ++ x ∷ more) ≡ extended m (x ∷ more)
  unfolding read_fields
  read_fields-append wire room r m x more h = ground (
    arith,
    read_subscribe-append room r m x more,
    read_subscribe_is room r m,
    read_data_is room r m,
    read_data-append room r (x ∷ more),
    read_room_closed-append room r m x more,
    read_room_closed_is room r m,
    assert_done_cases l laws r,
    assert_done-cons r x more,
  )

  read_fields_valid :
      (wire : ℕ) (room : Text) (r : List ℕ) (m : ProtocolMessage)
      → l.is_well_formed room ≡ true
      → read_fields l wire room r ≡ ok m
      → (room_of m ≡ room) × FieldsFit l m × TextsWellFormed l m
  unfolding read_fields
  read_fields_valid wire room r m w h = ground (
    arith,
    read_subscribe_is room r m,
    read_data_is room r m,
    read_room_closed_is room r m,
    assert_done_cases l laws r,
  )

  Header-append :
      (bytes more : List ℕ) (wire : ℕ) (room : Text) (rest : List ℕ)
      → Header l bytes wire room rest
      → Header l (bytes ++ more) wire room (rest ++ more)
  Header-append bytes more wire room rest h = record {
    after_version = h.after_version ++ more;
    after_type = h.after_type ++ more;
    version_read = read_var_uint-append bytes more 1 h.after_version h.version_read;
    type_read = read_var_uint-append h.after_version more wire h.after_type h.type_read;
    type_known = h.type_known;
    room_read = read_string-append l laws h.after_type more 512 room_too_long room rest h.room_read;
    room_present = h.room_present;
  }

  -- Bytes added behind a message that decodes join its payload if it is of type data, and make
  -- decodeMessage fail with trailing_data if it is of any other type.
  pub decode_message-append :
      (bytes : List ℕ) (m : ProtocolMessage) (x : ℕ) (more : List ℕ)
      → decode_message l bytes ≡ ok m
      → decode_message l (bytes ++ x ∷ more) ≡ extended m (x ∷ more)
  decode_message-append bytes m x more e =
      let d = decode_message_parts l bytes m e in
      decode_message_lem l (bytes ++ x ∷ more) d.wire d.room (d.rest ++ x ∷ more)
        (Header-append bytes (x ∷ more) d.wire d.room d.rest d.header)
      ∙ read_fields-append d.wire d.room d.rest m x more d.fields

  -- A message that decodes keeps every bound of the protocol, and its texts are well formed.
  pub decode_message_valid :
      (bytes : List ℕ) (m : ProtocolMessage)
      → decode_message l bytes ≡ ok m
      → IsEncodable l m × TextsWellFormed l m
  decode_message_valid bytes m e =
      let d = decode_message_parts l bytes m e in
      let (fits, well) =
        read_string_bounds l laws d.header.after_type 512 room_too_long d.room d.rest
          d.header.room_read in
      let (same, fields, texts) = read_fields_valid d.wire d.room d.rest m well d.fields in
      (
        record {
          room_present = rw same d.header.room_present;
          room_fits = rw same fits;
          fields_fit = fields;
        },
        texts,
      )

  -- Every message that decodeMessage accepts can be encoded, and the encoding decodes to the same
  -- message.
  pub encode_message-decode_message :
      (bytes : List ℕ) (m : ProtocolMessage)
      → decode_message l bytes ≡ ok m
      → (encode_message l m ≡ ok (frame l m)) × (decode_message l (frame l m) ≡ ok m)
  encode_message-decode_message bytes m e =
      let (v, w) = decode_message_valid bytes m e in
      let f = encode_message-frame l laws m v in
      (f, decode_message-encode_message l laws m (frame l m) f w)

  -- No proper prefix of an encoded message that is not of type data, and whose texts have no lone
  -- surrogate, decodes.
  pub decode_message_prefix :
      (m : ProtocolMessage) (front : List ℕ) (x : ℕ) (back : List ℕ)
      → is_data m ≡ false
      → TextsWellFormed l m
      → encode_message l m ≡ ok (front ++ x ∷ back)
      → (reason : ProtocolErrorReason) × (decode_message l front ≡ err reason)
  decode_message_prefix m front x back n w e = elim (Result-cases (decode_message l front)) [
    | inr (reason, d) ↦ (reason, d)
    | inl (m', d) ↦ absurd (
        no_extension m' m (x ∷ back) n (
          sym (decode_message-append front m' x back d)
          ∙ decode_message-encode_message l laws m (front ++ x ∷ back) e w))
  ]
