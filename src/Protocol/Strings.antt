-- ===== src/Protocol/Strings.antt =====
-- websocket-server/protocol.ts: writeString and readString, and the framing of single fields.
use vip_real_time_collaborat.Base.{
  ℕ, ◌^◌, ◌≤◌, ◌<◌, ◌≡◌, refl, ◌∙◌, true, some, List, [], ◌∷◌, ◌++◌, arith, ◌⊎◌, ◌≢◌, length,
  length-append, take, drop, take-append, drop-append, take-append_le, length-take, Option-cases,
  inl, inr,
}
use mathlib.Core.List.{append_assoc}
use vip_real_time_collaborat.Base.Text.{Text}
use vip_real_time_collaborat.Packages.{Lib0, Lib0Laws}
use vip_real_time_collaborat.Protocol.Reader.{
  ProtocolErrorReason, ok, err, trailing_data, read_var_uint, read_string, assert_done,
  Result-cases,
}
use vip_real_time_collaborat.Protocol.VarUint.{
  groups, write_var_uint_lem, read_var_uint-append, read_var_uint-groups,
}
use vip_real_time_collaborat.Protocol.{write_string}

module _ (l : Lib0) where
  -- What writeString writes: the length of the encoding, and the encoding.
  abbrev pub string_field : Text → List ℕ
  string_field s = groups 4 (length (l.encode_utf8 s)) ++ l.encode_utf8 s

module _ (l : Lib0) (laws : Lib0Laws l) where
  pub write_string_lem :
      (e : List ℕ) (s : Text) (max_bytes : ℕ) (reason : ProtocolErrorReason)
      → length (l.encode_utf8 s) ≤ max_bytes
      → max_bytes < 2 ^ 32
      → write_string l e s max_bytes reason ≡ ok (e ++ string_field l s)
  unfolding write_string
  write_string_lem e s max_bytes reason h b = ground (
    arith,
    write_var_uint_lem l laws e (length (l.encode_utf8 s)),
    laws.write_array (e ++ groups 4 (length (l.encode_utf8 s))) (l.encode_utf8 s),
    append_assoc e (groups 4 (length (l.encode_utf8 s))) (l.encode_utf8 s),
  )

  pub write_string_long :
      (e : List ℕ) (s : Text) (max_bytes : ℕ) (reason : ProtocolErrorReason)
      → max_bytes < length (l.encode_utf8 s)
      → write_string l e s max_bytes reason ≡ err reason
  unfolding write_string
  write_string_long e s max_bytes reason h = ground arith

  -- The step of readString after the length.
  read_string_body :
      (r body : List ℕ) (size max_bytes : ℕ) (reason : ProtocolErrorReason) (s : Text)
      → read_var_uint r ≡ ok (size, body)
      → size ≤ max_bytes
      → size ≤ length body
      → l.decode_utf8 (take size body) ≡ some s
      → read_string l r max_bytes reason ≡ ok (s, drop size body)
  unfolding read_string
  read_string_body r body size max_bytes reason s e h k d =
      ground (arith, laws.read_array body size)

  pub read_string-field :
      (s : Text) (rest : List ℕ) (max_bytes : ℕ) (reason : ProtocolErrorReason)
      → l.is_well_formed s ≡ true
      → length (l.encode_utf8 s) ≤ max_bytes
      → max_bytes < 2 ^ 32
      → read_string l (string_field l s ++ rest) max_bytes reason ≡ ok (s, rest)
  read_string-field s rest max_bytes reason w h b =
      let bytes = l.encode_utf8 s in
      read_string_body (string_field l s ++ rest) (bytes ++ rest) (length bytes) max_bytes reason s
        (rw append_assoc (read_var_uint-groups (length bytes) (bytes ++ rest) (omega arith))) h
        (omega (arith, length-append bytes rest)) (rw take-append (laws.decode-encode s w))
      ∙ rw drop-append

  pub record StringRead (r : List ℕ) (max_bytes : ℕ) (s : Text) (rest : List ℕ) : Type 0 where
    pub size : ℕ
    pub body : List ℕ
    pub counted : read_var_uint r ≡ ok (size, body)
    pub bounded : size ≤ max_bytes
    pub present : size ≤ length body
    pub decoded : l.decode_utf8 (take size body) ≡ some s
    pub remains : rest ≡ drop size body

  -- The parts of a string that was read.
  pub read_string_parts :
      (r : List ℕ) (max_bytes : ℕ) (reason : ProtocolErrorReason) (s : Text) (rest : List ℕ)
      → read_string l r max_bytes reason ≡ ok (s, rest)
      → StringRead r max_bytes s rest
  unfolding read_string
  read_string_parts r max_bytes reason s rest h = elim (Result-cases (read_var_uint r)) [
    | inl ((size, body), e) ↦ elim (Option-cases (l.decode_utf8 (take size body))) [
      | inl d ↦ ground (arith, laws.read_array body size)
      | inr (t, d) ↦ record {
        size = size;
        body = body;
        counted = e;
        bounded = ground arith;
        present = ground arith;
        decoded = ground (arith, laws.read_array body size);
        remains = ground (arith, laws.read_array body size);
      }
    ]
    | inr (x, e) ↦ ground arith
  ]

  -- A string that was read is well formed, and its encoding within the limit.
  pub read_string_bounds :
      (r : List ℕ) (max_bytes : ℕ) (reason : ProtocolErrorReason) (s : Text) (rest : List ℕ)
      → read_string l r max_bytes reason ≡ ok (s, rest)
      → (length (l.encode_utf8 s) ≤ max_bytes) × (l.is_well_formed s ≡ true)
  read_string_bounds r max_bytes reason s rest h =
      let p = read_string_parts r max_bytes reason s rest h in
      let (same, well) = laws.encode-decode (take p.size p.body) s p.decoded in
      (rw same (omega (arith, length-take p.size p.body p.present, p.bounded)), well)

  pub read_string-append :
      (r more : List ℕ) (max_bytes : ℕ) (reason : ProtocolErrorReason) (s : Text) (rest : List ℕ)
      → read_string l r max_bytes reason ≡ ok (s, rest)
      → read_string l (r ++ more) max_bytes reason ≡ ok (s, rest ++ more)
  read_string-append r more max_bytes reason s rest h =
      let p = read_string_parts r max_bytes reason s rest h in
      let cut = take-append_le p.size p.body more p.present in
      read_string_body (r ++ more) (p.body ++ more) p.size max_bytes reason s
        (read_var_uint-append r more p.size p.body p.counted) p.bounded
        (omega (arith, length-append p.body more, p.present)) (rw cut.0 p.decoded)
      ∙ ground (arith, cut.1, p.remains)

  -- assertDone passes exactly at the end of the message.
  pub assert_done_cases :
      (r : List ℕ)
      → ((r ≡ []) × (assert_done l r ≡ ok tt)) ⊎ ((r ≢ []) × (assert_done l r ≡ err trailing_data))
  unfolding assert_done
  assert_done_cases [] = inl (refl, ground (arith, laws.content_nil))
  assert_done_cases (b ∷ r) = inr ((λ e. cc), ground (arith, laws.content_cons b r))
