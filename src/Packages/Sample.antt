-- ===== src/Packages/Sample.antt =====
-- A concrete lib0 that keeps the documented behaviour, for the runs and the examples.
-- Texts are written one byte to a code unit, as ASCII texts are.
use vip_real_time_collaborat.Base.{
  ℕ, zero, suc, ◌+◌, ◌/◌, ◌%◌, ◌≤◌, ◌<◌, ◌≡◌, refl, Bool, true, false, some, List, [], ◌∷◌, ◌++◌,
  arith, ltb, if◌then◌else◌, take, drop,
}
use vip_real_time_collaborat.Packages.{
  Lib0, Lib0Laws, Ws, WsLaws, connecting, opened, closing, closed,
}

unfoldable pub put : ℕ → List ℕ → ℕ → List ℕ
put zero e v = e
put (suc fuel) e v =
    let more = put fuel (e ++ (v % 128 + 128) ∷ []) (v / 128) in
    if ltb v 128 then e ++ v ∷ [] else more

put_enough : (f g : ℕ) (e : List ℕ) (v : ℕ) → v < f → v < g → put f e v ≡ put g e v
unfolding put
put_enough zero g e v h k = absurd (omega arith)
put_enough (suc f) zero e v h k = absurd (omega arith)
put_enough (suc f) (suc g) e v h k =
    ground (arith, put_enough f g (e ++ (v % 128 + 128) ∷ []) (v / 128))

abbrev has_bytes : List ℕ → Bool
has_bytes [] = false
has_bytes (b ∷ r) = true

abbrev pub sample_lib0 : Lib0
sample_lib0 = record {
  write_var_uint = λ e v. put (suc v) e v;
  write_uint8_array = λ e bs. e ++ bs;
  read_uint8_array = λ r n. (take n r, drop n r);
  read_tail = λ r. r;
  has_content = has_bytes;
  encode_utf8 = λ s. s;
  decode_utf8 = λ bs. some bs;
  is_well_formed = λ s. true;
}

put_last : (e : List ℕ) (v : ℕ) → v < 128 → put (suc v) e v ≡ e ++ v ∷ []
unfolding put
put_last e v h = ground arith

put_group :
    (e : List ℕ) (v : ℕ)
    → 128 ≤ v
    → put (suc v) e v ≡ put (suc (v / 128)) (e ++ (v % 128 + 128) ∷ []) (v / 128)
unfolding put
put_group e v h = ground (
  arith,
  put_enough v (suc (v / 128)) (e ++ (v % 128 + 128) ∷ []) (v / 128) (omega arith) (omega arith),
)

pub sample_laws : Lib0Laws sample_lib0
sample_laws = record {
  write_last = put_last;
  write_group = put_group;
  write_array = λ e bs. refl;
  read_array = λ r n h. refl;
  tail_all = λ r. refl;
  content_nil = refl;
  content_cons = λ b r. refl;
  decode-encode = λ s h. refl;
  encode-decode = λ bs s h. (cc, refl);
}

-- A socket that is closing or closed stays so.
abbrev pub sample_ws : Ws
sample_ws = record {
  after_close = elim [
    | closed ↦ closed
    | connecting ↦ closing
    | opened ↦ closing
    | closing ↦ closing
  ];
  after_terminate = λ r. closed;
}

pub sample_ws_laws : WsLaws sample_ws
sample_ws_laws = record {
  close_ends = elim [ closed ↦ refl | connecting ↦ refl | opened ↦ refl | closing ↦ refl ];
  terminate_ends = λ r. refl;
}
