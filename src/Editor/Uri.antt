-- ===== src/Editor/Uri.antt =====
-- JavaScript's encodeURIComponent and the form encoding of URLSearchParams, on UTF-16 code units.
use vip_real_time_collaborat.Base.{
  ℕ, ◌+◌, ◌-◌, ◌*◌, ◌/◌, ◌%◌, ◌≡◌, refl, Bool, true, false, not, ◌&&◌, ◌||◌, Option, none, some, [],
  ◌∷◌, ◌++◌, arith, ◌==◌, ltb, leb, if◌then◌else◌, Bool-cases, inl, inr,
}
use vip_real_time_collaborat.Base.Text.{Text, text}

abbrev between : ℕ → ℕ → ℕ → Bool
between low high u = leb low u && leb u high

unfoldable pub is_high : ℕ → Bool
is_high u = between 0xd800 0xdbff u

unfoldable pub is_low : ℕ → Bool
is_low u = between 0xdc00 0xdfff u

abbrev is_alphanumeric : ℕ → Bool
is_alphanumeric u = between 48 57 u || between 65 90 u || between 97 122 u

abbrev is_mark : Text → ℕ → Bool
is_mark [] u = false
is_mark (v ∷ vs) u = u == v || is_mark vs u

abbrev hex_digit : ℕ → ℕ
hex_digit n = if ltb n 10 then 48 + n else 55 + n

abbrev percent : ℕ → Text
percent byte = 37 ∷ hex_digit (byte / 16) ∷ hex_digit (byte % 16) ∷ []

-- The bytes of a code point in UTF-8, each as `%XX`.
unfoldable pub utf8_percent : ℕ → Text
utf8_percent c =
    if ltb c 0x80
    then percent c
    else if ltb c 0x800
    then percent (0xc0 + c / 64) ++ percent (0x80 + c % 64)
    else if ltb c 0x10000
    then percent (0xe0 + c / 4096) ++ percent (0x80 + c / 64 % 64) ++ percent (0x80 + c % 64)
    else percent (0xf0 + c / 262144)
      ++ percent (0x80 + c / 4096 % 64)
      ++ percent (0x80 + c / 64 % 64)
      ++ percent (0x80 + c % 64)

abbrev code_point : ℕ → ℕ → ℕ
code_point high low = 0x10000 + (high - 0xd800) * 1024 + (low - 0xdc00)

unfoldable pub prepend : Text → Option Text → Option Text
prepend t none = none
prepend t (some rest) = some (t ++ rest)

-- The unreserved marks are those of `-_.!~*'()`.
abbrev unit_kept : ℕ → Bool
unit_kept u = is_alphanumeric u || is_mark (text "-_.!~*'()") u

abbrev encode_unit : ℕ → Text
encode_unit u = if unit_kept u then u ∷ [] else utf8_percent u

abbrev pending : ℕ → Option ℕ
pending u = if is_high u then some u else none

-- A high surrogate waits for its other half; `none` is the URIError for one that stays alone.
unfoldable pub encode_from : Option ℕ → Text → Option Text
unfolding prepend utf8_percent
encode_from none [] = some []
encode_from (some high) [] = none
encode_from none (u ∷ t) =
    let rest = encode_from (pending u) t in
    if is_low u then none else if is_high u then rest else prepend (encode_unit u) rest
encode_from (some high) (u ∷ t) =
    let rest = encode_from none t in
    if is_low u then prepend (utf8_percent (code_point high u)) rest else none

unfoldable pub encode_uri_component : Text → Option Text
unfolding encode_from
encode_uri_component t = encode_from none t

abbrev form_unit : ℕ → Text
form_unit u =
    if u == 32
    then text "+"
    else if is_alphanumeric u || is_mark (text "*-._") u
    then u ∷ []
    else utf8_percent u

abbrev replacement : Text
replacement = text "%EF%BF%BD"

abbrev form_alone : ℕ → Text
form_alone u = if is_high u then [] else if is_low u then replacement else form_unit u

-- The serializer of URLSearchParams, which replaces a surrogate without its other half.
unfoldable pub form_from : Option ℕ → Text → Text
unfolding utf8_percent
form_from none [] = []
form_from (some high) [] = replacement
form_from none (u ∷ t) = form_alone u ++ form_from (pending u) t
form_from (some high) (u ∷ t) =
    let rest = form_from (if is_low u then none else pending u) t in
    if is_low u
    then utf8_percent (code_point high u) ++ rest
    else replacement ++ form_alone u ++ rest

unfoldable pub form_encode : Text → Text
unfolding form_from
form_encode t = form_from none t

-- Every surrogate has its other half.
unfoldable pub well_formed_from : Bool → Text → Bool
well_formed_from waiting [] = not waiting
well_formed_from waiting (u ∷ t) =
    let rest = well_formed_from (if waiting then false else is_high u) t in
    if waiting then is_low u && rest else not (is_low u) && rest

abbrev pub IsWellFormed : Text → Type 0
IsWellFormed t = well_formed_from false t ≡ true

pub well_formed_from-append :
    (waiting : Bool) (s t : Text)
    → well_formed_from waiting s ≡ true
    → well_formed_from false t ≡ true
    → well_formed_from waiting (s ++ t) ≡ true
unfolding well_formed_from
well_formed_from-append waiting [] t h k = ground (arith, h, k)
well_formed_from-append waiting (u ∷ s) t h k =
    ground (arith, well_formed_from-append (if waiting then false else is_high u) s t, h, k)

abbrev is_waiting : Option ℕ → Bool
is_waiting none = false
is_waiting (some high) = true

prepend-some :
    (t : Text) (o : Option Text) → ((e : Text) × (o ≡ some e)) → (e : Text) × (prepend t o ≡ some e)
unfolding prepend
prepend-some t o (e, h) = rw h (t ++ e, refl)

prepend_first :
    (u : ℕ) (lead : Text) (o : Option Text) (b : Bool)
    → (b ≡ true → (e : Text) × (o ≡ some e))
    → (is_low u && b) ≡ true
    → (e : Text) × ((if is_low u then prepend lead o else none) ≡ some e)
prepend_first u lead o b g h = elim (Bool-cases (is_low u)) [
  | inl e ↦ rw e (prepend-some lead o (g (cc)))
  | inr e ↦ absurd (ground (arith, e, h))
]

encode_first :
    (u : ℕ) (t : Text)
    → ((p : Option ℕ)
        → well_formed_from (is_waiting p) t ≡ true
        → (e : Text) × (encode_from p t ≡ some e))
    → (not (is_low u) && well_formed_from (is_high u) t) ≡ true
    → (e : Text) × (encode_from none (u ∷ t) ≡ some e)
unfolding encode_from
encode_first u t g h = elim (Bool-cases (is_low u)) [
  | inl e ↦ absurd (ground (arith, e, h))
  | inr e ↦ elim (Bool-cases (is_high u)) [
    | inl k ↦ simp (e, k) (g (some u) (ground (arith, e, k, h)))
    | inr k ↦
        simp (e, k)
          (prepend-some (encode_unit u) (encode_from none t) (g none (ground (arith, e, k, h))))
  ]
]

encode_from-IsWellFormed :
    (waiting : Option ℕ) (t : Text)
    → well_formed_from (is_waiting waiting) t ≡ true
    → (e : Text) × (encode_from waiting t ≡ some e)
unfolding well_formed_from encode_from
encode_from-IsWellFormed none [] h = ([], refl)
encode_from-IsWellFormed (some high) [] h = absurd cc
encode_from-IsWellFormed none (u ∷ t) h = encode_first u t (λ p k. encode_from-IsWellFormed p t k) h
encode_from-IsWellFormed (some high) (u ∷ t) h =
    prepend_first u (utf8_percent (code_point high u)) (encode_from none t)
      (well_formed_from false t) (encode_from-IsWellFormed none t) h

pub encode_uri_component-IsWellFormed :
    (t : Text) → IsWellFormed t → (e : Text) × (encode_uri_component t ≡ some e)
unfolding encode_uri_component
encode_uri_component-IsWellFormed t h = encode_from-IsWellFormed none t h
