-- ===== src/Client/ErrorMessage/Chains.antt =====
-- src/utilities/error.ts: getErrorMessage comes back where no object leads back to itself, with the message
-- of the last value.
use vip_real_time_collaborat.Base.{
  ℕ, zero, suc, ◌<◌, ◌≡◌, refl, ap, ◌∙◌, inl, inr, Bool, true, false, Option, none, some, [], arith,
  if◌then◌else◌, Option-cases,
}
use vip_real_time_collaborat.Base.Text.{Text, text, or_text}
use vip_real_time_collaborat.Client.ErrorMessage.{
  Value, other, string, object, Object, Heap, object_at, object_of, error_property, data_error,
  error_text, message_text, Level, found, deeper, plain_level, object_level, level,
  get_error_message,
}

abbrev error_in : Heap → Option Value → Option Value
error_in heap none = none
error_in heap (some d) = elim (object_of heap d) [ none ↦ none | some o ↦ o.error ]

abbrev following_at : Heap → Option Object → Option Value
following_at heap none = none
following_at heap (some o) = if o.is_error then none else error_in heap o.data_property

-- `v.data.error`, where `v` is an object that is no Error and `data` an object that has `error`.
unfoldable pub following : Heap → Value → Option Value
unfolding object_at
following heap v = following_at heap (object_of heap v)

abbrev text_of : Option Value → Option Text
text_of (some (string t)) = some t
text_of _ = none

abbrev own_at : Text → Option Object → Text
own_at default_message none = default_message
own_at default_message (some o) =
    or_text (text_of o.message) (if o.is_error then [] else default_message)

-- The message that a value has itself: its `message` where that is a string. An Error without one has the
-- empty text, anything else the default.
unfoldable pub own_message : Heap → Option Text → Value → Text
unfolding object_at
own_message heap m v = own_at (or_text m (text "Unknown error")) (object_of heap v)

-- `last` is where the chain of `data.error` from a value ends.
pub data ChainEnds (heap : Heap) (last : Value) : Value → Type 0 where
  here : following heap last ≡ none → ChainEnds heap last last
  there : (v w : Value) → following heap v ≡ some w → ChainEnds heap last w → ChainEnds heap last v

-- The heap has no cycle through `data.error`: a rank of the objects goes down along it.
abbrev pub IsRanked : Heap → (ℕ → ℕ) → Type 0
IsRanked heap rank = (a b : ℕ) → following heap (object a) ≡ some (object b) → rank b < rank a

abbrev pub height : (ℕ → ℕ) → Value → ℕ
height rank other = 0
height rank (string t) = 0
height rank (object a) = suc (rank a)

abbrev level_of : Text → Option Value → Level
level_of t none = found t
level_of t (some w) = deeper w

error_text_lem : (v : Option Value) → error_text v ≡ or_text (text_of v) []
error_text_lem none = refl
error_text_lem (some other) = refl
error_text_lem (some (string t)) = refl
error_text_lem (some (object a)) = refl

message_text_lem :
    (m : Option Text) (v : Option Value)
    → message_text m v ≡ or_text (text_of v) (or_text m (text "Unknown error"))
message_text_lem m none = refl
message_text_lem m (some other) = refl
message_text_lem m (some (string t)) = refl
message_text_lem m (some (object a)) = refl

error_property_lem :
    (o : Option Object)
    → error_property o ≡ (elim o as (λ x. Option Value) [ none ↦ none | some e ↦ e.error ])
error_property_lem none = refl
error_property_lem (some o) = refl

data_error_lem : (heap : Heap) (p : Option Value) → data_error heap p ≡ error_in heap p
data_error_lem heap none = refl
data_error_lem heap (some v) = error_property_lem (object_of heap v)

plain_level_lem :
    (m : Option Text) (message d : Option Value)
    → plain_level m message d ≡ level_of (message_text m message) d
plain_level_lem m message none = refl
plain_level_lem m message (some w) = refl

object_level_lem :
    (heap : Heap) (m : Option Text) (o : Option Object)
    → object_level heap m o
      ≡ level_of (own_at (or_text m (text "Unknown error")) o) (following_at heap o)
object_level_lem heap m none = refl
object_level_lem heap m (some o) = either o.is_error
  where
    either :
        (b : Bool)
        → (if b
            then found (error_text o.message)
            else plain_level m o.message (data_error heap o.data_property))
          ≡ level_of
              (or_text (text_of o.message) (if b then [] else or_text m (text "Unknown error")))
              (if b then none else error_in heap o.data_property)
    either true = ap found (error_text_lem o.message)
    either false =
        plain_level_lem m o.message (data_error heap o.data_property)
        ∙ (ap (level_of (message_text m o.message)) (data_error_lem heap o.data_property)
            ∙ ap (λ t. level_of t (error_in heap o.data_property)) (message_text_lem m o.message))

level_lem :
    (heap : Heap) (m : Option Text) (v : Value)
    → level heap m v ≡ level_of (own_message heap m v) (following heap v)
unfolding level own_message following
level_lem heap m v = object_level_lem heap m (object_of heap v)

following-height :
    (heap : Heap) (rank : ℕ → ℕ) (v w : Value)
    → IsRanked heap rank
    → following heap v ≡ some w
    → height rank w < height rank v
unfolding following
following-height heap rank other w r h = absurd cc
following-height heap rank (string t) w r h = absurd cc
following-height heap rank (object a) other r h = omega arith
following-height heap rank (object a) (string t) r h = omega arith
following-height heap rank (object a) (object b) r h = omega (arith, r a b h)

-- Where no object leads back to itself, the call comes back: with fuel for the rank of its value it returns
-- the message of the value at the end of the chain of `data.error`, that value's own text, or the default
-- if it has none.
pub get_error_message-ChainEnds :
    (heap : Heap) (m : Option Text) (rank : ℕ → ℕ) (fuel : ℕ) (v : Value)
    → IsRanked heap rank
    → height rank v < fuel
    → (last : Value) × (ChainEnds heap last v
        × (get_error_message fuel heap m v ≡ some (own_message heap m last)))
unfolding get_error_message
get_error_message-ChainEnds heap m rank zero v r h = absurd (omega arith)
get_error_message-ChainEnds heap m rank (suc fuel) v r h = elim (Option-cases (following heap v)) [
  | inl e ↦
      let found_here = level_lem heap m v ∙ ap (level_of (own_message heap m v)) e in
      (v, (here e, rw (get_error_message, found_here) refl))
  | inr (w, e) ↦
      let deeper_here = level_lem heap m v ∙ ap (level_of (own_message heap m v)) e in
      let (last, (ends, returned)) =
        get_error_message-ChainEnds heap m rank fuel w r
          (omega (arith, h, following-height heap rank v w r e)) in
      (last, (there v w e ends, rw (get_error_message, deeper_here) returned))
]
