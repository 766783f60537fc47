-- ===== src/Client/ErrorMessage.antt =====
-- src/utilities/error.ts: getErrorMessage, which follows `data.error` from object to object.
pub mod Chains
mod Examples
use vip_real_time_collaborat.Base.{
  ℕ, zero, suc, Bool, true, false, Option, none, some, List, [], ◌∷◌, if◌then◌else◌,
}
use vip_real_time_collaborat.Base.Text.{Text, text, or_text}

-- A value of JavaScript: undefined, null, a number or a boolean, a string, or an object by its address.
pub data Value : Type 0 where
  other : Value
  string : Text → Value
  object : ℕ → Value

-- The properties that are read, `none` where the object does not have one; an Error may have any of them.
pub record Object : Type 0 where
  pub is_error : Bool
  pub message : Option Value
  pub data_property : Option Value
  pub error : Option Value

abbrev pub Heap : Type 0
Heap = List Object

unfoldable pub object_at : Heap → ℕ → Option Object
object_at [] a = none
object_at (o ∷ heap) zero = some o
object_at (o ∷ heap) (suc a) = object_at heap a

abbrev pub object_of : Heap → Value → Option Object
object_of heap other = none
object_of heap (string t) = none
object_of heap (object a) = object_at heap a

abbrev pub error_property : Option Object → Option Value
error_property none = none
error_property (some o) = o.error

-- `error.data.error`, where `data` is an object that has `error`.
abbrev pub data_error : Heap → Option Value → Option Value
data_error heap none = none
data_error heap (some v) = error_property (object_of heap v)

-- `message` of an Error; without one of its own it is the empty string of the prototype.
abbrev pub error_text : Option Value → Text
error_text (some (string t)) = t
error_text _ = []

abbrev pub default_text : Option Text → Text
default_text default_message = or_text default_message (text "Unknown error")

abbrev pub message_text : Option Text → Option Value → Text
message_text default_message (some (string t)) = t
message_text default_message _ = default_text default_message

-- One level of the call: a message, or the value on which the function calls itself.
pub data Level : Type 0 where
  found : Text → Level
  deeper : Value → Level

abbrev pub plain_level : Option Text → Option Value → Option Value → Level
plain_level default_message message none = found (message_text default_message message)
plain_level default_message message (some v) = deeper v

abbrev pub object_level : Heap → Option Text → Option Object → Level
object_level heap default_message none = found (default_text default_message)
object_level heap default_message (some o) =
    if o.is_error
    then found (error_text o.message)
    else plain_level default_message o.message (data_error heap o.data_property)

unfoldable pub level : Heap → Option Text → Value → Level
unfolding object_at
level heap default_message v = object_level heap default_message (object_of heap v)

-- On fuel; `none` is that the call has not come back.
unfoldable pub get_error_message : ℕ → Heap → Option Text → Value → Option Text
unfolding level
get_error_message zero heap default_message v = none
get_error_message (suc fuel) heap default_message v = elim (level heap default_message v) [
  | found t ↦ some t
  | deeper w ↦ get_error_message fuel heap default_message w
]
