-- ===== src/Client/Rooms/Names.antt =====
-- src/websocket-client.ts: the names of rooms tell documents apart.
use mathlib.Core.List.{append_cancel_left}
use vip_real_time_collaborat.Base.{
  ◌≡◌, ◌≢◌, refl, sym, ap, ◌∙◌, Bool, true, false, ◌&&◌, ◌||◌, Option, none, some, [], ◌∷◌, ◌++◌,
  arith, ◌==◌,
}
use vip_real_time_collaborat.Base.Text.{Text, text, or_text}
use vip_real_time_collaborat.Base.ParseInt.{is_digit}
use vip_real_time_collaborat.Client.Rooms.{room_name}

-- An object's id is null, or a number as WordPress prints it: one or more digits.
abbrev all_digits : Text → Bool
all_digits [] = true
all_digits (c ∷ s) = is_digit c && all_digits s

abbrev pub IsId : Option Text → Type 0
IsId none = Unit {0}
IsId (some s) = (all_digits s ≡ true) × (s ≢ [])

abbrev has_dash : Text → Bool
has_dash [] = false
has_dash (c ∷ s) = c == 45 || has_dash s

has_dash-append : (s t : Text) → has_dash (s ++ 45 ∷ t) ≡ true
has_dash-append [] t = refl
has_dash-append (c ∷ s) t = ground (arith, has_dash-append s t)

-- The text before and after the last dash.
last_dash :
    (s s' a b : Text)
    → has_dash a ≡ false
    → has_dash b ≡ false
    → s ++ 45 ∷ a ≡ s' ++ 45 ∷ b
    → (s ≡ s') × (a ≡ b)
last_dash [] [] a b h k e = (refl, cc)
last_dash [] (c ∷ s') a b h k e =
    let tail : a ≡ s' ++ 45 ∷ b = cc in
    absurd (let g : has_dash a ≡ true = rw tail (has_dash-append s' b) in cc)
last_dash (c ∷ s) [] a b h k e =
    let tail : s ++ 45 ∷ a ≡ b = cc in
    absurd (let g : has_dash b ≡ true = rw (← tail) (has_dash-append s a) in cc)
last_dash (c ∷ s) (d ∷ s') a b h k e = let (p, q) = last_dash s s' a b h k (cc) in (cc, q)

digits_dashless : (s : Text) → all_digits s ≡ true → has_dash s ≡ false
digits_dashless [] h = refl
digits_dashless (c ∷ s) h = ground (arith, digits_dashless s)

id_dashless : (o : Option Text) → IsId o → has_dash (or_text o (text "collection")) ≡ false
id_dashless none h = refl
id_dashless (some s) h = digits_dashless s h.0

collection_clash : (s : Text) → all_digits s ≡ true → s ≢ text "collection"
collection_clash s h e = absurd (let g : true ≡ false = sym h ∙ ap all_digits e in cc)

or_text-IsId :
    (o p : Option Text)
    → IsId o
    → IsId p
    → or_text o (text "collection") ≡ or_text p (text "collection")
    → o ≡ p
or_text-IsId none none h k e = refl
or_text-IsId none (some s) h k e = absurd (collection_clash s k.0 (sym e))
or_text-IsId (some s) none h k e = absurd (collection_clash s h.0 e)
or_text-IsId (some s) (some t) h k e = ap some e

-- On a site, two objects whose ids are null or decimal share a room only if they are the same object: the
-- name of a room tells the type and the id.
pub room_name_injective :
    (blog_id : Option Text) (type type' : Text) (id id' : Option Text)
    → IsId id
    → IsId id'
    → room_name blog_id type id ≡ room_name blog_id type' id'
    → (type ≡ type') × (id ≡ id')
unfolding room_name
room_name_injective blog_id type type' id id' h k e =
    let at = append_cancel_left (text "site-") _ _ e in
    let at_type =
      append_cancel_left (text "/") _ _ (append_cancel_left (or_text blog_id (text "1")) _ _ at) in
    let (p, q) = last_dash type type' _ _ (id_dashless id h) (id_dashless id' k) at_type in
    (p, or_text-IsId id id' h k q)
