-- ===== src/Base/ParseInt.antt =====
-- parseInt of JavaScript for the radix 10, with exact integers.
use Prim.Native.Nat.{ℕ, zero, suc, ◌+◌, ◌-◌, ◌*◌}
use mathlib.Core.Bool.{Bool, true, false, ◌&&◌, ◌||◌}
use mathlib.Core.Option.{Option, none, some}
use mathlib.Core.List.{[], ◌∷◌}
use vip_real_time_collaborat.Base.Tests.{leb, ◌==◌, if◌then◌else◌}
use vip_real_time_collaborat.Base.Text.{Text}
use vip_real_time_collaborat.Base.Integers.{ℤ, pos, negsuc}

-- The white space and line terminators that parseInt skips.
abbrev is_str_white_space : ℕ → Bool
is_str_white_space c =
    (leb 9 c && leb c 13)
    || (c == 32
        || (c == 160
            || (c == 0x1680
                || ((leb 0x2000 c && leb c 0x200a)
                    || (c == 0x2028
                        || (c == 0x2029
                            || (c == 0x202f || (c == 0x205f || (c == 0x3000 || c == 0xfeff)))))))))

unfoldable pub skip_white_space : Text → Text
skip_white_space [] = []
skip_white_space (c ∷ s) = if is_str_white_space c then skip_white_space s else c ∷ s

abbrev pub is_digit : ℕ → Bool
is_digit c = leb 48 c && leb c 57

-- The value of the digits that a text begins with, after those read so far.
unfoldable pub digits_value : ℕ → Text → ℕ
digits_value read [] = read
digits_value read (c ∷ s) = if is_digit c then digits_value (read * 10 + (c - 48)) s else read

unfoldable pub parse_digits : Text → Option ℕ
unfolding digits_value
parse_digits [] = none
parse_digits (c ∷ s) = if is_digit c then some (digits_value 0 (c ∷ s)) else none

abbrev negated : ℕ → ℤ
negated zero = pos zero
negated (suc n) = negsuc n

abbrev signed : Bool → Option ℕ → Option ℤ
signed negative none = none
signed negative (some n) = some (if negative then negated n else pos n)

abbrev parse_signed : Text → Option ℤ
parse_signed [] = none
parse_signed (c ∷ s) =
    if c == 45
    then signed true (parse_digits s)
    else if c == 43
    then signed false (parse_digits s)
    else signed false (parse_digits (c ∷ s))

-- `parseInt( s, 10 )`; `none` is NaN. Integers are exact.
unfoldable pub parse_int : Text → Option ℤ
unfolding skip_white_space parse_digits
parse_int s = parse_signed (skip_white_space s)
