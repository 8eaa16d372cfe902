-- ===== src/Inbox/Amount.antt =====
-- Decimal amounts: `amount` of backend/internal/inbox/registry.go. The
-- pattern admits eight decimal places, so a `*big.Rat` is exactly a number of units of 10^-8.
pub mod RoundTrip
use whats.Base.{
  ℕ, zero, suc, ◌+◌, ◌-◌, ◌*◌, ◌/◌, ◌%◌, ◌^◌, Bool, ◌&&◌, List, [], ◌∷◌, ◌++◌, Option, none, some,
  leb, ◌==◌, nat_eq, length, all, if◌then◌else◌,
}
use whats.Inbox.Text.{Text, is_digit}

-- A non-negative rational with eight decimal places, in units of 10^-8.
abbrev pub Units : Type 0
Units = ℕ

-- `{1,n}` digits
unfoldable pub is_digits : ℕ → Text → Bool
is_digits n s = leb 1 (length s) && leb (length s) n && all is_digit s

-- The text before the first point, and the text behind it if there is one.
unfoldable pub split_point : Text → Text × Option Text
split_point [] = ([], none)
split_point (c ∷ s) =
    let rest = split_point s in if c == b'.' then ([], some s) else (c ∷ rest.0, rest.1)

unfoldable pub digits_value : ℕ → Text → ℕ
digits_value acc [] = acc
digits_value acc (c ∷ s) = digits_value (10 * acc + (c - b'0')) s

-- `^[0-9]{1,16}(\.[0-9]{1,8})?$`, and the value of what it matches
unfoldable pub amount_parts : Text × Option Text → Option Units
amount_parts (whole, none) =
    if is_digits 16 whole then some (digits_value 0 whole * 10 ^ 8) else none
amount_parts (whole, some frac) =
    if is_digits 16 whole && is_digits 8 frac
    then some (digits_value 0 whole * 10 ^ 8 + digits_value 0 frac * 10 ^ (8 - length frac))
    else none

unfoldable pub amount : Text → Option Units
amount v = amount_parts (split_point v)

-- The last `n` digits of a number, most significant first.
unfoldable pub low_digits : ℕ → ℕ → Text
low_digits zero v = []
low_digits (suc n) v = low_digits n (v / 10) ++ (b'0' + v % 10) ∷ []

-- The digits of a number without leading zeros; the fuel bounds their count.
unfoldable pub decimal : ℕ → ℕ → Text
decimal zero v = []
decimal (suc fuel) v =
    let rest = decimal fuel (v / 10) in (if v / 10 == 0 then [] else rest) ++ (b'0' + v % 10) ∷ []

-- `FloatString(8)`: a number of units is exact with eight places, so nothing is rounded. The fuel
-- `v + 1` exceeds the number of digits.
unfoldable pub float_string_8 : Units → Text
float_string_8 v = decimal (v / 10 ^ 8 + 1) (v / 10 ^ 8) ++ b'.' ∷ low_digits 8 (v % 10 ^ 8)
