-- ===== src/Inbox/Text.antt =====
-- Texts that the inbox looks into: a Go string as the list of its code points. `validText` of
-- backend/internal/inbox/service.go and `identityDigits` of backend/internal/inbox/materialize.go.
use whats.Base.{
  ℕ, ◌+◌, Bool, not, ◌&&◌, ◌||◌, List, [], ◌∷◌, ltb, leb, ◌==◌, nat_eq, length, all, any,
  if◌then◌else◌,
}

abbrev pub Text : Type 0
Text = List ℕ

-- `unicode.IsSpace`, by which `strings.TrimSpace` trims
unfoldable pub is_space : ℕ → Bool
is_space c =
    (leb 9 c && leb c 13)
    || c == 32
    || c == 0x85
    || c == 0xa0
    || c == 0x1680
    || (leb 0x2000 c && leb c 0x200a)
    || c == 0x2028
    || c == 0x2029
    || c == 0x202f
    || c == 0x205f
    || c == 0x3000

-- `strings.TrimSpace(v) == ""`
unfoldable pub is_blank : Text → Bool
is_blank v = all is_space v

-- `len(v)`: the number of bytes of the UTF-8 encoding
unfoldable pub byte_length : Text → ℕ
byte_length [] = 0
byte_length (c ∷ v) =
    (if ltb c 0x80 then 1 else if ltb c 0x800 then 2 else if ltb c 0x10000 then 3 else 4)
    + byte_length v

unfoldable pub valid_text : Text → ℕ → Bool
unfolding is_blank
valid_text v max = not (is_blank v) && leb (length v) max && not (any (λ c. c == 0) v)

unfoldable pub is_digit : ℕ → Bool
is_digit c = leb b'0' c && leb c b'9'

unfoldable pub identity_digits : Text → Bool
unfolding byte_length is_digit
identity_digits v = leb 5 (byte_length v) && leb (byte_length v) 32 && all is_digit v
