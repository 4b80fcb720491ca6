-- ===== src/Text/Escape.antt =====
-- Bytes of a text, hexadecimal digits (fmt's `%02X` and `%x`), and `url.PathEscape`.
use Prim.Native.Char.{Char, code}
use Prim.Native.String.{String, [], ◌∷◌}
use mathlib.Core.List.{List, [], ◌∷◌, ◌++◌}
use authentik_operator.Prelude.{
  ℕ, zero, suc, ◌+◌, ◌/◌, ◌%◌, ◌<>◌, Bool, ◌&&◌, ◌||◌, if◌then◌else◌, leb, ltb, nat_eq,
}

-- The UTF-8 of one character.
unfoldable pub utf8_char : ℕ → List ℕ
utf8_char c =
    if ltb c 0x80
    then c ∷ []
    else if ltb c 0x800
    then (0xc0 + c / 0x40) ∷ (0x80 + c % 0x40) ∷ []
    else if ltb c 0x10000
    then (0xe0 + c / 0x1000) ∷ (0x80 + c / 0x40 % 0x40) ∷ (0x80 + c % 0x40) ∷ []
    else (0xf0 + c / 0x40000)
      ∷ (0x80 + c / 0x1000 % 0x40)
      ∷ (0x80 + c / 0x40 % 0x40)
      ∷ (0x80 + c % 0x40)
      ∷ []

-- `[]byte(s)`
unfoldable pub utf8 : String → List ℕ
unfolding utf8_char
utf8 [] = []
utf8 (c ∷ s) = utf8_char (code c) ++ utf8 s

-- the character of a table at a position
unfoldable pub nth_char : String → ℕ → Char
nth_char [] n = "?"
nth_char (c ∷ s) zero = c
nth_char (c ∷ s) (suc n) = nth_char s n

abbrev pub upper_digits : String
upper_digits = "0123456789ABCDEF"

abbrev pub lower_digits : String
lower_digits = "0123456789abcdef"

-- A byte by two digits of the table.
unfoldable pub hex_byte : String → ℕ → String
unfolding nth_char
hex_byte digits b = nth_char digits (b / 16) ∷ nth_char digits (b % 16) ∷ ""

-- `%x` of a slice of bytes
unfoldable pub hex_bytes : List ℕ → String
unfolding hex_byte
hex_bytes [] = ""
hex_bytes (b ∷ bs) = hex_byte lower_digits b <> hex_bytes bs

-- `!shouldEscape(c, encodePathSegment)`, of net/url
unfoldable pub is_unreserved : ℕ → Bool
is_unreserved c =
    (leb b'a' c && leb c b'z')
    || (leb b'A' c && leb c b'Z')
    || (leb b'0' c && leb c b'9')
    || nat_eq c b'-'
    || nat_eq c b'_'
    || nat_eq c b'.'
    || nat_eq c b'~'
    || nat_eq c b'$'
    || nat_eq c b'&'
    || nat_eq c b'+'
    || nat_eq c b':'
    || nat_eq c b'='
    || nat_eq c b'@'

-- Each byte as `%XX`.
unfoldable pub percent : List ℕ → String
unfolding hex_byte
percent [] = ""
percent (b ∷ bs) = "%" <> (hex_byte upper_digits b <> percent bs)

-- `url.PathEscape(s)`
unfoldable pub path_escape : String → String
unfolding is_unreserved percent utf8_char
path_escape [] = ""
path_escape (c ∷ s) =
    let rest = path_escape s in
    if is_unreserved (code c) then c ∷ rest else percent (utf8_char (code c)) <> rest
