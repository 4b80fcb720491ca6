-- ===== src/Text/Hex.antt =====
-- Hexadecimal digits, read back.
use Prim.Native.Char.{code}
use Prim.Native.String.{String, [], ◌∷◌}
use mathlib.Core.List.{List, [], ◌∷◌}
use text.Mathlib.TextLemmas.{cons-append, nil-append}
use authentik_operator.Prelude.{
  ℕ, zero, suc, ◌+◌, ◌-◌, ◌*◌, ◌/◌, ◌%◌, ◌<◌, ◌≡◌, refl, sym, ap, ◌∙◌, Bool, true, ◌&&◌,
  if◌then◌else◌, ltb, nat_eq, All, arith,
}
use authentik_operator.Text.Escape.{nth_char, lower_digits, upper_digits, hex_byte, hex_bytes}

-- The value of a digit, of either case.
unfoldable pub hex_value : ℕ → ℕ
hex_value c = if ltb c 58 then c - 48 else if ltb c 71 then c - 55 else c - 87

-- The bytes of pairs of digits.
unfoldable pub unhex : String → List ℕ
unhex [] = []
unhex (c ∷ []) = []
unhex (c ∷ (d ∷ s)) = (16 * hex_value (code c) + hex_value (code d)) ∷ unhex s

-- Every digit of the table, by evaluation.
pub digits_ok : String → ℕ → Bool
digits_ok digits zero = true
digits_ok digits (suc n) = nat_eq (hex_value (code (nth_char digits n))) n && digits_ok digits n

digits_ok-value :
    (digits : String) (n k : ℕ)
    → digits_ok digits n ≡ true
    → k < n
    → hex_value (code (nth_char digits k)) ≡ k
unfolding digits_ok
digits_ok-value digits zero k h lt = absurd (ground arith)
digits_ok-value digits (suc n) k h lt = ground (arith, digits_ok-value digits n k)

lower_ok : digits_ok lower_digits 16 ≡ true
unfolding digits_ok hex_value nth_char
lower_ok = refl

pub upper_ok : digits_ok upper_digits 16 ≡ true
unfolding digits_ok hex_value nth_char
upper_ok = refl

pub byte_value :
    (digits : String) (b : ℕ)
    → digits_ok digits 16 ≡ true
    → b < 256
    → 16 * hex_value (code (nth_char digits (b / 16))) + hex_value (code (nth_char digits (b % 16)))
      ≡ b
byte_value digits b h lt =
    rw
      (
        digits_ok-value digits 16 (b / 16) h (omega arith),
        digits_ok-value digits 16 (b % 16) h (omega arith),
      )
      (omega arith)

abbrev pub IsByte : ℕ → Type 0
IsByte b = b < 256

unhex-hex_bytes : (bs : List ℕ) → All IsByte bs → unhex (hex_bytes bs) ≡ bs
unfolding unhex hex_bytes hex_byte
unhex-hex_bytes [] h = refl
unhex-hex_bytes (b ∷ bs) (lt, h) =
    rw (cons-append, cons-append, nil-append)
      (rw (byte_value lower_digits b lower_ok lt, unhex-hex_bytes bs h) refl)

-- Bytes with the same digits are the same.
pub hex_bytes_inj : (a b : List ℕ) → All IsByte a → All IsByte b → hex_bytes a ≡ hex_bytes b → a ≡ b
hex_bytes_inj a b h k e = sym (unhex-hex_bytes a h) ∙ ap unhex e ∙ unhex-hex_bytes b k
