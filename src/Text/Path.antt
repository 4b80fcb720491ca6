-- ===== src/Text/Path.antt =====
-- `url.PathEscape`, read back.
use Prim.Native.Char.{code}
use Prim.Native.String.{String, [], ◌∷◌}
use mathlib.Core.List.{List, [], ◌∷◌, ◌++◌}
use text.Mathlib.TextLemmas.{cons-append, nil-append, append_assoc as text_assoc}
use authentik_operator.Prelude.{
  ℕ, zero, suc, ◌+◌, ◌*◌, ◌<◌, ◌/◌, ◌%◌, ◌<>◌, ◌≡◌, refl, ap, ◌∙◌, Bool, true, false, ◌&&◌, ◌||◌,
  leb, if◌then◌else◌, nat_eq, All, arith, Bool-cases, inl, inr,
}
use authentik_operator.Text.Escape.{
  utf8_char, utf8, nth_char, hex_byte, upper_digits, is_unreserved, percent, path_escape,
}
use authentik_operator.Text.Utf8.{code_lt}
use authentik_operator.Text.Hex.{IsByte, hex_value, byte_value, upper_ok}
use authentik_operator.Text.Laws.{Avoids}

-- What a server reads: the state counts the digits that follow a `%`, with the bits so far.
unescape : ℕ → ℕ → String → List ℕ
unescape n acc [] = []
unescape zero acc (c ∷ s) =
    if nat_eq (code c) b'%' then unescape 2 0 s else utf8_char (code c) ++ unescape 0 0 s
unescape (suc zero) acc (c ∷ s) = (16 * acc + hex_value (code c)) ∷ unescape 0 0 s
unescape (suc (suc n)) acc (c ∷ s) = unescape 1 (hex_value (code c)) s

-- The bytes that `url.PathUnescape` gives back.
unfoldable pub path_unescape : String → List ℕ
unfolding unescape
path_unescape s = unescape 0 0 s

utf8_char-IsByte : (n : ℕ) → n < 0x110000 → All IsByte (utf8_char n)
unfolding utf8_char
utf8_char-IsByte n lt = ground arith

percent-cons :
    (b : ℕ) (bs : List ℕ) (rest : String)
    → percent (b ∷ bs) <> rest
      ≡ "%"
        ∷ (nth_char upper_digits (b / 16) ∷ (nth_char upper_digits (b % 16) ∷ (percent bs <> rest)))
unfolding percent hex_byte
percent-cons b bs rest =
    text_assoc "%" (hex_byte upper_digits b <> percent bs) rest
    ∙ cons-append "%" "" ((hex_byte upper_digits b <> percent bs) <> rest)
    ∙ ap (λ s. "%" ∷ s) (simp (nil-append, cons-append))

unescape-percent :
    (bs : List ℕ) (rest : String)
    → All IsByte bs
    → unescape 0 0 (percent bs <> rest) ≡ bs ++ unescape 0 0 rest
unfolding unescape percent
unescape-percent [] rest h = rw nil-append refl
unescape-percent (b ∷ bs) rest (lt, h) =
    rw (percent-cons b bs rest)
      (rw (byte_value upper_digits b upper_ok lt, unescape-percent bs rest h) refl)

unreserved_ascii : (n : ℕ) → is_unreserved n ≡ true → (nat_eq n b'%' ≡ false) × (n < 0x80)
unfolding is_unreserved
unreserved_ascii n h = ground arith

unescape-path_escape : (s : String) → unescape 0 0 (path_escape s) ≡ utf8 s
unfolding unescape path_escape utf8
unescape-path_escape [] = refl
unescape-path_escape (c ∷ s) = elim (Bool-cases (is_unreserved (code c))) [
  | inl e ↦ rw e (rw ((unreserved_ascii (code c) e).0, unescape-path_escape s) refl)
  | inr e ↦ rw e (
      unescape-percent (utf8_char (code c)) (path_escape s) (utf8_char-IsByte (code c) (code_lt c))
      ∙ ap (λ l. utf8_char (code c) ++ l) (unescape-path_escape s))
]

-- What is escaped is read back as the bytes of the text.
pub path_unescape-path_escape : (s : String) → path_unescape (path_escape s) ≡ utf8 s
unfolding path_unescape
path_unescape-path_escape s = unescape-path_escape s

Avoids-append : (n : ℕ) (s t : String) → Avoids n s → Avoids n t → Avoids n (s <> t)
Avoids-append n [] t h k = rw nil-append k
Avoids-append n (c ∷ s) t (p, h) k = rw cons-append (p, Avoids-append n s t h k)

-- The digits are unreserved, by evaluation.
plain_digits : ℕ → Bool
plain_digits zero = true
plain_digits (suc n) = is_unreserved (code (nth_char upper_digits n)) && plain_digits n

plain_digits_lem :
    (n k : ℕ)
    → plain_digits n ≡ true
    → k < n
    → is_unreserved (code (nth_char upper_digits k)) ≡ true
unfolding plain_digits
plain_digits_lem zero k h lt = absurd (ground arith)
plain_digits_lem (suc n) k h lt = ground (arith, plain_digits_lem n k)

plain_sixteen : plain_digits 16 ≡ true
unfolding plain_digits is_unreserved nth_char
plain_sixteen = refl

module _ (n : ℕ) (reserved : is_unreserved n ≡ false) (other : nat_eq n b'%' ≡ false) where
  unreserved-ne : (c : ℕ) → is_unreserved c ≡ true → nat_eq c n ≡ false
  unreserved-ne c h = elim (Bool-cases (nat_eq c n)) [
    | inl e ↦
        let same : c ≡ n = ground arith in let bad = rw same at h in absurd (ground (arith, bad))
    | inr e ↦ e
  ]

  digit-ne : (k : ℕ) → k < 16 → nat_eq (code (nth_char upper_digits k)) n ≡ false
  digit-ne k lt = unreserved-ne _ (plain_digits_lem 16 k plain_sixteen lt)

  percent-Avoids :
      (bs : List ℕ)
      → All IsByte bs
      → (rest : String) → Avoids n rest
      → Avoids n (percent bs <> rest)
  unfolding percent
  percent-Avoids [] h rest k = rw nil-append k
  percent-Avoids (b ∷ bs) (lt, h) rest k = rw (percent-cons b bs rest) (
    ground arith,
    (
      digit-ne (b / 16) (omega arith),
      (digit-ne (b % 16) (omega arith), percent-Avoids bs h rest k),
    ),
  )

  -- A character that is escaped does not occur in the escaped text.
  pub path_escape-Avoids : (s : String) → Avoids n (path_escape s)
  unfolding path_escape
  path_escape-Avoids [] = tt
  path_escape-Avoids (c ∷ s) = elim (Bool-cases (is_unreserved (code c))) [
    | inl e ↦ rw e (unreserved-ne (code c) e, path_escape-Avoids s)
    | inr e ↦ rw e (
        percent-Avoids (utf8_char (code c)) (utf8_char-IsByte (code c) (code_lt c)) (path_escape s)
          (path_escape-Avoids s))
  ]

-- `pchar` of RFC 3986, 3.3, and the percent sign that leads an escaped byte: no slash, question mark, number
-- sign, blank or control character.
unfoldable pub is_pchar : ℕ → Bool
is_pchar c =
    -- unreserved
    (leb b'a' c && leb c b'z')
    || (leb b'A' c && leb c b'Z')
    || (leb b'0' c && leb c b'9')
    || nat_eq c b'-'
    || nat_eq c b'.'
    || nat_eq c b'_'
    || nat_eq c b'~'
    || nat_eq c b'%'
    -- sub-delims
    || nat_eq c b'!'
    || nat_eq c b'$'
    || nat_eq c b'&'
    || nat_eq c 39
    || nat_eq c b'('
    || nat_eq c b')'
    || nat_eq c b'*'
    || nat_eq c b'+'
    || nat_eq c b','
    || nat_eq c b';'
    || nat_eq c b'='
    || nat_eq c b':'
    || nat_eq c b'@'

-- A text that stays within one segment of a path.
abbrev pub IsSegment : String → Type 0
IsSegment [] = Unit
IsSegment (c ∷ s) = (is_pchar (code c) ≡ true) × IsSegment s

unreserved-pchar : (c : ℕ) → is_unreserved c ≡ true → is_pchar c ≡ true
unfolding is_unreserved is_pchar
unreserved-pchar c h = ground arith

digit-pchar : (k : ℕ) → k < 16 → is_pchar (code (nth_char upper_digits k)) ≡ true
digit-pchar k lt = unreserved-pchar _ (plain_digits_lem 16 k plain_sixteen lt)

percent-IsSegment :
    (bs : List ℕ)
    → All IsByte bs
    → (rest : String) → IsSegment rest
    → IsSegment (percent bs <> rest)
unfolding percent is_pchar
percent-IsSegment [] h rest k = rw nil-append k
percent-IsSegment (b ∷ bs) (lt, h) rest k = rw (percent-cons b bs rest) (
  refl,
  (
    digit-pchar (b / 16) (omega arith),
    (digit-pchar (b % 16) (omega arith), percent-IsSegment bs h rest k),
  ),
)

-- An escaped text stays within one segment.
pub path_escape-IsSegment : (s : String) → IsSegment (path_escape s)
unfolding path_escape
path_escape-IsSegment [] = tt
path_escape-IsSegment (c ∷ s) = elim (Bool-cases (is_unreserved (code c))) [
  | inl e ↦ rw e (unreserved-pchar (code c) e, path_escape-IsSegment s)
  | inr e ↦ rw e (
      percent-IsSegment (utf8_char (code c)) (utf8_char-IsByte (code c) (code_lt c)) (path_escape s)
        (path_escape-IsSegment s))
]
