-- ===== src/Text/Utf8.antt =====
-- The UTF-8 of a text, read back.
use Prim.Native.Char.{Char, char, code}
use Prim.Native.String.{String, [], ◌∷◌}
use mathlib.Core.List.{List, [], ◌∷◌, ◌++◌}
use text.Mathlib.TextEquality.{Char-path}
use authentik_operator.Prelude.{
  ℕ, zero, suc, ◌+◌, ◌-◌, ◌*◌, ◌<◌, ◌≡◌, refl, sym, ap, ◌∙◌, if◌then◌else◌, ltb, arith,
}
use authentik_operator.Text.Escape.{utf8_char, utf8}

-- The numbers of the characters.
unfoldable pub codes : String → List ℕ
codes [] = []
codes (c ∷ s) = code c ∷ codes s

-- How many bytes follow a first byte, and the bits that it gives.
follow : ℕ → ℕ
follow b = if ltb b 0x80 then 0 else if ltb b 0xe0 then 1 else if ltb b 0xf0 then 2 else 3

lead : ℕ → ℕ
lead b =
    if ltb b 0x80
    then b
    else if ltb b 0xe0
    then b - 0xc0
    else if ltb b 0xf0
    then b - 0xe0
    else b - 0xf0

-- A number that is complete.
emit : ℕ → ℕ → List ℕ → List ℕ
emit zero acc out = acc ∷ out
emit (suc n) acc out = out

-- The decoder, with the bytes that are still to come and the bits so far.
decode : ℕ → ℕ → List ℕ → List ℕ
decode n acc [] = []
decode zero acc (b ∷ bs) = emit (follow b) (lead b) (decode (follow b) (lead b) bs)
decode (suc n) acc (b ∷ bs) = emit n (acc * 64 + (b - 0x80)) (decode n (acc * 64 + (b - 0x80)) bs)

decode-utf8_char :
    (n acc : ℕ) (rest : List ℕ)
    → n < 0x110000
    → decode 0 acc (utf8_char n ++ rest) ≡ n ∷ decode 0 n rest
unfolding decode utf8_char emit follow lead
decode-utf8_char n acc rest lt = ground arith

pub code_lt : (c : Char) → code c < 0x110000
code_lt (char n p) = ground arith

decode-utf8 : (s : String) (acc : ℕ) → decode 0 acc (utf8 s) ≡ codes s
unfolding utf8 codes decode
decode-utf8 [] acc = refl
decode-utf8 (c ∷ s) acc =
    decode-utf8_char (code c) acc (utf8 s) (code_lt c)
    ∙ ap (λ l. code c ∷ l) (decode-utf8 s (code c))

codes_inj : (s t : String) → codes s ≡ codes t → s ≡ t
unfolding codes
codes_inj [] [] e = refl
codes_inj [] (d ∷ t) e = absurd (ground (arith, e))
codes_inj (c ∷ s) [] e = absurd (ground (arith, e))
codes_inj (c ∷ s) (d ∷ t) e =
    let head : code c ≡ code d = cc in
    let tail : codes s ≡ codes t = cc in rw (Char-path c d head, codes_inj s t tail) refl

-- Texts with the same bytes are the same.
pub utf8_inj : (s t : String) → utf8 s ≡ utf8 t → s ≡ t
utf8_inj s t e = codes_inj s t (sym (decode-utf8 s 0) ∙ ap (decode 0 0) e ∙ decode-utf8 t 0)
