-- ===== src/Certs/Fingerprint.antt =====
-- Fingerprints of certificates, read back.
use Prim.Native.Char.{code}
use Prim.Native.String.{String, [], ◌∷◌}
use mathlib.Core.List.{List, [], ◌∷◌}
use text.Mathlib.TextLemmas.{cons-append, nil-append}
use authentik_operator.Prelude.{
  ℕ, zero, suc, ◌+◌, ◌-◌, ◌*◌, ◌/◌, ◌%◌, ◌<◌, ◌≡◌, refl, ap, Bool, true, false, ◌&&◌, leb, nat_eq,
  if◌then◌else◌, Option, none, some, All, arith,
}
use authentik_operator.Errors.{ok}
use authentik_operator.Text.Escape.{upper_digits, hex_byte, nth_char}
use authentik_operator.Text.Hex.{IsByte}
use authentik_operator.Certs.{
  Bytes, Block, Certificate, CertCodec, join_colons, cert_fingerprint, cert_to_pem,
  pem_to_fingerprint,
}

-- The value of a digit in upper case.
unfoldable pub digit_value : ℕ → Option ℕ
digit_value c =
    if leb b'0' c && leb c b'9'
    then some (c - b'0')
    else if leb b'A' c && leb c b'F'
    then some (c - b'A' + 10)
    else none

unfoldable pub pair_value : Option ℕ → Option ℕ → Option ℕ
pair_value (some hi) (some lo) = some (16 * hi + lo)
pair_value (some hi) none = none
pair_value none o = none

unfoldable pub cons_byte : Option ℕ → Option (List ℕ) → Option (List ℕ)
cons_byte (some b) (some bs) = some (b ∷ bs)
cons_byte (some b) none = none
cons_byte none o = none

-- The bytes of one pair of digits at least, with a colon between two pairs.
unfoldable pub read_pairs : String → Option (List ℕ)
unfolding digit_value pair_value cons_byte
read_pairs [] = none
read_pairs (c ∷ []) = none
read_pairs (c ∷ (d ∷ [])) =
    cons_byte (pair_value (digit_value (code c)) (digit_value (code d))) (some [])
read_pairs (c ∷ (d ∷ (e ∷ s))) =
    let rest = read_pairs s in
    if nat_eq (code e) b':'
    then cons_byte (pair_value (digit_value (code c)) (digit_value (code d))) rest
    else none

-- What a strict reader takes for a fingerprint: nothing but pairs of digits in upper case and the colons between them.
unfoldable pub split_colons : String → Option (List ℕ)
unfolding read_pairs
split_colons [] = some []
split_colons (c ∷ s) = read_pairs (c ∷ s)

reads : Option ℕ → ℕ → Bool
reads none n = false
reads (some v) n = nat_eq v n

reads-some : (o : Option ℕ) (n : ℕ) → reads o n ≡ true → o ≡ some n
unfolding reads
reads-some none n h = absurd (ground (arith, h))
reads-some (some v) n h = ap some (ground (arith, h))

-- Every digit of the table, by evaluation.
table_read : ℕ → Bool
table_read zero = true
table_read (suc n) = reads (digit_value (code (nth_char upper_digits n))) n && table_read n

table_read_all : table_read 16 ≡ true
unfolding table_read reads digit_value nth_char
table_read_all = refl

digit_value-nth :
    (n k : ℕ) → table_read n ≡ true → k < n → digit_value (code (nth_char upper_digits k)) ≡ some k
unfolding table_read
digit_value-nth zero k h lt = absurd (ground arith)
digit_value-nth (suc n) k h lt =
    ground (arith, reads-some (digit_value (code (nth_char upper_digits n))) n, digit_value-nth n k)

pair_value-hex :
    (b : ℕ)
    → b < 256
    → pair_value
        (digit_value (code (nth_char upper_digits (b / 16))))
        (digit_value (code (nth_char upper_digits (b % 16))))
      ≡ some b
unfolding pair_value
pair_value-hex b lt =
    rw
      (
        digit_value-nth 16 (b / 16) table_read_all (omega arith),
        digit_value-nth 16 (b % 16) table_read_all (omega arith),
      )
      (ap some (omega arith))

read_pairs-join_colons :
    (b : ℕ) (bs : List ℕ) → All IsByte (b ∷ bs) → read_pairs (join_colons (b ∷ bs)) ≡ some (b ∷ bs)
unfolding read_pairs join_colons hex_byte cons_byte
read_pairs-join_colons b [] (lt, h) = rw (pair_value-hex b lt) refl
read_pairs-join_colons b (c ∷ bs) (lt, h) =
    rw (cons-append, cons-append, nil-append, cons-append, nil-append)
      (rw (pair_value-hex b lt, read_pairs-join_colons c bs h) refl)

split_colons-join_colons : (bs : List ℕ) → All IsByte bs → split_colons (join_colons bs) ≡ some bs
unfolding split_colons join_colons hex_byte
split_colons-join_colons [] h = refl
split_colons-join_colons (b ∷ []) h = read_pairs-join_colons b [] h
split_colons-join_colons (b ∷ (c ∷ bs)) h =
    rw (cons-append, cons-append, nil-append, cons-append, nil-append)
      (rw (cons-append, cons-append, nil-append, cons-append, nil-append) at
        (read_pairs-join_colons b (c ∷ bs) h))

abbrev pub certificate_block : Bytes → Block
certificate_block der = record { kind = "CERTIFICATE"; headers = []; content = der }

module _ (x : CertCodec) where
  -- The fingerprint of a certificate is the digest of the certificate's DER as pairs of digits in upper case with a colon
  -- between two pairs, and nothing else: a reader that takes only this form reads it back as the digest, where
  -- the digest is bytes.
  pub split_colons-cert_fingerprint :
      (cert : Certificate)
      → All IsByte (x.sha256 cert.raw)
      → split_colons (cert_fingerprint x cert) ≡ some (x.sha256 cert.raw)
  unfolding cert_fingerprint
  split_colons-cert_fingerprint cert h = split_colons-join_colons (x.sha256 cert.raw) h

  -- The fingerprint that is read from the PEM of a certificate is the fingerprint of the certificate, where
  -- encoding/pem decodes the block that it has encoded.
  pem_to_fingerprint-cert_to_pem :
      (der : Bytes) (cert : Certificate)
      → x.pem_decode (x.pem_encode (certificate_block der)) ≡ some (certificate_block der, [])
      → x.parse_certificate der ≡ ok cert
      → pem_to_fingerprint x (cert_to_pem x der) ≡ ok (cert_fingerprint x cert)
  unfolding pem_to_fingerprint cert_to_pem
  pem_to_fingerprint-cert_to_pem der cert back parsed = rw (pem_to_fingerprint, back, parsed) refl
