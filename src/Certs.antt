-- ===== src/Certs.antt =====
-- internal/authentik/certs.go. encoding/pem, crypto/x509, encoding/base64 and crypto/sha256 are
-- parameters; of a certificate the program reads the DER bytes only.
pub mod Laws
pub mod Blocks
pub mod Fingerprint
use authentik_operator.Prelude.{
  ℕ, zero, suc, String, ◌<>◌, ◌==◌, Option, none, some, List, [], ◌∷◌, ◌++◌, if◌then◌else◌, length,
  is_empty,
}
use authentik_operator.Prelude.Dict.{Dict}
use authentik_operator.Errors.{errorf, wrapf, Result, ok, err}
use authentik_operator.Text.Escape.{hex_byte, upper_digits}

abbrev pub Bytes : Type 0
Bytes = List ℕ

-- `x509.Certificate`
pub record Certificate : Type 0 where
  pub raw : Bytes

-- `pem.Block`
pub record Block : Type 0 where
  pub kind : String
  pub headers : Dict String
  pub content : Bytes

pub record CertCodec : Type 0 where
  -- `pem.Decode`: the first block and the rest
  pub pem_decode : Bytes → Option (Block × Bytes)
  -- `pem.EncodeToMemory`
  pub pem_encode : Block → Bytes
  pub parse_certificate : Bytes → Result Certificate
  pub parse_certificates : Bytes → Result (List Certificate)
  -- `base64.StdEncoding.DecodeString(string(data))`
  pub base64_decode : Bytes → Result Bytes
  -- `sha256.Sum256`
  pub sha256 : Bytes → Bytes

-- `strings.Join(parts, ":")`, of the bytes by `%02X`
unfoldable pub join_colons : List ℕ → String
join_colons [] = ""
join_colons (b ∷ []) = hex_byte upper_digits b
join_colons (b ∷ c ∷ bs) = hex_byte upper_digits b <> (":" <> join_colons (c ∷ bs))

module _ (x : CertCodec) where
  open x use {pem_decode, pem_encode, parse_certificate, parse_certificates, base64_decode, sha256}

  unfoldable pub cert_fingerprint : Certificate → String
  cert_fingerprint cert = join_colons (sha256 cert.raw)

  -- `CertToPEM`
  unfoldable pub cert_to_pem : Bytes → Bytes
  cert_to_pem der = pem_encode (record { kind = "CERTIFICATE"; headers = []; content = der })

  -- `PEMToFingerprint`
  unfoldable pub pem_to_fingerprint : Bytes → Result String
  pem_to_fingerprint data' = elim (pem_decode data') [
    | none ↦ err (errorf "no PEM block found in data" [])
    | some (block, _) ↦ elim (parse_certificate block.content) [
      | err e ↦ err (wrapf "parsing certificate from PEM: %w" [] e)
      | ok cert ↦ ok (cert_fingerprint cert)
    ]
  ]

  -- One round of the loop of `parsePEM`: what a block adds.
  unfoldable pub take_block : Block → List Certificate × Bytes → List Certificate × Bytes
  take_block block (certs, out) =
      if block.kind == "CERTIFICATE"
      then elim (parse_certificate block.content) [
        | err _ ↦ (certs, out)
        | ok cert ↦ (certs ++ cert ∷ [], out ++ pem_encode block)
      ]
      else (certs, out)

  -- The loop, with a bound on its rounds.
  unfoldable pub pem_loop : ℕ → Bytes → List Certificate × Bytes → List Certificate × Bytes
  pem_loop zero rest acc = acc
  pem_loop (suc fuel) rest acc = elim (pem_decode rest) [
    | none ↦ acc
    | some (block, rest') ↦ pem_loop fuel rest' (take_block block acc)
  ]

  -- Each block takes at least a byte of the data.
  unfoldable pub parse_pem : Bytes → Option (List Certificate × Bytes)
  parse_pem data' =
      let (certs, out) = pem_loop (suc (length data')) data' ([], []) in
      if is_empty certs then none else some (certs, out)

  -- `certsToAllPEM`
  unfoldable pub certs_to_all_pem : List Certificate → Bytes
  certs_to_all_pem [] = []
  certs_to_all_pem (cert ∷ certs) = cert_to_pem cert.raw ++ certs_to_all_pem certs

  -- `x509.ParseCertificates` of some DER, where it finds a certificate at least
  unfoldable pub parse_der : Bytes → Option (List Certificate × Bytes)
  parse_der der = elim (parse_certificates der) [
    | err _ ↦ none
    | ok certs ↦ if is_empty certs then none else some (certs, certs_to_all_pem certs)
  ]

  unfoldable pub parse_base64_der : Bytes → Option (List Certificate × Bytes)
  parse_base64_der data' = elim (base64_decode data') [ err _ ↦ none | ok der ↦ parse_der der ]

  unfoldable pub or_else_try :
      Option (List Certificate × Bytes)
      → Result (List Certificate × Bytes)
      → Result (List Certificate × Bytes)
  or_else_try (some found) later = ok found
  or_else_try none later = later

  -- `ParseCertificates`: PEM, then base64 of DER, then DER.
  unfoldable pub parse_certs : Bytes → Result (List Certificate × Bytes)
  parse_certs data' = or_else_try (parse_pem data') (
      or_else_try (parse_base64_der data') (
        or_else_try (parse_der data') (
          err (
            errorf
              "failed to parse certificates: data is not valid PEM, base64-encoded DER, or raw DER"
              []))))
