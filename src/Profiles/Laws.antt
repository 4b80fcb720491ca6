-- ===== src/Profiles/Laws.antt =====
-- What the Secret of a profile holds.
use authentik_operator.Prelude.{
  String, ◌≡◌, refl, ◌==◌, Option, none, some, [], ◌∷◌, arith, Bool-cases, inl, inr, if◌then◌else◌,
}
use authentik_operator.Prelude.Dict.{
  Dict, lookup, copy, NodupKeys, lookup-insert, lookup-erase, lookup-copy, insert-NodupKeys,
}
use authentik_operator.Text.Escape.{utf8}
use authentik_operator.Profiles.Url.{OidcData}
use authentik_operator.Profiles.{
  Codec, SigningCert, profile, resolve, resolve_overrides, apply, apply_with_cert,
}

-- The keys of a certificate's two values.
abbrev pub pem_key : String → String
pem_key name = if name == "argocd" then "caData" else "saml.crt"

abbrev pub print_key : String → String
print_key name = if name == "argocd" then "caFingerprint" else "saml.fingerprint"

module _ (c : Codec) where
  resolve_overrides-NodupKeys :
      (m : Dict String) (d : OidcData) → NodupKeys (resolve_overrides c m d)
  unfolding resolve_overrides
  resolve_overrides-NodupKeys [] d = tt
  resolve_overrides-NodupKeys ((k, v) ∷ m) d =
      insert-NodupKeys k _ _ (resolve_overrides-NodupKeys m d)

  lookup-resolve_overrides :
      (j : String) (m : Dict String) (d : OidcData)
      → lookup j (resolve_overrides c m d)
        ≡ elim (lookup j m) [ none ↦ none | some v ↦ some (resolve c v d) ]
  unfolding resolve_overrides lookup
  lookup-resolve_overrides j [] d = refl
  lookup-resolve_overrides j ((k, v) ∷ m) d = ground (
    arith,
    lookup-insert j k (resolve c v d) (resolve_overrides c m d),
    lookup-resolve_overrides j m d,
  )

  -- The Secret without a certificate, key by key: an override, with its template filled in, comes before the
  -- profile's own value, and `redirect_uri` is left out.
  pub lookup-apply :
      (j name : String) (d : OidcData) (overrides : Dict String)
      → lookup j (apply c name d overrides) ≡ (
          if j == "redirect_uri" then none else elim (lookup j overrides) [
            | some v ↦ some (resolve c v d)
            | none ↦ lookup j (profile name d overrides)
          ])
  unfolding apply
  lookup-apply j name d overrides = ground (
    arith,
    lookup-erase j "redirect_uri"
        (copy (profile name d overrides) (resolve_overrides c overrides d)),
    lookup-copy j (profile name d overrides) (resolve_overrides c overrides d)
        (resolve_overrides-NodupKeys overrides d),
    lookup-resolve_overrides j overrides d,
  )

  -- What a certificate adds: under its two keys it comes before everything else, and every other key stays as
  -- it is without a certificate.
  pub lookup-apply_with_cert :
      (j name : String) (d : OidcData) (overrides : Dict String) (cert : SigningCert)
      → lookup j (apply_with_cert c name d overrides (some cert)) ≡ (
          if j == print_key name
          then some cert.fingerprint_sha256
          else if j == pem_key name
          then some (
              if name == "argocd"
              then c.base64_encode (utf8 cert.certificate_pem)
              else cert.certificate_pem)
          else lookup j (apply_with_cert c name d overrides none))
  unfolding apply_with_cert
  lookup-apply_with_cert j name d overrides cert = elim (Bool-cases (name == "argocd")) [
    | inl e ↦ rw e (simp lookup-insert)
    | inr e ↦ rw e (simp lookup-insert)
  ]

  -- The key that only serves the profile of RAGFlow is in no Secret.
  lookup-redirect_uri :
      (name : String) (d : OidcData) (overrides : Dict String) (cert : Option SigningCert)
      → lookup "redirect_uri" (apply_with_cert c name d overrides cert) ≡ none
  unfolding apply_with_cert
  lookup-redirect_uri name d overrides none =
      ground (arith, lookup-apply "redirect_uri" name d overrides)
  lookup-redirect_uri name d overrides (some cert) = elim (Bool-cases (name == "argocd")) [
    | inl e ↦ rw e (simp (lookup-insert, lookup-apply))
    | inr e ↦ rw e (simp (lookup-insert, lookup-apply))
  ]
