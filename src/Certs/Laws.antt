-- ===== src/Certs/Laws.antt =====
-- What `ParseCertificates` answers.
use authentik_operator.Prelude.{
  is_empty, ◌⊎◌, inl, inr, ◌≡◌, refl, false, Option, none, some, List, [], ◌∷◌, arith,
}
use authentik_operator.Errors.{Error, Result, ok, err, Result-cases}
use authentik_operator.Certs.{
  Bytes, Certificate, CertCodec, parse_pem, parse_base64_der, parse_der, parse_certs, or_else_try,
  certs_to_all_pem,
}

module _ (x : CertCodec) where
  -- No certificate in DER.
  abbrev pub NoDer : Bytes → Type 0
  NoDer b = ((e : Error) × (x.parse_certificates b ≡ err e)) ⊎ (x.parse_certificates b ≡ ok [])

  -- No base64 text of DER with a certificate.
  abbrev pub NoBase64 : Bytes → Type 0
  NoBase64 b =
      ((e : Error) × (x.base64_decode b ≡ err e))
      ⊎ ((der : Bytes) × (x.base64_decode b ≡ ok der) × NoDer der)

  -- What the bytes of DER or of its base64 text hold, each after the formats before it.
  abbrev pub IsDecoded : Bytes → List Certificate → Type 0
  IsDecoded b certs =
      ((der : Bytes) × (x.base64_decode b ≡ ok der) × (x.parse_certificates der ≡ ok certs))
      ⊎ (NoBase64 b × (x.parse_certificates b ≡ ok certs))

  -- The answer for some data, by the three formats in their order.
  abbrev pub IsFound : Bytes → Result (List Certificate × Bytes) → Type 0
  IsFound b (ok (certs, pem)) =
      (is_empty certs ≡ false)
      × ((parse_pem x b ≡ some (certs, pem))
          ⊎ ((parse_pem x b ≡ none) × (pem ≡ certs_to_all_pem x certs) × IsDecoded b certs))
  IsFound b (err _) = (parse_pem x b ≡ none) × NoBase64 b × NoDer b

  parse_pem-cons :
      (b : Bytes) (certs : List Certificate) (pem : Bytes)
      → parse_pem x b ≡ some (certs, pem)
      → is_empty certs ≡ false
  unfolding parse_pem
  parse_pem-cons b certs pem e = ground arith

  -- What one of the later formats finds: certificates, and their PEM written anew.
  abbrev Written : (List Certificate → Type 0) → Option (List Certificate × Bytes) → Type 0
  Written Holds none = Unit
  Written Holds (some (certs, pem)) =
      (is_empty certs ≡ false) × (pem ≡ certs_to_all_pem x certs) × Holds certs

  abbrev Tried : (List Certificate → Type 0) → Type 0 → Option (List Certificate × Bytes) → Type 0
  Tried Holds Fails none = Fails
  Tried Holds Fails o = Written Holds o

  parse_der_certs :
      (b : Bytes) (certs : List Certificate)
      → x.parse_certificates b ≡ ok certs
      → Tried (λ l. x.parse_certificates b ≡ ok l) (NoDer b) (parse_der x b)
  unfolding parse_der
  parse_der_certs b [] p = rw (parse_der, p) (inr refl)
  parse_der_certs b (cert ∷ certs) p = rw (parse_der, p) (refl, refl, refl)

  parse_der-Tried :
      (b : Bytes) → Tried (λ l. x.parse_certificates b ≡ ok l) (NoDer b) (parse_der x b)
  unfolding parse_der
  parse_der-Tried b = elim (Result-cases (x.parse_certificates b)) [
    | inl (certs, p) ↦ parse_der_certs b certs p
    | inr (e, p) ↦ rw (parse_der, p) (inl (e, refl))
  ]

  Tried-map :
      {H K : List Certificate → Type 0} {F G : Type 0} (o : Option (List Certificate × Bytes))
      → ((l : List Certificate) → H l → K l)
      → (F → G)
      → Tried H F o
      → Tried K G o
  Tried-map none h f t = f t
  Tried-map (some (certs, pem)) h f (filled, same, t) = (filled, same, h certs t)

  -- The certificates of a base64 text.
  abbrev OfBase64 : Bytes → List Certificate → Type 0
  OfBase64 b certs =
      (der : Bytes) × (x.base64_decode b ≡ ok der) × (x.parse_certificates der ≡ ok certs)

  parse_base64_der-Tried : (b : Bytes) → Tried (OfBase64 b) (NoBase64 b) (parse_base64_der x b)
  unfolding parse_base64_der
  parse_base64_der-Tried b = elim (Result-cases (x.base64_decode b)) [
    | inl (der, p) ↦
        rw (parse_base64_der, p)
          (Tried-map (parse_der x der) (λ l q. (der, p, q)) (λ q. inr (der, refl, q))
            (parse_der-Tried der))
    | inr (e, p) ↦ rw (parse_base64_der, p) (inl (e, refl))
  ]

  by_order :
      (b : Bytes) (e : Error) (in_pem in_base64 in_der : Option (List Certificate × Bytes))
      → parse_pem x b ≡ in_pem
      → Tried (OfBase64 b) (NoBase64 b) in_base64
      → Tried (λ l. x.parse_certificates b ≡ ok l) (NoDer b) in_der
      → IsFound b (or_else_try x in_pem (or_else_try x in_base64 (or_else_try x in_der (err e))))
  unfolding or_else_try
  by_order b e (some (certs, pem)) q d p t u = (parse_pem-cons b certs pem p, inl p)
  by_order b e none (some (certs, pem)) d p (filled, same, t) u = (filled, inr (p, same, inl t))
  by_order b e none none (some (certs, pem)) p t (filled, same, u) =
      (filled, inr (p, same, inr (t, u)))
  by_order b e none none none p t u = (p, t, u)

  -- `ParseCertificates` finds certificates, never none: those of the PEM blocks where it has some, with the PEM of
  -- these; or else those of the DER that the data hold in base64, if it has some, and or else those of the DER
  -- that the data are, both with a PEM that is written anew for these certificates. It
  -- fails only where none of the three formats has a certificate.
  pub parse_certs_lem : (b : Bytes) → IsFound b (parse_certs x b)
  unfolding parse_certs
  parse_certs_lem b =
      by_order b _ (parse_pem x b) (parse_base64_der x b) (parse_der x b) refl
        (parse_base64_der-Tried b) (parse_der-Tried b)
