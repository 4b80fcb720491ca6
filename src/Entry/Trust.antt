-- ===== src/Entry/Trust.antt =====
-- Whom the client trusts, by the flags.
use authentik_operator.Prelude.{
  String, ◌==◌, ◌≡◌, Bool, true, false, Option, none, some, List, [], ◌++◌, is_empty, if◌then◌else◌,
}
use authentik_operator.Errors.{ok, err}
use authentik_operator.Certs.{Bytes, Certificate, parse_certs}
use authentik_operator.World.{TlsConfig, Env}
use authentik_operator.Authentik.Tls.{system_pool}

module _ (env : Env) where
  certs_in : Bytes → List Certificate
  certs_in content = elim (parse_certs env.certs content) [ err _ ↦ [] | ok (found, _) ↦ found ]

  certs_at : String → List Certificate
  certs_at path = elim (env.read_file path) [ err _ ↦ [] | ok content ↦ certs_in content ]

  -- The certificates that the file and the data hold.
  pub named : String → Bytes → List Certificate
  named path content =
      (if path == "" then [] else certs_at path)
      ++ (if is_empty content then [] else certs_in content)

  -- What the client does about certificates, by three settings.
  pub IsTrust : String → Bytes → Bool → Option TlsConfig → Type 0
  IsTrust path content skip none = (path ≡ "") × (is_empty content ≡ true) × (skip ≡ false)
  IsTrust path content skip (some t) =
      (t.insecure_skip_verify ≡ skip)
      × (t.root_cas ≡ (if skip then [] else system_pool env ++ named path content))
