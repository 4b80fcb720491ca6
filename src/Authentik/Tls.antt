-- ===== src/Authentik/Tls.antt =====
-- `clientConfig`, `ClientOption` and `buildTLSConfig` of internal/authentik/client.go. Log lines are
-- left out.
use authentik_operator.Prelude.{
  String, ◌==◌, Bool, true, false, not, ◌&&◌, Option, none, some, List, [], ◌∷◌, ◌++◌,
  if◌then◌else◌, is_empty,
}
use authentik_operator.Errors.{ok, err}
use authentik_operator.Certs.{Bytes, Certificate, parse_certs}
use authentik_operator.World.{TlsConfig, Env}

pub record ClientConfig : Type 0 where
  pub ca_cert_path : String
  pub ca_cert_data : Bytes
  pub insecure_skip_verify : Bool

pub data ClientOption : Type 0 where
  with_ca_cert_path : String → ClientOption
  with_ca_cert_data : Bytes → ClientOption
  with_insecure_skip_verify : Bool → ClientOption

-- The function that an option stands for.
unfoldable pub set_option : ClientOption → ClientConfig → ClientConfig
set_option (with_ca_cert_path path) cfg = record cfg { ca_cert_path = path }
set_option (with_ca_cert_data content) cfg = record cfg { ca_cert_data = content }
set_option (with_insecure_skip_verify skip) cfg = record cfg { insecure_skip_verify = skip }

unfoldable pub set_options : List ClientOption → ClientConfig → ClientConfig
set_options [] cfg = cfg
set_options (o ∷ opts) cfg = set_options opts (set_option o cfg)

-- The loop of `NewClient` over its options.
unfoldable pub config_of : List ClientOption → ClientConfig
config_of opts =
    set_options opts (record { ca_cert_path = ""; ca_cert_data = []; insecure_skip_verify = false })

module _ (env : Env) where
  -- `pool.AddCert` of each certificate that the data holds; what does not parse is passed over
  unfoldable pub add_certs : Bytes → List Certificate → List Certificate
  add_certs content pool = elim (parse_certs env.certs content) [
    | err _ ↦ pool
    | ok (found, _) ↦ pool ++ found
  ]

  unfoldable pub add_file : String → List Certificate → List Certificate
  add_file path pool =
      if path == ""
      then pool
      else elim (env.read_file path) [ err _ ↦ pool | ok content ↦ add_certs content pool ]

  unfoldable pub add_data : Bytes → List Certificate → List Certificate
  add_data content pool = if is_empty content then pool else add_certs content pool

  -- `x509.SystemCertPool()`, or an empty pool
  unfoldable pub system_pool : List Certificate
  system_pool = elim env.system_cert_pool [ err _ ↦ [] | ok pool ↦ pool ]

  unfoldable pub build_tls_config : ClientConfig → Option TlsConfig
  build_tls_config cfg =
      if cfg.ca_cert_path == "" && (is_empty cfg.ca_cert_data && not cfg.insecure_skip_verify)
      then none
      else if cfg.insecure_skip_verify
      then some (record { insecure_skip_verify = true; root_cas = [] })
      else some (record {
        insecure_skip_verify = false;
        root_cas = add_data cfg.ca_cert_data (add_file cfg.ca_cert_path system_pool);
      })
