-- ===== src/Entry/Servers.antt =====
-- The options of the webhook server, of the metrics server and of the manager, of cmd/main.go.
use authentik_operator.Prelude.{String, ◌==◌, Bool, List, [], ◌∷◌, if◌then◌else◌}
use authentik_operator.Entry.Options.{Flags}

-- The part of `tls.Config` that the servers' options set.
pub record ServerTls : Type 0 where
  pub next_protos : List String

-- `webhook.Options`, and the same fields of `metricsserver.Options`
pub record CertOptions : Type 0 where
  pub tls_opts : List (ServerTls → ServerTls)
  pub cert_dir : String
  pub cert_name : String
  pub key_name : String

pub record MetricsOptions : Type 0 where
  pub bind_address : String
  pub secure_serving : Bool
  -- `filters.WithAuthenticationAndAuthorization` is set
  pub protected : Bool
  pub server : CertOptions

-- `ctrl.Options`
pub record ManagerOptions : Type 0 where
  pub metrics : MetricsOptions
  pub webhook_server : CertOptions
  pub health_probe_bind_address : String
  pub leader_election : Bool
  pub leader_election_id : String

-- `disableHTTP2`
unfoldable pub disable_http2 : ServerTls → ServerTls
disable_http2 c = record c { next_protos = "http/1.1" ∷ [] }

unfoldable pub tls_opts_of : Flags → List (ServerTls → ServerTls)
tls_opts_of f = if f.enable_http2 then [] else disable_http2 ∷ []

-- The options of a server, with the certificate files where a directory is given.
unfoldable pub cert_options : Flags → String → String → String → CertOptions
cert_options f dir name key =
    if dir == ""
    then record { tls_opts = tls_opts_of f; cert_dir = ""; cert_name = ""; key_name = "" }
    else record { tls_opts = tls_opts_of f; cert_dir = dir; cert_name = name; key_name = key }

unfoldable pub webhook_options : Flags → CertOptions
webhook_options f = cert_options f f.webhook_cert_path f.webhook_cert_name f.webhook_cert_key

unfoldable pub metrics_options : Flags → MetricsOptions
metrics_options f = record {
  bind_address = f.metrics_addr;
  secure_serving = f.secure_metrics;
  protected = f.secure_metrics;
  server = cert_options f f.metrics_cert_path f.metrics_cert_name f.metrics_cert_key;
}

unfoldable pub manager_options : Flags → ManagerOptions
manager_options f = record {
  metrics = metrics_options f;
  webhook_server = webhook_options f;
  health_probe_bind_address = f.probe_addr;
  leader_election = f.enable_leader_election;
  leader_election_id = "a9a68e66.kettleofketchup";
}
