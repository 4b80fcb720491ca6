-- ===== src/Entry/Options.antt =====
-- The flags of cmd/main.go, and the options of the client that they set.
use authentik_operator.Prelude.{
  ◌*◌, String, ◌==◌, Bool, true, false, List, [], ◌∷◌, ◌++◌, if◌then◌else◌,
}
use authentik_operator.Prelude.Int.{ℤ, pos}
use authentik_operator.Text.Escape.{utf8}
use authentik_operator.Authentik.{second}
use authentik_operator.Authentik.Tls.{
  ClientOption, with_ca_cert_path, with_ca_cert_data, with_insecure_skip_verify,
}

-- The command line, as `flag.Parse` leaves it.
pub record Flags : Type 0 where
  pub metrics_addr : String
  pub metrics_cert_path : String
  pub metrics_cert_name : String
  pub metrics_cert_key : String
  pub webhook_cert_path : String
  pub webhook_cert_name : String
  pub webhook_cert_key : String
  pub enable_leader_election : Bool
  pub probe_addr : String
  pub secure_metrics : Bool
  pub enable_http2 : Bool
  pub bootstrap_mode : Bool
  pub authentik_url : String
  pub authentik_token_secret : String
  pub authentik_namespace : String
  -- `time.Duration`, which may be negative
  pub reconcile_interval : ℤ
  pub authentik_ca_cert_path : String
  pub authentik_ca_cert_data : String
  pub authentik_insecure_skip_verify : Bool

-- The flags of an empty command line.
abbrev pub default_flags : Flags
default_flags = record {
  metrics_addr = "0";
  metrics_cert_path = "";
  metrics_cert_name = "tls.crt";
  metrics_cert_key = "tls.key";
  webhook_cert_path = "";
  webhook_cert_name = "tls.crt";
  webhook_cert_key = "tls.key";
  enable_leader_election = false;
  probe_addr = ":8081";
  secure_metrics = true;
  enable_http2 = false;
  bootstrap_mode = false;
  authentik_url = "";
  authentik_token_secret = "authentik-operator-token";
  authentik_namespace = "authentik";
  reconcile_interval = pos (300 * second);
  authentik_ca_cert_path = "";
  authentik_ca_cert_data = "";
  authentik_insecure_skip_verify = false;
}

-- The options of the client: those whose flag is set.
unfoldable pub path_option : Flags → List ClientOption
path_option f =
    if f.authentik_ca_cert_path == "" then [] else with_ca_cert_path f.authentik_ca_cert_path ∷ []

unfoldable pub data_option : Flags → List ClientOption
data_option f =
    if f.authentik_ca_cert_data == ""
    then []
    else with_ca_cert_data (utf8 f.authentik_ca_cert_data) ∷ []

unfoldable pub skip_option : Flags → List ClientOption
skip_option f = if f.authentik_insecure_skip_verify then with_insecure_skip_verify true ∷ [] else []

unfoldable pub client_options : Flags → List ClientOption
client_options f = path_option f ++ (data_option f ++ skip_option f)
