-- ===== src/Tests/Fixtures.antt =====
-- A small environment, a reconciler and a custom resource to run the model on.
use authentik_operator.Prelude.{refl, ℕ, ◌*◌, String, true, false, Option, none, some, [], ◌∷◌}
use authentik_operator.Prelude.Int.{pos}
use authentik_operator.Errors.{foreign, status_error, ok, err}
use authentik_operator.Api.{NamespacedName, OidcClient, OidcClientSpec, Secret}
use authentik_operator.Certs.{Bytes, Block, CertCodec}
use authentik_operator.Profiles.{Codec}
use authentik_operator.Profiles.Url.{OidcData}
use authentik_operator.Responses.{OAuth2Provider, JsonCodec}
use authentik_operator.World.{Env, World, fixed}
use authentik_operator.Authentik.{Client, second}
use authentik_operator.Authentik.Expired.{Foreign}
use authentik_operator.Authentik.Ready.{waits}
use authentik_operator.Reconciler.Token.{Reconciler}
use authentik_operator.Bootstrap.{Config}

-- Every byte is a block of its own.
abbrev pub byte_block : ℕ → Block
byte_block b = record { kind = "CERTIFICATE"; headers = []; content = b ∷ [] }

abbrev pub decode_byte : Bytes → Option (Block × Bytes)
decode_byte [] = none
decode_byte (b ∷ rest) = some (byte_block b, rest)

abbrev pub test_certs : CertCodec
test_certs = record {
  pem_decode = decode_byte;
  pem_encode = λ b. b.content;
  parse_certificate = λ bs. ok (record { raw = bs });
  parse_certificates = λ bs. err (foreign "no DER");
  base64_decode = λ bs. err (foreign "no base64");
  sha256 = λ bs. bs;
}

abbrev pub test_codec : Codec
test_codec = record {
  parse_template = λ s. none;
  execute_template = λ s d. (s, none);
  base64_encode = λ bs. "b64";
}

abbrev pub test_provider : OAuth2Provider
test_provider = record {
  pk = 7;
  name = "demo-provider";
  client_id = "demo-id";
  client_secret = "demo-secret";
  client_type = "confidential";
  signing_key = none;
  assigned_application_slug = "demo";
  assigned_application_name = "Demo";
  redirect_uris = [];
}

abbrev pub test_json : JsonCodec
test_json = record {
  application = λ bs. ok (record { pk = "app-1"; slug = "demo"; name = "Demo" });
  provider_list = λ bs. ok (record {
    pagination = record { count = 1; next = none; total_pages = 1 };
    results = test_provider ∷ [];
  });
  certificate = λ bs. err (foreign "no certificate");
  view_key = λ bs. ok (record { key = "new-token" });
  marshal_token = λ q. ok [];
  structured = λ bs. err (foreign "no objects");
  plain = λ bs. ok [];
}

abbrev pub test_spec : OidcClientSpec
test_spec = record {
  authentik = record { application_slug = "demo" };
  target = record { namespace = "apps"; secret_name = "demo-oidc" };
  secret_profile = "generic";
  secret_overrides = [];
  config_map_target = none;
  rollout_restart = none;
}

abbrev pub client_with : String → OidcClient
client_with hash = record {
  name = "demo";
  namespace = "apps";
  generation = 1;
  spec = test_spec;
  status = record { conditions = []; last_sync_time = none; secret_hash = hash };
}

abbrev pub token_secret_found : Secret
token_secret_found = record {
  name = "operator-token";
  namespace = "authentik";
  content = ("token", "old-token") ∷ [];
}

abbrev pub env_with : String → ℕ → Env
env_with hash status = record {
  certs = test_certs;
  templates = test_codec;
  json = test_json;
  request_error = λ url. none;
  system_cert_pool = ok [];
  read_file = λ path. err (foreign "no file");
  set_status_condition = λ t cs c. c ∷ cs;
  get_secret = λ t key. ok token_secret_found;
  delete_secret = λ t s. none;
  apply_secret = λ t s. none;
  get_client = λ t key. ok (client_with hash);
  update_status = λ t oc. none;
  get_config_map = λ t key. err (status_error "NotFound");
  update_config_map = λ t cm. none;
  get_workload = λ t kind key. err (status_error "NotFound");
  patch_workload = λ t base new. none;
  send = λ t tls q. ok (record { status = status; body = [] });
  clientset_error = λ t. none;
  list_pods = λ t ns selector. ok [];
  executor_error = λ t q. none;
  exec_output = λ t q. record { stdout = ""; stderr = "" };
  exec_error = λ t q. none;
  now = λ t. 5 * second * waits t;
  cancelled = λ t. none;
  shared_token = λ t own. own;
}

abbrev pub test_client : Client
test_client = record {
  base_url = "https://auth.example.org";
  token = fixed "old-token";
  tls = none;
}

abbrev pub test_reconciler : Reconciler
test_reconciler = record {
  authentik_client = test_client;
  authentik_url = "https://auth.example.org";
  reconcile_interval = pos 0;
  token_secret_name = "operator-token";
  token_secret_namespace = "authentik";
  bootstrap_secret_name = "bootstrap";
  bootstrap_secret_key = "token";
  bootstrap_client_opts = [];
  has_rest_config = false;
}

abbrev pub test_config : Config
test_config = record {
  authentik_url = "https://auth.example.org";
  bootstrap_token = "boot";
  token_identifier = "authentik-operator";
  token_secret_name = "operator-token";
  namespace = "authentik";
  client_opts = [];
  force_refresh = true;
  has_rest_config = false;
  authentik_namespace = "";
}

abbrev pub request : NamespacedName
request = record { name = "demo"; namespace = "apps" }

abbrev pub with_token : World
with_token = record { token = "old-token"; trace = [] }

abbrev pub without_token : World
without_token = record { token = ""; trace = [] }

abbrev pub test_data : OidcData
test_data = record {
  client_id = "demo-id";
  client_secret = "demo-secret";
  authorize_url = "https://auth.example.org/application/o/authorize/";
  token_url = "https://auth.example.org/application/o/token/";
  userinfo_url = "https://auth.example.org/application/o/userinfo/";
  issuer_url = "https://auth.example.org/application/o/demo/";
  logout_url = "https://auth.example.org/application/o/demo/end-session/";
  scopes = "openid email profile";
  redirect_uris = "https://demo.example.org/callback" ∷ [];
}

pub env_with-Foreign : Foreign (env_with "" 403)
env_with-Foreign = record {
  request = λ url. refl;
  send = λ t tls q. refl;
  application = λ b. refl;
  providers = λ b. refl;
}
