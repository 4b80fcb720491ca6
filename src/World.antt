-- ===== src/World.antt =====
-- What the operator acts on. The Kubernetes API, Authentik's HTTP API, the pods, the clock and the
-- ticker are not code of the repository: each call's answer is a function of the calls made before
-- it, so an environment may change anything between two calls. The newest call stands first.
pub mod Effects
pub mod Keeps
pub mod Guards
use authentik_operator.Prelude.{ℕ, String, Bool, Option, List}
use authentik_operator.Errors.{Error, Result}
use authentik_operator.Api.{
  NamespacedName, Secret, SecretApply, OidcClient, ConfigMap, Kind, Workload, Pod, Condition,
}
use authentik_operator.Certs.{Bytes, Certificate, CertCodec}
use authentik_operator.Profiles.{Codec}
use authentik_operator.Responses.{JsonCodec}

-- `tls.Config`, as `buildTLSConfig` fills it
pub record TlsConfig : Type 0 where
  pub insecure_skip_verify : Bool
  pub root_cas : List Certificate

-- A request with the headers that the program sets. The token stands behind "Bearer ".
pub record HttpRequest : Type 0 where
  pub method : String
  pub url : String
  pub token : Option String
  pub content_type : Option String
  pub body : Bytes
  pub deadline : Option ℕ

pub record HttpResponse : Type 0 where
  pub status : ℕ
  pub body : Bytes

-- The program run in a pod.
pub record ExecRequest : Type 0 where
  pub pod : String
  pub namespace : String
  pub command : List String

pub record ExecOutput : Type 0 where
  pub stdout : String
  pub stderr : String

pub data Call : Type 0 where
  secret_get : NamespacedName → Call
  secret_delete : Secret → Call
  secret_apply : SecretApply → Call
  client_get : NamespacedName → Call
  status_update : OidcClient → Call
  config_map_get : NamespacedName → Call
  config_map_update : ConfigMap → Call
  workload_get : Kind → NamespacedName → Call
  workload_patch : Workload → Workload → Call
  http : Option TlsConfig → HttpRequest → Call
  pods_list : String → String → Call
  pod_exec : ExecRequest → Call
  clock_read : Call
  ticker_wait : Call
  request_wait : Call

abbrev pub Trace : Type 0
Trace = List Call

-- The token that the requests of a client carry: one that is set when the client is made and never
-- after, or that of the reconciler's client, which all workers share and set.
pub data Bearer : Type 0 where
  fixed : String → Bearer
  shared : Bearer

-- The libraries and services that the program calls.
pub record Env : Type 0 where
  pub certs : CertCodec
  pub templates : Codec
  pub json : JsonCodec
  -- `http.NewRequestWithContext`: the error where the address does not parse
  pub request_error : String → Option Error
  pub system_cert_pool : Result (List Certificate)
  pub read_file : String → Result Bytes
  -- `meta.SetStatusCondition`
  pub set_status_condition : Trace → List Condition → Condition → List Condition
  pub get_secret : Trace → NamespacedName → Result Secret
  -- the error, if any, of a call that answers nothing else
  pub delete_secret : Trace → Secret → Option Error
  pub apply_secret : Trace → SecretApply → Option Error
  pub get_client : Trace → NamespacedName → Result OidcClient
  pub update_status : Trace → OidcClient → Option Error
  pub get_config_map : Trace → NamespacedName → Result ConfigMap
  pub update_config_map : Trace → ConfigMap → Option Error
  pub get_workload : Trace → Kind → NamespacedName → Result Workload
  pub patch_workload : Trace → Workload → Workload → Option Error
  -- `http.Client.Do`, with the redirects that it follows: their requests are no calls of the trace
  pub send : Trace → Option TlsConfig → HttpRequest → Result HttpResponse
  pub clientset_error : Trace → Option Error
  pub list_pods : Trace → String → String → Result (List Pod)
  pub executor_error : Trace → ExecRequest → Option Error
  -- the output up to the end of the stream, and the error of the stream if it has one
  pub exec_output : Trace → ExecRequest → ExecOutput
  pub exec_error : Trace → ExecRequest → Option Error
  -- `time.Now()` in nanoseconds
  pub now : Trace → ℕ
  -- `ctx.Err()` where the context ends before the ticker's next tick
  pub cancelled : Trace → Option Error
  -- the token of the shared client, where this worker has last set it to the given one: another
  -- worker may have set it since
  pub shared_token : Trace → String → String

-- What one worker has done: the token that it has last set on the reconciler's `authentik.Client`,
-- whose one field that changes this is, and its calls.
pub record World : Type 0 where
  pub token : String
  pub trace : Trace
