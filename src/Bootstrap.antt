-- ===== src/Bootstrap.antt =====
-- internal/bootstrap/bootstrap.go: the API token, and the Secret that keeps it.
pub mod Quiet
pub mod Laws
pub mod Printed
pub mod Below
pub mod Token
pub mod Success
use authentik_operator.Prelude.{
  ℕ, ◌*◌, String, ◌==◌, Bool, true, false, not, none, some, List, [], ◌∷◌, if◌then◌else◌,
}
use authentik_operator.Errors.{str, quoted, errorf, wrapf, ok, err, is_not_found}
use authentik_operator.Text.{trim_space, split_lines}
use authentik_operator.Api.{NamespacedName, SecretApply, Pod}
use authentik_operator.World.{ExecRequest, Env}
use authentik_operator.World.Effects.{
  Exec, ◌>>=◌, ◌>>◌, pure, fail, attempt, on_result, on_option, wrapping, check_now, get_secret,
  delete_secret, apply_secret, list_pods, exec_pod,
}
use authentik_operator.Authentik.{new_client, create_api_token, second}
use authentik_operator.Authentik.Wait.{wait_for_ready}
use authentik_operator.Authentik.Tls.{ClientOption}

-- `Config`. Of the REST configuration the code here tests only whether it is set.
pub record Config : Type 0 where
  pub authentik_url : String
  pub bootstrap_token : String
  pub token_identifier : String
  pub token_secret_name : String
  pub namespace : String
  pub client_opts : List ClientOption
  pub force_refresh : Bool
  pub has_rest_config : Bool
  pub authentik_namespace : String

abbrev pub readiness_timeout : ℕ
readiness_timeout = 300 * second

abbrev pub authentik_pod_selector : String
authentik_pod_selector = "app.kubernetes.io/name=authentik,app.kubernetes.io/component=server"

abbrev pub ak_shell_command : String
ak_shell_command =
    "from authentik.core.models import Token, TokenIntents; from django.contrib.auth import get_user_model; User = get_user_model(); user = User.objects.get(username='akadmin'); token, created = Token.objects.get_or_create(identifier='authentik-operator', defaults={'user': user, 'intent': TokenIntents.INTENT_API, 'expiring': False}); print(token.key)"

-- The loop over the pods: the name of the first that runs, or the empty text.
unfoldable pub first_running : List Pod → String
first_running [] = ""
first_running (pod ∷ pods) = if pod.phase == "Running" then pod.name else first_running pods

-- The loop over the lines, from the last one to the first: what it finds behind a line counts first.
unfoldable pub last_line : List String → String
last_line [] = ""
last_line (line ∷ lines) =
    let later = last_line lines in if later == "" then trim_space line else later

abbrev pub exec_request : String → String → ExecRequest
exec_request namespace pod = record {
  pod = pod;
  namespace = namespace;
  command = "ak" ∷ "shell" ∷ "-c" ∷ ak_shell_command ∷ [];
}

abbrev pub secret_key : Config → NamespacedName
secret_key cfg = record { name = cfg.token_secret_name; namespace = cfg.namespace }

unfoldable pub token_secret : Config → String → SecretApply
token_secret cfg key = record {
  name = cfg.token_secret_name;
  namespace = cfg.namespace;
  labels =
      ("auth.kettleofketchup/managed-by", "authentik-operator")
      ∷ ("auth.kettleofketchup/component", "bootstrap")
      ∷ [];
  annotations = ("argocd.argoproj.io/compare-options", "IgnoreExtraneous") ∷ [];
  content = ("token", key) ∷ [];
}

module _ (env : Env) where
  -- The stream, and the token on the last line of its output.
  unfoldable pub read_token : ExecRequest → Exec String
  read_token q = do
    wrapping "creating SPDY executor: %w" [] (check_now (λ t. env.executor_error t q))
    (out, failed) ← exec_pod env q
    on_option failed
        (let token_key = last_line (split_lines out.stdout) in
          if token_key == ""
          then fail (
              errorf "ak shell returned no usable output (stderr: %s)"
                (str (trim_space out.stderr) ∷ []))
          else pure token_key)
        (λ e.
          fail (wrapf "exec stream error (stderr: %s): %w" (str (trim_space out.stderr) ∷ []) e))

  -- `execGetToken`
  unfoldable pub exec_get_token : String → Exec String
  exec_get_token namespace = do
    wrapping "creating kubernetes clientset: %w" [] (check_now env.clientset_error)
    pods ←
        wrapping "listing authentik pods in namespace %q: %w" (quoted namespace ∷ [])
          (list_pods env namespace authentik_pod_selector)
    let target = first_running pods
    if target == ""
        then fail (
            errorf "no running authentik server pods found in namespace %q (selector: %s)"
              (quoted namespace ∷ str authentik_pod_selector ∷ []))
        else read_token (exec_request namespace target)

  -- What `Run` does about a Secret that is there; `true` ends the run.
  unfoldable pub check_existing : Config → Exec Bool
  check_existing cfg = do
    found ← attempt (get_secret env (secret_key cfg))
    on_result found
        (λ existing. if not cfg.force_refresh then pure true else do
          wrapping "deleting stale token secret: %w" [] (delete_secret env existing)
          pure false)
        (λ e.
          if is_not_found e then pure false else fail (wrapf "checking existing secret: %w" [] e))

  -- The key by `ak shell`; the empty text where there is no REST configuration or the run failed.
  unfoldable pub exec_key : Config → Exec String
  exec_key cfg = if not cfg.has_rest_config then pure "" else do
    key ← attempt (
        exec_get_token
          (if cfg.authentik_namespace == "" then "authentik" else cfg.authentik_namespace))
    pure (elim key [ ok k ↦ k | err _ ↦ "" ])

  -- The key by `ak shell`, or else by the HTTP API.
  unfoldable pub obtain_key : Config → Exec String
  obtain_key cfg = do
    key ← exec_key cfg
    if key == ""
        then wrapping "creating Authentik API token via HTTP: %w" [] (
            create_api_token env
              (new_client env cfg.authentik_url cfg.bootstrap_token cfg.client_opts)
              cfg.token_identifier)
        else pure key

  -- `Run`
  unfoldable pub run : Config → Exec (Unit {0})
  run cfg = do
    finished ← check_existing cfg
    if finished then pure tt else do
      wrapping "waiting for Authentik readiness: %w" [] (
          wait_for_ready env (new_client env cfg.authentik_url cfg.bootstrap_token cfg.client_opts)
            readiness_timeout)
      key ← obtain_key cfg
      wrapping "applying token secret: %w" [] (apply_secret env (token_secret cfg key))
