-- ===== src/Entry.antt =====
-- cmd/main.go: the bootstrap job and the operator. The flag package, client-go and the manager of
-- controller-runtime are parameters. The operator is followed through the requests of one worker.
pub mod Options
pub mod Servers
pub mod Job
pub mod Trust
pub mod Below
pub mod Laws
pub mod Locked
use authentik_operator.Prelude.{
  ℕ, String, ◌==◌, Bool, true, false, Option, List, [], ◌∷◌, if◌then◌else◌,
}
use authentik_operator.Errors.{Error, Result, ok, err}
use authentik_operator.Api.{NamespacedName, Secret}
use authentik_operator.Hash.{value_at}
use authentik_operator.World.{Env}
use authentik_operator.World.Effects.{
  Exec, ◌>>=◌, ◌>>◌, pass_on, pure, attempt, check, set_token, get_secret, wait_request,
}
use authentik_operator.Authentik.{new_client}
use authentik_operator.Bootstrap.{Config, run}
use authentik_operator.Reconciler.{reconcile}
use authentik_operator.Reconciler.Token.{Reconciler}
use Options.{Flags, client_options}
use Servers.{ManagerOptions, manager_options}

-- The libraries and the process that `main` calls.
pub record Host : Type 0 where
  -- `os.Getenv`
  pub getenv : String → String
  -- `ctrl.GetConfigOrDie`
  pub config_error : Option Error
  -- `client.New`
  pub client_error : Option Error
  -- `ctrl.NewManager`
  pub manager_error : ManagerOptions → Option Error
  -- `SetupWithManager`, `AddHealthzCheck` and `AddReadyzCheck`
  pub setup_error : Option Error
  pub healthz_error : Option Error
  pub readyz_error : Option Error
  -- what the started manager hands over to this worker, and how it ends
  pub requests : List NamespacedName
  pub start_error : Option Error

-- An error ends the process with 1.
unfoldable pub exit_code : Result (Unit {0}) → ℕ
exit_code (ok _) = 0
exit_code (err _) = 1

module _ (env : Env) (host : Host) (f : Flags) where
  -- `POD_NAMESPACE`, or the default
  unfoldable pub pod_namespace : String
  pod_namespace =
      if host.getenv "POD_NAMESPACE" == "" then "default" else host.getenv "POD_NAMESPACE"

  unfoldable pub bootstrap_config : Config
  bootstrap_config = record {
    authentik_url = host.getenv "AUTHENTIK_URL";
    bootstrap_token = host.getenv "AUTHENTIK_BOOTSTRAP_TOKEN";
    token_identifier = "authentik-operator";
    token_secret_name = host.getenv "TOKEN_SECRET_NAME";
    namespace = pod_namespace;
    client_opts = client_options f;
    force_refresh = false;
    has_rest_config = true;
    authentik_namespace = f.authentik_namespace;
  }

  -- The job, with its exit code.
  unfoldable pub run_job : Exec ℕ
  run_job = do
    result ← attempt (do check host.config_error; check host.client_error; run env bootstrap_config)
    pure (exit_code result)

  abbrev pub start_key : NamespacedName
  start_key = record { name = f.authentik_token_secret; namespace = pod_namespace }

  unfoldable pub token_of : Result Secret → String
  token_of (ok s) = value_at s.content "token"
  token_of (err _) = ""

  -- The token at the start: that of the environment, or else that of the token Secret.
  unfoldable pub start_token : Exec String
  start_token =
      if host.getenv "AUTHENTIK_TOKEN" == ""
      then (do found ← attempt (get_secret env start_key); pure (token_of found))
      else pure (host.getenv "AUTHENTIK_TOKEN")

  unfoldable pub reconciler : String → Reconciler
  reconciler token = record {
    authentik_client = new_client env f.authentik_url token (client_options f);
    authentik_url = f.authentik_url;
    reconcile_interval = f.reconcile_interval;
    token_secret_name = f.authentik_token_secret;
    token_secret_namespace = pod_namespace;
    bootstrap_secret_name = "authentik-bootstrap";
    bootstrap_secret_key = "bootstrap_token";
    bootstrap_client_opts = client_options f;
    has_rest_config = true;
  }

  -- The requests of the manager; it takes an error of a run as a wish to run again. Between two requests
  -- the worker waits, and other workers may set the shared token.
  unfoldable pub serve : Reconciler → List NamespacedName → Exec (Unit {0})
  serve r [] = pure tt
  serve r (req ∷ reqs) = attempt (reconcile env r req) >> (wait_request env >> serve r reqs)

  -- The operator, with its exit code.
  unfoldable pub run_operator : Exec ℕ
  run_operator = do
    result ← attempt (do
      check host.config_error
      check (host.manager_error (manager_options f))
      token ← start_token
      set_token token
      check host.setup_error
      check host.healthz_error
      check host.readyz_error
      serve (reconciler token) host.requests
      check host.start_error)
    pure (exit_code result)

  -- `main`
  unfoldable pub main : Exec ℕ
  main = if f.bootstrap_mode then run_job else run_operator
