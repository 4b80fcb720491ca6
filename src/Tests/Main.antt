-- ===== src/Tests/Main.antt =====
-- Runs of `main` and of its parts, and what a request's address and a hash determine.
use authentik_operator.Prelude.{
  ◌<>◌, ℕ, String, ◌≡◌, refl, true, none, some, List, [], ◌∷◌, All, arith, ltb, if◌then◌else◌, ◌==◌,
  ◌≤◌,
}
use authentik_operator.Prelude.Dict.{lookup}
use authentik_operator.Errors.{Result, ok, err, status_error}
use authentik_operator.Api.{Secret}
use authentik_operator.Text.Escape.{utf8}
use authentik_operator.Hash.{compute_secret_hash, serialize}
use authentik_operator.Hash.Injective.{compute_secret_hash_inj}
use authentik_operator.World.{Call, World, Trace, Env}
use authentik_operator.Authentik.{
  new_client, application_url, authorized, create_api_token, check_created, view_token_key,
}
use authentik_operator.Authentik.Wait.{wait_for_ready, ready_loop, ready_round, is_ready}
use authentik_operator.Authentik.Tls.{config_of}
use authentik_operator.Authentik.Requests.{read_segment, application_url-slug}
use authentik_operator.Text.Hex.{IsByte}
use authentik_operator.Text.{drop_text}
use authentik_operator.Text.Laws.{count}
use authentik_operator.Text.Path.{IsSegment}
use authentik_operator.Bootstrap.{
  Config, run, check_existing, obtain_key, exec_key, exec_get_token, first_running,
  readiness_timeout,
}
use authentik_operator.Reconciler.{reconcile}
use authentik_operator.Reconciler.Protocol.Defs.{Rises}
use authentik_operator.Reconciler.Protocol.Run.{reconcile-Rises}
use authentik_operator.Entry.{Host, run_job, bootstrap_config, exit_code}
use authentik_operator.Entry.Options.{Flags, default_flags, client_options}
use authentik_operator.Entry.Job.{IsProvided, run_job-IsProvided}
use authentik_operator.Entry.Laws.{config_of-client_options}
use authentik_operator.Tests.Fixtures.{
  env_with, test_client, test_reconciler, request, with_token, without_token,
}

abbrev variable : String → String
variable name =
    if name == "TOKEN_SECRET_NAME"
    then "authentik-operator-token"
    else if name == "AUTHENTIK_URL"
    then "https://auth.example.org"
    else ""

abbrev pub test_host : Host
test_host = record {
  getenv = variable;
  config_error = none;
  client_error = none;
  manager_error = λ o. none;
  setup_error = none;
  healthz_error = none;
  readyz_error = none;
  requests = request ∷ request ∷ [];
  start_error = none;
}

reconcile-Rises_example :
    (n : ℕ) × (n ≤ 6)
    × Rises [] n
        (reconcile
          (env_with "" 200)
          test_reconciler
          request
          (record with_token { trace = [] })).1.trace
reconcile-Rises_example = reconcile-Rises (env_with "" 200) test_reconciler request with_token

application_url-slug_example :
    (read_segment (
        drop_text
          (count "https://auth.example.org/api/v3/core/applications/")
          (application_url (env_with "" 200) test_client "a/b"))
      ≡ some (97 ∷ 47 ∷ 98 ∷ []))
    × ((segment : String) × IsSegment segment
        × (application_url (env_with "" 200) test_client "a/b"
            ≡ "https://auth.example.org/api/v3/core/applications/" <> (segment <> "/")))
unfolding utf8
application_url-slug_example = application_url-slug (env_with "" 200) test_client "a/b"

abbrev custom_flags : Flags
custom_flags = record default_flags {
  authentik_ca_cert_path = "/etc/ca.pem";
  authentik_insecure_skip_verify = true;
}

config_of-client_options_example :
    config_of (client_options custom_flags)
    ≡ record { ca_cert_path = "/etc/ca.pem"; ca_cert_data = []; insecure_skip_verify = true }
unfolding utf8
config_of-client_options_example = config_of-client_options custom_flags

-- The token Secret is there once it was applied.
abbrev stored_secret : Trace → Result Secret
stored_secret [] = err (status_error "NotFound")
stored_secret (Call.secret_apply s ∷ t) =
    ok (record { name = s.name; namespace = s.namespace; content = s.content })
stored_secret (_ ∷ t) = stored_secret t

abbrev fresh : Env
fresh = record (env_with "" 200) { get_secret = λ t key. stored_secret t }

run_job-IsProvided_example :
    IsProvided fresh
      (bootstrap_config fresh test_host default_flags)
      without_token
      (run_job fresh test_host default_flags without_token).1
unfolding run_job run check_existing wait_for_ready ready_loop ready_round is_ready obtain_key
    exec_key exit_code create_api_token check_created view_token_key authorized bootstrap_config
    exec_get_token first_running
run_job-IsProvided_example = run_job-IsProvided fresh test_host default_flags without_token refl

abbrev after_job : World
after_job = (run_job fresh test_host default_flags without_token).1

abbrev job : Config
job = bootstrap_config fresh test_host default_flags

abbrev read_once : World
read_once = (check_existing fresh job without_token).1

abbrev ready : World
ready =
    (wait_for_ready fresh (new_client fresh job.authentik_url job.bootstrap_token job.client_opts)
      readiness_timeout read_once).1

abbrev clean_data : List (String × String)
clean_data = ("a", "x") ∷ ("b", "y") ∷ []

abbrev other_order : List (String × String)
other_order = ("b", "y") ∷ ("a", "x") ∷ []

abbrev small_digest : List ℕ → List ℕ
small_digest [] = []
small_digest (b ∷ bs) = (if ltb b 256 then b else 0) ∷ small_digest bs

small_digest-IsByte : (bs : List ℕ) → All IsByte (small_digest bs)
small_digest-IsByte [] = tt
small_digest-IsByte (b ∷ bs) = (ground arith, small_digest-IsByte bs)

compute_secret_hash_inj_example : lookup {V = String} "a" clean_data ≡ lookup "a" other_order
unfolding compute_secret_hash serialize utf8
compute_secret_hash_inj_example =
    compute_secret_hash_inj small_digest clean_data other_order
      ((refl, tt), ((refl, tt), ((refl, tt), ((refl, tt), tt))))
      ((refl, tt), ((refl, tt), ((refl, tt), ((refl, tt), tt)))) small_digest-IsByte (λ e. refl)
      refl "a"
