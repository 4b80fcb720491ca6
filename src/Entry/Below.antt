-- ===== src/Entry/Below.antt =====
-- Where the requests of the whole program go, and whose tokens they carry.
use authentik_operator.Prelude.{
  ℕ, String, ◌==◌, ◌≡◌, refl, Bool, true, false, arith, inl, inr, Bool-cases, List, [], ◌∷◌,
  if◌then◌else◌,
}
use authentik_operator.Errors.{Result, ok, err}
use authentik_operator.Text.{trim_slashes}
use authentik_operator.Api.{NamespacedName, Secret}
use authentik_operator.World.{Call, Trace, World, Env}
use authentik_operator.World.Effects.{Exec, ◌>>=◌, ◌>>◌, check, set_token, wait_request}
use authentik_operator.World.Guards.{Guards, Gives, Guards-attempt, Guards-bind, Guards-bind_Gives}
use authentik_operator.Authentik.{new_client}
use authentik_operator.Authentik.Below.{Safe, Rely, safe_rules, Guards-token, Guards-other}
use authentik_operator.Bootstrap.{run}
use authentik_operator.Bootstrap.Below.{run-Safe}
use authentik_operator.Reconciler.{reconcile}
use authentik_operator.Reconciler.Token.{Reconciler}
use authentik_operator.Reconciler.Sources.{Sources}
use authentik_operator.Reconciler.Below.{reconcile-Safe}
use authentik_operator.Entry.{
  Host, bootstrap_config, run_job, start_key, token_of, start_token, reconciler, serve,
  run_operator, main,
}
use authentik_operator.Entry.Options.{Flags}

-- The two modes.
by_mode :
    (Allowed : String → Type 0) (b : Bool) (m n : Exec ℕ) (u v : String)
    → Guards (Safe Allowed (trim_slashes u)) m
    → Guards (Safe Allowed (trim_slashes v)) n
    → Guards (Safe Allowed (trim_slashes (if b then u else v))) (if b then m else n)
by_mode Allowed true m n u v km kn = km
by_mode Allowed false m n u v km kn = kn

module _ (env : Env) (host : Host) (f : Flags) {Allowed : String → Type 0} (rely : Rely env Allowed)
    -- the two tokens of the process's environment
    (from_env : Allowed (host.getenv "AUTHENTIK_TOKEN"))
    (bootstrap : Allowed (host.getenv "AUTHENTIK_BOOTSTRAP_TOKEN"))
    -- the token Secret and the bootstrap Secret
    (sources : Sources env (reconciler env host f "") Allowed) where
  run_config-Safe :
      Guards
        (Safe Allowed (trim_slashes (host.getenv "AUTHENTIK_URL")))
        (run env (bootstrap_config env host f))
  unfolding bootstrap_config
  run_config-Safe = run-Safe env (bootstrap_config env host f) rely bootstrap refl

  run_job-Safe :
      Guards (Safe Allowed (trim_slashes (host.getenv "AUTHENTIK_URL"))) (run_job env host f)
  unfolding run_job
  run_job-Safe = search (safe_rules, run_config-Safe) depth 9

  token_of-Allowed :
      (t : Trace) (a : Result Secret)
      → env.get_secret t (start_key env host f) ≡ a
      → Allowed (token_of env host f a)
  unfolding token_of reconciler
  token_of-Allowed t (ok s) e = sources.stored t s e
  token_of-Allowed t (err _) e = rely.cleared

  start_token-Safe : Guards (Safe Allowed (trim_slashes f.authentik_url)) (start_token env host f)
  unfolding start_token
  start_token-Safe = search safe_rules depth 9

  start_token-Allowed :
      Gives (Safe Allowed (trim_slashes f.authentik_url)) Allowed (start_token env host f)
  unfolding start_token
  start_token-Allowed = record {
    at = λ w h a e. elim (Bool-cases (host.getenv "AUTHENTIK_TOKEN" == "")) [
      | inl b ↦
          let same : token_of env host f (env.get_secret w.trace (start_key env host f)) ≡ a =
            ground (arith, b, e) in
          rw same at (token_of-Allowed w.trace (env.get_secret w.trace (start_key env host f)) refl)
      | inr b ↦
          let same : host.getenv "AUTHENTIK_TOKEN" ≡ a = ground (arith, b, e) in rw same at from_env
    ];
  }

  serve-Safe :
      (r : Reconciler) (reqs : List NamespacedName)
      → ((req : NamespacedName)
          → Guards (Safe Allowed (trim_slashes f.authentik_url)) (reconcile env r req))
      → Guards (Safe Allowed (trim_slashes f.authentik_url)) (serve env host f r reqs)
  unfolding serve
  serve-Safe r [] k = search safe_rules
  serve-Safe r (req ∷ reqs) k = Guards-bind _ _ (Guards-attempt _ (k req)) (λ _.
      Guards-bind (wait_request env) _ (Guards-other Call.request_wait (λ t. ok tt) refl)
        (λ _. serve-Safe r reqs k))

  work-Safe :
      (token : String)
      → Guards
          (Safe Allowed (trim_slashes f.authentik_url))
          (serve env host f (reconciler env host f token) host.requests)
  unfolding reconciler new_client
  work-Safe token = serve-Safe _ host.requests (
      reconcile-Safe env (reconciler env host f token) rely
        (record { stored = sources.stored; bootstrap = sources.bootstrap }) refl refl)

  abbrev set_up : String → Exec (Unit {0})
  set_up token = do
    check host.setup_error
    check host.healthz_error
    check host.readyz_error
    serve env host f (reconciler env host f token) host.requests
    check host.start_error

  set_up-Safe :
      (token : String) → Guards (Safe Allowed (trim_slashes f.authentik_url)) (set_up token)
  set_up-Safe token = search (safe_rules, work-Safe) depth 14

  started-Safe :
      Guards
        (Safe Allowed (trim_slashes f.authentik_url))
        (start_token env host f >>= λ token. set_token token >> set_up token)
  started-Safe =
      Guards-bind_Gives (start_token env host f) _ start_token-Safe start_token-Allowed (λ token h.
        Guards-bind (set_token token) (λ _. set_up token) (Guards-token token h)
          (λ _. set_up-Safe token))

  run_operator-Safe : Guards (Safe Allowed (trim_slashes f.authentik_url)) (run_operator env host f)
  unfolding run_operator
  run_operator-Safe = search (safe_rules, started-Safe) depth 12

  -- The address that the program is configured with: the environment's for the job, the flag's for the operator.
  abbrev pub configured_url : String
  configured_url = if f.bootstrap_mode then host.getenv "AUTHENTIK_URL" else f.authentik_url

  -- Over a whole run of the program, as the job or as a worker of the operator with any requests, every
  -- request that the code hands to net/http goes to one of six addresses under the address that the program is configured with:
  -- those of the applications, the certificates and the keys of tokens, each with one segment, which holds only the
  -- characters of a segment and may be one of dots, that of the providers with the primary key that Authentik answered,
  -- and the two fixed ones for new tokens and for the readiness. It carries no other token than
  -- the empty one, those of the two variables of the process's environment, and
  -- those that the token Secret and the bootstrap Secret hold: it carries an allowed token, for every set of allowed tokens that has these, and
  -- from which the other workers take the tokens that they set. Where net/http follows a redirect, the
  -- requests that it then makes are its own and are not stated of.
  pub main-Safe :
      (w : World)
      → Safe Allowed (trim_slashes configured_url) w
      → Safe Allowed (trim_slashes configured_url) (main env host f w).1
  unfolding main
  main-Safe w h =
      (by_mode Allowed f.bootstrap_mode (run_job env host f) (run_operator env host f)
          (host.getenv "AUTHENTIK_URL") f.authentik_url run_job-Safe run_operator-Safe).at
        w h
