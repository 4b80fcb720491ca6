-- ===== src/Bootstrap/Below.antt =====
-- Where the requests of a bootstrap go.
use authentik_operator.Prelude.{String, ◌≡◌}
use authentik_operator.Text.{trim_slashes}
use authentik_operator.World.{Env, ExecRequest}
use authentik_operator.World.Guards.{Guards}
use authentik_operator.Authentik.{new_client}
use authentik_operator.Authentik.Below.{
  Safe, Rely, safe_rules, create_api_token-Safe, wait_for_ready-Safe,
}
use authentik_operator.Bootstrap.{
  Config, read_token, exec_get_token, check_existing, exec_key, obtain_key, run,
}

module _ (env : Env) (cfg : Config) {Allowed : String → Type 0} {base : String}
    (rely : Rely env Allowed) (brought : Allowed cfg.bootstrap_token)
    (at_base : trim_slashes cfg.authentik_url ≡ base) where
  read_token-Safe : (q : ExecRequest) → Guards (Safe Allowed base) (read_token env q)
  unfolding read_token
  read_token-Safe q = search (safe_rules) depth 9

  exec_get_token-Safe : (ns : String) → Guards (Safe Allowed base) (exec_get_token env ns)
  unfolding exec_get_token
  exec_get_token-Safe ns = search (safe_rules, read_token-Safe) depth 9

  exec_key-Safe : Guards (Safe Allowed base) (exec_key env cfg)
  unfolding exec_key
  exec_key-Safe = search (safe_rules, exec_get_token-Safe) depth 9

  create-Safe : Guards (Safe Allowed base) (
      authentik_operator.Authentik.create_api_token env
        (new_client env cfg.authentik_url cfg.bootstrap_token cfg.client_opts)
        cfg.token_identifier)
  unfolding new_client
  create-Safe =
      create_api_token-Safe env
        (new_client env cfg.authentik_url cfg.bootstrap_token cfg.client_opts) rely brought at_base
        cfg.token_identifier

  obtain_key-Safe : Guards (Safe Allowed base) (obtain_key env cfg)
  unfolding obtain_key
  obtain_key-Safe = search (safe_rules, exec_key-Safe, create-Safe) depth 9

  check_existing-Safe : Guards (Safe Allowed base) (check_existing env cfg)
  unfolding check_existing
  check_existing-Safe = search (safe_rules) depth 12

  wait-Safe : Guards (Safe Allowed base) (
      authentik_operator.Authentik.Wait.wait_for_ready env
        (new_client env cfg.authentik_url cfg.bootstrap_token cfg.client_opts)
        authentik_operator.Bootstrap.readiness_timeout)
  unfolding new_client
  wait-Safe =
      wait_for_ready-Safe env (new_client env cfg.authentik_url cfg.bootstrap_token cfg.client_opts)
        rely brought at_base _

  pub run-Safe : Guards (Safe Allowed base) (run env cfg)
  unfolding run
  run-Safe = search (safe_rules, check_existing-Safe, wait-Safe, obtain_key-Safe) depth 12
