-- ===== src/Bootstrap/Quiet.antt =====
-- A bootstrap writes Secrets only.
use authentik_operator.Prelude.{String}
use authentik_operator.Api.{Secret, SecretApply}
use authentik_operator.World.Effects.{delete_secret, apply_secret}
use authentik_operator.World.{Trace, ExecRequest, Env}
use authentik_operator.World.Keeps.{Keeps, IsClosed, IsWide, Keeps-perform, keeps_rules}
use authentik_operator.Authentik.Quiet.{wait_for_ready-Keeps, create_api_token-Keeps}
use authentik_operator.Bootstrap.{
  Config, read_token, exec_get_token, check_existing, exec_key, obtain_key, run,
}

module _ (env : Env) {P : Trace → Type 0} (closed : IsClosed P) where
  read_token-Keeps : (q : ExecRequest) → Keeps P (read_token env q)
  unfolding read_token
  read_token-Keeps q = search keeps_rules depth 9

  exec_get_token-Keeps : (ns : String) → Keeps P (exec_get_token env ns)
  unfolding exec_get_token
  exec_get_token-Keeps ns = search (keeps_rules, read_token-Keeps) depth 9

  exec_key-Keeps : (cfg : Config) → Keeps P (exec_key env cfg)
  unfolding exec_key
  exec_key-Keeps cfg = search (keeps_rules, exec_get_token-Keeps) depth 9

  pub obtain_key-Keeps : (cfg : Config) → Keeps P (obtain_key env cfg)
  unfolding obtain_key
  obtain_key-Keeps cfg = search (keeps_rules, exec_key-Keeps, create_api_token-Keeps) depth 9

module _ (env : Env) {P : Trace → Type 0} (wide : IsWide P) where
  delete_secret-Keeps : (s : Secret) → Keeps P (delete_secret env s)
  delete_secret-Keeps s = Keeps-perform _ _ (wide.delete s)

  apply_secret-Keeps : (s : SecretApply) → Keeps P (apply_secret env s)
  apply_secret-Keeps s = Keeps-perform _ _ (wide.apply s)

  check_existing-Keeps : (cfg : Config) → Keeps P (check_existing env cfg)
  unfolding check_existing
  check_existing-Keeps cfg = search (keeps_rules, delete_secret-Keeps, wide.closed) depth 12

  pub run-Keeps : (cfg : Config) → Keeps P (run env cfg)
  unfolding run
  run-Keeps cfg =
      search
        (
          keeps_rules, check_existing-Keeps, wait_for_ready-Keeps, obtain_key-Keeps,
          apply_secret-Keeps, wide.closed,
        )
        depth 9
