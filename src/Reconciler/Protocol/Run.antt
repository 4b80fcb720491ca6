-- ===== src/Reconciler/Protocol/Run.antt =====
-- The stages of a refresh of the token, and of a whole run of `Reconcile`.
use authentik_operator.Prelude.{ℕ, ◌≤◌, String, refl, arith}
use authentik_operator.Errors.{Error}
use authentik_operator.Api.{NamespacedName, OidcClient, Secret}
use authentik_operator.World.{Trace, World, Env}
use authentik_operator.World.Keeps.{IsClosed, Keeps-attempt, keeps_rules}
use authentik_operator.World.Effects.{on_result, apply_secret, delete_secret}
use authentik_operator.Authentik.Quiet.{wait_for_ready-Keeps}
use authentik_operator.Bootstrap.{Config, check_existing, token_secret, run}
use authentik_operator.Bootstrap.Quiet.{obtain_key-Keeps}
use authentik_operator.Reconciler.{try_refresh, provider_failed, reconcile_client, reconcile}
use authentik_operator.Reconciler.Token.{Reconciler, refresh_token}
use authentik_operator.Reconciler.Sync.{sync_provider}
use authentik_operator.Reconciler.Order.Whole.{
  ensure_token-Keeps, get_provider-Keeps, reload_token-Keeps,
}
use authentik_operator.Reconciler.Protocol.Moves.{report_missing-Climbs, sync_provider-Climbs}
use authentik_operator.Reconciler.Protocol.Defs.{
  is_token_secret, rank, Rises, Below, Below-IsClosed, Climbs, Climbs-perform, Climbs-seq,
  Climbs-bind, Climbs-result, climbs_rules,
}

module _ (env : Env) (base : Trace) where
  closed : (k : ℕ) → IsClosed (Below base k)
  closed = Below-IsClosed base

  delete_secret-Climbs : (s : Secret) → Climbs base 0 1 (delete_secret env s)
  unfolding rank
  delete_secret-Climbs s = Climbs-perform _ _ refl refl

  check_existing-Climbs : (cfg : Config) → Climbs base 0 1 (check_existing env cfg)
  unfolding check_existing
  check_existing-Climbs cfg =
      search (climbs_rules, keeps_rules, Climbs-seq 1, delete_secret-Climbs, closed) depth 12

  token_secret-Climbs :
      (cfg : Config) (key : String) → Climbs base 1 2 (apply_secret env (token_secret cfg key))
  unfolding rank is_token_secret token_secret
  token_secret-Climbs cfg key = Climbs-perform _ _ refl refl

  run-Climbs : (cfg : Config) → Climbs base 0 2 (run env cfg)
  unfolding run
  run-Climbs cfg =
      search
        (
          climbs_rules,
          keeps_rules,
          Climbs-seq 1,
          check_existing-Climbs,
          token_secret-Climbs,
          wait_for_ready-Keeps,
          obtain_key-Keeps,
          closed,
        )
        depth 12

  refresh_token-Climbs : (r : Reconciler) → Climbs base 0 2 (refresh_token env r)
  unfolding refresh_token
  refresh_token-Climbs r =
      search (climbs_rules, keeps_rules, Climbs-seq 2, run-Climbs, reload_token-Keeps, closed) depth
        14

  try_refresh-Climbs : (r : Reconciler) (e : Error) → Climbs base 0 2 (try_refresh env r e)
  unfolding try_refresh
  try_refresh-Climbs r e =
      search (climbs_rules, keeps_rules, Climbs-seq 2, refresh_token-Climbs) depth 9

  provider_failed-Climbs :
      (r : Reconciler) (oc : OidcClient) (e : Error) → Climbs base 0 6 (provider_failed env r oc e)
  unfolding provider_failed
  provider_failed-Climbs r oc e =
      search (climbs_rules, keeps_rules, Climbs-seq 2, try_refresh-Climbs, report_missing-Climbs)
        depth 9

  reconcile_client-Climbs :
      (r : Reconciler) (oc : OidcClient) → Climbs base 0 6 (reconcile_client env r oc)
  unfolding reconcile_client
  reconcile_client-Climbs r oc =
      Climbs-bind _ (λ found. on_result found (sync_provider env r oc) (provider_failed env r oc))
        (Keeps-attempt _ (get_provider-Keeps env r (closed 0) oc.spec.authentik.application_slug))
        (λ found.
          Climbs-result found _ _ (sync_provider-Climbs env base r oc)
            (provider_failed-Climbs r oc))
        refl

  reconcile-Climbs : (r : Reconciler) (req : NamespacedName) → Climbs base 0 6 (reconcile env r req)
  unfolding reconcile
  reconcile-Climbs r req =
      search (climbs_rules, keeps_rules, ensure_token-Keeps, reconcile_client-Climbs, closed) depth
        12

-- Every run of `Reconcile` follows the protocol: what it writes comes in this order, each at most once: the
-- deletion of the token Secret, its storing, the target Secret, the ConfigMap, the workload, the
-- status. In particular a run writes the status at most once, and nothing after it.
pub reconcile-Rises :
    (env : Env) (r : Reconciler) (req : NamespacedName) (w : World)
    → (n : ℕ) × (n ≤ 6) × Rises w.trace n (reconcile env r req w).1.trace
reconcile-Rises env r req w =
    (reconcile-Climbs env w.trace r req).at w (0, omega arith, Rises.start)
