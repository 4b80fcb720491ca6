-- ===== src/Reconciler/Protocol/Moves.antt =====
-- The stages that each part of a run goes through.
use authentik_operator.Prelude.{ℕ, ltb, String, true, ◌≡◌, refl}
use authentik_operator.Prelude.Dict.{Dict}
use authentik_operator.Errors.{Error}
use authentik_operator.Api.{OidcClient, Kind, ConfigMapTarget, ConfigMap, Workload}
use authentik_operator.Responses.{OAuth2Provider}
use authentik_operator.World.{Trace, Env}
use authentik_operator.World.Keeps.{IsClosed, keeps_rules}
use authentik_operator.World.Effects.{
  update_status, update_config_map, patch_workload, apply_secret,
}
use authentik_operator.Rollout.{restart, trigger_rollout}
use authentik_operator.Reconciler.{report_missing}
use authentik_operator.Reconciler.Token.{Reconciler}
use authentik_operator.Reconciler.Sync.{
  write_config_map, patch_config_map, restart_workload, record_sync, write_secret, write_if_changed,
  sync_provider, target_secret,
}
use authentik_operator.Reconciler.Order.Steps.{set_condition-Keeps}
use authentik_operator.Reconciler.Order.Whole.{fetch_signing_cert-Keeps}
use authentik_operator.Reconciler.Protocol.Defs.{
  is_token_secret, rank, Below, Below-IsClosed, Climbs, Climbs-perform, Climbs-seq, climbs_rules,
}

module _ (env : Env) (base : Trace) where
  closed : (k : ℕ) → IsClosed (Below base k)
  closed = Below-IsClosed base

  update_status-Climbs :
      (oc : OidcClient) (j : ℕ) → ltb j 6 ≡ true → Climbs base j 6 (update_status env oc)
  unfolding rank
  update_status-Climbs oc j lt = Climbs-perform _ _ refl lt

  patch_workload-Climbs : (a b : Workload) → Climbs base 4 5 (patch_workload env a b)
  unfolding rank
  patch_workload-Climbs a b = Climbs-perform _ _ refl refl

  restart-Climbs :
      (k : Kind) (g p name ns hash : String) → Climbs base 4 5 (restart env k g p name ns hash)
  unfolding restart
  restart-Climbs k g p name ns hash =
      search (climbs_rules, keeps_rules, patch_workload-Climbs, closed) depth 9

  trigger_rollout-Climbs :
      (k name ns hash : String) → Climbs base 4 5 (trigger_rollout env k name ns hash)
  unfolding trigger_rollout
  trigger_rollout-Climbs k name ns hash = search (climbs_rules, keeps_rules, restart-Climbs) depth 9

  restart_workload-Climbs :
      (oc : OidcClient) (hash : String) → Climbs base 4 5 (restart_workload env oc hash)
  unfolding restart_workload
  restart_workload-Climbs oc hash =
      search (climbs_rules, keeps_rules, Climbs-seq 5, trigger_rollout-Climbs, set_condition-Keeps)
        depth 12

  update_config_map-Climbs : (cm : ConfigMap) → Climbs base 3 4 (update_config_map env cm)
  unfolding rank
  update_config_map-Climbs cm = Climbs-perform _ _ refl refl

  write_config_map-Climbs :
      (oc : OidcClient) (t : ConfigMapTarget) (v : String)
      → Climbs base 3 4 (write_config_map env oc t v)
  unfolding write_config_map
  write_config_map-Climbs oc t v =
      search
        (
          climbs_rules,
          keeps_rules,
          Climbs-seq 4,
          update_config_map-Climbs,
          set_condition-Keeps,
          closed,
        )
        depth 12

  patch_config_map-Climbs :
      (oc : OidcClient) (content : Dict String) → Climbs base 3 4 (patch_config_map env oc content)
  unfolding patch_config_map
  patch_config_map-Climbs oc content =
      search (climbs_rules, keeps_rules, write_config_map-Climbs) depth 9

  record_sync-Climbs :
      (r : Reconciler) (oc : OidcClient) (hash : String)
      → Climbs base 5 6 (record_sync env r oc hash)
  unfolding record_sync
  record_sync-Climbs r oc hash =
      search
        (climbs_rules, keeps_rules, Climbs-seq 6, update_status-Climbs, set_condition-Keeps, closed)
        depth 12

  target_secret-Climbs :
      (oc : OidcClient) (content : Dict String)
      → Climbs base 0 3 (apply_secret env (target_secret oc content))
  unfolding rank is_token_secret
  target_secret-Climbs oc content = Climbs-perform _ _ refl refl

  write_secret-Climbs :
      (r : Reconciler) (oc : OidcClient) (content : Dict String) (hash : String)
      → Climbs base 0 6 (write_secret env r oc content hash)
  unfolding write_secret
  write_secret-Climbs r oc content hash =
      search
        (
          climbs_rules,
          keeps_rules,
          Climbs-seq 3,
          Climbs-seq 4,
          Climbs-seq 5,
          Climbs-seq 6,
          target_secret-Climbs,
          patch_config_map-Climbs,
          restart_workload-Climbs,
          record_sync-Climbs,
          update_status-Climbs,
          set_condition-Keeps,
        )
        depth 12

  pub report_missing-Climbs :
      (r : Reconciler) (oc : OidcClient) (e : Error) → Climbs base 2 6 (report_missing env r oc e)
  unfolding report_missing
  report_missing-Climbs r oc e =
      search (climbs_rules, keeps_rules, Climbs-seq 6, update_status-Climbs, set_condition-Keeps)
        depth 12

  write_if_changed-Climbs :
      (r : Reconciler) (oc : OidcClient) (content : Dict String) (hash : String)
      → Climbs base 0 6 (write_if_changed env r oc content hash)
  unfolding write_if_changed
  write_if_changed-Climbs r oc content hash =
      search (climbs_rules, keeps_rules, write_secret-Climbs)

  pub sync_provider-Climbs :
      (r : Reconciler) (oc : OidcClient) (p : OAuth2Provider)
      → Climbs base 0 6 (sync_provider env r oc p)
  unfolding sync_provider
  sync_provider-Climbs r oc p =
      search
        (
          climbs_rules, write_if_changed-Climbs, set_condition-Keeps, fetch_signing_cert-Keeps,
          closed,
        )
        depth 9
