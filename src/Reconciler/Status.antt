-- ===== src/Reconciler/Status.antt =====
-- The status conditions that internal/controller/oidcclient_controller.go sets.
use authentik_operator.Prelude.{String, Option, none, some, List, [], ◌∷◌}
use authentik_operator.Errors.{Arg, str, quoted, Error, ok}
use authentik_operator.Api.{Condition, OidcClient, ConfigMapTarget, RolloutTargetRef}
use authentik_operator.Responses.{OAuth2Provider}
use authentik_operator.World.{Env}
use authentik_operator.World.Effects.{Exec}

abbrev pub condition :
    OidcClient → String → String → String → String → List Arg → Option Error → Condition
condition oc kind status reason format args cause = record {
  kind = kind;
  status = status;
  reason = reason;
  message = record { format = format; args = args; cause = cause };
  observed_generation = oc.generation;
}

-- `meta.SetStatusCondition(&oidcClient.Status.Conditions, ...)`
unfoldable pub set_condition : Env → OidcClient → Condition → Exec OidcClient
set_condition env oc c w = (
  ok (record oc {
    status = record oc.status {
      conditions = env.set_status_condition w.trace oc.status.conditions c;
    };
  }),
  w,
)

unfoldable pub provider_not_found : OidcClient → Error → Condition
provider_not_found oc e =
    condition oc "AuthentikProviderFound" "False" "ProviderNotFound"
      "Failed to fetch provider for slug %q: %v" (quoted oc.spec.authentik.application_slug ∷ [])
      (some e)

unfoldable pub provider_found : OidcClient → OAuth2Provider → Condition
provider_found oc p =
    condition oc "AuthentikProviderFound" "True" "Found" "Provider %q found for slug %q"
      (quoted p.name ∷ quoted oc.spec.authentik.application_slug ∷ []) none

unfoldable pub apply_failed : OidcClient → Error → Condition
apply_failed oc e =
    condition oc "SecretSynced" "False" "ApplyFailed" "Failed to apply secret: %v" [] (some e)

unfoldable pub secret_synced : OidcClient → Condition
secret_synced oc = condition oc "SecretSynced" "True" "Synced" "Secret successfully synced" [] none

unfoldable pub config_map_get_failed : OidcClient → ConfigMapTarget → Error → Condition
config_map_get_failed oc t e =
    condition oc "ConfigMapSynced" "False" "GetFailed" "Failed to get ConfigMap %s/%s: %v"
      (str t.namespace ∷ str t.name ∷ []) (some e)

unfoldable pub config_map_update_failed : OidcClient → Error → Condition
config_map_update_failed oc e =
    condition oc "ConfigMapSynced" "False" "UpdateFailed" "Failed to update ConfigMap: %v" []
      (some e)

unfoldable pub config_map_synced : OidcClient → ConfigMapTarget → Condition
config_map_synced oc t =
    condition oc "ConfigMapSynced" "True" "Synced" "ConfigMap %s/%s key %q synced"
      (str t.namespace ∷ str t.name ∷ quoted t.data_key ∷ []) none

unfoldable pub rollout_failed : OidcClient → Error → Condition
rollout_failed oc e =
    condition oc "RolloutTriggered" "False" "RolloutFailed" "Failed to trigger rollout: %v" []
      (some e)

unfoldable pub rollout_triggered : OidcClient → RolloutTargetRef → Condition
rollout_triggered oc ref =
    condition oc "RolloutTriggered" "True" "Triggered" "Rollout triggered for %s/%s"
      (str ref.kind ∷ str ref.name ∷ []) none
