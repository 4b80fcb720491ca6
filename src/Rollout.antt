-- ===== src/Rollout.antt =====
-- internal/rollout/rollout.go: the restart of a workload by an annotation of its pod template.
pub mod Laws
use authentik_operator.Prelude.{String, ◌==◌, Option, none, some, [], ◌∷◌, if◌then◌else◌}
use authentik_operator.Prelude.Dict.{Dict, insert}
use authentik_operator.Errors.{str, quoted, errorf}
use authentik_operator.Api.{NamespacedName, Kind, deployment, stateful_set, Workload}
use authentik_operator.World.{Env}
use authentik_operator.World.Effects.{Exec, ◌>>=◌, fail, wrapping, get_workload, patch_workload}

abbrev pub annotation_key : String
annotation_key = "auth.kettleofketchup/secret-hash"

-- `keyFor`
unfoldable pub key_for : String → String → NamespacedName
key_for name namespace = record { name = name; namespace = namespace }

-- `if m == nil { m = make(...) }`
abbrev pub made : Option (Dict String) → Dict String
made none = []
made (some m) = m

unfoldable pub annotate : String → Workload → Workload
annotate hash w = record w { annotations = some (insert annotation_key hash (made w.annotations)) }

module _ (env : Env) where
  -- One case of the switch, with its two formats.
  unfoldable pub restart : Kind → String → String → String → String → String → Exec (Unit {0})
  restart kind getting patching name namespace hash = do
    w ←
        wrapping getting (str namespace ∷ str name ∷ [])
          (get_workload env kind (key_for name namespace))
    wrapping patching (str namespace ∷ str name ∷ []) (patch_workload env w (annotate hash w))

  -- `TriggerRollout`
  unfoldable pub trigger_rollout : String → String → String → String → Exec (Unit {0})
  trigger_rollout kind name namespace hash =
      if kind == "Deployment"
      then restart deployment "getting deployment %s/%s: %w" "patching deployment %s/%s: %w" name
          namespace hash
      else if kind == "StatefulSet"
      then restart stateful_set "getting statefulset %s/%s: %w" "patching statefulset %s/%s: %w"
          name namespace hash
      else fail (errorf "unsupported kind %q, must be Deployment or StatefulSet" (quoted kind ∷ []))
