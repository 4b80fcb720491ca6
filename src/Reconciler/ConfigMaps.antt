-- ===== src/Reconciler/ConfigMaps.antt =====
-- What `Reconcile` changes of a ConfigMap.
use authentik_operator.Prelude.{String, ◌==◌, ◌≡◌, some, if◌then◌else◌}
use authentik_operator.Prelude.Dict.{Dict, lookup, insert}
use authentik_operator.Api.{NamespacedName, ConfigMap, ConfigMapTarget}
use authentik_operator.World.{World}
use authentik_operator.Rollout.{made}
use authentik_operator.Reconciler.Status

-- The ConfigMap that was found, but for one key.
pub record IsPatched (key value : String) (base new : ConfigMap) : Type 0 where
  pub name : new.name ≡ base.name
  pub namespace : new.namespace ≡ base.namespace
  pub content :
      (k : String)
      → lookup k (made new.content)
        ≡ (if k == key then some value else lookup k (made base.content))

patched : ConfigMapTarget → String → ConfigMap → ConfigMap
patched t value cm = record cm { content = some (insert t.data_key value (made cm.content)) }

abbrev pub target_key : ConfigMapTarget → NamespacedName
target_key t = record { name = t.name; namespace = t.namespace }
