-- ===== src/Rollout/Laws.antt =====
-- What a restart changes of a workload.
use authentik_operator.Prelude.{String, ◌==◌, ◌≡◌, none, some, ◌∷◌, if◌then◌else◌}
use authentik_operator.Prelude.Dict.{lookup}
use authentik_operator.Errors.{ok}
use authentik_operator.Api.{Kind, Workload}
use authentik_operator.World.{Call, World, Env}
use authentik_operator.Rollout.{annotation_key, key_for, made}

-- The workload that was found, but for its pod template's annotation with the hash.
pub record IsAnnotated (hash : String) (base new : Workload) : Type 0 where
  pub kind : new.kind ≡ base.kind
  pub name : new.name ≡ base.name
  pub namespace : new.namespace ≡ base.namespace
  pub annotations :
      (k : String)
      → lookup k (made new.annotations)
        ≡ (if k == annotation_key then some hash else lookup k (made base.annotations))

module _ (env : Env) where
  -- The workload was read and patched, by two calls, and the server accepted the patch.
  pub record Restarted (kind : Kind) (name namespace hash : String) (w w' : World) : Type 0 where
    pub base : Workload
    pub new : Workload
    pub found : env.get_workload w.trace kind (key_for name namespace) ≡ ok base
    pub annotated : IsAnnotated hash base new
    pub accepted :
        env.patch_workload (Call.workload_get kind (key_for name namespace) ∷ w.trace) base new
        ≡ none
    pub after : w' ≡ record w {
      trace =
          Call.workload_patch base new ∷ Call.workload_get kind (key_for name namespace) ∷ w.trace;
    }
