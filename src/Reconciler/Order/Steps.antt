-- ===== src/Reconciler/Order/Steps.antt =====
-- Each step of `Reconcile` keeps the order of the calls.
use authentik_operator.Prelude.{String, ◌≡◌, refl, arith, ◌∙◌, inl, inr}
use authentik_operator.Prelude.Dict.{Dict}
use authentik_operator.Api.{
  OidcClient, OidcClientSpec, Condition, ConfigMapTarget, Kind, Workload, ConfigMap,
}
use authentik_operator.World.{Env, Trace}
use authentik_operator.World.Keeps.{
  Keeps, Returns, IsClosed, Keeps-bind_Returns, Keeps-perform, keeps_rules,
}
use authentik_operator.World.Effects.{
  Exec, ◌>>=◌, ◌>>◌, pure, patch_workload, update_config_map, update_status,
}
use authentik_operator.Rollout.{restart, trigger_rollout, annotate}
use authentik_operator.Reconciler.Status.{set_condition, secret_synced}
use authentik_operator.Reconciler.Token.{Reconciler}
use authentik_operator.Reconciler.Sync.{
  write_config_map, patch_config_map, restart_workload, record_sync, after_interval,
}
use authentik_operator.Reconciler.Order.Defs.{ReadBefore, AppliedBefore, AppliedBefore-IsClosed}

-- The status may differ, but for the hash.
pub record SameClient (oc oc' : OidcClient) : Type 0 where
  pub spec : oc'.spec ≡ oc.spec
  pub hash : oc'.status.secret_hash ≡ oc.status.secret_hash

module _ (env : Env) (oc : OidcClient) where
  pub set_condition-Returns : (c : Condition) → Returns (SameClient oc) (set_condition env oc c)
  unfolding set_condition
  set_condition-Returns c = record { at = λ w a e. ground arith }

  pub patch_config_map-Returns :
      (content : Dict String) → Returns (SameClient oc) (patch_config_map env oc content)
  unfolding patch_config_map write_config_map set_condition
  patch_config_map-Returns content = record { at = λ w a e. ground arith }

  pub restart_workload-Returns :
      (hash : String) → Returns (SameClient oc) (restart_workload env oc hash)
  unfolding restart_workload set_condition
  restart_workload-Returns hash = record { at = λ w a e. ground arith }

pub set_condition-Keeps :
    (env : Env) {P : Trace → Type 0} (oc : OidcClient) (c : Condition)
    → Keeps P (set_condition env oc c)
unfolding set_condition
set_condition-Keeps env oc c = record { at = λ w h. h }

-- After `SetStatusCondition` the rest has a client with the same specification and hash.
pub set_condition-bind-Keeps :
    (env : Env) {P : Trace → Type 0} {B : Type 0} (oc : OidcClient) (c : Condition)
    (f : OidcClient → Exec B)
    → ((oc' : OidcClient) → SameClient oc oc' → Keeps P (f oc'))
    → Keeps P (set_condition env oc c >>= f)
set_condition-bind-Keeps env oc c f =
    Keeps-bind_Returns _ f (set_condition-Keeps env oc c) (set_condition-Returns env oc c)

module _ (env : Env) (spec : OidcClientSpec) (hash : String) where
  closed : IsClosed (AppliedBefore env spec hash)
  closed = AppliedBefore-IsClosed env spec hash

  patch_workload-Keeps :
      (base : Workload)
      → Keeps (AppliedBefore env spec hash) (patch_workload env base (annotate hash base))
  patch_workload-Keeps base = Keeps-perform _ _ (λ t h. (h.0, ((spec, hash, refl, h.0), h.1)))

  update_config_map-Keeps :
      (cm : ConfigMap) → Keeps (AppliedBefore env spec hash) (update_config_map env cm)
  update_config_map-Keeps cm = Keeps-perform _ _ (λ t h. (h.0, ((spec, hash, h.0), h.1)))

  restart-Keeps :
      (k : Kind) (g p name ns : String)
      → Keeps (AppliedBefore env spec hash) (restart env k g p name ns hash)
  unfolding restart
  restart-Keeps k g p name ns = search (keeps_rules, patch_workload-Keeps, closed)

  trigger_rollout-Keeps :
      (k name ns : String)
      → Keeps (AppliedBefore env spec hash) (trigger_rollout env k name ns hash)
  unfolding trigger_rollout
  trigger_rollout-Keeps k name ns = search (keeps_rules, restart-Keeps)

  pub restart_workload-Keeps :
      (oc : OidcClient) → Keeps (AppliedBefore env spec hash) (restart_workload env oc hash)
  unfolding restart_workload
  restart_workload-Keeps oc =
      search (keeps_rules, trigger_rollout-Keeps, set_condition-Keeps) depth 9

  write_config_map-Keeps :
      (oc : OidcClient) (t : ConfigMapTarget) (v : String)
      → Keeps (AppliedBefore env spec hash) (write_config_map env oc t v)
  unfolding write_config_map
  write_config_map-Keeps oc t v =
      search (keeps_rules, update_config_map-Keeps, set_condition-Keeps, closed) depth 9

  pub patch_config_map-Keeps :
      (oc : OidcClient) (content : Dict String)
      → Keeps (AppliedBefore env spec hash) (patch_config_map env oc content)
  unfolding patch_config_map
  patch_config_map-Keeps oc content = search (keeps_rules, write_config_map-Keeps) depth 9

  update_status_applied-Keeps :
      (oc : OidcClient)
      → oc.spec ≡ spec
      → oc.status.secret_hash ≡ hash
      → Keeps (AppliedBefore env spec hash) (update_status env oc)
  update_status_applied-Keeps oc p q = Keeps-perform _ _ (λ t h. (h.0, (inr (rw (p, q) h.0), h.1)))

  pub update_status_read-Keeps :
      (oc : OidcClient)
      → oc.spec ≡ spec
      → oc.status.secret_hash ≡ hash
      → Keeps (ReadBefore env spec hash) (update_status env oc)
  update_status_read-Keeps oc p q = Keeps-perform _ _ (λ t h. (h.0, (inl (rw (p, q) h.0), h.1)))

  report-Keeps :
      (r : Reconciler) (oc oc' : OidcClient)
      → oc.spec ≡ spec
      → oc.status.secret_hash ≡ hash
      → SameClient oc oc'
      → Keeps (AppliedBefore env spec hash) (update_status env oc' >> pure (after_interval r))
  report-Keeps r oc oc' p q same =
      search (keeps_rules, update_status_applied-Keeps oc' (same.spec ∙ p) (same.hash ∙ q))

  record_sync_at-Keeps :
      (r : Reconciler) (oc oc0 : OidcClient)
      → oc.spec ≡ spec
      → oc.status.secret_hash ≡ hash
      → Keeps (AppliedBefore env spec hash) (
          set_condition env oc (secret_synced oc0) >>= λ oc'.
          update_status env oc' >> pure (after_interval r))
  record_sync_at-Keeps r oc oc0 p q =
      set_condition-bind-Keeps env oc (secret_synced oc0)
        (λ oc'. update_status env oc' >> pure (after_interval r)) λ oc'. report-Keeps r oc oc' p q

  pub record_sync-Keeps :
      (r : Reconciler) (oc : OidcClient)
      → oc.spec ≡ spec
      → Keeps (AppliedBefore env spec hash) (record_sync env r oc hash)
  unfolding record_sync
  record_sync-Keeps r oc p = search (keeps_rules, record_sync_at-Keeps, closed, p)
