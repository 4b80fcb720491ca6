-- ===== src/Reconciler/Order/Write.antt =====
-- The order of the calls from the application of the Secret on.
use authentik_operator.Prelude.{String, ◌≡◌, refl, ◌∙◌, ◌∷◌, Option-cases, inl, inr}
use authentik_operator.Prelude.Dict.{Dict}
use authentik_operator.Errors.{Error}
use authentik_operator.Api.{OidcClient}
use authentik_operator.World.{Call, World, Env}
use authentik_operator.World.Effects.{◌>>=◌, ◌>>◌, pure, attempt, update_status}
use authentik_operator.World.Keeps.{Keeps, Keeps-bind_Returns, keeps_rules}
use authentik_operator.Hash.{compute_secret_hash}
use authentik_operator.Reconciler.Token.{Reconciler}
use authentik_operator.Reconciler.Status.{set_condition, apply_failed}
use authentik_operator.Reconciler.Sync.{
  target_secret, patch_config_map, restart_workload, record_sync, write_secret, after_interval,
}
use authentik_operator.Reconciler.Order.Defs.{IsOrdered, ReadBefore, AppliedBefore, Holds}
use authentik_operator.Reconciler.Order.Steps.{
  SameClient, set_condition-bind-Keeps, patch_config_map-Keeps, patch_config_map-Returns,
  restart_workload-Keeps, restart_workload-Returns, record_sync-Keeps, update_status_read-Keeps,
}

module _ (env : Env) (r : Reconciler) (oc : OidcClient) (content : Dict String)
    (hash : String) where
  -- After the Secret was accepted.
  synced-Keeps : Keeps (AppliedBefore env oc.spec hash) (
      patch_config_map env oc content >>= λ oc1.
      restart_workload env oc1 hash >>= λ oc2. record_sync env r oc2 hash)
  synced-Keeps =
      Keeps-bind_Returns _
        (λ oc1. restart_workload env oc1 hash >>= λ oc2. record_sync env r oc2 hash)
        (patch_config_map-Keeps env oc.spec hash oc content)
        (patch_config_map-Returns env oc content)
        λ oc1 same.
          Keeps-bind_Returns _ (λ oc2. record_sync env r oc2 hash)
            (restart_workload-Keeps env oc.spec hash oc1) (restart_workload-Returns env oc1 hash)
            λ oc2 same'. record_sync-Keeps env oc.spec hash r oc2 (same'.spec ∙ same.spec)

  -- Where it was refused, the status is written with the hash that was read.
  pub report_failure-Keeps :
      (oc' : OidcClient)
      → SameClient oc oc'
      → Keeps
          (ReadBefore env oc.spec oc.status.secret_hash)
          (attempt (update_status env oc') >> pure (after_interval r))
  report_failure-Keeps oc' same = search (
    keeps_rules,
    update_status_read-Keeps env oc.spec oc.status.secret_hash oc' same.spec same.hash,
  )

  refused-Keeps :
      (e : Error)
      → Keeps (ReadBefore env oc.spec oc.status.secret_hash) (
          set_condition env oc (apply_failed oc e) >>= λ oc'.
          attempt (update_status env oc') >> pure (after_interval r))
  refused-Keeps e =
      set_condition-bind-Keeps env oc (apply_failed oc e)
        (λ oc'. attempt (update_status env oc') >> pure (after_interval r)) report_failure-Keeps

  pub write_secret-IsOrdered :
      (w : World)
      → hash ≡ compute_secret_hash env.certs.sha256 content
      → ReadBefore env oc.spec oc.status.secret_hash w.trace
      → IsOrdered env (write_secret env r oc content hash w).1.trace
  unfolding write_secret
  write_secret-IsOrdered w p h =
      elim (Option-cases (env.apply_secret w.trace (target_secret oc content))) [
        | inl accepted ↦
            let holds : Holds env oc.spec hash (target_secret oc content) = record {
              content = content;
              name = refl;
              namespace = refl;
              bytes = refl;
              hashed = p;
            } in
            rw accepted
              (synced-Keeps.at
                (record w { trace = Call.secret_apply (target_secret oc content) ∷ w.trace })
                (inl (holds, accepted), (tt, h.1))).1
        | inr (e, failed) ↦ rw failed ((refused-Keeps e).at _ (h.0, (tt, h.1))).1
      ]
