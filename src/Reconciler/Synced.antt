-- ===== src/Reconciler/Synced.antt =====
-- A run whose Secret is accepted: what the status is left with.
use authentik_operator.Prelude.{String, ◌≡◌, ◌≢◌, refl, ◌∙◌, ◌∷◌, none, some, arith}
use authentik_operator.Prelude.Dict.{Dict}
use authentik_operator.Errors.{Error, ok, err, ok_of_ne-err}
use authentik_operator.Api.{OidcClient}
use authentik_operator.World.{Call, Trace, World, Env}
use authentik_operator.Reconciler.Token.{Reconciler}
use authentik_operator.Reconciler.Status.{set_condition, secret_synced}
use authentik_operator.Reconciler.Order.Steps.{patch_config_map-Returns, restart_workload-Returns}
use authentik_operator.Reconciler.Sync.{
  target_secret, write_config_map, patch_config_map, restart_workload, record_sync, write_secret,
  after_interval,
}

module _ (env : Env) where
  patch_config_map-ne-err :
      (oc : OidcClient) (content : Dict String) (w : World) (e : Error)
      → (patch_config_map env oc content w).0 ≢ err e
  unfolding patch_config_map write_config_map set_condition
  patch_config_map-ne-err oc content w e = ground arith

  restart_workload-ne-err :
      (oc : OidcClient) (hash : String) (w : World) (e : Error)
      → (restart_workload env oc hash w).0 ≢ err e
  unfolding restart_workload set_condition
  restart_workload-ne-err oc hash w e = ground arith

  -- The custom resource as the last step writes it.
  abbrev recorded : OidcClient → String → World → OidcClient
  recorded oc hash w = record oc {
    status = record {
      secret_hash = hash;
      last_sync_time = some (env.now w.trace);
      conditions =
          env.set_status_condition (Call.clock_read ∷ w.trace) oc.status.conditions
            (secret_synced oc);
    };
  }

  record_sync_lem :
      (r : Reconciler) (oc : OidcClient) (hash : String) (w : World)
      → (oc' : OidcClient) × (oc'.spec ≡ oc.spec)
        × (oc'.status.secret_hash ≡ hash)
        × ((record_sync env r oc hash w).1.trace
            ≡ Call.status_update oc' ∷ Call.clock_read ∷ w.trace)
        × ((record_sync env r oc hash w).0
            ≡ elim (env.update_status (Call.clock_read ∷ w.trace) oc') [
              | none ↦ ok (after_interval r)
              | some e ↦ err e
            ])
  unfolding record_sync set_condition secret_synced
  record_sync_lem r oc hash w = (recorded oc hash w, refl, refl, ground arith, ground arith)

  module _ (r : Reconciler) (oc : OidcClient) (content : Dict String) (hash : String)
      (w : World) where
    -- Where the server accepts the target Secret, the run ends with one write of the status, which holds
    -- the hash of the data and the specification that was read, whatever became of the ConfigMap
    -- and of the restart. The run fails just where this write fails.
    pub write_secret_accepted :
        env.apply_secret w.trace (target_secret oc content) ≡ none
        → (oc' : OidcClient) × (t : Trace) × (oc'.spec ≡ oc.spec)
          × (oc'.status.secret_hash ≡ hash)
          × ((write_secret env r oc content hash w).1.trace ≡ Call.status_update oc' ∷ t)
          × ((write_secret env r oc content hash w).0
              ≡ elim (env.update_status t oc') [ none ↦ ok (after_interval r) | some e ↦ err e ])
    unfolding write_secret
    write_secret_accepted accepted =
        let w1 : World = record w {
          trace = Call.secret_apply (target_secret oc content) ∷ w.trace;
        } in
        let (oc1, patched) =
          ok_of_ne-err (patch_config_map env oc content w1).0
            (patch_config_map-ne-err oc content w1) in
        let w2 = (patch_config_map env oc content w1).1 in
        let (oc2, restarted) =
          ok_of_ne-err (restart_workload env oc1 hash w2).0 (restart_workload-ne-err oc1 hash w2) in
        let w3 = (restart_workload env oc1 hash w2).1 in
        let (oc3, same, hashed, traced, result) = record_sync_lem r oc2 hash w3 in
        let spec1 = ((patch_config_map-Returns env oc content).at w1 oc1 patched).spec in
        let spec2 = ((restart_workload-Returns env oc1 hash).at w2 oc2 restarted).spec in
        (
          oc3,
          Call.clock_read ∷ w3.trace,
          same ∙ spec2 ∙ spec1,
          hashed,
          rw accepted (rw patched (rw restarted traced)),
          rw accepted (rw patched (rw restarted result)),
        )
