-- ===== src/Reconciler/Failed.antt =====
-- A run whose fetch of the provider fails.
use authentik_operator.Prelude.{◌≡◌, refl, true, false, ◌∷◌}
use authentik_operator.Errors.{Error, Result, ok, err, is_token_expired}
use authentik_operator.Api.{OidcClient}
use authentik_operator.World.{Call, World, Env}
use authentik_operator.Reconciler.{
  try_refresh, provider_failed, report_missing, requeue_now, requeue_after,
}
use authentik_operator.Reconciler.Token.{Reconciler, CtrlResult, refresh_token}
use authentik_operator.Reconciler.Status.{set_condition, provider_not_found}
use authentik_operator.Reconciler.Refresh.{Refreshed}

module _ (env : Env) (r : Reconciler) (oc : OidcClient) (e : Error) where
  -- The custom resource with the failure in its status.
  abbrev pub blamed : World → OidcClient
  blamed w = record oc {
    status = record oc.status {
      conditions = env.set_status_condition w.trace oc.status.conditions (provider_not_found oc e);
    };
  }

  -- The status was written, and nothing else.
  abbrev pub reported : World → Result CtrlResult × World
  reported w = (ok (requeue_after r), record w { trace = Call.status_update (blamed w) ∷ w.trace })

  -- How a run ends that has failed to fetch the provider.
  pub data IsHandled (w : World) (end : Result CtrlResult × World) : Type 0 where
    -- a new token, and another run at once
    refreshed :
        is_token_expired e ≡ true
        → end.0 ≡ ok requeue_now
        → Refreshed env r w end.1
        → IsHandled w end
    -- no refresh, for any other error
    other_error : is_token_expired e ≡ false → end ≡ reported w → IsHandled w end
    -- a refresh that failed
    refresh_failed :
        (x : Error)
        → is_token_expired e ≡ true
        → (refresh_token env r w).0 ≡ err x
        → end ≡ reported (refresh_token env r w).1
        → IsHandled w end

  -- The rejected token could not be replaced.
  pub provider_failed_again :
      (w : World) (x : Error)
      → is_token_expired e ≡ true
      → (refresh_token env r w).0 ≡ err x
      → provider_failed env r oc e w ≡ reported (refresh_token env r w).1
  unfolding provider_failed try_refresh report_missing set_condition
  provider_failed_again w x expired p = rw (expired, p) refl
