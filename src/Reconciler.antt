-- ===== src/Reconciler.antt =====
-- internal/controller/oidcclient_controller.go: `Reconcile`, step by step. Log lines are left out.
pub mod Token
pub mod Status
pub mod Sync
pub mod Order
pub mod Unchanged
pub mod Synced
pub mod Locked
pub mod Protocol
pub mod Settles
pub mod Later
pub mod Applied
pub mod Sources
pub mod Below
pub mod ConfigMaps
pub mod Content
pub mod Refresh
pub mod Deletes
pub mod Race
pub mod Failed
use authentik_operator.Prelude.{
  String, ◌==◌, Bool, true, false, not, Option, none, some, List, [], ◌∷◌, if◌then◌else◌, nat_eq,
}
use authentik_operator.Prelude.Int.{pos}
use authentik_operator.Errors.{Error, quoted, Result, ok, err, is_not_found, is_token_expired}
use authentik_operator.Api.{NamespacedName, OidcClient}
use authentik_operator.World.{Env}
use authentik_operator.World.Effects.{
  Exec, pass_on, ◌>>=◌, ◌>>◌, pure, fail, attempt, on_result, get_client, update_status,
}
use authentik_operator.Authentik.{get_oauth2_provider_by_slug}
use Token.{Reconciler, CtrlResult, interval, ensure_token, refresh_token, with_client}
use Status.{set_condition, provider_not_found}
use Sync.{sync_provider}

abbrev pub requeue_after : Reconciler → CtrlResult
requeue_after r = record { requeue = false; requeue_after = interval r }

abbrev pub requeue_now : CtrlResult
requeue_now = record { requeue = true; requeue_after = pos 0 }

abbrev pub finished : CtrlResult
finished = record { requeue = false; requeue_after = pos 0 }

module _ (env : Env) (r : Reconciler) where
  -- The refresh on an expired token: whether there is a new token.
  unfoldable pub try_refresh : Error → Exec Bool
  try_refresh e = if not (is_token_expired e) then pure false else do
    result ← attempt (refresh_token env r)
    pure (elim result [ ok _ ↦ true | err _ ↦ false ])

  -- The status of a client with no provider.
  unfoldable pub report_missing : OidcClient → Error → Exec CtrlResult
  report_missing oc e = do
    oc' ← set_condition env oc (provider_not_found oc e)
    attempt (update_status env oc')
    pure (requeue_after r)

  -- The branch of `Reconcile` after a failed fetch of the provider.
  unfoldable pub provider_failed : OidcClient → Error → Exec CtrlResult
  provider_failed oc e = do
    refreshed ← try_refresh e
    if refreshed then pure requeue_now else report_missing oc e

  unfoldable pub reconcile_client : OidcClient → Exec CtrlResult
  reconcile_client oc = do
    found ←
        attempt
          (with_client r λ c. get_oauth2_provider_by_slug env c oc.spec.authentik.application_slug)
    on_result found (sync_provider env r oc) (provider_failed oc)

  -- `Reconcile`
  unfoldable pub reconcile : NamespacedName → Exec CtrlResult
  reconcile req = do
    ready ← ensure_token env r
    if not ready then pure (requeue_after r) else do
      found ← attempt (get_client env req)
      on_result found reconcile_client (λ e. if is_not_found e then pure finished else fail e)
