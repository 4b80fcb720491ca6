-- ===== src/Reconciler/Later.antt =====
-- The calls that a refresh and what follows it add to those that were made.
use mathlib.Core.List.{append_assoc}
use authentik_operator.Prelude.{
  sym, ◌∙◌, ◌++◌, ◌==◌, eq_iff, ◌≡◌, ap, ◌≢◌, true, false, [], ◌∷◌, arith, if◌then◌else◌,
}
use authentik_operator.Errors.{Error, ok, is_token_expired}
use authentik_operator.Api.{OidcClient, Secret}
use authentik_operator.Hash.{value_at}
use authentik_operator.World.{Call, Trace, World, Env}
use authentik_operator.World.Effects.{Exec, ◌>>=◌, pure, wrapping}
use authentik_operator.World.Keeps.{Keeps, Keeps-pass_on, IsClosed, Keeps-perform, keeps_rules}
use authentik_operator.Authentik.Quiet.{wait_for_ready-Keeps}
use authentik_operator.Bootstrap.{Config, check_existing, run}
use authentik_operator.Bootstrap.Quiet.{obtain_key-Keeps}
use authentik_operator.Reconciler.{requeue_now, try_refresh, provider_failed, report_missing}
use authentik_operator.Reconciler.Token.{
  Reconciler, bootstrap_key, refresh_config, reload_token, refresh_token,
}
use authentik_operator.Reconciler.Status.{set_condition}
use authentik_operator.Reconciler.Order.Whole.{reload_token-Keeps}

-- The calls of the first trace come first in the second.
abbrev pub IsLater : Trace → Trace → Type 0
IsLater base t = (rest : Trace) × (t ≡ rest ++ base)

pub IsLater-cons : (base : Trace) (c : Call) (t : Trace) → IsLater base t → IsLater base (c ∷ t)
IsLater-cons base c t h = (c ∷ h.0, ap (λ s. c ∷ s) h.1)

pub ruleset later_rules = (keeps_rules, Keeps-perform, IsLater-cons)

pub IsLater-tail : (base : Trace) (c : Call) (t : Trace) → IsLater (c ∷ base) t → IsLater base t
IsLater-tail base c t (rest, e) = (rest ++ (c ∷ []), e ∙ sym (append_assoc rest (c ∷ []) base))

module _ (env : Env) (base : Trace) where
  IsLater-IsClosed : IsClosed (IsLater base)
  IsLater-IsClosed = record { add = λ c t q h. IsLater-cons base c t h }

  -- What follows a call that is there stays above it.
  IsLater-bind :
      {A B : Type 0} (m : Exec A) (f : A → Exec B) (w : World)
      → ((a : A) → Keeps (IsLater base) (f a))
      → IsLater base (m w).1.trace
      → IsLater base ((m >>= f) w).1.trace
  IsLater-bind m f w k h = (Keeps-pass_on (m w).0 f k).at (m w).1 h

  run_goes_on :
      (cfg : Config) (w : World)
      → IsLater base (check_existing env cfg w).1.trace
      → IsLater base (run env cfg w).1.trace
  unfolding run
  run_goes_on cfg w = IsLater-bind (check_existing env cfg) _ w (λ finished.
      search (later_rules, wait_for_ready-Keeps, obtain_key-Keeps, IsLater-IsClosed) depth 14)

  pub refresh_goes_on :
      (r : Reconciler) (w : World) {bs : Secret}
      → r.bootstrap_secret_name ≢ ""
      → env.get_secret w.trace (bootstrap_key env r) ≡ ok bs
      → value_at bs.content r.bootstrap_secret_key ≢ ""
      → IsLater base
          (check_existing env
            (refresh_config env r (value_at bs.content r.bootstrap_secret_key))
            (record {
              token = "";
              trace = Call.secret_get (bootstrap_key env r) ∷ w.trace;
            })).1.trace
      → IsLater base (refresh_token env r w).1.trace
  unfolding refresh_token
  refresh_goes_on r w {bs} configured found full h =
      let cfg = refresh_config env r (value_at bs.content r.bootstrap_secret_key) in
      let named : (r.bootstrap_secret_name == "") ≡ false =
        ground (arith, eq_iff r.bootstrap_secret_name "") in
      let usable : (value_at bs.content r.bootstrap_secret_key == "") ≡ false =
        ground (arith, eq_iff (value_at bs.content r.bootstrap_secret_key) "") in
      rw (named, found, usable)
        (IsLater-bind (wrapping "re-bootstrap failed: %w" [] (run env cfg))
          (λ _. reload_token env r) _ (λ _. reload_token-Keeps env r IsLater-IsClosed)
          (run_goes_on cfg _ h))

  retry_goes_on :
      (r : Reconciler) (e : Error) (w : World)
      → is_token_expired e ≡ true
      → IsLater base (refresh_token env r w).1.trace
      → IsLater base (try_refresh env r e w).1.trace
  unfolding try_refresh
  retry_goes_on r e w expired h = rw expired h

  pub failed_goes_on :
      (r : Reconciler) (oc : OidcClient) (e : Error) (w : World)
      → is_token_expired e ≡ true
      → IsLater base (refresh_token env r w).1.trace
      → IsLater base (provider_failed env r oc e w).1.trace
  unfolding provider_failed report_missing set_condition
  failed_goes_on r oc e w expired h =
      IsLater-bind (try_refresh env r e)
        (λ refreshed. if refreshed then pure requeue_now else report_missing env r oc e) w
        (λ refreshed. search later_rules depth 14) (retry_goes_on r e w expired h)
