-- ===== src/Reconciler/Order/Whole.antt =====
-- The order of the calls over a whole run of `Reconcile`.
use authentik_operator.Prelude.{not, String, ◌∷◌, ◌≡◌, refl, inl, ◌==◌, if◌then◌else◌}
use authentik_operator.Prelude.Dict.{Dict}
use authentik_operator.Errors.{is_not_found, Error, Result, ok, err}
use authentik_operator.Api.{Secret, NamespacedName, OidcClient}
use authentik_operator.Responses.{OAuth2Provider}
use authentik_operator.World.{Call, World, Trace, Env}
use authentik_operator.World.Effects.{fail, on_result, Exec, ◌>>◌, pure, attempt, update_status}
use authentik_operator.World.Keeps.{
  Keeps, Keeps-attempt, Keeps-if, Keeps-pure, Keeps-fail, Leads, Leads-of_Keeps, Leads-bind,
  Leads-if, Leads-result, keeps_rules, IsClosed, IsWide,
}
use authentik_operator.Hash.{compute_secret_hash}
use authentik_operator.Authentik.{Client}
use authentik_operator.Authentik.Quiet.{
  get_certificate_by_id-Keeps, get_oauth2_provider_by_slug-Keeps,
}
use authentik_operator.Authentik.{get_oauth2_provider_by_slug}
use authentik_operator.Bootstrap.Quiet.{run-Keeps}
use authentik_operator.Reconciler.{
  try_refresh, report_missing, provider_failed, reconcile_client, reconcile, requeue_after,
  finished,
}
use authentik_operator.Reconciler.Token.{
  Reconciler, with_client, has_token, load_token, ensure_token, reload_token, refresh_token,
}
use authentik_operator.Reconciler.Status.{set_condition, provider_found, provider_not_found}
use authentik_operator.Reconciler.Sync.{
  fetch_key, fetch_signing_cert, secret_data, write_secret, write_if_changed, sync_provider,
  after_interval,
}
use authentik_operator.Reconciler.Order.Defs.{
  IsOrdered, ReadBefore, IsOrdered-IsClosed, ReadBefore-IsClosed, ReadBefore-IsWide,
}
use authentik_operator.Reconciler.Order.Steps.{
  SameClient, set_condition-bind-Keeps, update_status_read-Keeps,
}
use authentik_operator.Reconciler.Order.Write.{write_secret-IsOrdered}

module _ (env : Env) (r : Reconciler) {P : Trace → Type 0} (closed : IsClosed P) where
  with_client-Keeps :
      {A : Type 0} (f : Client → Exec A)
      → ((c : Client) → Keeps P (f c))
      → Keeps P (with_client r f)
  unfolding with_client
  with_client-Keeps f k = record { at = λ w h. (k _).at w h }

  has_token-Keeps : Keeps P (has_token env)
  unfolding has_token
  has_token-Keeps = record { at = λ w h. h }

  load_token-Keeps : (s : Result Secret) → Keeps P (load_token env r s)
  unfolding load_token
  load_token-Keeps (err _) = record { at = λ w h. h }
  load_token-Keeps (ok s) = search keeps_rules

  pub ensure_token-Keeps : Keeps P (ensure_token env r)
  unfolding ensure_token
  ensure_token-Keeps = search (keeps_rules, has_token-Keeps, load_token-Keeps) depth 9

  pub reload_token-Keeps : Keeps P (reload_token env r)
  unfolding reload_token
  reload_token-Keeps = search keeps_rules depth 9

  fetch_key-Keeps : (id : String) → Keeps P (fetch_key env r id)
  unfolding fetch_key
  fetch_key-Keeps id = search (keeps_rules, with_client-Keeps, get_certificate_by_id-Keeps) depth 9

  pub fetch_signing_cert-Keeps : (p : OAuth2Provider) → Keeps P (fetch_signing_cert env r p)
  unfolding fetch_signing_cert
  fetch_signing_cert-Keeps p = search (keeps_rules, fetch_key-Keeps)

  pub get_provider-Keeps :
      (slug : String) → Keeps P (with_client r λ c. get_oauth2_provider_by_slug env c slug)
  get_provider-Keeps slug =
      with_client-Keeps _ (λ c. get_oauth2_provider_by_slug-Keeps env c closed slug)

module _ (env : Env) (r : Reconciler) {P : Trace → Type 0} (wide : IsWide P) where
  pub refresh_token-Keeps : Keeps P (refresh_token env r)
  unfolding refresh_token
  refresh_token-Keeps =
      search (keeps_rules, run-Keeps, reload_token-Keeps env r, wide.closed) depth 12

  pub try_refresh-Keeps : (e : Error) → Keeps P (try_refresh env r e)
  unfolding try_refresh
  try_refresh-Keeps e = search (keeps_rules, refresh_token-Keeps) depth 9

module _ (env : Env) (r : Reconciler) (oc : OidcClient) where
  abbrev Fresh : Trace → Type 0
  Fresh = ReadBefore env oc.spec oc.status.secret_hash

  Fresh-IsClosed : IsClosed Fresh
  Fresh-IsClosed = ReadBefore-IsClosed env oc.spec oc.status.secret_hash

  write_if_changed-Leads :
      (oc' : OidcClient) (content : Dict String) (hash : String)
      → SameClient oc oc'
      → hash ≡ compute_secret_hash env.certs.sha256 content
      → Leads Fresh (IsOrdered env) (write_if_changed env r oc' content hash)
  unfolding write_if_changed
  write_if_changed-Leads oc' content hash same p =
      Leads-if (hash == oc'.status.secret_hash) (pure (after_interval r))
        (write_secret env r oc' content hash) (record { at = λ w h. h.1 })
        (record {
          at = λ w h.
              write_secret-IsOrdered env r oc' content hash w p
                (rw (same.spec, same.hash) h.0, h.1);
        })

  sync_provider-Leads :
      (p : OAuth2Provider) → Leads Fresh (IsOrdered env) (sync_provider env r oc p)
  unfolding sync_provider set_condition
  sync_provider-Leads p = record {
    at = λ w h.
        (Leads-bind {P = Fresh} {Q = IsOrdered env} (λ t h'. h'.1) (fetch_signing_cert env r p)
            (λ cert.
              write_if_changed env r (found w) (secret_data env r (found w) p cert)
                (compute_secret_hash env.certs.sha256 (secret_data env r (found w) p cert)))
            (fetch_signing_cert-Keeps env r Fresh-IsClosed p)
            (λ cert.
              write_if_changed-Leads (found w) (secret_data env r (found w) p cert) _
                (record { spec = refl; hash = refl }) refl)).at
          w h;
  }
    where
      found : World → OidcClient
      found w = record oc {
        status = record oc.status {
          conditions = env.set_status_condition w.trace oc.status.conditions (provider_found oc p);
        };
      }

  update_missing-Keeps :
      (oc' : OidcClient)
      → SameClient oc oc'
      → Keeps Fresh (attempt (update_status env oc') >> pure (requeue_after r))
  update_missing-Keeps oc' same = search (
    keeps_rules,
    update_status_read-Keeps env oc.spec oc.status.secret_hash oc' same.spec same.hash,
  )

  report_missing-Keeps : (e : Error) → Keeps Fresh (report_missing env r oc e)
  unfolding report_missing
  report_missing-Keeps e =
      set_condition-bind-Keeps env oc (provider_not_found oc e)
        (λ oc'. attempt (update_status env oc') >> pure (requeue_after r)) update_missing-Keeps

  provider_failed-Keeps : (e : Error) → Keeps Fresh (provider_failed env r oc e)
  unfolding provider_failed
  provider_failed-Keeps e = search (
    keeps_rules,
    try_refresh-Keeps env r (ReadBefore-IsWide env oc.spec oc.status.secret_hash),
    report_missing-Keeps,
  )

  reconcile_client-Leads : Leads Fresh (IsOrdered env) (reconcile_client env r oc)
  unfolding reconcile_client
  reconcile_client-Leads =
      Leads-bind (λ t h. h.1) _
        (λ found. on_result found (sync_provider env r oc) (provider_failed env r oc))
        (Keeps-attempt _
          (get_provider-Keeps env r Fresh-IsClosed oc.spec.authentik.application_slug))
        λ found.
          Leads-result found _ _ sync_provider-Leads
            (λ e. Leads-of_Keeps (λ t h. h.1) _ (provider_failed-Keeps e))

module _ (env : Env) (r : Reconciler) (req : NamespacedName) where
  read_client-Keeps :
      (w : World) (found : Result OidcClient)
      → env.get_client w.trace req ≡ found
      → IsOrdered env w.trace
      → IsOrdered env
          (on_result found
            (reconcile_client env r)
            (λ e. if is_not_found e then pure finished else fail e)
            (record w { trace = Call.client_get req ∷ w.trace })).1.trace
  read_client-Keeps w (ok oc) e h =
      (reconcile_client-Leads env r oc).at _ (inl (oc, e, refl, refl), (tt, h))
  read_client-Keeps w (err x) e h =
      (Keeps-if {P = IsOrdered env} (is_not_found x) (pure finished) (fail x) (Keeps-pure _)
          (Keeps-fail _)).at
        _ (tt, h)

  -- Whatever the environment answers, a run of `Reconcile` keeps this order: a status is only
  -- written with the hash that was read with the same specification, or with the hash of data that the
  -- server has accepted in the target Secret; a workload is only patched, by its annotation, with
  -- such an accepted hash, and a ConfigMap only updated after such an acceptance.
  pub reconcile-IsOrdered :
      (w : World) → IsOrdered env w.trace → IsOrdered env (reconcile env r req w).1.trace
  unfolding reconcile
  reconcile-IsOrdered =
      (Leads-bind {P = IsOrdered env} {Q = IsOrdered env} (λ t h. h) _ _
        (ensure_token-Keeps env r (IsOrdered-IsClosed env))
        λ ready.
          Leads-if (not ready) _ _ (record { at = λ w h. h })
            (record { at = λ w h. read_client-Keeps w _ refl h })).at
