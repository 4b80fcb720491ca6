-- ===== src/Reconciler/Settles.antt =====
-- The run after one that has written the Secret.
use authentik_operator.Prelude.{
  ℕ, suc, String, ◌≡◌, ◌≢◌, refl, sym, ap, ◌∙◌, [], ◌∷◌, none, Option, if◌then◌else◌,
}
use authentik_operator.Errors.{ok}
use authentik_operator.Api.{NamespacedName, OidcClient}
use authentik_operator.Responses.{OAuth2Provider}
use authentik_operator.Profiles.{SigningCert}
use authentik_operator.Hash.{compute_secret_hash}
use authentik_operator.World.{Call, Trace, World, Env}
use authentik_operator.World.Effects.{held}
use authentik_operator.World.Keeps.{IsClosed, is_quiet}
use authentik_operator.Reconciler.{reconcile, requeue_after}
use authentik_operator.Reconciler.Token.{Reconciler}
use authentik_operator.Reconciler.Sync.{
  fetch_signing_cert, secret_data, write_secret, target_secret,
}
use authentik_operator.Reconciler.Order.Whole.{fetch_signing_cert-Keeps, get_provider-Keeps}
use authentik_operator.Reconciler.Synced.{write_secret_accepted}
use authentik_operator.Reconciler.Unchanged.{Fetches, reconcile_same}

-- How many calls have written something.
abbrev pub writes : Trace → ℕ
writes [] = 0
writes (c ∷ t) = let rest = writes t in if is_quiet c then rest else suc rest

writes-IsClosed : (n : ℕ) → IsClosed (λ t. writes t ≡ n)
writes-IsClosed n = record { add = λ c t q h. rw q h }

module _ (env : Env) (r : Reconciler) (oc oc' : OidcClient) (p : OAuth2Provider)
    (cert : Option SigningCert) where
  secret_data-spec : oc'.spec ≡ oc.spec → secret_data env r oc' p cert ≡ secret_data env r oc p cert
  unfolding secret_data
  secret_data-spec e = rw e refl

  abbrev pub new_hash : String
  new_hash = compute_secret_hash env.certs.sha256 (secret_data env r oc p cert)

  recorded_hash :
      (w : World) (t : Trace)
      → env.apply_secret w.trace (target_secret oc (secret_data env r oc p cert)) ≡ none
      → (write_secret env r oc (secret_data env r oc p cert) new_hash w).1.trace
        ≡ Call.status_update oc' ∷ t
      → compute_secret_hash env.certs.sha256 (secret_data env r oc' p cert) ≡ oc'.status.secret_hash
  recorded_hash w t accepted written =
      let (oc'', t', spec, hashed, traced, _) =
        write_secret_accepted env r oc (secret_data env r oc p cert) new_hash w accepted in
      let same : oc'' ≡ oc' = cc (sym traced ∙ written) in
      rw (secret_data-spec (ap (λ x. x.spec) (sym same) ∙ spec))
        (sym hashed ∙ ap (λ x. x.status.secret_hash) same)

  -- Where the server accepted the Secret in one run, whose last write of the status left the custom resource
  -- as `oc'`, a later run that has a token, reads it so and fetches the same provider and the same
  -- certificate is requeued after the interval and writes nothing.
  pub reconcile_settles :
      (w : World) (t : Trace)
      → env.apply_secret w.trace (target_secret oc (secret_data env r oc p cert)) ≡ none
      → (write_secret env r oc (secret_data env r oc p cert) new_hash w).1.trace
        ≡ Call.status_update oc' ∷ t
      → (req : NamespacedName) (v v1 v2 : World) → held env v ≢ ""
      → env.get_client v.trace req ≡ ok oc'
      → Fetches env r oc' (record v { trace = Call.client_get req ∷ v.trace }) p v1
      → fetch_signing_cert env r p v1 ≡ (ok cert, v2)
      → (reconcile env r req v ≡ (ok (requeue_after r), v2)) × (writes v2.trace ≡ writes v.trace)
  reconcile_settles w t accepted written req v v1 v2 token found provider signed =
      let closed = writes-IsClosed (writes v.trace) in
      let fetched =
        (get_provider-Keeps env r closed oc'.spec.authentik.application_slug).at
          (record v { trace = Call.client_get req ∷ v.trace }) refl in
      let kept =
        (fetch_signing_cert-Keeps env r closed p).at v1
          (rw (ap (λ x. x.1.trace) provider) at fetched) in
      (
        reconcile_same env r req oc' p cert v v1 v2 token found provider signed
            (recorded_hash w t accepted written),
        rw (ap (λ x. x.1.trace) signed) at kept,
      )
