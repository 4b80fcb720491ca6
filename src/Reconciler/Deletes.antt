-- ===== src/Reconciler/Deletes.antt =====
-- Why `Reconcile` deletes a Secret.
use authentik_operator.Prelude.{
  String, ◌≡◌, refl, Bool, true, false, [], ◌∷◌, inl, inr, ◌⊎◌, Bool-cases,
}
use authentik_operator.Prelude.Dict.{Dict}
use authentik_operator.Errors.{Error, Result, err, Result-cases, is_token_expired}
use authentik_operator.Api.{NamespacedName, OidcClient, Kind}
use authentik_operator.Responses.{OAuth2Provider}
use authentik_operator.World.{Call, Trace, World, Env, shared}
use authentik_operator.World.Keeps.{
  Keeps, Keeps-if, Keeps-pure, Keeps-bind, IsClosed, IsWide, is_quiet, keeps_rules,
}
use authentik_operator.World.Effects.{Exec, perform}
use authentik_operator.Authentik.{get_oauth2_provider_by_slug}
use authentik_operator.Authentik.Expired.{Foreign, Rejected, get_oauth2_provider_by_slug-Rejected}
use authentik_operator.Rollout.{restart, trigger_rollout}
use authentik_operator.Reconciler.{
  try_refresh, report_missing, provider_failed, reconcile_client, reconcile,
}
use authentik_operator.Reconciler.Token.{Reconciler, with_client}
use authentik_operator.Reconciler.Sync.{
  write_config_map, patch_config_map, restart_workload, record_sync, write_secret, write_if_changed,
  sync_provider,
}
use authentik_operator.Reconciler.Order.Steps.{set_condition-Keeps}
use authentik_operator.Reconciler.Order.Whole.{
  ensure_token-Keeps, fetch_signing_cert-Keeps, get_provider-Keeps, try_refresh-Keeps,
}

-- An earlier request was answered with 401 or 403.
abbrev pub WasRejected : Env → Trace → Type 0
WasRejected env [] = ⊥
WasRejected env (c ∷ t) = Rejected env (c ∷ t) ⊎ WasRejected env t

-- Each Secret was deleted after such an answer.
abbrev pub AreJustified : Env → Trace → Type 0
AreJustified env [] = Unit
AreJustified env (Call.secret_delete s ∷ t) = WasRejected env t × AreJustified env t
AreJustified env (_ ∷ t) = AreJustified env t

abbrev is_delete : Call → Bool
is_delete (Call.secret_delete _) = true
is_delete _ = false

-- A predicate that every call but a deletion keeps.
record IsOpen (P : Trace → Type 0) : Type 0 where
  add : (c : Call) (t : Trace) → is_delete c ≡ false → P t → P (c ∷ t)

module _ (env : Env) where
  AreJustified-IsOpen : IsOpen (AreJustified env)
  AreJustified-IsOpen = record { add = keep }
    where
      keep :
          (c : Call) (t : Trace)
          → is_delete c ≡ false
          → AreJustified env t
          → AreJustified env (c ∷ t)
      keep (Call.secret_delete _) t q h = cc
      keep _ t q h = h

  Refreshing : Trace → Type 0
  Refreshing t = WasRejected env t × AreJustified env t

  Refreshing-IsOpen : IsOpen Refreshing
  unfolding Refreshing
  Refreshing-IsOpen = record { add = λ c t q h. (inr h.0, AreJustified-IsOpen.add c t q h.1) }

quiet_not_delete : (c : Call) → is_quiet c ≡ true → is_delete c ≡ false
quiet_not_delete (Call.secret_delete _) q = cc
quiet_not_delete _ q = refl

module _ {P : Trace → Type 0} (open' : IsOpen P) where
  IsOpen-closed : IsClosed P
  IsOpen-closed = record { add = λ c t q h. open'.add c t (quiet_not_delete c q) h }

  Keeps-written :
      {A : Type 0} (c : Call) (answer : Trace → Result A)
      → is_delete c ≡ false
      → Keeps P (perform c answer)
  Keeps-written c answer q = record { at = λ w h. open'.add c w.trace q h }

module _ (env : Env) (r : Reconciler) {P : Trace → Type 0} (open' : IsOpen P) where
  restart-Keeps : (k : Kind) (g p name ns hash : String) → Keeps P (restart env k g p name ns hash)
  unfolding restart
  restart-Keeps k g p name ns hash = search (keeps_rules, Keeps-written, open')

  trigger_rollout-Keeps : (k name ns hash : String) → Keeps P (trigger_rollout env k name ns hash)
  unfolding trigger_rollout
  trigger_rollout-Keeps k name ns hash = search (keeps_rules, restart-Keeps)

  restart_workload-Keeps :
      (oc : OidcClient) (hash : String) → Keeps P (restart_workload env oc hash)
  unfolding restart_workload
  restart_workload-Keeps oc hash =
      search (keeps_rules, trigger_rollout-Keeps, set_condition-Keeps) depth 9

  patch_config_map-Keeps :
      (oc : OidcClient) (content : Dict String) → Keeps P (patch_config_map env oc content)
  unfolding patch_config_map write_config_map
  patch_config_map-Keeps oc content =
      search (keeps_rules, Keeps-written, set_condition-Keeps, open') depth 12

  record_sync-Keeps : (oc : OidcClient) (hash : String) → Keeps P (record_sync env r oc hash)
  unfolding record_sync
  record_sync-Keeps oc hash =
      search (keeps_rules, Keeps-written, set_condition-Keeps, open') depth 9

  write_secret-Keeps :
      (oc : OidcClient) (content : Dict String) (hash : String)
      → Keeps P (write_secret env r oc content hash)
  unfolding write_secret
  write_secret-Keeps oc content hash =
      search
        (
          keeps_rules, Keeps-written, set_condition-Keeps, patch_config_map-Keeps,
          restart_workload-Keeps, record_sync-Keeps, open',
        )
        depth 12

  sync_provider-Keeps : (oc : OidcClient) (p : OAuth2Provider) → Keeps P (sync_provider env r oc p)
  unfolding sync_provider write_if_changed
  sync_provider-Keeps oc p =
      search
        (
          keeps_rules, set_condition-Keeps, fetch_signing_cert-Keeps, write_secret-Keeps,
          IsOpen-closed, open',
        )
        depth 9

  report_missing-Keeps : (oc : OidcClient) (e : Error) → Keeps P (report_missing env r oc e)
  unfolding report_missing
  report_missing-Keeps oc e =
      search (keeps_rules, Keeps-written, set_condition-Keeps, open') depth 9

  provider_failed-Keeps :
      (oc : OidcClient) (e : Error)
      → Keeps P (try_refresh env r e)
      → Keeps P (provider_failed env r oc e)
  unfolding provider_failed
  provider_failed-Keeps oc e refresh =
      Keeps-bind _ _ refresh λ b. Keeps-if b _ _ (Keeps-pure _) (report_missing-Keeps oc e)

  no_refresh-Keeps : (e : Error) → is_token_expired e ≡ false → Keeps P (try_refresh env r e)
  unfolding try_refresh
  no_refresh-Keeps e h = rw h (Keeps-pure false)

module _ (env : Env) (r : Reconciler) (foreign : Foreign env) where
  Refreshing-IsWide : IsWide (Refreshing env)
  unfolding Refreshing
  Refreshing-IsWide = record {
    closed = IsOpen-closed (Refreshing-IsOpen env);
    apply = λ s t h. (inr h.0, h.1);
    delete = λ s t h. (inr h.0, h);
  }

  Rejected-WasRejected : (t : Trace) → Rejected env t → WasRejected env t
  Rejected-WasRejected [] h = h
  Rejected-WasRejected (c ∷ t) h = inl h

  provider_failed-AreJustified :
      (oc : OidcClient) (e : Error) (w : World)
      → AreJustified env w.trace
      → (is_token_expired e ≡ true → Rejected env w.trace)
      → AreJustified env (provider_failed env r oc e w).1.trace
  unfolding Refreshing
  provider_failed-AreJustified oc e w h rejected = elim (Bool-cases (is_token_expired e)) [
    | inl p ↦
        ((provider_failed-Keeps env r (Refreshing-IsOpen env) oc e
            (try_refresh-Keeps env r Refreshing-IsWide e)).at
          w (Rejected-WasRejected w.trace (rejected p), h)).1
    | inr p ↦
        (provider_failed-Keeps env r (AreJustified-IsOpen env) oc e
            (no_refresh-Keeps env r (AreJustified-IsOpen env) e p)).at
          w h
  ]

  expired_Rejected :
      (slug : String) (w : World) (x : Error)
      → (with_client r (λ c. get_oauth2_provider_by_slug env c slug) w).0 ≡ err x
      → is_token_expired x ≡ true
      → Rejected env (with_client r (λ c. get_oauth2_provider_by_slug env c slug) w).1.trace
  unfolding with_client
  expired_Rejected slug w x =
      get_oauth2_provider_by_slug-Rejected env (record r.authentik_client { token = shared })
        foreign slug w x

  reconcile_client-AreJustified :
      (oc : OidcClient) → Keeps (AreJustified env) (reconcile_client env r oc)
  unfolding reconcile_client
  reconcile_client-AreJustified oc = record {
    at = λ w h.
        let slug = oc.spec.authentik.application_slug in
        let m : Exec OAuth2Provider = with_client r (λ c. get_oauth2_provider_by_slug env c slug) in
        let kept =
          (get_provider-Keeps env r (IsOpen-closed (AreJustified-IsOpen env)) slug).at w h in
        elim (Result-cases (m w).0) [
          | inl (p, e) ↦
              rw e ((sync_provider-Keeps env r (AreJustified-IsOpen env) oc p).at (m w).1 kept)
          | inr (x, e) ↦
              rw e (provider_failed-AreJustified oc x (m w).1 kept (expired_Rejected slug w x e))
        ];
  }

  -- Where the errors of the libraries are not the client's own, `Reconcile` deletes a Secret only after a request
  -- to Authentik was answered with 401 or 403.
  pub reconcile-AreJustified :
      (req : NamespacedName) (w : World)
      → AreJustified env w.trace
      → AreJustified env (reconcile env r req w).1.trace
  unfolding reconcile
  reconcile-AreJustified req w h =
      let k : Keeps (AreJustified env) (reconcile env r req) =
        search
          (
            keeps_rules, ensure_token-Keeps, reconcile_client-AreJustified, AreJustified-IsOpen,
            IsOpen-closed,
          )
          depth 9 in
      k.at w h
