-- ===== src/Reconciler/Order/Defs.antt =====
-- When `Reconcile` may write to the cluster, by the calls that were made before.
use authentik_operator.Prelude.{String, ◌≡◌, ◌⊎◌, inr, none, true, [], ◌∷◌}
use authentik_operator.Prelude.Dict.{Dict}
use authentik_operator.Errors.{ok}
use authentik_operator.Api.{OidcClient, OidcClientSpec, SecretApply}
use authentik_operator.World.{Call, Trace, Env}
use authentik_operator.World.Keeps.{IsClosed, IsWide, is_quiet}
use authentik_operator.Hash.{compute_secret_hash}
use authentik_operator.Rollout.{annotate}
use authentik_operator.Reconciler.Sync.{to_byte_map}

module _ (env : Env) where
  -- The Secret is the target of the specification and holds data of this hash.
  pub record Holds (spec : OidcClientSpec) (hash : String) (s : SecretApply) : Type 0 where
    pub content : Dict String
    pub name : s.name ≡ spec.target.secret_name
    pub namespace : s.namespace ≡ spec.target.namespace
    pub bytes : s.content ≡ to_byte_map content
    pub hashed : hash ≡ compute_secret_hash env.certs.sha256 content

  -- The custom resource was read, with this specification and this hash in its status.
  abbrev pub Read : OidcClientSpec → String → Trace → Type 0
  Read spec hash [] = ⊥
  Read spec hash (Call.client_get key ∷ t) =
      ((oc : OidcClient) × (env.get_client t key ≡ ok oc)
        × (oc.spec ≡ spec)
        × (oc.status.secret_hash ≡ hash))
      ⊎ Read spec hash t
  Read spec hash (_ ∷ t) = Read spec hash t

  -- The server accepted the target Secret with data of this hash.
  abbrev pub Applied : OidcClientSpec → String → Trace → Type 0
  Applied spec hash [] = ⊥
  Applied spec hash (Call.secret_apply s ∷ t) =
      (Holds spec hash s × (env.apply_secret t s ≡ none)) ⊎ Applied spec hash t
  Applied spec hash (_ ∷ t) = Applied spec hash t

  abbrev pub MayCall : Call → Trace → Type 0
  MayCall (Call.status_update oc) t =
      Read oc.spec oc.status.secret_hash t ⊎ Applied oc.spec oc.status.secret_hash t
  MayCall (Call.workload_patch base new) t =
      (spec : OidcClientSpec) × (hash : String) × (new ≡ annotate hash base) × Applied spec hash t
  MayCall (Call.config_map_update _) t =
      (spec : OidcClientSpec) × (hash : String) × Applied spec hash t
  MayCall _ t = Unit

  -- Every call of the trace was made when it may be made.
  abbrev pub IsOrdered : Trace → Type 0
  IsOrdered [] = Unit
  IsOrdered (c ∷ t) = MayCall c t × IsOrdered t

  pub MayCall-quiet : (c : Call) (t : Trace) → is_quiet c ≡ true → MayCall c t
  MayCall-quiet (Call.status_update _) t q = cc
  MayCall-quiet (Call.workload_patch _ _) t q = cc
  MayCall-quiet (Call.config_map_update _) t q = cc
  MayCall-quiet (Call.secret_apply _) t q = tt
  MayCall-quiet (Call.secret_delete _) t q = tt
  MayCall-quiet _ t q = tt

  pub Read-cons :
      (spec : OidcClientSpec) (hash : String) (c : Call) (t : Trace)
      → Read spec hash t
      → Read spec hash (c ∷ t)
  Read-cons spec hash (Call.client_get key) t h = inr h
  Read-cons spec hash _ t h = h

  pub Applied-cons :
      (spec : OidcClientSpec) (hash : String) (c : Call) (t : Trace)
      → Applied spec hash t
      → Applied spec hash (c ∷ t)
  Applied-cons spec hash (Call.secret_apply s) t h = inr h
  Applied-cons spec hash _ t h = h

  abbrev pub ReadBefore : OidcClientSpec → String → Trace → Type 0
  ReadBefore spec hash t = Read spec hash t × IsOrdered t

  abbrev pub AppliedBefore : OidcClientSpec → String → Trace → Type 0
  AppliedBefore spec hash t = Applied spec hash t × IsOrdered t

  pub IsOrdered-IsClosed : IsClosed IsOrdered
  IsOrdered-IsClosed = record { add = λ c t q h. (MayCall-quiet c t q, h) }

  pub ReadBefore-IsClosed :
      (spec : OidcClientSpec) (hash : String) → IsClosed (ReadBefore spec hash)
  ReadBefore-IsClosed spec hash = record {
    add = λ c t q h. (Read-cons spec hash c t h.0, (MayCall-quiet c t q, h.1));
  }

  pub AppliedBefore-IsClosed :
      (spec : OidcClientSpec) (hash : String) → IsClosed (AppliedBefore spec hash)
  AppliedBefore-IsClosed spec hash = record {
    add = λ c t q h. (Applied-cons spec hash c t h.0, (MayCall-quiet c t q, h.1));
  }

  pub ReadBefore-IsWide : (spec : OidcClientSpec) (hash : String) → IsWide (ReadBefore spec hash)
  ReadBefore-IsWide spec hash = record {
    closed = ReadBefore-IsClosed spec hash;
    apply = λ s t h. (h.0, (tt, h.1));
    delete = λ s t h. (h.0, (tt, h.1));
  }
