-- ===== src/Reconciler/Token.antt =====
-- The reconciler's fields, and step 0 of `Reconcile` and `refreshToken`, of
-- internal/controller/oidcclient_controller.go.
use authentik_operator.Prelude.{
  zero, ◌*◌, String, ◌==◌, Bool, true, not, ◌||◌, List, [], ◌∷◌, if◌then◌else◌,
}
use authentik_operator.Prelude.Int.{ℤ, pos}
use authentik_operator.Errors.{quoted, errorf, Result, ok, err}
use authentik_operator.Api.{NamespacedName, Secret}
use authentik_operator.World.{Env, shared}
use authentik_operator.World.Effects.{
  Exec, ◌>>=◌, ◌>>◌, pure, fail, attempt, wrapping, set_token, held, get_secret,
}
use authentik_operator.Hash.{value_at}
use authentik_operator.Authentik.{Client, second}
use authentik_operator.Authentik.Tls.{ClientOption}
use authentik_operator.Bootstrap.{Config, run}

-- `OIDCClientReconciler`. The client's token is shared by the workers.
pub record Reconciler : Type 0 where
  pub authentik_client : Client
  pub authentik_url : String
  pub reconcile_interval : ℤ
  pub token_secret_name : String
  pub token_secret_namespace : String
  pub bootstrap_secret_name : String
  pub bootstrap_secret_key : String
  pub bootstrap_client_opts : List ClientOption
  pub has_rest_config : Bool

-- `ctrl.Result`
pub record CtrlResult : Type 0 where
  pub requeue : Bool
  pub requeue_after : ℤ

-- A duration, or five minutes in place of zero.
unfoldable pub or_default : ℤ → ℤ
or_default (pos zero) = pos (300 * second)
or_default d = d

unfoldable pub interval : Reconciler → ℤ
unfolding or_default
interval r = or_default r.reconcile_interval

-- A call of the reconciler's client.
unfoldable pub with_client : {A : Type 0} → Reconciler → (Client → Exec A) → Exec A
with_client r f = f (record r.authentik_client { token = shared })

-- `HasToken`
unfoldable pub has_token : Env → Exec Bool
has_token env w = (ok (not (held env w == "")), w)

module _ (env : Env) (r : Reconciler) where
  abbrev pub token_key : NamespacedName
  token_key = record { name = r.token_secret_name; namespace = r.token_secret_namespace }

  -- A token that is not empty is taken over; an error is passed over.
  unfoldable pub load_token : Result Secret → Exec (Unit {0})
  load_token (err _) = pure tt
  load_token (ok s) =
      let tok = value_at s.content "token" in if tok == "" then pure tt else set_token tok

  -- Step 0: whether there is a token to go on with.
  unfoldable pub ensure_token : Exec Bool
  ensure_token = do
    present ← has_token env
    if present || r.token_secret_name == ""
        then pure true
        else do found ← attempt (get_secret env token_key); load_token found; has_token env

  abbrev pub refresh_config : String → Config
  refresh_config bootstrap_token = record {
    authentik_url = r.authentik_url;
    bootstrap_token = bootstrap_token;
    token_identifier = "authentik-operator";
    token_secret_name = r.token_secret_name;
    namespace = r.token_secret_namespace;
    client_opts = r.bootstrap_client_opts;
    force_refresh = true;
    has_rest_config = r.has_rest_config;
    authentik_namespace = "";
  }

  -- The end of `refreshToken`: the token is read back.
  unfoldable pub reload_token : Exec (Unit {0})
  reload_token = do
    s ← wrapping "reading refreshed token secret: %w" [] (get_secret env token_key)
    let new_token = value_at s.content "token"
    if new_token == ""
        then fail (errorf "refreshed token secret is empty" [])
        else set_token new_token

  abbrev pub bootstrap_key : NamespacedName
  bootstrap_key = record { name = r.bootstrap_secret_name; namespace = r.token_secret_namespace }

  -- `refreshToken`
  unfoldable pub refresh_token : Exec (Unit {0})
  refresh_token =
      if r.bootstrap_secret_name == ""
      then fail (errorf "bootstrap secret not configured, cannot auto-refresh token" [])
      else do
        bs ←
            wrapping "reading bootstrap secret %q: %w" (quoted r.bootstrap_secret_name ∷ [])
              (get_secret env bootstrap_key)
        let bootstrap_token = value_at bs.content r.bootstrap_secret_key
        if bootstrap_token == ""
            then fail (
                errorf "bootstrap token empty in secret %q key %q"
                  (quoted r.bootstrap_secret_name ∷ quoted r.bootstrap_secret_key ∷ []))
            else do
              set_token ""
              wrapping "re-bootstrap failed: %w" [] (run env (refresh_config bootstrap_token))
              reload_token
