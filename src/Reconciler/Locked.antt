-- ===== src/Reconciler/Locked.antt =====
-- Step 0 of `Reconcile`: a run that has no token.
use authentik_operator.Prelude.{◌≡◌, refl, ◌≢◌, ◌==◌, eq_iff, true, false, ◌∷◌, arith}
use authentik_operator.Errors.{Result, ok, err}
use authentik_operator.Api.{NamespacedName, Secret}
use authentik_operator.Hash.{value_at}
use authentik_operator.World.{Call, World, Env}
use authentik_operator.World.Effects.{held}
use authentik_operator.Reconciler.{reconcile, requeue_after}
use authentik_operator.Reconciler.Token.{Reconciler, ensure_token, has_token, load_token, token_key}

-- The answer to the read of the token Secret that brings no token.
abbrev pub Barren : Result Secret → Type 0
Barren (err e) = Unit
Barren (ok s) = value_at s.content "token" ≡ ""

module _ (env : Env) (r : Reconciler) where
  load_token-Barren : (s : Result Secret) (w : World) → Barren s → load_token env r s w ≡ (ok tt, w)
  unfolding load_token
  load_token-Barren (err e) w h = refl
  load_token-Barren (ok s) w h = ground (arith, eq_iff (value_at s.content "token") "")

  abbrev pub after_read : World → World
  after_read w = record w { trace = Call.secret_get (token_key env r) ∷ w.trace }

  ensure_token-Barren :
      (w : World)
      → held env w ≡ ""
      → held env (after_read w) ≡ ""
      → r.token_secret_name ≢ ""
      → Barren (env.get_secret w.trace (token_key env r))
      → ensure_token env r w ≡ (ok false, after_read w)
  unfolding ensure_token has_token
  ensure_token-Barren w no_token still named barren =
      let empty : (held env w == "") ≡ true = rw no_token refl in
      let after : (held env (after_read w) == "") ≡ true = rw still refl in
      let set : (r.token_secret_name == "") ≡ false =
        ground (arith, eq_iff r.token_secret_name "") in
      rw
        (
          empty,
          set,
          load_token-Barren (env.get_secret w.trace (token_key env r)) (after_read w) barren,
          after,
        )
        refl

  -- Where the client has no token, no other worker has set one by the end of the read, and the token Secret is
  -- configured but is missing, cannot be read or holds no token, a run ends after the one read of this
  -- Secret and is requeued after the interval: the custom resource is not read, no refresh is
  -- tried, and the run sets no token.
  pub reconcile_locked :
      (req : NamespacedName) (w : World)
      → held env w ≡ ""
      → held env (after_read w) ≡ ""
      → r.token_secret_name ≢ ""
      → Barren (env.get_secret w.trace (token_key env r))
      → reconcile env r req w ≡ (ok (requeue_after r), after_read w)
  unfolding reconcile
  reconcile_locked req w no_token still named barren =
      rw (ensure_token-Barren w no_token still named barren) refl
