-- ===== src/Reconciler/Sources.antt =====
-- Whose tokens step 0 of `Reconcile` and `refreshToken` take over.
use authentik_operator.Prelude.{String, ◌≡◌, arith, List, []}
use authentik_operator.Errors.{Arg, Result, ok, err}
use authentik_operator.Text.{trim_slashes}
use authentik_operator.Api.{NamespacedName, Secret}
use authentik_operator.World.{Trace, Env}
use authentik_operator.World.Effects.{Exec, ◌>>=◌, ◌>>◌, attempt, wrapping, wrap_result, get_secret}
use authentik_operator.World.Guards.{
  Guards, Guards-if, Guards-pure, Guards-fail, Guards-wrapping, Guards-bind, Guards-bind_Gives,
}
use authentik_operator.Authentik.Below.{Safe, Rely, Guards-token, safe_rules}
use authentik_operator.Hash.{value_at}
use authentik_operator.Bootstrap.{run}
use authentik_operator.Bootstrap.Below.{run-Safe}
use authentik_operator.Reconciler.Token.{
  Reconciler, token_key, bootstrap_key, has_token, load_token, ensure_token, refresh_config,
  reload_token, refresh_token,
}

-- The two Secrets that the reconciler reads tokens from hold allowed ones.
pub record Sources (env : Env) (r : Reconciler) (Allowed : String → Type 0) : Type 0 where
  pub stored :
      (t : Trace) (s : Secret)
      → env.get_secret t (token_key env r) ≡ ok s
      → Allowed (value_at s.content "token")
  pub bootstrap :
      (t : Trace) (s : Secret)
      → env.get_secret t (bootstrap_key env r) ≡ ok s
      → Allowed (value_at s.content r.bootstrap_secret_key)

unwrapped :
    {A : Type 0} (format : String) (args : List Arg) (a : Result A) (b : A)
    → wrap_result format args a ≡ ok b
    → a ≡ ok b
unwrapped format args (ok a) b e = e
unwrapped format args (err x) b e = absurd (ground (arith, e))

abbrev HasAllowed : (String → Type 0) → String → Secret → Type 0
HasAllowed Allowed field s = Allowed (value_at s.content field)

-- What is known of the answer of a read of a Secret.
abbrev OfResult : (Secret → Type 0) → Result Secret → Type 0
OfResult Q (err _) = Unit
OfResult Q (ok s) = Q s

result_known :
    (Q : Secret → Type 0) (a b : Result Secret)
    → ((s : Secret) → a ≡ ok s → Q s)
    → ok a ≡ ok b
    → OfResult Q b
result_known Q a (err _) k e = tt
result_known Q a (ok s) k e = k s (ground (arith, e))

module _ (env : Env) {Allowed : String → Type 0} {base : String} {B : Type 0} (Q : Secret → Type 0)
    (key : NamespacedName)
    (known : (t : Trace) (s : Secret) → env.get_secret t key ≡ ok s → Q s) where
  read-Safe :
      (format : String) (args : List Arg) (f : Secret → Exec B)
      → ((s : Secret) → Q s → Guards (Safe Allowed base) (f s))
      → Guards (Safe Allowed base) (wrapping format args (get_secret env key) >>= f)
  read-Safe format args f k =
      Guards-bind_Gives {Q = Q} (wrapping format args (get_secret env key)) f (search safe_rules)
        (record {
          at = λ w h s e. known w.trace s (unwrapped format args (env.get_secret w.trace key) s e);
        })
        k

  try-Safe :
      (f : Result Secret → Exec B)
      → ((a : Result Secret) → OfResult Q a → Guards (Safe Allowed base) (f a))
      → Guards (Safe Allowed base) (attempt (get_secret env key) >>= f)
  try-Safe f k =
      Guards-bind_Gives {Q = OfResult Q} (attempt (get_secret env key)) f (search safe_rules)
        (record { at = λ w h a e. result_known Q (env.get_secret w.trace key) a (known w.trace) e })
        k

module _ (env : Env) (r : Reconciler) {Allowed : String → Type 0} {base : String}
    (rely : Rely env Allowed) (sources : Sources env r Allowed) where
  pub has_token-Safe : Guards (Safe Allowed base) (has_token env)
  unfolding has_token
  has_token-Safe = record { at = λ w h. h }

  load_token-Safe :
      (s : Result Secret)
      → OfResult (HasAllowed Allowed "token") s
      → Guards (Safe Allowed base) (load_token env r s)
  unfolding load_token
  load_token-Safe (err _) h = Guards-pure _
  load_token-Safe (ok s) h = Guards-if _ _ _ (Guards-pure _) (Guards-token _ h)

  load_found-Safe : Guards (Safe Allowed base) (
      attempt (get_secret env (token_key env r)) >>= λ found.
      load_token env r found >> has_token env)
  load_found-Safe =
      try-Safe env (HasAllowed Allowed "token") (token_key env r) sources.stored _
        (λ found h. Guards-bind _ _ (load_token-Safe found h) (λ _. has_token-Safe))

  pub ensure_token-Safe : Guards (Safe Allowed base) (ensure_token env r)
  unfolding ensure_token
  ensure_token-Safe = search (safe_rules, has_token-Safe, load_found-Safe) depth 9

  reload_token-Safe : Guards (Safe Allowed base) (reload_token env r)
  unfolding reload_token
  reload_token-Safe =
      read-Safe env (HasAllowed Allowed "token") (token_key env r) sources.stored _ _ _
        (λ s h. Guards-if _ _ _ (Guards-fail _) (Guards-token _ h))

module _ (env : Env) (r : Reconciler) {Allowed : String → Type 0} {base : String}
    (rely : Rely env Allowed) (sources : Sources env r Allowed)
    (at_url : trim_slashes r.authentik_url ≡ base) where
  run_again-Safe :
      (token : String)
      → Allowed token
      → Guards (Safe Allowed base) (run env (refresh_config env r token))
  run_again-Safe token h = run-Safe env (refresh_config env r token) rely h at_url

  pub refresh_token-Safe : Guards (Safe Allowed base) (refresh_token env r)
  unfolding refresh_token
  refresh_token-Safe = Guards-if _ _ _ (Guards-fail _) (
      read-Safe env (HasAllowed Allowed r.bootstrap_secret_key) (bootstrap_key env r)
        sources.bootstrap _ _ _
        (λ s h. Guards-if _ _ _ (Guards-fail _) (
          Guards-bind _ _ (Guards-token "" rely.cleared) (λ _.
            Guards-bind _ _ (Guards-wrapping "re-bootstrap failed: %w" [] _ (run_again-Safe _ h))
              (λ _. reload_token-Safe env r rely sources)))))
