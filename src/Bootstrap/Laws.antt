-- ===== src/Bootstrap/Laws.antt =====
-- What `Run` does about a token Secret that is there, and what it leaves behind.
use authentik_operator.Prelude.{String, ◌≡◌, refl, ◌≢◌, ◌∷◌, inl, inr, true, false, none, arith, []}
use authentik_operator.Errors.{Error, Result, ok, err, Result-cases, is_not_found, wrapf}
use authentik_operator.Api.{Secret, SecretApply}
use authentik_operator.World.{Call, Trace, World, Env}
use authentik_operator.World.Effects.{Exec, ◌>>=◌, wrapping, apply_secret}
use authentik_operator.World.Keeps.{Keeps, IsClosed, is_quiet, keeps_rules}
use authentik_operator.Authentik.Quiet.{wait_for_ready-Keeps}
use authentik_operator.Bootstrap.Quiet.{obtain_key-Keeps}
use authentik_operator.Authentik.{Client, new_client}
use authentik_operator.Authentik.Wait.{wait_for_ready}
use authentik_operator.Bootstrap.{
  Config, secret_key, check_existing, obtain_key, token_secret, run, readiness_timeout,
}

module _ (env : Env) (cfg : Config) where
  -- The read of the token Secret ends the run: it is there and no refresh is forced, or it cannot be read
  -- for another reason than that it is missing.
  abbrev pub Stops : Result Secret → Type 0
  Stops (ok s) = cfg.force_refresh ≡ false
  Stops (err e) = is_not_found e ≡ false

  -- A token Secret that is there, unless a refresh is forced, and one that cannot be read for another reason
  -- than that it is missing end `Run` after this one read: Authentik is not asked and nothing is
  -- written. The run succeeds in the first case and fails in the second, with the error of the read.
  pub run-Stops :
      (w : World)
      → Stops (env.get_secret w.trace (secret_key cfg))
      → run env cfg w ≡ (
        elim (env.get_secret w.trace (secret_key cfg)) [
          | ok _ ↦ ok tt
          | err e ↦ err (wrapf "checking existing secret: %w" [] e)
        ],
        record w { trace = Call.secret_get (secret_key cfg) ∷ w.trace },
      )
  unfolding run check_existing
  run-Stops w stops = elim (Result-cases (env.get_secret w.trace (secret_key cfg))) [
    | inl (s, p) ↦ rw p (rw (rw p at stops) refl)
    | inr (e, p) ↦ rw p (rw (rw p at stops) refl)
  ]

-- Since the last deletion of a Secret, the server has accepted no other.
abbrev pub IsLost : Env → Trace → Type 0
IsLost env [] = ⊥
IsLost env (Call.secret_delete _ ∷ t) = Unit
IsLost env (Call.secret_apply s ∷ t) = (env.apply_secret t s ≢ none) × IsLost env t
IsLost env (_ ∷ t) = IsLost env t

module _ (env : Env) where
  IsLost-quiet : (c : Call) (t : Trace) → is_quiet c ≡ true → IsLost env t → IsLost env (c ∷ t)
  IsLost-quiet (Call.secret_delete _) t q h = tt
  IsLost-quiet (Call.secret_apply _) t q h = cc
  IsLost-quiet _ t q h = h

  IsLost-IsClosed : IsClosed (IsLost env)
  IsLost-IsClosed = record { add = IsLost-quiet }

  apply-IsLost :
      (s : SecretApply) (f : String) (w : World) (e : Error)
      → IsLost env w.trace
      → (wrapping f [] (apply_secret env s) w).0 ≡ err e
      → IsLost env (wrapping f [] (apply_secret env s) w).1.trace
  apply-IsLost s f w e h failed = (λ accepted. ground arith, h)

  -- After `m`, which keeps the loss.
  pass_on-IsLost :
      {A : Type 0} (m : Exec A) (f : A → Exec (Unit {0})) (w : World) (e : Error)
      → Keeps (IsLost env) m
      → ((a : A) (w' : World)
          → IsLost env w'.trace
          → (f a w').0 ≡ err e
          → IsLost env (f a w').1.trace)
      → IsLost env w.trace
      → ((m >>= f) w).0 ≡ err e
      → IsLost env ((m >>= f) w).1.trace
  pass_on-IsLost m f w e k kf h failed = elim (Result-cases (m w).0) [
    | inl (a, p) ↦ rw p (kf a (m w).1 (k.at w h) (rw p at failed))
    | inr (e', p) ↦ rw p (k.at w h)
  ]

  check_existing_forced :
      (cfg : Config) (w : World) {s : Secret}
      → env.get_secret w.trace (secret_key cfg) ≡ ok s
      → cfg.force_refresh ≡ true
      → env.delete_secret (Call.secret_get (secret_key cfg) ∷ w.trace) s ≡ none
      → check_existing env cfg w ≡ (
        ok false,
        record w { trace = Call.secret_delete s ∷ Call.secret_get (secret_key cfg) ∷ w.trace },
      )
  unfolding check_existing
  check_existing_forced cfg w found forced deleted = ground arith

  -- A forced run that has deleted the token Secret and then fails leaves the cluster without one:
  -- nothing was accepted in its place.
  pub run-IsLost :
      (cfg : Config) (w : World) {s : Secret} (e : Error)
      → env.get_secret w.trace (secret_key cfg) ≡ ok s
      → cfg.force_refresh ≡ true
      → env.delete_secret (Call.secret_get (secret_key cfg) ∷ w.trace) s ≡ none
      → (run env cfg w).0 ≡ err e
      → IsLost env (run env cfg w).1.trace
  unfolding run
  run-IsLost cfg w {s} e found forced deleted failed =
      rw (check_existing_forced cfg w found forced deleted) (
        pass_on-IsLost
          (wrapping "waiting for Authentik readiness: %w" []
            (wait_for_ready env c readiness_timeout))
          (λ _. obtain_key env cfg >>= λ key.
            wrapping "applying token secret: %w" [] (apply_secret env (token_secret cfg key)))
          (record w { trace = Call.secret_delete s ∷ Call.secret_get (secret_key cfg) ∷ w.trace }) e
          (search (keeps_rules, wait_for_ready-Keeps, IsLost-IsClosed))
          (λ _ w' h bad.
            pass_on-IsLost (obtain_key env cfg)
              (λ key.
                wrapping "applying token secret: %w" [] (apply_secret env (token_secret cfg key)))
              w' e (obtain_key-Keeps env IsLost-IsClosed cfg)
              (λ key w'' h' bad'.
                apply-IsLost (token_secret cfg key) "applying token secret: %w" w'' e h' bad')
              h bad)
          tt (rw (check_existing_forced cfg w found forced deleted) at failed))
    where
      c : Client
      c = new_client env cfg.authentik_url cfg.bootstrap_token cfg.client_opts
