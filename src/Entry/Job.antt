-- ===== src/Entry/Job.antt =====
-- The exit code of the bootstrap job, and what the operator finds after it.
use authentik_operator.Prelude.{
  String, ◌≡◌, refl, ap, sym, ◌∙◌, true, false, Option, none, some, ◌∷◌, ◌⊎◌, inl, inr, arith,
  Bool-cases,
}
use authentik_operator.Errors.{Error, ok, err, is_not_found, Result-cases}
use authentik_operator.Api.{Secret}
use authentik_operator.World.{Call, World, Env}
use authentik_operator.World.Effects.{Exec, ◌>>=◌, ◌>>◌, attempt, check, pure}
use authentik_operator.Bootstrap.{Config, secret_key, check_existing, run}
use authentik_operator.Bootstrap.Laws.{run-Stops}
use authentik_operator.Bootstrap.Success.{Stored, run-Stored}
use authentik_operator.Reconciler.Token.{Reconciler, token_key}
use authentik_operator.Entry.{Host, bootstrap_config, run_job, exit_code}
use authentik_operator.Entry.Options.{Flags}

module _ (env : Env) (cfg : Config) where
  abbrev pub after_get : World → World
  after_get w = record w { trace = Call.secret_get (secret_key cfg) ∷ w.trace }

  -- The token Secret was there and nothing else was done, or it was missing and a key was stored in it.
  abbrev pub IsProvided : World → World → Type 0
  IsProvided w w' =
      ((s : Secret) × (env.get_secret w.trace (secret_key cfg) ≡ ok s) × (w' ≡ after_get w))
      ⊎ Stored env cfg (after_get w) w'

  check_existing_missing :
      (w : World) {e : Error}
      → env.get_secret w.trace (secret_key cfg) ≡ err e
      → is_not_found e ≡ true
      → check_existing env cfg w ≡ (ok false, after_get w)
  unfolding check_existing
  check_existing_missing w p missing = rw (p, missing)

  run-IsProvided :
      (w : World)
      → cfg.force_refresh ≡ false
      → (run env cfg w).0 ≡ ok tt
      → IsProvided w (run env cfg w).1
  run-IsProvided w calm success = elim (Result-cases (env.get_secret w.trace (secret_key cfg))) [
    | inl (s, p) ↦ inl (s, p, ap (λ x. x.1) (run-Stops env cfg w (rw p calm)))
    | inr (e, p) ↦ elim (Bool-cases (is_not_found e)) [
      | inl missing ↦
          inr (run-Stored env cfg w (after_get w) (check_existing_missing w p missing) success)
      | inr other ↦
          let failed = rw p at (ap (λ x. x.0) (run-Stops env cfg w (rw p other))) in
          let bad = sym failed ∙ success in absurd (ground (arith, bad))
    ]
  ]

-- An exit code 0 after two checks.
exit_zero :
    (a b : Option Error) (m : Exec (Unit {0})) (w : World)
    → ((attempt (check a >> (check b >> m)) >>= λ result. pure (exit_code result)) w).0 ≡ ok 0
    → ((m w).0 ≡ ok tt)
      × ((attempt (check a >> (check b >> m)) >>= λ result. pure (exit_code result)) w).1 ≡ (m w).1
unfolding exit_code
exit_zero none none m w e = ground arith
exit_zero none (some x) m w e = absurd (ground (arith, e))
exit_zero (some x) b m w e = absurd (ground (arith, e))

module _ (env : Env) (r : Reconciler) where
  -- The world after the token Secret was read and its token was taken over.
  abbrev pub loaded : World → String → World
  loaded v token = record { token = token; trace = Call.secret_get (token_key env r) ∷ v.trace }

module _ (env : Env) (host : Host) (f : Flags) where
  abbrev pub job_config : Config
  job_config = bootstrap_config env host f

  calm : job_config.force_refresh ≡ false
  unfolding bootstrap_config
  calm = refl

  -- The job exits with 0 only where the token Secret was there already, and then this one read was all, or
  -- where it has stored a key, by a call that the server accepted and that was its last.
  pub run_job-IsProvided :
      (w : World)
      → (run_job env host f w).0 ≡ ok 0
      → IsProvided env job_config w (run_job env host f w).1
  unfolding run_job
  run_job-IsProvided w e =
      let (success, same) =
        exit_zero host.config_error host.client_error (run env job_config) w e in
      rw same (run-IsProvided env job_config w calm success)
