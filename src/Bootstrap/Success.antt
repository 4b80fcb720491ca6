-- ===== src/Bootstrap/Success.antt =====
-- What a run of `Run` that succeeds has done.
use authentik_operator.Prelude.{String, ◌≡◌, refl, ap, [], false, ◌∷◌, inl, inr, none, arith}
use authentik_operator.Errors.{ok, Result-cases}
use authentik_operator.World.{Call, World, Env}
use authentik_operator.World.Effects.{wrapping, apply_secret}
use authentik_operator.Authentik.{Client, new_client}
use authentik_operator.Authentik.Wait.{wait_for_ready}
use authentik_operator.Bootstrap.{
  Config, check_existing, obtain_key, token_secret, run, readiness_timeout,
}

module _ (env : Env) (cfg : Config) where
  abbrev pub authentik : Client
  authentik = new_client env cfg.authentik_url cfg.bootstrap_token cfg.client_opts

  -- The key was obtained after Authentik was ready, and the server accepted the Secret that holds it, which
  -- was the last call.
  pub record Stored (start end : World) : Type 0 where
    pub ready : World
    pub before : World
    pub key : String
    pub waited : wait_for_ready env authentik readiness_timeout start ≡ (ok tt, ready)
    pub obtained : obtain_key env cfg ready ≡ (ok key, before)
    pub accepted : env.apply_secret before.trace (token_secret cfg key) ≡ none
    pub last : end.trace ≡ Call.secret_apply (token_secret cfg key) ∷ before.trace

  apply_secret-accepted :
      (w : World) (key : String)
      → (wrapping "applying token secret: %w" [] (apply_secret env (token_secret cfg key)) w).0
        ≡ ok tt
      → env.apply_secret w.trace (token_secret cfg key) ≡ none
  apply_secret-accepted w key e = ground arith

  -- A run that goes on after the read of the token Secret and succeeds has waited for Authentik, has obtained a
  -- key then, and its last call has stored this key in the token Secret, which the server accepted.
  pub run-Stored :
      (w w1 : World)
      → check_existing env cfg w ≡ (ok false, w1)
      → (run env cfg w).0 ≡ ok tt
      → Stored w1 (run env cfg w).1
  unfolding run
  run-Stored w w1 goes success =
      elim (Result-cases (wait_for_ready env authentik readiness_timeout w1).0) [
        | inl (_, p) ↦
            elim (Result-cases
              (obtain_key env cfg (wait_for_ready env authentik readiness_timeout w1).1).0) [
                | inl (key, q) ↦
                    rw (goes, p, q)
                      (record {
                        ready = (wait_for_ready env authentik readiness_timeout w1).1;
                        before =
                            (obtain_key env cfg
                              (wait_for_ready env authentik readiness_timeout w1).1).1;
                        key = key;
                        waited =
                            ap (λ r. (r, (wait_for_ready env authentik readiness_timeout w1).1)) p;
                        obtained =
                            ap
                              (λ r. (
                                r,
                                (obtain_key env cfg
                                    (wait_for_ready env authentik readiness_timeout w1).1).1,
                              ))
                              q;
                        accepted =
                            apply_secret-accepted
                              (obtain_key env cfg
                                (wait_for_ready env authentik readiness_timeout w1).1).1
                              key (rw (goes, p, q) at success);
                        last = refl;
                      })
                | inr (e, q) ↦ let bad = rw (goes, p, q) at success in absurd (ground (arith, bad))
              ]
        | inr (e, p) ↦ let bad = rw (goes, p) at success in absurd (ground (arith, bad))
      ]
