-- ===== src/Reconciler/Refresh.antt =====
-- What a refresh of the token that succeeds has done.
use authentik_operator.Prelude.{
  String, ◌==◌, eq_iff, ◌≡◌, ◌≢◌, refl, ap, sym, ◌∙◌, true, false, [], ◌∷◌, inl, inr, Bool-cases,
  arith,
}
use authentik_operator.Errors.{Error, ok, err, Result-cases}
use authentik_operator.Api.{Secret}
use authentik_operator.Hash.{value_at}
use authentik_operator.World.{Call, World, Env}
use authentik_operator.World.Effects.{Exec, ◌>>◌, wrapping}
use authentik_operator.Bootstrap.{Config, check_existing, run}
use authentik_operator.Bootstrap.Token.{run-HasSet}
use authentik_operator.Bootstrap.Success.{Stored, run-Stored}
use authentik_operator.Reconciler.Token.{
  Reconciler, token_key, bootstrap_key, refresh_config, reload_token, refresh_token,
}

module _ (env : Env) (cfg : Config) where
  check_existing-ne :
      (w : World) → cfg.force_refresh ≡ true → (check_existing env cfg w).0 ≢ ok true
  unfolding check_existing
  check_existing-ne w forced e = ground (arith, forced, e)

  -- A forced run that succeeds has gone on after the read of the token Secret.
  forced_goes_on :
      (w : World)
      → cfg.force_refresh ≡ true
      → (run env cfg w).0 ≡ ok tt
      → check_existing env cfg w ≡ (ok false, (check_existing env cfg w).1)
  unfolding run
  forced_goes_on w forced e = elim (Result-cases (check_existing env cfg w).0) [
    | inl (true, p) ↦ absurd (check_existing-ne w forced p)
    | inl (false, p) ↦ ap (λ x. (x, (check_existing env cfg w).1)) p
    | inr (x, p) ↦ let bad = rw p at e in absurd (ground (arith, bad))
  ]

  run-Stored_forced :
      (w : World)
      → cfg.force_refresh ≡ true
      → (run env cfg w).0 ≡ ok tt
      → Stored env cfg (check_existing env cfg w).1 (run env cfg w).1
  run-Stored_forced w forced e =
      run-Stored env cfg w (check_existing env cfg w).1 (forced_goes_on w forced e) e

module _ (env : Env) (r : Reconciler) where
  -- The token was read from the token Secret, by the last call, and is not empty.
  pub record Reloaded (w w' : World) : Type 0 where
    pub found : Secret
    pub read : env.get_secret w.trace (token_key env r) ≡ ok found
    pub full : value_at found.content "token" ≢ ""
    pub after : w' ≡ record {
      token = value_at found.content "token";
      trace = Call.secret_get (token_key env r) ∷ w.trace;
    }

  reload_token-Reloaded :
      (w : World) → (reload_token env r w).0 ≡ ok tt → Reloaded w (reload_token env r w).1
  unfolding reload_token
  reload_token-Reloaded w e = elim (Result-cases (env.get_secret w.trace (token_key env r))) [
    | inl (s, p) ↦ elim (Bool-cases (value_at s.content "token" == "")) [
      | inl b ↦ let bad = rw (p, b) at e in absurd (ground (arith, bad))
      | inr b ↦
          rw (p, b)
            (record {
              found = s;
              read = p;
              full = ground (arith, eq_iff (value_at s.content "token") "", b);
              after = refl;
            })
    ]
    | inr (x, p) ↦ let bad = rw p at e in absurd (ground (arith, bad))
  ]

-- The second of two actions, where both succeed.
wrapping_then :
    (f : String) (m n : Exec (Unit {0})) (w : World)
    → ((wrapping f [] m >> n) w).0 ≡ ok tt
    → ((m w).0 ≡ ok tt) × ((wrapping f [] m >> n) w ≡ n (m w).1)
wrapping_then f m n w e = elim (Result-cases (m w).0) [
  | inl (_, p) ↦ (p, rw p refl)
  | inr (x, p) ↦ let bad = rw p at e in absurd (ground (arith, bad))
]

module _ (env : Env) (r : Reconciler) where
  abbrev after_bootstrap_get : World → World
  after_bootstrap_get w = record {
    token = "";
    trace = Call.secret_get (bootstrap_key env r) ∷ w.trace;
  }

  -- A new key was stored in the token Secret by the bootstrap with the token of the bootstrap Secret, then the
  -- token Secret was read back.
  pub record Refreshed (w w' : World) : Type 0 where
    pub bootstrap : Secret
    pub configured : env.get_secret w.trace (bootstrap_key env r) ≡ ok bootstrap
    pub usable : value_at bootstrap.content r.bootstrap_secret_key ≢ ""
    pub start : World
    pub middle : World
    pub stored :
        Stored env
          (refresh_config env r (value_at bootstrap.content r.bootstrap_secret_key))
          start
          middle
    pub reloaded : Reloaded env r middle w'

  -- A refresh of the token that reports no error has stored a key in the token Secret, by a bootstrap with the
  -- token of the bootstrap Secret, which the server accepted; then it has read the token Secret back, by
  -- its last call, and the token that it has set is the value that it found, which is not empty.
  pub refresh_token-Refreshed :
      (w : World) → (refresh_token env r w).0 ≡ ok tt → Refreshed w (refresh_token env r w).1
  unfolding refresh_token
  refresh_token-Refreshed w e = elim (Bool-cases (r.bootstrap_secret_name == "")) [
    | inl b ↦ let bad = rw b at e in absurd (ground (arith, bad))
    | inr b ↦ elim (Result-cases (env.get_secret w.trace (bootstrap_key env r))) [
      | inr (x, p) ↦ let bad = rw (b, p) at e in absurd (ground (arith, bad))
      | inl (bs, p) ↦ elim (Bool-cases (value_at bs.content r.bootstrap_secret_key == "")) [
        | inl c ↦ let bad = rw (b, p, c) at e in absurd (ground (arith, bad))
        | inr c ↦
            let cfg = refresh_config env r (value_at bs.content r.bootstrap_secret_key) in
            let w1 = after_bootstrap_get w in
            let (ran, same) =
              wrapping_then "re-bootstrap failed: %w" (run env cfg) (reload_token env r) w1
                (rw (b, p, c) at e) in
            let loaded : (reload_token env r (run env cfg w1).1).0 ≡ ok tt =
              ap (λ x. x.0) (sym same) ∙ (rw (b, p, c) at e) in
            rw (b, p, c)
              (record {
                bootstrap = bs;
                configured = p;
                usable = ground (arith, eq_iff (value_at bs.content r.bootstrap_secret_key) "", c);
                start = (check_existing env cfg w1).1;
                middle = (run env cfg w1).1;
                stored = run-Stored_forced env cfg w1 refl ran;
                reloaded = rw same (reload_token-Reloaded env r (run env cfg w1).1 loaded);
              })
      ]
    ]
  ]

module _ (env : Env) (r : Reconciler) where
  reload_token_failed :
      (w : World) (x : Error)
      → (reload_token env r w).0 ≡ err x
      → (reload_token env r w).1.token ≡ w.token
  unfolding reload_token
  reload_token_failed w x e = ground arith

  reloaded_token :
      (cfg : Config) (w : World) (x : Error)
      → w.token ≡ ""
      → ((wrapping "re-bootstrap failed: %w" [] (run env cfg) >> reload_token env r) w).0 ≡ err x
      → ((wrapping "re-bootstrap failed: %w" [] (run env cfg) >> reload_token env r) w).1.token ≡ ""
  reloaded_token cfg w x cleared e =
      let same : (run env cfg w).1.token ≡ "" =
        ((run-HasSet env cfg).at w (record { same = cleared })).same in
      elim (Result-cases (run env cfg w).0) [
        | inl (_, p) ↦ rw p (reload_token_failed (run env cfg w).1 x (rw p at e) ∙ same)
        | inr (y, p) ↦ rw p same
      ]

  -- A refresh that fails once it has the bootstrap token leaves the token cleared that it has set.
  pub refresh_token_clears :
      (w : World) (x : Error) {bs : Secret}
      → r.bootstrap_secret_name ≢ ""
      → env.get_secret w.trace (bootstrap_key env r) ≡ ok bs
      → value_at bs.content r.bootstrap_secret_key ≢ ""
      → (refresh_token env r w).0 ≡ err x
      → (refresh_token env r w).1.token ≡ ""
  unfolding refresh_token
  refresh_token_clears w x {bs} configured found full e =
      let named : (r.bootstrap_secret_name == "") ≡ false =
        ground (arith, eq_iff r.bootstrap_secret_name "") in
      let usable : (value_at bs.content r.bootstrap_secret_key == "") ≡ false =
        ground (arith, eq_iff (value_at bs.content r.bootstrap_secret_key) "") in
      rw (named, found, usable)
        (reloaded_token (refresh_config env r (value_at bs.content r.bootstrap_secret_key))
          (after_bootstrap_get env r w) x refl (rw (named, found, usable) at e))
