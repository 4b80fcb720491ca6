-- ===== src/Tests/Workers.antt =====
-- Runs of one worker beside others that set the token too.
use authentik_operator.Prelude.{
  Bool, true, false, ◌||◌, ◌++◌, ◌==◌, if◌then◌else◌, some, String, ◌≡◌, refl, ap, sym, ◌∙◌, eq_iff,
  [], ◌∷◌, inl, inr, ◌⊎◌, arith,
}
use authentik_operator.Prelude.Dict.{lookup}
use authentik_operator.Errors.{
  Error, Result, ok, err, num, quoted, bytes, foreign, status_error, err_token_expired, wrapf,
}
use authentik_operator.Api.{NamespacedName, Secret}
use authentik_operator.Hash.{value_at}
use authentik_operator.Text.{trim_slashes}
use authentik_operator.World.{Call, Trace, World, Env}
use authentik_operator.Authentik.Below.{Safe}
use authentik_operator.Authentik.{
  get_oauth2_provider_by_slug, get_application, authorized, is_unauthorized, limited,
}
use authentik_operator.Authentik.Wait.{wait_for_ready, ready_loop, ready_round, is_ready}
use authentik_operator.Authentik.Ready.{waits}
use authentik_operator.Bootstrap.{run, check_existing}
use authentik_operator.Reconciler.Token.{with_client, refresh_token, reload_token}
use authentik_operator.Reconciler.Failed.{reported}
use authentik_operator.Entry.Locked.{reads, serve_lost}
use authentik_operator.Reconciler.{reconcile}
use authentik_operator.Reconciler.Later.{IsLater}
use authentik_operator.Reconciler.Race.{deleted, reconcile_races}
use authentik_operator.Entry.{main, reconciler, serve}
use authentik_operator.Entry.Options.{Flags, default_flags}
use authentik_operator.Entry.Below.{main-Safe}
use authentik_operator.Tests.Fixtures.{
  env_with, client_with, token_secret_found, test_reconciler, request, with_token, without_token,
}
use authentik_operator.Tests.Main.{test_host}

-- The operator at an address with a slash at its end.
abbrev addressed : Flags
addressed = record default_flags { authentik_url = "https://auth.example.org/" }

-- Another worker sets the token of the Secret again and again.
abbrev busy : Env
busy = record (env_with "" 200) { shared_token = λ t own. "old-token" }

-- None, or the token of the Secret.
abbrev Known : String → Type 0
Known token = (token ≡ "") ⊎ (token ≡ "old-token")

abbrev value_of : String → Result Secret → String
value_of field (ok s) = value_at s.content field
value_of field (err _) = ""

same_value :
    (field : String) (s : Secret)
    → ok token_secret_found ≡ ok s
    → value_at s.content field ≡ value_at token_secret_found.content field
same_value field s e = ap (value_of field) (sym e)

main-Safe_example :
    Safe Known
      (trim_slashes "https://auth.example.org/")
      (main busy test_host addressed without_token).1
unfolding value_at lookup reconciler
main-Safe_example =
    main-Safe busy test_host addressed {Allowed = Known}
      (record { cleared = inl refl; others = λ t own h. inr refl }) (inl refl) (inl refl)
      (record {
        stored = λ t s e. inr (same_value "token" s e);
        bootstrap = λ t s e. inl (same_value "bootstrap_token" s e);
      })
      without_token (record { token = inl refl; requests = tt })

-- Another worker has cleared the token by the time that the custom resource was read.
abbrev clears : Trace → String → String
clears (Call.client_get _ ∷ t) own = ""
clears _ own = own

abbrev clearing : Env
clearing = record (env_with "" 403) { shared_token = clears }

reconcile_races_example :
    IsLater
      (deleted clearing test_reconciler request with_token
        (client_with "")
        token_secret_found
        token_secret_found)
      (reconcile clearing test_reconciler request with_token).1.trace
unfolding value_at lookup
reconcile_races_example =
    reconcile_races clearing test_reconciler request with_token (client_with "") token_secret_found
      token_secret_found (record { status = 403; body = [] })
      (ground (arith, eq_iff "old-token" "")) refl refl refl refl (inr refl)
      (ground (arith, eq_iff "bootstrap" "")) refl (ground (arith, eq_iff "old-token" "")) refl

is_delete : Call → Bool
is_delete (Call.secret_delete _) = true
is_delete _ = false

gone : Trace → Bool
gone [] = false
gone (c ∷ t) = is_delete c || gone t

gone-append : (rest base : Trace) → gone base ≡ true → gone (rest ++ base) ≡ true
unfolding gone
gone-append [] base h = h
gone-append (c ∷ rest) base h = ground (arith, gone-append rest base h)

-- The token Secret is there until it is deleted.
abbrev secret_at : Trace → NamespacedName → Result Secret
secret_at t key =
    if key.name == "operator-token"
    then (if gone t then err (status_error "NotFound") else ok token_secret_found)
    else ok token_secret_found

-- The API answers 403, and the context ends while the bootstrap waits.
abbrev losing : Env
losing = record (env_with "" 403) {
  get_secret = secret_at;
  cancelled = λ t. some (foreign "cancelled");
}

abbrev rejection : Error
rejection =
    wrapf "%w: %d for application %q: %s" (num 403 ∷ quoted "demo" ∷ bytes [] ∷ [])
      err_token_expired

abbrev cancellation : Error
cancellation = wrapf "re-bootstrap failed: %w" [] (
    wrapf "waiting for Authentik readiness: %w" []
      (wrapf "context cancelled while waiting for Authentik: %w" [] (foreign "cancelled")))

abbrev rejected : World
rejected =
    (with_client test_reconciler (λ c. get_oauth2_provider_by_slug losing c "demo")
      (record with_token { trace = Call.client_get request ∷ [] })).1

abbrev lost : World
lost =
    (reported losing test_reconciler (client_with "") rejection
      (refresh_token losing test_reconciler rejected).1).1

serve_lost_example :
    serve losing test_host default_flags test_reconciler
      (request ∷ request ∷ request ∷ [])
      with_token
    ≡ (
      ok tt,
      record {
        token = "";
        trace =
            reads losing test_host default_flags test_reconciler
              (request ∷ request ∷ [])
              (Call.request_wait ∷ lost.trace);
      },
    )
unfolding value_at lookup gone is_delete with_client get_oauth2_provider_by_slug get_application
    authorized is_unauthorized refresh_token run check_existing wait_for_ready ready_loop
    ready_round is_ready reload_token limited waits
serve_lost_example =
    serve_lost losing test_host default_flags test_reconciler request (request ∷ request ∷ [])
      with_token rejected (client_with "") rejection cancellation token_secret_found
      (ground (arith, eq_iff "old-token" "")) refl refl refl (ground (arith, eq_iff "bootstrap" ""))
      refl (ground (arith, eq_iff "old-token" "")) refl (ground (arith, eq_iff "operator-token" ""))
      (λ t. refl)
      (λ t later.
        let deleted_before : gone t ≡ true =
          ap gone later.1 ∙ gone-append later.0 lost.trace refl in
        rw deleted_before tt)
