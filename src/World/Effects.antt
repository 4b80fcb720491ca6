-- ===== src/World/Effects.antt =====
-- Actions that call the environment, may fail, and leave a trace. What was done before a failure
-- stays done: the world comes back beside the error too.
use authentik_operator.Prelude.{ℕ, String, Option, none, some, List, ◌∷◌}
use authentik_operator.Errors.{Arg, Error, wrapf, Result, ok, err}
use authentik_operator.Api.{
  NamespacedName, Secret, SecretApply, OidcClient, ConfigMap, Kind, Workload, Pod,
}
use authentik_operator.World.{
  TlsConfig, Bearer, fixed, shared, HttpRequest, HttpResponse, ExecRequest, ExecOutput, Call, Env,
  World, Trace,
}

abbrev pub Exec : Type 0 → Type 0
Exec A = World → Result A × World

-- `if err != nil { return err }`, with the error as it is
abbrev pub pass_on : {A B : Type 0} → Result A → (A → Exec B) → Exec B
pass_on (ok a) f w = f a w
pass_on (err e) f w = (err e, w)

infixl 5 ◌>>=◌ ◌>>◌
abbrev pub ◌>>=◌ : {A B : Type 0} → Exec A → (A → Exec B) → Exec B
◌>>=◌ m f w = let (r, w') = m w in pass_on r f w'

abbrev pub ◌>>◌ : {A B : Type 0} → Exec A → Exec B → Exec B
m >> n = m >>= λ _. n

abbrev pub pure : {A : Type 0} → A → Exec A
pure a w = (ok a, w)

abbrev pub fail : {A : Type 0} → Error → Exec A
fail e w = (err e, w)

abbrev pub lift : {A : Type 0} → Result A → Exec A
lift r w = (r, w)

-- The result of an action whose error the caller looks at.
abbrev pub attempt : {A : Type 0} → Exec A → Exec (Result A)
attempt m w = let (r, w') = m w in (ok r, w')

abbrev pub wrap_result : {A : Type 0} → String → List Arg → Result A → Result A
wrap_result f args (ok a) = ok a
wrap_result f args (err e) = err (wrapf f args e)

-- `if err != nil { return fmt.Errorf("...: %w", err) }`
abbrev pub wrapping : {A : Type 0} → String → List Arg → Exec A → Exec A
wrapping f args m w = let (r, w') = m w in (wrap_result f args r, w')

-- The two branches on an error that the caller looks at.
abbrev pub on_result : {A B : Type 0} → Result A → (A → Exec B) → (Error → Exec B) → Exec B
on_result (ok a) f g = f a
on_result (err e) f g = g e

abbrev pub on_option : {A B : Type 0} → Option A → Exec B → (A → Exec B) → Exec B
on_option none m f = m
on_option (some a) m f = f a

-- An error or its absence, as a result.
abbrev pub done : Option Error → Result (Unit {0})
done none = ok tt
done (some e) = err e

abbrev pub check : Option Error → Exec (Unit {0})
check e w = (done e, w)

-- The error of a library's constructor, which may depend on the calls made so far.
abbrev pub check_now : (Trace → Option Error) → Exec (Unit {0})
check_now e w = (done (e w.trace), w)

-- A call, with its answer from the calls before it.
abbrev pub perform : {A : Type 0} → Call → (Trace → Result A) → Exec A
perform c answer w = (answer w.trace, record w { trace = c ∷ w.trace })

abbrev pub set_token : String → Exec (Unit {0})
set_token t w = (ok tt, record w { token = t })

module _ (env : Env) where
  abbrev pub get_secret : NamespacedName → Exec Secret
  get_secret key = perform (Call.secret_get key) (λ t. env.get_secret t key)

  abbrev pub delete_secret : Secret → Exec (Unit {0})
  delete_secret s = perform (Call.secret_delete s) (λ t. done (env.delete_secret t s))

  abbrev pub apply_secret : SecretApply → Exec (Unit {0})
  apply_secret s = perform (Call.secret_apply s) (λ t. done (env.apply_secret t s))

  abbrev pub get_client : NamespacedName → Exec OidcClient
  get_client key = perform (Call.client_get key) (λ t. env.get_client t key)

  abbrev pub update_status : OidcClient → Exec (Unit {0})
  update_status c = perform (Call.status_update c) (λ t. done (env.update_status t c))

  abbrev pub get_config_map : NamespacedName → Exec ConfigMap
  get_config_map key = perform (Call.config_map_get key) (λ t. env.get_config_map t key)

  abbrev pub update_config_map : ConfigMap → Exec (Unit {0})
  update_config_map c = perform (Call.config_map_update c) (λ t. done (env.update_config_map t c))

  abbrev pub get_workload : Kind → NamespacedName → Exec Workload
  get_workload k key = perform (Call.workload_get k key) (λ t. env.get_workload t k key)

  abbrev pub patch_workload : Workload → Workload → Exec (Unit {0})
  patch_workload base new =
      perform (Call.workload_patch base new) (λ t. done (env.patch_workload t base new))

  abbrev pub send : Option TlsConfig → HttpRequest → Exec HttpResponse
  send tls q = perform (Call.http tls q) (λ t. env.send t tls q)

  abbrev pub list_pods : String → String → Exec (List Pod)
  list_pods ns selector = perform (Call.pods_list ns selector) (λ t. env.list_pods t ns selector)

  abbrev pub exec_pod : ExecRequest → Exec (ExecOutput × Option Error)
  exec_pod q = perform (Call.pod_exec q) (λ t. ok (env.exec_output t q, env.exec_error t q))

  abbrev pub read_clock : Exec ℕ
  read_clock = perform Call.clock_read (λ t. ok (env.now t))

  -- The token of the shared client. The lock around its field makes each access to it one step.
  abbrev pub held : World → String
  held w = env.shared_token w.trace w.token

  -- The token of a request that a client makes now.
  abbrev pub carried : Bearer → World → String
  carried (fixed t) w = t
  carried shared w = held w

  abbrev pub bearer : Bearer → Exec String
  bearer b w = (ok (carried b w), w)

  -- A worker asks the manager for its next request; time passes until it is there.
  abbrev pub wait_request : Exec (Unit {0})
  wait_request = perform Call.request_wait (λ t. ok tt)

  -- `select` on the context's end and the ticker
  abbrev pub wait_tick : Exec (Option Error)
  wait_tick = perform Call.ticker_wait (λ t. ok (env.cancelled t))
