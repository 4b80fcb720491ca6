-- ===== src/Bootstrap/Token.antt =====
-- What `Run` and its requests do to the token that the worker has set.
use authentik_operator.Prelude.{ℕ, zero, suc, String, ◌≡◌}
use authentik_operator.Errors.{Result}
use authentik_operator.World.{Call, Trace, World, Env, HttpRequest, ExecRequest, Bearer}
use authentik_operator.World.Effects.{Exec, perform, bearer}
use authentik_operator.World.Guards.{Guards, Guards-fail, guards_rules}
use authentik_operator.Authentik.{Client, authorized, view_token_key, create_api_token}
use authentik_operator.Authentik.Wait.{ready_round, ready_loop, wait_for_ready}
use authentik_operator.Bootstrap.{
  Config, read_token, exec_get_token, check_existing, exec_key, obtain_key, run,
}

-- The token that this worker has last set.
pub record HasSet (token : String) (w : World) : Type 0 where
  pub same : w.token ≡ token

module _ (env : Env) {token : String} where
  perform-HasSet :
      {A : Type 0} (c : Call) (answer : Trace → Result A) → Guards (HasSet token) (perform c answer)
  perform-HasSet c answer = record { at = λ w h. record { same = h.same } }

  bearer-HasSet : (b : Bearer) → Guards (HasSet token) (bearer env b)
  bearer-HasSet b = record { at = λ w h. h }

  ruleset alone_rules = (guards_rules, perform-HasSet, bearer-HasSet)

  module _ (c : Client) where
    authorized-HasSet :
        (m s : String) (q : HttpRequest) → Guards (HasSet token) (authorized env c m s q)
    unfolding authorized
    authorized-HasSet m s q = search alone_rules depth 9

    view_token_key-HasSet : (id : String) → Guards (HasSet token) (view_token_key env c id)
    unfolding view_token_key
    view_token_key-HasSet id = search (alone_rules, authorized-HasSet) depth 9

    create_api_token-HasSet : (id : String) → Guards (HasSet token) (create_api_token env c id)
    unfolding create_api_token
    create_api_token-HasSet id =
        search (alone_rules, authorized-HasSet, view_token_key-HasSet) depth 9

    ready_round-HasSet :
        (timeout deadline : ℕ) (again : Exec (Unit {0}))
        → Guards (HasSet token) again
        → Guards (HasSet token) (ready_round env c timeout deadline again)
    unfolding ready_round
    ready_round-HasSet timeout deadline again k = search alone_rules depth 14

    ready_loop-HasSet :
        (fuel timeout deadline : ℕ) → Guards (HasSet token) (ready_loop env c fuel timeout deadline)
    unfolding ready_loop
    ready_loop-HasSet zero timeout deadline = Guards-fail _
    ready_loop-HasSet (suc fuel) timeout deadline =
        ready_round-HasSet timeout deadline _ (ready_loop-HasSet fuel timeout deadline)

    wait_for_ready-HasSet : (timeout : ℕ) → Guards (HasSet token) (wait_for_ready env c timeout)
    unfolding wait_for_ready
    wait_for_ready-HasSet timeout = search (alone_rules, ready_loop-HasSet)

  read_token-HasSet : (q : ExecRequest) → Guards (HasSet token) (read_token env q)
  unfolding read_token
  read_token-HasSet q = search alone_rules depth 9

  exec_get_token-HasSet : (ns : String) → Guards (HasSet token) (exec_get_token env ns)
  unfolding exec_get_token
  exec_get_token-HasSet ns = search (alone_rules, read_token-HasSet) depth 9

  exec_key-HasSet : (cfg : Config) → Guards (HasSet token) (exec_key env cfg)
  unfolding exec_key
  exec_key-HasSet cfg = search (alone_rules, exec_get_token-HasSet) depth 9

  obtain_key-HasSet : (cfg : Config) → Guards (HasSet token) (obtain_key env cfg)
  unfolding obtain_key
  obtain_key-HasSet cfg = search (alone_rules, exec_key-HasSet, create_api_token-HasSet) depth 9

  check_existing-HasSet : (cfg : Config) → Guards (HasSet token) (check_existing env cfg)
  unfolding check_existing
  check_existing-HasSet cfg = search alone_rules depth 12

  pub run-HasSet : (cfg : Config) → Guards (HasSet token) (run env cfg)
  unfolding run
  run-HasSet cfg =
      search (alone_rules, check_existing-HasSet, wait_for_ready-HasSet, obtain_key-HasSet) depth 12
