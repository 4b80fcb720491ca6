-- ===== src/Authentik/Wait.antt =====
-- `WaitForReady` of internal/authentik/client.go.
use authentik_operator.Prelude.{
  ℕ, zero, suc, ◌+◌, ◌*◌, ◌/◌, String, ◌<>◌, Bool, false, some, [], ◌∷◌, if◌then◌else◌, nat_eq, ltb,
}
use authentik_operator.Errors.{Error, num, errorf, wrapf, out_of_rounds, Result, ok, err}
use authentik_operator.World.{HttpResponse, Env}
use authentik_operator.World.Effects.{
  Exec, ◌>>=◌, ◌>>◌, pure, fail, attempt, on_option, wrapping, check, send, read_clock, wait_tick,
}
use authentik_operator.Authentik.{Client, get_request, second}

module _ (env : Env) (c : Client) where
  -- The test of an attempt's answer.
  unfoldable pub is_ready : Result HttpResponse → Bool
  is_ready (ok resp) = nat_eq resp.status 200
  is_ready (err e) = false

  abbrev pub health_url : String
  health_url = c.base_url <> "/api/v3/root/config/"

  abbrev pub not_ready : ℕ → Error
  not_ready timeout = errorf "authentik did not become ready within %s" (num timeout ∷ [])

  -- One round of the loop of `WaitForReady`, and what follows it.
  unfoldable pub ready_round : ℕ → ℕ → Exec (Unit {0}) → Exec (Unit {0})
  ready_round timeout deadline again = do
    wrapping "creating health check request: %w" [] (check (env.request_error health_url))
    answer ←
        attempt
          (send env c.tls (record (get_request env c health_url) { deadline = some deadline }))
    if is_ready answer then pure tt else do
      now ← read_clock env
      if ltb deadline now then fail (not_ready timeout) else do
        ended ← wait_tick env
        on_option ended
            (do
              later ← read_clock env
              if ltb deadline later then fail (not_ready timeout) else again)
            (λ e. fail (wrapf "context cancelled while waiting for Authentik: %w" [] e))

  -- The loop, with a bound on its rounds.
  unfoldable pub ready_loop : ℕ → ℕ → ℕ → Exec (Unit {0})
  ready_loop zero timeout deadline = fail out_of_rounds
  ready_loop (suc fuel) timeout deadline =
      let again = ready_loop fuel timeout deadline in ready_round timeout deadline again

  -- More rounds than there are ticks, one in five seconds, before the deadline.
  abbrev pub rounds : ℕ → ℕ
  rounds timeout = timeout / (5 * second) + 2

  -- `WaitForReady`
  unfoldable pub wait_for_ready : ℕ → Exec (Unit {0})
  wait_for_ready timeout = do
    start ← read_clock env
    ready_loop (rounds timeout) timeout (start + timeout)
