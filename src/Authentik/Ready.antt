-- ===== src/Authentik/Ready.antt =====
-- The rounds of `WaitForReady`, against the ticker.
use authentik_operator.Prelude.{
  ℕ, zero, suc, ◌+◌, ◌*◌, ◌≤◌, ap, ◌≡◌, refl, ◌≢◌, false, [], ◌∷◌, ◌++◌, arith, some, ltb,
}
use authentik_operator.Errors.{err, out_of_rounds}
use authentik_operator.World.{Call, Trace, World, Env}
use authentik_operator.World.Effects.{Exec}
use authentik_operator.Authentik.{Client, second, get_request}
use authentik_operator.Authentik.Wait.{rounds, health_url, ready_round, ready_loop, wait_for_ready}

-- How often the ticker was waited for.
unfoldable pub waits : Trace → ℕ
waits [] = 0
waits (Call.ticker_wait ∷ t) = suc (waits t)
waits (_ ∷ t) = waits t

-- From these calls on, the n-th tick comes 5n seconds later at the earliest.
abbrev pub Paced : Env → Trace → Type 0
Paced env start = (t : Trace) → env.now start + 5 * second * waits t ≤ env.now (t ++ start)

module _ (env : Env) (c : Client) (deadline : ℕ) where
  -- The calls of a round up to the tick.
  abbrev ticked : Trace → Trace
  ticked t =
      Call.ticker_wait
      ∷ Call.clock_read
      ∷ Call.http c.tls (record (get_request env c (health_url env c)) { deadline = some deadline })
      ∷ t

  ready_round_lem :
      (timeout : ℕ) (again : Exec (Unit {0})) (w : World)
      → ((ltb deadline (env.now (ticked w.trace)) ≡ false)
          → (again (record w { trace = Call.clock_read ∷ ticked w.trace })).0 ≢ err out_of_rounds)
      → (ready_round env c timeout deadline again w).0 ≢ err out_of_rounds
  unfolding ready_round
  ready_round_lem timeout again w h = ground arith

module _ (env : Env) (c : Client) (timeout : ℕ) (start : Trace) (paced : Paced env start) where
  abbrev deadline : ℕ
  deadline = env.now start + timeout

  in_time :
      (t : Trace) (w : World)
      → w.trace ≡ t ++ start
      → ltb deadline (env.now (ticked env c deadline w.trace)) ≡ false
      → env.now start + 5 * second * suc (waits t) ≤ deadline
  unfolding waits
  in_time t w at later =
      let tick = paced (ticked env c deadline t) in let late = rw at at later in ground arith

  ready_loop-ends :
      (fuel : ℕ) (t : Trace) (w : World)
      → w.trace ≡ t ++ start
      → rounds env c timeout ≤ fuel + waits t
      → 5 * second * waits t ≤ timeout
      → (ready_loop env c fuel timeout deadline w).0 ≢ err out_of_rounds
  unfolding ready_loop waits
  ready_loop-ends zero t w at enough before = λ _. omega arith
  ready_loop-ends (suc fuel) t w at enough before =
      ready_round_lem env c deadline timeout (ready_loop env c fuel timeout deadline) w λ later.
        ready_loop-ends fuel (Call.clock_read ∷ ticked env c deadline t) _
          (ap (λ u. Call.clock_read ∷ ticked env c deadline u) at) (omega arith)
          (let h = in_time t w at later in omega arith)

-- Where the n-th tick of the ticker comes 5n seconds after the start at the earliest, the bound on the
-- rounds of the loop is never reached: the loop ends by itself.
pub wait_for_ready-ends :
    (env : Env) (c : Client) (timeout : ℕ) (w : World)
    → Paced env w.trace
    → (wait_for_ready env c timeout w).0 ≢ err out_of_rounds
unfolding wait_for_ready waits
wait_for_ready-ends env c timeout w paced =
    ready_loop-ends env c timeout w.trace paced (rounds env c timeout) (Call.clock_read ∷ []) _ refl
      (omega arith) (omega arith)
