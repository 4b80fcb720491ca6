-- ===== src/Authentik/Quiet.antt =====
-- The client of Authentik writes nothing in the cluster.
use authentik_operator.Prelude.{ℕ, zero, suc, String}
use authentik_operator.Responses.{ApplicationResponse}
use authentik_operator.World.{Trace, Env, HttpRequest}
use authentik_operator.World.Keeps.{Keeps, IsClosed, keeps_rules, Keeps-fail}
use authentik_operator.World.Effects.{Exec}
use authentik_operator.Authentik.{
  Client, authorized, get_application, get_provider, get_oauth2_provider_by_slug,
  get_certificate_by_id, view_token_key, create_api_token,
}
use authentik_operator.Authentik.Wait.{ready_round, ready_loop, wait_for_ready}

module _ (env : Env) (c : Client) {P : Trace → Type 0} (closed : IsClosed P) where
  authorized-Keeps : (m s : String) (q : HttpRequest) → Keeps P (authorized env c m s q)
  unfolding authorized
  authorized-Keeps m s q = search keeps_rules

  get_application-Keeps : (slug : String) → Keeps P (get_application env c slug)
  unfolding get_application
  get_application-Keeps slug = search (keeps_rules, authorized-Keeps) depth 9

  get_provider-Keeps :
      (slug : String) (a : ApplicationResponse) → Keeps P (get_provider env c slug a)
  unfolding get_provider
  get_provider-Keeps slug a = search (keeps_rules, authorized-Keeps) depth 9

  pub get_oauth2_provider_by_slug-Keeps :
      (slug : String) → Keeps P (get_oauth2_provider_by_slug env c slug)
  unfolding get_oauth2_provider_by_slug
  get_oauth2_provider_by_slug-Keeps slug =
      search (keeps_rules, get_application-Keeps, get_provider-Keeps)

  pub get_certificate_by_id-Keeps : (id : String) → Keeps P (get_certificate_by_id env c id)
  unfolding get_certificate_by_id
  get_certificate_by_id-Keeps id = search (keeps_rules, authorized-Keeps)

  view_token_key-Keeps : (id : String) → Keeps P (view_token_key env c id)
  unfolding view_token_key
  view_token_key-Keeps id = search (keeps_rules, authorized-Keeps) depth 9

  pub create_api_token-Keeps : (id : String) → Keeps P (create_api_token env c id)
  unfolding create_api_token
  create_api_token-Keeps id = search (keeps_rules, authorized-Keeps, view_token_key-Keeps) depth 9

  ready_round-Keeps :
      (timeout deadline : ℕ) (again : Exec (Unit {0}))
      → Keeps P again
      → Keeps P (ready_round env c timeout deadline again)
  unfolding ready_round
  ready_round-Keeps timeout deadline again k = search keeps_rules depth 14

  ready_loop-Keeps : (fuel timeout deadline : ℕ) → Keeps P (ready_loop env c fuel timeout deadline)
  unfolding ready_loop
  ready_loop-Keeps zero timeout deadline = Keeps-fail _
  ready_loop-Keeps (suc fuel) timeout deadline =
      ready_round-Keeps timeout deadline _ (ready_loop-Keeps fuel timeout deadline)

  pub wait_for_ready-Keeps : (timeout : ℕ) → Keeps P (wait_for_ready env c timeout)
  unfolding wait_for_ready
  wait_for_ready-Keeps timeout = search (keeps_rules, ready_loop-Keeps)
