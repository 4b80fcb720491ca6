-- ===== src/Errors.antt =====
-- Go errors: the sentinels of internal/authentik/client.go, the errors of the Kubernetes API, and
-- fmt.Errorf, whose format and arguments are kept apart (nothing in the program reads the text).
use authentik_operator.Prelude.{
  ℕ, String, Bool, true, false, List, ◌==◌, ◌≡◌, refl, ◌≢◌, ◌⊎◌, inl, inr,
}

-- An argument of a format: `%s`, `%q`, `%d`, `string(bytes)`.
pub data Arg : Type 0 where
  str : String → Arg
  quoted : String → Arg
  num : ℕ → Arg
  bytes : List ℕ → Arg

pub data Error : Type 0 where
  err_provider_not_found : Error
  err_token_expired : Error
  -- an error of the Kubernetes API server, with its reason
  status_error : String → Error
  -- an error of a library, with its text
  foreign : String → Error
  errorf : String → List Arg → Error
  -- a format with a `%w`
  wrapf : String → List Arg → Error → Error
  -- no error of the program: a loop of the model used up its rounds
  out_of_rounds : Error

pub data Result {ℓ} (A : Type ℓ) : Type ℓ where
  ok : A → Result A
  err : Error → Result A

-- `errors.Is(err, authentik.ErrTokenExpired)`
abbrev pub is_token_expired : Error → Bool
is_token_expired err_token_expired = true
is_token_expired (wrapf _ _ e) = is_token_expired e
is_token_expired _ = false

-- `apierrors.IsNotFound(err)`
abbrev pub is_not_found : Error → Bool
is_not_found (status_error reason) = reason == "NotFound"
is_not_found (wrapf _ _ e) = is_not_found e
is_not_found _ = false

pub Result-cases {ℓ} :
    {A : Type ℓ} (r : Result A) → ((a : A) × (r ≡ ok a)) ⊎ ((e : Error) × (r ≡ err e))
Result-cases (ok a) = inl (a, refl)
Result-cases (err e) = inr (e, refl)

-- A result that is no error is a value.
pub ok_of_ne-err {ℓ} :
    {A : Type ℓ} (r : Result A) → ((e : Error) → r ≢ err e) → (a : A) × (r ≡ ok a)
ok_of_ne-err (ok a) h = (a, refl)
ok_of_ne-err (err e) h = absurd (h e refl)
