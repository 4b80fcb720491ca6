-- ===== src/Authentik/Short/Rules.antt =====
-- Errors that carry a bounded part of an answer, and the actions that end with such errors only.
use authentik_operator.Prelude.{
  ℕ, zero, suc, ◌+◌, ◌≤◌, String, ◌≡◌, refl, Bool, true, false, Option, some, List, [], ◌∷◌, All,
  length, take, if◌then◌else◌, arith,
}
use authentik_operator.Errors.{
  Arg, str, quoted, bytes, Error, errorf, wrapf, err_token_expired, err_provider_not_found, Result,
  ok, err,
}
use authentik_operator.Certs.{Bytes}
use authentik_operator.Responses.{TokenCreateRequest}
use authentik_operator.World.{World, Env, HttpRequest, Trace, TlsConfig}
use authentik_operator.World.Effects.{Exec, pass_on, wrap_result, ◌>>=◌, pure, fail, lift, wrapping}
use authentik_operator.Authentik.{limited}

-- The bytes of answers among the arguments of a format.
abbrev body_size : List Arg → ℕ
body_size [] = 0
body_size (bytes b ∷ args) = length b + body_size args
body_size (_ ∷ args) = body_size args

length-take : {A : Type 0} (n : ℕ) (xs : List A) → length (take n xs) ≤ n
length-take zero xs = omega arith
length-take (suc n) [] = omega arith
length-take (suc n) (x ∷ xs) = omega (arith, length-take n xs)

pub limited_size : (body : Bytes) → length (limited body) + 0 ≤ 1048576
unfolding limited
limited_size body = omega (arith, length-take 1048576 body)

module _ (env : Env) where
  -- An error that net/http or encoding/json answered.
  pub data FromLibrary : Error → Type 0 where
    request : (url : String) (e : Error) → env.request_error url ≡ some e → FromLibrary e
    send :
        (t : Trace) (tls : Option TlsConfig) (q : HttpRequest) (e : Error)
        → env.send t tls q ≡ err e
        → FromLibrary e
    application : (b : Bytes) (e : Error) → env.json.application b ≡ err e → FromLibrary e
    providers : (b : Bytes) (e : Error) → env.json.provider_list b ≡ err e → FromLibrary e
    certificate : (b : Bytes) (e : Error) → env.json.certificate b ≡ err e → FromLibrary e
    view_key : (b : Bytes) (e : Error) → env.json.view_key b ≡ err e → FromLibrary e
    marshal :
        (q : TokenCreateRequest) (e : Error) → env.json.marshal_token q ≡ err e → FromLibrary e

  module _ (name : String) where
    -- The texts among the arguments are the name that was asked for.
    abbrev pub IsNamed : Arg → Type 0
    IsNamed (str s) = s ≡ name
    IsNamed (quoted s) = s ≡ name
    IsNamed _ = Unit

    -- An error that carries at most a mebibyte of an answer, beside what a library's error says.
    pub data IsShort : Error → Type 0 where
      made :
          (f : String) (args : List Arg)
          → body_size args ≤ 1048576
          → All IsNamed args
          → IsShort (errorf f args)
      expired :
          (f : String) (args : List Arg)
          → body_size args ≤ 1048576
          → All IsNamed args
          → IsShort (wrapf f args err_token_expired)
      missing : IsShort err_provider_not_found
      library : (e : Error) → FromLibrary e → IsShort e
      wrapped : (f : String) (e : Error) → IsShort e → IsShort (wrapf f [] e)

    -- The errors that an action ends with are short.
    pub record Fails {A : Type 0} (m : Exec A) : Type 0 where
      pub at : (w : World) (e : Error) → (m w).0 ≡ err e → IsShort e

    -- A result whose error is short.
    abbrev pub ShortResult : {A : Type 0} → Result A → Type 0
    ShortResult (ok a) = Unit
    ShortResult (err e) = IsShort e

    wrap_result_short :
        {A : Type 0} (f : String) (r : Result A) → ShortResult r → ShortResult (wrap_result f [] r)
    wrap_result_short f (ok a) h = tt
    wrap_result_short f (err e) h = wrapped f e h

module _ {env : Env} {name : String} where
  pub ShortResult-err :
      {A : Type 0} (r : Result A)
      → ShortResult env name r
      → (e : Error) → r ≡ err e
      → IsShort env name e
  ShortResult-err r h e p = rw p at h

  pub err-ShortResult :
      {A : Type 0} (r : Result A)
      → ((e : Error) → r ≡ err e → IsShort env name e)
      → ShortResult env name r
  err-ShortResult (ok a) h = tt
  err-ShortResult (err e) h = h e refl

  pub Fails-lift : {A : Type 0} (r : Result A) → ShortResult env name r → Fails env name (lift r)
  Fails-lift r h = record { at = λ w. ShortResult-err r h }

  pub Fails-pass_on :
      {A B : Type 0} (r : Result A) (f : A → Exec B)
      → ShortResult env name r
      → ((a : A) → Fails env name (f a))
      → Fails env name (pass_on r f)
  Fails-pass_on (ok a) f h k = k a
  Fails-pass_on {B = B} (err x) f h k = record { at = λ w. ShortResult-err {A = B} (err x) h }

  pub Fails-bind :
      {A B : Type 0} (m : Exec A) (f : A → Exec B)
      → Fails env name m
      → ((a : A) → Fails env name (f a))
      → Fails env name (m >>= f)
  Fails-bind m f km kf = record {
    at = λ w. (Fails-pass_on (m w).0 f (err-ShortResult (m w).0 (km.at w)) kf).at (m w).1;
  }

  pub Fails-if :
      {A : Type 0} (b : Bool) (m n : Exec A)
      → Fails env name m
      → Fails env name n
      → Fails env name (if b then m else n)
  Fails-if true m n km kn = km
  Fails-if false m n km kn = kn

  pub Fails-pure : {A : Type 0} (a : A) → Fails env name (pure a)
  Fails-pure a = Fails-lift (ok a) tt

  pub Fails-fail : {A : Type 0} (e : Error) → IsShort env name e → Fails env name (fail {A = A} e)
  Fails-fail e h = Fails-lift (err e) h

  pub Fails-wrapping :
      {A : Type 0} (f : String) (m : Exec A) → Fails env name m → Fails env name (wrapping f [] m)
  Fails-wrapping f m k = record {
    at = λ w.
        ShortResult-err (wrap_result f [] (m w).0)
          (wrap_result_short env name f (m w).0 (err-ShortResult (m w).0 (k.at w)));
  }
