-- ===== src/World/Keeps.antt =====
-- Predicates of the trace that an action keeps, whatever it returns.
use authentik_operator.Prelude.{
  String, Option, none, some, if◌then◌else◌, ◌≡◌, refl, List, Bool, true, false, ◌∷◌,
}
use authentik_operator.Errors.{Arg, Error, Result, ok, err}
use authentik_operator.Api.{Secret, SecretApply}
use authentik_operator.World.{Call, World, Trace, Env, Bearer}
use authentik_operator.World.Effects.{
  Exec, pass_on, ◌>>=◌, pure, fail, lift, attempt, on_result, on_option, wrapping, check, check_now,
  perform, set_token, bearer,
}

pub record Keeps (P : Trace → Type 0) {A : Type 0} (m : Exec A) : Type 0 where
  pub at : (w : World) → P w.trace → P (m w).1.trace

-- From `P` before to `Q` after.
pub record Leads (P Q : Trace → Type 0) {A : Type 0} (m : Exec A) : Type 0 where
  pub at : (w : World) → P w.trace → Q (m w).1.trace

-- What holds of every value that an action returns.
pub record Returns {A : Type 0} (Q : A → Type 0) (m : Exec A) : Type 0 where
  pub at : (w : World) (a : A) → (m w).0 ≡ ok a → Q a

-- A call that writes nothing in the cluster by the Kubernetes API.
abbrev pub is_quiet : Call → Bool
is_quiet (Call.status_update _) = false
is_quiet (Call.config_map_update _) = false
is_quiet (Call.workload_patch _ _) = false
is_quiet (Call.secret_apply _) = false
is_quiet (Call.secret_delete _) = false
is_quiet _ = true

pub record IsClosed (P : Trace → Type 0) : Type 0 where
  pub add : (c : Call) (t : Trace) → is_quiet c ≡ true → P t → P (c ∷ t)

-- A predicate that the writes of Secrets keep too.
pub record IsWide (P : Trace → Type 0) : Type 0 where
  pub closed : IsClosed P
  pub apply : (s : SecretApply) (t : Trace) → P t → P (Call.secret_apply s ∷ t)
  pub delete : (s : Secret) (t : Trace) → P t → P (Call.secret_delete s ∷ t)

module _ {P : Trace → Type 0} where
  pub Keeps-pass_on :
      {A B : Type 0} (r : Result A) (f : A → Exec B)
      → ((a : A) → Keeps P (f a))
      → Keeps P (pass_on r f)
  Keeps-pass_on (ok a) f k = k a
  Keeps-pass_on (err e) f k = record { at = λ w h. h }

  pub Keeps-bind :
      {A B : Type 0} (m : Exec A) (f : A → Exec B)
      → Keeps P m
      → ((a : A) → Keeps P (f a))
      → Keeps P (m >>= f)
  Keeps-bind m f km kf = record { at = λ w h. (Keeps-pass_on (m w).0 f kf).at (m w).1 (km.at w h) }

  Keeps-pass_on_Returns :
      {A B : Type 0} {Q : A → Type 0} (r : Result A) (f : A → Exec B)
      → ((a : A) → r ≡ ok a → Q a)
      → ((a : A) → Q a → Keeps P (f a))
      → Keeps P (pass_on r f)
  Keeps-pass_on_Returns (ok a) f q k = k a (q a refl)
  Keeps-pass_on_Returns (err e) f q k = record { at = λ w h. h }

  -- The rest may use what is known of the value.
  pub Keeps-bind_Returns :
      {A B : Type 0} {Q : A → Type 0} (m : Exec A) (f : A → Exec B)
      → Keeps P m
      → Returns Q m
      → ((a : A) → Q a → Keeps P (f a))
      → Keeps P (m >>= f)
  Keeps-bind_Returns {Q} m f km rm kf = record {
    at = λ w h. (Keeps-pass_on_Returns {Q = Q} (m w).0 f (rm.at w) kf).at (m w).1 (km.at w h);
  }

  pub Keeps-result :
      {A B : Type 0} (r : Result A) (f : A → Exec B) (g : Error → Exec B)
      → ((a : A) → Keeps P (f a))
      → ((e : Error) → Keeps P (g e))
      → Keeps P (on_result r f g)
  Keeps-result (ok a) f g kf kg = kf a
  Keeps-result (err e) f g kf kg = kg e

  pub Keeps-option :
      {A B : Type 0} (o : Option A) (m : Exec B) (f : A → Exec B)
      → Keeps P m
      → ((a : A) → Keeps P (f a))
      → Keeps P (on_option o m f)
  Keeps-option none m f km kf = km
  Keeps-option (some a) m f km kf = kf a

  pub Keeps-if :
      {A : Type 0} (b : Bool) (m n : Exec A) → Keeps P m → Keeps P n → Keeps P (if b then m else n)
  Keeps-if true m n km kn = km
  Keeps-if false m n km kn = kn

  pub Keeps-pure : {A : Type 0} (a : A) → Keeps P (pure a)
  Keeps-pure a = record { at = λ w h. h }

  pub Keeps-fail : {A : Type 0} (e : Error) → Keeps P (fail {A = A} e)
  Keeps-fail e = record { at = λ w h. h }

  pub Keeps-lift : {A : Type 0} (r : Result A) → Keeps P (lift r)
  Keeps-lift r = record { at = λ w h. h }

  pub Keeps-check : (e : Option Error) → Keeps P (check e)
  Keeps-check e = record { at = λ w h. h }

  pub Keeps-check_now : (e : Trace → Option Error) → Keeps P (check_now e)
  Keeps-check_now e = record { at = λ w h. h }

  pub Keeps-attempt : {A : Type 0} (m : Exec A) → Keeps P m → Keeps P (attempt m)
  Keeps-attempt m k = record { at = k.at }

  pub Keeps-wrapping :
      {A : Type 0} (f : String) (args : List Arg) (m : Exec A)
      → Keeps P m
      → Keeps P (wrapping f args m)
  Keeps-wrapping f args m k = record { at = k.at }

  pub Keeps-set_token : (token : String) → Keeps P (set_token token)
  Keeps-set_token token = record { at = λ w h. h }

  pub Keeps-bearer : (env : Env) (b : Bearer) → Keeps P (bearer env b)
  Keeps-bearer env b = record { at = λ w h. h }

  pub Keeps-perform :
      {A : Type 0} (c : Call) (answer : Trace → Result A)
      → ((t : Trace) → P t → P (c ∷ t))
      → Keeps P (perform c answer)
  Keeps-perform c answer k = record { at = λ w h. k w.trace h }

  pub Keeps-quiet :
      {A : Type 0} (c : Call) (answer : Trace → Result A)
      → IsClosed P
      → is_quiet c ≡ true
      → Keeps P (perform c answer)
  Keeps-quiet c answer closed q = record { at = λ w h. closed.add c w.trace q h }

module _ {P Q : Trace → Type 0} (weaken : (t : Trace) → P t → Q t) where
  pub Leads-of_Keeps : {A : Type 0} (m : Exec A) → Keeps P m → Leads P Q m
  Leads-of_Keeps m k = record { at = λ w h. weaken _ (k.at w h) }

  Leads-pass_on :
      {A B : Type 0} (r : Result A) (f : A → Exec B)
      → ((a : A) → Leads P Q (f a))
      → Leads P Q (pass_on r f)
  Leads-pass_on (ok a) f k = k a
  Leads-pass_on (err e) f k = record { at = λ w h. weaken _ h }

  pub Leads-bind :
      {A B : Type 0} (m : Exec A) (f : A → Exec B)
      → Keeps P m
      → ((a : A) → Leads P Q (f a))
      → Leads P Q (m >>= f)
  Leads-bind m f km kf = record { at = λ w h. (Leads-pass_on (m w).0 f kf).at (m w).1 (km.at w h) }

module _ {P Q : Trace → Type 0} where
  pub Leads-if :
      {A : Type 0} (b : Bool) (m n : Exec A)
      → Leads P Q m
      → Leads P Q n
      → Leads P Q (if b then m else n)
  Leads-if true m n km kn = km
  Leads-if false m n km kn = kn

  pub Leads-result :
      {A B : Type 0} (r : Result A) (f : A → Exec B) (g : Error → Exec B)
      → ((a : A) → Leads P Q (f a))
      → ((e : Error) → Leads P Q (g e))
      → Leads P Q (on_result r f g)
  Leads-result (ok a) f g kf kg = kf a
  Leads-result (err e) f g kf kg = kg e

pub ruleset keeps_rules = (
  Keeps-bind, Keeps-result, Keeps-option, Keeps-if, Keeps-pure, Keeps-fail, Keeps-lift, Keeps-check,
  Keeps-set_token, Keeps-bearer, Keeps-check_now, Keeps-attempt, Keeps-wrapping, Keeps-quiet,
)
