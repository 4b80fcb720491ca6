-- ===== src/World/Guards.antt =====
-- Predicates of the world, its token included, that an action keeps, whatever it returns.
use authentik_operator.Prelude.{
  String, Option, none, some, if◌then◌else◌, ◌≡◌, refl, Bool, true, false, List, ◌∷◌,
}
use authentik_operator.Errors.{Arg, Error, Result, ok, err}
use authentik_operator.World.{Call, World, Trace}
use authentik_operator.World.Effects.{
  Exec, pass_on, ◌>>=◌, pure, fail, lift, attempt, on_result, on_option, wrapping, check, check_now,
  perform, set_token,
}

pub record Guards (P : World → Type 0) {A : Type 0} (m : Exec A) : Type 0 where
  pub at : (w : World) → P w → P (m w).1

-- What holds of every value that an action returns, where it starts in a world with the predicate.
pub record Gives (P : World → Type 0) {A : Type 0} (Q : A → Type 0) (m : Exec A) : Type 0 where
  pub at : (w : World) → P w → (a : A) → (m w).0 ≡ ok a → Q a

module _ {P : World → Type 0} where
  Guards-pass_on :
      {A B : Type 0} (r : Result A) (f : A → Exec B)
      → ((a : A) → r ≡ ok a → Guards P (f a))
      → Guards P (pass_on r f)
  Guards-pass_on (ok a) f k = k a refl
  Guards-pass_on (err e) f k = record { at = λ w h. h }

  -- The rest may use what is known of the value.
  pub Guards-bind_Gives :
      {A B : Type 0} {Q : A → Type 0} (m : Exec A) (f : A → Exec B)
      → Guards P m
      → Gives P Q m
      → ((a : A) → Q a → Guards P (f a))
      → Guards P (m >>= f)
  Guards-bind_Gives m f km gm kf = record {
    at = λ w h. (Guards-pass_on (m w).0 f (λ a e. kf a (gm.at w h a e))).at (m w).1 (km.at w h);
  }

  pub Guards-bind :
      {A B : Type 0} (m : Exec A) (f : A → Exec B)
      → Guards P m
      → ((a : A) → Guards P (f a))
      → Guards P (m >>= f)
  Guards-bind m f km kf = record {
    at = λ w h. (Guards-pass_on (m w).0 f (λ a e. kf a)).at (m w).1 (km.at w h);
  }

  pub Guards-result :
      {A B : Type 0} (r : Result A) (f : A → Exec B) (g : Error → Exec B)
      → ((a : A) → Guards P (f a))
      → ((e : Error) → Guards P (g e))
      → Guards P (on_result r f g)
  Guards-result (ok a) f g kf kg = kf a
  Guards-result (err e) f g kf kg = kg e

  pub Guards-option :
      {A B : Type 0} (o : Option A) (m : Exec B) (f : A → Exec B)
      → Guards P m
      → ((a : A) → Guards P (f a))
      → Guards P (on_option o m f)
  Guards-option none m f km kf = km
  Guards-option (some a) m f km kf = kf a

  pub Guards-if :
      {A : Type 0} (b : Bool) (m n : Exec A)
      → Guards P m
      → Guards P n
      → Guards P (if b then m else n)
  Guards-if true m n km kn = km
  Guards-if false m n km kn = kn

  pub Guards-pure : {A : Type 0} (a : A) → Guards P (pure a)
  Guards-pure a = record { at = λ w h. h }

  pub Guards-fail : {A : Type 0} (e : Error) → Guards P (fail {A = A} e)
  Guards-fail e = record { at = λ w h. h }

  pub Guards-lift : {A : Type 0} (r : Result A) → Guards P (lift r)
  Guards-lift r = record { at = λ w h. h }

  pub Guards-check : (e : Option Error) → Guards P (check e)
  Guards-check e = record { at = λ w h. h }

  pub Guards-check_now : (e : Trace → Option Error) → Guards P (check_now e)
  Guards-check_now e = record { at = λ w h. h }

  pub Guards-attempt : {A : Type 0} (m : Exec A) → Guards P m → Guards P (attempt m)
  Guards-attempt m k = record { at = k.at }

  pub Guards-wrapping :
      {A : Type 0} (f : String) (args : List Arg) (m : Exec A)
      → Guards P m
      → Guards P (wrapping f args m)
  Guards-wrapping f args m k = record { at = k.at }

  pub Guards-set_token :
      (token : String)
      → ((w : World) → P w → P (record w { token = token }))
      → Guards P (set_token token)
  Guards-set_token token k = record { at = k }

  pub Guards-perform :
      {A : Type 0} (c : Call) (answer : Trace → Result A)
      → ((w : World) → P w → P (record w { trace = c ∷ w.trace }))
      → Guards P (perform c answer)
  Guards-perform c answer k = record { at = k }

pub ruleset guards_rules = (
  Guards-bind, Guards-result, Guards-option, Guards-if, Guards-pure, Guards-fail, Guards-lift,
  Guards-check, Guards-check_now, Guards-attempt, Guards-wrapping,
)
