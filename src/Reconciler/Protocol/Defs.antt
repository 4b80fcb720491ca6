-- ===== src/Reconciler/Protocol/Defs.antt =====
-- The stages of a run: each kind of write has a rank, and the ranks only rise.
use authentik_operator.Prelude.{
  ℕ, ◌≤◌, ◌<◌, leb, ltb, String, Bool, true, false, ◌≡◌, Option, none, some, List, ◌∷◌, arith,
  if◌then◌else◌,
}
use authentik_operator.Prelude.Dict.{lookup}
use authentik_operator.Errors.{Arg, Error, Result, ok, err}
use authentik_operator.Api.{SecretApply}
use authentik_operator.World.{Call, Trace, World}
use authentik_operator.World.Effects.{
  Exec, ◌>>=◌, pass_on, attempt, wrapping, on_option, on_result, perform,
}
use authentik_operator.World.Keeps.{Keeps, IsClosed, is_quiet}

-- The Secret has the label of the bootstrap.
unfoldable pub is_token_secret : SecretApply → Bool
unfolding lookup
is_token_secret s = elim (lookup "auth.kettleofketchup/component" s.labels) [
  | none ↦ false
  | some _ ↦ true
]

-- The token Secret is deleted, then stored; the target Secret is applied, then the ConfigMap, the
-- workload and last the status are written.
unfoldable pub rank : Call → ℕ
rank (Call.secret_delete _) = 1
rank (Call.secret_apply s) = if is_token_secret s then 2 else 3
rank (Call.config_map_update _) = 4
rank (Call.workload_patch _ _) = 5
rank (Call.status_update _) = 6
rank _ = 0

-- From the calls `base` on, the writes have risen to the rank `n`.
pub data Rises (base : Trace) : ℕ → Trace → Type 0 where
  start : Rises base 0 base
  quiet : {n : ℕ} {t : Trace} (c : Call) → is_quiet c ≡ true → Rises base n t → Rises base n (c ∷ t)
  write :
      {n m : ℕ} {t : Trace} (c : Call) → m ≡ rank c → n < m → Rises base n t → Rises base m (c ∷ t)

abbrev pub Below : Trace → ℕ → Trace → Type 0
Below base k t = (n : ℕ) × (n ≤ k) × Rises base n t

-- From a rank of at most `j` to a rank of at most `k`.
pub record Climbs (base : Trace) (j k : ℕ) {A : Type 0} (m : Exec A) : Type 0 where
  pub at : (w : World) → Below base j w.trace → Below base k (m w).1.trace

Below-mono :
    {base : Trace} {j k : ℕ} → leb j k ≡ true → (t : Trace) → Below base j t → Below base k t
Below-mono le t h = (h.0, ground (arith, h.1), h.2)

pub Below-IsClosed : (base : Trace) (k : ℕ) → IsClosed (Below base k)
Below-IsClosed base k = record { add = λ c t q h. (h.0, h.1, Rises.quiet c q h.2) }

module _ {base : Trace} {j k : ℕ} where
  pub Climbs-perform :
      {A : Type 0} (c : Call) (answer : Trace → Result A)
      → k ≡ rank c
      → ltb j k ≡ true
      → Climbs base j k (perform c answer)
  Climbs-perform c answer e lt = record {
    at = λ w h. (k, omega arith, Rises.write c e (ground (arith, h.1)) h.2);
  }

  -- What writes nothing.
  pub Climbs-of_Keeps :
      {A : Type 0} (m : Exec A) → leb j k ≡ true → Keeps (Below base k) m → Climbs base j k m
  Climbs-of_Keeps m le n = record { at = λ w h. n.at w (Below-mono le w.trace h) }

  pub Climbs-attempt : {A : Type 0} (m : Exec A) → Climbs base j k m → Climbs base j k (attempt m)
  Climbs-attempt m n = record { at = n.at }

  pub Climbs-wrapping :
      {A : Type 0} (f : String) (args : List Arg) (m : Exec A)
      → Climbs base j k m
      → Climbs base j k (wrapping f args m)
  Climbs-wrapping f args m n = record { at = n.at }

  pub Climbs-option :
      {A B : Type 0} (o : Option A) (m : Exec B) (f : A → Exec B)
      → Climbs base j k m
      → ((a : A) → Climbs base j k (f a))
      → Climbs base j k (on_option o m f)
  Climbs-option none m f km kf = km
  Climbs-option (some a) m f km kf = kf a

  pub Climbs-result :
      {A B : Type 0} (r : Result A) (f : A → Exec B) (g : Error → Exec B)
      → ((a : A) → Climbs base j k (f a))
      → ((e : Error) → Climbs base j k (g e))
      → Climbs base j k (on_result r f g)
  Climbs-result (ok a) f g kf kg = kf a
  Climbs-result (err e) f g kf kg = kg e

  pub Climbs-if :
      {A : Type 0} (b : Bool) (m n : Exec A)
      → Climbs base j k m
      → Climbs base j k n
      → Climbs base j k (if b then m else n)
  Climbs-if true m n km kn = km
  Climbs-if false m n km kn = kn

  pass_on-Climbs :
      {A B : Type 0} (r : Result A) (f : A → Exec B)
      → leb j k ≡ true
      → ((a : A) → Climbs base j k (f a))
      → Climbs base j k (pass_on r f)
  pass_on-Climbs (ok a) f le n = n a
  pass_on-Climbs (err e) f le n = record { at = λ w h. Below-mono le w.trace h }

-- One part after the other.
pub Climbs-seq :
    (j : ℕ) {base : Trace} {A B : Type 0} {i k : ℕ} (m : Exec A) (f : A → Exec B)
    → Climbs base i j m
    → ((a : A) → Climbs base j k (f a))
    → leb j k ≡ true
    → Climbs base i k (m >>= f)
Climbs-seq j m f km kf le = record {
  at = λ w h. (pass_on-Climbs (m w).0 f le kf).at (m w).1 (km.at w h);
}

-- The first part writes nothing.
pub Climbs-bind :
    {base : Trace} {A B : Type 0} {j k : ℕ} (m : Exec A) (f : A → Exec B)
    → Keeps (Below base j) m
    → ((a : A) → Climbs base j k (f a))
    → leb j k ≡ true
    → Climbs base j k (m >>= f)
Climbs-bind {j} m f km kf le = Climbs-seq j m f (Climbs-of_Keeps m (ground arith) km) kf le

pub ruleset climbs_rules = (
  Climbs-result, Climbs-option, Climbs-if, Climbs-attempt, Climbs-wrapping, Climbs-bind,
  Climbs-of_Keeps,
)
