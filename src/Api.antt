-- ===== src/Api.antt =====
-- api/v1alpha1/oidcclient_types.go, and the fields that the program reads or writes of the
-- Kubernetes objects.
use authentik_operator.Prelude.{ℕ, String, Bool, Option, List}
use authentik_operator.Prelude.Dict.{Dict}
use authentik_operator.Errors.{Arg, Error}

pub record NamespacedName : Type 0 where
  pub name : String
  pub namespace : String

pub record AuthentikSource : Type 0 where
  pub application_slug : String

pub record SecretTarget : Type 0 where
  pub namespace : String
  pub secret_name : String

pub record RolloutTargetRef : Type 0 where
  pub kind : String
  pub name : String
  pub namespace : String

pub record ConfigMapTarget : Type 0 where
  pub namespace : String
  pub name : String
  pub data_key : String
  pub source_key : String

pub record RolloutRestart : Type 0 where
  pub enabled : Bool
  pub target_ref : Option RolloutTargetRef

pub record OidcClientSpec : Type 0 where
  pub authentik : AuthentikSource
  pub target : SecretTarget
  pub secret_profile : String
  pub secret_overrides : Dict String
  pub config_map_target : Option ConfigMapTarget
  pub rollout_restart : Option RolloutRestart

-- `fmt.Sprintf` with its arguments kept apart; the cause is what a `%v` of an error shows.
pub record Message : Type 0 where
  pub format : String
  pub args : List Arg
  pub cause : Option Error

-- `metav1.Condition`, without the time of the last transition.
pub record Condition : Type 0 where
  pub kind : String
  pub status : String
  pub reason : String
  pub message : Message
  pub observed_generation : ℕ

pub record OidcClientStatus : Type 0 where
  pub conditions : List Condition
  pub last_sync_time : Option ℕ
  pub secret_hash : String

pub record OidcClient : Type 0 where
  pub name : String
  pub namespace : String
  pub generation : ℕ
  pub spec : OidcClientSpec
  pub status : OidcClientStatus

-- `corev1.Secret`, its data as texts
pub record Secret : Type 0 where
  pub name : String
  pub namespace : String
  pub content : Dict String

-- `applyconfigscorev1.SecretApplyConfiguration`
pub record SecretApply : Type 0 where
  pub name : String
  pub namespace : String
  pub labels : Dict String
  pub annotations : Dict String
  pub content : Dict String

-- `corev1.ConfigMap`; the map may be nil
pub record ConfigMap : Type 0 where
  pub name : String
  pub namespace : String
  pub content : Option (Dict String)

pub data Kind : Type 0 where
  deployment stateful_set : Kind

-- `appsv1.Deployment` and `appsv1.StatefulSet`: the annotations of the pod template, which may be nil
pub record Workload : Type 0 where
  pub kind : Kind
  pub name : String
  pub namespace : String
  pub annotations : Option (Dict String)

pub record Pod : Type 0 where
  pub name : String
  pub phase : String
