-- ===== src/DeepCopy/Structs.antt =====
-- The structs of api/v1alpha1/oidcclient_types.go as they lie in memory, with pointers, and how each
-- type lies in a cell.
use authentik_operator.Prelude.{ℕ, String, Bool, refl, Option, none, some, List}
use authentik_operator.Prelude.Dict.{Dict}
use authentik_operator.Api.{
  AuthentikSource, SecretTarget, RolloutTargetRef, ConfigMapTarget, Condition,
}
use authentik_operator.DeepCopy.Memory.{Pointer, Layout}

pub record RolloutStruct : Type 0 where
  pub enabled : Bool
  pub target_ref : Pointer

pub record SpecStruct : Type 0 where
  pub authentik : AuthentikSource
  pub target : SecretTarget
  pub secret_profile : String
  pub secret_overrides : Pointer
  pub config_map_target : Pointer
  pub rollout_restart : Pointer

pub record StatusStruct : Type 0 where
  pub conditions : Pointer
  pub last_sync_time : Pointer
  pub secret_hash : String

pub record ClientStruct : Type 0 where
  pub name : String
  pub namespace : String
  pub generation : ℕ
  pub spec : SpecStruct
  pub status : StatusStruct

-- `OIDCClientList`, with the array of its items
pub record ListStruct : Type 0 where
  pub items : Pointer

-- What a cell holds: a struct, a map, or the array of a slice.
pub data Cell : Type 0 where
  source_cell : AuthentikSource → Cell
  target_cell : SecretTarget → Cell
  config_map_cell : ConfigMapTarget → Cell
  ref_cell : RolloutTargetRef → Cell
  rollout_cell : RolloutStruct → Cell
  spec_cell : SpecStruct → Cell
  status_cell : StatusStruct → Cell
  client_cell : ClientStruct → Cell
  list_cell : ListStruct → Cell
  map_cell : Dict String → Cell
  conditions_cell : List Condition → Cell
  time_cell : ℕ → Cell
  items_cell : List ClientStruct → Cell

abbrev as_source : Cell → Option AuthentikSource
as_source (source_cell s) = some s
as_source _ = none

abbrev pub source_layout : Layout Cell AuthentikSource
source_layout = record { wrap = source_cell; unwrap = as_source; unwrap_wrap = λ s. refl }

abbrev as_target : Cell → Option SecretTarget
as_target (target_cell s) = some s
as_target _ = none

abbrev pub target_layout : Layout Cell SecretTarget
target_layout = record { wrap = target_cell; unwrap = as_target; unwrap_wrap = λ s. refl }

abbrev as_config_map : Cell → Option ConfigMapTarget
as_config_map (config_map_cell s) = some s
as_config_map _ = none

abbrev pub config_map_layout : Layout Cell ConfigMapTarget
config_map_layout = record {
  wrap = config_map_cell;
  unwrap = as_config_map;
  unwrap_wrap = λ s. refl;
}

abbrev as_ref : Cell → Option RolloutTargetRef
as_ref (ref_cell s) = some s
as_ref _ = none

abbrev pub ref_layout : Layout Cell RolloutTargetRef
ref_layout = record { wrap = ref_cell; unwrap = as_ref; unwrap_wrap = λ s. refl }

abbrev as_rollout : Cell → Option RolloutStruct
as_rollout (rollout_cell s) = some s
as_rollout _ = none

abbrev pub rollout_layout : Layout Cell RolloutStruct
rollout_layout = record { wrap = rollout_cell; unwrap = as_rollout; unwrap_wrap = λ s. refl }

abbrev as_spec : Cell → Option SpecStruct
as_spec (spec_cell s) = some s
as_spec _ = none

abbrev pub spec_layout : Layout Cell SpecStruct
spec_layout = record { wrap = spec_cell; unwrap = as_spec; unwrap_wrap = λ s. refl }

abbrev as_status : Cell → Option StatusStruct
as_status (status_cell s) = some s
as_status _ = none

abbrev pub status_layout : Layout Cell StatusStruct
status_layout = record { wrap = status_cell; unwrap = as_status; unwrap_wrap = λ s. refl }

abbrev as_client : Cell → Option ClientStruct
as_client (client_cell s) = some s
as_client _ = none

abbrev pub client_layout : Layout Cell ClientStruct
client_layout = record { wrap = client_cell; unwrap = as_client; unwrap_wrap = λ s. refl }

abbrev as_clients : Cell → Option ListStruct
as_clients (list_cell s) = some s
as_clients _ = none

abbrev pub clients_layout : Layout Cell ListStruct
clients_layout = record { wrap = list_cell; unwrap = as_clients; unwrap_wrap = λ s. refl }

abbrev as_map : Cell → Option (Dict String)
as_map (map_cell s) = some s
as_map _ = none

abbrev pub map_layout : Layout Cell (Dict String)
map_layout = record { wrap = map_cell; unwrap = as_map; unwrap_wrap = λ s. refl }

abbrev as_conditions : Cell → Option (List Condition)
as_conditions (conditions_cell s) = some s
as_conditions _ = none

abbrev pub conditions_layout : Layout Cell (List Condition)
conditions_layout = record {
  wrap = conditions_cell;
  unwrap = as_conditions;
  unwrap_wrap = λ s. refl;
}

abbrev as_time : Cell → Option ℕ
as_time (time_cell s) = some s
as_time _ = none

abbrev pub time_layout : Layout Cell ℕ
time_layout = record { wrap = time_cell; unwrap = as_time; unwrap_wrap = λ s. refl }

abbrev as_items : Cell → Option (List ClientStruct)
as_items (items_cell s) = some s
as_items _ = none

abbrev pub items_layout : Layout Cell (List ClientStruct)
items_layout = record { wrap = items_cell; unwrap = as_items; unwrap_wrap = λ s. refl }
