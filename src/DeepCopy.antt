-- ===== src/DeepCopy.antt =====
-- api/v1alpha1/zz_generated.deepcopy.go: the deep copies of the custom resource and its parts. Of the
-- metadata it has the fields that the program uses; the copies of `ObjectMeta`, `Condition` and
-- `Time` are the library's, which copy these values. Where a copy lies in memory is not told:
-- a new cell is given out when its content is copied.
pub mod Memory
pub mod Structs
pub mod Rules
pub mod Steps
pub mod Readings
pub mod Copies
pub mod Apart
use authentik_operator.Prelude.{ℕ, String, Option, none, some, List, [], ◌∷◌}
use authentik_operator.Prelude.Dict.{Dict, copy}
use authentik_operator.Api.{
  AuthentikSource, SecretTarget, RolloutTargetRef, ConfigMapTarget, Condition,
}
use Memory.{Pointer, Alloc, Layout, ◌>>=◌, pure, new, load}
use Structs.{
  RolloutStruct, SpecStruct, StatusStruct, ClientStruct, ListStruct, Cell, source_layout,
  target_layout, config_map_layout, ref_layout, rollout_layout, spec_layout, status_layout,
  client_layout, clients_layout, map_layout, conditions_layout, time_layout, items_layout,
}

-- `if in == nil { return nil }; out := new(T); in.DeepCopyInto(out); return out`
unfoldable pub copy_new :
    {S : Type 0} → Layout Cell S → (S → Alloc Cell S) → Pointer → Alloc Cell Pointer
copy_new l into none = pure none
copy_new l into (some a) = load l a >>= into >>= new l

-- `for i := range *in { (*in)[i].DeepCopyInto(&(*out)[i]) }`
unfoldable pub copy_each : {S : Type 0} → (S → Alloc Cell S) → List S → Alloc Cell (List S)
copy_each into [] = pure []
copy_each into (s ∷ ss) = do s' ← into s; ss' ← copy_each into ss; pure (s' ∷ ss')

-- `*out = *in`
abbrev pub source_into : AuthentikSource → Alloc Cell AuthentikSource
source_into s = pure s

abbrev pub target_into : SecretTarget → Alloc Cell SecretTarget
target_into t = pure t

abbrev pub config_map_into : ConfigMapTarget → Alloc Cell ConfigMapTarget
config_map_into t = pure t

abbrev pub ref_into : RolloutTargetRef → Alloc Cell RolloutTargetRef
ref_into t = pure t

unfoldable pub rollout_into : RolloutStruct → Alloc Cell RolloutStruct
rollout_into r = do
  ref ← copy_new ref_layout ref_into r.target_ref
  pure (record r { target_ref = ref })

-- The loop over a map writes every entry to a new one.
abbrev pub map_into : Dict String → Alloc Cell (Dict String)
map_into m = pure (copy [] m)

unfoldable pub spec_into : SpecStruct → Alloc Cell SpecStruct
spec_into s = do
  overrides ← copy_new map_layout map_into s.secret_overrides
  config_map ← copy_new config_map_layout config_map_into s.config_map_target
  rollout ← copy_new rollout_layout rollout_into s.rollout_restart
  pure (record s {
    secret_overrides = overrides;
    config_map_target = config_map;
    rollout_restart = rollout;
  })

abbrev pub conditions_into : List Condition → Alloc Cell (List Condition)
conditions_into cs = copy_each (λ c. pure c) cs

unfoldable pub status_into : StatusStruct → Alloc Cell StatusStruct
status_into s = do
  conditions ← copy_new conditions_layout conditions_into s.conditions
  time ← copy_new time_layout (λ t. pure t) s.last_sync_time
  pure (record s { conditions = conditions; last_sync_time = time })

unfoldable pub client_into : ClientStruct → Alloc Cell ClientStruct
client_into c = do
  spec ← spec_into c.spec
  status ← status_into c.status
  pure (record c { spec = spec; status = status })

unfoldable pub list_into : ListStruct → Alloc Cell ListStruct
list_into l = do
  items ← copy_new items_layout (copy_each client_into) l.items
  pure (record l { items = items })

-- `DeepCopy` of each type
abbrev pub deep_copy_source : Pointer → Alloc Cell Pointer
deep_copy_source p = copy_new source_layout source_into p

abbrev pub deep_copy_target : Pointer → Alloc Cell Pointer
deep_copy_target p = copy_new target_layout target_into p

abbrev pub deep_copy_config_map : Pointer → Alloc Cell Pointer
deep_copy_config_map p = copy_new config_map_layout config_map_into p

abbrev pub deep_copy_ref : Pointer → Alloc Cell Pointer
deep_copy_ref p = copy_new ref_layout ref_into p

abbrev pub deep_copy_rollout : Pointer → Alloc Cell Pointer
deep_copy_rollout p = copy_new rollout_layout rollout_into p

abbrev pub deep_copy_spec : Pointer → Alloc Cell Pointer
deep_copy_spec p = copy_new spec_layout spec_into p

abbrev pub deep_copy_status : Pointer → Alloc Cell Pointer
deep_copy_status p = copy_new status_layout status_into p

abbrev pub deep_copy_client : Pointer → Alloc Cell Pointer
deep_copy_client p = copy_new client_layout client_into p

abbrev pub deep_copy_list : Pointer → Alloc Cell Pointer
deep_copy_list p = copy_new clients_layout list_into p

-- `DeepCopyObject`, of a custom resource and of a list
abbrev pub deep_copy_object : Pointer → Alloc Cell Pointer
deep_copy_object p = deep_copy_client p

abbrev pub deep_copy_list_object : Pointer → Alloc Cell Pointer
deep_copy_list_object p = deep_copy_list p
