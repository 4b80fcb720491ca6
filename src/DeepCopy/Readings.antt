-- ===== src/DeepCopy/Readings.antt =====
-- How the structs in memory are read as the values of api/v1alpha1/oidcclient_types.go, and that a
-- change of other cells is not seen.
use authentik_operator.Prelude.{ℕ, String, ◌≤◌, ◌≡◌, none, some, List, []}
use authentik_operator.Prelude.Dict.{Dict, lookup, NodupKeys}
use authentik_operator.Api.{OidcClientSpec, OidcClientStatus, OidcClient, RolloutRestart, Condition}
use authentik_operator.DeepCopy.Memory.{Pointer, Memory, Layout}
use authentik_operator.DeepCopy.Structs.{
  RolloutStruct, SpecStruct, StatusStruct, ClientStruct, ListStruct, Cell, config_map_layout,
  ref_layout, rollout_layout, map_layout, conditions_layout, time_layout, items_layout,
}
use authentik_operator.DeepCopy.Rules.{
  Reading, IsStable, KeepsFrom, Points, Points-IsStable, Each, Each-IsStable, Plain, Plain-IsStable,
}

-- A map of Go, read by its keys
abbrev pub Entries : Reading (Dict String) (Dict String)
Entries n h d v = NodupKeys d × ((k : String) → lookup k d ≡ lookup k v)

pub Entries-IsStable : IsStable Entries
Entries-IsStable = record { at = λ n m h h' s v le k r. r }

-- A nil map or slice is read as the empty one.
abbrev pub OrEmpty : {S X : Type 0} → Layout Cell S → Reading S (List X) → Reading Pointer (List X)
OrEmpty l R n h none v = v ≡ []
OrEmpty l R n h (some a) v = Points l R n h (some a) (some v)

pub OrEmpty-IsStable :
    {S X : Type 0} (l : Layout Cell S) (R : Reading S (List X))
    → IsStable R
    → IsStable (OrEmpty l R)
OrEmpty-IsStable {S} {X} l R stable = record { at = go }
  where
    go :
        (n m : ℕ) (h h' : Memory Cell) (p : Pointer) (v : List X)
        → m ≤ n
        → KeepsFrom n h h'
        → OrEmpty l R n h p v
        → OrEmpty l R m h' p v
    go n m h h' none v le k r = r
    go n m h h' (some a) v le k r =
        (Points-IsStable R stable l).at n m h h' (some a) (some v) le k r

pub record ReadsRollout (n : ℕ) (h : Memory Cell) (s : RolloutStruct) (v : RolloutRestart)
    : Type 0 where
  pub enabled : s.enabled ≡ v.enabled
  pub ref : Points ref_layout Plain n h s.target_ref v.target_ref

pub ReadsRollout-IsStable : IsStable ReadsRollout
ReadsRollout-IsStable = record {
  at = λ n m h h' s v le k r. record {
    enabled = r.enabled;
    ref =
        (Points-IsStable Plain Plain-IsStable ref_layout).at n m h h' s.target_ref v.target_ref le k
          r.ref;
  };
}

pub record ReadsSpec (n : ℕ) (h : Memory Cell) (s : SpecStruct) (v : OidcClientSpec) : Type 0 where
  pub authentik : s.authentik ≡ v.authentik
  pub target : s.target ≡ v.target
  pub profile : s.secret_profile ≡ v.secret_profile
  pub overrides : OrEmpty map_layout Entries n h s.secret_overrides v.secret_overrides
  pub config_map : Points config_map_layout Plain n h s.config_map_target v.config_map_target
  pub rollout : Points rollout_layout ReadsRollout n h s.rollout_restart v.rollout_restart

pub overrides-IsStable : IsStable (OrEmpty map_layout Entries)
overrides-IsStable = OrEmpty-IsStable map_layout Entries Entries-IsStable

pub config_map-IsStable : IsStable (Points config_map_layout Plain)
config_map-IsStable = Points-IsStable Plain Plain-IsStable config_map_layout

pub rollout-IsStable : IsStable (Points rollout_layout ReadsRollout)
rollout-IsStable = Points-IsStable ReadsRollout ReadsRollout-IsStable rollout_layout

pub ReadsSpec-IsStable : IsStable ReadsSpec
ReadsSpec-IsStable = record {
  at = λ n m h h' s v le k r. record {
    authentik = r.authentik;
    target = r.target;
    profile = r.profile;
    overrides =
        overrides-IsStable.at n m h h' s.secret_overrides v.secret_overrides le k r.overrides;
    config_map =
        config_map-IsStable.at n m h h' s.config_map_target v.config_map_target le k r.config_map;
    rollout = rollout-IsStable.at n m h h' s.rollout_restart v.rollout_restart le k r.rollout;
  };
}

pub record ReadsStatus (n : ℕ) (h : Memory Cell) (s : StatusStruct) (v : OidcClientStatus)
    : Type 0 where
  pub conditions : OrEmpty conditions_layout (Each Plain) n h s.conditions v.conditions
  pub time : Points time_layout Plain n h s.last_sync_time v.last_sync_time
  pub hash : s.secret_hash ≡ v.secret_hash

pub conditions-IsStable : IsStable (OrEmpty conditions_layout (Each (Plain {V = Condition})))
conditions-IsStable =
    OrEmpty-IsStable conditions_layout (Each Plain) (Each-IsStable Plain Plain-IsStable)

pub time-IsStable : IsStable (Points time_layout Plain)
time-IsStable = Points-IsStable Plain Plain-IsStable time_layout

pub ReadsStatus-IsStable : IsStable ReadsStatus
ReadsStatus-IsStable = record {
  at = λ n m h h' s v le k r. record {
    conditions = conditions-IsStable.at n m h h' s.conditions v.conditions le k r.conditions;
    time = time-IsStable.at n m h h' s.last_sync_time v.last_sync_time le k r.time;
    hash = r.hash;
  };
}

pub record ReadsClient (n : ℕ) (h : Memory Cell) (s : ClientStruct) (v : OidcClient) : Type 0 where
  pub name : s.name ≡ v.name
  pub namespace : s.namespace ≡ v.namespace
  pub generation : s.generation ≡ v.generation
  pub spec : ReadsSpec n h s.spec v.spec
  pub status : ReadsStatus n h s.status v.status

pub ReadsClient-IsStable : IsStable ReadsClient
ReadsClient-IsStable = record {
  at = λ n m h h' s v le k r. record {
    name = r.name;
    namespace = r.namespace;
    generation = r.generation;
    spec = ReadsSpec-IsStable.at n m h h' s.spec v.spec le k r.spec;
    status = ReadsStatus-IsStable.at n m h h' s.status v.status le k r.status;
  };
}

-- A list is read as its items.
abbrev pub ReadsList : Reading ListStruct (List OidcClient)
ReadsList n h s v = OrEmpty items_layout (Each ReadsClient) n h s.items v

pub items-IsStable : IsStable (OrEmpty items_layout (Each ReadsClient))
items-IsStable =
    OrEmpty-IsStable items_layout (Each ReadsClient)
      (Each-IsStable ReadsClient ReadsClient-IsStable)

pub ReadsList-IsStable : IsStable ReadsList
ReadsList-IsStable = record {
  at = λ n m h h' s v le k r. items-IsStable.at n m h h' s.items v le k r;
}
