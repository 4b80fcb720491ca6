-- ===== src/Tests/Copies.antt =====
-- Deep copies of a custom resource and of a list with it.
use authentik_operator.Prelude.{
  ℕ, ◌≤◌, ◌-◌, ◌+◌, ◌≡◌, refl, Option, none, some, true, List, [], ◌∷◌, nat_eq, arith,
  if◌then◌else◌,
}
use authentik_operator.Prelude.Dict.{lookup}
use authentik_operator.Api.{OidcClient}
use authentik_operator.DeepCopy.{deep_copy_object, deep_copy_list_object}
use authentik_operator.DeepCopy.Memory.{Memory}
use authentik_operator.DeepCopy.Structs.{
  Cell, ClientStruct, map_cell, config_map_cell, ref_cell, rollout_cell, client_cell, items_cell,
  list_cell, time_cell, client_layout, clients_layout,
}
use authentik_operator.DeepCopy.Readings.{ReadsClient, ReadsList}
use authentik_operator.DeepCopy.Apart.{IsApart, deep_copy_object-IsApart, deep_copy_list-IsApart}

abbrev size : List Cell → ℕ
size [] = 0
size (c ∷ cs) = size cs + 1

abbrev nth : List Cell → ℕ → Option Cell
nth [] a = none
nth (c ∷ cs) a = let rest = nth cs (a - 1) in if nat_eq a 0 then some c else rest

nth_beyond : (cs : List Cell) (a : ℕ) → size cs ≤ a → nth cs a ≡ none
nth_beyond [] a l = refl
nth_beyond (c ∷ cs) a l = ground (arith, l, nth_beyond cs (a - 1) (omega (arith, l)))

abbrev memory : List Cell → Memory Cell
memory cs = record { next = size cs; cell = nth cs }

abbrev stored : ClientStruct
stored = record {
  name = "demo";
  namespace = "apps";
  generation = 3;
  spec = record {
    authentik = record { application_slug = "demo" };
    target = record { namespace = "apps"; secret_name = "demo-oidc" };
    secret_profile = "generic";
    secret_overrides = some 0;
    config_map_target = some 1;
    rollout_restart = some 3;
  };
  status = record { conditions = none; last_sync_time = some 4; secret_hash = "old" };
}

abbrev cells : List Cell
cells =
    map_cell (("scopes", "openid") ∷ [])
    ∷ config_map_cell
        (record { namespace = "apps"; name = "cfg"; data_key = "id"; source_key = "client_id" })
    ∷ ref_cell (record { kind = "Deployment"; name = "web"; namespace = "apps" })
    ∷ rollout_cell (record { enabled = true; target_ref = some 2 })
    ∷ time_cell 17
    ∷ client_cell stored
    ∷ items_cell (stored ∷ [])
    ∷ list_cell (record { items = some 6 })
    ∷ []

abbrev read_back : OidcClient
read_back = record {
  name = "demo";
  namespace = "apps";
  generation = 3;
  spec = record {
    authentik = record { application_slug = "demo" };
    target = record { namespace = "apps"; secret_name = "demo-oidc" };
    secret_profile = "generic";
    secret_overrides = ("scopes", "openid") ∷ [];
    config_map_target =
        some
          (record { namespace = "apps"; name = "cfg"; data_key = "id"; source_key = "client_id" });
    rollout_restart = some (record {
      enabled = true;
      target_ref = some (record { kind = "Deployment"; name = "web"; namespace = "apps" });
    });
  };
  status = record { conditions = []; last_sync_time = some 17; secret_hash = "old" };
}

reads : ReadsClient 0 (memory cells) stored read_back
unfolding lookup
reads = record {
  name = refl;
  namespace = refl;
  generation = refl;
  spec = record {
    authentik = refl;
    target = refl;
    profile = refl;
    overrides = (omega arith, ("scopes", "openid") ∷ [], refl, ((refl, tt), λ k. refl));
    config_map = (omega arith, _, refl, refl);
    rollout = (
      omega arith,
      record { enabled = true; target_ref = some 2 },
      refl,
      record { enabled = refl; ref = (omega arith, _, refl, refl) },
    );
  };
  status = record { conditions = refl; time = (omega arith, 17, refl, refl); hash = refl };
}

-- The overrides of the original are emptied after the copy.
deep_copy_object-IsApart_example :
    IsApart client_layout ReadsClient deep_copy_object (memory cells) 5 read_back 0 (map_cell [])
deep_copy_object-IsApart_example =
    deep_copy_object-IsApart (memory cells) 5 read_back 0 (map_cell []) (nth_beyond cells)
      (omega arith, stored, refl, reads)

-- A cell of the copy is written after it.
deep_copy_list-IsApart_example :
    IsApart clients_layout ReadsList deep_copy_list_object
      (memory cells)
      7
      (read_back ∷ [])
      9
      (map_cell [])
deep_copy_list-IsApart_example =
    deep_copy_list-IsApart (memory cells) 7 (read_back ∷ []) 9 (map_cell []) (nth_beyond cells)
      (omega arith, record { items = some 6 }, refl, (omega arith, stored ∷ [], refl, (reads, tt)))
