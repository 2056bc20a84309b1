-- ===== src/Tests/Copies.antt =====
-- The theorem on deep copies at a concrete memory.
use cluster_api_provider_cce.Prelude.{ℕ, String, refl, Option, none, some, List, [], ◌∷◌, arith}
use cluster_api_provider_cce.Memory.{Pointer}
use cluster_api_provider_cce.Memory.Copies.{plain}
use cluster_api_provider_cce.Memory.Copies.Pointers.{pointer}
use cluster_api_provider_cce.Memory.Isolation.{stores}
use cluster_api_provider_cce.Api.Memory.{Layouts, Address, MachinePoolSpec}
use cluster_api_provider_cce.Api.Memory.Cells.{Cell}
use cluster_api_provider_cce.Api.Memory.Kinds.{pairs_kind, number_kind}
use cluster_api_provider_cce.Api.DeepCopy.{Library}
use cluster_api_provider_cce.Api.DeepCopy.Isolation.{ApiType, deep_copy, view, deep_copy-isolated}

-- Metadata as its labels, a list's as its count of remaining items.
abbrev layouts : Layouts
layouts = record {
  Meta = Pointer;
  ListMeta = Pointer;
  Condition = String;
  Domain = Pointer;
  Foreign = Unit {0};
}

abbrev values : Layouts
values = record {
  Meta = Option (List (String × String));
  ListMeta = Option ℕ;
  Condition = String;
  Domain = Option (List (String × String));
  Foreign = Unit {0};
}

abbrev library : Library layouts values
library = record {
  meta = pointer (plain (List (String × String))) pairs_kind;
  list_meta = pointer (plain ℕ) number_kind;
  condition = plain String;
  domain = pointer (plain (List (String × String))) pairs_kind;
}

abbrev spec_at : MachinePoolSpec Address
spec_at = record {
  replicas = none;
  flavor = none;
  runtime = none;
  ssh_key_name = none;
  root_volume = none;
  data_volumes = none;
  labels = some 3;
  taints = some 2;
  subnet = none;
  provider_id_list = none;
}

-- A spec at the address 4, with a taint and a label.
abbrev memory : List (Cell layouts)
memory =
    Cell.text "gpu"
    ∷ (Cell.taints (record { key = "only"; value = some 0; effect = "NoSchedule" } ∷ [])
        ∷ (Cell.slice (some 1)
            ∷ (Cell.pairs (("app", "demo") ∷ []) ∷ (Cell.machine_pool_spec spec_at ∷ []))))

abbrev spec : MachinePoolSpec Option
spec = record {
  replicas = none;
  flavor = none;
  runtime = none;
  ssh_key_name = none;
  root_volume = none;
  data_volumes = none;
  labels = some (("app", "demo") ∷ []);
  taints = some (some (record { key = "only"; value = some "gpu"; effect = "NoSchedule" } ∷ []));
  subnet = none;
  provider_id_list = none;
}

stands : (view library ApiType.machine_pool_spec).Reads 0 memory (some 4) (some spec)
stands = (
  omega arith,
  (
    spec_at,
    (
      refl,
      (
        tt,
        (
          tt,
          (
            tt,
            (
              tt,
              (
                tt,
                (
                  tt,
                  (
                    (omega arith, ((("app", "demo") ∷ []), (refl, refl))),
                    (
                      (
                        omega arith,
                        (
                          some 1,
                          (
                            refl,
                            (
                              omega arith,
                              (
                                (record { key = "only"; value = some 0; effect = "NoSchedule" }
                                    ∷ []),
                                (refl, ((refl, ((omega arith, ("gpu", (refl, refl))), refl)), tt)),
                              ),
                            ),
                          ),
                        ),
                      ),
                      (tt, tt),
                    ),
                  ),
                ),
              ),
            ),
          ),
        ),
      ),
    ),
  ),
)

deep_copy-isolated_example :
    let (q, k) = deep_copy library ApiType.machine_pool_spec (some 4) memory in
    (view library ApiType.machine_pool_spec).Reads 5
      (stores ((0, Cell.text "changed") ∷ ((3, Cell.pairs []) ∷ [])) k)
      q
      (some spec)
    × (view library ApiType.machine_pool_spec).Reads 0
        (stores ((5, Cell.text "changed") ∷ []) k)
        (some 4)
        (some spec)
deep_copy-isolated_example =
    deep_copy-isolated library ApiType.machine_pool_spec 0 memory (some 4) (some spec)
      ((0, Cell.text "changed") ∷ ((3, Cell.pairs []) ∷ [])) ((5, Cell.text "changed") ∷ []) stands
      (omega arith, (omega arith, tt)) (omega arith, tt)
