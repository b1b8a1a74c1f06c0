-- ===== src/Examples/Residents.antt =====
-- The theorems on resident models at concrete inputs, with the mock backend.
use gpumemd.Base.{◌≡◌, ◌⊎◌, refl, false, none, some, [], Text, codes, arith, find, contains, Unique}
use gpumemd.Resource.{create, priority_fifo}
use gpumemd.Registry
use gpumemd.Registry.{ModelRecord, failed, unknown_model, snapshot}
use gpumemd.Backend.{unloading}
use gpumemd.Backend.Mock.{Allocations, mock, mock-IsBackend, is_loaded}
use gpumemd.Residency.{System}
use gpumemd.Residency.Coherent.{IsCoherent}
use gpumemd.Residency.Committing.{LoadsTo}
use gpumemd.Residency.Clients
use gpumemd.Residency.Clients.{ClientReach-Behaves}
use gpumemd.Residency.Load.{load}
use gpumemd.Residency.Loading.{load_lem}
use gpumemd.Residency.Operations.{unload, retain}
use gpumemd.Residency.Reachable.{
  Reach, start, here, next, registers, loads, retains, Reach-IsCoherent,
}
use gpumemd.Residency.Unloading.{Unloads, unload_lem}
use gpumemd.Examples.Fixtures.{bert, new_manager, host, moment}

abbrev first : System Allocations
first = start new_manager []

abbrev registered : System Allocations
registered = record first {
  registry = (Registry.register_model bert 30 (codes "v1") first.registry).0;
}

abbrev resident : System Allocations
resident = (load host bert moment registered).0

none_loaded : (id : Text) → is_loaded id [] ≡ false
unfolding is_loaded contains
none_loaded id = refl

registered-Reach : Reach host first registered
registered-Reach = next here (registers bert 30 (codes "v1") refl)

resident-Reach : Reach host first resident
resident-Reach = next registered-Reach (loads bert moment Clients.here refl)

Reach-IsCoherent_example : IsCoherent mock Unique (retain bert resident).0
unfolding create
Reach-IsCoherent_example =
    Reach-IsCoherent host Unique mock-IsBackend 100 priority_fifo new_manager []
      (retain bert resident).0 (omega arith) refl tt none_loaded
      (next resident-Reach (retains bert refl))

coherent : (s : System Allocations) → Reach host first s → IsCoherent mock Unique s
unfolding create
coherent s r =
    Reach-IsCoherent host Unique mock-IsBackend 100 priority_fifo new_manager [] s (omega arith)
      refl tt none_loaded r

registered-IsCoherent : IsCoherent mock Unique registered
registered-IsCoherent = coherent registered registered-Reach

load_lem_example :
    ((find bert registered.registry.models ≡ none)
      × ((load host bert moment registered) ≡ (registered, failed unknown_model)))
    ⊎ ((model : ModelRecord) × (find bert registered.registry.models ≡ some model)
        × (model.id ≡ bert)
        × LoadsTo mock Unique model registered (load host bert moment registered))
load_lem_example =
    load_lem host Unique mock-IsBackend moment bert registered registered-IsCoherent
      (ClientReach-Behaves moment registered.resources Clients.here registered-IsCoherent.resources)

unload_lem_example :
    Unloads host Unique
      (unloading mock-IsBackend)
      bert
      2_000
      resident
      (unload host bert 2_000 resident)
unload_lem_example =
    unload_lem host Unique (unloading mock-IsBackend) bert 2_000 resident
      (coherent resident resident-Reach)
