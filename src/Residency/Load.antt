-- ===== src/Residency/Load.antt =====
-- `ModelResidencyManager::load`.
use gpumemd.Base.{Bool, true, false, none, some, List, Text, ltb, if◌then◌else◌, find}
use gpumemd.Resource
use gpumemd.Resource.{Manager, OperationResult, ErrorCode}
use gpumemd.Resource.Models.{status, replace_model_reservations}
use gpumemd.Registry.{
  ModelRecord, ModelOperationResult, failed, done, unknown_model, insufficient_memory,
  backend_failure, snapshot,
}
use gpumemd.Backend.{succeeds}
use gpumemd.Residency.{
  ResidencyRecord, Host, Moment, System, unread, tried, load_backend, find_model, resident_bytes,
  choose_evictions, ids, evict_all, make_resident,
}

abbrev pub is_ok : ErrorCode → Bool
is_ok Resource.ok = true
is_ok _ = false

module _ {B F : Type 0} (host : Host B F) where
  -- From `replace_model_reservations` on, with the model in the backend.
  unfoldable pub commit :
      ModelRecord
      → List (Text × ResidencyRecord)
      → Moment
      → System B
      → System B × ModelOperationResult
  unfolding evict_all make_resident
  commit model evictions moment s =
      let (resources, acquired) =
        replace_model_reservations (ids evictions) model.id model.footprint_bytes moment.now
          (moment.others s.resources) in
      if is_ok acquired.error
      then (
        make_resident model moment.elapsed_ms
            (evict_all host.backend evictions (record s { resources = resources })),
        done model.footprint_bytes,
      )
      else (
        record s { resources = resources; backend = (host.backend.unload model.id s.backend).0 },
        failed insufficient_memory,
      )

  -- From the attempt to load on.
  unfoldable pub load_evicting :
      ModelRecord
      → List (Text × ResidencyRecord)
      → Moment
      → System B
      → System B × ModelOperationResult
  unfolding commit load_backend
  load_evicting model evictions moment s = elim (load_backend host model s.backend) [
    | unread e ↦ (s, failed e)
    | tried (b, result) ↦
        if succeeds result
        then commit model evictions moment (record s { backend = b })
        else (record s { backend = b }, failed backend_failure)
  ]

  -- For a model that is registered.
  unfoldable pub load_model : ModelRecord → Moment → System B → System B × ModelOperationResult
  unfolding load_evicting choose_evictions status
  load_model model moment s = elim (resident_bytes (find model.id s.records)) [
    | some bytes ↦ (s, done bytes)
    | none ↦
        let seen = status s.resources in
        if ltb seen.capacity model.footprint_bytes
        then (s, failed insufficient_memory)
        else elim (choose_evictions host.long_double seen.free model.footprint_bytes s.records) [
          | none ↦ (s, failed insufficient_memory)
          | some evictions ↦ load_evicting model evictions moment s
        ]
  ]

  unfoldable pub load : Text → Moment → System B → System B × ModelOperationResult
  unfolding load_model snapshot find_model
  load id moment s = elim (find_model id (snapshot s.registry)) [
    | none ↦ (s, failed unknown_model)
    | some model ↦ load_model model moment s
  ]
