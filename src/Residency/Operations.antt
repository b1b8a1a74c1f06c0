-- ===== src/Residency/Operations.antt =====
-- The other operations of `ModelResidencyManager`.
use gpumemd.Base.{
  ℕ, Bool, true, false, not, Option, none, some, List, [], map, Text, text_lt, ◌==◌, if◌then◌else◌,
  find, assign, emplace, erase, sort, is_some,
}
use gpumemd.Resource
use gpumemd.Resource.{ErrorCode}
use gpumemd.Resource.Models
use gpumemd.Registry
use gpumemd.Registry.{
  Registry, ModelRecord, ModelError, ModelOperationResult, failed, done, ok, unknown_model,
  model_in_use, unknown_residency, backend_failure, backend_unsupported, snapshot,
}
use gpumemd.Backend
use gpumemd.Backend.{Backend, BackendError, BackendShareResult, succeeds}
use gpumemd.Residency.{ResidencyRecord, Host, System, find_model, resident_bytes}

abbrev pub is_done : ModelError → Bool
is_done ok = true
is_done _ = false

abbrev is_granted : ErrorCode → Bool
is_granted Resource.ok = true
is_granted _ = false

abbrev pub absent : {B : Type 0} → Text → System B → Bool
absent id s = not (is_some (find_model id (snapshot s.registry)))

abbrev pub leave : {B : Type 0} → Text → ResidencyRecord → System B → System B
leave id r s = record s { records = assign id (record r { resident = false }) s.records }

abbrev pub resident_record : Option ResidencyRecord → Option ResidencyRecord
resident_record none = none
resident_record (some r) = if r.resident then some r else none

module _ {B F : Type 0} (host : Host B F) where
  unfoldable pub unload : Text → ℕ → System B → System B × ModelOperationResult
  unfolding find_model snapshot
  unload id now s =
      if absent id s
      then (s, failed unknown_model)
      else elim (resident_record (find id s.records)) [
        | none ↦ (s, failed unknown_residency)
        | some r ↦
            if not (r.ref_count == 0)
            then (s, failed model_in_use)
            else let (b, unloaded) = host.backend.unload id s.backend in
              if not (succeeds unloaded)
              then (record s { backend = b }, failed backend_failure)
              else let (resources, released) = Models.release_model id now s.resources in
                if is_granted released.error
                then (
                  leave id r (record s { backend = b; resources = resources }),
                  done r.footprint_bytes,
                )
                else (
                  record s {
                    backend = (host.backend.load id r.footprint_bytes b).0;
                    resources = resources;
                  },
                  failed unknown_residency,
                )
      ]

pub record ModelShareResult : Type 0 where
  pub error : ModelError
  pub amount : ℕ
  pub token : Text

abbrev no_share : ModelError → ModelShareResult
no_share e = record { error = e; amount = 0; token = [] }

abbrev share_result : BackendError → BackendShareResult → ModelShareResult
share_result Backend.ok shared = record { error = ok; amount = shared.amount; token = shared.token }
share_result Backend.unsupported shared = no_share backend_unsupported
share_result _ shared = no_share backend_failure

unfoldable pub share : {B F : Type 0} → Host B F → Text → System B → ModelShareResult
unfolding find_model snapshot
share host id s =
    if absent id s then no_share unknown_model else elim (resident_record (find id s.records)) [
      | none ↦ no_share unknown_residency
      | some r ↦ let shared = host.backend.share id s.backend in share_result shared.error shared
    ]

-- A record made when a model is first retained or released: not resident.
abbrev pub not_resident : ModelRecord → ℕ → ResidencyRecord
not_resident model refs = record {
  id = model.id;
  footprint_bytes = model.footprint_bytes;
  ref_count = refs;
  resident = false;
  last_loaded = 0;
  load_count = 0;
  estimated_load_cost_ms = 0;
}

-- `records_.try_emplace(...)`, and the new count if the record was there.
unfoldable pub count_refs :
    ModelRecord → ℕ → List (Text × ResidencyRecord) → List (Text × ResidencyRecord)
count_refs model refs records = elim (find model.id records) [
  | none ↦ emplace model.id (not_resident model refs) records
  | some r ↦ assign model.id (record r { ref_count = refs }) records
]

-- What `retain` and `release_model` do with the registry's result.
abbrev pub after_counting :
    {B : Type 0}
    → ModelRecord
    → System B
    → Registry × ModelOperationResult
    → System B × ModelOperationResult
after_counting model s (registry, result) =
    if is_done result.error
    then (
      record s { registry = registry; records = count_refs model result.amount s.records },
      result,
    )
    else (record s { registry = registry }, result)

abbrev by_id : ResidencyRecord → ResidencyRecord → Bool
by_id left right = text_lt left.id right.id

module _ {B : Type 0} where
  unfoldable pub retain : Text → System B → System B × ModelOperationResult
  unfolding find_model snapshot count_refs
  retain id s = elim (find_model id (snapshot s.registry)) [
    | none ↦ (s, failed unknown_model)
    | some model ↦ after_counting model s (Registry.retain id s.registry)
  ]

  unfoldable pub release_model : Text → System B → System B × ModelOperationResult
  unfolding find_model snapshot count_refs
  release_model id s = elim (find_model id (snapshot s.registry)) [
    | none ↦ (s, failed unknown_model)
    | some model ↦ after_counting model s (Registry.release_model id s.registry)
  ]

  unfoldable pub unregister_model : Text → System B → System B × ModelOperationResult
  unregister_model id s =
      if is_some (resident_bytes (find id s.records))
      then (s, failed model_in_use)
      else let (registry, result) = Registry.unregister_model id s.registry in
        if is_done result.error
        then (record s { registry = registry; records = erase id s.records }, result)
        else (record s { registry = registry }, result)

  unfoldable pub residency : System B → List ResidencyRecord
  residency s = sort by_id (map (λ entry. entry.1) s.records)
