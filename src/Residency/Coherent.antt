-- ===== src/Residency/Coherent.antt =====
-- The invariant that ties the residency records to the registry, to the reservations of models and to
-- the backend.
use gpumemd.Base.{◌≡◌, some, Text, find, Unique, is_some}
use gpumemd.Resource.Accounting.{IsConsistent}
use gpumemd.Registry.{Registry, ModelRecord}
use gpumemd.Registry.Counting.{IsRegistry}
use gpumemd.Backend.{Backend}
use gpumemd.Residency.{ResidencyRecord, System, resident_bytes}

-- What is known of the residency record under the key `id`: it is that of a registered model, with the
-- registry's footprint and reference count.
pub record Mirrors (registry : Registry) (id : Text) (r : ResidencyRecord) : Type 0 where
  pub model : ModelRecord
  pub own_id : r.id ≡ id
  pub registered : find id registry.models ≡ some model
  pub footprint : r.footprint_bytes ≡ model.footprint_bytes
  pub counted : r.ref_count ≡ model.ref_count

module _ {B : Type 0} (backend : Backend B) (Valid : B → Type 0) where
  pub record IsCoherent (s : System B) : Type 0 where
    pub registry : IsRegistry s.registry
    pub resources : IsConsistent s.resources
    pub backend_valid : Valid s.backend
    pub unique : Unique s.records
    pub mirrors :
        (id : Text) (r : ResidencyRecord) → find id s.records ≡ some r → Mirrors s.registry id r
    pub reserved :
        (id : Text) → find id s.resources.model_reservations ≡ resident_bytes (find id s.records)
    pub loaded :
        (id : Text) → backend.is_loaded id s.backend ≡ is_some (resident_bytes (find id s.records))
