-- ===== src/Residency/Unloading.antt =====
-- `ModelResidencyManager::unload` on all of its branches.
use gpumemd.Base.{
  ℕ, ◌≡◌, ◌≢◌, refl, Bool, true, false, Option, none, some, arith, Text, text_eq, text_eq_iff, find,
  find-assign, find-erase_self, find-erase_ne, Unique-assign, Option-cases, Bool-cases, inl, inr,
  if◌then◌else◌, ◌==◌,
}
use gpumemd.Names.{valid_name}
use gpumemd.Resource.{Manager, granted, grant_waiters}
use gpumemd.Resource.Accounting.{IsConsistent, grant_waiters-IsConsistent}
use gpumemd.Resource.Invariant.{unreserve_model-IsConsistent}
use gpumemd.Resource.Replacing.{grant_waiters-models}
use gpumemd.Resource.Models
use gpumemd.Resource.Models.{unreserve_model}
use gpumemd.Registry.{
  ModelError, ModelOperationResult, failed, done, ok, unknown_model, unknown_residency,
  model_in_use, backend_failure,
}
use gpumemd.Backend.{IsUnloading, succeeds}
use gpumemd.Residency.{ResidencyRecord, System, Host, resident_bytes, is_evictable}
use gpumemd.Residency.Coherent.{IsCoherent}
use gpumemd.Residency.Lookup.{find_model-snapshot}
use gpumemd.Residency.Evicting.{write-Mirrors}
use gpumemd.Residency.Operations.{unload, leave}

abbrev pub may_evict : Option ResidencyRecord → Bool
may_evict none = false
may_evict (some x) = is_evictable x

-- Releasing the reservation of a model that has one.
release_model-held :
    (id : Text) (bytes now : ℕ) (m : Manager)
    → IsConsistent m
    → valid_name id ≡ true
    → find id m.model_reservations ≡ some bytes
    → (Models.release_model id now m
        ≡ (grant_waiters now (unreserve_model id bytes m), granted bytes))
      × IsConsistent (grant_waiters now (unreserve_model id bytes m))
      × ((other : Text)
          → find other (grant_waiters now (unreserve_model id bytes m)).model_reservations
            ≡ (if text_eq id other then none else find other m.model_reservations))
unfolding Models.release_model
release_model-held id bytes now m v valid held = (
  rw (Models.release_model, valid, held) refl,
  grant_waiters-IsConsistent now (unreserve_model-IsConsistent id bytes v held).0,
  λ other.
      rw (grant_waiters-models now (unreserve_model id bytes m))
        (elim (Bool-cases (text_eq id other)) [
          | inl e ↦
              ground (arith, find-erase_self id m.model_reservations v.models, text_eq_iff id other)
          | inr e ↦ ground (arith, find-erase_ne id other m.model_reservations)
        ]),
)

module _ {B F : Type 0} (host : Host B F) (Valid : B → Type 0)
    (laws : IsUnloading host.backend Valid) (id : Text) (now : ℕ) (s : System B) where
  open host use {backend}

  -- How `unload` may leave a system.
  pub data Unloads (r : System B × ModelOperationResult) : Type 0 where
    refused :
        (e : ModelError)
        → e ≢ ok
        → r ≡ (s, failed e)
        → may_evict (find id s.records) ≡ false
        → Unloads r
    broken :
        may_evict (find id s.records) ≡ true
        → succeeds (backend.unload id s.backend).1 ≡ false
        → r ≡ (record s { backend = (backend.unload id s.backend).0 }, failed backend_failure)
        → IsCoherent backend Valid r.0
        → Unloads r
    unloaded :
        (x : ResidencyRecord)
        → find id s.records ≡ some x
        → is_evictable x ≡ true
        → succeeds (backend.unload id s.backend).1 ≡ true
        → r.1 ≡ done x.footprint_bytes
        → IsCoherent backend Valid r.0
        → ((other : Text)
            → resident_bytes (find other r.0.records)
              ≡ (if text_eq id other then none else resident_bytes (find other s.records)))
        → Unloads r

  unknown :
      IsCoherent backend Valid s
      → find id s.registry.models ≡ none
      → may_evict (find id s.records) ≡ false
  unknown c e = elim (Option-cases (find id s.records)) [
    | inl f ↦ ground arith
    | inr (x, f) ↦ absurd (ground (arith, (c.mirrors id x f).registered))
  ]

  left :
      (x : ResidencyRecord) (m : Manager)
      → IsCoherent backend Valid s
      → find id s.records ≡ some x
      → valid_name id ≡ true
      → IsConsistent m
      → succeeds (backend.unload id s.backend).1 ≡ true
      → ((other : Text)
          → find other m.model_reservations
            ≡ (if text_eq id other then none else find other s.resources.model_reservations))
      → IsCoherent backend Valid
          (leave id x (record s { backend = (backend.unload id s.backend).0; resources = m }))
  left x m c at valid consistent succeeded fewer =
      let mirror = c.mirrors id x at in
      record {
        registry = c.registry;
        resources = consistent;
        backend_valid = laws.unload-Valid id s.backend c.backend_valid;
        unique = Unique-assign id _ s.records c.unique;
        mirrors =
            write-Mirrors id (record x { resident = false }) s.records s.registry
              (record {
                model = mirror.model;
                own_id = mirror.own_id;
                registered = mirror.registered;
                footprint = mirror.footprint;
                counted = mirror.counted;
              })
              c.mirrors;
        reserved = λ other. ground (
          arith,
          fewer other,
          c.reserved other,
          find-assign id other (record x { resident = false }) s.records,
        );
        loaded = λ other. ground (
          arith,
          laws.is_loaded-unload id other s.backend c.backend_valid valid,
          succeeded,
          c.loaded other,
          find-assign id other (record x { resident = false }) s.records,
        );
      }

  kept :
      (valid : valid_name id ≡ true)
      → IsCoherent backend Valid s
      → succeeds (backend.unload id s.backend).1 ≡ false
      → IsCoherent backend Valid (record s { backend = (backend.unload id s.backend).0 })
  kept valid c failure = record {
    registry = c.registry;
    resources = c.resources;
    backend_valid = laws.unload-Valid id s.backend c.backend_valid;
    unique = c.unique;
    mirrors = c.mirrors;
    reserved = c.reserved;
    loaded = λ other. ground (
      arith,
      laws.is_loaded-unload id other s.backend c.backend_valid valid,
      failure,
      c.loaded other,
    );
  }

  -- `unload` of a coherent system, with a backend whose own `unload` may fail if it then changes nothing
  -- that is loaded. It is refused exactly if the model is not resident or is referenced, and then changes
  -- nothing. Otherwise, if the backend fails, the result is `BackendFailure` and the system stays
  -- coherent with all its records; and if it succeeds, the result is the model's footprint, and the
  -- system is coherent, that model is not resident and every other one is as before.
  pub unload_lem : IsCoherent backend Valid s → Unloads (unload host id now s)
  unfolding unload
  unload_lem c = elim (Option-cases (find id s.registry.models)) [
    | inl e ↦
        refused unknown_model (λ h. cc)
          (rw (unload, find_model-snapshot id s.registry c.registry, e) refl) (unknown c e)
    | inr (model, e) ↦ elim (Option-cases (find id s.records)) [
      | inl f ↦
          refused unknown_residency (λ h. cc)
            (rw (unload, find_model-snapshot id s.registry c.registry, e, f) refl) (ground arith)
      | inr (x, f) ↦ elim (Bool-cases x.resident) [
        | inr g ↦
            refused unknown_residency (λ h. cc)
              (rw (unload, find_model-snapshot id s.registry c.registry, e, f, g) refl)
              (ground arith)
        | inl g ↦ elim (Bool-cases (x.ref_count == 0)) [
          | inr h ↦
              refused model_in_use (λ q. cc)
                (rw (unload, find_model-snapshot id s.registry c.registry, e, f, g, h) refl)
                (ground arith)
          | inl h ↦
              let valid = (c.registry.records id model e).valid in
              let held : find id s.resources.model_reservations ≡ some x.footprint_bytes =
                ground (arith, c.reserved id) in
              let (returned, consistent, fewer) =
                release_model-held id x.footprint_bytes now s.resources c.resources valid held in
              let known = find_model-snapshot id s.registry c.registry in
              elim (Bool-cases (succeeds (backend.unload id s.backend).1)) [
                | inr failure ↦
                    rw (unload, known, e, f, g, h, failure)
                      (broken (ground arith) failure refl (kept valid c failure))
                | inl succeeded ↦
                    rw (unload, known, e, f, g, h, succeeded, returned)
                      (unloaded x f (ground arith) succeeded refl
                        (left x
                          (grant_waiters now (unreserve_model id x.footprint_bytes s.resources)) c f
                          valid consistent succeeded fewer)
                        (λ other.
                          ground (
                            arith,
                            find-assign id other (record x { resident = false }) s.records,
                          )))
              ]
        ]
      ]
    ]
  ]
