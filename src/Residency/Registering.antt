-- ===== src/Residency/Registering.antt =====
-- Registrations, and the invariant.
use gpumemd.Base.{
  ℕ, ◌≡◌, false, none, some, [], arith, Text, text_eq, text_eq_iff, find, erase, contains-find,
  find-emplace, find-erase_self, find-erase_ne, Unique-erase, Option-cases, inl, inr,
}
use gpumemd.Registry
use gpumemd.Registry.{
  Registry, ModelRecord, ModelError, ModelOperationResult, failed, done, ok, snapshot,
  unknown_model, count, FileSystem, usable_size,
}
use gpumemd.Registry.Counting.{
  IsRegistry, register_model-IsRegistry, register_file-IsRegistry, remove-IsRegistry, new_record,
}
use gpumemd.Backend.{Backend}
use gpumemd.Residency.{ResidencyRecord, System, resident_bytes}
use gpumemd.Residency.Coherent.{IsCoherent}
use gpumemd.Residency.Operations.{unregister_model}

module _ {B : Type 0} (backend : Backend B) (Valid : B → Type 0) where
  -- A registry in which the records' models stand as before.
  registry-IsCoherent :
      (r : Registry) (s : System B)
      → IsCoherent backend Valid s
      → IsRegistry r
      → ((id : Text) (x : ResidencyRecord) (model : ModelRecord)
          → find id s.records ≡ some x
          → find id s.registry.models ≡ some model
          → find id r.models ≡ some model)
      → IsCoherent backend Valid (record s { registry = r })
  registry-IsCoherent r s c v same = record {
    registry = v;
    resources = c.resources;
    backend_valid = c.backend_valid;
    unique = c.unique;
    mirrors = λ id x e.
        let m = c.mirrors id x e in
        record {
          model = m.model;
          own_id = m.own_id;
          registered = same id x m.model e m.registered;
          footprint = m.footprint;
          counted = m.counted;
        };
    reserved = c.reserved;
    loaded = c.loaded;
  }

  pub register_model-IsCoherent :
      (id : Text) (bytes : ℕ) (metadata : Text) (s : System B)
      → IsCoherent backend Valid s
      → IsCoherent backend Valid
          (record s { registry = (Registry.register_model id bytes metadata s.registry).0 })
  unfolding Registry.register_model
  register_model-IsCoherent id bytes metadata s c =
      registry-IsCoherent (Registry.register_model id bytes metadata s.registry).0 s c
        (register_model-IsRegistry id bytes metadata s.registry c.registry)
        (λ other x model e f. ground (
          arith,
          find-emplace id other (new_record id metadata bytes []) s.registry.models,
          contains-find id s.registry.models,
          text_eq_iff id other,
        ))

  pub register_file-IsCoherent :
      (files : FileSystem) (id path metadata : Text) (s : System B)
      → IsCoherent backend Valid s
      → IsCoherent backend Valid
          (record s { registry = (Registry.register_file files id path metadata s.registry).0 })
  unfolding Registry.register_file
  register_file-IsCoherent files id path metadata s c =
      registry-IsCoherent (Registry.register_file files id path metadata s.registry).0 s c
        (register_file-IsRegistry files id path metadata s.registry c.registry)
        (λ other x model e f. elim (Option-cases (usable_size (files.file_size path))) [
          | inl g ↦ ground arith
          | inr (size, g) ↦ ground (
            arith,
            find-emplace id other (new_record id metadata size path) s.registry.models,
            contains-find id s.registry.models,
            text_eq_iff id other,
          )
        ])

  unregistered-IsCoherent :
      (id : Text) (s : System B)
      → IsCoherent backend Valid s
      → resident_bytes (find id s.records) ≡ none
      → IsCoherent backend Valid (record s {
        registry = record s.registry { models = erase id s.registry.models };
        records = erase id s.records;
      })
  unregistered-IsCoherent id s c absent = record {
    registry = remove-IsRegistry id s.registry c.registry;
    resources = c.resources;
    backend_valid = c.backend_valid;
    unique = Unique-erase id s.records c.unique;
    mirrors = λ other x e.
        let differs : text_eq id other ≡ false =
          ground (arith, find-erase_self id s.records c.unique, text_eq_iff id other) in
        let m = c.mirrors other x (ground (arith, find-erase_ne id other s.records)) in
        record {
          model = m.model;
          own_id = m.own_id;
          registered = ground (arith, find-erase_ne id other s.registry.models, m.registered);
          footprint = m.footprint;
          counted = m.counted;
        };
    reserved = λ other. ground (
      arith,
      c.reserved other,
      find-erase_self id s.records c.unique,
      find-erase_ne id other s.records,
      text_eq_iff id other,
    );
    loaded = λ other. ground (
      arith,
      c.loaded other,
      find-erase_self id s.records c.unique,
      find-erase_ne id other s.records,
      text_eq_iff id other,
    );
  }

  pub unregister_model-IsCoherent :
      (id : Text) (s : System B)
      → IsCoherent backend Valid s
      → IsCoherent backend Valid (unregister_model id s).0
  unfolding unregister_model Registry.unregister_model
  unregister_model-IsCoherent id s c = ground (arith, unregistered-IsCoherent id s c)
