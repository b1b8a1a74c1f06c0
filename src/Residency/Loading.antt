-- ===== src/Residency/Loading.antt =====
-- `ModelResidencyManager::load` on all of its branches.
use gpumemd.Base.{
  ℕ, ◌≡◌, ◌≢◌, ◌⊎◌, refl, sym, ◌∙◌, ap, subst, true, false, none, some, arith, Text, text_eq_iff,
  text_eq_refl, find, All, is_some, Option-cases, Bool-cases, inl, inr, if◌then◌else◌, ltb,
}
use gpumemd.Resource
use gpumemd.Resource.Accounting.{IsConsistent}
use gpumemd.Resource.{Manager, OperationResult, ErrorCode, granted}
use gpumemd.Resource.Models.{status, replace_model_reservations}
use gpumemd.Resource.Replacing.{replace_atomic, replace-IsConsistent}
use gpumemd.Registry.{
  ModelRecord, ModelError, ModelOperationResult, failed, done, ok, insufficient_memory,
  backend_failure, unknown_model,
}
use gpumemd.Backend.{IsBackend, succeeds}
use gpumemd.Residency.{System, Host, Moment, tried, unread, resident_bytes, ids, choose_evictions}
use gpumemd.Residency.Coherent.{IsCoherent}
use gpumemd.Residency.Lookup.{find_model-snapshot}
use gpumemd.Residency.Evicting.{Records, Evictable, choose_evictions-All}
use gpumemd.Residency.Committing.{
  Behaves, LoadsTo, Staged, load_backend_cases, abandoned, committed-IsCoherent, committed-keeps,
  committed-registry, resident_after, ReplacedIn,
}
use gpumemd.Residency.Load.{is_ok, commit, load_evicting, load_model, load}

is_ok-refused : (r : OperationResult) → r.error ≢ Resource.ok → is_ok r.error ≡ false
is_ok-refused r h = ground arith

is_ok-granted : (r : OperationResult) {bytes : ℕ} → r ≡ granted bytes → is_ok r.error ≡ true
is_ok-granted r h = ground arith

module _ {B F : Type 0} (host : Host B F) (Valid : B → Type 0) (laws : IsBackend host.backend Valid)
    (moment : Moment) (model : ModelRecord) (s : System B) where
  abbrev Outcome : System B × ModelOperationResult → Type 0
  Outcome = LoadsTo host.backend Valid model s

  commit-Outcome :
      (evictions : Records) (b : B)
      → Staged host Valid laws model (record s { backend = b })
      → All (Evictable s.records) evictions
      → Behaves moment s.resources
      → ((id : Text)
          → host.backend.is_loaded id s.backend ≡ is_some (resident_bytes (find id s.records)))
      → Outcome (commit host model evictions moment (record s { backend = b }))
  unfolding commit
  commit-Outcome evictions b t a behaves loaded =
      elim (replace_atomic (ids evictions) model.id model.footprint_bytes moment.now m
        behaves.consistent) [
          | inl (refused, same) ↦
              let models = ap (λ (n : Manager). n.model_reservations) same ∙ behaves.models in
              rw (commit, is_ok-refused replaced.1 refused)
                (record {
                  coherent = abandoned host Valid laws model staged replaced.0 t consistent models;
                  registry = refl;
                  outcome = inl (
                    (λ h. cc),
                    refl,
                    models,
                    λ other. ground (
                      arith,
                      laws.is_loaded-unload model.id other b t.valid
                          (t.registry.records model.id model t.registered).valid,
                      t.loaded other,
                      loaded other,
                      t.absent,
                      text_eq_iff model.id other,
                    ),
                  );
                  keeps = λ other. inr refl;
                })
          | inr (success, models) ↦
              let new : ReplacedIn host Valid laws model evictions m replaced.0 = models in
              let fits : ReplacedIn host Valid laws model evictions s.resources replaced.0 =
                λ other. ground (arith, new other, behaves.models) in
              rw (commit, is_ok-granted replaced.1 success)
                (record {
                  coherent =
                      committed-IsCoherent host Valid laws model evictions moment.elapsed_ms staged
                        replaced.0 t a consistent fits;
                  registry =
                      committed-registry host Valid laws model evictions moment.elapsed_ms staged
                        replaced.0 t a;
                  outcome = inr (
                    refl,
                    ground (
                      arith,
                      resident_after host Valid laws model evictions moment.elapsed_ms staged
                          replaced.0 t a model.id,
                      text_eq_refl model.id,
                    ),
                  );
                  keeps =
                      committed-keeps host Valid laws model evictions moment.elapsed_ms staged
                        replaced.0 t a;
                })
        ]
    where
      m : Manager
      m = moment.others s.resources

      staged : System B
      staged = record s { backend = b }

      replaced : Manager × OperationResult
      replaced =
          replace_model_reservations (ids evictions) model.id model.footprint_bytes moment.now m

      consistent : IsConsistent replaced.0
      consistent =
          replace-IsConsistent (ids evictions) model.id model.footprint_bytes moment.now
            behaves.consistent

  unchanged :
      (error : ModelError)
      → IsCoherent host.backend Valid s
      → error ≢ ok
      → Outcome (s, failed error)
  unchanged error c h = record {
    coherent = c;
    registry = refl;
    outcome = inl (h, refl, refl, λ other. refl);
    keeps = λ other. inr refl;
  }

  load_evicting-Outcome :
      (evictions : Records)
      → IsCoherent host.backend Valid s
      → find model.id s.registry.models ≡ some model
      → resident_bytes (find model.id s.records) ≡ none
      → All (Evictable s.records) evictions
      → Behaves moment s.resources
      → Outcome (load_evicting host model evictions moment s)
  unfolding load_evicting
  load_evicting-Outcome evictions c registered absent a behaves =
      load_backend_cases host Valid laws
        (λ l. Outcome (elim l [
          | unread e ↦ (s, failed e)
          | tried (b, result) ↦
              if succeeds result
              then commit host model evictions moment (record s { backend = b })
              else (record s { backend = b }, failed backend_failure)
        ]))
        model s.backend c.backend_valid (λ e h. unchanged e c h)
        λ r attempt. elim (Bool-cases (succeeds r.1)) [
          | inl e ↦ rw e (
              commit-Outcome evictions r.0
                (record {
                  registry = c.registry;
                  registered = registered;
                  valid = attempt.valid;
                  unique = c.unique;
                  mirrors = c.mirrors;
                  reserved = c.reserved;
                  absent = absent;
                  loaded = λ id. ground (arith, attempt.loaded id, c.loaded id);
                })
                a behaves c.loaded)
          | inr e ↦
              let same : (id : Text)
                  → host.backend.is_loaded id r.0 ≡ host.backend.is_loaded id s.backend =
                λ id. ground (arith, attempt.loaded id) in
              rw e (record {
                coherent = record {
                  registry = c.registry;
                  resources = c.resources;
                  backend_valid = attempt.valid;
                  unique = c.unique;
                  mirrors = c.mirrors;
                  reserved = c.reserved;
                  loaded = λ id. same id ∙ c.loaded id;
                };
                registry = refl;
                outcome = inl ((λ h. cc), refl, refl, same);
                keeps = λ other. inr refl;
              })
        ]

  already :
      (bytes : ℕ)
      → IsCoherent host.backend Valid s
      → find model.id s.registry.models ≡ some model
      → resident_bytes (find model.id s.records) ≡ some bytes
      → Outcome (s, done bytes)
  already bytes c registered e = elim (Option-cases (find model.id s.records)) [
    | inl f ↦ absurd (ground arith)
    | inr (r, f) ↦
        let mirror = c.mirrors model.id r f in
        let same : mirror.model ≡ model = ground (arith, mirror.registered) in
        let footprint : r.footprint_bytes ≡ model.footprint_bytes =
          mirror.footprint ∙ ap (λ (m : ModelRecord). m.footprint_bytes) same in
        let is_footprint : bytes ≡ model.footprint_bytes = ground (arith, footprint) in
        record {
          coherent = c;
          registry = refl;
          outcome = inr (ap done is_footprint, e ∙ ap some is_footprint);
          keeps = λ other. inr refl;
        }
  ]

  pub load_model-Outcome :
      IsCoherent host.backend Valid s
      → find model.id s.registry.models ≡ some model
      → Behaves moment s.resources
      → Outcome (load_model host model moment s)
  unfolding load_model
  load_model-Outcome c registered behaves =
      elim (Option-cases (resident_bytes (find model.id s.records))) [
        | inr (bytes, e) ↦ rw (e, load_model) (already bytes c registered e)
        | inl e ↦ elim (Bool-cases (ltb (status s.resources).capacity model.footprint_bytes)) [
          | inl f ↦ rw (e, f, load_model) (unchanged insufficient_memory c (λ h. cc))
          | inr f ↦
              elim (Option-cases (
                choose_evictions host.long_double (status s.resources).free model.footprint_bytes
                  s.records)) [
                    | inl g ↦ rw (e, f, g, load_model) (unchanged insufficient_memory c (λ h. cc))
                    | inr (evictions, g) ↦
                        rw (e, f, g, load_model)
                          (load_evicting-Outcome evictions c registered e
                            (choose_evictions-All host.long_double (status s.resources).free
                              model.footprint_bytes s.records evictions c.unique g)
                            behaves)
                  ]
        ]
      ]

-- What `load` does to a coherent system, whichever way it returns, if other threads meanwhile keep the
-- resource manager's invariant and leave the reservations of models alone, and if the backend keeps its
-- promises, among them that its `unload` of a loaded model succeeds (`load` ignores what its two calls of
-- `unload` return). An id that is not registered is refused and changes nothing. For a registered model,
-- the system stays coherent (what is resident, what is reserved for models and what the backend holds
-- agree); a failure changes no record, no reservation of a model and nothing in the backend; a success
-- leaves the model resident with the registry's footprint; and every other resident model that is
-- referenced keeps its record.
pub load_lem :
    {B F : Type 0} (host : Host B F) (Valid : B → Type 0) (laws : IsBackend host.backend Valid)
    (moment : Moment) (id : Text) (s : System B)
    → IsCoherent host.backend Valid s
    → Behaves moment s.resources
    → ((find id s.registry.models ≡ none) × (load host id moment s ≡ (s, failed unknown_model)))
      ⊎ ((model : ModelRecord) × (find id s.registry.models ≡ some model)
          × (model.id ≡ id)
          × LoadsTo host.backend Valid model s (load host id moment s))
unfolding load
load_lem host Valid laws moment id s c behaves = elim (Option-cases (find id s.registry.models)) [
  | inl e ↦ inl (e, rw (load, find_model-snapshot id s.registry c.registry, e) refl)
  | inr (model, e) ↦
      let own = (c.registry.records id model e).own_id in
      inr (
        model,
        e,
        own,
        rw (load, find_model-snapshot id s.registry c.registry, e)
            (load_model-Outcome host Valid laws moment model s c
              (subst (λ k. find k s.registry.models ≡ some model) (sym own) e) behaves),
      )
]
