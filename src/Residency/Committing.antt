-- ===== src/Residency/Committing.antt =====
-- The second half of `load`: the reservations are replaced, and the records follow.
use gpumemd.Base.{
  ℕ, ◌≡◌, ◌≢◌, ◌⊎◌, refl, Bool, false, not, ◌||◌, ◌&&◌, Option, none, some, List, [], ◌∷◌, arith,
  Text, text_eq, text_eq_iff, find, All, Unique, Unique-assign, find-assign, is_some, Bool-cases,
  inl, inr, if◌then◌else◌,
}
use gpumemd.Resource.{Manager}
use gpumemd.Resource.Accounting.{IsConsistent}
use gpumemd.Resource.Replacing.{among}
use gpumemd.Registry.{ModelRecord, ModelError, ModelOperationResult, done, ok}
use gpumemd.Registry.Counting.{IsRegistry}
use gpumemd.Backend.{Backend, BackendOperationResult, IsBackend, succeeds}
use gpumemd.Loader
use gpumemd.Loader.{Disk, ModelLoadError, ModelLoadResult}
use gpumemd.Names.{is_empty}
use gpumemd.Residency.{
  ResidencyRecord, System, Host, Moment, BackendTry, tried, unread, resident_bytes, is_evictable,
  ids, evict_all, make_resident, load_backend, load_error, entered,
}
use gpumemd.Residency.Coherent.{Mirrors, IsCoherent}
use gpumemd.Residency.Evicting.{
  Records, Evictable, Evicted, evict_all-Evicted, among-Evictable, write-Mirrors,
}

Result-cases :
    (r : ModelLoadResult)
    → ((e : ModelLoadError) × (r ≡ Loader.failed e))
      ⊎ ((bytes : List ℕ) × (r ≡ Loader.loaded bytes))
Result-cases (Loader.failed e) = inl (e, refl)
Result-cases (Loader.loaded bytes) = inr (bytes, refl)

load_error-ne-ok : (e : ModelLoadError) → load_error e ≢ ok
load_error-ne-ok Loader.unavailable h = cc
load_error-ne-ok Loader.source_changed h = cc
load_error-ne-ok Loader.read_failure h = cc

-- Other threads keep the resource manager's invariant and do not touch the reservations of models.
pub record Behaves (moment : Moment) (m : Manager) : Type 0 where
  pub consistent : IsConsistent (moment.others m)
  pub models : (moment.others m).model_reservations ≡ m.model_reservations

-- A model that is resident and referenced.
abbrev pub is_pinned : Option ResidencyRecord → Bool
is_pinned none = false
is_pinned (some x) = x.resident && not (is_evictable x)

abbrev pub Failure : {B : Type 0} → Backend B → System B → System B × ModelOperationResult → Type 0
Failure backend s r =
    (r.1.error ≢ ok)
    × (r.0.records ≡ s.records)
    × (r.0.resources.model_reservations ≡ s.resources.model_reservations)
    × ((other : Text) → backend.is_loaded other r.0.backend ≡ backend.is_loaded other s.backend)

abbrev pub Success : {B : Type 0} → ModelRecord → System B × ModelOperationResult → Type 0
Success model r =
    (r.1 ≡ done model.footprint_bytes)
    × (resident_bytes (find model.id r.0.records) ≡ some model.footprint_bytes)

-- How `load` may leave a system: coherent, with the same registry; a failure changes no record, no
-- reservation of a model and nothing in the backend; and a model that is resident and referenced
-- keeps its record.
pub record LoadsTo {B : Type 0} (backend : Backend B) (Valid : B → Type 0) (model : ModelRecord)
    (s : System B) (r : System B × ModelOperationResult) : Type 0 where
  pub coherent : IsCoherent backend Valid r.0
  pub registry : r.0.registry ≡ s.registry
  pub outcome : Failure backend s r ⊎ Success model r
  pub keeps :
      (other : Text)
      → (is_pinned (find other s.records) ≡ false) ⊎ (find other r.0.records ≡ find other s.records)

module _ {B F : Type 0} (host : Host B F) (Valid : B → Type 0)
    (laws : IsBackend host.backend Valid) where
  open host use {backend, disk}

  -- The backend after an attempt to load `model`.
  pub record Attempt (model : ModelRecord) (b : B) (r : B × BackendOperationResult) : Type 0 where
    pub valid : Valid r.0
    pub loaded :
        (other : Text)
        → backend.is_loaded other r.0
          ≡ ((succeeds r.1 && text_eq model.id other) || backend.is_loaded other b)

  pub load_backend_cases {ℓ} :
      (P : BackendTry B → Type ℓ) (model : ModelRecord) (b : B)
      → Valid b
      → ((e : ModelError) → e ≢ ok → P (unread e))
      → ((r : B × BackendOperationResult) → Attempt model b r → P (tried r))
      → P (load_backend host model b)
  unfolding load_backend
  load_backend_cases P model b v fails attempts = elim (Bool-cases (is_empty model.source_path)) [
    | inl f ↦
        rw (f, load_backend)
          (attempts (backend.load model.id model.footprint_bytes b) (record {
            valid = laws.load-Valid model.id model.footprint_bytes b v;
            loaded = λ other. laws.is_loaded-load model.id other model.footprint_bytes b;
          }))
    | inr f ↦ elim (Result-cases (Loader.load disk model.source_path model.footprint_bytes)) [
      | inl (e, g) ↦ rw (f, g, load_backend) (fails (load_error e) (load_error-ne-ok e))
      | inr (bytes, g) ↦
          rw (f, g, load_backend)
            (attempts (backend.load_data model.id bytes b) (record {
              valid = laws.load_data-Valid model.id bytes b v;
              loaded = λ other. laws.is_loaded-load_data model.id other bytes b;
            }))
    ]
  ]

  -- A system that `load` has put `model` into the backend of.
  pub record Staged (model : ModelRecord) (s : System B) : Type 0 where
    pub registry : IsRegistry s.registry
    pub registered : find model.id s.registry.models ≡ some model
    pub valid : Valid s.backend
    pub unique : Unique s.records
    pub mirrors :
        (id : Text) (r : ResidencyRecord) → find id s.records ≡ some r → Mirrors s.registry id r
    pub reserved :
        (id : Text) → find id s.resources.model_reservations ≡ resident_bytes (find id s.records)
    pub absent : resident_bytes (find model.id s.records) ≡ none
    pub loaded :
        (id : Text)
        → backend.is_loaded id s.backend
          ≡ (text_eq model.id id || is_some (resident_bytes (find id s.records)))

  pub abandoned :
      (model : ModelRecord) (s : System B) (resources : Manager)
      → Staged model s
      → IsConsistent resources
      → resources.model_reservations ≡ s.resources.model_reservations
      → IsCoherent backend Valid
          (record s { resources = resources; backend = (backend.unload model.id s.backend).0 })
  abandoned model s resources t consistent same = record {
    registry = t.registry;
    resources = consistent;
    backend_valid = laws.unload-Valid model.id s.backend t.valid;
    unique = t.unique;
    mirrors = t.mirrors;
    reserved = λ id. rw same (t.reserved id);
    loaded = λ id. ground (
      arith,
      laws.is_loaded-unload model.id id s.backend t.valid
          (t.registry.records model.id model t.registered).valid,
      t.loaded id,
      t.absent,
      text_eq_iff model.id id,
    );
  }

  evictions-Mirrors :
      (s : System B) (evictions : Records)
      → ((id : Text) (r : ResidencyRecord) → find id s.records ≡ some r → Mirrors s.registry id r)
      → All (Evictable s.records) evictions
      → All (λ entry. Mirrors s.registry entry.0 entry.1) evictions
  evictions-Mirrors s [] m a = tt
  evictions-Mirrors s ((key, r) ∷ rest) m a = (m key r a.0.0, evictions-Mirrors s rest m a.1)

  -- What the reservations of models are once those of the evictions are replaced.
  abbrev pub ReplacedIn : ModelRecord → Records → Manager → Manager → Type 0
  ReplacedIn model evictions m m' =
      (other : Text)
      → find other m'.model_reservations ≡ (
          if text_eq model.id other
          then some model.footprint_bytes
          else if among other (ids evictions)
          then none
          else find other m.model_reservations)

  module _ (model : ModelRecord) (evictions : Records) (elapsed_ms : ℕ) (s : System B)
      (resources : Manager) where
    abbrev pub evicted : System B
    evicted = evict_all backend evictions (record s { resources = resources })

    -- The loaded model is not evicted.
    not_among :
        Staged model s
        → All (Evictable s.records) evictions
        → among model.id (ids evictions) ≡ false
    not_among t a = elim (Bool-cases (among model.id (ids evictions))) [
      | inr e ↦ e
      | inl e ↦
          let (r, at, can) =
            among-Evictable s.records evictions s.registry model.id a t.mirrors e in
          absurd (ground (arith, t.absent))
    ]

    out :
        Staged model s
        → All (Evictable s.records) evictions
        → Evicted backend Valid evictions (record s { resources = resources }) evicted
    out t a =
        evict_all-Evicted backend Valid laws evictions (record s { resources = resources })
          t.registry t.valid t.unique t.mirrors (evictions-Mirrors s evictions t.mirrors a)

    -- What is resident once the model has taken the place of the evictions.
    pub resident_after :
        Staged model s
        → All (Evictable s.records) evictions
        → (id : Text)
        → resident_bytes (find id (make_resident model elapsed_ms evicted).records) ≡ (
            if text_eq model.id id
            then some model.footprint_bytes
            else if among id (ids evictions)
            then none
            else resident_bytes (find id s.records))
    unfolding make_resident
    resident_after t a id =
        let o = out t a in
        ground (
          arith,
          find-assign model.id id (entered model elapsed_ms evicted) evicted.records,
          o.others id,
          o.gone id,
        )

    pub committed-registry :
        Staged model s
        → All (Evictable s.records) evictions
        → (make_resident model elapsed_ms evicted).registry ≡ s.registry
    unfolding make_resident
    committed-registry t a = (out t a).registry

    pub committed-IsCoherent :
        Staged model s
        → All (Evictable s.records) evictions
        → IsConsistent resources
        → ReplacedIn model evictions s.resources resources
        → IsCoherent backend Valid (make_resident model elapsed_ms evicted)
    unfolding make_resident
    committed-IsCoherent t a consistent replaced =
        let o = out t a in
        record {
          registry = rw o.registry t.registry;
          resources = rw o.resources consistent;
          backend_valid = o.valid;
          unique = Unique-assign model.id _ evicted.records o.unique;
          mirrors = rw o.registry (
              write-Mirrors model.id (entered model elapsed_ms evicted) evicted.records s.registry
                (record {
                  model = model;
                  own_id = refl;
                  registered = t.registered;
                  footprint = refl;
                  counted = refl;
                })
                o.mirrors);
          reserved = λ id.
              rw o.resources (ground (arith, replaced id, t.reserved id, resident_after t a id));
          loaded = λ id. ground (
            arith,
            o.loaded id,
            t.loaded id,
            resident_after t a id,
            not_among t a,
            text_eq_iff model.id id,
          );
        }

    pub committed-keeps :
        Staged model s
        → All (Evictable s.records) evictions
        → (other : Text)
        → (is_pinned (find other s.records) ≡ false)
          ⊎ (find other (make_resident model elapsed_ms evicted).records ≡ find other s.records)
    unfolding make_resident
    committed-keeps t a other = elim (Bool-cases (among other (ids evictions))) [
      | inl e ↦
          let (r, found, can) =
            among-Evictable s.records evictions s.registry other a t.mirrors e in
          inl (ground arith)
      | inr e ↦
          let o = out t a in
          ground (
            arith,
            find-assign model.id other (entered model elapsed_ms evicted) evicted.records,
            o.others other e,
            t.absent,
            text_eq_iff model.id other,
          )
    ]
