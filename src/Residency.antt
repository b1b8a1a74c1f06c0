-- ===== src/Residency.antt =====
-- include/gpumemd/model_residency.hpp and src/core/model_residency.cpp: which models are resident.
-- The manager holds its own mutex through each operation. The registry and the resource manager have
-- mutexes of their own, so that between its calls of them other threads may come in: `others` is what
-- they do to the resource manager between `status` and `replace_model_reservations`.
pub mod Load
pub mod Operations
pub mod Coherent
pub mod Lookup
pub mod Evicting
pub mod Committing
pub mod Loading
pub mod Unloading
pub mod Counted
pub mod Registering
pub mod Clients
pub mod Reachable
use gpumemd.Base.{
  ℕ, zero, suc, ◌+◌, Bool, true, false, not, ◌&&◌, ◌||◌, Option, none, some, List, [], ◌∷◌, map,
  Text, text_eq, text_lt, find_if, max, ltb, ◌==◌, if◌then◌else◌, find, contains, emplace, assign,
  erase, add64, sort,
}
use gpumemd.Names.{is_empty}
use gpumemd.Resource
use gpumemd.Resource.{Manager}
use gpumemd.Resource.Models.{status, replace_model_reservations}
use gpumemd.Resource.Models
use gpumemd.Registry
use gpumemd.Registry.{
  Registry, ModelRecord, ModelError, ModelOperationResult, failed, done, ok, unknown_model,
  model_in_use, unknown_residency, insufficient_memory, backend_failure, file_unavailable,
  source_changed, read_failure, backend_unsupported, snapshot,
}
use gpumemd.Backend
use gpumemd.Backend.{Backend, BackendOperationResult, BackendShareResult, BackendError, succeeds}
use gpumemd.Loader
use gpumemd.Loader.{Disk, ModelLoadError, ModelLoadResult}

pub record ResidencyRecord : Type 0 where
  pub id : Text
  pub footprint_bytes : ℕ
  pub ref_count : ℕ
  pub resident : Bool
  pub last_loaded : ℕ
  pub load_count : ℕ
  pub estimated_load_cost_ms : ℕ

-- `long double`: conversion from an integer, product, quotient and comparison.
pub record LongDouble (F : Type 0) : Type 0 where
  pub of_nat : ℕ → F
  pub times : F → F → F
  pub divide : F → F → F
  pub less : F → F → Bool

-- What the manager runs on, beside the state that it changes.
pub record Host (B F : Type 0) : Type 0 where
  pub backend : Backend B
  pub disk : Disk
  pub long_double : LongDouble F

-- One `load`: the time that it took, the time at which reservations change, and what other threads
-- have done to the resource manager meanwhile.
pub record Moment : Type 0 where
  pub elapsed_ms : ℕ
  pub now : ℕ
  pub others : Manager → Manager

pub record System (B : Type 0) : Type 0 where
  pub registry : Registry
  pub resources : Manager
  pub backend : B
  pub records : List (Text × ResidencyRecord)
  pub next_loaded : ℕ

abbrev pub has_id : Text → ModelRecord → Bool
has_id id model = text_eq model.id id

unfoldable pub find_model : Text → List ModelRecord → Option ModelRecord
find_model id = find_if (has_id id)

-- The bytes of a model that is resident.
abbrev pub resident_bytes : Option ResidencyRecord → Option ℕ
resident_bytes none = none
resident_bytes (some record') = if record'.resident then some record'.footprint_bytes else none

-- `record.resident && record.ref_count == 0`
abbrev pub is_evictable : ResidencyRecord → Bool
is_evictable r = r.resident && r.ref_count == 0

unfoldable pub evictable : List (Text × ResidencyRecord) → List (Text × ResidencyRecord)
evictable [] = []
evictable ((key, r) ∷ rest) = if is_evictable r then (key, r) ∷ evictable rest else evictable rest

-- The loop that counts how many are needed, and `evictions.resize(needed_count)`: `none` if all of
-- them are too few.
unfoldable pub take_needed :
    ℕ → ℕ → List (Text × ResidencyRecord) → Option (List (Text × ResidencyRecord))
take_needed available footprint [] = if ltb available footprint then none else some []
take_needed available footprint ((key, r) ∷ rest) =
    let more = take_needed (add64 available r.footprint_bytes) footprint rest in
    if ltb available footprint
    then elim more [ none ↦ none | some taken ↦ some ((key, r) ∷ taken) ]
    else some []

module _ {F : Type 0} (long_double : LongDouble F) where
  open long_double use {of_nat, times, divide, less}

  -- The order in which models are evicted.
  score : ResidencyRecord → F
  score r =
      divide
        (times (times (of_nat r.last_loaded) (of_nat (max r.estimated_load_cost_ms 1)))
          (of_nat (add64 r.load_count 1)))
        (of_nat (max r.footprint_bytes 1))

  pub by_score : Text × ResidencyRecord → Text × ResidencyRecord → Bool
  unfolding score
  by_score left right = less (score left.1) (score right.1)

  unfoldable pub choose_evictions :
      ℕ → ℕ → List (Text × ResidencyRecord) → Option (List (Text × ResidencyRecord))
  unfolding evictable take_needed by_score sort
  choose_evictions available footprint records =
      if ltb available footprint
      then take_needed available footprint (sort by_score (evictable records))
      else some []

abbrev pub load_error : ModelLoadError → ModelError
load_error Loader.unavailable = file_unavailable
load_error Loader.source_changed = source_changed
load_error Loader.read_failure = read_failure

-- The backend's side of a load: an error of the loader, or the backend after the attempt.
pub data BackendTry (B : Type 0) : Type 0 where
  unread : ModelError → BackendTry B
  tried : B × BackendOperationResult → BackendTry B

unfoldable pub load_backend : {B F : Type 0} → Host B F → ModelRecord → B → BackendTry B
load_backend host model b =
    if is_empty model.source_path
    then tried (host.backend.load model.id model.footprint_bytes b)
    else elim (Loader.load host.disk model.source_path model.footprint_bytes) [
      | Loader.failed e ↦ unread (load_error e)
      | Loader.loaded bytes ↦ tried (host.backend.load_data model.id bytes b)
    ]

abbrev pub ids : List (Text × ResidencyRecord) → List Text
ids = map λ entry. entry.1.id

-- The loop over the evictions once the reservations are replaced.
unfoldable pub evict_all :
    {B : Type 0} → Backend B → List (Text × ResidencyRecord) → System B → System B
evict_all backend [] s = s
evict_all backend ((key, r) ∷ rest) s = evict_all backend rest (record s {
  backend = (backend.unload r.id s.backend).0;
  records = assign key (record r { resident = false }) s.records;
})

abbrev pub blank : Text → ResidencyRecord
blank id = record {
  id = id;
  footprint_bytes = 0;
  ref_count = 0;
  resident = false;
  last_loaded = 0;
  load_count = 0;
  estimated_load_cost_ms = 0;
}

abbrev pub or_blank : Text → Option ResidencyRecord → ResidencyRecord
or_blank id none = blank id
or_blank id (some r) = r

-- `records_[model->id]` as it is written, field by field.
abbrev pub entered : {B : Type 0} → ModelRecord → ℕ → System B → ResidencyRecord
entered model elapsed_ms s = record {
  id = model.id;
  footprint_bytes = model.footprint_bytes;
  ref_count = model.ref_count;
  resident = true;
  last_loaded = add64 s.next_loaded 1;
  load_count = add64 (or_blank model.id (find model.id s.records)).load_count 1;
  estimated_load_cost_ms = max elapsed_ms 1;
}

unfoldable pub make_resident : {B : Type 0} → ModelRecord → ℕ → System B → System B
make_resident model elapsed_ms s = record s {
  records = assign model.id (entered model elapsed_ms s) s.records;
  next_loaded = add64 s.next_loaded 1;
}
