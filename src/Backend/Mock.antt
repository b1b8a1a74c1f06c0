-- ===== src/Backend/Mock.antt =====
-- include/gpumemd/mock_backend.hpp and src/backend/mock_backend.cpp.
use gpumemd.Base.{
  ℕ, ◌≡◌, Bool, true, not, ◌&&◌, ◌||◌, none, some, List, [], arith, Text, text_eq, text_lt,
  text_eq_iff, length, ◌==◌, if◌then◌else◌, find, contains, emplace, erase, sort, Unique,
  Unique-emplace, Unique-erase, contains-emplace, contains-erase_ne, contains-erase_self,
  contains-find,
}
use gpumemd.Names.{valid_name}
use gpumemd.Backend.{
  Backend, IsBackend, BackendOperationResult, BackendShareResult, failed, done, succeeds,
  invalid_model_id, invalid_size, already_loaded, not_loaded, unsupported,
}

abbrev pub Allocations : Type 0
Allocations = List (Text × ℕ)

unfoldable pub load : Text → ℕ → Allocations → Allocations × BackendOperationResult
load id bytes allocations =
    if not (valid_name id)
    then (allocations, failed invalid_model_id)
    else if bytes == 0
    then (allocations, failed invalid_size)
    else if contains id allocations
    then (allocations, failed already_loaded)
    else (emplace id bytes allocations, done bytes)

-- The overload for the bytes of a file.
unfoldable pub load_data : Text → List ℕ → Allocations → Allocations × BackendOperationResult
unfolding load
load_data id bytes = load id (length bytes)

unfoldable pub unload : Text → Allocations → Allocations × BackendOperationResult
unload id allocations =
    if not (valid_name id)
    then (allocations, failed invalid_model_id)
    else elim (find id allocations) [
      | none ↦ (allocations, failed not_loaded)
      | some bytes ↦ (erase id allocations, done bytes)
    ]

unfoldable pub share : Text → Allocations → BackendShareResult
share id allocations = record { error = unsupported; amount = 0; token = [] }

unfoldable pub is_loaded : Text → Allocations → Bool
is_loaded id allocations = contains id allocations

abbrev by_id : Text × ℕ → Text × ℕ → Bool
by_id left right = text_lt left.0 right.0

unfoldable pub snapshot : Allocations → List (Text × ℕ)
snapshot allocations = sort by_id allocations

abbrev pub mock : Backend Allocations
mock = record {
  load = load;
  load_data = load_data;
  unload = unload;
  share = share;
  is_loaded = is_loaded;
}

load-Unique : (id : Text) (bytes : ℕ) (b : Allocations) → Unique b → Unique (load id bytes b).0
unfolding load
load-Unique id bytes b u = ground (arith, Unique-emplace id bytes b u)

unload-Unique : (id : Text) (b : Allocations) → Unique b → Unique (unload id b).0
unfolding unload
unload-Unique id b u = ground (arith, Unique-erase id b u)

contains-load :
    (id other : Text) (bytes : ℕ) (b : Allocations)
    → contains other (load id bytes b).0
      ≡ ((succeeds (load id bytes b).1 && text_eq id other) || contains other b)
unfolding load
contains-load id other bytes b = ground (arith, contains-emplace id other bytes b)

contains-unload :
    (id other : Text) (b : Allocations)
    → Unique b
    → valid_name id ≡ true
    → contains other (unload id b).0 ≡ (not (text_eq id other) && contains other b)
unfolding unload
contains-unload id other b u v = ground (
  arith,
  contains-erase_ne id other b,
  contains-erase_self id b u,
  text_eq_iff id other,
  contains-find id b,
)

succeeds-unload :
    (id : Text) (b : Allocations) → valid_name id ≡ true → succeeds (unload id b).1 ≡ contains id b
unfolding unload
succeeds-unload id b v = ground (arith, contains-find id b)

-- The mock backend keeps the promises that the residency manager relies on: a load that succeeds adds
-- its model and one that fails changes nothing, and a valid name is unloaded exactly if it is loaded.
pub mock-IsBackend : IsBackend mock Unique
unfolding is_loaded load_data
mock-IsBackend = record {
  load-Valid = load-Unique;
  load_data-Valid = λ id bytes. load-Unique id (length bytes);
  unload-Valid = unload-Unique;
  is_loaded-load = contains-load;
  is_loaded-load_data = λ id other bytes. contains-load id other (length bytes);
  is_loaded-unload = contains-unload;
  succeeds-unload = succeeds-unload;
}
