-- ===== src/Registry.antt =====
-- include/gpumemd/model_registry.hpp and src/core/model_registry.cpp: the registered models and
-- their reference counts. `std::filesystem` is a parameter.
pub mod Counting
pub mod History
use gpumemd.Base.{
  ℕ, zero, suc, ◌+◌, ◌-◌, ◌^◌, Bool, true, false, not, ◌||◌, Option, none, some, List, [], ◌∷◌, map,
  Text, text_lt, ltb, ◌==◌, if◌then◌else◌, find, contains, emplace, assign, erase, add64, sub64,
  sort,
}
use gpumemd.Names.{valid_name, valid_metadata, valid_path}

pub data ModelError : Type 0 where
  ok invalid_id invalid_metadata invalid_size duplicate_model unknown_model : ModelError
  model_in_use refcount_underflow unknown_residency insufficient_memory : ModelError
  backend_failure invalid_path file_unavailable source_changed read_failure : ModelError
  backend_unsupported : ModelError

pub record ModelOperationResult : Type 0 where
  pub error : ModelError
  pub amount : ℕ

abbrev pub failed : ModelError → ModelOperationResult
failed e = record { error = e; amount = 0 }

abbrev pub done : ℕ → ModelOperationResult
done amount = record { error = ok; amount = amount }

pub record ModelRecord : Type 0 where
  pub id : Text
  pub metadata : Text
  pub footprint_bytes : ℕ
  pub ref_count : ℕ
  pub last_access : ℕ
  pub source_path : Text

pub record Registry : Type 0 where
  pub models : List (Text × ModelRecord)
  pub next_access : ℕ

abbrev pub empty : Registry
empty = record { models = []; next_access = 0 }

-- `std::filesystem::is_regular_file` and `file_size`: `none` where they set the error code.
pub record FileSystem : Type 0 where
  pub is_regular_file : Text → Option Bool
  pub file_size : Text → Option ℕ

unfoldable pub register_model : Text → ℕ → Text → Registry → Registry × ModelOperationResult
register_model id footprint_bytes metadata r =
    if not (valid_name id)
    then (r, failed invalid_id)
    else if footprint_bytes == 0
    then (r, failed invalid_size)
    else if not (valid_metadata metadata)
    then (r, failed invalid_metadata)
    else if contains id r.models
    then (r, failed duplicate_model)
    else (
      record r {
        models =
            emplace id
              (record {
                id = id;
                metadata = metadata;
                footprint_bytes = footprint_bytes;
                ref_count = 0;
                last_access = 0;
                source_path = [];
              })
              r.models;
      },
      done footprint_bytes,
    )

abbrev pub is_regular : Option Bool → Bool
is_regular none = false
is_regular (some b) = b

-- The size of a file that can be registered.
unfoldable pub usable_size : Option ℕ → Option ℕ
usable_size none = none
usable_size (some size) = if size == 0 || ltb (2 ^ 64 - 1) size then none else some size

unfoldable pub register_file :
    FileSystem → Text → Text → Text → Registry → Registry × ModelOperationResult
unfolding usable_size
register_file files id path metadata r =
    if not (valid_name id)
    then (r, failed invalid_id)
    else if not (valid_path path)
    then (r, failed invalid_path)
    else if not (valid_metadata metadata)
    then (r, failed invalid_metadata)
    else if not (is_regular (files.is_regular_file path))
    then (r, failed file_unavailable)
    else elim (usable_size (files.file_size path)) [
      | none ↦ (r, failed file_unavailable)
      | some size ↦ if contains id r.models then (r, failed duplicate_model) else (
        record r {
          models =
              emplace id
                (record {
                  id = id;
                  metadata = metadata;
                  footprint_bytes = size;
                  ref_count = 0;
                  last_access = 0;
                  source_path = path;
                })
                r.models;
        },
        done size,
      )
    ]

unfoldable pub unregister_model : Text → Registry → Registry × ModelOperationResult
unregister_model id r =
    if not (valid_name id) then (r, failed invalid_id) else elim (find id r.models) [
      | none ↦ (r, failed unknown_model)
      | some model ↦
          if not (model.ref_count == 0)
          then (r, failed model_in_use)
          else (record r { models = erase id r.models }, done 0)
    ]

-- The record with another reference count, accessed now.
abbrev pub count : ModelRecord → ℕ → ℕ → ModelRecord
count model refs access = record model { ref_count = refs; last_access = access }

unfoldable pub retain : Text → Registry → Registry × ModelOperationResult
retain id r = if not (valid_name id) then (r, failed invalid_id) else elim (find id r.models) [
  | none ↦ (r, failed unknown_model)
  | some model ↦
      let refs = add64 model.ref_count 1 in
      let access = add64 r.next_access 1 in
      (
        record { models = assign id (count model refs access) r.models; next_access = access },
        done refs,
      )
]

unfoldable pub release_model : Text → Registry → Registry × ModelOperationResult
release_model id r =
    if not (valid_name id) then (r, failed invalid_id) else elim (find id r.models) [
      | none ↦ (r, failed unknown_model)
      | some model ↦
          if model.ref_count == 0
          then (r, failed refcount_underflow)
          else let refs = model.ref_count - 1 in
            let access = add64 r.next_access 1 in
            (
              record {
                models = assign id (count model refs access) r.models;
                next_access = access;
              },
              done refs,
            )
    ]

abbrev pub values : List (Text × ModelRecord) → List ModelRecord
values = map λ entry. entry.1

abbrev pub by_id : ModelRecord → ModelRecord → Bool
by_id left right = text_lt left.id right.id

-- `models()`
unfoldable pub snapshot : Registry → List ModelRecord
snapshot r = sort by_id (values r.models)
