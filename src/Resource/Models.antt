-- ===== src/Resource/Models.antt =====
-- `release`, the reservations of models, and `status` of src/core/resource_manager.cpp.
use gpumemd.Base.{
  ℕ, Bool, false, not, ◌||◌, Option, none, some, List, [], ◌∷◌, ◌++◌, map, Text, codes, text_eq,
  text_lt, any_of, ltb, ◌==◌, if◌then◌else◌, find, contains, emplace, erase, add64, sub64, sort,
}
use gpumemd.Names.{valid_name}
use gpumemd.Resource.{
  Manager, OperationResult, failed, granted, invalid_name, invalid_size, unknown_client,
  duplicate_client, insufficient_memory, free, grant_waiters,
}

unfoldable pub release : Text → ℕ → Manager → Manager × OperationResult
release name now m =
    if not (valid_name name) then (m, failed invalid_name) else elim (find name m.reservations) [
      | none ↦ (m, failed unknown_client)
      | some bytes ↦ (
        grant_waiters now
            (record m { reservations = erase name m.reservations; used = sub64 m.used bytes }),
        granted bytes,
      )
    ]

-- `model_reservations_.emplace(id, bytes); used_ += bytes;`
abbrev pub reserve_model : Text → ℕ → Manager → Manager
reserve_model id bytes m = record m {
  model_reservations = emplace id bytes m.model_reservations;
  used = add64 m.used bytes;
}

unfoldable pub acquire_model : Text → ℕ → Manager → Manager × OperationResult
acquire_model id bytes m =
    if not (valid_name id)
    then (m, failed invalid_name)
    else if bytes == 0
    then (m, failed invalid_size)
    else if contains id m.model_reservations
    then (m, failed duplicate_client)
    else if ltb (free m) bytes
    then (m, failed insufficient_memory)
    else (reserve_model id bytes m, granted bytes)

abbrev pub unreserve_model : Text → ℕ → Manager → Manager
unreserve_model id bytes m = record m {
  model_reservations = erase id m.model_reservations;
  used = sub64 m.used bytes;
}

unfoldable pub release_model : Text → ℕ → Manager → Manager × OperationResult
release_model id now m =
    if not (valid_name id) then (m, failed invalid_name) else elim (find id m.model_reservations) [
      | none ↦ (m, failed unknown_client)
      | some bytes ↦ (grant_waiters now (unreserve_model id bytes m), granted bytes)
    ]

-- The loop over `unique_evictions`: whether an eviction is named twice.
unfoldable pub has_duplicate : List Text → List Text → Bool
has_duplicate seen [] = false
has_duplicate seen (eviction ∷ rest) =
    any_of (λ other. text_eq other eviction) seen || has_duplicate (eviction ∷ seen) rest

-- The loop that adds up `evicted_bytes`: `none` for an eviction that has no reservation.
unfoldable pub evicted_bytes : List (Text × ℕ) → ℕ → List Text → Option ℕ
evicted_bytes models sum [] = some sum
evicted_bytes models sum (eviction ∷ rest) = elim (find eviction models) [
  | none ↦ none
  | some bytes ↦ evicted_bytes models (add64 sum bytes) rest
]

-- The loop that removes the evictions. The code dereferences what it finds.
unfoldable pub evict : List Text → Manager → Manager
evict [] m = m
evict (eviction ∷ rest) m = elim (find eviction m.model_reservations) [
  | none ↦ m
  | some bytes ↦ evict rest (unreserve_model eviction bytes m)
]

unfoldable pub replace_model_reservations :
    List Text → Text → ℕ → ℕ → Manager → Manager × OperationResult
unfolding has_duplicate evicted_bytes evict
replace_model_reservations evictions id bytes now m =
    if not (valid_name id)
    then (m, failed invalid_name)
    else if bytes == 0
    then (m, failed invalid_size)
    else if contains id m.model_reservations
    then (m, failed duplicate_client)
    else if has_duplicate [] evictions
    then (m, failed duplicate_client)
    else elim (evicted_bytes m.model_reservations 0 evictions) [
      | none ↦ (m, failed unknown_client)
      | some sum ↦
          if ltb (add64 (free m) sum) bytes
          then (m, failed insufficient_memory)
          else (grant_waiters now (reserve_model id bytes (evict evictions m)), granted bytes)
    ]

pub record Reservation : Type 0 where
  pub name : Text
  pub bytes : ℕ

pub record StatusSnapshot : Type 0 where
  pub capacity : ℕ
  pub used : ℕ
  pub free : ℕ
  pub reservations : List Reservation

abbrev pub client_reservation : Text × ℕ → Reservation
client_reservation (name, bytes) = record { name = name; bytes = bytes }

abbrev pub model_reservation : Text × ℕ → Reservation
model_reservation (id, bytes) = record { name = codes "model:" ++ id; bytes = bytes }

abbrev pub by_name : Reservation → Reservation → Bool
by_name left right = text_lt left.name right.name

unfoldable pub status : Manager → StatusSnapshot
status m = record {
  capacity = m.capacity;
  used = m.used;
  free = free m;
  reservations =
      sort by_name
        (map client_reservation m.reservations ++ map model_reservation m.model_reservations);
}
