-- ===== src/Allocator.antt =====
-- include/gpumemd/memory_allocator.hpp and src/core/memory_allocator.cpp: regions of one range of
-- addresses, by a list of free blocks or, directly, one after the other.
pub mod Tiling
pub mod Pool
pub mod Serving
use gpumemd.Base.{
  ℕ, Bool, true, false, not, ◌&&◌, ◌||◌, Option, none, some, List, [], ◌∷◌, ◌++◌, Text, text_eq,
  text_lt, any_of, find_if, ltb, leb, ◌==◌, if◌then◌else◌, add64, sub64, sort,
}
use gpumemd.Names.{valid_name}

pub data AllocationStrategy : Type 0 where
  direct pool : AllocationStrategy

pub data AllocatorError : Type 0 where
  ok invalid_id invalid_size duplicate_allocation unknown_allocation out_of_memory : AllocatorError

pub record AllocationResult : Type 0 where
  pub error : AllocatorError
  pub offset : ℕ
  pub bytes : ℕ

abbrev pub failed : AllocatorError → AllocationResult
failed e = record { error = e; offset = 0; bytes = 0 }

abbrev pub allocated : ℕ → ℕ → AllocationResult
allocated offset bytes = record { error = ok; offset = offset; bytes = bytes }

pub record AllocationRecord : Type 0 where
  pub id : Text
  pub offset : ℕ
  pub bytes : ℕ

pub record FreeBlock : Type 0 where
  pub offset : ℕ
  pub bytes : ℕ

pub record Allocator : Type 0 where
  pub capacity : ℕ
  pub strategy : AllocationStrategy
  pub used : ℕ
  pub direct_next_offset : ℕ
  pub free_blocks : List FreeBlock
  pub allocations : List AllocationRecord

-- The constructor throws at capacity 0.
unfoldable pub create : ℕ → AllocationStrategy → Option Allocator
create capacity strategy =
    if capacity == 0
    then none
    else some (record {
      capacity = capacity;
      strategy = strategy;
      used = 0;
      direct_next_offset = 0;
      free_blocks = record { offset = 0; bytes = capacity } ∷ [];
      allocations = [];
    })

abbrev pub has_id : Text → AllocationRecord → Bool
has_id id allocation = text_eq allocation.id id

-- What is left of a block once its first bytes are taken.
abbrev pub shrink : ℕ → FreeBlock → List FreeBlock → List FreeBlock
shrink bytes block rest =
    if sub64 block.bytes bytes == 0
    then rest
    else record { offset = add64 block.offset bytes; bytes = sub64 block.bytes bytes } ∷ rest

-- The first free block that is large enough gives up its first bytes: their offset, and the free
-- blocks that are left.
unfoldable pub carve : ℕ → List FreeBlock → Option (ℕ × List FreeBlock)
carve bytes [] = none
carve bytes (block ∷ rest) = elim (leb bytes block.bytes) [
  | true ↦ some (block.offset, shrink bytes block rest)
  | false ↦ elim (carve bytes rest) [
    | none ↦ none
    | some (offset, rest') ↦ some (offset, block ∷ rest')
  ]
]

-- `allocations_.push_back(...); used_ += bytes;`
abbrev pub place : Text → ℕ → ℕ → Allocator → Allocator
place id offset bytes a = record a {
  allocations = a.allocations ++ record { id = id; offset = offset; bytes = bytes } ∷ [];
  used = add64 a.used bytes;
}

unfoldable pub allocate_direct : Text → ℕ → Allocator → Allocator × AllocationResult
allocate_direct id bytes a =
    if ltb (sub64 a.capacity a.used) bytes then (a, failed out_of_memory) else (
      place id a.direct_next_offset bytes
          (record a { direct_next_offset = add64 a.direct_next_offset bytes }),
      allocated a.direct_next_offset bytes,
    )

unfoldable pub allocate_pool : Text → ℕ → Allocator → Allocator × AllocationResult
unfolding carve
allocate_pool id bytes a = elim (carve bytes a.free_blocks) [
  | none ↦ (a, failed out_of_memory)
  | some (offset, blocks) ↦
      (place id offset bytes (record a { free_blocks = blocks }), allocated offset bytes)
]

unfoldable pub allocate : Text → ℕ → Allocator → Allocator × AllocationResult
unfolding allocate_direct allocate_pool
allocate id bytes a =
    if not (valid_name id)
    then (a, failed invalid_id)
    else if bytes == 0
    then (a, failed invalid_size)
    else if any_of (has_id id) a.allocations
    then (a, failed duplicate_allocation)
    else elim a.strategy [ direct ↦ allocate_direct id bytes a | pool ↦ allocate_pool id bytes a ]

abbrev pub by_offset : FreeBlock → FreeBlock → Bool
by_offset left right = ltb left.offset right.offset

-- The loop of `coalesce_locked`; `last` is `merged.back()`.
unfoldable pub merge : FreeBlock → List FreeBlock → List FreeBlock
merge last [] = last ∷ []
merge last (block ∷ rest) = elim (add64 last.offset last.bytes == block.offset) [
  | true ↦ merge (record last { bytes = add64 last.bytes block.bytes }) rest
  | false ↦ last ∷ merge block rest
]

abbrev pub merge_all : List FreeBlock → List FreeBlock
merge_all [] = []
merge_all (block ∷ rest) = merge block rest

unfoldable pub coalesce : List FreeBlock → List FreeBlock
unfolding merge
coalesce blocks = merge_all (sort by_offset blocks)

-- `allocations_.erase(iterator)` for the first allocation of that id
unfoldable pub remove : Text → List AllocationRecord → List AllocationRecord
remove id [] = []
remove id (allocation ∷ rest) = elim (has_id id allocation) [
  | true ↦ rest
  | false ↦ allocation ∷ remove id rest
]

-- What is free after a release.
abbrev pub returned : AllocationRecord → Allocator → List FreeBlock
returned found a = elim a.strategy [
  | direct ↦ a.free_blocks
  | pool ↦ coalesce (a.free_blocks ++ record { offset = found.offset; bytes = found.bytes } ∷ [])
]

unfoldable pub release : Text → Allocator → Allocator × AllocationResult
unfolding coalesce remove
release id a = elim (find_if (has_id id) a.allocations) [
  | none ↦ (a, failed unknown_allocation)
  | some found ↦ (
    record a {
      free_blocks = returned found a;
      used = sub64 a.used found.bytes;
      allocations = remove id a.allocations;
    },
    allocated found.offset found.bytes,
  )
]

pub record AllocatorSnapshot : Type 0 where
  pub capacity : ℕ
  pub used : ℕ
  pub free : ℕ
  pub allocations : List AllocationRecord

abbrev pub by_id : AllocationRecord → AllocationRecord → Bool
by_id left right = text_lt left.id right.id

unfoldable pub snapshot : Allocator → AllocatorSnapshot
snapshot a = record {
  capacity = a.capacity;
  used = a.used;
  free = sub64 a.capacity a.used;
  allocations = sort by_id a.allocations;
}
