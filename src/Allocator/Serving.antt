-- ===== src/Allocator/Serving.antt =====
-- What a pool hands out, and when it refuses.
use gpumemd.Base.{
  ℕ, ◌+◌, ◌≤◌, ◌<◌, ◌≡◌, ◌⊎◌, refl, ap, subst, sym, true, false, none, List, [], ◌∷◌, arith, Text,
  All, leb, ◌==◌, any_of, Bool-cases, Option-cases, inl, inr,
}
use gpumemd.Names.{valid_name}
use gpumemd.Allocator.{
  Allocator, AllocationRecord, AllocationResult, FreeBlock, out_of_memory, failed, direct, pool, ok,
  allocated, has_id, carve, allocate, allocate_direct, allocate_pool,
}
use gpumemd.Allocator.Tiling.{covers, carve-Carved}
use gpumemd.Allocator.Pool.{held, IsPool, allocate_cases, sum_of-append}

-- What a pool hands out lies within the capacity and shares no byte with an allocation in use: for
-- every byte of the region that a successful `allocate` returns, no allocation held it before, it
-- is below the capacity, and exactly one allocation holds it afterwards.
pub allocate_fresh :
    (id : Text) (bytes offset x : ℕ) (a : Allocator)
    → IsPool a
    → (allocate id bytes a).1 ≡ allocated offset bytes
    → offset ≤ x
    → x < offset + bytes
    → (held x a.allocations ≡ 0)
      × (x < a.capacity)
      × (held x (allocate id bytes a).0.allocations ≡ 1)
allocate_fresh id bytes offset x a v =
    allocate_cases
      (λ r.
        r.1 ≡ allocated offset bytes
        → offset ≤ x
        → x < offset + bytes
        → (held x a.allocations ≡ 0) × (x < a.capacity) × (held x r.0.allocations ≡ 1))
      id bytes a v.strategy
      (λ e h same low high. absurd (h (ap (λ (q : AllocationResult). q.error) same)))
      λ start blocks positive e same low high.
        let c =
          carve-Carved a.capacity bytes start a.free_blocks blocks v.fits_word positive
            v.free_in_range e in
        let at : start ≡ offset = ap (λ (q : AllocationResult). q.offset) same in
        let inside : covers x start bytes ≡ 1 = ground arith in
        let new : List AllocationRecord = record { id = id; offset = start; bytes = bytes } ∷ [] in
        let none_before : held x a.allocations ≡ 0 = ground (arith, v.tiled x, c.tiled x, inside) in
        (
          none_before,
          ground (arith, c.within, at),
          omega (
            arith,
            none_before,
            inside,
            sum_of-append (λ (r : AllocationRecord). covers x r.offset r.bytes) a.allocations new,
          ),
        )

-- `allocate` refuses a valid new request of a pool only if no free block is as large.
carve-none :
    (bytes : ℕ) (blocks : List FreeBlock)
    → carve bytes blocks ≡ none
    → All (λ block. block.bytes < bytes) blocks
unfolding carve
carve-none bytes [] e = tt
carve-none bytes (block ∷ rest) e = elim (Bool-cases (leb bytes block.bytes)) [
  | inl f ↦ absurd (ground arith)
  | inr f ↦ elim (Option-cases (carve bytes rest)) [
    | inl g ↦ (ground arith, carve-none bytes rest g)
    | inr ((offset, more), g) ↦ absurd (ground arith)
  ]
]

-- A pool without the id serves a valid request, unless each of its free blocks is smaller than the
-- request; then it changes nothing and is out of memory.
pub allocate_serves :
    (id : Text) (bytes : ℕ) (a : Allocator)
    → a.strategy ≡ pool
    → valid_name id ≡ true
    → 0 < bytes
    → any_of (has_id id) a.allocations ≡ false
    → ((allocate id bytes a).1.error ≡ ok)
      ⊎ ((allocate id bytes a ≡ (a, failed out_of_memory))
          × All (λ block. block.bytes < bytes) a.free_blocks)
unfolding allocate allocate_pool
allocate_serves id bytes a s valid positive fresh =
    let size : (bytes == 0) ≡ false = ground arith in
    rw (allocate, valid, size, fresh)
      (subst
        (λ t.
          let r = elim t as (λ u. Allocator × AllocationResult) [
            | direct ↦ allocate_direct id bytes a
            | pool ↦ allocate_pool id bytes a
          ] in
          (r.1.error ≡ ok)
          ⊎ ((r ≡ (a, failed out_of_memory)) × All (λ block. block.bytes < bytes) a.free_blocks))
        (sym s)
        (elim (Option-cases (carve bytes a.free_blocks)) [
          | inl h ↦ rw (allocate_pool, h) (inr (refl, carve-none bytes a.free_blocks h))
          | inr ((offset, blocks), h) ↦ rw (allocate_pool, h) (inl refl)
        ]))
