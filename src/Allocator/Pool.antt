-- ===== src/Allocator/Pool.antt =====
-- The pool strategy: the free blocks and the allocations divide the range of addresses among them.
use gpumemd.Base.{
  ℕ, ◌+◌, ◌-◌, ◌≤◌, ◌<◌, ◌≡◌, ◌≢◌, refl, subst, sym, some, List, [], ◌∷◌, ◌++◌, arith, Text, All,
  All-append, sum_of, ltb, ◌==◌, if◌then◌else◌, find_if, any_of, add64, sub64, add64_exact,
  sub64_exact, word, Bool-cases, Option-cases, inl, inr,
}
use gpumemd.Names.{valid_name}
use gpumemd.Allocator.{
  Allocator, AllocationRecord, AllocationResult, AllocatorError, FreeBlock, invalid_id,
  invalid_size, duplicate_allocation, out_of_memory, failed, direct, pool, ok, allocated, has_id,
  create, carve, place, allocate, allocate_direct, allocate_pool, release, remove,
}
use gpumemd.Allocator.Tiling.{
  covers, covered, size, InRange, Carved, carve-Carved, coalesce-Regrouped,
}

abbrev pub held : ℕ → List AllocationRecord → ℕ
held x = sum_of λ allocation. covers x allocation.offset allocation.bytes

abbrev pub held_size : List AllocationRecord → ℕ
held_size = sum_of λ allocation. allocation.bytes

abbrev pub HeldInRange : ℕ → AllocationRecord → Type 0
HeldInRange capacity allocation =
    (0 < allocation.bytes) × (allocation.offset + allocation.bytes ≤ capacity)

-- Each byte below the capacity is in exactly one free block or allocation, and no other byte is in one.
pub record IsPool (a : Allocator) : Type 0 where
  pub strategy : a.strategy ≡ pool
  pub fits_word : a.capacity < word
  pub free_in_range : All (InRange a.capacity) a.free_blocks
  pub held_in_range : All (HeldInRange a.capacity) a.allocations
  pub tiled :
      (x : ℕ) → covered x a.free_blocks + held x a.allocations ≡ (if ltb x a.capacity then 1 else 0)
  pub accounted : a.used ≡ held_size a.allocations
  pub divided : a.used + size a.free_blocks ≡ a.capacity

pub sum_of-append {ℓ} :
    {A : Type ℓ} (f : A → ℕ) (xs ys : List A) → sum_of f (xs ++ ys) ≡ sum_of f xs + sum_of f ys
sum_of-append f [] ys = omega arith
sum_of-append f (x ∷ xs) ys = omega (arith, sum_of-append f xs ys)

pub create-IsPool :
    (capacity : ℕ) {a : Allocator} → capacity < word → create capacity pool ≡ some a → IsPool a
unfolding create
create-IsPool capacity {a} w e = elim (Bool-cases (capacity == 0)) [
  | inl f ↦ absurd (ground arith)
  | inr f ↦
      let is_new : record {
        capacity = capacity;
        strategy = pool;
        used = 0;
        direct_next_offset = 0;
        free_blocks = record { offset = 0; bytes = capacity } ∷ [];
        allocations = [];
      }
          ≡ a =
        ground arith in
      subst IsPool is_new (record {
        strategy = refl;
        fits_word = w;
        free_in_range = ((ground arith, omega arith), tt);
        held_in_range = tt;
        tiled = λ x. ground arith;
        accounted = refl;
        divided = omega arith;
      })
]

place-IsPool :
    (id : Text) (bytes offset : ℕ) (blocks : List FreeBlock) {a : Allocator}
    → IsPool a
    → 0 < bytes
    → Carved a.capacity bytes a.free_blocks offset blocks
    → IsPool (place id offset bytes (record a { free_blocks = blocks }))
place-IsPool id bytes offset blocks {a} v positive c =
    let new : List AllocationRecord = record { id = id; offset = offset; bytes = bytes } ∷ [] in
    let exact : add64 a.used bytes ≡ a.used + bytes =
      add64_exact a.used bytes (omega (arith, v.divided, v.fits_word, c.sized)) in
    record {
      strategy = v.strategy;
      fits_word = v.fits_word;
      free_in_range = c.in_range;
      held_in_range =
          All-append (HeldInRange a.capacity) a.allocations new v.held_in_range
            ((positive, c.within), tt);
      tiled = λ x. omega (
        arith,
        v.tiled x,
        c.tiled x,
        sum_of-append (λ (r : AllocationRecord). covers x r.offset r.bytes) a.allocations new,
      );
      accounted = omega (
        arith,
        exact,
        v.accounted,
        sum_of-append (λ (r : AllocationRecord). r.bytes) a.allocations new,
      );
      divided = omega (arith, exact, v.divided, c.sized);
    }

-- The two ways in which a pool answers: an error that changes nothing, or a region carved out of the
-- free blocks.
pub allocate_cases {ℓ} :
    (P : Allocator × AllocationResult → Type ℓ) (id : Text) (bytes : ℕ) (a : Allocator)
    → a.strategy ≡ pool
    → ((e : AllocatorError) → e ≢ ok → P (a, failed e))
    → ((offset : ℕ) (blocks : List FreeBlock)
        → 0 < bytes
        → carve bytes a.free_blocks ≡ some (offset, blocks)
        → P (place id offset bytes (record a { free_blocks = blocks }), allocated offset bytes))
    → P (allocate id bytes a)
unfolding allocate allocate_pool
allocate_cases P id bytes a s refuses takes = elim (Bool-cases (valid_name id)) [
  | inr e ↦ rw (allocate, e) (refuses invalid_id (λ h. cc))
  | inl e ↦ elim (Bool-cases (bytes == 0)) [
    | inl f ↦ rw (allocate, e, f) (refuses invalid_size (λ h. cc))
    | inr f ↦ elim (Bool-cases (any_of (has_id id) a.allocations)) [
      | inl g ↦ rw (allocate, e, f, g) (refuses duplicate_allocation (λ h. cc))
      | inr g ↦
          rw (allocate, e, f, g)
            (subst
              (λ t.
                P (elim t [
                  | direct ↦ allocate_direct id bytes a
                  | pool ↦ allocate_pool id bytes a
                ]))
              (sym s)
              (elim (Option-cases (carve bytes a.free_blocks)) [
                | inl h ↦ rw (allocate_pool, h) (refuses out_of_memory (λ h. cc))
                | inr ((offset, blocks), h) ↦
                    rw (allocate_pool, h) (takes offset blocks (ground (arith, f)) h)
              ]))
    ]
  ]
]

pub allocate-IsPool :
    (id : Text) (bytes : ℕ) {a : Allocator} → IsPool a → IsPool (allocate id bytes a).0
allocate-IsPool id bytes {a} v =
    allocate_cases (λ r. IsPool r.0) id bytes a v.strategy (λ e h. v)
      λ offset blocks positive e. place-IsPool id bytes offset blocks v positive (
        carve-Carved a.capacity bytes offset a.free_blocks blocks v.fits_word positive
          v.free_in_range e)

-- What removing the allocation that was found does.
remove-Held :
    (capacity : ℕ) (id : Text) (allocations : List AllocationRecord) (found : AllocationRecord)
    → find_if (has_id id) allocations ≡ some found
    → All (HeldInRange capacity) allocations
    → HeldInRange capacity found
      × All (HeldInRange capacity) (remove id allocations)
      × ((x : ℕ)
          → held x allocations ≡ covers x found.offset found.bytes + held x (remove id allocations))
      × (held_size allocations ≡ found.bytes + held_size (remove id allocations))
unfolding remove
remove-Held capacity id [] found e h = cc
remove-Held capacity id (first ∷ rest) found e h = elim (Bool-cases (has_id id first)) [
  | inl f ↦
      let same : first ≡ found = ground arith in
      rw (remove, f, same) (subst (HeldInRange capacity) same h.0, h.1, (λ x. refl), refl)
  | inr f ↦
      let (own, others, tiles, sizes) = remove-Held capacity id rest found (ground arith) h.1 in
      rw (remove, f) (own, (h.0, others), (λ x. omega (arith, tiles x)), omega (arith, sizes))
]

pub release-IsPool : (id : Text) {a : Allocator} → IsPool a → IsPool (release id a).0
unfolding release
release-IsPool id {a} v = elim (Option-cases (find_if (has_id id) a.allocations)) [
  | inl e ↦ rw (release, e) v
  | inr (found, e) ↦
      let (own, others, tiles, sizes) =
        remove-Held a.capacity id a.allocations found e v.held_in_range in
      let block : List FreeBlock = record { offset = found.offset; bytes = found.bytes } ∷ [] in
      let c =
        coalesce-Regrouped a.capacity (a.free_blocks ++ block) v.fits_word
          (All-append (InRange a.capacity) a.free_blocks block v.free_in_range (own, tt)) in
      let exact : sub64 a.used found.bytes ≡ a.used - found.bytes =
        sub64_exact a.used found.bytes (omega (arith, v.accounted, sizes))
          (omega (arith, v.divided, v.fits_word)) in
      rw (release, e)
        (record {
          strategy = v.strategy;
          fits_word = v.fits_word;
          free_in_range = rw v.strategy c.in_range;
          held_in_range = others;
          tiled = λ x. rw v.strategy (
              omega (
                arith,
                v.tiled x,
                tiles x,
                c.tiled x,
                sum_of-append (λ (b : FreeBlock). covers x b.offset b.bytes) a.free_blocks block,
              ));
          accounted = omega (arith, exact, v.accounted, sizes);
          divided = rw v.strategy (
              omega (
                arith,
                exact,
                v.divided,
                v.accounted,
                sizes,
                c.sized,
                sum_of-append (λ (b : FreeBlock). b.bytes) a.free_blocks block,
              ));
        })
]

pub data Call : Type 0 where
  allocates : Text → ℕ → Call
  releases : Text → Call

pub step : Allocator → Call → Allocator
step a (allocates id bytes) = (allocate id bytes a).0
step a (releases id) = (release id a).0

pub run : Allocator → List Call → Allocator
run a [] = a
run a (call ∷ calls) = run (step a call) calls

step-IsPool : (call : Call) {a : Allocator} → IsPool a → IsPool (step a call)
unfolding step
step-IsPool (allocates id bytes) v = allocate-IsPool id bytes v
step-IsPool (releases id) v = release-IsPool id v

run-keeps : (calls : List Call) {a : Allocator} → IsPool a → IsPool (run a calls)
unfolding run
run-keeps [] v = v
run-keeps (call ∷ calls) v = run-keeps calls (step-IsPool call v)

-- Whatever is allocated and released, in a pool of a 64-bit capacity each byte below the capacity lies
-- in exactly one free block or allocation, and no byte outside it in any: allocations never overlap,
-- nothing is lost, and `used_` is the sum of the allocations.
pub run-IsPool :
    (capacity : ℕ) (calls : List Call) (a : Allocator)
    → capacity < word
    → create capacity pool ≡ some a
    → IsPool (run a calls)
run-IsPool capacity calls a w e = run-keeps calls (create-IsPool capacity w e)
