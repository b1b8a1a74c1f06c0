-- ===== src/Allocator/Tiling.antt =====
-- Lists of blocks as sets of bytes: what taking from a block and merging blocks do to them.
use gpumemd.Base.{
  ℕ, ◌+◌, ◌-◌, ◌≤◌, ◌<◌, ◌≡◌, refl, ap, ◌∙◌, subst, ◌&&◌, some, List, [], ◌∷◌, arith, All, sum_of,
  ltb, leb, ◌==◌, leb→le, if◌then◌else◌, add64, sub64, add64_exact, sub64_exact, word, sort,
  sort-All, sort-sum_of, Bool-cases, Option-cases, inl, inr,
}
use gpumemd.Allocator.{FreeBlock, carve, shrink, merge, merge_all, coalesce, by_offset}

-- How often the byte at `x` lies in a block: once or not at all.
abbrev pub covers : ℕ → ℕ → ℕ → ℕ
covers x offset bytes = if leb offset x && ltb x (offset + bytes) then 1 else 0

abbrev pub covered : ℕ → List FreeBlock → ℕ
covered x = sum_of λ block. covers x block.offset block.bytes

abbrev pub size : List FreeBlock → ℕ
size = sum_of λ block. block.bytes

covers-split :
    (x offset a b : ℕ) → covers x offset (a + b) ≡ covers x offset a + covers x (offset + a) b
covers-split x offset a b = ground arith

module _ (capacity : ℕ) where
  -- A block that is not empty and lies within the capacity.
  abbrev pub InRange : FreeBlock → Type 0
  InRange block = (0 < block.bytes) × (block.offset + block.bytes ≤ capacity)

  -- What taking `bytes` bytes at `offset` out of `blocks` leaves.
  pub record Carved (bytes : ℕ) (blocks : List FreeBlock) (offset : ℕ) (rest : List FreeBlock)
      : Type 0 where
    pub within : offset + bytes ≤ capacity
    pub in_range : All InRange rest
    pub tiled : (x : ℕ) → covered x blocks ≡ covers x offset bytes + covered x rest
    pub sized : size blocks ≡ bytes + size rest

  shrink-Carved :
      (bytes : ℕ) (block : FreeBlock) (rest : List FreeBlock)
      → capacity < word
      → 0 < bytes
      → bytes ≤ block.bytes
      → All InRange (block ∷ rest)
      → Carved bytes (block ∷ rest) block.offset (shrink bytes block rest)
  shrink-Carved bytes block rest w positive fits a =
      let less : sub64 block.bytes bytes ≡ block.bytes - bytes =
        sub64_exact block.bytes bytes fits (omega (arith, a.0.1)) in
      let next : add64 block.offset bytes ≡ block.offset + bytes =
        add64_exact block.offset bytes (omega (arith, a.0.1)) in
      elim (Bool-cases (sub64 block.bytes bytes == 0)) [
        | inl e ↦
            let all : block.bytes ≡ bytes = ground (arith, less, fits) in
            rw e (record {
              within = omega (arith, a.0.1);
              in_range = a.1;
              tiled = λ x. rw all refl;
              sized = omega (arith, all);
            })
        | inr e ↦
            rw (e, less, next)
              (record {
                within = omega (arith, a.0.1);
                in_range = ((ground (arith, less), omega (arith, a.0.1)), a.1);
                tiled = λ x.
                    let whole : bytes + (block.bytes - bytes) ≡ block.bytes = omega arith in
                    let parts = covers-split x block.offset bytes (block.bytes - bytes) in
                    omega (arith, rw whole at parts);
                sized = omega (arith, fits);
              })
      ]

  pub carve-Carved :
      (bytes offset : ℕ) (blocks rest : List FreeBlock)
      → capacity < word
      → 0 < bytes
      → All InRange blocks
      → carve bytes blocks ≡ some (offset, rest)
      → Carved bytes blocks offset rest
  unfolding carve
  carve-Carved bytes offset [] rest w positive a e = cc
  carve-Carved bytes offset (block ∷ blocks) rest w positive a e =
      elim (Bool-cases (leb bytes block.bytes)) [
        | inl f ↦
            let start : block.offset ≡ offset = ground arith in
            let left : shrink bytes block blocks ≡ rest = ground arith in
            subst (λ o. Carved bytes (block ∷ blocks) o rest) start
              (subst (Carved bytes (block ∷ blocks) block.offset) left
                (shrink-Carved bytes block blocks w positive (leb→le bytes block.bytes f) a))
        | inr f ↦ elim (Option-cases (carve bytes blocks)) [
          | inl g ↦ absurd (ground arith)
          | inr ((o, more), g) ↦
              let start : o ≡ offset = ground arith in
              let left : block ∷ more ≡ rest = ground arith in
              let c = carve-Carved bytes o blocks more w positive a.1 g in
              subst (λ o. Carved bytes (block ∷ blocks) o rest) start
                (subst (Carved bytes (block ∷ blocks) o) left (record {
                  within = c.within;
                  in_range = (a.0, c.in_range);
                  tiled = λ x. omega (arith, c.tiled x);
                  sized = omega (arith, c.sized);
                }))
        ]
      ]

  -- The same bytes, in another list of blocks.
  pub record Regrouped (blocks blocks' : List FreeBlock) : Type 0 where
    pub in_range : All InRange blocks'
    pub tiled : (x : ℕ) → covered x blocks' ≡ covered x blocks
    pub sized : size blocks' ≡ size blocks

  merge-Regrouped :
      (last : FreeBlock) (rest : List FreeBlock)
      → capacity < word
      → All InRange (last ∷ rest)
      → Regrouped (last ∷ rest) (merge last rest)
  unfolding merge
  merge-Regrouped last [] w a = record { in_range = a; tiled = λ x. refl; sized = refl }
  merge-Regrouped last (block ∷ rest) w a =
      let end : add64 last.offset last.bytes ≡ last.offset + last.bytes =
        add64_exact last.offset last.bytes (omega (arith, a.0.1)) in
      elim (Bool-cases (add64 last.offset last.bytes == block.offset)) [
        | inl e ↦
            let adjacent : last.offset + last.bytes ≡ block.offset = ground (arith, end) in
            let both : add64 last.bytes block.bytes ≡ last.bytes + block.bytes =
              add64_exact last.bytes block.bytes (omega (arith, a.1.0.1)) in
            let merged =
              merge-Regrouped (record last { bytes = add64 last.bytes block.bytes }) rest w
                ((omega (arith, both, a.0.0), omega (arith, both, a.1.0.1)), a.1.1) in
            rw (e, merge)
              (record {
                in_range = merged.in_range;
                tiled = λ x. omega (
                  arith,
                  merged.tiled x,
                  covers-split x last.offset last.bytes block.bytes,
                  ap (covers x last.offset) both,
                  ap (λ o. covers x o block.bytes) adjacent,
                );
                sized = omega (arith, merged.sized, both);
              })
        | inr e ↦
            let merged = merge-Regrouped block rest w a.1 in
            rw (e, merge)
              (record {
                in_range = (a.0, merged.in_range);
                tiled = λ x. omega (arith, merged.tiled x);
                sized = omega (arith, merged.sized);
              })
      ]

  merge_all-Regrouped :
      (blocks : List FreeBlock)
      → capacity < word
      → All InRange blocks
      → Regrouped blocks (merge_all blocks)
  merge_all-Regrouped [] w a = record { in_range = a; tiled = λ x. refl; sized = refl }
  merge_all-Regrouped (block ∷ rest) w a = merge-Regrouped block rest w a

  -- Sorting and merging leaves the same bytes free.
  pub coalesce-Regrouped :
      (blocks : List FreeBlock)
      → capacity < word
      → All InRange blocks
      → Regrouped blocks (coalesce blocks)
  unfolding coalesce
  coalesce-Regrouped blocks w a =
      let merged =
        merge_all-Regrouped (sort by_offset blocks) w (sort-All by_offset InRange blocks a) in
      record {
        in_range = merged.in_range;
        tiled = λ x.
            merged.tiled x
            ∙ sort-sum_of by_offset (λ block. covers x block.offset block.bytes) blocks;
        sized = merged.sized ∙ sort-sum_of by_offset (λ block. block.bytes) blocks;
      }
