-- ===== src/Resource/Replacing.antt =====
-- `ResourceManager::replace_model_reservations`: evictions and the new reservation in one step.
use gpumemd.Base.{
  ℕ, ◌+◌, ◌≤◌, ◌<◌, ◌≡◌, refl, ◌∙◌, ◌≢◌, ◌⊎◌, Bool, false, none, some, List, [], ◌∷◌, arith, Text,
  text_eq, text_eq_iff, contains, erase, find, find-erase_ne, find-erase_self, find-emplace,
  contains-find, word, add64, add64_exact, Option-cases, Bool-cases, inl, inr, ltb, ◌==◌, ltb→le,
  any_of, length, All, if◌then◌else◌,
}
use gpumemd.Names.{valid_name}
use gpumemd.Resource.{
  Manager, OperationResult, free, grant_waiters, grant, drop_expired, failed, granted, ErrorCode,
  ok, invalid_name, invalid_size, duplicate_client, unknown_client, insufficient_memory,
}
use gpumemd.Resource.Models.{
  reserve_model, unreserve_model, has_duplicate, evicted_bytes, evict, replace_model_reservations,
}
use gpumemd.Resource.Accounting.{
  IsConsistent, free_exact, grant_waiters-IsConsistent, grant_all_inv,
}
use gpumemd.Resource.Invariant.{reserve_model-IsConsistent, unreserve_model-IsConsistent}

abbrev pub among : Text → List Text → Bool
among name = any_of λ other. text_eq other name

abbrev Distinct : List Text → Type 0
Distinct [] = Unit
Distinct (name ∷ rest) = (among name rest ≡ false) × Distinct rest

All-among :
    (name : Text) (rest seen : List Text)
    → any_of (λ other. text_eq other name) seen ≡ false
    → All (λ other. among other rest ≡ false) seen
    → All (λ other. among other (name ∷ rest) ≡ false) seen
All-among name rest [] h a = tt
All-among name rest (other ∷ seen) h a = ground (
  arith,
  All-among name rest seen (ground arith) a.1,
  text_eq_iff other name,
  text_eq_iff name other,
)

has_duplicate-Distinct :
    (seen evictions : List Text)
    → has_duplicate seen evictions ≡ false
    → Distinct evictions × All (λ other. among other evictions ≡ false) seen
unfolding has_duplicate
has_duplicate-Distinct seen [] h = (tt, none_among seen)
  where
    none_among : (seen : List Text) → All (λ other. among other [] ≡ false) seen
    none_among [] = tt
    none_among (other ∷ rest) = (refl, none_among rest)
has_duplicate-Distinct seen (name ∷ rest) h =
    let (distinct, apart) = has_duplicate-Distinct (name ∷ seen) rest (ground arith) in
    ((apart.0, distinct), All-among name rest seen (ground arith) apart.1)

evicted_bytes-erase :
    (name : Text) (models : List (Text × ℕ)) (sum : ℕ) (rest : List Text)
    → among name rest ≡ false
    → evicted_bytes (erase name models) sum rest ≡ evicted_bytes models sum rest
unfolding evicted_bytes
evicted_bytes-erase name models sum [] h = refl
evicted_bytes-erase name models sum (other ∷ rest) h =
    let same =
      find-erase_ne name other models
        (ground (arith, text_eq_iff name other, text_eq_iff other name)) in
    elim (Option-cases (find other models)) [
      | inl e ↦ rw (evicted_bytes, same, e)
      | inr (bytes, e) ↦
          rw (evicted_bytes, same, e)
            (evicted_bytes-erase name models (add64 sum bytes) rest (ground arith))
    ]

-- `m'` is `m` with the evictions taken out, which freed `sum - start` bytes.
pub record Evicts (evictions : List Text) (m m' : Manager) (start sum : ℕ) : Type 0 where
  pub consistent : IsConsistent m'
  pub freed : m'.used + sum ≡ m.used + start
  pub capacity : m'.capacity ≡ m.capacity
  pub reservations : m'.reservations ≡ m.reservations
  pub pending : m'.pending ≡ m.pending
  pub models :
      (id : Text)
      → find id m'.model_reservations
        ≡ (if among id evictions then none else find id m.model_reservations)

evict-Evicts :
    (evictions : List Text) (m : Manager) (start sum : ℕ)
    → IsConsistent m
    → Distinct evictions
    → start + m.used < word
    → evicted_bytes m.model_reservations start evictions ≡ some sum
    → Evicts evictions m (evict evictions m) start sum
unfolding evict evicted_bytes
evict-Evicts [] m start sum v d w h = record {
  consistent = v;
  freed = ground arith;
  capacity = refl;
  reservations = refl;
  pending = refl;
  models = λ id. refl;
}
evict-Evicts (name ∷ rest) m start sum v d w h =
    elim (Option-cases (find name m.model_reservations)) [
      | inl e ↦ absurd (ground arith)
      | inr (bytes, e) ↦
          let (v', back) = unreserve_model-IsConsistent name bytes v e in
          let exact = add64_exact start bytes (omega (arith, back)) in
          let found : evicted_bytes m.model_reservations (add64 start bytes) rest ≡ some sum =
            rw (e, evicted_bytes) at h in
          let next =
            evict-Evicts rest (unreserve_model name bytes m) (add64 start bytes) sum v' d.1
              (omega (arith, exact, back))
              (evicted_bytes-erase name m.model_reservations (add64 start bytes) rest d.0
                ∙ found) in
          rw (e, evict)
            (record {
              consistent = next.consistent;
              freed = omega (arith, next.freed, exact, back);
              capacity = next.capacity;
              reservations = next.reservations;
              pending = next.pending;
              models = λ id. ground (
                arith,
                next.models id,
                find-erase_ne name id m.model_reservations,
                find-erase_self name m.model_reservations v.models,
                text_eq_iff name id,
              );
            })
    ]

pub grant_waiters-models :
    (now : ℕ) (m : Manager) → (grant_waiters now m).model_reservations ≡ m.model_reservations
unfolding grant_waiters
grant_waiters-models now m =
    grant_all_inv (λ n. n.model_reservations ≡ m.model_reservations)
      (λ m' index request p e at fits. unfold grant in p) (length (drop_expired now m).pending)
      (drop_expired now m) (unfold drop_expired in refl)

-- `m'` has the new reservation in place of the evictions.
record Replaced (evictions : List Text) (id : Text) (bytes : ℕ) (m m' : Manager) : Type 0 where
  consistent : IsConsistent m'
  models :
      (other : Text)
      → find other m'.model_reservations ≡ (
          if text_eq id other
          then some bytes
          else if among other evictions
          then none
          else find other m.model_reservations)

reserve_evicted :
    (evictions : List Text) (id : Text) (bytes sum : ℕ) (m : Manager)
    → IsConsistent m
    → contains id m.model_reservations ≡ false
    → has_duplicate [] evictions ≡ false
    → evicted_bytes m.model_reservations 0 evictions ≡ some sum
    → bytes ≤ add64 (free m) sum
    → Replaced evictions id bytes m (reserve_model id bytes (evict evictions m))
reserve_evicted evictions id bytes sum m v fresh distinct adds fits =
    let d = (has_duplicate-Distinct [] evictions distinct).0 in
    let out = evict-Evicts evictions m 0 sum v d (omega (arith, v.within, v.fits_word)) adds in
    let m' = evict evictions m in
    let unused : contains id m'.model_reservations ≡ false = ground (
      arith,
      out.models id,
      contains-find id m'.model_reservations,
      contains-find id m.model_reservations,
    ) in
    let sums =
      add64_exact (free m) sum (omega (arith, free_exact v, out.freed, v.within, v.fits_word)) in
    record {
      consistent =
          reserve_model-IsConsistent id bytes out.consistent unused
            (omega (arith, free_exact v, free_exact out.consistent, out.freed, out.capacity, sums));
      models = λ other.
          ground
            (arith, out.models other, find-emplace id other bytes m'.model_reservations unused);
    }

-- To reason about `replace_model_reservations` on all of its branches.
replace_cases {ℓ} :
    (P : Manager × OperationResult → Type ℓ) (evictions : List Text) (id : Text) (bytes now : ℕ)
    (m : Manager)
    → IsConsistent m
    → ((e : ErrorCode) → e ≢ ok → P (m, failed e))
    → ((m' : Manager) → Replaced evictions id bytes m m' → P (grant_waiters now m', granted bytes))
    → P (replace_model_reservations evictions id bytes now m)
unfolding replace_model_reservations
replace_cases P evictions id bytes now m v fails succeeds = elim (Bool-cases (valid_name id)) [
  | inr e ↦ rw e (fails invalid_name (λ q. cc))
  | inl e ↦ rw e (elim (Bool-cases (bytes == 0)) [
    | inl z ↦ rw z (fails invalid_size (λ q. cc))
    | inr z ↦ rw z (elim (Bool-cases (contains id m.model_reservations)) [
      | inl c ↦ rw c (fails duplicate_client (λ q. cc))
      | inr c ↦ rw c (elim (Bool-cases (has_duplicate [] evictions)) [
        | inl d ↦ rw d (fails duplicate_client (λ q. cc))
        | inr d ↦ rw d (elim (Option-cases (evicted_bytes m.model_reservations 0 evictions)) [
          | inl n ↦ rw n (fails unknown_client (λ q. cc))
          | inr (sum, a) ↦ rw a (elim (Bool-cases (ltb (add64 (free m) sum) bytes)) [
            | inl f ↦ rw f (fails insufficient_memory (λ q. cc))
            | inr f ↦ rw f (
                succeeds _ (
                  reserve_evicted evictions id bytes sum m v c d a
                    (ltb→le (add64 (free m) sum) bytes f)))
          ])
        ])
      ])
    ])
  ])
]

pub replace-IsConsistent :
    (evictions : List Text) (id : Text) (bytes now : ℕ) {m : Manager}
    → IsConsistent m
    → IsConsistent (replace_model_reservations evictions id bytes now m).0
replace-IsConsistent evictions id bytes now {m} v =
    replace_cases (λ r. IsConsistent r.0) evictions id bytes now m v (λ e q. v)
      (λ m' r. grant_waiters-IsConsistent now r.consistent)

-- `replace_model_reservations` does all or nothing. Where it fails the manager is as it was; where it
-- succeeds the manager reserves `bytes` for `id`, has no reservation for an evicted model, and has
-- every other model's reservation as before.
pub replace_atomic :
    (evictions : List Text) (id : Text) (bytes now : ℕ) (m : Manager)
    → IsConsistent m
    → let (m', result) = replace_model_reservations evictions id bytes now m in
      ((result.error ≢ ok) × (m' ≡ m))
      ⊎ ((result ≡ granted bytes)
          × ((other : Text)
              → find other m'.model_reservations ≡ (
                  if text_eq id other
                  then some bytes
                  else if among other evictions
                  then none
                  else find other m.model_reservations)))
replace_atomic evictions id bytes now m v =
    replace_cases
      (λ r.
        ((r.1.error ≢ ok) × (r.0 ≡ m))
        ⊎ ((r.1 ≡ granted bytes)
            × ((other : Text)
                → find other r.0.model_reservations ≡ (
                    if text_eq id other
                    then some bytes
                    else if among other evictions
                    then none
                    else find other m.model_reservations))))
      evictions id bytes now m v (λ e q. inl (q, refl))
      (λ m' r. inr (refl, λ other. rw (grant_waiters-models now m') (r.models other)))
