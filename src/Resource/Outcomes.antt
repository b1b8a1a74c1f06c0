-- ===== src/Resource/Outcomes.antt =====
-- What the operations of `ResourceManager` return, and what they leave behind.
use gpumemd.Base.{
  ℕ, ◌+◌, ◌*◌, ◌≤◌, ◌<◌, ◌≡◌, ◌≢◌, ◌⊎◌, refl, true, false, some, arith, Text, contains, erase, find,
  contains-erase_self, contains-find, contains-emplace, sub64, length, ℤ, pos, negsuc, pos_part,
}
use gpumemd.Names.{valid_name}
use gpumemd.Resource.{
  Manager, OperationResult, AcquireOptions, waiting, free, grant_waiters, grant, drop_expired,
  granted, ok, waits, has_name, try_acquire, acquire, deadline_of, time_max, millis_max,
}
use gpumemd.Resource.Models.{release, acquire_model, release_model}
use gpumemd.Resource.Queued.{waits-expire, waits-erase_at, waits-get, waits-contains}
use gpumemd.Resource.Accounting.{IsConsistent, grant_all_inv}

-- The operation succeeded, or the manager is as it was.
abbrev pub Kept : Manager → Manager × OperationResult → Type 0
Kept m r = (r.1.error ≡ ok) ⊎ (r.0 ≡ m)

-- A `try_acquire`, `release`, `acquire_model` or `release_model` that fails changes nothing.
pub failures_change_nothing :
    (name : Text) (bytes now : ℕ) (m : Manager)
    → Kept m (try_acquire name bytes now m)
      × Kept m (release name now m)
      × Kept m (acquire_model name bytes m)
      × Kept m (release_model name now m)
unfolding try_acquire release acquire_model release_model
failures_change_nothing name bytes now m = (ground arith, ground arith, ground arith, ground arith)

-- A request waits only if its name is not in use, if it asks for something that the capacity can
-- satisfy and has time to wait, and if other requests wait already or the free memory is too small.
pub acquire-waiting :
    (name : Text) (bytes : ℕ) (options : AcquireOptions) (now sequence : ℕ) (m : Manager)
    → (acquire name bytes options now m).1 ≡ waiting sequence
    → (has_name name m ≡ false)
      × (0 < bytes)
      × (bytes ≤ m.capacity)
      × (0 < pos_part options.timeout)
      × ((0 < length m.pending) ⊎ (free m < bytes))
unfolding acquire
acquire-waiting name bytes options now sequence m h = ground arith

-- No deadline lies outside the clock's range or before the wait begins. Where the end of the wait is
-- within the range, that is the deadline; otherwise there is none.
pub deadline_of_lem :
    (now : ℕ) (limit : ℤ)
    → now ≤ time_max
    → limit ≢ pos millis_max
    → (now ≤ deadline_of now limit)
      × (deadline_of now limit ≤ time_max)
      × (((now + pos_part limit * 1_000_000 ≤ time_max)
            × (deadline_of now limit ≡ now + pos_part limit * 1_000_000))
          ⊎ ((time_max < now + pos_part limit * 1_000_000) × (deadline_of now limit ≡ time_max)))
unfolding deadline_of
deadline_of_lem now (pos n) h k = (ground arith, ground arith, ground arith)
deadline_of_lem now (negsuc n) h k = (ground arith, ground arith, ground arith)

abbrev Absent : Text → Manager → Type 0
Absent name m = (contains name m.reservations ≡ false) × (waits name m.pending ≡ false)

grant_waiters-Absent :
    (name : Text) (now : ℕ) (m : Manager) → Absent name m → Absent name (grant_waiters now m)
unfolding grant_waiters
grant_waiters-Absent name now m h =
    grant_all_inv (Absent name)
      (λ m' index request p e at fits.
        unfold grant in
        (
          ground (
            arith,
            contains-emplace request.name name request.bytes m'.reservations,
            waits-get name index m'.pending request p.1 at,
          ),
          waits-erase_at name index m'.pending p.1,
        ))
      (length (drop_expired now m).pending) (drop_expired now m)
      (unfold drop_expired in (h.0, waits-expire name now m.pending h.1))

-- A client that holds a reservation can release it: the result is its size, and afterwards the name is
-- neither reserved nor waiting, whoever was granted the memory.
pub release_frees :
    (name : Text) (bytes now : ℕ) (m : Manager)
    → IsConsistent m
    → valid_name name ≡ true
    → find name m.reservations ≡ some bytes
    → ((release name now m).1 ≡ granted bytes) × (has_name name (release name now m).0 ≡ false)
unfolding release has_name
release_frees name bytes now m v valid held =
    let m' : Manager = record m {
      reservations = erase name m.reservations;
      used = sub64 m.used bytes;
    } in
    let gone : Absent name (grant_waiters now m') = grant_waiters-Absent name now m' (
      contains-erase_self name m.reservations v.clients,
      waits-contains name m.capacity m.reservations m.pending
          (ground (arith, contains-find name m.reservations)) v.queued,
    ) in
    rw (valid, held) (refl, rw (gone.0, gone.1))
