-- ===== src/Resource/Steps.antt =====
-- The rest of the operations under the invariant: `acquire` with its wait loop, `release`, and the
-- reservations of models.
use gpumemd.Base.{ℕ, ◌≤◌, ◌<◌, ◌≡◌, false, arith, Text, find, Option-cases, Bool-cases, inl, inr}
use gpumemd.Names.{valid_name}
use gpumemd.Resource.{Manager, AcquireOptions, has_name, acquire, enqueue}
use gpumemd.Resource.Waiting.{wait_round, time_out, cancel_waiters}
use gpumemd.Resource.Models.{release, acquire_model, release_model}
use gpumemd.Resource.Queued.{Queued-append, Queued-forget}
use gpumemd.Resource.Accounting.{IsConsistent, grant_waiters-IsConsistent}
use gpumemd.Resource.Invariant.{
  reserve-IsConsistent, try_acquire-IsConsistent, reserve_model-IsConsistent,
  unreserve_model-IsConsistent, unreserve-IsConsistent,
}

enqueue-IsConsistent :
    {m : Manager} (name : Text) (bytes : ℕ) (options : AcquireOptions) (now : ℕ)
    → IsConsistent m
    → has_name name m ≡ false
    → 0 < bytes
    → bytes ≤ m.capacity
    → IsConsistent (enqueue name bytes options now m)
unfolding has_name
enqueue-IsConsistent {m} name bytes options now v unused positive fits = record {
  fits_word = v.fits_word;
  accounted = v.accounted;
  within = v.within;
  clients = v.clients;
  models = v.models;
  queued =
      Queued-append m.capacity m.reservations m.pending _ v.queued (ground arith) (ground arith)
        positive fits;
}

pub acquire-IsConsistent :
    (name : Text) (bytes : ℕ) (options : AcquireOptions) (now : ℕ) {m : Manager}
    → IsConsistent m
    → IsConsistent (acquire name bytes options now m).0
unfolding acquire
acquire-IsConsistent name bytes options now {m} v = ground (
  arith,
  reserve-IsConsistent {m = m} name bytes v,
  grant_waiters-IsConsistent now {m = enqueue name bytes options now m},
  enqueue-IsConsistent {m = m} name bytes options now v,
  try_acquire-IsConsistent name bytes now {m = m} v,
)

pub wait_round-IsConsistent :
    (sequence now : ℕ) {m : Manager} → IsConsistent m → IsConsistent (wait_round sequence now m).0
unfolding wait_round
wait_round-IsConsistent sequence now {m} v = ground (arith, grant_waiters-IsConsistent now v)

pub time_out-IsConsistent :
    (sequence : ℕ) {m : Manager} → IsConsistent m → IsConsistent (time_out sequence m)
unfolding time_out
time_out-IsConsistent sequence {m} v =
    ground (arith, Queued-forget m.capacity m.reservations sequence m.pending v.queued)

pub cancel_waiters-IsConsistent : {m : Manager} → IsConsistent m → IsConsistent (cancel_waiters m)
unfolding cancel_waiters
cancel_waiters-IsConsistent v = record {
  fits_word = v.fits_word;
  accounted = v.accounted;
  within = v.within;
  clients = v.clients;
  models = v.models;
  queued = tt;
}

pub release-IsConsistent :
    (name : Text) (now : ℕ) {m : Manager} → IsConsistent m → IsConsistent (release name now m).0
unfolding release
release-IsConsistent name now {m} v = elim (Bool-cases (valid_name name)) [
  | inr e ↦ rw e v
  | inl e ↦ rw e (elim (Option-cases (find name m.reservations)) [
    | inl f ↦ rw f v
    | inr (bytes, f) ↦ rw f (grant_waiters-IsConsistent now (unreserve-IsConsistent name bytes v f))
  ])
]

pub acquire_model-IsConsistent :
    (id : Text) (bytes : ℕ) {m : Manager}
    → IsConsistent m
    → IsConsistent (acquire_model id bytes m).0
unfolding acquire_model
acquire_model-IsConsistent id bytes {m} v =
    ground (arith, reserve_model-IsConsistent {m = m} id bytes v)

pub release_model-IsConsistent :
    (id : Text) (now : ℕ) {m : Manager} → IsConsistent m → IsConsistent (release_model id now m).0
unfolding release_model
release_model-IsConsistent id now {m} v = elim (Bool-cases (valid_name id)) [
  | inr e ↦ rw e v
  | inl e ↦ rw e (elim (Option-cases (find id m.model_reservations)) [
    | inl f ↦ rw f v
    | inr (bytes, f) ↦
        rw f (grant_waiters-IsConsistent now (unreserve_model-IsConsistent id bytes v f).0)
  ])
]
