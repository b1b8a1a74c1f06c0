-- ===== src/Residency/Clients.antt =====
-- What the clients of the resource manager may do while the residency manager runs.
use gpumemd.Base.{ℕ, ◌≡◌, refl, ◌∙◌, ap, arith, erase, sub64, Text, Option-cases, inl, inr, find}
use gpumemd.Resource.{Manager, AcquireOptions, try_acquire, acquire, enqueue, reserve}
use gpumemd.Resource.Waiting.{wait_round, time_out, cancel_waiters}
use gpumemd.Resource.Models.{release}
use gpumemd.Resource.Accounting.{IsConsistent}
use gpumemd.Resource.Reachable.{
  Step, Step-IsConsistent, tries, acquires, rounds, times_out, releases, cancels,
}
use gpumemd.Resource.Replacing.{grant_waiters-models}
use gpumemd.Residency.{Moment}
use gpumemd.Residency.Committing.{Behaves}

pub data ClientStep (m m' : Manager) : Type 0 where
  tries_client :
      (name : Text) (bytes now : ℕ) → m' ≡ (try_acquire name bytes now m).0 → ClientStep m m'
  acquires_client :
      (name : Text) (bytes : ℕ) (options : AcquireOptions) (now : ℕ)
      → m' ≡ (acquire name bytes options now m).0
      → ClientStep m m'
  rounds_client : (sequence now : ℕ) → m' ≡ (wait_round sequence now m).0 → ClientStep m m'
  times_out_client : (sequence : ℕ) → m' ≡ time_out sequence m → ClientStep m m'
  releases_client : (name : Text) (now : ℕ) → m' ≡ (release name now m).0 → ClientStep m m'
  cancels_clients : m' ≡ cancel_waiters m → ClientStep m m'

pub data ClientReach (start : Manager) : Manager → Type 0 where
  here : ClientReach start start
  next : {m m' : Manager} → ClientReach start m → ClientStep m m' → ClientReach start m'

any_step : {m m' : Manager} → ClientStep m m' → Step m m'
any_step (tries_client name bytes now e) = tries name bytes now e
any_step (acquires_client name bytes options now e) = acquires name bytes options now e
any_step (rounds_client sequence now e) = rounds sequence now e
any_step (times_out_client sequence e) = times_out sequence e
any_step (releases_client name now e) = releases name now e
any_step (cancels_clients e) = cancels e

abbrev pub Models : Manager → Manager → Type 0
Models m m' = m'.model_reservations ≡ m.model_reservations

try_acquire-models :
    (name : Text) (bytes now : ℕ) (m : Manager) → Models m (try_acquire name bytes now m).0
unfolding try_acquire
try_acquire-models name bytes now m =
    ground (arith, grant_waiters-models now (reserve name bytes m))

acquire-models :
    (name : Text) (bytes : ℕ) (options : AcquireOptions) (now : ℕ) (m : Manager)
    → Models m (acquire name bytes options now m).0
unfolding acquire
acquire-models name bytes options now m = ground (
  arith,
  try_acquire-models name bytes now m,
  grant_waiters-models now (enqueue name bytes options now m),
)

wait_round-models : (sequence now : ℕ) (m : Manager) → Models m (wait_round sequence now m).0
unfolding wait_round
wait_round-models sequence now m = ground (arith, grant_waiters-models now m)

time_out-models : (sequence : ℕ) (m : Manager) → Models m (time_out sequence m)
unfolding time_out
time_out-models sequence m = ground arith

release-models : (name : Text) (now : ℕ) (m : Manager) → Models m (release name now m).0
unfolding release
release-models name now m = elim (Option-cases (find name m.reservations)) [
  | inl e ↦ ground arith
  | inr (bytes, e) ↦ ground (
    arith,
    grant_waiters-models now
        (record m { reservations = erase name m.reservations; used = sub64 m.used bytes }),
  )
]

cancel_waiters-models : (m : Manager) → Models m (cancel_waiters m)
unfolding cancel_waiters
cancel_waiters-models m = refl

pub ClientStep-models : {m m' : Manager} → ClientStep m m' → Models m m'
ClientStep-models {m} (tries_client name bytes now e) =
    ap (λ (n : Manager). n.model_reservations) e ∙ try_acquire-models name bytes now m
ClientStep-models {m} (acquires_client name bytes options now e) =
    ap (λ (n : Manager). n.model_reservations) e ∙ acquire-models name bytes options now m
ClientStep-models {m} (rounds_client sequence now e) =
    ap (λ (n : Manager). n.model_reservations) e ∙ wait_round-models sequence now m
ClientStep-models {m} (times_out_client sequence e) =
    ap (λ (n : Manager). n.model_reservations) e ∙ time_out-models sequence m
ClientStep-models {m} (releases_client name now e) =
    ap (λ (n : Manager). n.model_reservations) e ∙ release-models name now m
ClientStep-models {m} (cancels_clients e) =
    ap (λ (n : Manager). n.model_reservations) e ∙ cancel_waiters-models m

pub ClientStep-IsConsistent : {m m' : Manager} → ClientStep m m' → IsConsistent m → IsConsistent m'
ClientStep-IsConsistent s = Step-IsConsistent (any_step s)

ClientReach-models : {m m' : Manager} → ClientReach m m' → Models m m'
ClientReach-models here = refl
ClientReach-models (next r s) = ClientStep-models s ∙ ClientReach-models r

ClientReach-IsConsistent : {m m' : Manager} → ClientReach m m' → IsConsistent m → IsConsistent m'
ClientReach-IsConsistent here v = v
ClientReach-IsConsistent (next r s) v = ClientStep-IsConsistent s (ClientReach-IsConsistent r v)

-- A run of the clients is what `load` allows of other threads.
pub ClientReach-Behaves :
    (moment : Moment) (m : Manager)
    → ClientReach m (moment.others m)
    → IsConsistent m
    → Behaves moment m
ClientReach-Behaves moment m r v = record {
  consistent = ClientReach-IsConsistent r v;
  models = ClientReach-models r;
}
