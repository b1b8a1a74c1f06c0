-- ===== src/Resource/Reachable.antt =====
-- The manager under any interleaving of its clients. Each operation, and each stretch of `acquire`
-- between two waits, runs under `mutex_`: a history is a sequence of such steps.
use gpumemd.Base.{ℕ, ◌<◌, ◌≡◌, subst, sym, some, List, Text, arith, word}
use gpumemd.Resource.{Manager, SchedulingPolicy, AcquireOptions, create, try_acquire, acquire}
use gpumemd.Resource.Waiting.{wait_round, time_out, cancel_waiters}
use gpumemd.Resource.Models.{release, acquire_model, release_model, replace_model_reservations}
use gpumemd.Resource.Accounting.{IsConsistent}
use gpumemd.Resource.Invariant.{try_acquire-IsConsistent}
use gpumemd.Resource.Steps.{
  acquire-IsConsistent, wait_round-IsConsistent, time_out-IsConsistent, cancel_waiters-IsConsistent,
  release-IsConsistent, acquire_model-IsConsistent, release_model-IsConsistent,
}
use gpumemd.Resource.Replacing.{replace-IsConsistent}

pub data Step (m m' : Manager) : Type 0 where
  tries : (name : Text) (bytes now : ℕ) → m' ≡ (try_acquire name bytes now m).0 → Step m m'
  acquires :
      (name : Text) (bytes : ℕ) (options : AcquireOptions) (now : ℕ)
      → m' ≡ (acquire name bytes options now m).0
      → Step m m'
  rounds : (sequence now : ℕ) → m' ≡ (wait_round sequence now m).0 → Step m m'
  times_out : (sequence : ℕ) → m' ≡ time_out sequence m → Step m m'
  releases : (name : Text) (now : ℕ) → m' ≡ (release name now m).0 → Step m m'
  acquires_model : (id : Text) (bytes : ℕ) → m' ≡ (acquire_model id bytes m).0 → Step m m'
  releases_model : (id : Text) (now : ℕ) → m' ≡ (release_model id now m).0 → Step m m'
  replaces :
      (evictions : List Text) (id : Text) (bytes now : ℕ)
      → m' ≡ (replace_model_reservations evictions id bytes now m).0
      → Step m m'
  cancels : m' ≡ cancel_waiters m → Step m m'

pub data Reach (start : Manager) : Manager → Type 0 where
  here : Reach start start
  next : {m m' : Manager} → Reach start m → Step m m' → Reach start m'

along : {m m' : Manager} → m' ≡ m → IsConsistent m → IsConsistent m'
along e v = subst IsConsistent (sym e) v

pub Step-IsConsistent : {m m' : Manager} → Step m m' → IsConsistent m → IsConsistent m'
Step-IsConsistent (tries name bytes now e) v = along e (try_acquire-IsConsistent name bytes now v)
Step-IsConsistent (acquires name bytes options now e) v =
    along e (acquire-IsConsistent name bytes options now v)
Step-IsConsistent (rounds sequence now e) v = along e (wait_round-IsConsistent sequence now v)
Step-IsConsistent (times_out sequence e) v = along e (time_out-IsConsistent sequence v)
Step-IsConsistent (releases name now e) v = along e (release-IsConsistent name now v)
Step-IsConsistent (acquires_model id bytes e) v = along e (acquire_model-IsConsistent id bytes v)
Step-IsConsistent (releases_model id now e) v = along e (release_model-IsConsistent id now v)
Step-IsConsistent (replaces evictions id bytes now e) v =
    along e (replace-IsConsistent evictions id bytes now v)
Step-IsConsistent (cancels e) v = along e (cancel_waiters-IsConsistent v)

Reach-keeps : {m m' : Manager} → Reach m m' → IsConsistent m → IsConsistent m'
Reach-keeps here v = v
Reach-keeps (next r s) v = Step-IsConsistent s (Reach-keeps r v)

pub create-IsConsistent :
    (capacity : ℕ) (policy : SchedulingPolicy) {m : Manager}
    → capacity < word
    → create capacity policy ≡ some m
    → IsConsistent m
unfolding create
create-IsConsistent capacity policy h e = ground arith

-- Whatever the clients do, and however their calls and waits interleave, a manager that was created
-- with a 64-bit capacity keeps its invariant: `used_` is the sum of the reservations of clients and
-- models and is at most the capacity, no name is reserved twice, and no waiting client holds a
-- reservation, waits twice, or asks for nothing or for more than the capacity.
pub Reach-IsConsistent :
    (capacity : ℕ) (policy : SchedulingPolicy) (start m : Manager)
    → capacity < word
    → create capacity policy ≡ some start
    → Reach start m
    → IsConsistent m
Reach-IsConsistent capacity policy start m h e r =
    Reach-keeps r (create-IsConsistent capacity policy h e)
