-- ===== src/Examples/Resources.antt =====
-- The theorems on the resource manager, the registry and the loader at concrete inputs.
use gpumemd.Base.{
  ◌+◌, ◌*◌, ◌≤◌, ◌<◌, ◌≡◌, ◌≢◌, ◌⊎◌, refl, false, none, some, [], ◌∷◌, Text, codes, arith, All, pos,
  pos_part, find, text_eq, if◌then◌else◌, contains, IsSorted, sum_of,
}
use gpumemd.Names.{valid_name}
use gpumemd.Resource.{
  create, try_acquire, acquire, deadline_of, time_max, grant_waiters, granted, failed, timeout, ok,
  returns, priority_fifo, select, has_name, waits,
}
use gpumemd.Resource.Models.{release, replace_model_reservations, status, by_name}
use gpumemd.Resource.Waiting.{completed, wait_round, time_out, cancel_waiters}
use gpumemd.Resource.Selection.{select_lem, Chosen, MayWait}
use gpumemd.Resource.Accounting.{IsConsistent}
use gpumemd.Resource.Granting.{grant_waiters-exhaustive, NoneFits, NoneExpired}
use gpumemd.Resource.Reachable.{Reach-IsConsistent, here, next, tries, acquires}
use gpumemd.Resource.Reachable
use gpumemd.Resource.Replacing.{replace_atomic, among}
use gpumemd.Resource.Outcomes.{deadline_of_lem, release_frees}
use gpumemd.Resource.Notified.{Wakes, Step-Wakes}
use gpumemd.Resource.Reachable.{cancels}
use gpumemd.Resource.Wakeups.{wait_round-time_out}
use gpumemd.Resource.Status.{status_lem}
use gpumemd.Registry.{empty}
use gpumemd.Registry.History.{registers, retains, run, replay, ref_count, run-expected}
use gpumemd.Examples.Fixtures.{alice, bob, bert, new_manager, options, request, busy, files}

busy-IsConsistent : IsConsistent busy
unfolding contains text_eq waits
busy-IsConsistent = record {
  fits_word = omega arith;
  accounted = refl;
  within = omega arith;
  clients = (refl, tt);
  models = (refl, tt);
  queued = (refl, refl, omega arith, omega arith, tt);
}

Reach-IsConsistent_example :
    IsConsistent
      (release alice 1_500
        (acquire bob 50 options 1_000 (try_acquire alice 60 1_000 new_manager).0).0).0
unfolding create
Reach-IsConsistent_example =
    Reach-IsConsistent 100 priority_fifo new_manager
      (release alice 1_500
        (acquire bob 50 options 1_000 (try_acquire alice 60 1_000 new_manager).0).0).0
      (omega arith) refl
      (next (next (next here (tries alice 60 1_000 refl)) (acquires bob 50 options 1_000 refl))
        (Reachable.releases alice 1_500 refl))

grant_waiters-exhaustive_example :
    NoneFits (grant_waiters 1_500 busy) × NoneExpired 1_500 (grant_waiters 1_500 busy)
grant_waiters-exhaustive_example = grant_waiters-exhaustive 1_500 busy

select_lem_example :
    Chosen
      (request bob 50 4 ∷ request alice 20 5 ∷ [])
      40
      (select priority_fifo 40 0 (request bob 50 4 ∷ request alice 20 5 ∷ []) none)
    × All
        (MayWait priority_fifo 40
          (select priority_fifo 40 0 (request bob 50 4 ∷ request alice 20 5 ∷ []) none))
        (request bob 50 4 ∷ request alice 20 5 ∷ [])
select_lem_example = select_lem priority_fifo 40 (request bob 50 4 ∷ request alice 20 5 ∷ [])

replace_atomic_example :
    let (m', result) = replace_model_reservations (bert ∷ []) (codes "gpt") 35 1_500 busy in
    ((result.error ≢ ok) × (m' ≡ busy))
    ⊎ ((result ≡ granted 35)
        × ((other : Text)
            → find other m'.model_reservations ≡ (
                if text_eq (codes "gpt") other
                then some 35
                else if among other (bert ∷ [])
                then none
                else find other busy.model_reservations)))
replace_atomic_example = replace_atomic (bert ∷ []) (codes "gpt") 35 1_500 busy busy-IsConsistent

run-expected_example :
    ref_count files bert (run files empty (registers bert 30 (codes "v1") ∷ retains bert ∷ []))
    ≡ replay files (registers bert 30 (codes "v1") ∷ retains bert ∷ []) bert none
run-expected_example =
    run-expected files (registers bert 30 (codes "v1") ∷ retains bert ∷ []) bert (omega arith)

deadline_of_lem_example :
    (1_500 ≤ deadline_of 1_500 (pos 20))
    × (deadline_of 1_500 (pos 20) ≤ time_max)
    × (((1_500 + pos_part (pos 20) * 1_000_000 ≤ time_max)
          × (deadline_of 1_500 (pos 20) ≡ 1_500 + pos_part (pos 20) * 1_000_000))
        ⊎ ((time_max < 1_500 + pos_part (pos 20) * 1_000_000)
            × (deadline_of 1_500 (pos 20) ≡ time_max)))
deadline_of_lem_example = deadline_of_lem 1_500 (pos 20) (omega arith) (λ h. cc)

release_frees_example :
    ((release alice 1_500 busy).1 ≡ granted 60)
    × (has_name alice (release alice 1_500 busy).0 ≡ false)
unfolding valid_name find text_eq
release_frees_example = release_frees alice 60 1_500 busy busy-IsConsistent refl refl

wait_round-time_out_example : wait_round 4 1_500 (time_out 4 busy) ≡ (
  time_out 4 busy,
  elim (completed 4 busy) [ none ↦ returns (failed timeout) | some r ↦ returns r.result ],
)
unfolding completed
wait_round-time_out_example = wait_round-time_out 4 1_500 busy refl

Step-Wakes_example : Wakes busy (cancel_waiters busy)
Step-Wakes_example = Step-Wakes (cancels refl)

status_lem_example :
    (sum_of (λ r. r.bytes) (status busy).reservations ≡ (status busy).used)
    × ((status busy).used + (status busy).free ≡ (status busy).capacity)
    × IsSorted by_name (status busy).reservations
status_lem_example = status_lem busy busy-IsConsistent
