-- ===== src/Resource/Notified.antt =====
-- Which steps of `ResourceManager` wake the threads that wait.
use gpumemd.Base.{
  ℕ, suc, ◌<◌, ◌≡◌, ◌⊎◌, refl, sym, subst, arith, Text, List, find, Option-cases, Bool-cases, inl,
  inr, length, erase, sub64, [], ◌∷◌,
}
use gpumemd.Names.{valid_name}
use gpumemd.Resource.{
  Manager, AcquireOptions, grant, grant_all, drop_expired, grant_waiters, try_acquire, acquire,
  enqueue, reserve,
}
use gpumemd.Resource.Waiting.{wait_round, time_out, cancel_waiters}
use gpumemd.Resource.Models.{
  release, acquire_model, release_model, replace_model_reservations, unreserve_model, reserve_model,
  evict, evicted_bytes,
}
use gpumemd.Resource.Accounting.{grant_all_inv}
use gpumemd.Resource.Reachable.{
  Step, tries, acquires, rounds, times_out, releases, acquires_model, releases_model, replaces,
  cancels,
}

-- No request has been completed, or every thread that waited has been woken, or the step is the end of
-- the waiting of a thread, which is awake itself.
abbrev pub Wakes : Manager → Manager → Type 0
Wakes m m' =
    (m'.finished ≡ m.finished)
    ⊎ ((m.notified < m'.notified) ⊎ ((sequence : ℕ) × (m' ≡ time_out sequence m)))

grant_waiters-notified : (now : ℕ) (m : Manager) → (grant_waiters now m).notified ≡ suc m.notified
unfolding grant_waiters drop_expired
grant_waiters-notified now m =
    let kept : (grant_all (length (drop_expired now m).pending) (drop_expired now m)).notified
        ≡ m.notified =
      grant_all_inv (λ m'. m'.notified ≡ m.notified)
        (λ m' index request e chosen at fits. unfold grant in e)
        (length (drop_expired now m).pending) (drop_expired now m) refl in
    omega (arith, kept)

try_acquire-Wakes :
    (name : Text) (bytes now : ℕ) (m : Manager) → Wakes m (try_acquire name bytes now m).0
unfolding try_acquire
try_acquire-Wakes name bytes now m =
    ground (arith, grant_waiters-notified now (reserve name bytes m))

acquire-Wakes :
    (name : Text) (bytes : ℕ) (options : AcquireOptions) (now : ℕ) (m : Manager)
    → Wakes m (acquire name bytes options now m).0
unfolding acquire
acquire-Wakes name bytes options now m = ground (
  arith,
  try_acquire-Wakes name bytes now m,
  grant_waiters-notified now (enqueue name bytes options now m),
)

wait_round-Wakes : (sequence now : ℕ) (m : Manager) → Wakes m (wait_round sequence now m).0
unfolding wait_round
wait_round-Wakes sequence now m = ground (arith, grant_waiters-notified now m)

release-Wakes : (name : Text) (now : ℕ) (m : Manager) → Wakes m (release name now m).0
unfolding release
release-Wakes name now m = elim (Bool-cases (valid_name name)) [
  | inr e ↦ rw e (inl refl)
  | inl e ↦ rw e (elim (Option-cases (find name m.reservations)) [
    | inl f ↦ rw f (inl refl)
    | inr (bytes, f) ↦ rw f (
        inr (
          inl (
            omega (
              arith,
              grant_waiters-notified now (record m {
                reservations = erase name m.reservations;
                used = sub64 m.used bytes;
              }),
            ))))
  ])
]

acquire_model-Wakes : (id : Text) (bytes : ℕ) (m : Manager) → Wakes m (acquire_model id bytes m).0
unfolding acquire_model
acquire_model-Wakes id bytes m = ground arith

release_model-Wakes : (id : Text) (now : ℕ) (m : Manager) → Wakes m (release_model id now m).0
unfolding release_model
release_model-Wakes id now m = elim (Bool-cases (valid_name id)) [
  | inr e ↦ rw e (inl refl)
  | inl e ↦ rw e (elim (Option-cases (find id m.model_reservations)) [
    | inl f ↦ rw f (inl refl)
    | inr (bytes, f) ↦
        rw f (inr (inl (omega (arith, grant_waiters-notified now (unreserve_model id bytes m)))))
  ])
]

evict-notified : (evictions : List Text) (m : Manager) → (evict evictions m).notified ≡ m.notified
unfolding evict
evict-notified [] m = refl
evict-notified (eviction ∷ rest) m = elim (Option-cases (find eviction m.model_reservations)) [
  | inl e ↦ rw (evict, e) refl
  | inr (bytes, e) ↦ rw (evict, e) (evict-notified rest (unreserve_model eviction bytes m))
]

replace-Wakes :
    (evictions : List Text) (id : Text) (bytes now : ℕ) (m : Manager)
    → Wakes m (replace_model_reservations evictions id bytes now m).0
unfolding replace_model_reservations
replace-Wakes evictions id bytes now m =
    elim (Option-cases (evicted_bytes m.model_reservations 0 evictions)) [
      | inl e ↦ ground arith
      | inr (sum, e) ↦ ground (
        arith,
        grant_waiters-notified now (reserve_model id bytes (evict evictions m)),
        evict-notified evictions m,
      )
    ]

-- No wake-up is lost: whenever a step completes a waiting request, by a grant, by its deadline or because
-- the waiters are cancelled, it calls `notify_all` too, unless it is the thread of that request that
-- gives up waiting itself.
pub Step-Wakes : {m m' : Manager} → Step m m' → Wakes m m'
unfolding cancel_waiters
Step-Wakes {m} (tries name bytes now e) =
    subst (Wakes m) (sym e) (try_acquire-Wakes name bytes now m)
Step-Wakes {m} (acquires name bytes options now e) =
    subst (Wakes m) (sym e) (acquire-Wakes name bytes options now m)
Step-Wakes {m} (rounds sequence now e) = subst (Wakes m) (sym e) (wait_round-Wakes sequence now m)
Step-Wakes (times_out sequence e) = inr (inr (sequence, e))
Step-Wakes {m} (releases name now e) = subst (Wakes m) (sym e) (release-Wakes name now m)
Step-Wakes {m} (acquires_model id bytes e) =
    subst (Wakes m) (sym e) (acquire_model-Wakes id bytes m)
Step-Wakes {m} (releases_model id now e) = subst (Wakes m) (sym e) (release_model-Wakes id now m)
Step-Wakes {m} (replaces evictions id bytes now e) =
    subst (Wakes m) (sym e) (replace-Wakes evictions id bytes now m)
Step-Wakes {m} (cancels e) = subst (Wakes m) (sym e) (inr (inl (omega arith)))
