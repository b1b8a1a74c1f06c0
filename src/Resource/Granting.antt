-- ===== src/Resource/Granting.antt =====
-- What `grant_waiters_locked` leaves behind.
use gpumemd.Base.{
  ℕ, zero, suc, ◌≤◌, ◌<◌, ◌≡◌, false, none, some, List, [], ◌∷◌, arith, length, length-erase_at,
  Option-cases, inl, inr, All, All-erase_at,
}
use gpumemd.Resource.{
  Manager, PendingRequest, free, select, grant, grant_all, drop_expired, grant_waiters, expire,
  is_expired,
}
use gpumemd.Resource.Selection.{Chosen, select_lem}
use gpumemd.Resource.Accounting.{grant_all_inv}

abbrev pub NoneFits : Manager → Type 0
NoneFits m = All (λ request. free m < request.bytes) m.pending

grant_all-NoneFits :
    (fuel : ℕ) (m : Manager) → length m.pending ≤ fuel → NoneFits (grant_all fuel m)
unfolding grant_all
grant_all-NoneFits zero m h = empty m.pending (omega arith)
  where
    empty :
        (queue : List PendingRequest)
        → length queue ≤ 0
        → All (λ request. free m < request.bytes) queue
    empty [] h = tt
    empty (request ∷ rest) h = absurd (omega arith)
grant_all-NoneFits (suc fuel) m h =
    elim (Option-cases (select m.scheduling_policy (free m) 0 m.pending none)) [
      | inl e ↦ rw (e, grant_all) (rw e at (select_lem m.scheduling_policy (free m) m.pending).1)
      | inr ((index, request), e) ↦
          let chosen : Chosen m.pending (free m) (some (index, request)) =
            rw e at (select_lem m.scheduling_policy (free m) m.pending).0 in
          rw (e, grant_all)
            (grant_all-NoneFits fuel (grant m index request)
              (unfold grant in omega (arith, length-erase_at index m.pending chosen.0)))
    ]

expire-kept :
    (now : ℕ) (queue : List PendingRequest)
    → All (λ request. is_expired now request ≡ false) (expire now queue).0
unfolding expire
expire-kept now [] = tt
expire-kept now (request ∷ rest) = ground (arith, expire-kept now rest)

abbrev pub NoneExpired : ℕ → Manager → Type 0
NoneExpired now m = All (λ request. is_expired now request ≡ false) m.pending

-- After `grant_waiters_locked(now)` no request is left in the queue that fits in the free memory, and
-- none whose deadline has come.
pub grant_waiters-exhaustive :
    (now : ℕ) (m : Manager) → NoneFits (grant_waiters now m) × NoneExpired now (grant_waiters now m)
unfolding grant_waiters
grant_waiters-exhaustive now m = (
  grant_all-NoneFits _ (drop_expired now m) (omega arith),
  grant_all_inv (NoneExpired now)
      (λ m index request p e at fits. unfold grant in All-erase_at _ index m.pending p) _ _
      (unfold drop_expired in expire-kept now m.pending),
)
