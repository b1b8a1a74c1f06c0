-- ===== src/Resource/Accounting.antt =====
-- The invariant of `ResourceManager`, and that timing requests out and granting them keeps it.
use gpumemd.Base.{
  ℕ, zero, suc, ◌+◌, ◌-◌, ◌≤◌, ◌<◌, ◌≡◌, refl, none, some, List, arith, Text, get_elem?, total,
  total-emplace, Unique, Unique-emplace, word, add64_exact, sub64_exact, Option-cases, inl, inr,
}
use gpumemd.Resource.{
  Manager, PendingRequest, free, select, grant, grant_all, drop_expired, grant_waiters, notify_all,
}
use gpumemd.Resource.Selection.{Chosen, select-Chosen}
use gpumemd.Resource.Queued.{Queued, Queued-get, Queued-grant, Queued-expire}

abbrev pub reserved : List (Text × ℕ) → ℕ
reserved = total λ bytes. bytes

-- `used_` is the sum of all reservations and at most the capacity; a name has one reservation or one
-- place in the queue.
pub record IsConsistent (m : Manager) : Type 0 where
  pub fits_word : m.capacity < word
  pub accounted : m.used ≡ reserved m.reservations + reserved m.model_reservations
  pub within : m.used ≤ m.capacity
  pub clients : Unique m.reservations
  pub models : Unique m.model_reservations
  pub queued : Queued m.capacity m.reservations m.pending

pub free_exact : {m : Manager} → IsConsistent m → free m ≡ m.capacity - m.used
free_exact {m} v = sub64_exact m.capacity m.used v.within v.fits_word

pub grant-IsConsistent :
    {m : Manager} (index : ℕ) (request : PendingRequest)
    → IsConsistent m
    → get_elem? m.pending index ≡ some request
    → request.bytes ≤ free m
    → IsConsistent (grant m index request)
unfolding grant
grant-IsConsistent {m} index request v at fits =
    let room = free_exact v in
    let fresh = (Queued-get m.capacity m.reservations index m.pending request v.queued at).0 in
    let exact = add64_exact m.used request.bytes (omega (arith, room)) in
    record {
      fits_word = v.fits_word;
      accounted =
          omega
            (arith, exact, total-emplace (λ b. b) request.name request.bytes m.reservations fresh);
      within = omega (arith, exact, room);
      clients = Unique-emplace request.name request.bytes m.reservations v.clients;
      models = v.models;
      queued = Queued-grant m.capacity m.reservations index m.pending request at v.queued;
    }

-- To reason about the loop that grants: a property that each grant keeps.
pub grant_all_inv {ℓ} :
    (P : Manager → Type ℓ)
    → ((m : Manager) (index : ℕ) (request : PendingRequest)
        → P m
        → select m.scheduling_policy (free m) 0 m.pending none ≡ some (index, request)
        → get_elem? m.pending index ≡ some request
        → request.bytes ≤ free m
        → P (grant m index request))
    → (fuel : ℕ) (m : Manager) → P m
    → P (grant_all fuel m)
unfolding grant_all
grant_all_inv P keep zero m p = p
grant_all_inv P keep (suc fuel) m p =
    elim (Option-cases (select m.scheduling_policy (free m) 0 m.pending none)) [
      | inl e ↦ rw (e, grant_all) p
      | inr ((index, request), e) ↦
          let chosen : Chosen m.pending (free m) (some (index, request)) =
            rw e at
              (select-Chosen m.scheduling_policy (free m) m.pending 0 m.pending none refl tt) in
          rw (e, grant_all)
            (grant_all_inv P keep fuel (grant m index request)
              (keep m index request p e chosen.0 chosen.1))
    ]

pub grant_all-IsConsistent :
    (fuel : ℕ) {m : Manager} → IsConsistent m → IsConsistent (grant_all fuel m)
grant_all-IsConsistent fuel {m} =
    grant_all_inv IsConsistent
      (λ m index request v e at fits. grant-IsConsistent index request v at fits) fuel m

pub drop_expired-IsConsistent :
    (now : ℕ) {m : Manager} → IsConsistent m → IsConsistent (drop_expired now m)
unfolding drop_expired
drop_expired-IsConsistent now {m} v = record {
  fits_word = v.fits_word;
  accounted = v.accounted;
  within = v.within;
  clients = v.clients;
  models = v.models;
  queued = Queued-expire m.capacity m.reservations now m.pending v.queued;
}

notify_all-IsConsistent : {m : Manager} → IsConsistent m → IsConsistent (notify_all m)
notify_all-IsConsistent v = record {
  fits_word = v.fits_word;
  accounted = v.accounted;
  within = v.within;
  clients = v.clients;
  models = v.models;
  queued = v.queued;
}

-- `grant_waiters_locked` keeps the invariant.
pub grant_waiters-IsConsistent :
    (now : ℕ) {m : Manager} → IsConsistent m → IsConsistent (grant_waiters now m)
unfolding grant_waiters
grant_waiters-IsConsistent now {m} v =
    notify_all-IsConsistent (grant_all-IsConsistent _ (drop_expired-IsConsistent now v))
