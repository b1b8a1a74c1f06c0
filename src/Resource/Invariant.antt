-- ===== src/Resource/Invariant.antt =====
-- Every operation of `ResourceManager` keeps its invariant.
use gpumemd.Base.{
  ℕ, ◌+◌, ◌≤◌, ◌≡◌, false, some, arith, Text, contains, erase, find, total-emplace, total-erase,
  Unique-emplace, Unique-erase, sub64, add64_exact, sub64_exact,
}
use gpumemd.Resource.{Manager, free, has_name, try_acquire, reserve}
use gpumemd.Resource.Models.{reserve_model, unreserve_model}
use gpumemd.Resource.Queued.{Queued-emplace, Queued-erase}
use gpumemd.Resource.Accounting.{IsConsistent, free_exact, grant_waiters-IsConsistent}

pub reserve-IsConsistent :
    {m : Manager} (name : Text) (bytes : ℕ)
    → IsConsistent m
    → has_name name m ≡ false
    → bytes ≤ free m
    → IsConsistent (reserve name bytes m)
unfolding has_name
reserve-IsConsistent {m} name bytes v unused fits =
    let room = free_exact v in
    let fresh : contains name m.reservations ≡ false = ground arith in
    let exact = add64_exact m.used bytes (omega (arith, room)) in
    record {
      fits_word = v.fits_word;
      accounted = omega (arith, exact, total-emplace (λ b. b) name bytes m.reservations fresh);
      within = omega (arith, exact, room);
      clients = Unique-emplace name bytes m.reservations v.clients;
      models = v.models;
      queued =
          Queued-emplace m.capacity m.reservations name bytes m.pending (ground arith) v.queued;
    }

pub reserve_model-IsConsistent :
    {m : Manager} (id : Text) (bytes : ℕ)
    → IsConsistent m
    → contains id m.model_reservations ≡ false
    → bytes ≤ free m
    → IsConsistent (reserve_model id bytes m)
reserve_model-IsConsistent {m} id bytes v fresh fits =
    let room = free_exact v in
    let exact = add64_exact m.used bytes (omega (arith, room)) in
    record {
      fits_word = v.fits_word;
      accounted = omega (arith, exact, total-emplace (λ b. b) id bytes m.model_reservations fresh);
      within = omega (arith, exact, room);
      clients = v.clients;
      models = Unique-emplace id bytes m.model_reservations v.models;
      queued = v.queued;
    }

pub unreserve_model-IsConsistent :
    {m : Manager} (id : Text) (bytes : ℕ)
    → IsConsistent m
    → find id m.model_reservations ≡ some bytes
    → IsConsistent (unreserve_model id bytes m) × (sub64 m.used bytes + bytes ≡ m.used)
unreserve_model-IsConsistent {m} id bytes v found =
    let less = total-erase (λ b. b) id bytes m.model_reservations found in
    let exact =
      sub64_exact m.used bytes (omega (arith, less, v.accounted))
        (omega (arith, v.within, v.fits_word)) in
    (
      record {
        fits_word = v.fits_word;
        accounted = omega (arith, exact, less, v.accounted);
        within = omega (arith, exact, v.within);
        clients = v.clients;
        models = Unique-erase id m.model_reservations v.models;
        queued = v.queued;
      },
      omega (arith, exact, less, v.accounted),
    )

pub unreserve-IsConsistent :
    {m : Manager} (name : Text) (bytes : ℕ)
    → IsConsistent m
    → find name m.reservations ≡ some bytes
    → IsConsistent
        (record m { reservations = erase name m.reservations; used = sub64 m.used bytes })
unreserve-IsConsistent {m} name bytes v found =
    let less = total-erase (λ b. b) name bytes m.reservations found in
    let exact =
      sub64_exact m.used bytes (omega (arith, less, v.accounted))
        (omega (arith, v.within, v.fits_word)) in
    record {
      fits_word = v.fits_word;
      accounted = omega (arith, exact, less, v.accounted);
      within = omega (arith, exact, v.within);
      clients = Unique-erase name m.reservations v.clients;
      models = v.models;
      queued = Queued-erase m.capacity m.reservations name m.pending v.queued;
    }

pub try_acquire-IsConsistent :
    (name : Text) (bytes now : ℕ) {m : Manager}
    → IsConsistent m
    → IsConsistent (try_acquire name bytes now m).0
unfolding try_acquire
try_acquire-IsConsistent name bytes now {m} v =
    grind (arith, reserve-IsConsistent, grant_waiters-IsConsistent)
