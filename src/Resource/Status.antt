-- ===== src/Resource/Status.antt =====
-- What `ResourceManager::status` reports.
use gpumemd.Base.{
  ℕ, ◌+◌, ◌≡◌, List, [], ◌∷◌, ◌++◌, map, Text, arith, sum_of, IsSorted, sort-IsSorted, sort-sum_of,
  text_lt_asym,
}
use gpumemd.Resource.{Manager}
use gpumemd.Resource.Models.{Reservation, status, by_name, client_reservation, model_reservation}
use gpumemd.Resource.Accounting.{IsConsistent, free_exact, reserved}

sum_of-clients :
    (rs : List (Text × ℕ)) (tail : List Reservation)
    → sum_of (λ r. r.bytes) (map client_reservation rs ++ tail)
      ≡ reserved rs + sum_of (λ r. r.bytes) tail
sum_of-clients [] tail = omega arith
sum_of-clients ((name, bytes) ∷ rs) tail = omega (arith, sum_of-clients rs tail)

sum_of-models :
    (rs : List (Text × ℕ)) → sum_of (λ r. r.bytes) (map model_reservation rs) ≡ reserved rs
sum_of-models [] = omega arith
sum_of-models ((id, bytes) ∷ rs) = omega (arith, sum_of-models rs)

-- A status reports reservations that add up to the used memory, used and free memory that add up to
-- the capacity, and the reservations in the order of their names.
pub status_lem :
    (m : Manager)
    → IsConsistent m
    → (sum_of (λ r. r.bytes) (status m).reservations ≡ (status m).used)
      × ((status m).used + (status m).free ≡ (status m).capacity)
      × IsSorted by_name (status m).reservations
unfolding status
status_lem m v = (
  omega (
    arith,
    v.accounted,
    sort-sum_of by_name (λ r. r.bytes)
        (map client_reservation m.reservations ++ map model_reservation m.model_reservations),
    sum_of-clients m.reservations (map model_reservation m.model_reservations),
    sum_of-models m.model_reservations,
  ),
  omega (arith, v.within, free_exact v),
  sort-IsSorted by_name (λ x y. text_lt_asym x.name y.name) _,
)
