-- ===== src/Resource/Queued.antt =====
-- What `ResourceManager` keeps of the requests in its queue.
use gpumemd.Base.{
  ℕ, zero, suc, ◌≤◌, ◌<◌, ◌≡◌, refl, true, false, some, List, [], ◌∷◌, ◌++◌, arith, Text, text_eq,
  text_eq_iff, get_elem?, erase_at, contains, emplace, erase, contains-emplace, contains-erase,
}
use gpumemd.Resource.{PendingRequest, waits, expire}
use gpumemd.Resource.Waiting.{forget}

-- The requests of a queue have names that are not in use, each its own, and sizes that the capacity
-- could satisfy.
abbrev pub Queued : ℕ → List (Text × ℕ) → List PendingRequest → Type 0
Queued capacity reservations [] = Unit
Queued capacity reservations (request ∷ rest) =
    (contains request.name reservations ≡ false)
    × (waits request.name rest ≡ false)
    × (0 < request.bytes)
    × (request.bytes ≤ capacity)
    × Queued capacity reservations rest

module _ (name : Text) where
  pub waits-erase_at :
      (index : ℕ) (queue : List PendingRequest)
      → waits name queue ≡ false
      → waits name (erase_at index queue) ≡ false
  unfolding waits
  waits-erase_at index [] h = h
  waits-erase_at zero (request ∷ rest) h = ground arith
  waits-erase_at (suc index) (request ∷ rest) h = ground (arith, waits-erase_at index rest)

  pub waits-get :
      (index : ℕ) (queue : List PendingRequest) (request : PendingRequest)
      → waits name queue ≡ false
      → get_elem? queue index ≡ some request
      → text_eq request.name name ≡ false
  unfolding waits
  waits-get index [] request h e = cc
  waits-get zero (first ∷ rest) request h e = ground arith
  waits-get (suc index) (first ∷ rest) request h e = waits-get index rest request (ground arith) e

  pub waits-expire :
      (now : ℕ) (queue : List PendingRequest)
      → waits name queue ≡ false
      → waits name (expire now queue).0 ≡ false
  unfolding waits expire
  waits-expire now [] h = h
  waits-expire now (request ∷ rest) h = ground (arith, waits-expire now rest)

  waits-forget :
      (sequence : ℕ) (queue : List PendingRequest)
      → waits name queue ≡ false
      → waits name (forget sequence queue) ≡ false
  unfolding waits forget
  waits-forget sequence [] h = h
  waits-forget sequence (request ∷ rest) h = ground (arith, waits-forget sequence rest)

  waits-append :
      (queue : List PendingRequest) (request : PendingRequest)
      → waits name queue ≡ false
      → text_eq request.name name ≡ false
      → waits name (queue ++ request ∷ []) ≡ false
  unfolding waits
  waits-append [] request h k = ground arith
  waits-append (first ∷ rest) request h k = ground (arith, waits-append rest request)

  -- A client that holds a reservation does not wait.
  pub waits-contains :
      (capacity : ℕ) (reservations : List (Text × ℕ)) (queue : List PendingRequest)
      → contains name reservations ≡ true
      → Queued capacity reservations queue
      → waits name queue ≡ false
  unfolding waits
  waits-contains capacity reservations [] h q = refl
  waits-contains capacity reservations (request ∷ rest) h q =
      ground (arith, waits-contains capacity reservations rest h q.4, text_eq_iff request.name name)

module _ (capacity : ℕ) (reservations : List (Text × ℕ)) where
  abbrev IsQueued : List PendingRequest → Type 0
  IsQueued = Queued capacity reservations

  pub Queued-get :
      (index : ℕ) (queue : List PendingRequest) (request : PendingRequest)
      → IsQueued queue
      → get_elem? queue index ≡ some request
      → (contains request.name reservations ≡ false) × (0 < request.bytes)
  Queued-get index [] request q e = absurd (ground arith)
  Queued-get zero (first ∷ rest) request q e = ground arith
  Queued-get (suc index) (first ∷ rest) request q e = Queued-get index rest request q.4 e

  pub Queued-expire :
      (now : ℕ) (queue : List PendingRequest) → IsQueued queue → IsQueued (expire now queue).0
  unfolding expire
  Queued-expire now [] q = tt
  Queued-expire now (request ∷ rest) q =
      ground (arith, Queued-expire now rest q.4, waits-expire request.name now rest)

  pub Queued-forget :
      (sequence : ℕ) (queue : List PendingRequest)
      → IsQueued queue
      → IsQueued (forget sequence queue)
  unfolding forget
  Queued-forget sequence [] q = tt
  Queued-forget sequence (request ∷ rest) q =
      ground (arith, Queued-forget sequence rest q.4, waits-forget request.name sequence rest)

  pub Queued-emplace :
      (name : Text) (bytes : ℕ) (queue : List PendingRequest)
      → waits name queue ≡ false
      → IsQueued queue
      → Queued capacity (emplace name bytes reservations) queue
  unfolding waits
  Queued-emplace name bytes [] w q = tt
  Queued-emplace name bytes (request ∷ rest) w q = ground (
    arith,
    Queued-emplace name bytes rest (ground arith) q.4,
    contains-emplace name request.name bytes reservations,
    text_eq_iff name request.name,
    text_eq_iff request.name name,
  )

  pub Queued-erase :
      (name : Text) (queue : List PendingRequest)
      → IsQueued queue
      → Queued capacity (erase name reservations) queue
  Queued-erase name [] q = tt
  Queued-erase name (request ∷ rest) q =
      ground (arith, Queued-erase name rest q.4, contains-erase name request.name reservations)

  -- The request at `index` becomes a reservation.
  pub Queued-grant :
      (index : ℕ) (queue : List PendingRequest) (request : PendingRequest)
      → get_elem? queue index ≡ some request
      → IsQueued queue
      → Queued capacity (emplace request.name request.bytes reservations) (erase_at index queue)
  Queued-grant index [] request e q = tt
  Queued-grant zero (first ∷ rest) request e q =
      let same : first ≡ request = ground arith in
      rw (← same) (Queued-emplace first.name first.bytes rest q.1 q.4)
  Queued-grant (suc index) (first ∷ rest) request e q = ground (
    arith,
    Queued-grant index rest request e q.4,
    contains-emplace request.name first.name request.bytes reservations,
    waits-get first.name index rest request q.1 e,
    waits-erase_at first.name index rest q.1,
    text_eq_iff request.name first.name,
  )

  pub Queued-append :
      (queue : List PendingRequest) (request : PendingRequest)
      → IsQueued queue
      → contains request.name reservations ≡ false
      → waits request.name queue ≡ false
      → 0 < request.bytes
      → request.bytes ≤ capacity
      → IsQueued (queue ++ request ∷ [])
  unfolding waits
  Queued-append [] request q c w p f = ground arith
  Queued-append (first ∷ rest) request q c w p f = ground (
    arith,
    Queued-append rest request q.4 c (ground arith) p f,
    waits-append first.name rest request q.1,
    text_eq_iff request.name first.name,
    text_eq_iff first.name request.name,
  )
