-- ===== src/Resource/Selection.antt =====
-- The loop that picks the next request to grant: what the comparison means, and that the loop ends
-- with the first request in that order among those that fit.
use gpumemd.Base.{
  ℕ, suc, ◌+◌, ◌≤◌, ◌<◌, ◌≡◌, refl, ◌⊎◌, true, false, Option, none, some, List, [], ◌∷◌, arith,
  get_elem?, drop, drop-suc, All, ltb, ltb→le, if◌then◌else◌, Bool-cases, inl, inr, ℤ, pos_part,
  neg_part,
}
use gpumemd.Resource.{
  PendingRequest, SchedulingPolicy, priority_fifo, cost_aware, precedes, replaces, select,
}

infix 50 ◌<ℤ◌ ◌=ℤ◌
abbrev ◌<ℤ◌ : ℤ → ℤ → Type 0
a <ℤ b = pos_part a + neg_part b < pos_part b + neg_part a

abbrev ◌=ℤ◌ : ℤ → ℤ → Type 0
a =ℤ b = pos_part a + neg_part b ≡ pos_part b + neg_part a

-- The order in which requests are served: by priority, highest first; under the cost-aware policy
-- by estimated cost, lowest first; then by arrival.
abbrev pub Precedes : SchedulingPolicy → PendingRequest → PendingRequest → Type 0
Precedes priority_fifo a b =
    (b.priority <ℤ a.priority) ⊎ ((a.priority =ℤ b.priority) × (a.sequence < b.sequence))
Precedes cost_aware a b =
    (b.priority <ℤ a.priority)
    ⊎ ((a.priority =ℤ b.priority)
        × ((a.estimated_cost <ℤ b.estimated_cost)
            ⊎ ((a.estimated_cost =ℤ b.estimated_cost) × (a.sequence < b.sequence))))

pub precedes-Precedes :
    (policy : SchedulingPolicy) (a b : PendingRequest)
    → precedes policy a b ≡ true
    → Precedes policy a b
unfolding precedes
precedes-Precedes priority_fifo a b h = ground arith
precedes-Precedes cost_aware a b h = ground arith

pub Precedes-precedes :
    (policy : SchedulingPolicy) (a b : PendingRequest)
    → Precedes policy a b
    → precedes policy a b ≡ true
unfolding precedes
Precedes-precedes priority_fifo a b h = ground arith
Precedes-precedes cost_aware a b h = ground arith

Precedes-trans :
    (policy : SchedulingPolicy) (a b c : PendingRequest)
    → Precedes policy a b
    → Precedes policy b c
    → Precedes policy a c
Precedes-trans priority_fifo a b c h k = ground arith
Precedes-trans cost_aware a b c h k = ground arith

precedes_trans :
    (policy : SchedulingPolicy) (a b c : PendingRequest)
    → precedes policy a b ≡ true
    → precedes policy b c ≡ true
    → precedes policy a c ≡ true
precedes_trans policy a b c h k =
    Precedes-precedes policy a c (
      Precedes-trans policy a b c (precedes-Precedes policy a b h) (precedes-Precedes policy b c k))

precedes_irrefl : (policy : SchedulingPolicy) (a : PendingRequest) → precedes policy a a ≡ false
unfolding precedes
precedes_irrefl policy a = ground arith

-- `selected` stands at its index in the queue, and fits.
abbrev pub Chosen : List PendingRequest → ℕ → Option (ℕ × PendingRequest) → Type 0
Chosen queue room none = Unit
Chosen queue room (some (index, request)) =
    (get_elem? queue index ≡ some request) × (request.bytes ≤ room)

-- One round of the loop.
abbrev round :
    SchedulingPolicy
    → ℕ
    → ℕ
    → PendingRequest
    → Option (ℕ × PendingRequest)
    → Option (ℕ × PendingRequest)
round policy room index candidate selected =
    if ltb room candidate.bytes
    then selected
    else if replaces policy candidate selected
    then some (index, candidate)
    else selected

module _ (policy : SchedulingPolicy) (room : ℕ) (queue : List PendingRequest) where
  round-Chosen :
      (index : ℕ) (candidate : PendingRequest) (selected : Option (ℕ × PendingRequest))
      → get_elem? queue index ≡ some candidate
      → Chosen queue room selected
      → Chosen queue room (round policy room index candidate selected)
  round-Chosen index candidate selected at c = elim (Bool-cases (ltb room candidate.bytes)) [
    | inl e ↦ rw e c
    | inr e ↦ rw e (elim (Bool-cases (replaces policy candidate selected)) [
      | inl r ↦ rw r (at, ltb→le room candidate.bytes e)
      | inr r ↦ rw r c
    ])
  ]

  pub select-Chosen :
      (index : ℕ) (rest : List PendingRequest) (selected : Option (ℕ × PendingRequest))
      → drop index queue ≡ rest
      → Chosen queue room selected
      → Chosen queue room (select policy room index rest selected)
  unfolding select
  select-Chosen index [] selected d c = c
  select-Chosen index (candidate ∷ rest) selected d c =
      let (d', at) = drop-suc index queue rest d in
      select-Chosen (suc index) rest _ d' (round-Chosen index candidate selected at c)

  -- Nothing that fits comes before the selected request, and if none is selected nothing fits.
  abbrev pub Yields : Option (ℕ × PendingRequest) → PendingRequest → Type 0
  Yields none other = room < other.bytes
  Yields (some (index, request)) other =
      (room < other.bytes) ⊎ (precedes policy other request ≡ false)

  round-Yields :
      (index : ℕ) (candidate other : PendingRequest) (selected : Option (ℕ × PendingRequest))
      → Yields selected other
      → Yields (round policy room index candidate selected) other
  unfolding replaces
  round-Yields index candidate other none y = ground arith
  round-Yields index candidate other (some (i, s)) y =
      ground (arith, precedes_trans policy other candidate s)

  round-Yields_self :
      (index : ℕ) (candidate : PendingRequest) (selected : Option (ℕ × PendingRequest))
      → Yields (round policy room index candidate selected) candidate
  unfolding replaces
  round-Yields_self index candidate none = ground (arith, precedes_irrefl policy candidate)
  round-Yields_self index candidate (some (i, s)) = ground (arith, precedes_irrefl policy candidate)

  select-Yields :
      (index : ℕ) (rest : List PendingRequest) (selected : Option (ℕ × PendingRequest))
      (other : PendingRequest)
      → Yields selected other
      → Yields (select policy room index rest selected) other
  unfolding select
  select-Yields index [] selected other y = y
  select-Yields index (candidate ∷ rest) selected other y =
      select-Yields (suc index) rest _ other (round-Yields index candidate other selected y)

  select-All :
      (index : ℕ) (rest : List PendingRequest) (selected : Option (ℕ × PendingRequest))
      → All (Yields (select policy room index rest selected)) rest
  unfolding select
  select-All index [] selected = tt
  select-All index (candidate ∷ rest) selected = (
    select-Yields (suc index) rest _ candidate (round-Yields_self index candidate selected),
    select-All (suc index) rest _,
  )

-- Whether `other` may be left waiting when `selected` is served: it does not fit, or it does not stand
-- before the selected request in the order of service.
abbrev pub MayWait : SchedulingPolicy → ℕ → Option (ℕ × PendingRequest) → PendingRequest → Type 0
MayWait policy room none other = room < other.bytes
MayWait policy room (some (index, request)) other =
    (room < other.bytes) ⊎ (¬ Precedes policy other request)

Yields-MayWait :
    (policy : SchedulingPolicy) (room : ℕ) (selected : Option (ℕ × PendingRequest))
    (queue others : List PendingRequest)
    → All (Yields policy room queue selected) others
    → All (MayWait policy room selected) others
Yields-MayWait policy room selected queue [] a = tt
Yields-MayWait policy room none queue (other ∷ rest) a =
    (a.0, Yields-MayWait policy room none queue rest a.1)
Yields-MayWait policy room (some (index, request)) queue (other ∷ rest) a = (
  elim a.0 [
    | inl large ↦ inl large
    | inr later ↦ inr (λ before. ground (arith, Precedes-precedes policy other request before))
  ],
  Yields-MayWait policy room (some (index, request)) queue rest a.1,
)

-- The loop of `grant_waiters_locked` selects a request of the queue, at its index, that fits in the
-- free memory and that no other fitting request precedes: by priority, under the cost-aware policy
-- then by estimated cost, then by arrival. It selects none only if no request of the queue fits.
pub select_lem :
    (policy : SchedulingPolicy) (room : ℕ) (queue : List PendingRequest)
    → let selected = select policy room 0 queue none in
      Chosen queue room selected × All (MayWait policy room selected) queue
select_lem policy room queue = (
  select-Chosen policy room queue 0 queue none refl tt,
  Yields-MayWait policy room (select policy room 0 queue none) queue queue
      (select-All policy room queue 0 queue none),
)
