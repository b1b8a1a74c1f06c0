-- ===== src/Resource.antt =====
-- include/gpumemd/resource_manager.hpp and src/core/resource_manager.cpp: the accounting of
-- reservations, and the queue of clients that wait for memory. Every function here runs under
-- `mutex_`, so an operation is one step; `acquire` gives the lock up while it waits, and is two
-- functions for what it does before the wait and in each round of it. `Clock::now()` is the argument
-- `now`, in nanoseconds since the clock's epoch. A request is shared by the queue and by the thread
-- that waits for it: `finished` holds those that have left the queue completed.
pub mod Selection
pub mod Queued
pub mod Accounting
pub mod Granting
pub mod Invariant
pub mod Steps
pub mod Replacing
pub mod Reachable
pub mod Outcomes
pub mod Wakeups
pub mod Notified
pub mod Status
pub mod Waiting
pub mod Models
use gpumemd.Base.{
  ℕ, zero, suc, ◌+◌, ◌-◌, ◌*◌, ◌/◌, ◌^◌, Bool, true, false, not, ◌&&◌, ◌||◌, Option, none, some,
  List, [], ◌∷◌, ◌++◌, Text, text_eq, length, erase_at, any_of, ltb, leb, ◌==◌, if◌then◌else◌, ℤ,
  pos, pos_part, ltb_ℤ, eqb_ℤ, contains, emplace, add64, sub64,
}
use gpumemd.Names.{valid_name}

pub data ErrorCode : Type 0 where
  ok invalid_name invalid_size duplicate_client unknown_client : ErrorCode
  insufficient_memory timeout invalid_timeout : ErrorCode

pub data SchedulingPolicy : Type 0 where
  priority_fifo cost_aware : SchedulingPolicy

pub record OperationResult : Type 0 where
  pub error : ErrorCode
  pub amount : ℕ

abbrev pub failed : ErrorCode → OperationResult
failed e = record { error = e; amount = 0 }

abbrev pub granted : ℕ → OperationResult
granted bytes = record { error = ok; amount = bytes }

pub record AcquireOptions : Type 0 where
  pub priority : ℤ
  pub timeout : ℤ
  pub estimated_cost : ℤ

-- `std::chrono::milliseconds::max()` and, in nanoseconds, `Clock::time_point::max()`
abbrev pub millis_max : ℕ
millis_max = 2 ^ 63 - 1

abbrev pub time_max : ℕ
time_max = 2 ^ 63 - 1

pub record PendingRequest : Type 0 where
  pub name : Text
  pub bytes : ℕ
  pub priority : ℤ
  pub estimated_cost : ℤ
  pub sequence : ℕ
  pub deadline : ℕ
  pub completed : Bool
  pub result : OperationResult

pub record Manager : Type 0 where
  pub capacity : ℕ
  pub scheduling_policy : SchedulingPolicy
  pub used : ℕ
  pub reservations : List (Text × ℕ)
  pub model_reservations : List (Text × ℕ)
  pub pending : List PendingRequest
  pub next_sequence : ℕ
  pub finished : List PendingRequest
  pub notified : ℕ

-- The constructor throws at capacity 0.
unfoldable pub create : ℕ → SchedulingPolicy → Option Manager
create capacity policy =
    if capacity == 0
    then none
    else some (record {
      capacity = capacity;
      scheduling_policy = policy;
      used = 0;
      reservations = [];
      model_reservations = [];
      pending = [];
      next_sequence = 0;
      finished = [];
      notified = 0;
    })

abbrev pub free : Manager → ℕ
free m = sub64 m.capacity m.used

unfoldable pub waits : Text → List PendingRequest → Bool
waits name = any_of λ request. text_eq request.name name

unfoldable pub has_name : Text → Manager → Bool
has_name name m = contains name m.reservations || waits name m.pending

abbrev pub complete : OperationResult → PendingRequest → PendingRequest
complete result request = record request { completed = true; result = result }

-- The deadline `Clock::time_point::max()` stands for none.
abbrev pub is_expired : ℕ → PendingRequest → Bool
is_expired now request = not (request.deadline == time_max) && leb request.deadline now

-- The first loop of `grant_waiters_locked`: the requests that stay, and those that time out.
unfoldable pub expire : ℕ → List PendingRequest → List PendingRequest × List PendingRequest
expire now [] = ([], [])
expire now (request ∷ rest) =
    let (kept, dropped) = expire now rest in
    if is_expired now request
    then (kept, complete (failed timeout) request ∷ dropped)
    else (request ∷ kept, dropped)

abbrev is_cost_aware : SchedulingPolicy → Bool
is_cost_aware priority_fifo = false
is_cost_aware cost_aware = true

-- Whether `candidate` takes the place of `selected`.
unfoldable pub precedes : SchedulingPolicy → PendingRequest → PendingRequest → Bool
precedes policy candidate selected =
    ltb_ℤ selected.priority candidate.priority
    || (eqb_ℤ candidate.priority selected.priority
        && ((is_cost_aware policy && ltb_ℤ candidate.estimated_cost selected.estimated_cost)
            || ((not (is_cost_aware policy)
                  || eqb_ℤ candidate.estimated_cost selected.estimated_cost)
                && ltb candidate.sequence selected.sequence)))

-- `selected == pending_.size()` is `none`.
unfoldable pub replaces : SchedulingPolicy → PendingRequest → Option (ℕ × PendingRequest) → Bool
unfolding precedes
replaces policy candidate none = true
replaces policy candidate (some (index, selected)) = precedes policy candidate selected

-- The loop over the queue that picks the next request to grant, from `index` on.
unfoldable pub select :
    SchedulingPolicy
    → ℕ
    → ℕ
    → List PendingRequest
    → Option (ℕ × PendingRequest)
    → Option (ℕ × PendingRequest)
unfolding replaces
select policy room index [] selected = selected
select policy room index (candidate ∷ rest) selected = select policy room (suc index) rest (
    if ltb room candidate.bytes
    then selected
    else if replaces policy candidate selected
    then some (index, candidate)
    else selected)

unfoldable pub grant : Manager → ℕ → PendingRequest → Manager
grant m index request = record m {
  reservations = emplace request.name request.bytes m.reservations;
  used = add64 m.used request.bytes;
  pending = erase_at index m.pending;
  finished = complete (granted request.bytes) request ∷ m.finished;
}

-- The second loop of `grant_waiters_locked`. A round takes a request out of the queue, so the length
-- of the queue is fuel enough.
unfoldable pub grant_all : ℕ → Manager → Manager
unfolding grant select
grant_all zero m = m
grant_all (suc fuel) m = elim (select m.scheduling_policy (free m) 0 m.pending none) [
  | none ↦ m
  | some (index, request) ↦ grant_all fuel (grant m index request)
]

unfoldable pub drop_expired : ℕ → Manager → Manager
unfolding expire
drop_expired now m =
    let (kept, dropped) = expire now m.pending in
    record m { pending = kept; finished = dropped ++ m.finished }

-- `condition_.notify_all()`: every thread that is blocked on the condition variable wakes. `notified`
-- counts the calls; a thread that blocked at an earlier count has been woken.
abbrev pub notify_all : Manager → Manager
notify_all m = record m { notified = suc m.notified }

unfoldable pub grant_waiters : ℕ → Manager → Manager
unfolding drop_expired grant_all
grant_waiters now m = let m' = drop_expired now m in notify_all (grant_all (length m'.pending) m')

-- `reservations_.emplace(key, bytes); used_ += bytes;`
abbrev pub reserve : Text → ℕ → Manager → Manager
reserve name bytes m = record m {
  reservations = emplace name bytes m.reservations;
  used = add64 m.used bytes;
}

unfoldable pub try_acquire : Text → ℕ → ℕ → Manager → Manager × OperationResult
try_acquire name bytes now m =
    if not (valid_name name)
    then (m, failed invalid_name)
    else if bytes == 0
    then (m, failed invalid_size)
    else if has_name name m
    then (m, failed duplicate_client)
    else if ltb (free m) bytes
    then (m, failed insufficient_memory)
    else (grant_waiters now (reserve name bytes m), granted bytes)

-- The point in time at which a wait that begins `now` ends.
unfoldable pub deadline_of : ℕ → ℤ → ℕ
deadline_of now limit =
    if eqb_ℤ limit (pos millis_max)
    then time_max
    else if leb (pos_part limit) ((time_max - now) / 1_000_000)
    then now + pos_part limit * 1_000_000
    else time_max

-- What `acquire` has come to when it first gives up the lock.
pub data Acquiring : Type 0 where
  returns : OperationResult → Acquiring
  waiting : ℕ → Acquiring

abbrev pub enqueue : Text → ℕ → AcquireOptions → ℕ → Manager → Manager
enqueue name bytes options now m = record m {
  pending =
      m.pending
      ++ record {
        name = name;
        bytes = bytes;
        priority = options.priority;
        estimated_cost = options.estimated_cost;
        sequence = m.next_sequence;
        deadline = deadline_of now options.timeout;
        completed = false;
        result = granted 0;
      }
        ∷ [];
  next_sequence = add64 m.next_sequence 1;
}

-- `acquire` up to its wait loop.
unfoldable pub acquire : Text → ℕ → AcquireOptions → ℕ → Manager → Manager × Acquiring
unfolding try_acquire
acquire name bytes options now m =
    if not (valid_name name)
    then (m, returns (failed invalid_name))
    else if bytes == 0
    then (m, returns (failed invalid_size))
    else if ltb_ℤ options.timeout (pos 0)
    then (m, returns (failed invalid_timeout))
    else if ltb m.capacity bytes
    then (m, returns (failed insufficient_memory))
    else if eqb_ℤ options.timeout (pos 0)
    then (let (m', result) = try_acquire name bytes now m in (m', returns result))
    else if has_name name m
    then (m, returns (failed duplicate_client))
    else if length m.pending == 0 && leb bytes (free m)
    then (reserve name bytes m, returns (granted bytes))
    else if ltb_ℤ options.estimated_cost (pos 0)
    then (m, returns (failed invalid_timeout))
    else (grant_waiters now (enqueue name bytes options now m), waiting m.next_sequence)
