-- ===== src/Resource/Waiting.antt =====
-- The wait loop of `ResourceManager::acquire`, and `cancel_waiters`. A thread knows its request by
-- the pointer that it shares with the queue; here by the request's sequence number.
use gpumemd.Base.{
  ℕ, Bool, Option, none, some, List, [], ◌∷◌, ◌++◌, map, ◌==◌, if◌then◌else◌, find_if,
}
use gpumemd.Resource.{
  Manager, PendingRequest, Acquiring, returns, waiting, failed, timeout, complete, grant_waiters,
  notify_all,
}

abbrev pub has_sequence : ℕ → PendingRequest → Bool
has_sequence sequence request = request.sequence == sequence

-- `request->completed`, with `request->result`
unfoldable pub completed : ℕ → Manager → Option PendingRequest
completed sequence m = find_if (has_sequence sequence) m.finished

-- `pending_.erase(std::find(pending_.begin(), pending_.end(), request))`
unfoldable pub forget : ℕ → List PendingRequest → List PendingRequest
forget sequence [] = []
forget sequence (request ∷ rest) =
    if has_sequence sequence request then rest else request ∷ forget sequence rest

abbrev return_or_wait : ℕ → Option PendingRequest → Acquiring
return_or_wait sequence none = waiting sequence
return_or_wait sequence (some request) = returns request.result

-- A round of the loop, down to where it blocks on the condition variable.
unfoldable pub wait_round : ℕ → ℕ → Manager → Manager × Acquiring
unfolding completed
wait_round sequence now m = elim (completed sequence m) [
  | some request ↦ (m, returns request.result)
  | none ↦ let m' = grant_waiters now m in (m', return_or_wait sequence (completed sequence m'))
]

-- `wait_until` has come back with `std::cv_status::timeout`. The request of a thread that waits is in the
-- queue or has been completed; for another sequence number nothing changes.
unfoldable pub time_out : ℕ → Manager → Manager
unfolding completed forget
time_out sequence m = elim (completed sequence m) [
  | some request ↦ m
  | none ↦ elim (find_if (has_sequence sequence) m.pending) [
    | none ↦ m
    | some request ↦ record m {
      pending = forget sequence m.pending;
      finished = complete (failed timeout) request ∷ m.finished;
    }
  ]
]

unfoldable pub cancel_waiters : Manager → Manager
cancel_waiters m =
    notify_all (record m {
      pending = [];
      finished = map (complete (failed timeout)) m.pending ++ m.finished;
    })
