-- ===== src/Resource/Wakeups.antt =====
-- A thread in the wait loop of `acquire`, and what completes its request.
use gpumemd.Base.{
  ℕ, ◌≡◌, Bool, true, ◌||◌, none, some, List, [], ◌∷◌, ◌++◌, arith, find_if, any_of, is_some, map,
  Option-cases, Bool-cases, find_if-any_of, inl, inr,
}
use gpumemd.Resource.{Manager, PendingRequest, returns, failed, timeout, complete}
use gpumemd.Resource.Waiting.{wait_round, time_out, cancel_waiters, completed, has_sequence}

abbrev queues : ℕ → Manager → Bool
queues sequence m = any_of (has_sequence sequence) m.pending

-- After `wait_until` has timed out, the thread returns in its next round: with the result that it was
-- given before, or with a timeout if its request was still in the queue.
pub wait_round-time_out :
    (sequence now : ℕ) (m : Manager)
    → any_of (has_sequence sequence) m.pending || is_some (completed sequence m) ≡ true
    → wait_round sequence now (time_out sequence m) ≡ (
      time_out sequence m,
      elim (completed sequence m) [ none ↦ returns (failed timeout) | some r ↦ returns r.result ],
    )
unfolding wait_round time_out completed
wait_round-time_out sequence now m h = elim (Option-cases (completed sequence m)) [
  | inl e ↦
      let (request, found, fits) =
        find_if-any_of (has_sequence sequence) m.pending (ground arith) in
      ground arith
  | inr (request, e) ↦ ground arith
]

find_if-cancelled :
    (sequence : ℕ) (queue finished : List PendingRequest)
    → find_if (has_sequence sequence) finished ≡ none
    → any_of (has_sequence sequence) queue ≡ true
    → (request : PendingRequest) × (find_if
          (has_sequence sequence)
          (map (complete (failed timeout)) queue ++ finished)
        ≡ some (complete (failed timeout) request))
find_if-cancelled sequence [] finished h k = absurd (ground arith)
find_if-cancelled sequence (request ∷ rest) finished h k =
    elim (Bool-cases (has_sequence sequence request)) [
      | inl e ↦ (request, rw (e, find_if))
      | inr e ↦
          let (found, at) = find_if-cancelled sequence rest finished h (rw e at k) in
          (found, rw (e, find_if) at)
    ]

-- Once `cancel_waiters` has run, a thread whose request was in the queue and not completed returns a
-- timeout in its next round.
wait_round-cancel_waiters :
    (sequence now : ℕ) (m : Manager)
    → completed sequence m ≡ none
    → any_of (has_sequence sequence) m.pending ≡ true
    → wait_round sequence now (cancel_waiters m) ≡ (cancel_waiters m, returns (failed timeout))
unfolding wait_round cancel_waiters
wait_round-cancel_waiters sequence now m h k =
    let (request, found) = find_if-cancelled sequence m.pending m.finished h k in
    rw (wait_round, completed, found)
