-- ===== src/Server/Tidy.antt =====
-- What `UnixSocketServer::run` leaves behind.
use gpumemd.Base.{
  ℕ, suc, ◌≡◌, refl, sym, subst, append_assoc, ◌∙◌, Bool, true, false, not, ◌&&◌, ◌||◌, Option,
  none, some, List, [], ◌∷◌, ◌++◌, Text, length, leb, any_of, is_some, arith, if◌then◌else◌, ℤ,
}
use gpumemd.Names.{is_empty}
use gpumemd.Server.Listening.{
  path_max, Calls, Accept, client, interrupted, drained, stop_seen, Round, stops, interrupts, fails,
  idle, ready, Effect, opens, binds, closes, unlinks, cancels_waiters, joins_workers, serves,
  accept_all, preceded, serve_rounds, take_down, finished, run,
}

-- The resources that the effects use: the descriptor, the socket's file, and the threads that serve.
pub record Held : Type 0 where
  pub listening : Bool
  pub file : Bool
  pub waiting : Bool
  pub workers : ℕ

abbrev pub nothing_held : Held
nothing_held = record { listening = false; file = false; waiting = false; workers = 0 }

-- An effect that is allowed: the file is removed only if it was made here, the descriptor is closed
-- only if it is open, clients are served only from it, and threads are joined only after the waiting
-- clients have been woken, with no client accepted since.
unfoldable pub perform : Effect → Held → Option Held
perform opens h = if h.listening then none else some (record h { listening = true })
perform binds h = if h.listening && not h.file then some (record h { file = true }) else none
perform closes h = if h.listening then some (record h { listening = false }) else none
perform unlinks h = if h.file then some (record h { file = false }) else none
perform (serves fd) h =
    if h.listening then some (record h { waiting = true; workers = suc h.workers }) else none
perform cancels_waiters h = if h.listening then none else some (record h { waiting = false })
perform joins_workers h = if h.waiting then none else some (record h { workers = 0 })

abbrev pub perform_all : List Effect → Held → Option Held
perform_all [] h = some h
perform_all (effect ∷ effects) h = elim (perform effect h) [
  | none ↦ none
  | some h' ↦ perform_all effects h'
]

-- While the server listens.
abbrev listening_with : Bool → ℕ → Held
listening_with waiting workers = record {
  listening = true;
  file = true;
  waiting = waiting;
  workers = workers;
}

accept_all-perform_all :
    (accepts : List Accept) (later : List Effect) (waiting : Bool) (workers : ℕ)
    → ((waiting : Bool) (workers : ℕ)
        → perform_all later (listening_with waiting workers) ≡ some nothing_held)
    → perform_all (accept_all accepts ++ later) (listening_with waiting workers) ≡ some nothing_held
unfolding accept_all perform
accept_all-perform_all [] later w n after = after w n
accept_all-perform_all (client fd ∷ accepts) later w n after =
    accept_all-perform_all accepts later true (suc n) after
accept_all-perform_all (interrupted ∷ accepts) later w n after =
    accept_all-perform_all accepts later w n after
accept_all-perform_all (drained ∷ accepts) later w n after = after w n
accept_all-perform_all (stop_seen ∷ accepts) later w n after = after w n

-- What is known of the loop's effects, if it ends.
abbrev TakenDown : Option (List Effect) → Type 0
TakenDown none = Unit
TakenDown (some effects) =
    (waiting : Bool) (workers : ℕ)
    → perform_all (effects ++ take_down) (listening_with waiting workers) ≡ some nothing_held

preceded-TakenDown :
    (accepts : List Accept) (o : Option (List Effect))
    → TakenDown o
    → TakenDown (preceded (accept_all accepts) o)
preceded-TakenDown accepts none t = tt
preceded-TakenDown accepts (some later) t = λ w n.
    subst (λ effects. perform_all effects (listening_with w n) ≡ some nothing_held)
      (sym (append_assoc (accept_all accepts) later take_down))
      (accept_all-perform_all accepts (later ++ take_down) w n t)

serve_rounds-TakenDown : (rounds : List Round) → TakenDown (serve_rounds rounds)
unfolding serve_rounds perform
serve_rounds-TakenDown [] = tt
serve_rounds-TakenDown (stops ∷ rounds) = λ w n. refl
serve_rounds-TakenDown (fails ∷ rounds) = λ w n. refl
serve_rounds-TakenDown (interrupts ∷ rounds) = serve_rounds-TakenDown rounds
serve_rounds-TakenDown (idle ∷ rounds) = serve_rounds-TakenDown rounds
serve_rounds-TakenDown (ready accepts ∷ rounds) =
    preceded-TakenDown accepts (serve_rounds rounds) (serve_rounds-TakenDown rounds)

-- What is allowed, and that nothing is left.
abbrev pub IsTidy : Option (ℤ × List Effect) → Type 0
IsTidy none = Unit
IsTidy (some (status, effects)) = perform_all effects nothing_held ≡ some nothing_held

finished-IsTidy : (o : Option (List Effect)) → TakenDown o → IsTidy (finished o)
unfolding perform
finished-IsTidy none t = tt
finished-IsTidy (some effects) t = t false 0

branch-IsTidy :
    (test : Bool) (x y : Option (ℤ × List Effect))
    → IsTidy x
    → IsTidy y
    → IsTidy (if test then x else y)
branch-IsTidy true x y p q = p
branch-IsTidy false x y p q = q

-- Whichever system calls fail, and whoever connects: when `run` returns, the descriptor is closed, the
-- socket's file is removed, and every thread that it started is joined, after the waiting clients have
-- been woken and with no client accepted since. It never removes a file that it did not make, and
-- serves clients only while it listens. (Whether a `join` returns is not modelled.)
pub run-IsTidy :
    (path : Text) (calls : Calls) (rounds : List Round) → IsTidy (run path calls rounds)
unfolding run perform
run-IsTidy path calls rounds =
    branch-IsTidy (is_empty path || leb path_max (length path)) _ _ refl (
      branch-IsTidy (not calls.absent) _ _ refl (
        branch-IsTidy (not calls.socket) _ _ refl (
          branch-IsTidy (not calls.bind) _ _ refl (
            branch-IsTidy (not calls.chmod) _ _ refl (
              branch-IsTidy (not calls.listen) _ _ refl (
                branch-IsTidy (not calls.nonblocking) _ _ refl
                  (finished-IsTidy (serve_rounds rounds) (serve_rounds-TakenDown rounds))))))))

abbrev pub ends_loop : Round → Bool
ends_loop stops = true
ends_loop fails = true
ends_loop _ = false

is_some-preceded :
    (effects : List Effect) (o : Option (List Effect)) → is_some (preceded effects o) ≡ is_some o
is_some-preceded effects none = refl
is_some-preceded effects (some later) = refl

is_some-serve_rounds :
    (rounds : List Round) → is_some (serve_rounds rounds) ≡ any_of ends_loop rounds
unfolding serve_rounds
is_some-serve_rounds [] = refl
is_some-serve_rounds (stops ∷ rounds) = refl
is_some-serve_rounds (fails ∷ rounds) = refl
is_some-serve_rounds (interrupts ∷ rounds) = is_some-serve_rounds rounds
is_some-serve_rounds (idle ∷ rounds) = is_some-serve_rounds rounds
is_some-serve_rounds (ready accepts ∷ rounds) =
    is_some-preceded (accept_all accepts) (serve_rounds rounds) ∙ is_some-serve_rounds rounds

is_some-finished : (o : Option (List Effect)) → is_some (finished o) ≡ is_some o
is_some-finished none = refl
is_some-finished (some effects) = refl

-- The loop of `run` ends once a stop is requested or `poll` fails.
pub is_some-run :
    (path : Text) (calls : Calls) (rounds : List Round)
    → any_of ends_loop rounds ≡ true
    → is_some (run path calls rounds) ≡ true
unfolding run
is_some-run path calls rounds h =
    let served : is_some (finished (serve_rounds rounds)) ≡ true =
      is_some-finished (serve_rounds rounds) ∙ is_some-serve_rounds rounds ∙ h in
    ground (arith, served)
