-- ===== src/Server/Keeping.antt =====
-- Invariants of a session: what every answer keeps, the session keeps.
use gpumemd.Base.{
  ℕ, zero, suc, Option, none, some, List, [], ◌∷◌, ◌++◌, Text, length, leb, ltb, Bool-cases,
  Option-cases, inl, inr, ◌+◌,
}
use gpumemd.Names.{is_empty}
use gpumemd.Server.{max_line_bytes}
use gpumemd.Server.Lines.{
  cut, Turn, goes_on, stops, blocks, Session, reading, closed, blocked, Event, chunk, end_of_stream,
  retry, failure, stop, closes, continue, process_lines, process_input, receive, session,
}

module _ {A : Type 0} (P : A → Type 0) where
  abbrev pub InTurn : Turn A → Type 0
  InTurn (goes_on a) = P a
  InTurn (stops a) = P a
  InTurn blocks = Unit

  abbrev pub InSession : Session A → Type 0
  InSession (reading a input) = P a
  InSession (closed a) = P a
  InSession blocked = Unit

  abbrev pub InOption : Option A → Type 0
  InOption none = Unit
  InOption (some a) = P a

  closes-keeps : (a : Option A) → InOption a → InSession (closes a)
  closes-keeps none p = tt
  closes-keeps (some a) p = p

  continue-keeps :
      (f : A → Session A)
      → ((a : A) → P a → InSession (f a))
      → (turn : Turn A) → InTurn turn
      → InSession (continue f turn)
  continue-keeps f h (goes_on a) p = h a p
  continue-keeps f h (stops a) p = p
  continue-keeps f h blocks p = tt

  module _ (answer : Text → A → Turn A) (too_large unterminated : A → Option A)
      (answers : (line : Text) (a : A) → P a → InTurn (answer line a))
      (refuses : (a : A) → P a → InOption (too_large a))
      (ends : (a : A) → P a → InOption (unterminated a)) where
    process_lines-keeps :
        (fuel : ℕ) (input : Text) (a : A)
        → P a
        → InSession (process_lines answer too_large unterminated fuel input a)
    unfolding process_lines
    process_lines-keeps zero input a p = tt
    process_lines-keeps (suc fuel) input a p = elim (Option-cases (cut input)) [
      | inl e ↦ elim (Bool-cases (leb max_line_bytes (length input))) [
        | inl full ↦ rw (process_lines, e, full) (closes-keeps (too_large a) (refuses a p))
        | inr room ↦ rw (process_lines, e, room) p
      ]
      | inr ((line, rest), e) ↦ elim (Bool-cases (ltb max_line_bytes (length line + 1))) [
        | inl long ↦ rw (process_lines, e, long) (closes-keeps (too_large a) (refuses a p))
        | inr short ↦
            rw (process_lines, e, short)
              (continue-keeps _ (λ a'. process_lines-keeps fuel rest a') (answer line a)
                (answers line a p))
      ]
    ]

    receive-keeps :
        (event : Event) (s : Session A)
        → InSession s
        → InSession (receive answer too_large unterminated event s)
    unfolding receive process_input
    receive-keeps (chunk bytes) (reading a input) p =
        process_lines-keeps (suc (length (input ++ bytes))) (input ++ bytes) a p
    receive-keeps end_of_stream (reading a input) p = elim (Bool-cases (is_empty input)) [
      | inl e ↦ rw (receive, e) p
      | inr e ↦ rw (receive, e) (closes-keeps (unterminated a) (ends a p))
    ]
    receive-keeps retry (reading a input) p = p
    receive-keeps failure (reading a input) p = p
    receive-keeps stop (reading a input) p = p
    receive-keeps (chunk _) (closed a) p = p
    receive-keeps end_of_stream (closed a) p = p
    receive-keeps retry (closed a) p = p
    receive-keeps failure (closed a) p = p
    receive-keeps stop (closed a) p = p
    receive-keeps (chunk _) blocked p = tt
    receive-keeps end_of_stream blocked p = tt
    receive-keeps retry blocked p = tt
    receive-keeps failure blocked p = tt
    receive-keeps stop blocked p = tt

    pub session-keeps :
        (events : List Event) (s : Session A)
        → InSession s
        → InSession (session answer too_large unterminated events s)
    unfolding session
    session-keeps [] s p = p
    session-keeps (event ∷ events) s p =
        session-keeps events (receive answer too_large unterminated event s)
          (receive-keeps event s p)

pub InSession-map :
    {A : Type 0} (P Q : A → Type 0)
    → ((a : A) → P a → Q a)
    → (s : Session A) → InSession P s
    → InSession Q s
InSession-map P Q h (reading a input) p = h a p
InSession-map P Q h (closed a) p = h a p
InSession-map P Q h blocked p = tt
