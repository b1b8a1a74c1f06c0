-- ===== src/Server/Framing.antt =====
-- How the stream of a connection is cut into lines, and which answers that comes to.
use gpumemd.Base.{
  suc, ◌+◌, ◌<◌, ◌≤◌, ◌≡◌, refl, sym, ap, ◌∙◌, Bool, true, false, not, Option, none, some, List, [],
  ◌∷◌, ◌++◌, append_assoc, append-nil, arith, Text, length, length-append, all_of, All,
  Option-cases, inl, inr, leb, ltb, ◌==◌,
}
use gpumemd.Server.{max_line_bytes}
use gpumemd.Server.Lines.{
  cut, Turn, Session, reading, Event, chunk, end_of_stream, retry, failure, stop, closes, continue,
  process_lines, process_input, session,
}
use gpumemd.Server.Chunks.{
  cut-none, process_lines-fuel, continue-ap, receive-process_input, receive-retry,
}

-- The events that hand bytes over or none, and the bytes.
abbrev pub is_input : Event → Bool
is_input (chunk bytes) = true
is_input retry = true
is_input _ = false

abbrev pub bytes_of : List Event → Text
bytes_of [] = []
bytes_of (chunk bytes ∷ events) = bytes ++ bytes_of events
bytes_of (_ ∷ events) = bytes_of events

-- A line within the limit.
abbrev pub IsLine : Text → Type 0
IsLine line = (all_of (λ c. not (c == b'\n')) line ≡ true) × (length line < max_line_bytes)

abbrev pub unlines : List Text → Text
unlines [] = []
unlines (line ∷ lines) = line ++ b'\n' ∷ unlines lines

pub cut-line :
    (line rest : Text)
    → all_of (λ c. not (c == b'\n')) line ≡ true
    → cut (line ++ b'\n' ∷ rest) ≡ some (line, rest)
unfolding cut
cut-line [] rest h = refl
cut-line (c ∷ line) rest h =
    let other : c == b'\n' ≡ false = ground arith in
    rw (cut, other, cut-line line rest (ground arith)) refl

cut-unbroken : (input : Text) → all_of (λ c. not (c == b'\n')) input ≡ true → cut input ≡ none
unfolding cut
cut-unbroken [] h = refl
cut-unbroken (c ∷ input) h =
    let other : c == b'\n' ≡ false = ground arith in
    rw (cut, other, cut-unbroken input (ground arith)) refl

module _ {A : Type 0} (answer : Text → A → Turn A) (too_large unterminated : A → Option A) where
  -- Answering one line after the other, and then doing `next`.
  abbrev pub answers : List Text → (A → Session A) → A → Session A
  answers [] next a = next a
  answers (line ∷ lines) next a = continue (answers lines next) (answer line a)

  session-events :
      (events : List Event) (input : Text) (a : A)
      → all_of is_input events ≡ true
      → session answer too_large unterminated events
          (process_input answer too_large unterminated input a)
        ≡ process_input answer too_large unterminated (input ++ bytes_of events) a
  unfolding session
  session-events [] input a h =
      ap (λ t. process_input answer too_large unterminated t a) (sym (append-nil input))
  session-events (chunk bytes ∷ events) input a h =
      ap (session answer too_large unterminated events)
        (receive-process_input answer too_large unterminated input bytes a)
      ∙ session-events events (input ++ bytes) a (ground arith)
      ∙ ap (λ t. process_input answer too_large unterminated t a)
          (append_assoc input bytes (bytes_of events))
  session-events (retry ∷ events) input a h =
      ap (session answer too_large unterminated events)
        (receive-retry answer too_large unterminated _)
      ∙ session-events events input a (ground arith)
  session-events (end_of_stream ∷ events) input a h = absurd (ground arith)
  session-events (failure ∷ events) input a h = absurd (ground arith)
  session-events (stop ∷ events) input a h = absurd (ground arith)

  -- What a session has come to does not depend on how the stream was cut into the buffers of `read`:
  -- it is as if all its bytes had come at once.
  pub session-process_input :
      (events : List Event) (a : A)
      → all_of is_input events ≡ true
      → session answer too_large unterminated events (reading a [])
        ≡ process_input answer too_large unterminated (bytes_of events) a
  unfolding process_input process_lines cut
  session-process_input events a h = session-events events [] a h

  -- The lines within the limit that an input begins with are answered in their order, each once, up
  -- to the first answer that ends the session; then comes what the rest of the input asks for.
  pub process_input-unlines :
      (lines : List Text) (tail : Text) (a : A)
      → All IsLine lines
      → process_input answer too_large unterminated (unlines lines ++ tail) a
        ≡ answers lines (process_input answer too_large unterminated tail) a
  unfolding process_input process_lines
  process_input-unlines [] tail a h = refl
  process_input-unlines (line ∷ lines) tail a ((unbroken, fits), h) =
      ap (λ t. process_input answer too_large unterminated t a)
        (append_assoc line (b'\n' ∷ unlines lines) tail)
      ∙ rw (process_lines, cut-line line (unlines lines ++ tail) unbroken, short)
          (continue-ap answer too_large unterminated _ _
            (λ a'.
              process_lines-fuel answer too_large unterminated _
                (suc (length (unlines lines ++ tail))) (unlines lines ++ tail) a'
                (omega (arith, length-append line (b'\n' ∷ (unlines lines ++ tail)))) (omega arith)
              ∙ process_input-unlines lines tail a' h)
            (answer line a))
    where
      short : ltb max_line_bytes (length line + 1) ≡ false
      short = ground (arith, fits)

  -- A line that does not fit, however much of it or of what follows is there.
  pub process_input-refuses :
      (line more : Text) (a : A)
      → all_of (λ c. not (c == b'\n')) line ≡ true
      → max_line_bytes ≤ length line
      → process_input answer too_large unterminated (line ++ more) a ≡ closes (too_large a)
  unfolding process_input process_lines
  process_input-refuses line more a unbroken long = elim (Option-cases (cut (line ++ more))) [
    | inl e ↦
        let full : leb max_line_bytes (length (line ++ more)) ≡ true =
          ground (arith, long, length-append line more) in
        rw (process_lines, e, full) refl
    | inr ((first, rest), e) ↦
        let over : ltb max_line_bytes (length first + 1) ≡ true =
          ground (arith, long, cut-none line more first rest (cut-unbroken line unbroken) e) in
        rw (process_lines, e, over) refl
  ]
