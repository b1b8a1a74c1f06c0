-- ===== src/Server/Lines.antt =====
-- The loop of `process_input` and the buffer of `client_session`, for any way to answer a line: what
-- the requests and their answers are plays no part in how the stream is cut into lines.
use gpumemd.Base.{
  ℕ, zero, suc, ◌+◌, true, false, Option, none, some, List, [], ◌∷◌, ◌++◌, Text, length, leb, ltb,
  ◌==◌, if◌then◌else◌,
}
use gpumemd.Names.{is_empty}
use gpumemd.Server.{max_line_bytes}

-- `input.find('\n')`, with `input.substr(0, newline)` and `input.erase(0, newline + 1)`
unfoldable pub cut : Text → Option (Text × Text)
cut [] = none
cut (c ∷ rest) = elim (c == b'\n') [
  | true ↦ some ([], rest)
  | false ↦ elim (cut rest) [ none ↦ none | some (line, after) ↦ some (c ∷ line, after) ]
]

-- What an answer comes to: the next line is read, the connection is closed, or the thread blocks.
pub data Turn (A : Type 0) : Type 0 where
  goes_on stops : A → Turn A
  blocks : Turn A

-- A session between two calls of `read`, with the bytes that no line has been made of.
pub data Session (A : Type 0) : Type 0 where
  reading : A → Text → Session A
  closed : A → Session A
  blocked : Session A

-- What the kernel hands to the session: the bytes of a `read`, the end of the stream, `EINTR` or
-- `EAGAIN`, another failure, or a request of the server to stop.
pub data Event : Type 0 where
  chunk : Text → Event
  end_of_stream retry failure stop : Event

abbrev pub closes : {A : Type 0} → Option A → Session A
closes none = blocked
closes (some a) = closed a

abbrev pub continue : {A : Type 0} → (A → Session A) → Turn A → Session A
continue next (goes_on a) = next a
continue next (stops a) = closed a
continue next blocks = blocked

module _ {A : Type 0} (answer : Text → A → Turn A) (too_large unterminated : A → Option A) where
  -- The loop. A round takes a line out of the input, so that its length is fuel enough.
  unfoldable pub process_lines : ℕ → Text → A → Session A
  unfolding cut
  process_lines zero input a = blocked
  process_lines (suc fuel) input a = elim (cut input) [
    | none ↦ if leb max_line_bytes (length input) then closes (too_large a) else reading a input
    | some (line, rest) ↦
        if ltb max_line_bytes (length line + 1)
        then closes (too_large a)
        else continue (process_lines fuel rest) (answer line a)
  ]

  unfoldable pub process_input : Text → A → Session A
  unfolding process_lines
  process_input input a = process_lines (suc (length input)) input a

  -- A round of the loop of `client_session`.
  unfoldable pub receive : Event → Session A → Session A
  unfolding process_input
  receive (chunk bytes) (reading a input) = process_input (input ++ bytes) a
  receive end_of_stream (reading a input) =
      if is_empty input then closed a else closes (unterminated a)
  receive retry (reading a input) = reading a input
  receive failure (reading a input) = closed a
  receive stop (reading a input) = closed a
  receive _ (closed a) = closed a
  receive _ blocked = blocked

  unfoldable pub session : List Event → Session A → Session A
  unfolding receive
  session [] s = s
  session (event ∷ events) s = session events (receive event s)
