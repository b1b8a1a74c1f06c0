-- ===== src/Client/Exchange.antt =====
-- `Client::request` of src/client/client.cpp: a command is sent and the reply is read. The loop that
-- reads is that of src/client/main.cpp too, which differs in the commands it takes for multi-line.
use gpumemd.Base.{
  Bool, true, false, not, ◌&&◌, ◌||◌, List, [], ◌∷◌, ◌++◌, Text, codes, text_eq, any_of, ◌==◌,
  if◌then◌else◌,
}
use gpumemd.Names.{is_empty}
use gpumemd.Client.{
  ClientError, ClientResponse, ok, invalid_request, connection_failed, write_failed, read_failed,
  broker_rejected,
}
use gpumemd.Protocol.{is_blank, ends_with}
use gpumemd.Protocol.Command
use gpumemd.Protocol.Command.{CommandType}
use gpumemd.Protocol.Replies.{end_mark}
use gpumemd.Server.{Write}
use gpumemd.Server.Sending.{Sending, send_all}
use gpumemd.Server.Session.{starts_with}

-- `command.substr(0, command.find_first_of(" \t"))`
unfoldable pub verb : Text → Text
verb [] = []
verb (c ∷ rest) = if is_blank c then [] else c ∷ verb rest

unfoldable pub is_multiline : Text → Bool
unfolding verb
is_multiline command =
    text_eq (verb command) (codes "status")
    || text_eq (verb command) (codes "models")
    || text_eq (verb command) (codes "residency")
    || text_eq (verb command) (codes "metrics")
    || text_eq (verb command) (codes "nodes")

-- The same test in gpumemctl.
abbrev pub is_multiline_type : CommandType → Bool
is_multiline_type Command.status = true
is_multiline_type Command.models = true
is_multiline_type Command.residency = true
is_multiline_type Command.metrics = true
is_multiline_type _ = false

abbrev pub has_newline : Text → Bool
has_newline = any_of λ c. c == b'\n'

-- The condition under which the loop that reads ends.
unfoldable pub is_complete : Bool → Text → Bool
is_complete multiline response =
    (starts_with response (codes "ERR ") && has_newline response)
    || (multiline && ends_with response end_mark)
    || (not multiline && has_newline response)

-- A result of `read`: the bytes that it got, `EINTR`, or the end of the stream or another failure.
pub data Read : Type 0 where
  got : Text → Read
  interrupted ended : Read

-- What the loop has come to: the response so far, and whether it is complete; `waiting` if it blocks.
pub data Reading : Type 0 where
  waiting complete incomplete : Text → Reading

unfoldable pub read_reply : Bool → List Read → Text → Reading
unfolding is_complete
read_reply multiline [] response = waiting response
read_reply multiline (got bytes ∷ reads) response =
    let rest = read_reply multiline reads (response ++ bytes) in
    if is_complete multiline (response ++ bytes) then complete (response ++ bytes) else rest
read_reply multiline (interrupted ∷ reads) response = read_reply multiline reads response
read_reply multiline (ended ∷ reads) response = incomplete response

-- What comes of a request; `blocks` if a system call does not return.
pub data Outcome : Type 0 where
  responds : ClientResponse → Outcome
  blocks : Outcome

abbrev pub fails : ClientError → Text → Outcome
fails error payload = responds (record { error = error; payload = payload })

-- The payload by its first word.
unfoldable pub classify : Reading → Outcome
classify (waiting response) = blocks
classify (incomplete response) = fails read_failed response
classify (complete response) =
    if starts_with response (codes "ERR ")
    then fails broker_rejected response
    else if not (starts_with response (codes "OK "))
    then fails read_failed response
    else fails ok response

abbrev pub after_sending : Sending → Reading → Outcome
after_sending Sending.blocked reading = blocks
after_sending (Sending.returned sent false) reading = fails write_failed []
after_sending (Sending.returned sent true) reading = classify reading

-- Whether `connect_socket` succeeds, and the results of `write` and `read`, are arguments.
unfoldable pub request : Bool → List Write → List Read → Text → Outcome
unfolding is_multiline read_reply classify
request connects writes reads command =
    if is_empty command || has_newline command
    then fails invalid_request []
    else if not connects
    then fails connection_failed []
    else after_sending (send_all writes (command ++ b'\n' ∷ []))
        (read_reply (is_multiline command) reads [])
