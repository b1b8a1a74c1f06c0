-- ===== src/Server/Session.antt =====
-- `process_input` and `client_session` of src/ipc/unix_socket_server.cpp.
use mathlib.Core.Option
use gpumemd.Base.{
  Bool, true, false, Option, none, some, List, [], ◌∷◌, ◌++◌, Text, codes, text_eq, length, take,
  ◌==◌, if◌then◌else◌,
}
use gpumemd.Metrics.{record_request}
use gpumemd.Protocol.Command
use gpumemd.Protocol.Command.{ParseResult}
use gpumemd.Protocol.Parse.{parse_command}
use gpumemd.Protocol.Replies.{format_parse_error}
use gpumemd.Server.{Daemon, Occasion, Platform, Write}
use gpumemd.Server.Sending.{Sending, send_all}
use gpumemd.Server.Dispatch.{dispatch, counting}
use gpumemd.Server.Lines
use gpumemd.Server.Lines.{Turn, Session, Event, session, reading}

-- A connection: the daemon, what the client has been sent, and the circumstances of the requests to
-- come. A session blocks where they end.
pub record Connection (B : Type 0) : Type 0 where
  pub daemon : Daemon B
  pub output : Text
  pub occasions : List (Occasion B)

-- `line.back() == '\r'`, `line.pop_back()`
unfoldable pub strip : Text → Text
strip [] = []
strip (c ∷ []) = if c == b'\r' then [] else c ∷ []
strip (c ∷ d ∷ rest) = c ∷ strip (d ∷ rest)

abbrev pub starts_with : Text → Text → Bool
starts_with text prefix = text_eq (take (length prefix) text) prefix

abbrev pub too_large_reply : Text
too_large_reply = codes "ERR request_too_large request exceeds 4096 bytes\n"

abbrev pub unterminated_reply : Text
unterminated_reply = codes "ERR invalid_request unterminated command\n"

module _ {B : Type 0} where
  -- `metrics->record_request(response.starts_with("OK"))`
  unfoldable pub recorded : Daemon B × Text → Daemon B × Text
  recorded (d, response) =
      (counting (record_request (starts_with response (codes "OK"))) d, response)

  abbrev pub finish : Bool → Connection B → Turn (Connection B)
  finish true c = Lines.goes_on c
  finish false c = Lines.stops c

  -- `if (!send_all(client.fd, response)) { return false; }`
  abbrev pub sending : Connection B → Sending → Turn (Connection B)
  sending c Sending.blocked = Lines.blocks
  sending c (Sending.returned sent complete) =
      finish complete (record c { output = c.output ++ sent })

  abbrev pub deliver :
      List Write → List (Occasion B) → Text → Option (Daemon B × Text) → Turn (Connection B)
  deliver writes later output none = Lines.blocks
  deliver writes later output (some (d, response)) =
      sending (record { daemon = d; output = output; occasions = later }) (send_all writes response)

  -- An error that ends the session, with nothing done but that it is sent.
  abbrev pub told : Connection B → Sending → Option (Connection B)
  told c Sending.blocked = none
  told c (Sending.returned sent complete) = some (record c { output = c.output ++ sent })

  abbrev pub tell_next : Text → Connection B → List (Occasion B) → Option (Connection B)
  tell_next reply c [] = none
  tell_next reply c (occasion ∷ later) =
      told (record { daemon = occasion.others c.daemon; output = c.output; occasions = later })
        (send_all occasion.writes reply)

  unfoldable pub tell : Text → Connection B → Option (Connection B)
  tell reply c = tell_next reply c c.occasions

module _ {B F : Type 0} (platform : Platform B F) where
  -- The reply to a line: `none` while `acquire` waits.
  abbrev pub respond_parsed : Occasion B → ParseResult → Daemon B → Option (Daemon B × Text)
  respond_parsed occasion (Command.failed error) d = some (d, format_parse_error error)
  respond_parsed occasion (Command.parsed command) d = dispatch platform occasion command d

  unfoldable pub respond : Occasion B → Text → Daemon B → Option (Daemon B × Text)
  unfolding strip recorded
  respond occasion line d =
      Option.map recorded (respond_parsed occasion (parse_command (strip line)) d)

  abbrev pub answer_next : Text → Connection B → List (Occasion B) → Turn (Connection B)
  answer_next line c [] = Lines.blocks
  answer_next line c (occasion ∷ later) =
      deliver occasion.writes later c.output (respond occasion line (occasion.others c.daemon))

  -- The body of the loop of `process_input`.
  unfoldable pub answer : Text → Connection B → Turn (Connection B)
  unfolding respond
  answer line c = answer_next line c c.occasions

  -- `client_session`, from the connection's start.
  unfoldable pub client_session : List Event → Connection B → Session (Connection B)
  unfolding session answer tell
  client_session events c =
      session answer (tell too_large_reply) (tell unterminated_reply) events (reading c [])
