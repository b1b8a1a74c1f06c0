-- ===== src/Client/Control.antt =====
-- src/client/main.cpp: gpumemctl, which sends the command that its arguments make up.
use gpumemd.Base.{
  ℕ, ◌≡◌, refl, sym, ap, subst, ◌∙◌, Bool, true, false, not, ◌&&◌, List, [], ◌∷◌, ◌++◌,
  append_assoc, Text, codes, text_eq, if◌then◌else◌, All, all_of, arith,
}
use gpumemd.Names.{is_empty}
use gpumemd.Protocol.Command
use gpumemd.Protocol.Command.{Command, CommandType, ParseResult}
use gpumemd.Protocol.Parse.{parse_command, parse_tokens}
use gpumemd.Protocol.Replies.{newline}
use gpumemd.Protocol.Tokens.{IsToken, unwords}
use gpumemd.Client.Requests.{parse_command-unwords}
use gpumemd.Client.Exchange.{
  Read, Reading, read_reply, waiting, complete, incomplete, is_multiline_type,
}
use gpumemd.Client.Replies.{
  IsReply, IsFramed, is_arrival, arrived, line-IsFramed, line-is_empty, status_word,
  read_reply-IsFramed,
}
use gpumemd.Server.{Write}
use gpumemd.Server.Sending.{Sending, send_all}
use gpumemd.Server.Session.{starts_with}

-- The loop that joins the arguments, with the command so far.
unfoldable pub join_arguments : Text → List Text → Text
join_arguments command [] = command
join_arguments command (argument ∷ rest) =
    join_arguments (if is_empty command then argument else command ++ b' ' ∷ argument) rest

-- What gpumemctl comes to: an exit status with what it has printed to its standard output; or a system
-- call does not return.
pub data Exit : Type 0 where
  exits : ℕ → Text → Exit
  blocks : Exit

unfoldable pub exit_with : Reading → Exit
exit_with (waiting response) = blocks
exit_with (incomplete response) = exits 1 response
exit_with (complete response) = exits (if starts_with response (codes "OK ") then 0 else 1) response

abbrev pub after_sending : Sending → Reading → Exit
after_sending Sending.blocked reading = blocks
after_sending (Sending.returned sent false) reading = exits 1 []
after_sending (Sending.returned sent true) reading = exit_with reading

abbrev pub exchange : Bool → List Write → List Read → Text → ParseResult → Exit
exchange connects writes reads command (Command.failed error) = exits 2 []
exchange connects writes reads command (Command.parsed parsed) =
    if not connects
    then exits 1 []
    else after_sending (send_all writes (command ++ newline))
        (read_reply (is_multiline_type parsed.type) reads [])

-- The arguments without the program's name; the usage that `--help` prints is left out.
unfoldable pub main : Bool → List Write → List Read → List Text → Exit
unfolding join_arguments exit_with
main connects writes reads (option ∷ path ∷ argument ∷ rest) =
    if not (text_eq option (codes "--socket"))
    then exits 2 []
    else let command = join_arguments [] (argument ∷ rest) in
      exchange connects writes reads command (parse_command command)
main connects writes reads (option ∷ []) =
    exits (if text_eq option (codes "--help") then 0 else 2) []
main connects writes reads _ = exits 2 []

is_empty-append_cons : (xs ys : Text) (c : ℕ) → is_empty (xs ++ c ∷ ys) ≡ false
is_empty-append_cons [] ys c = ground arith
is_empty-append_cons (x ∷ xs) ys c = ground arith

unwords-append :
    (command argument : Text) (rest : List Text)
    → unwords ((command ++ b' ' ∷ argument) ∷ rest) ≡ unwords (command ∷ argument ∷ rest)
unwords-append command argument [] = refl
unwords-append command argument (next_argument ∷ rest) =
    append_assoc command (b' ' ∷ argument) (b' ' ∷ unwords (next_argument ∷ rest))

join_arguments-unwords :
    (rest : List Text) (command : Text)
    → is_empty command ≡ false
    → join_arguments command rest ≡ unwords (command ∷ rest)
unfolding join_arguments
join_arguments-unwords [] command h = refl
join_arguments-unwords (argument ∷ rest) command h =
    rw (join_arguments, h)
      (join_arguments-unwords rest (command ++ b' ' ∷ argument)
          (is_empty-append_cons command argument b' ')
        ∙ unwords-append command argument rest)

exit_with-line :
    (success : Bool) (body : Text)
    → exit_with (complete (status_word success ++ body ++ newline))
      ≡ exits (if success then 0 else 1) (status_word success ++ body ++ newline)
unfolding exit_with text_eq
exit_with-line true body = refl
exit_with-line false body = refl

-- gpumemctl sends its arguments as one command. If the daemon takes them for a command, and its reply
-- is one line, gpumemctl prints the reply, however it is cut into buffers, and exits with 0 exactly if
-- it begins with `OK`.
pub main-IsReply :
    (path argument : Text) (rest : List Text) (c : Command) (reply : Text) (success : Bool)
    (writes : List Write) (reads : List Read)
    → All IsToken (argument ∷ rest)
    → parse_tokens (argument ∷ rest) ≡ Command.parsed c
    → IsReply success reply
    → is_multiline_type c.type && success ≡ false
    → send_all writes (unwords (argument ∷ rest) ++ newline)
      ≡ Sending.returned (unwords (argument ∷ rest) ++ newline) true
    → all_of is_arrival reads ≡ true
    → arrived reads ≡ reply
    → main true writes reads (codes "--socket" ∷ path ∷ argument ∷ rest)
      ≡ exits (if success then 0 else 1) reply
unfolding main text_eq
main-IsReply path argument rest c reply success writes reads tokens understood line single sent h
      e =
    let joined : join_arguments argument rest ≡ unwords (argument ∷ rest) =
      join_arguments-unwords rest argument tokens.0.0 in
    let meaning : parse_command (unwords (argument ∷ rest)) ≡ Command.parsed c =
      parse_command-unwords (argument ∷ rest) tokens ∙ understood in
    let framed : IsFramed (is_multiline_type c.type) reply =
      subst (IsFramed (is_multiline_type c.type)) (sym line.written)
        (line-IsFramed success (is_multiline_type c.type) line.body line.unbroken single) in
    let bytes : is_empty (arrived reads) ≡ false =
      ap is_empty (e ∙ line.written) ∙ line-is_empty success line.body in
    let whole = read_reply-IsFramed (is_multiline_type c.type) reads [] reply framed h e bytes in
    rw (main, joined, meaning, sent, whole)
      (subst (λ t. exit_with (complete t) ≡ exits (if success then 0 else 1) t) (sym line.written)
        (exit_with-line success line.body))
