-- ===== src/Server/Refused.antt =====
-- Requests that do not fit the buffer of `client_session`.
use gpumemd.Base.{
  ◌≤◌, ◌≡◌, refl, ap, ◌∙◌, Bool, true, not, List, ◌∷◌, ◌++◌, Text, length, all_of, ◌==◌,
}
use gpumemd.Server.{Occasion, Platform, max_line_bytes}
use gpumemd.Server.Sending.{Sending, send_all}
use gpumemd.Server.Lines.{Event, closed, closes, process_input}
use gpumemd.Server.Framing.{is_input, bytes_of, session-process_input, process_input-refuses}
use gpumemd.Server.Session.{
  Connection, tell_next, answer, tell, too_large_reply, unterminated_reply, client_session,
}

-- A client whose next line has at least 4096 bytes before any newline, however these and what it sends
-- after them are cut into buffers, is sent the error `request_too_large`, as far as `send_all` delivers
-- it, and nothing else; the connection is closed, and the daemon does nothing for it.
pub client_session-too_large :
    {B F : Type 0} (platform : Platform B F) (events : List Event) (c : Connection B)
    (occasion : Occasion B) (later : List (Occasion B)) (line more sent : Text) (complete : Bool)
    → all_of is_input events ≡ true
    → bytes_of events ≡ line ++ more
    → all_of (λ c. not (c == b'\n')) line ≡ true
    → max_line_bytes ≤ length line
    → c.occasions ≡ occasion ∷ later
    → send_all occasion.writes too_large_reply ≡ Sending.returned sent complete
    → client_session platform events c
      ≡ closed (record {
        daemon = occasion.others c.daemon;
        output = c.output ++ sent;
        occasions = later;
      })
unfolding client_session tell
client_session-too_large platform events c occasion later line more sent complete input bytes
      unbroken long next told =
    session-process_input (answer platform) (tell too_large_reply) (tell unterminated_reply) events
      c input
    ∙ ap (λ t. process_input (answer platform) (tell too_large_reply) (tell unterminated_reply) t c)
        bytes
    ∙ process_input-refuses (answer platform) (tell too_large_reply) (tell unterminated_reply) line
        more c unbroken long
    ∙ ap (λ occasions. closes (tell_next too_large_reply c occasions)) next
    ∙ rw told refl
