-- ===== src/Client/Served.antt =====
-- A client and the daemon together: a `release` from the call of the client library to its result.
use gpumemd.Base.{
  ℕ, ◌≡◌, refl, sym, append-nil, ap, ◌∙◌, Bool, true, false, not, ◌&&◌, some, List, [], ◌∷◌, ◌++◌,
  arith, Text, codes, text_eq, length-append, all_of, all_of-weaken, any_of, ◌==◌,
}
use gpumemd.Names.{valid_name, is_name_char, is_empty}
use gpumemd.Resource.Models.{release}
use gpumemd.Residency.Load.{is_ok}
use gpumemd.Metrics.{record_release}
use gpumemd.Protocol.Replies.{newline, format_operation_result}
use gpumemd.Client.{release_command}
use gpumemd.Client.Requests.{parse_command-requests}
use gpumemd.Server.{Daemon, Occasion, Platform, with_resources, resources_of}
use gpumemd.Client.Exchange.{Read, request, fails, is_multiline, verb}
use gpumemd.Client.Replies.{is_arrival, arrived, verdict, request-IsReply}
use gpumemd.Client.Verdicts.{operation_reply-IsReply}
use gpumemd.Server.{Write}
use gpumemd.Server.Sending.{Sending, send_all}
use gpumemd.Server.Dispatch.{dispatch, dispatch_type, dispatch_now, counting}
use gpumemd.Server.Lines.{session, receive, Event, reading, process_input, process_lines, cut}
use gpumemd.Server.Framing.{
  is_input, bytes_of, session-process_input, process_input-unlines, IsLine,
}
use gpumemd.Server.Session.{
  tell, too_large_reply, unterminated_reply, client_session, Connection, strip, respond, recorded,
  answer,
}

strip-same : (text : Text) → all_of (λ c. not (c == b'\r')) text ≡ true → strip text ≡ text
unfolding strip
strip-same [] h = refl
strip-same (c ∷ []) h = let other : c == b'\r' ≡ false = ground arith in rw (strip, other) refl
strip-same (c ∷ d ∷ text) h = ap (λ t. c ∷ t) (strip-same (d ∷ text) (ground arith))

module _ {B F : Type 0} (platform : Platform B F) (occasion : Occasion B) (name : Text)
    (valid : valid_name name ≡ true) where
  -- The characters of the command are neither a newline nor a carriage return.
  command-calm :
      (p : ℕ → Bool)
      → ((c : ℕ) → is_name_char c ≡ true → p c ≡ true)
      → all_of p (codes "release ") ≡ true
      → all_of p (release_command name) ≡ true
  unfolding valid_name release_command
  command-calm p h k =
      let letters : all_of p name ≡ true = all_of-weaken is_name_char p name h (ground arith) in
      ground (arith, letters, k)

  respond-release :
      (d : Daemon B)
      → let (m, result) = release name occasion.moment.now (resources_of d) in
        respond platform occasion (release_command name) d
        ≡ some (
            recorded (
              counting (record_release (is_ok result.error) result.amount) (with_resources m d),
              format_operation_result (codes "released") name result,
            ))
  unfolding respond dispatch dispatch_type dispatch_now is_name_char
  respond-release d =
      let same : strip (release_command name) ≡ release_command name =
        strip-same (release_command name)
          (command-calm (λ c. not (c == b'\r')) (λ c h. ground arith) refl) in
      let parsed = (parse_command-requests name 1 valid (omega arith) (omega arith)).0 in
      rw (respond, same, parsed) refl

  command-IsLine : IsLine (release_command name)
  unfolding valid_name release_command is_name_char
  command-IsLine = (
    command-calm (λ c. not (c == b'\n')) (λ c h. ground arith) refl,
    ground (arith, length-append (codes "release ") name),
  )

  -- The daemon after the release, with its metrics, and the reply.
  abbrev pub served : Daemon B → Daemon B × Text
  served d =
      let (m, result) = release name occasion.moment.now (resources_of (occasion.others d)) in
      recorded (
        counting (record_release (is_ok result.error) result.amount)
            (with_resources m (occasion.others d)),
        format_operation_result (codes "released") name result,
      )

  session-served :
      (d : Daemon B) (events : List Event)
      → all_of is_input events ≡ true
      → bytes_of events ≡ release_command name ++ newline
      → send_all occasion.writes (served d).1 ≡ Sending.returned (served d).1 true
      → client_session platform events
          (record { daemon = d; output = []; occasions = occasion ∷ [] })
        ≡ reading (record { daemon = (served d).0; output = (served d).1; occasions = [] }) []
  unfolding client_session session receive answer process_input process_lines cut recorded
  session-served d events input bytes sent =
      let c : Connection B = record { daemon = d; output = []; occasions = occasion ∷ [] } in
      let handled = respond-release (occasion.others d) in
      session-process_input (answer platform) (tell too_large_reply) (tell unterminated_reply)
        events c input
      ∙ ap
          (λ t.
            process_input (answer platform) (tell too_large_reply) (tell unterminated_reply) t c)
          (bytes ∙ sym (append-nil (release_command name ++ newline)))
      ∙ process_input-unlines (answer platform) (tell too_large_reply) (tell unterminated_reply)
          (release_command name ∷ []) [] c (command-IsLine, tt)
      ∙ rw (handled, sent) refl

any_of-none : (p : ℕ → Bool) (xs : Text) → all_of (λ c. not (p c)) xs ≡ true → any_of p xs ≡ false
any_of-none p [] h = refl
any_of-none p (x ∷ xs) h = ground (arith, any_of-none p xs)

name-calm : (name : Text) → valid_name name ≡ true → all_of (λ c. not (c == b'\n')) name ≡ true
unfolding valid_name is_name_char
name-calm name h =
    all_of-weaken is_name_char (λ c. not (c == b'\n')) name (λ c k. ground arith) (ground arith)

release_command-multiline : (name : Text) → is_multiline (release_command name) ≡ false
unfolding is_multiline verb text_eq release_command
release_command-multiline name = refl

release_command-is_empty : (name : Text) → is_empty (release_command name) ≡ false
unfolding release_command
release_command-is_empty name = ground arith

-- `Client::release` and the daemon together, for a valid name: if all bytes of the
-- command reach the daemon and all bytes of its reply reach the client, in both directions cut into
-- buffers in any way and with interrupted reads between them, the daemon does exactly one `ResourceManager::release` of that name, counts it, and waits for the next
-- request with nothing left over; and the client returns the daemon's reply, as a success exactly if that
-- release succeeded.
pub release-served :
    {B F : Type 0} (platform : Platform B F) (occasion : Occasion B) (name : Text)
    (valid : valid_name name ≡ true) (d : Daemon B) (events : List Event) (writes : List Write)
    (reads : List Read)
    → all_of is_input events ≡ true
    → bytes_of events ≡ release_command name ++ newline
    → send_all occasion.writes (served platform occasion name valid d).1
      ≡ Sending.returned (served platform occasion name valid d).1 true
    → send_all writes (release_command name ++ newline)
      ≡ Sending.returned (release_command name ++ newline) true
    → all_of is_arrival reads ≡ true
    → arrived reads ≡ (served platform occasion name valid d).1
    → (client_session platform events
          (record { daemon = d; output = []; occasions = occasion ∷ [] })
        ≡ reading
            (record {
              daemon = (served platform occasion name valid d).0;
              output = (served platform occasion name valid d).1;
              occasions = [];
            })
            [])
      × (request true writes reads (release_command name)
          ≡ fails
              (verdict (
                is_ok
                  (release name occasion.moment.now (resources_of (occasion.others d))).1.error))
              (served platform occasion name valid d).1)
unfolding recorded format_operation_result
release-served platform occasion name valid d events writes reads input bytes replied asked h e =
    let result = (release name occasion.moment.now (resources_of (occasion.others d))).1 in
    let line = command-IsLine platform occasion name valid in
    let calm = any_of-none (λ c. c == b'\n') (release_command name) line.0 in
    let quiet = any_of-none (λ c. c == b'\n') name (name-calm name valid) in
    (
      session-served platform occasion name valid d events input bytes replied,
      request-IsReply (release_command name) (served platform occasion name valid d).1
          (is_ok result.error) writes reads
          (operation_reply-IsReply (codes "released") name refl quiet result.error result.amount)
          (ap (λ multiline. multiline && is_ok result.error) (release_command-multiline name))
          (release_command-is_empty name) calm asked h e,
    )
