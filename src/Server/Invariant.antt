-- ===== src/Server/Invariant.antt =====
-- Invariants of the daemon through a session.
use gpumemd.Base.{true, false, Option, none, some, List, [], ◌∷◌, Text, All}
use gpumemd.Server.{Daemon, Occasion, Platform, Write}
use gpumemd.Server.Sending.{Sending, send_all}
use gpumemd.Server.Lines.{Event, reading}
use gpumemd.Server.Keeping.{InTurn, InSession, InOption, session-keeps}
use gpumemd.Server.Session.{
  Connection, respond, deliver, sending, told, tell, tell_next, answer_next, answer,
  too_large_reply, unterminated_reply, client_session,
}

module _ {B : Type 0} (Good : Daemon B → Type 0) where
  abbrev pub After : {R : Type 0} → Option (Daemon B × R) → Type 0
  After none = Unit
  After (some (d, result)) = Good d

-- An invariant of the daemon which requests keep under allowed circumstances.
module _ {B F : Type 0} (platform : Platform B F) (Good : Daemon B → Type 0)
    (Allowed : Occasion B → Type 0)
    (moves : (occasion : Occasion B) (d : Daemon B)
      → Allowed occasion
      → Good d
      → Good (occasion.others d))
    (responds : (occasion : Occasion B) (line : Text) (d : Daemon B)
      → Allowed occasion
      → Good d
      → After Good (respond platform occasion line d)) where
  abbrev pub Along : Connection B → Type 0
  Along c = Good c.daemon × All Allowed c.occasions

  sending-Along : (c : Connection B) (result : Sending) → Along c → InTurn Along (sending c result)
  sending-Along c Sending.blocked p = tt
  sending-Along c (Sending.returned sent true) p = p
  sending-Along c (Sending.returned sent false) p = p

  deliver-Along :
      (writes : List Write) (later : List (Occasion B)) (output : Text)
      (o : Option (Daemon B × Text))
      → All Allowed later
      → After Good o
      → InTurn Along (deliver writes later output o)
  deliver-Along writes later output none legal e = tt
  deliver-Along writes later output (some (d, response)) legal e =
      sending-Along (record { daemon = d; output = output; occasions = later })
        (send_all writes response) (e, legal)

  answer_next-Along :
      (line : Text) (c : Connection B) (occasions : List (Occasion B))
      → Good c.daemon
      → All Allowed occasions
      → InTurn Along (answer_next platform line c occasions)
  answer_next-Along line c [] reached legal = tt
  answer_next-Along line c (occasion ∷ later) reached (now, legal) =
      deliver-Along occasion.writes later c.output
        (respond platform occasion line (occasion.others c.daemon)) legal
        (responds occasion line (occasion.others c.daemon) now
          (moves occasion c.daemon now reached))

  told-Along : (c : Connection B) (result : Sending) → Along c → InOption Along (told c result)
  told-Along c Sending.blocked p = tt
  told-Along c (Sending.returned sent complete) p = p

  tell_next-Along :
      (reply : Text) (c : Connection B) (occasions : List (Occasion B))
      → Good c.daemon
      → All Allowed occasions
      → InOption Along (tell_next reply c occasions)
  tell_next-Along reply c [] reached legal = tt
  tell_next-Along reply c (occasion ∷ later) reached (now, legal) =
      told-Along
        (record { daemon = occasion.others c.daemon; output = c.output; occasions = later })
        (send_all occasion.writes reply) (moves occasion c.daemon now reached, legal)

  pub client_session-Along :
      (events : List Event) (c : Connection B)
      → Along c
      → InSession Along (client_session platform events c)
  unfolding client_session answer tell
  client_session-Along events c p =
      session-keeps Along (answer platform) (tell too_large_reply) (tell unterminated_reply)
        (λ line c q. answer_next-Along line c c.occasions q.0 q.1)
        (λ c q. tell_next-Along too_large_reply c c.occasions q.0 q.1)
        (λ c q. tell_next-Along unterminated_reply c c.occasions q.0 q.1) events (reading c []) p
