-- ===== src/Server/Counted/Replies.antt =====
-- A session's replies, one after the other, and what each does to the metrics.
use mathlib.Core.Option
use gpumemd.Base.{
  suc, ◌≡◌, refl, sym, ap, ◌∙◌, subst, Option, none, some, List, [], ◌∷◌, ◌++◌, append-nil,
  append_assoc, Text, All, length,
}
use gpumemd.Metrics.{Metrics, record_request}
use gpumemd.Protocol.Parse.{parse_command}
use gpumemd.Server.{Daemon, Occasion, Platform}
use gpumemd.Server.Sending
use gpumemd.Server.Sending.{Sending, Delivers, send_all, send_all-Delivers}
use gpumemd.Server.Dispatch.{dispatch}
use gpumemd.Server.Lines.{Turn, goes_on, stops, blocks, Session, reading, closed, blocked, continue}
use gpumemd.Server.Framing.{answers}
use gpumemd.Server.Session.{
  Connection, strip, respond, recorded, sending, deliver, answer_next, answer, tell,
  too_large_reply, unterminated_reply,
}
use gpumemd.Server.Invariant.{After}
use gpumemd.Server.Counted.{
  Tally, Shows, is_success, after, record_request-Shows, IsAlone, quiet-Good, respond_parsed-Good,
}

-- The daemon after a reply, and the reply.
abbrev Replied : {B : Type 0} → Tally → Option (Daemon B × Text) → Type 0
Replied tally none = Unit
Replied tally (some (d, reply)) = Shows (after reply tally) d.metrics

recorded-Replied :
    {B : Type 0} (tally : Tally) (o : Option (Daemon B × Text))
    → After (λ (d : Daemon B). Shows tally d.metrics) o
    → Replied tally (Option.map recorded o)
unfolding recorded
recorded-Replied tally none g = tt
recorded-Replied tally (some (d, reply)) g = counts d.metrics g
  where
    counts :
        (o : Option Metrics)
        → Shows tally o
        → Shows (after reply tally) (Option.map (record_request (is_success reply)) o)
    counts none h = elim h [ ]
    counts (some m) h = record_request-Shows reply tally m h

-- The counters after some replies.
abbrev pub after_all : List Text → Tally → Tally
after_all [] tally = tally
after_all (reply ∷ replies) tally = after_all replies (after reply tally)

abbrev pub join : List Text → Text
join [] = []
join (text ∷ texts) = text ++ join texts

abbrev pub IsReading : {A : Type 0} → (A → Type 0) → Session A → Type 0
IsReading P (reading a input) = P a
IsReading P _ = Unit

pub shown :
    (tally : Tally) (o : Option Metrics)
    → Shows tally o
    → (m : Metrics) × (o ≡ some m)
      × (m.requests ≡ tally.requests)
      × (m.successes ≡ tally.successes)
      × (m.failures ≡ tally.failures)
shown tally none h = elim h [ ]
shown tally (some m) (r, s, f) = (m, refl, r, s, f)

module _ {B F : Type 0} (platform : Platform B F) where
  abbrev Ready : Tally → Connection B → Type 0
  Ready tally c = Shows tally c.daemon.metrics × All IsAlone c.occasions

  -- The lines are answered in their order, each once, on the occasions as they come: the state before
  -- and the occasions, the replies, and what is left.
  pub data Answers
      : List Text
        → List (Occasion B)
        → Daemon B
        → List Text
        → List (Occasion B)
        → Daemon B
        → Type 0 where
    all : {occasions : List (Occasion B)} {d : Daemon B} → Answers [] occasions d [] occasions d
    first :
        {line reply : Text} {lines replies : List Text} {occasion : Occasion B}
        {occasions later : List (Occasion B)} {d d' d'' : Daemon B}
        → respond platform occasion line (occasion.others d) ≡ some (d', reply)
        → Answers lines occasions d' replies later d''
        → Answers (line ∷ lines) (occasion ∷ occasions) d (reply ∷ replies) later d''

  -- The reply to a line that was answered before `c`.
  abbrev Reply : Text → List (Occasion B) → Daemon B → Text → Connection B → Type 0
  Reply line occasions d reply c =
      (occasion : Occasion B) × (occasions ≡ occasion ∷ c.occasions)
      × (respond platform occasion line (occasion.others d) ≡ some (c.daemon, reply))

  -- What a turn that goes on has done.
  abbrev Turned : Tally → Text → Connection B → List (Occasion B) → Turn (Connection B) → Type 0
  Turned tally line before occasions (goes_on c) =
      (reply : Text) × (c.output ≡ before.output ++ reply)
      × Ready (after reply tally) c
      × Reply line occasions before.daemon reply c
  Turned tally line before occasions _ = Unit

  deliver-Turned :
      (tally : Tally) (line : Text) (c : Connection B) (occasion : Occasion B)
      (later : List (Occasion B)) (o : Option (Daemon B × Text))
      → respond platform occasion line (occasion.others c.daemon) ≡ o
      → All IsAlone later
      → Replied tally o
      → Turned tally line c (occasion ∷ later) (deliver occasion.writes later c.output o)
  deliver-Turned tally line c occasion later none responded alone h = tt
  deliver-Turned tally line c occasion later (some (d, reply)) responded alone h =
      sent (send_all occasion.writes reply) (send_all-Delivers occasion.writes reply)
    where
      sent :
          (result : Sending)
          → Delivers reply result
          → Turned tally line c
              (occasion ∷ later)
              (sending (record { daemon = d; output = c.output; occasions = later }) result)
      sent _ Sending.blocks = tt
      sent _ Sending.whole = (reply, refl, (h, alone), (occasion, refl, responded))
      sent _ (Sending.part bytes rest e) = tt

  answer_next-Turned :
      (tally : Tally) (line : Text) (c : Connection B) (occasions : List (Occasion B))
      → Shows tally c.daemon.metrics
      → All IsAlone occasions
      → Turned tally line c occasions (answer_next platform line c occasions)
  unfolding respond dispatch
  answer_next-Turned tally line c [] h alone = tt
  answer_next-Turned tally line c (occasion ∷ later) h (now, alone) =
      deliver-Turned tally line c occasion later _ refl alone (
        recorded-Replied tally _ (
          respond_parsed-Good platform occasion now tally (parse_command (strip line))
            (occasion.others c.daemon) (quiet-Good tally occasion.others c.daemon now.0 h)))

  -- What a session that has answered `lines` and still reads has done.
  abbrev pub Done : Tally → Connection B → List Text → Connection B → Type 0
  Done tally before lines c =
      (replies : List Text) × (length replies ≡ length lines)
      × (c.output ≡ before.output ++ join replies)
      × Answers lines before.occasions before.daemon replies c.occasions c.daemon
      × Shows (after_all replies tally) c.daemon.metrics

  pub answers-Done :
      (lines : List Text) (tally : Tally) (c : Connection B)
      → Ready tally c
      → IsReading (Done tally c lines) (
          answers
            (answer platform)
            (tell too_large_reply)
            (tell unterminated_reply)
            lines
            (λ c'. reading c' [])
            c)
  unfolding answer
  answers-Done [] tally c p = ([], refl, sym (append-nil c.output), all, p.0)
  answers-Done (line ∷ lines) tally c p =
      then_Done (answer platform line c) (answer_next-Turned tally line c c.occasions p.0 p.1)
        (λ reply c' ready. answers-Done lines (after reply tally) c' ready)
    where
      more :
          (reply : Text) (before : Connection B) (s : Session (Connection B))
          → before.output ≡ c.output ++ reply
          → Reply line c.occasions c.daemon reply before
          → IsReading (Done (after reply tally) before lines) s
          → IsReading (Done tally c (line ∷ lines)) s
      more reply before (reading c' input) e (occasion, next, responded)
            (replies, size, joined, answered, shows) =
          (
            reply ∷ replies,
            ap suc size,
            joined ∙ ap (λ t. t ++ join replies) e ∙ append_assoc c.output reply (join replies),
            subst
                (λ occasions.
                  Answers (line ∷ lines) occasions c.daemon (reply ∷ replies) c'.occasions
                    c'.daemon)
                (sym next) (first responded answered),
            shows,
          )
      more reply before (closed c') e h d = tt
      more reply before blocked e h d = tt

      then_Done :
          (turn : Turn (Connection B))
          → Turned tally line c c.occasions turn
          → ((reply : Text) (c' : Connection B)
              → Ready (after reply tally) c'
              → IsReading (Done (after reply tally) c' lines) (
                  answers
                    (answer platform)
                    (tell too_large_reply)
                    (tell unterminated_reply)
                    lines
                    (λ c''. reading c'' [])
                    c'))
          → IsReading (Done tally c (line ∷ lines)) (
              continue
                (answers
                  (answer platform)
                  (tell too_large_reply)
                  (tell unterminated_reply)
                  lines
                  (λ c'. reading c' []))
                turn)
      then_Done (goes_on c') (reply, e, ready, replied) later =
          more reply c' _ e replied (later reply c' ready)
      then_Done (stops c') h later = tt
      then_Done blocks h later = tt
