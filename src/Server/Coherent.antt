-- ===== src/Server/Coherent.antt =====
-- The daemon stays coherent through a whole session.
use mathlib.Core.Option
use gpumemd.Base.{ℕ, ◌≡◌, ◌<◌, false, Option, none, some, List, Text, All, word}
use gpumemd.Resource.{Manager, SchedulingPolicy, create}
use gpumemd.Backend.{IsBackend}
use gpumemd.Residency.{System}
use gpumemd.Residency.Coherent.{IsCoherent}
use gpumemd.Residency.Reachable.{Reach, here, start, Reach-IsCoherent}
use gpumemd.Protocol.Command
use gpumemd.Protocol.Command.{ParseResult}
use gpumemd.Protocol.Parse.{parse_command}
use gpumemd.Server.{Daemon, Occasion, Platform}
use gpumemd.Server.Dispatch.{dispatch}
use gpumemd.Server.Lines.{Event}
use gpumemd.Server.Keeping.{InSession, InSession-map}
use gpumemd.Server.Session.{Connection, strip, respond_parsed, respond, recorded, client_session}
use gpumemd.Server.Invariant.{After, Along, client_session-Along}
use gpumemd.Server.Reachable.{Ends, Ends-later, IsLegal, Leads-trans, dispatch_type-Ends}

module _ {B F : Type 0} (platform : Platform B F) where
  recorded-Ends :
      (s : System B) (o : Option (Daemon B × Text))
      → Ends platform s o
      → Ends platform s (Option.map recorded o)
  unfolding recorded
  recorded-Ends s none e = tt
  recorded-Ends s (some (d, response)) e = e

  respond_parsed-Ends :
      (occasion : Occasion B) (result : ParseResult) (d : Daemon B)
      → IsLegal platform occasion
      → Ends platform d.system (respond_parsed platform occasion result d)
  unfolding dispatch
  respond_parsed-Ends occasion (Command.failed error) d legal = here
  respond_parsed-Ends occasion (Command.parsed c) d legal =
      dispatch_type-Ends platform occasion legal c.type c d

  respond-Ends :
      (occasion : Occasion B) (line : Text) (d : Daemon B)
      → IsLegal platform occasion
      → Ends platform d.system (respond platform occasion line d)
  unfolding respond
  respond-Ends occasion line d legal =
      recorded-Ends d.system _ (respond_parsed-Ends occasion (parse_command (strip line)) d legal)

  Ends-After :
      (from : System B) (o : Option (Daemon B × Text))
      → Ends platform from o
      → After (λ (d : Daemon B). Reach platform.host from d.system) o
  Ends-After from none e = tt
  Ends-After from (some (d, response)) e = e

-- The state that a session leaves behind is coherent, whatever the client sends, however it is cut
-- into buffers and wherever it ends, and whatever the other threads do at the points where they can
-- come in, if they too only take steps of the system, and if the session began in a state that was
-- reached from a new resource manager of a 64-bit capacity and an empty backend that keeps its promises,
-- among them that it never fails to unload a loaded model.
pub client_session-IsCoherent :
    {B F : Type 0} (platform : Platform B F) (Valid : B → Type 0)
    (laws : IsBackend platform.host.backend Valid) (capacity : ℕ) (policy : SchedulingPolicy)
    (m : Manager) (b : B) (events : List Event) (c : Connection B)
    → capacity < word
    → create capacity policy ≡ some m
    → Valid b
    → ((id : Text) → platform.host.backend.is_loaded id b ≡ false)
    → Reach platform.host (start m b) c.daemon.system
    → All (IsLegal platform) c.occasions
    → InSession
        (λ c'. IsCoherent platform.host.backend Valid c'.daemon.system)
        (client_session platform events c)
client_session-IsCoherent platform Valid laws capacity policy m b events c h e valid none_loaded
      reached legal =
    let Good = λ (d : Daemon _). Reach platform.host (start m b) d.system in
    let moves =
      λ (occasion : Occasion _) (d : Daemon _) (l : IsLegal platform occasion) (r : Good d).
        Leads-trans platform r (l.0 d) in
    let responds =
      λ (occasion : Occasion _) (line : Text) (d : Daemon _) (l : IsLegal platform occasion)
          (r : Good d).
        Ends-After platform (start m b) _ (
          Ends-later platform (respond platform occasion line d) r
            (respond-Ends platform occasion line d l)) in
    InSession-map (Along platform Good (IsLegal platform) moves responds) _
      (λ c' p.
        Reach-IsCoherent platform.host Valid laws capacity policy m b c'.daemon.system h e valid
          none_loaded p.0)
      (client_session platform events c)
      (client_session-Along platform Good (IsLegal platform) moves responds events c
        (reached, legal))
