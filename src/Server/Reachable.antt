-- ===== src/Server/Reachable.antt =====
-- The server only takes steps of the system: a session runs from a state of the system to one that
-- its operations reach.
use gpumemd.Base.{
  find_if, ◌&&◌, ℕ, refl, true, false, Option, none, some, List, [], ◌∷◌, Text, All, codes,
  if◌then◌else◌,
}
use gpumemd.Resource.{
  Manager, AcquireOptions, OperationResult, Acquiring, returns, waiting, acquire,
}
use gpumemd.Resource.Waiting.{has_sequence, wait_round, time_out}
use gpumemd.Residency.{System}
use gpumemd.Residency.Clients
use gpumemd.Residency.Clients.{ClientReach, ClientStep}
use gpumemd.Residency.Reachable
use gpumemd.Residency.Reachable.{Step, Reach, here, next, start, Reach-IsCoherent}
use gpumemd.Nodes
use gpumemd.Nodes.{NodeOperationResult, register_node, unregister_node}
use gpumemd.Protocol.Command
use gpumemd.Protocol.Command.{Command, CommandType, AcquireMode, ParseResult}
use gpumemd.Server.{Daemon, Wake, Occasion, Platform, with_resources, resources_of}
use gpumemd.Server.Dispatch.{
  has_deadline, wait_loop, acquire_waiting, blocks, dispatch_acquire, dispatch_now, dispatch_type,
  acquired_later, node_operation,
}

module _ {B F : Type 0} (platform : Platform B F) where
  abbrev Leads : System B → System B → Type 0
  Leads = Reach platform.host

  -- What other threads do to the daemon: they too take steps of the system.
  abbrev pub IsStepping : (Daemon B → Daemon B) → Type 0
  IsStepping others = (d : Daemon B) → Reach platform.host d.system (others d).system

  abbrev pub IsLegal : Occasion B → Type 0
  IsLegal occasion =
      IsStepping occasion.others
      × ((m : Manager) → ClientReach m (occasion.moment.others m))
      × All (λ (wake : Wake B). IsStepping wake.others) occasion.wakes

  pub Leads-trans : {r s t : System B} → Leads r s → Leads s t → Leads r t
  Leads-trans p here = p
  Leads-trans p (next q step) = next (Leads-trans p q) step

  client_step :
      {m : Manager} (s : System B) → ClientStep s.resources m → Leads s (record s { resources = m })
  client_step {m} s step = next here (Reachable.clients m step refl)

  -- The daemon after an `acquire` that has returned.
  abbrev pub Ends : {R : Type 0} → System B → Option (Daemon B × R) → Type 0
  Ends s none = Unit
  Ends s (some (d, result)) = Reach platform.host s d.system

  blocks-Leads :
      (sequence : ℕ) (wake : Wake B) (d : Daemon B)
      → IsStepping wake.others
      → Leads d.system (blocks sequence wake d).system
  blocks-Leads sequence wake d stepping =
      elim (has_deadline (find_if (has_sequence sequence) (resources_of d).pending)
          && wake.timed_out)
        as (λ timed_out.
          Leads d.system
            (if timed_out
              then with_resources (time_out sequence (resources_of (wake.others d))) (wake.others d)
              else wake.others d).system) [
                | false ↦ stepping d
                | true ↦
                    Leads-trans (stepping d)
                      (client_step (wake.others d).system (Clients.times_out_client sequence refl))
              ]

  pub Ends-later :
      {R : Type 0} {s t : System B} (o : Option (Daemon B × R)) → Leads s t → Ends t o → Ends s o
  Ends-later none p e = tt
  Ends-later (some (d, result)) p e = Leads-trans p e

  -- A return at once, or a wait.
  Ends-acquiring :
      (d : Daemon B) (m : Manager) (acquiring : Acquiring)
      (next_round : ℕ → Daemon B → Option (Daemon B × OperationResult))
      → ClientStep (resources_of d) m
      → ((sequence : ℕ) (d' : Daemon B) → Ends d'.system (next_round sequence d'))
      → Ends d.system (elim acquiring [
        | returns result ↦ some (with_resources m d, result)
        | waiting sequence ↦ next_round sequence (with_resources m d)
      ])
  Ends-acquiring d m (returns result) next_round step later = client_step d.system step
  Ends-acquiring d m (waiting sequence) next_round step later =
      Ends-later (next_round sequence (with_resources m d)) (client_step d.system step)
        (later sequence (with_resources m d))

  wait_loop-Ends :
      (wakes : List (Wake B)) (sequence : ℕ) (d : Daemon B)
      → All (λ (wake : Wake B). IsStepping wake.others) wakes
      → Ends d.system (wait_loop wakes sequence d)
  unfolding wait_loop
  wait_loop-Ends [] sequence d legal = tt
  wait_loop-Ends (wake ∷ wakes) sequence d (stepping, legal) =
      Ends-acquiring d (wait_round sequence wake.now (resources_of d)).0
        (wait_round sequence wake.now (resources_of d)).1
        (λ _ d'. wait_loop wakes sequence (blocks sequence wake d'))
        (Clients.rounds_client sequence wake.now refl)
        (λ _ d'.
          Ends-later (wait_loop wakes sequence (blocks sequence wake d'))
            (blocks-Leads sequence wake d' stepping)
            (wait_loop-Ends wakes sequence (blocks sequence wake d') legal))

  acquire_waiting-Ends :
      (wakes : List (Wake B)) (name : Text) (bytes : ℕ) (options : AcquireOptions) (now : ℕ)
      (d : Daemon B)
      → All (λ (wake : Wake B). IsStepping wake.others) wakes
      → Ends d.system (acquire_waiting wakes name bytes options now d)
  unfolding acquire_waiting
  acquire_waiting-Ends wakes name bytes options now d legal =
      Ends-acquiring d (acquire name bytes options now (resources_of d)).0
        (acquire name bytes options now (resources_of d)).1
        (λ sequence d'. wait_loop wakes sequence d')
        (Clients.acquires_client name bytes options now refl)
        (λ sequence d'. wait_loop-Ends wakes sequence d' legal)

  acquired_later-Ends :
      (name : Text) (s : System B) (o : Option (Daemon B × OperationResult))
      → Ends s o
      → Ends s (acquired_later name o)
  acquired_later-Ends name s none e = tt
  acquired_later-Ends name s (some (d, result)) e = e

module _ {B F : Type 0} (platform : Platform B F) (occasion : Occasion B)
    (legal : IsLegal platform occasion) where
  dispatch_acquire-Ends :
      (mode : AcquireMode) (c : Command) (d : Daemon B)
      → Ends platform d.system (dispatch_acquire platform occasion mode c d)
  dispatch_acquire-Ends Command.try c d =
      client_step platform d.system (Clients.tries_client c.name c.bytes occasion.moment.now refl)
  dispatch_acquire-Ends Command.wait c d = acquired_later-Ends platform c.name d.system _ (
      acquire_waiting-Ends platform occasion.wakes c.name c.bytes c.options occasion.moment.now d
        legal.2)

  node_operation-Reach :
      (action name : Text) (operation : Nodes.Nodes → Nodes.Nodes × NodeOperationResult)
      (nodes : Option Nodes.Nodes) (d : Daemon B)
      → Reach platform.host d.system (node_operation action name operation nodes d).0.system
  node_operation-Reach action name operation none d = here
  node_operation-Reach action name operation (some nodes) d = here

  dispatch_now-Reach :
      (type : CommandType) (c : Command) (d : Daemon B)
      → Reach platform.host d.system (dispatch_now platform occasion type c d).0.system
  unfolding dispatch_now
  dispatch_now-Reach Command.releases c d =
      client_step platform d.system (Clients.releases_client c.name occasion.moment.now refl)
  dispatch_now-Reach Command.status c d = here
  dispatch_now-Reach Command.register_model c d =
      next here (Reachable.registers c.name c.bytes c.metadata refl)
  dispatch_now-Reach Command.register_file c d =
      next here (Reachable.registers_file platform.files c.name c.path c.metadata refl)
  dispatch_now-Reach Command.unregister_model c d = next here (Reachable.unregisters c.name refl)
  dispatch_now-Reach Command.retain_model c d = next here (Reachable.retains c.name refl)
  dispatch_now-Reach Command.release_model c d = next here (Reachable.releases c.name refl)
  dispatch_now-Reach Command.models c d = here
  dispatch_now-Reach Command.load_model c d =
      next here (Reachable.loads c.name occasion.moment (legal.1 d.system.resources) refl)
  dispatch_now-Reach Command.unload_model c d =
      next here (Reachable.unloads c.name occasion.moment.now refl)
  dispatch_now-Reach Command.residency c d = here
  dispatch_now-Reach Command.share c d = here
  dispatch_now-Reach Command.metrics c d = here
  dispatch_now-Reach Command.register_node c d =
      node_operation-Reach (codes "node_registered") c.name (register_node c.name c.path c.bytes)
        d.nodes d
  dispatch_now-Reach Command.unregister_node c d =
      node_operation-Reach (codes "node_removed") c.name (unregister_node c.name) d.nodes d
  dispatch_now-Reach Command.nodes c d = here
  dispatch_now-Reach Command.acquires c d = here

  pub dispatch_type-Ends :
      (type : CommandType) (c : Command) (d : Daemon B)
      → Ends platform d.system (dispatch_type platform occasion type c d)
  unfolding dispatch_type
  dispatch_type-Ends Command.acquires c d = dispatch_acquire-Ends c.acquire_mode c d
  dispatch_type-Ends Command.releases c d = dispatch_now-Reach Command.releases c d
  dispatch_type-Ends Command.status c d = dispatch_now-Reach Command.status c d
  dispatch_type-Ends Command.register_model c d = dispatch_now-Reach Command.register_model c d
  dispatch_type-Ends Command.register_file c d = dispatch_now-Reach Command.register_file c d
  dispatch_type-Ends Command.unregister_model c d = dispatch_now-Reach Command.unregister_model c d
  dispatch_type-Ends Command.retain_model c d = dispatch_now-Reach Command.retain_model c d
  dispatch_type-Ends Command.release_model c d = dispatch_now-Reach Command.release_model c d
  dispatch_type-Ends Command.models c d = dispatch_now-Reach Command.models c d
  dispatch_type-Ends Command.load_model c d = dispatch_now-Reach Command.load_model c d
  dispatch_type-Ends Command.unload_model c d = dispatch_now-Reach Command.unload_model c d
  dispatch_type-Ends Command.residency c d = dispatch_now-Reach Command.residency c d
  dispatch_type-Ends Command.share c d = dispatch_now-Reach Command.share c d
  dispatch_type-Ends Command.metrics c d = dispatch_now-Reach Command.metrics c d
  dispatch_type-Ends Command.register_node c d = dispatch_now-Reach Command.register_node c d
  dispatch_type-Ends Command.unregister_node c d = dispatch_now-Reach Command.unregister_node c d
  dispatch_type-Ends Command.nodes c d = dispatch_now-Reach Command.nodes c d
