-- ===== src/Server/Dispatch.antt =====
-- `dispatch` of src/ipc/unix_socket_server.cpp: a command's operation, its metrics and its reply.
use gpumemd.Base.{
  Bool, false, not, ◌&&◌, ◌==◌, find_if, ℕ, Option, none, some, List, [], ◌∷◌, Text, codes,
  if◌then◌else◌,
}
use mathlib.Core.Option
use gpumemd.Resource.{
  PendingRequest, time_max, OperationResult, AcquireOptions, returns, waiting, try_acquire, acquire,
}
use gpumemd.Resource.Waiting.{wait_round, time_out, has_sequence}
use gpumemd.Resource.Models.{release, status}
use gpumemd.Registry
use gpumemd.Registry.{ModelOperationResult, register_model, register_file}
use gpumemd.Nodes
use gpumemd.Nodes.{NodeOperationResult, register_node, unregister_node}
use gpumemd.Residency.{System}
use gpumemd.Residency.Load.{load, is_ok}
use gpumemd.Residency.Operations
use gpumemd.Residency.Operations.{unload, share, residency, is_done}
use gpumemd.Metrics.{
  Metrics, record_acquire, record_release, record_model_load, record_model_unload,
}
use gpumemd.Protocol.Command
use gpumemd.Protocol.Command.{Command, CommandType, AcquireMode}
use gpumemd.Protocol.Replies.{
  format_operation_result, format_model_operation_result, format_residency_operation_result,
  format_node_operation_result, format_share_result, format_status, format_models, format_nodes,
  format_residency, format_metrics,
}
use gpumemd.Server.{Daemon, Wake, Occasion, Platform, with_system, with_resources, resources_of}

abbrev pub dispatch_metrics : Option Metrics → Text
dispatch_metrics none = codes "ERR metrics_unavailable metrics are disabled\n"
dispatch_metrics (some m) = format_metrics m

abbrev pub nodes_disabled : Text
nodes_disabled = codes "ERR nodes_unavailable node registry is disabled\n"

abbrev pub dispatch_nodes : Option Nodes.Nodes → Text
dispatch_nodes none = nodes_disabled
dispatch_nodes (some nodes) = format_nodes (Nodes.snapshot nodes)

-- Whether the request waits with a deadline.
abbrev pub has_deadline : Option PendingRequest → Bool
has_deadline none = false
has_deadline (some request) = not (request.deadline == time_max)

module _ {B : Type 0} where
  -- `if (metrics != nullptr)`
  abbrev pub counting : (Metrics → Metrics) → Daemon B → Daemon B
  counting change d = record d { metrics = Option.map change d.metrics }

  -- The thread blocks on the condition variable until it wakes: with `wait_until`, if its request has a
  -- deadline, and otherwise with `wait`.
  abbrev pub blocks : ℕ → Wake B → Daemon B → Daemon B
  blocks sequence wake d =
      let d' = wake.others d in
      if has_deadline (find_if (has_sequence sequence) (resources_of d).pending) && wake.timed_out
      then with_resources (time_out sequence (resources_of d')) d'
      else d'

  -- The wait loop of `acquire`: `none` while the thread waits still.
  unfoldable pub wait_loop : List (Wake B) → ℕ → Daemon B → Option (Daemon B × OperationResult)
  wait_loop [] sequence d = none
  wait_loop (wake ∷ wakes) sequence d =
      let (m, acquiring) = wait_round sequence wake.now (resources_of d) in
      elim acquiring [
        | returns result ↦ some (with_resources m d, result)
        | waiting _ ↦ wait_loop wakes sequence (blocks sequence wake (with_resources m d))
      ]

  -- `ResourceManager::acquire`, the wait included.
  unfoldable pub acquire_waiting :
      List (Wake B) → Text → ℕ → AcquireOptions → ℕ → Daemon B → Option (Daemon B × OperationResult)
  unfolding wait_loop
  acquire_waiting wakes name bytes options now d =
      let (m, acquiring) = acquire name bytes options now (resources_of d) in
      elim acquiring [
        | returns result ↦ some (with_resources m d, result)
        | waiting sequence ↦ wait_loop wakes sequence (with_resources m d)
      ]

  abbrev pub acquired : Text → Daemon B → OperationResult → Daemon B × Text
  acquired name d result = (
    counting (record_acquire (is_ok result.error) result.amount) d,
    format_operation_result (codes "acquired") name result,
  )

  abbrev pub acquired_later : Text → Option (Daemon B × OperationResult) → Option (Daemon B × Text)
  acquired_later name none = none
  acquired_later name (some (d, result)) = some (acquired name d result)

  abbrev pub dispatch_release : Text → ℕ → Daemon B → Daemon B × Text
  dispatch_release name now d =
      let (m, result) = release name now (resources_of d) in
      (
        counting (record_release (is_ok result.error) result.amount) (with_resources m d),
        format_operation_result (codes "released") name result,
      )

  -- An operation of a model without metrics.
  abbrev pub model_operation :
      Text → Text → System B × ModelOperationResult → Daemon B → Daemon B × Text
  model_operation action name (s, result) d =
      (with_system s d, format_model_operation_result action name result)

  abbrev pub node_operation :
      Text
      → Text
      → (Nodes.Nodes → Nodes.Nodes × NodeOperationResult)
      → Option Nodes.Nodes
      → Daemon B
      → Daemon B × Text
  node_operation action name operation none d = (d, nodes_disabled)
  node_operation action name operation (some nodes) d =
      let (nodes', result) = operation nodes in
      (record d { nodes = some nodes' }, format_node_operation_result action name result)

module _ {B F : Type 0} (platform : Platform B F) (occasion : Occasion B) where
  abbrev pub dispatch_acquire : AcquireMode → Command → Daemon B → Option (Daemon B × Text)
  dispatch_acquire Command.try c d =
      let (m, result) = try_acquire c.name c.bytes occasion.moment.now (resources_of d) in
      some (acquired c.name (with_resources m d) result)
  dispatch_acquire Command.wait c d =
      acquired_later c.name
        (acquire_waiting occasion.wakes c.name c.bytes c.options occasion.moment.now d)

  abbrev pub dispatch_load : Text → Daemon B → Daemon B × Text
  dispatch_load name d =
      let (s, result) = load platform.host name occasion.moment d.system in
      (
        counting (record_model_load (is_done result.error)) (with_system s d),
        format_residency_operation_result (codes "loaded") name result,
      )

  abbrev pub dispatch_unload : Text → Daemon B → Daemon B × Text
  dispatch_unload name d =
      let (s, result) = unload platform.host name occasion.moment.now d.system in
      (
        counting (record_model_unload (is_done result.error)) (with_system s d),
        format_residency_operation_result (codes "unloaded") name result,
      )

  abbrev pub registering :
      Registry.Registry × ModelOperationResult → Text → Daemon B → Daemon B × Text
  registering (registry, result) name d =
      model_operation (codes "registered") name (record d.system { registry = registry }, result) d

  -- Every command but `acquire`.
  unfoldable pub dispatch_now : CommandType → Command → Daemon B → Daemon B × Text
  dispatch_now Command.releases c d = dispatch_release c.name occasion.moment.now d
  dispatch_now Command.status c d = (d, format_status (status (resources_of d)))
  dispatch_now Command.register_model c d =
      registering (register_model c.name c.bytes c.metadata d.system.registry) c.name d
  dispatch_now Command.register_file c d =
      registering (register_file platform.files c.name c.path c.metadata d.system.registry) c.name d
  dispatch_now Command.unregister_model c d =
      model_operation (codes "unregistered") c.name (Operations.unregister_model c.name d.system) d
  dispatch_now Command.retain_model c d =
      model_operation (codes "retained") c.name (Operations.retain c.name d.system) d
  dispatch_now Command.release_model c d =
      model_operation (codes "released_model") c.name (Operations.release_model c.name d.system) d
  dispatch_now Command.models c d = (d, format_models (Registry.snapshot d.system.registry))
  dispatch_now Command.load_model c d = dispatch_load c.name d
  dispatch_now Command.unload_model c d = dispatch_unload c.name d
  dispatch_now Command.residency c d = (d, format_residency (residency d.system))
  dispatch_now Command.share c d =
      (d, format_share_result c.name (share platform.host c.name d.system))
  dispatch_now Command.metrics c d = (d, dispatch_metrics d.metrics)
  dispatch_now Command.register_node c d =
      node_operation (codes "node_registered") c.name (register_node c.name c.path c.bytes) d.nodes
        d
  dispatch_now Command.unregister_node c d =
      node_operation (codes "node_removed") c.name (unregister_node c.name) d.nodes d
  dispatch_now Command.nodes c d = (d, dispatch_nodes d.nodes)
  dispatch_now Command.acquires c d = (d, codes "ERR internal_error unknown command type\n")

  unfoldable pub dispatch_type : CommandType → Command → Daemon B → Option (Daemon B × Text)
  unfolding dispatch_now acquire_waiting
  dispatch_type Command.acquires c d = dispatch_acquire c.acquire_mode c d
  dispatch_type type c d = some (dispatch_now type c d)

  -- `none` while `acquire` waits.
  unfoldable pub dispatch : Command → Daemon B → Option (Daemon B × Text)
  unfolding dispatch_type
  dispatch c d = dispatch_type c.type c d
