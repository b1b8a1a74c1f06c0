-- ===== src/Server/Counted.antt =====
-- The daemon's metrics through a request: the operations leave the counters of requests alone.
pub mod Replies
pub mod Totals
use mathlib.Core.Option
use gpumemd.Base.{
  find_if, ◌&&◌, ℕ, ◌≡◌, true, false, Bool, Option, none, some, List, [], ◌∷◌, Text, All, arith,
  not, Bool-cases, inl, inr, subst, sym, add64, codes, if◌then◌else◌,
}
use gpumemd.Resource.{
  Acquiring, OperationResult, AcquireOptions, returns, waiting, Manager, acquire,
}
use gpumemd.Resource.Waiting.{has_sequence, wait_round, time_out}
use gpumemd.Nodes
use gpumemd.Nodes.{NodeOperationResult, register_node, unregister_node}
use gpumemd.Metrics.{
  Metrics, record_request, record_acquire, record_release, record_model_load, record_model_unload,
}
use gpumemd.Protocol.Command
use gpumemd.Protocol.Command.{Command, CommandType, AcquireMode, ParseResult}
use gpumemd.Protocol.Parse.{parse_command}
use gpumemd.Server.{Daemon, Wake, Occasion, Platform, with_resources, resources_of}
use gpumemd.Server.Dispatch.{
  has_deadline, wait_loop, acquire_waiting, blocks, dispatch_acquire, dispatch_now, dispatch_type,
  dispatch, counting, acquired_later, node_operation,
}
use gpumemd.Server.Lines.{Event}
use gpumemd.Server.Keeping.{InSession, InSession-map}
use gpumemd.Server.Session.{
  Connection, strip, starts_with, respond_parsed, respond, recorded, client_session,
}
use gpumemd.Server.Invariant.{After, Along, client_session-Along}

-- What the counters of requests stand at. There are no metrics if they are disabled.
pub record Tally : Type 0 where
  pub requests : ℕ
  pub successes : ℕ
  pub failures : ℕ

abbrev pub Shows : Tally → Option Metrics → Type 0
Shows tally none = ⊥
Shows tally (some m) =
    (m.requests ≡ tally.requests) × (m.successes ≡ tally.successes) × (m.failures ≡ tally.failures)

abbrev pub is_success : Text → Bool
is_success reply = starts_with reply (codes "OK")

abbrev pub counted : Bool → ℕ → ℕ
counted test n = if test then add64 n 1 else n

-- The counters after a reply.
abbrev pub after : Text → Tally → Tally
after reply tally = record {
  requests = add64 tally.requests 1;
  successes = counted (is_success reply) tally.successes;
  failures = counted (not (is_success reply)) tally.failures;
}

pub record_request-Shows :
    (reply : Text) (tally : Tally) (m : Metrics)
    → Shows tally (some m)
    → Shows (after reply tally) (some (record_request (is_success reply) m))
unfolding record_request
record_request-Shows reply tally m h = elim (Bool-cases (is_success reply)) [
  | inl e ↦ rw (record_request, e) (ground (arith, h))
  | inr e ↦ rw (record_request, e) (ground (arith, h))
]

-- Other threads that count nothing.
abbrev pub IsQuiet : {B : Type 0} → (Daemon B → Daemon B) → Type 0
IsQuiet others = (d : Daemon _) → (others d).metrics ≡ d.metrics

abbrev pub IsAlone : {B : Type 0} → Occasion B → Type 0
IsAlone occasion =
    IsQuiet occasion.others × All (λ (wake : Wake _). IsQuiet wake.others) occasion.wakes

module _ {B : Type 0} (tally : Tally) where
  abbrev Good : Daemon B → Type 0
  Good d = Shows tally d.metrics

  counting-Good :
      (change : Metrics → Metrics) (d : Daemon B)
      → ((m : Metrics) → Shows tally (some m) → Shows tally (some (change m)))
      → Good d
      → Good (counting change d)
  counting-Good change d h g = keeps d.metrics g
    where
      keeps : (o : Option Metrics) → Shows tally o → Shows tally (Option.map change o)
      keeps none g = elim g [ ]
      keeps (some m) g = h m g

  pub quiet-Good :
      (others : Daemon B → Daemon B) (d : Daemon B) → IsQuiet others → Good d → Good (others d)
  quiet-Good others d quiet g = subst (Shows tally) (sym (quiet d)) g

  blocks-Good :
      (sequence : ℕ) (wake : Wake B) (d : Daemon B)
      → IsQuiet wake.others
      → Good d
      → Good (blocks sequence wake d)
  blocks-Good sequence wake d fair g =
      elim (has_deadline (find_if (has_sequence sequence) (resources_of d).pending)
          && wake.timed_out)
        as (λ timed_out. Good (
          if timed_out
          then with_resources (time_out sequence (resources_of (wake.others d))) (wake.others d)
          else wake.others d)) [
            | false ↦ quiet-Good wake.others d fair g
            | true ↦ quiet-Good wake.others d fair g
          ]

  returns_or_waits :
      (d : Daemon B) (m : Manager) (acquiring : Acquiring)
      (next_round : ℕ → Daemon B → Option (Daemon B × OperationResult))
      → Good d
      → ((sequence : ℕ) (d' : Daemon B) → Good d' → After Good (next_round sequence d'))
      → After Good (elim acquiring [
        | returns result ↦ some (with_resources m d, result)
        | waiting sequence ↦ next_round sequence (with_resources m d)
      ])
  returns_or_waits d m (returns result) next_round g later = g
  returns_or_waits d m (waiting sequence) next_round g later = later sequence (with_resources m d) g

  wait_loop-Good :
      (wakes : List (Wake B)) (sequence : ℕ) (d : Daemon B)
      → All (λ (wake : Wake B). IsQuiet wake.others) wakes
      → Good d
      → After Good (wait_loop wakes sequence d)
  unfolding wait_loop
  wait_loop-Good [] sequence d fair g = tt
  wait_loop-Good (wake ∷ wakes) sequence d (now, fair) g =
      returns_or_waits d (wait_round sequence wake.now (resources_of d)).0
        (wait_round sequence wake.now (resources_of d)).1
        (λ _ d'. wait_loop wakes sequence (blocks sequence wake d')) g
        (λ _ d' g'.
          wait_loop-Good wakes sequence (blocks sequence wake d') fair
            (blocks-Good sequence wake d' now g'))

  acquire_waiting-Good :
      (wakes : List (Wake B)) (name : Text) (bytes : ℕ) (options : AcquireOptions) (now : ℕ)
      (d : Daemon B)
      → All (λ (wake : Wake B). IsQuiet wake.others) wakes
      → Good d
      → After Good (acquire_waiting wakes name bytes options now d)
  unfolding acquire_waiting
  acquire_waiting-Good wakes name bytes options now d fair g =
      returns_or_waits d (acquire name bytes options now (resources_of d)).0
        (acquire name bytes options now (resources_of d)).1
        (λ sequence d'. wait_loop wakes sequence d') g
        (λ sequence d' g'. wait_loop-Good wakes sequence d' fair g')

  acquired_later-Good :
      (name : Text) (o : Option (Daemon B × OperationResult))
      → After Good o
      → After Good (acquired_later name o)
  unfolding record_acquire
  acquired_later-Good name none g = tt
  acquired_later-Good name (some (d, result)) g =
      counting-Good (record_acquire _ result.amount) d (λ m h. h) g

  node_operation-Good :
      (action name : Text) (operation : Nodes.Nodes → Nodes.Nodes × NodeOperationResult)
      (nodes : Option Nodes.Nodes) (d : Daemon B)
      → Good d
      → Good (node_operation action name operation nodes d).0
  node_operation-Good action name operation none d g = g
  node_operation-Good action name operation (some nodes) d g = g

module _ {B F : Type 0} (platform : Platform B F) (occasion : Occasion B) (fair : IsAlone occasion)
    (tally : Tally) where
  dispatch_acquire-Good :
      (mode : AcquireMode) (c : Command) (d : Daemon B)
      → Good tally d
      → After (Good tally) (dispatch_acquire platform occasion mode c d)
  unfolding record_acquire
  dispatch_acquire-Good Command.try c d g = counting-Good tally (record_acquire _ _) d (λ m h. h) g
  dispatch_acquire-Good Command.wait c d g = acquired_later-Good tally c.name _ (
      acquire_waiting-Good tally occasion.wakes c.name c.bytes c.options occasion.moment.now d
        fair.1 g)

  dispatch_now-Good :
      (type : CommandType) (c : Command) (d : Daemon B)
      → Good tally d
      → Good tally (dispatch_now platform occasion type c d).0
  unfolding dispatch_now record_release record_model_load record_model_unload
  dispatch_now-Good Command.releases c d g = counting-Good tally (record_release _ _) d (λ m h. h) g
  dispatch_now-Good Command.load_model c d g =
      counting-Good tally (record_model_load _) d (λ m h. h) g
  dispatch_now-Good Command.unload_model c d g =
      counting-Good tally (record_model_unload _) d (λ m h. h) g
  dispatch_now-Good Command.register_node c d g =
      node_operation-Good tally (codes "node_registered") c.name
        (register_node c.name c.path c.bytes) d.nodes d g
  dispatch_now-Good Command.unregister_node c d g =
      node_operation-Good tally (codes "node_removed") c.name (unregister_node c.name) d.nodes d g
  dispatch_now-Good _ c d g = g

  dispatch_type-Good :
      (type : CommandType) (c : Command) (d : Daemon B)
      → Good tally d
      → After (Good tally) (dispatch_type platform occasion type c d)
  unfolding dispatch_type
  dispatch_type-Good Command.acquires c d g = dispatch_acquire-Good c.acquire_mode c d g
  dispatch_type-Good type c d g = dispatch_now-Good type c d g

  pub respond_parsed-Good :
      (result : ParseResult) (d : Daemon B)
      → Good tally d
      → After (Good tally) (respond_parsed platform occasion result d)
  unfolding dispatch
  respond_parsed-Good (Command.failed error) d g = g
  respond_parsed-Good (Command.parsed c) d g = dispatch_type-Good c.type c d g
