-- ===== src/Daemon.antt =====
-- src/daemon/main.cpp: the daemon's arguments, and what it starts with.
pub mod Written
use gpumemd.Base.{
  ℕ, Bool, true, false, not, ◌||◌, Option, none, some, List, [], ◌∷◌, Text, codes, text_eq,
  if◌then◌else◌, ℤ, pos, negsuc, eqb_ℤ,
}
use gpumemd.Names.{is_empty}
use gpumemd.Resource.{Manager, SchedulingPolicy, priority_fifo, cost_aware, create}
use gpumemd.Residency.Reachable.{start}
use gpumemd.Metrics.{no_metrics}
use gpumemd.Protocol.{parse_size}
use gpumemd.Server
use gpumemd.Server.Listening.{Calls, Round, Effect, run}

pub record Settings : Type 0 where
  pub memory_token : Text
  pub socket_path : Text
  pub scheduling_policy : SchedulingPolicy

abbrev pub default_settings : Settings
default_settings = record { memory_token = []; socket_path = []; scheduling_policy = priority_fifo }

-- `none` for another word.
unfoldable pub read_policy : Text → Option SchedulingPolicy
read_policy value =
    if text_eq value (codes "priority")
    then some priority_fifo
    else if text_eq value (codes "cost")
    then some cost_aware
    else none

abbrev pub with_policy : Option SchedulingPolicy → Settings → Option Settings
with_policy none settings = none
with_policy (some policy) settings = some (record settings { scheduling_policy = policy })

-- An option and its value.
unfoldable pub read_option : Text → Text → Settings → Option Settings
unfolding read_policy
read_option argument value settings =
    if text_eq argument (codes "--memory")
    then some (record settings { memory_token = value })
    else if text_eq argument (codes "--socket")
    then some (record settings { socket_path = value })
    else if text_eq argument (codes "--scheduling")
    then with_policy (read_policy value) settings
    else none

-- The loop over the arguments: `none` where it prints an error and returns 2.
unfoldable pub read_arguments : List Text → Settings → Option Settings
unfolding read_option
read_arguments [] settings = some settings
read_arguments (argument ∷ []) settings = none
read_arguments (argument ∷ value ∷ rest) settings = elim (read_option argument value settings) [
  | none ↦ none
  | some settings' ↦ read_arguments rest settings'
]

-- What the daemon does before it serves: it exits with a status, the constructor of the resource
-- manager throws, or it serves on a socket with that resource manager.
pub data Launch : Type 0 where
  exits : ℕ → Launch
  throws : Launch
  serves : Text → Manager → Launch

abbrev pub with_manager : Text → Option Manager → Launch
with_manager path none = throws
with_manager path (some m) = serves path m

abbrev pub with_capacity : Settings → Option ℕ → Launch
with_capacity settings none = exits 2
with_capacity settings (some capacity) =
    if is_empty settings.socket_path
    then exits 2
    else with_manager settings.socket_path (create capacity settings.scheduling_policy)

abbrev pub with_settings : Option Settings → Launch
with_settings none = exits 2
with_settings (some settings) = with_capacity settings (parse_size settings.memory_token)

abbrev pub is_help : List Text → Bool
is_help (argument ∷ []) = text_eq argument (codes "--help")
is_help _ = false

-- The arguments without the program's name.
unfoldable pub launch : List Text → Launch
unfolding read_arguments
launch arguments =
    if is_help arguments then exits 0 else with_settings (read_arguments arguments default_settings)

-- The state of a daemon that starts to serve, with a backend.
abbrev pub initial : {B : Type 0} → Manager → B → Server.Daemon B
initial m b = record { system = start m b; metrics = some no_metrics; nodes = some [] }

abbrev pub status_of : Option (ℤ × List Effect) → Option ℕ
status_of none = none
status_of (some (result, effects)) = some (if eqb_ℤ result (pos 0) then 0 else 1)

abbrev pub launched : Launch → Calls → List Round → Option ℕ
launched (exits status) calls rounds = some status
launched throws calls rounds = some 1
launched (serves path m) calls rounds = status_of (run path calls rounds)

-- The exit status: `none` while the daemon runs.
unfoldable pub main : List Text → Calls → List Round → Option ℕ
unfolding launch run
main arguments calls rounds = launched (launch arguments) calls rounds
