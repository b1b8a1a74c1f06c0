-- ===== src/Server.antt =====
-- include/gpumemd/server.hpp and src/ipc/unix_socket_server.cpp: the daemon's side of a connection.
-- One thread serves one client. What the socket calls return, the clock, and what the other threads
-- do meanwhile are arguments.
pub mod Sending
pub mod Dispatch
pub mod Listening
pub mod Tidy
pub mod Lines
pub mod Chunks
pub mod Framing
pub mod Refused
pub mod Keeping
pub mod Invariant
pub mod Coherent
pub mod Session
pub mod Reachable
pub mod Counted
use gpumemd.Base.{ℕ, Bool, Option, none, some, List, Text}
use gpumemd.Resource.{Manager}
use gpumemd.Registry.{FileSystem}
use gpumemd.Residency.{System, Host, Moment}
use gpumemd.Metrics.{Metrics}
use gpumemd.Nodes.{Nodes}

-- `kMaxLineBytes`
abbrev pub max_line_bytes : ℕ
max_line_bytes = 4_096

-- What the server's references and pointers lead to; the metrics and the nodes may be `nullptr`.
pub record Daemon (B : Type 0) : Type 0 where
  pub system : System B
  pub metrics : Option Metrics
  pub nodes : Option Nodes

-- A result of `write`: the number of bytes written, `EINTR`, or another failure.
pub data Write : Type 0 where
  wrote : ℕ → Write
  interrupted broken : Write

-- A round of the wait loop of `acquire`: its time, and if it blocks, what the other threads do until
-- the thread wakes, and whether it wakes because its time is over (if it has a deadline).
pub record Wake (B : Type 0) : Type 0 where
  pub now : ℕ
  pub others : Daemon B → Daemon B
  pub timed_out : Bool

-- The circumstances of one request: what the other threads have done since the one before, the time
-- and the circumstances of a load, the rounds of a wait, and the results of `write` for the reply.
pub record Occasion (B : Type 0) : Type 0 where
  pub others : Daemon B → Daemon B
  pub moment : Moment
  pub wakes : List (Wake B)
  pub writes : List Write

-- What the server runs on beside its state.
pub record Platform (B F : Type 0) : Type 0 where
  pub host : Host B F
  pub files : FileSystem

abbrev pub resources_of : {B : Type 0} → Daemon B → Manager
resources_of d = d.system.resources

abbrev pub with_system : {B : Type 0} → System B → Daemon B → Daemon B
with_system s d = record d { system = s }

abbrev pub with_resources : {B : Type 0} → Manager → Daemon B → Daemon B
with_resources m d = with_system (record d.system { resources = m }) d
