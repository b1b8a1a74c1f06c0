-- ===== src/Lib.antt =====
-- gpumemd: a daemon that shares out the memory of one accelerator.
--
-- The program. `ResourceManager` (src/core/resource_manager.cpp) keeps the reservations of clients and
-- models and a queue of clients that wait for memory. `ModelRegistry` (src/core/model_registry.cpp)
-- knows the models and counts their references. `ModelResidencyManager`
-- (src/core/model_residency.cpp) loads models into an `AcceleratorBackend`
-- (include/gpumemd/accelerator_backend.hpp) and evicts those that nobody references; it reads files by
-- `ModelLoader` (src/core/model_loader.cpp), and moves reservations in the resource manager in the
-- same step. The daemon (src/ipc/unix_socket_server.cpp) serves each client on a thread of its own: it
-- parses a line of its protocol (src/protocol/protocol.cpp), calls one operation of these, counts it in
-- its metrics and replies. The client library (src/client/client.cpp) writes such lines and reads the
-- replies.
--
-- Files.
--   Base: bytes and texts, association lists for `std::unordered_map`, 64-bit words whose sums,
--     differences and products wrap around, signed integers, `std::sort` as an insertion sort.
--   Names: the byte tests of names, metadata, paths and endpoints.
--   Resource, Resource.Waiting, Resource.Models: `ResourceManager`. An operation takes the time that the
--     clock shows and returns the new state with the result. `acquire` is split where it gives up
--     its lock: `acquire` runs up to the wait, `wait_round` is a round of the loop, `time_out` the end
--     of a timed wait. A request that is completed moves from `pending` to `finished`, where its
--     thread finds it by its sequence number. `notified` counts the calls of `notify_all`; the code has
--     no such counter.
--   Registry: `ModelRegistry`, with `std::filesystem` as a parameter.
--   Backend, Backend.Mock: the interface as a record of operations, the laws that are relied on, and the
--     mock backend (src/backend/mock_backend.cpp). Not every backend of the program keeps the law that
--     no `unload` of a loaded model fails: the one for CUDA does not when `cudaFree` fails.
--   Loader: `ModelLoader`, with the file system and the stream as parameters.
--   Residency, Residency.Load, Residency.Operations: `ModelResidencyManager`. Its state `System` holds the
--     registry, the resource manager and the backend that the C++ object refers to. `load` takes a
--     `Moment`: the time, how long the backend took, and what other threads do to the resource manager
--     between `status` and `replace_model_reservations`.
--   Allocator: `MemoryAllocator` (src/core/memory_allocator.cpp), the free blocks as a list. Placement:
--     `DevicePlacement` (src/core/device_placement.cpp). Nodes: `NodeRegistry`
--     (src/core/node_registry.cpp). The first two stand by themselves.
--   Protocol: the tokens and the numbers of a line. Protocol.Command: commands. Protocol.Acquire,
--     Protocol.Parse: `parse_command`. Protocol.Replies: the `format_` functions (all
--     src/protocol/protocol.cpp). `std::from_chars`, and in Protocol.Decimal `operator<<` on integers,
--     are written out.
--   Metrics: the counters (src/core/metrics.cpp).
--   Server, Server.Sending, Server.Dispatch, Server.Lines, Server.Session: a connection
--     (src/ipc/unix_socket_server.cpp). `Daemon` holds what the server refers to. An `Occasion` is the
--     circumstances of one request: what other threads have done to the daemon since the request
--     before, the time, the results of `write`, and for an `acquire` that waits a list of `Wake`s, the
--     rounds of its loop with what the others do while it blocks. A session takes a list of the
--     results of `read`; it blocks where a list of results ends. The loop that cuts the input into
--     lines stands apart from what answers a line.
--   Server.Listening: `UnixSocketServer::run`, as a list of what it does.
--   Client, Client.Exchange: the client library (src/client/client.cpp). Client.Control: gpumemctl
--     (src/client/main.cpp). Daemon: the program of the daemon (src/daemon/main.cpp).
--   Examples: the theorems at concrete inputs.
--   The other files hold proofs and are named for what they prove.
--
-- Bounds. Sizes, counters and times are natural numbers; additions and subtractions that the code does
-- on `std::uint64_t` are taken modulo 2 ^ 64. Times are nanoseconds of the steady clock and durations
-- milliseconds, with the maxima of 64-bit signed counts. The loop of `grant_waiters_locked` runs on
-- the length of the queue as fuel: each round takes one request out.
--
-- The loop of `process_input` runs on the length of the input: each round takes a line out.
--
-- Not modelled. The CUDA and Metal backends and clients, the benchmark and the examples; `long double`,
-- the disk, the clock and the socket calls are parameters. A mutex makes an operation one step;
-- spurious wake-ups are rounds of the wait loop that change nothing. The results of `read` and `write`
-- are any at all: that `read` returns what the peer wrote is a hypothesis where it is used. Threads are
-- not modelled as such: a session's own steps are, and those of the others as functions on the daemon.
-- What the programs print for people is left out, but for the replies that gpumemctl prints.
pub mod Base
pub mod Names
pub mod Resource
pub mod Registry
pub mod Backend
pub mod Loader
pub mod Allocator
pub mod Placement
pub mod Nodes
pub mod Metrics
pub mod Protocol
pub mod Client
pub mod Server
pub mod Daemon
pub mod Residency
pub mod Examples
