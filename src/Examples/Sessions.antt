-- ===== src/Examples/Sessions.antt =====
-- The theorems on the server at concrete inputs.
use gpumemd.Base.{
  ℕ, zero, suc, ◌≡◌, ◌≤◌, refl, true, false, not, some, List, [], ◌∷◌, ◌++◌, Text, codes, arith,
  Unique, length, all_of, ◌==◌, contains, add64,
}
use gpumemd.Resource.{create, priority_fifo}
use gpumemd.Backend.Mock.{Allocations, mock, mock-IsBackend, is_loaded}
use gpumemd.Residency.Coherent.{IsCoherent}
use gpumemd.Residency.Clients
use gpumemd.Residency.Reachable.{start, here}
use gpumemd.Metrics.{no_metrics}
use gpumemd.Server.{Daemon, Occasion, Platform, wrote, interrupted, broken}
use gpumemd.Server.Sending
use gpumemd.Server.Sending.{
  Delivers, send_all, send_all-Delivers, send_all_complete, is_healthy, count_written,
}
use gpumemd.Server.Lines.{Event, chunk, retry, reading, session, process_input, closed}
use gpumemd.Server.Framing.{
  bytes_of, unlines, answers, session-process_input, process_input-unlines, IsLine,
}
use gpumemd.Server.Session.{
  Connection, answer, tell, too_large_reply, unterminated_reply, client_session,
}
use gpumemd.Server.Keeping.{InSession}
use gpumemd.Server.Coherent.{client_session-IsCoherent}
use gpumemd.Metrics.{Metrics}
use gpumemd.Server.Counted.{is_success}
use gpumemd.Server.Counted.Replies.{Answers, join}
use gpumemd.Server.Counted.Totals.{count_if, client_session-counts}
use gpumemd.Server.Refused.{client_session-too_large}
use gpumemd.Server.Reachable.{IsLegal}
use gpumemd.Server.Listening
use gpumemd.Server.Listening.{Calls, Round, idle, ready, stops, client, drained, run}
use gpumemd.Server.Tidy.{IsTidy, run-IsTidy}
use gpumemd.Daemon.{launch, exits, initial}
use gpumemd.Resource.{cost_aware}
use gpumemd.Protocol.{parse_size}
use gpumemd.Daemon.Written.{
  Setting, memory, socket, scheduling, written, memory_of, socket_of, scheduling_of, chosen,
  expected, IsRefused, launch-written,
}
use gpumemd.Base.{find, text_eq}
use gpumemd.Names.{valid_name}
use gpumemd.Resource.Models.{release}
use gpumemd.Residency.Load.{is_ok}
use gpumemd.Protocol.Decimal.{print}
use gpumemd.Protocol.Replies.{format_operation_result, newline}
use gpumemd.Client.{release_command}
use gpumemd.Client.Exchange
use gpumemd.Client.Exchange.{Read, got, request, fails}
use gpumemd.Client.Replies.{verdict}
use gpumemd.Client.Served.{served, release-served}
use gpumemd.Server.{Write}
use gpumemd.Server.Session.{recorded}
use gpumemd.Examples.Fixtures.{alice, busy, new_manager, host, files, moment}

abbrev platform : Platform Allocations ℕ
platform = record { host = host; files = files }

abbrev daemon : Daemon Allocations
daemon = initial new_manager []

abbrev occasion : Occasion Allocations
occasion = record {
  others = λ d. d;
  moment = moment;
  wakes = [];
  writes = wrote 5 ∷ interrupted ∷ wrote 100 ∷ [];
}

abbrev connection : Connection Allocations
connection = record { daemon = daemon; output = []; occasions = occasion ∷ occasion ∷ [] }

abbrev events : List Event
events =
    chunk (codes "try_acquire alice 6")
    ∷ retry
    ∷ chunk (codes "0\r\nrelease ali")
    ∷ chunk (codes "ce\n")
    ∷ []

none_loaded : (id : Text) → is_loaded id [] ≡ false
unfolding is_loaded contains
none_loaded id = refl

legal : IsLegal platform occasion
legal = (λ d. here, λ m. Clients.here, tt)

client_session-IsCoherent_example :
    InSession
      (λ c. IsCoherent mock Unique c.daemon.system)
      (client_session platform events connection)
unfolding create
client_session-IsCoherent_example =
    client_session-IsCoherent platform Unique mock-IsBackend 100 priority_fifo new_manager [] events
      connection (omega arith) refl tt none_loaded here (legal, (legal, tt))

session-process_input_example :
    session
      (answer platform)
      (tell too_large_reply)
      (tell unterminated_reply)
      events
      (reading connection [])
    ≡ process_input
        (answer platform)
        (tell too_large_reply)
        (tell unterminated_reply)
        (bytes_of events)
        connection
session-process_input_example =
    session-process_input (answer platform) (tell too_large_reply) (tell unterminated_reply) events
      connection refl

abbrev requests : List Text
requests = codes "try_acquire alice 60\r" ∷ codes "status" ∷ []

process_input-unlines_example :
    process_input
      (answer platform)
      (tell too_large_reply)
      (tell unterminated_reply)
      (unlines requests ++ codes "rel")
      connection
    ≡ answers
        (answer platform)
        (tell too_large_reply)
        (tell unterminated_reply)
        requests
        (process_input
          (answer platform)
          (tell too_large_reply)
          (tell unterminated_reply)
          (codes "rel"))
        connection
process_input-unlines_example =
    process_input-unlines (answer platform) (tell too_large_reply) (tell unterminated_reply)
      requests (codes "rel") connection ((refl, omega arith), ((refl, omega arith), tt))

repeat : ℕ → Text
repeat zero = []
repeat (suc n) = b'a' ∷ repeat n

repeat-unbroken : (n : ℕ) → all_of (λ c. not (c == b'\n')) (repeat n) ≡ true
unfolding repeat
repeat-unbroken zero = refl
repeat-unbroken (suc n) = repeat-unbroken n

length-repeat : (n : ℕ) → n ≤ length (repeat n)
unfolding repeat
length-repeat zero = omega arith
length-repeat (suc n) = omega (arith, length-repeat n)

-- A line of 4096 bytes in two buffers, with more behind it.
abbrev flood : List Event
flood = chunk (repeat 4_096) ∷ retry ∷ chunk (codes "status") ∷ []

abbrev told_off : Occasion Allocations
told_off = record occasion { writes = wrote 10 ∷ wrote 100 ∷ [] }

client_session-too_large_example :
    client_session platform flood
      (record { daemon = daemon; output = []; occasions = told_off ∷ [] })
    ≡ closed (record { daemon = daemon; output = too_large_reply; occasions = [] })
unfolding send_all
client_session-too_large_example =
    client_session-too_large platform flood
      (record { daemon = daemon; output = []; occasions = told_off ∷ [] }) told_off []
      (repeat 4_096) (codes "status") too_large_reply true refl refl (repeat-unbroken 4_096)
      (length-repeat 4_096) refl refl

send_all-Delivers_example :
    Delivers (codes "OK") (send_all (wrote 1 ∷ interrupted ∷ broken ∷ []) (codes "OK"))
send_all-Delivers_example = send_all-Delivers (wrote 1 ∷ interrupted ∷ broken ∷ []) (codes "OK")

send_all_complete_example :
    send_all (wrote 1 ∷ interrupted ∷ wrote 1 ∷ []) (codes "OK")
    ≡ Sending.returned (codes "OK") true
send_all_complete_example =
    send_all_complete (wrote 1 ∷ interrupted ∷ wrote 1 ∷ []) (codes "OK") refl (omega arith)

abbrev calls : Calls
calls = record {
  absent = true;
  socket = true;
  bind = true;
  chmod = true;
  listen = true;
  nonblocking = true;
}

abbrev rounds : List Round
rounds = idle ∷ ready (client 4 ∷ Listening.interrupted ∷ client 5 ∷ drained ∷ []) ∷ stops ∷ []

run-IsTidy_example : IsTidy (run (codes "/tmp/g") calls rounds)
run-IsTidy_example = run-IsTidy (codes "/tmp/g") calls rounds

abbrev settings : List Setting
settings =
    memory (codes "1GiB")
    ∷ scheduling cost_aware
    ∷ socket (codes "/tmp/g")
    ∷ memory (codes "1KiB")
    ∷ []

launch-written_example :
    (launch (written settings)
      ≡ expected
          (parse_size (chosen memory_of [] settings))
          (chosen socket_of [] settings)
          (chosen scheduling_of priority_fifo settings))
    × ((rest : List Text) → IsRefused rest → launch (written settings ++ rest) ≡ exits 2)
launch-written_example = launch-written settings

-- Alice holds 60 bytes.
abbrev holding : Daemon Allocations
holding = record daemon { system = start busy [] }

abbrev release_writes : List Write
release_writes = wrote 3 ∷ interrupted ∷ wrote 100 ∷ []

abbrev release_reads : List Read
release_reads = got (codes "OK relea") ∷ Exchange.interrupted ∷ got (codes "sed alice 60\n") ∷ []

alice-valid : valid_name alice ≡ true
unfolding valid_name
alice-valid = refl

abbrev released : Daemon Allocations × Text
released = served platform occasion alice alice-valid holding

abbrev release_events : List Event
release_events = chunk (codes "rel") ∷ retry ∷ chunk (codes "ease alice") ∷ chunk newline ∷ []

release-served_example :
    (client_session platform release_events
        (record { daemon = holding; output = []; occasions = occasion ∷ [] })
      ≡ reading (record { daemon = released.0; output = released.1; occasions = [] }) [])
    × (request true release_writes release_reads (release_command alice)
        ≡ fails (verdict (is_ok (release alice 1_000 busy).1.error)) released.1)
unfolding send_all release valid_name find text_eq recorded format_operation_result print
    release_command
release-served_example =
    release-served platform occasion alice alice-valid holding release_events release_writes
      release_reads refl refl refl refl refl refl

alice-IsLine : IsLine (release_command alice)
unfolding release_command
alice-IsLine = (refl, omega arith)

client_session-counts_example :
    (replies : List Text) × (length replies ≡ length (release_command alice ∷ []))
    × (released.1 ≡ join replies)
    × Answers platform (release_command alice ∷ []) (occasion ∷ []) holding replies [] released.0
    × (m : Metrics) × (released.0.metrics ≡ some m)
    × (m.requests ≡ add64 0 1)
    × (m.successes ≡ add64 0 (count_if is_success replies))
    × (m.failures ≡ add64 0 (count_if (λ reply. not (is_success reply)) replies))
unfolding send_all release valid_name find text_eq recorded format_operation_result print
    release_command
client_session-counts_example =
    client_session-counts platform release_events (release_command alice ∷ [])
      (record { daemon = holding; output = []; occasions = occasion ∷ [] })
      (record { daemon = released.0; output = released.1; occasions = [] }) [] no_metrics refl
      (alice-IsLine, tt) refl ((λ d. refl, tt), tt) refl (omega arith) (omega arith) (omega arith)
      (release-served platform occasion alice alice-valid holding release_events release_writes
        release_reads refl refl refl refl refl refl).0
