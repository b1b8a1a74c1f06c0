-- ===== src/Examples/Clients.antt =====
-- The theorems on the client library at concrete inputs.
use gpumemd.Base.{◌≡◌, refl, true, false, some, List, [], ◌∷◌, codes, text_eq, arith, pos, negsuc}
use gpumemd.Names.{valid_name}
use gpumemd.Resource.{AcquireOptions, granted}
use gpumemd.Registry
use gpumemd.Resource.Models.{StatusSnapshot}
use gpumemd.Nodes
use gpumemd.Nodes.{NodeRecord}
use gpumemd.Residency.Operations.{ModelShareResult}
use gpumemd.Protocol.Command
use gpumemd.Protocol.Command.{parsed, named, default_options, try}
use gpumemd.Protocol.Decimal.{print}
use gpumemd.Protocol.Parse.{parse_command, parse_tokens}
use gpumemd.Protocol.Replies.{
  format_operation_result, format_model_operation_result, format_node_operation_result,
  format_share_result, format_status, format_residency, format_nodes, residents,
}
use gpumemd.Client.{
  ok, acquire_command, try_acquire_command, release_command, load_command, unload_command,
  share_command, parse_share_response,
}
use gpumemd.Client.Requests.{received, parse_command-requests, parse_command-acquire_command}
use gpumemd.Client.Sharing.{parse_share_response-format_share_result}
use gpumemd.Client.Exchange.{
  is_complete, is_multiline_type, Read, got, interrupted, request, is_multiline, fails,
}
use gpumemd.Client.Replies.{IsReply, request-IsReply}
use gpumemd.Client.Control.{main, exits, main-IsReply}
use gpumemd.Client.Listing.{IsListing, request-IsListing}
use gpumemd.Client.Listings.{replies-IsListing}
use gpumemd.Client.Verdicts.{replies-IsReply}
use gpumemd.Server
use gpumemd.Server.{Write}
use gpumemd.Server.Sending.{send_all}
use gpumemd.Examples.Fixtures.{alice}

parse_command-requests_example :
    (parse_command (release_command alice) ≡ parsed (named Command.releases alice))
    × (parse_command (load_command alice) ≡ parsed (named Command.load_model alice))
    × (parse_command (unload_command alice) ≡ parsed (named Command.unload_model alice))
    × (parse_command (share_command alice) ≡ parsed (named Command.share alice))
    × (parse_command (try_acquire_command alice 60)
        ≡ parsed (record (named Command.acquires alice) {
          bytes = 60;
          acquire_mode = try;
          options = record default_options { timeout = pos 0 };
        }))
unfolding valid_name
parse_command-requests_example = parse_command-requests alice 60 refl (omega arith) (omega arith)

-- A timeout of a second and an estimated cost: the timeout does not arrive.
abbrev impatient : AcquireOptions
impatient = record { priority = negsuc 1; timeout = pos 1_000; estimated_cost = pos 30 }

parse_command-acquire_command_example :
    parse_command (acquire_command alice 60 impatient)
    ≡ parsed (record (named Command.acquires alice) { bytes = 60; options = received impatient })
unfolding valid_name
parse_command-acquire_command_example =
    parse_command-acquire_command alice 60 (negsuc 1) 1_000 30 refl (omega arith) (omega arith)
      (omega arith) (omega arith) (omega arith) (omega arith)

abbrev shared : ModelShareResult
shared = record { error = Registry.ok; amount = 30; token = codes "00ff" }

parse_share_response-format_share_result_example :
    parse_share_response (format_share_result alice shared)
    ≡ some (record { bytes = 30; token = codes "00ff" })
unfolding valid_name
parse_share_response-format_share_result_example =
    parse_share_response-format_share_result alice (codes "00ff") 30 refl (refl, refl) (omega arith)

replies-IsReply_example :
    IsReply true (format_operation_result (codes "released") alice (granted 60))
    × IsReply false (
        format_model_operation_result
          (codes "released")
          alice
          (Registry.failed Registry.unknown_model))
    × IsReply true (format_node_operation_result (codes "released") alice (Nodes.done 0))
    × IsReply true (format_share_result alice shared)
replies-IsReply_example =
    replies-IsReply (codes "released") alice (granted 60) (Registry.failed Registry.unknown_model)
      (Nodes.done 0) shared refl refl refl

abbrev writes : List Write
writes = Server.wrote 4 ∷ Server.interrupted ∷ Server.wrote 100 ∷ []

abbrev reads : List Read
reads = got (codes "OK relea") ∷ interrupted ∷ got (codes "sed alice 60\n") ∷ []

released : IsReply true (codes "OK released alice 60\n")
released = record { body = codes "released alice 60"; unbroken = refl; written = refl }

request-IsReply_example :
    request true writes reads (codes "release alice") ≡ fails ok (codes "OK released alice 60\n")
unfolding send_all is_multiline text_eq
request-IsReply_example =
    request-IsReply (codes "release alice") (codes "OK released alice 60\n") true writes reads
      released refl refl refl refl refl refl

main-IsReply_example :
    main true writes reads (codes "--socket" ∷ codes "/tmp/g" ∷ codes "release" ∷ alice ∷ [])
    ≡ exits 0 (codes "OK released alice 60\n")
unfolding send_all text_eq valid_name parse_tokens
main-IsReply_example =
    main-IsReply (codes "/tmp/g") (codes "release") (alice ∷ []) (named Command.releases alice)
      (codes "OK released alice 60\n") true writes reads ((refl, refl), ((refl, refl), tt)) refl
      released refl refl refl refl

abbrev status_reads : List Read
status_reads =
    got (codes "OK status 100 60 40 1\nCLIENT alice 60\nEN") ∷ got (codes "D\n") ∷ interrupted ∷ []

-- One client with 60 of 100 bytes.
abbrev snapshot : StatusSnapshot
snapshot = record {
  capacity = 100;
  used = 60;
  free = 40;
  reservations = record { name = alice; bytes = 60 } ∷ [];
}

abbrev nodes : List NodeRecord
nodes = Nodes.new_node (codes "n1") (codes "host:1") 64 ∷ []

replies-IsListing_example :
    IsListing (format_status snapshot)
    × IsListing (format_residency [])
    × IsListing (format_nodes nodes)
unfolding residents
replies-IsListing_example = replies-IsListing snapshot [] nodes (refl, tt) tt ((refl, refl), tt)

request-IsListing_example :
    request true writes status_reads (codes "status") ≡ fails ok (format_status snapshot)
unfolding send_all is_multiline text_eq format_status residents print
request-IsListing_example =
    request-IsListing (codes "status") (format_status snapshot) writes status_reads
      (replies-IsListing snapshot [] [] (refl, tt) tt tt).0 refl refl refl refl refl refl

-- A reply to `models` that is cut behind the row of a file whose path ends in `END` is taken for whole.
models_cut_short : is_complete true (codes "OK models 2\nMODEL m v1 3 0 0 /END\n") ≡ true
unfolding is_complete text_eq
models_cut_short = refl

-- gpumemctl takes the first line of the reply to `nodes` for the whole.
nodes_cut_short : is_complete (is_multiline_type Command.nodes) (codes "OK nodes 1\n") ≡ true
unfolding is_complete text_eq
nodes_cut_short = refl
