-- ===== src/Protocol/Replies.antt =====
-- The replies of the protocol: the `format_` functions of src/protocol/protocol.cpp.
use gpumemd.Base.{ℕ, List, [], ◌∷◌, ◌++◌, Text, codes, ◌==◌, if◌then◌else◌, length}
use gpumemd.Names.{is_empty}
use gpumemd.Resource
use gpumemd.Resource.{ErrorCode, OperationResult}
use gpumemd.Resource.Models.{Reservation, StatusSnapshot}
use gpumemd.Registry
use gpumemd.Registry.{ModelError, ModelOperationResult, ModelRecord}
use gpumemd.Nodes
use gpumemd.Nodes.{NodeError, NodeOperationResult, NodeRecord}
use gpumemd.Residency.{ResidencyRecord}
use gpumemd.Residency.Operations.{ModelShareResult}
use gpumemd.Metrics.{Metrics}
use gpumemd.Protocol.Command
use gpumemd.Protocol.Command.{ParseError}
use gpumemd.Protocol.Decimal.{print}

abbrev pub newline : Text
newline = b'\n' ∷ []

abbrev pub end_mark : Text
end_mark = codes "END\n"

unfoldable pub format_parse_error : ParseError → Text
format_parse_error Command.invalid_request = codes "ERR invalid_request invalid command syntax\n"
format_parse_error Command.invalid_size = codes "ERR invalid_size invalid memory size\n"
format_parse_error Command.invalid_name = codes "ERR invalid_name invalid client name\n"
format_parse_error Command.invalid_model_id = codes "ERR invalid_model_id invalid model ID\n"
format_parse_error Command.invalid_metadata = codes "ERR invalid_metadata invalid model metadata\n"
format_parse_error Command.invalid_path = codes "ERR invalid_path invalid model file path\n"
format_parse_error Command.ok = []

-- `OK ACTION NAME AMOUNT`
abbrev pub ok_reply : Text → Text → ℕ → Text
ok_reply action name amount = codes "OK " ++ action ++ b' ' ∷ name ++ b' ' ∷ print amount ++ newline

abbrev resource_error : ErrorCode → Text
resource_error Resource.invalid_name = codes "ERR invalid_name invalid client name\n"
resource_error Resource.invalid_size = codes "ERR invalid_size invalid memory size\n"
resource_error Resource.duplicate_client =
    codes "ERR duplicate_client client already has a reservation\n"
resource_error Resource.unknown_client = codes "ERR unknown_client client not found\n"
resource_error Resource.insufficient_memory =
    codes "ERR insufficient_memory requested bytes exceed available capacity\n"
resource_error Resource.timeout = codes "ERR timeout acquire request timed out\n"
resource_error Resource.invalid_timeout =
    codes "ERR invalid_timeout timeout must be nonnegative milliseconds\n"
resource_error Resource.ok = codes "ERR internal_error internal resource manager error\n"

abbrev pub operation_reply : Text → Text → ErrorCode → ℕ → Text
operation_reply action name Resource.ok amount = ok_reply action name amount
operation_reply action name error amount = resource_error error

unfoldable pub format_operation_result : Text → Text → OperationResult → Text
format_operation_result action name result = operation_reply action name result.error result.amount

abbrev pub model_error : ModelError → Text
model_error Registry.invalid_id = codes "ERR invalid_model_id invalid model ID\n"
model_error Registry.invalid_metadata = codes "ERR invalid_metadata invalid model metadata\n"
model_error Registry.invalid_size = codes "ERR invalid_size invalid memory size\n"
model_error Registry.duplicate_model = codes "ERR duplicate_model model already exists\n"
model_error Registry.unknown_model = codes "ERR unknown_model model not found\n"
model_error Registry.model_in_use = codes "ERR model_in_use model is in use\n"
model_error Registry.refcount_underflow =
    codes "ERR refcount_underflow model reference count is already zero\n"
model_error Registry.unknown_residency = codes "ERR unknown_residency model is not resident\n"
model_error Registry.insufficient_memory =
    codes "ERR insufficient_memory insufficient memory for model\n"
model_error Registry.invalid_path = codes "ERR invalid_path invalid model file path\n"
model_error Registry.file_unavailable = codes "ERR file_unavailable model file is unavailable\n"
model_error Registry.source_changed = codes "ERR source_changed model file size changed\n"
model_error Registry.read_failure = codes "ERR read_failure could not read model file\n"
model_error Registry.backend_failure =
    codes "ERR backend_failure accelerator backend operation failed\n"
model_error Registry.backend_unsupported =
    codes "ERR unsupported backend does not support process sharing\n"
model_error Registry.ok = codes "ERR internal_error internal model registry error\n"

abbrev pub model_reply : Text → Text → ModelError → ℕ → Text
model_reply action name Registry.ok amount = ok_reply action name amount
model_reply action name error amount = model_error error

unfoldable pub format_model_operation_result : Text → Text → ModelOperationResult → Text
format_model_operation_result action name result =
    model_reply action name result.error result.amount

unfoldable pub format_residency_operation_result : Text → Text → ModelOperationResult → Text
unfolding format_model_operation_result
format_residency_operation_result = format_model_operation_result

abbrev node_error : NodeError → Text
node_error Nodes.duplicate_node = codes "ERR duplicate_node node already registered\n"
node_error Nodes.unknown_node = codes "ERR unknown_node node not found\n"
node_error Nodes.invalid_capacity = codes "ERR invalid_size invalid node capacity\n"
node_error Nodes.invalid_endpoint = codes "ERR invalid_endpoint invalid node endpoint\n"
node_error Nodes.invalid_id = codes "ERR invalid_name invalid node ID\n"
node_error Nodes.ok = codes "ERR internal_error internal node registry error\n"

abbrev pub amount_field : ℕ → Text
amount_field amount = if amount == 0 then [] else b' ' ∷ print amount

abbrev pub node_reply : Text → Text → NodeError → ℕ → Text
node_reply action name Nodes.ok amount =
    codes "OK " ++ action ++ b' ' ∷ name ++ amount_field amount ++ newline
node_reply action name error amount = node_error error

unfoldable pub format_node_operation_result : Text → Text → NodeOperationResult → Text
format_node_operation_result action name result = node_reply action name result.error result.amount

abbrev share_error : ModelError → Text
share_error Registry.unknown_model = codes "ERR unknown_model model not found\n"
share_error Registry.unknown_residency = codes "ERR unknown_residency model is not resident\n"
share_error Registry.backend_unsupported =
    codes "ERR unsupported backend does not support process sharing\n"
share_error Registry.backend_failure =
    codes "ERR backend_failure accelerator backend operation failed\n"
share_error _ = codes "ERR internal_error internal model sharing error\n"

abbrev pub share_reply : Text → ModelError → ℕ → Text → Text
share_reply name Registry.ok amount token =
    codes "OK shared " ++ name ++ b' ' ∷ print amount ++ b' ' ∷ token ++ newline
share_reply name error amount token = share_error error

unfoldable pub format_share_result : Text → ModelShareResult → Text
format_share_result name result = share_reply name result.error result.amount result.token

abbrev pub rows {ℓ} : {A : Type ℓ} → (A → Text) → List A → Text
rows row [] = end_mark
rows row (x ∷ xs) = row x ++ newline ++ rows row xs

abbrev pub reservation_row : Reservation → Text
reservation_row r = codes "CLIENT " ++ r.name ++ b' ' ∷ print r.bytes

unfoldable pub format_status : StatusSnapshot → Text
format_status s =
    codes "OK status "
    ++ print s.capacity
    ++ b' ' ∷ print s.used
    ++ b' ' ∷ print s.free
    ++ b' ' ∷ print (length s.reservations)
    ++ newline
    ++ rows reservation_row s.reservations

abbrev source_field : Text → Text
source_field path = if is_empty path then [] else b' ' ∷ path

abbrev pub model_row : ModelRecord → Text
model_row m =
    codes "MODEL "
    ++ m.id
    ++ b' ' ∷ m.metadata
    ++ b' ' ∷ print m.footprint_bytes
    ++ b' ' ∷ print m.ref_count
    ++ b' ' ∷ print m.last_access
    ++ source_field m.source_path

unfoldable pub format_models : List ModelRecord → Text
format_models models =
    codes "OK models " ++ print (length models) ++ newline ++ rows model_row models

abbrev pub node_row : NodeRecord → Text
node_row n =
    codes "NODE "
    ++ n.id
    ++ b' ' ∷ n.endpoint
    ++ b' ' ∷ print n.capacity
    ++ b' ' ∷ print n.used
    ++ b' ' ∷ (if n.healthy then codes "healthy" else codes "unhealthy")

unfoldable pub format_nodes : List NodeRecord → Text
format_nodes nodes = codes "OK nodes " ++ print (length nodes) ++ newline ++ rows node_row nodes

abbrev pub resident_row : ResidencyRecord → Text
resident_row r =
    codes "RESIDENT "
    ++ r.id
    ++ b' ' ∷ print r.footprint_bytes
    ++ b' ' ∷ print r.ref_count
    ++ b' ' ∷ print r.last_loaded

-- The loop that passes over the records that are not resident.
unfoldable pub residents : List ResidencyRecord → List ResidencyRecord
residents [] = []
residents (r ∷ rest) = if r.resident then r ∷ residents rest else residents rest

unfoldable pub format_residency : List ResidencyRecord → Text
unfolding residents
format_residency records =
    codes "OK residency "
    ++ print (length (residents records))
    ++ newline
    ++ rows resident_row (residents records)

unfoldable pub format_metrics : Metrics → Text
format_metrics m =
    codes "OK metrics\nrequests "
    ++ print m.requests
    ++ codes "\nsuccesses "
    ++ print m.successes
    ++ codes "\nfailures "
    ++ print m.failures
    ++ codes "\nacquires "
    ++ print m.acquires
    ++ codes "\nreleases "
    ++ print m.releases
    ++ codes "\nmodel_loads "
    ++ print m.model_loads
    ++ codes "\nmodel_unloads "
    ++ print m.model_unloads
    ++ codes "\nacquired_bytes "
    ++ print m.acquired_bytes
    ++ codes "\nreleased_bytes "
    ++ print m.released_bytes
    ++ newline
    ++ end_mark
