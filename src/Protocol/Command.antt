-- ===== src/Protocol/Command.antt =====
-- The commands of the protocol (include/gpumemd/protocol.hpp).
use gpumemd.Base.{ℕ, pos, Text, []}
use gpumemd.Resource.{AcquireOptions, millis_max}

pub data CommandType : Type 0 where
  acquires releases status register_model register_file share metrics : CommandType
  register_node unregister_node nodes unregister_model retain_model : CommandType
  release_model models load_model unload_model residency : CommandType

pub data AcquireMode : Type 0 where
  wait try : AcquireMode

pub data ParseError : Type 0 where
  ok invalid_request invalid_size invalid_name invalid_model_id invalid_metadata : ParseError
  invalid_path : ParseError

-- `AcquireOptions` as it is initialised.
abbrev pub default_options : AcquireOptions
default_options = record { priority = pos 0; timeout = pos millis_max; estimated_cost = pos 0 }

pub record Command : Type 0 where
  pub type : CommandType
  pub name : Text
  pub bytes : ℕ
  pub acquire_mode : AcquireMode
  pub options : AcquireOptions
  pub metadata : Text
  pub path : Text

-- A command of that type with the other fields as they are initialised.
abbrev pub blank : CommandType → Command
blank type = record {
  type = type;
  name = [];
  bytes = 0;
  acquire_mode = wait;
  options = default_options;
  metadata = [];
  path = [];
}

abbrev pub named : CommandType → Text → Command
named type name = record (blank type) { name = name }

-- `ParseResult`: the command stands in a result without an error.
pub data ParseResult : Type 0 where
  failed : ParseError → ParseResult
  parsed : Command → ParseResult
