-- ===== src/Protocol/Parse.antt =====
-- `parse_command` of src/protocol/protocol.cpp.
use gpumemd.Base.{
  not, ◌||◌, none, some, List, [], ◌∷◌, Text, codes, text_eq, length, ltb, if◌then◌else◌, pos,
}
use gpumemd.Names.{valid_name, is_empty, is_printable}
use gpumemd.Protocol.{parse_size, tokenize}
use gpumemd.Protocol.Command
use gpumemd.Protocol.Command.{
  Command, CommandType, ParseResult, ParseError, failed, parsed, blank, named, default_options, try,
  wait, invalid_request, invalid_size, invalid_name, invalid_model_id, invalid_metadata,
  invalid_path,
}
use gpumemd.Protocol.Acquire.{parse_acquire}

-- A command without arguments.
abbrev pub parse_bare : CommandType → List Text → ParseResult
parse_bare type [] = parsed (blank type)
parse_bare type (_ ∷ _) = failed invalid_request

-- A command whose only argument is a name; a name that is refused is the error `error`.
abbrev pub parse_named : CommandType → ParseError → List Text → ParseResult
parse_named type error (name ∷ []) =
    if valid_name name then parsed (named type name) else failed error
parse_named type error _ = failed invalid_request

abbrev pub parse_node_register : List Text → ParseResult
parse_node_register (name ∷ endpoint ∷ capacity ∷ []) =
    if not (valid_name name) then failed invalid_name else elim (parse_size capacity) [
      | none ↦ failed invalid_size
      | some bytes ↦
          if is_empty endpoint || ltb 256 (length endpoint)
          then failed invalid_request
          else parsed (record (named Command.register_node name) { path = endpoint; bytes = bytes })
    ]
parse_node_register _ = failed invalid_request

abbrev pub parse_register : List Text → ParseResult
parse_register (name ∷ size ∷ metadata ∷ []) =
    if not (valid_name name) then failed invalid_model_id else elim (parse_size size) [
      | none ↦ failed invalid_size
      | some bytes ↦
          if not (is_printable metadata)
          then failed invalid_metadata
          else parsed
              (record (named Command.register_model name) { bytes = bytes; metadata = metadata })
    ]
parse_register _ = failed invalid_request

abbrev pub parse_register_file : List Text → ParseResult
parse_register_file (name ∷ path ∷ metadata ∷ []) =
    if not (valid_name name)
    then failed invalid_model_id
    else if is_empty path || ltb 4_096 (length path)
    then failed invalid_path
    else if not (is_printable metadata)
    then failed invalid_metadata
    else parsed (record (named Command.register_file name) { path = path; metadata = metadata })
parse_register_file _ = failed invalid_request

abbrev pub parse_try_acquire : List Text → ParseResult
parse_try_acquire (name ∷ size ∷ []) =
    if not (valid_name name) then failed invalid_name else elim (parse_size size) [
      | none ↦ failed invalid_size
      | some bytes ↦ parsed (record (named Command.acquires name) {
        bytes = bytes;
        acquire_mode = try;
        options = record default_options { timeout = pos 0 };
      })
    ]
parse_try_acquire _ = failed invalid_request

-- The tests of `parse_command` on the first token, in their order.
unfoldable pub parse_tokens : List Text → ParseResult
parse_tokens [] = failed invalid_request
parse_tokens (verb ∷ arguments) =
    if text_eq verb (codes "status")
    then parse_bare Command.status arguments
    else if text_eq verb (codes "models")
    then parse_bare Command.models arguments
    else if text_eq verb (codes "residency")
    then parse_bare Command.residency arguments
    else if text_eq verb (codes "share")
    then parse_named Command.share invalid_model_id arguments
    else if text_eq verb (codes "metrics")
    then parse_bare Command.metrics arguments
    else if text_eq verb (codes "nodes")
    then parse_bare Command.nodes arguments
    else if text_eq verb (codes "node_register")
    then parse_node_register arguments
    else if text_eq verb (codes "node_remove")
    then parse_named Command.unregister_node invalid_name arguments
    else if text_eq verb (codes "register")
    then parse_register arguments
    else if text_eq verb (codes "register_file")
    then parse_register_file arguments
    else if text_eq verb (codes "unregister")
    then parse_named Command.unregister_model invalid_model_id arguments
    else if text_eq verb (codes "retain")
    then parse_named Command.retain_model invalid_model_id arguments
    else if text_eq verb (codes "release_model")
    then parse_named Command.release_model invalid_model_id arguments
    else if text_eq verb (codes "load")
    then parse_named Command.load_model invalid_model_id arguments
    else if text_eq verb (codes "unload")
    then parse_named Command.unload_model invalid_model_id arguments
    else if text_eq verb (codes "release")
    then parse_named Command.releases invalid_name arguments
    else if text_eq verb (codes "try_acquire")
    then parse_try_acquire arguments
    else if text_eq verb (codes "acquire")
    then parse_acquire arguments
    else failed invalid_request

unfoldable pub parse_command : Text → ParseResult
unfolding parse_tokens tokenize
parse_command line = parse_tokens (tokenize line)
