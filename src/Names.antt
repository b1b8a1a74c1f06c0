-- ===== src/Names.antt =====
-- The byte tests by which names, metadata, paths and endpoints are accepted. `valid_name` is
-- written out five times in the code: in src/core/resource_manager.cpp, src/core/model_registry.cpp,
-- src/core/memory_allocator.cpp, src/backend/mock_backend.cpp and src/protocol/protocol.cpp.
use gpumemd.Base.{ℕ, Bool, ◌&&◌, ◌||◌, not, Text, length, all_of, ltb, leb, ◌==◌}

abbrev pub is_letter : ℕ → Bool
is_letter c = (leb b'a' c && leb c b'z') || (leb b'A' c && leb c b'Z')

abbrev pub is_digit : ℕ → Bool
is_digit c = leb b'0' c && leb c b'9'

unfoldable pub is_name_char : ℕ → Bool
is_name_char c = is_letter c || is_digit c || c == b'_' || c == b'-' || c == b'.'

abbrev pub is_empty : Text → Bool
is_empty s = length s == 0

unfoldable pub valid_name : Text → Bool
unfolding is_name_char
valid_name name = not (is_empty name || ltb 64 (length name)) && all_of is_name_char name

-- No control characters, no space and nothing outside ASCII: the characters that the code names
-- besides, tab to carriage return, are below 32.
pub is_metadata_char : ℕ → Bool
is_metadata_char c =
    ltb c 128
    && leb 32 c
    && not (c == 127)
    && not (c == b' ')
    && not (c == 9)
    && not (c == 10)
    && not (c == 13)
    && not (c == 12)
    && not (c == 11)

unfoldable pub valid_metadata : Text → Bool
unfolding is_metadata_char
valid_metadata metadata =
    not (is_empty metadata || ltb 128 (length metadata)) && all_of is_metadata_char metadata

pub is_path_char : ℕ → Bool
is_path_char c = leb 32 c && not (c == 127) && not (c == 10) && not (c == 13) && not (c == 9)

unfoldable pub valid_path : Text → Bool
unfolding is_path_char
valid_path path = not (is_empty path || ltb 4096 (length path)) && all_of is_path_char path

-- `NodeRegistry::valid_endpoint`
pub is_endpoint_char : ℕ → Bool
is_endpoint_char c = ltb 32 c && not (c == 10)

unfoldable pub valid_endpoint : Text → Bool
unfolding is_endpoint_char
valid_endpoint endpoint =
    not (is_empty endpoint || ltb 256 (length endpoint)) && all_of is_endpoint_char endpoint

-- `valid_metadata` of src/protocol/protocol.cpp.
unfoldable pub is_printable : Text → Bool
is_printable metadata =
    not (is_empty metadata || ltb 128 (length metadata))
    && all_of (λ c. leb 32 c && ltb c 127 && not (c == b' ') && not (c == b'\t')) metadata
