-- ===== src/Loader.antt =====
-- include/gpumemd/model_loader.hpp and src/core/model_loader.cpp. The file system and the stream that
-- reads a file are parameters.
use gpumemd.Base.{
  ℕ, ◌^◌, ◌-◌, ◌<◌, ◌≡◌, true, not, ◌||◌, Option, none, some, List, Text, arith, length, ltb, ◌==◌,
  if◌then◌else◌,
}
use gpumemd.Names.{is_empty}
use gpumemd.Registry.{FileSystem, is_regular}

pub data ModelLoadError : Type 0 where
  unavailable source_changed read_failure : ModelLoadError

-- `ModelLoadResult`: the bytes of the file stand in a result without an error.
pub data ModelLoadResult : Type 0 where
  failed : ModelLoadError → ModelLoadResult
  loaded : List ℕ → ModelLoadResult

-- `std::ifstream`: `none` where the file cannot be opened, or else what a `read` of so many bytes got.
pub record Disk : Type 0 where
  pub files : FileSystem
  pub read : Text → ℕ → Option (List ℕ)

read_exactly : ℕ → Option (List ℕ) → ModelLoadResult
read_exactly size none = failed read_failure
read_exactly size (some bytes) = if length bytes == size then loaded bytes else failed read_failure

unfoldable pub load : Disk → Text → ℕ → ModelLoadResult
unfolding read_exactly
load disk path expected_bytes =
    if is_empty path || expected_bytes == 0
    then failed unavailable
    else if not (is_regular (disk.files.is_regular_file path))
    then failed unavailable
    else elim (disk.files.file_size path) [
      | none ↦ failed unavailable
      | some file_size ↦
          if not (file_size == expected_bytes) || ltb (2 ^ 64 - 1) file_size
          then failed source_changed
          else read_exactly file_size (disk.read path file_size)
    ]

-- What is loaded has the size that was expected, is all of a regular file of that size, and is not
-- empty.
pub load_sound :
    (disk : Disk) (path : Text) (expected_bytes : ℕ) (bytes : List ℕ)
    → load disk path expected_bytes ≡ loaded bytes
    → (length bytes ≡ expected_bytes)
      × (0 < expected_bytes)
      × (disk.files.is_regular_file path ≡ some true)
      × (disk.files.file_size path ≡ some expected_bytes)
      × (disk.read path expected_bytes ≡ some bytes)
unfolding load
load_sound disk path expected_bytes bytes h = ground arith
