-- ===== src/Client.antt =====
-- include/gpumemd/client.hpp and src/client/client.cpp: the client library. What the socket calls
-- return is an argument.
pub mod Requests
pub mod Sharing
pub mod Exchange
pub mod Replies
pub mod Verdicts
pub mod Control
pub mod Listing
pub mod Listings
pub mod Served
use gpumemd.Base.{
  ℕ, suc, ◌-◌, ◌≤◌, Bool, true, false, not, ◌||◌, ◌&&◌, Option, none, some, List, [], ◌∷◌, ◌++◌,
  Text, codes, text_eq, text_eq, length, take, drop, any_of, all_of, leb, ltb, ◌==◌, if◌then◌else◌,
  ℤ, pos, eqb_ℤ,
}
use gpumemd.Names.{is_empty, is_digit}
use gpumemd.Resource.{AcquireOptions, millis_max}
use gpumemd.Protocol.{from_chars, tokens_from, is_blank, ends_with}
use gpumemd.Protocol.Decimal.{print, print_int}
use gpumemd.Protocol.Replies.{newline, end_mark}

pub data ClientError : Type 0 where
  ok invalid_request connection_failed write_failed read_failed broker_rejected : ClientError

pub record ClientResponse : Type 0 where
  pub error : ClientError
  pub payload : Text

pub record ShareDescriptor : Type 0 where
  pub bytes : ℕ
  pub token : Text

-- The commands that the client sends.
unfoldable pub timing : AcquireOptions → Text
timing options =
    if eqb_ℤ options.timeout (pos millis_max)
    then []
    else b' ' ∷ print_int options.timeout
      ++ (if eqb_ℤ options.estimated_cost (pos 0)
          then []
          else b' ' ∷ print_int options.estimated_cost)

unfoldable pub acquire_command : Text → ℕ → AcquireOptions → Text
unfolding timing
acquire_command name bytes options =
    codes "acquire "
    ++ name
    ++ b' ' ∷ print bytes
    ++ b' ' ∷ print_int options.priority
    ++ timing options

unfoldable pub try_acquire_command : Text → ℕ → Text
try_acquire_command name bytes = codes "try_acquire " ++ name ++ b' ' ∷ print bytes

unfoldable pub release_command : Text → Text
release_command name = codes "release " ++ name

unfoldable pub load_command : Text → Text
load_command name = codes "load " ++ name

unfoldable pub unload_command : Text → Text
unload_command name = codes "unload " ++ name

unfoldable pub share_command : Text → Text
share_command name = codes "share " ++ name

-- `std::isspace`, between the words that `>>` reads
abbrev pub is_space : ℕ → Bool
is_space c = c == b' ' || (leb 9 c && leb c 13)

-- `std::isxdigit`
abbrev pub is_hex : ℕ → Bool
is_hex c = is_digit c || (leb b'a' c && leb c b'f') || (leb b'A' c && leb c b'F')

-- The fields of a reply to `share`.
unfoldable pub read_share : List Text → Option ShareDescriptor
read_share (status ∷ action ∷ name ∷ bytes ∷ token ∷ rest) =
    if not (text_eq status (codes "OK")) || not (text_eq action (codes "shared")) || is_empty token
    then none
    else elim (from_chars bytes) [
      | none ↦ none
      | some (value, after) ↦
          if not (is_empty after)
          then none
          else if all_of is_hex token
          then some (record { bytes = value; token = token })
          else none
    ]
read_share _ = none

unfoldable pub parse_share_response : Text → Option ShareDescriptor
unfolding read_share
parse_share_response response = read_share (tokens_from is_space [] response)
