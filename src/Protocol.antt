-- ===== src/Protocol.antt =====
-- include/gpumemd/protocol.hpp and src/protocol/protocol.cpp: the numbers and the tokens of a request.
pub mod Numbers
pub mod Tokens
pub mod Command
pub mod Acquire
pub mod Parse
pub mod Decimal
pub mod Replies
use gpumemd.Base.{
  ℕ, ◌+◌, ◌-◌, ◌*◌, ◌/◌, ◌^◌, Bool, true, false, not, ◌||◌, ◌&&◌, Option, none, some, List, [], ◌∷◌,
  ◌++◌, Text, codes, text_eq, length, take, drop, all_of, ltb, leb, ◌==◌, if◌then◌else◌, mul64, ℤ,
  pos, negsuc,
}
use gpumemd.Names.{is_digit, is_empty}

-- The number that a row of decimal digits writes, after `sum`.
unfoldable pub decimal : ℕ → Text → ℕ
decimal sum [] = sum
decimal sum (c ∷ rest) = decimal (sum * 10 + (c - 48)) rest

-- The longest row of digits at the start of a text, and what follows it.
unfoldable pub span_digits : Text → Text × Text
span_digits [] = ([], [])
span_digits (c ∷ rest) = elim (is_digit c) [
  | true ↦ let (digits, after) = span_digits rest in (c ∷ digits, after)
  | false ↦ ([], c ∷ rest)
]

-- `std::from_chars` for `std::uint64_t`: the value and the characters that are left, or `none` where
-- it sets an error.
unfoldable pub from_chars : Text → Option (ℕ × Text)
unfolding span_digits decimal
from_chars text =
    let (digits, after) = span_digits text in
    if is_empty digits || ltb (2 ^ 64 - 1) (decimal 0 digits)
    then none
    else some (decimal 0 digits, after)

-- The suffixes of sizes, in the order in which they are tried.
abbrev pub suffixes : List (Text × ℕ)
suffixes =
    (codes "KiB", 1_024)
    ∷ (codes "MiB", 1_024 * 1_024)
    ∷ (codes "GiB", 1_024 * 1_024 * 1_024)
    ∷ (codes "KB", 1_000)
    ∷ (codes "MB", 1_000 * 1_000)
    ∷ (codes "GB", 1_000 * 1_000 * 1_000)
    ∷ (codes "B", 1)
    ∷ []

abbrev pub ends_with : Text → Text → Bool
ends_with token suffix =
    leb (length suffix) (length token) && text_eq (drop (length token - length suffix) token) suffix

-- The digits and the multiplier of a token: those of the first suffix that it ends with.
unfoldable pub split_suffix : List (Text × ℕ) → Text → Text × ℕ
split_suffix [] token = (token, 1)
split_suffix ((suffix, value) ∷ rest) token = elim (ends_with token suffix) [
  | true ↦ (take (length token - length suffix) token, value)
  | false ↦ split_suffix rest token
]

-- The digits as a number times `multiplier`.
unfoldable pub scale : Text → ℕ → Option ℕ
unfolding from_chars
scale digits multiplier =
    if is_empty digits
    then none
    else if not (all_of is_digit digits)
    then none
    else elim (from_chars digits) [
      | none ↦ none
      | some (value, after) ↦
          if not (is_empty after) || value == 0
          then none
          else if ltb ((2 ^ 64 - 1) / multiplier) value
          then none
          else some (mul64 value multiplier)
    ]

unfoldable pub parse_size : Text → Option ℕ
unfolding split_suffix scale
parse_size token = let (digits, multiplier) = split_suffix suffixes token in scale digits multiplier

unfoldable pub parse_unsigned : Text → Option ℕ
unfolding from_chars
parse_unsigned token = if is_empty token then none else elim (from_chars token) [
  | none ↦ none
  | some (value, after) ↦ if not (is_empty after) then none else some value
]

-- Whether the token has the sign `-`, and the token without its sign.
abbrev pub split_sign : Text → Bool × Text
split_sign [] = (false, [])
split_sign (c ∷ rest) = if c == b'-' || c == b'+' then (c == b'-', rest) else (false, c ∷ rest)

-- `-static_cast<int>(magnitude)`
abbrev pub negated : ℕ → ℤ
negated magnitude = if magnitude == 0 then pos 0 else negsuc (magnitude - 1)

unfoldable pub parse_priority : Text → Option ℤ
unfolding parse_unsigned
parse_priority token =
    if is_empty token
    then none
    else let (negative, digits) = split_sign token in
      elim (parse_unsigned digits) [
        | none ↦ none
        | some magnitude ↦
            if ltb (if negative then 2 ^ 31 else 2 ^ 31 - 1) magnitude
            then none
            else some (if negative then negated magnitude else pos magnitude)
      ]

-- In milliseconds.
unfoldable pub parse_timeout : Text → Option ℕ
unfolding parse_unsigned
parse_timeout token = elim (parse_unsigned token) [
  | none ↦ none
  | some value ↦ if ltb (2 ^ 63 - 1) value then none else some value
]

abbrev pub is_blank : ℕ → Bool
is_blank c = c == b' ' || c == b'\t'

abbrev pub end_token : Text → List Text → List Text
end_token token tokens = if is_empty token then tokens else token ∷ tokens

-- The tokens of a line between the characters that are `blank`, with the characters of the token
-- that is being read.
unfoldable pub tokens_from : (ℕ → Bool) → Text → Text → List Text
tokens_from blank token [] = end_token token []
tokens_from blank token (c ∷ rest) = elim (blank c) [
  | true ↦ end_token token (tokens_from blank [] rest)
  | false ↦ tokens_from blank (token ++ c ∷ []) rest
]

unfoldable pub tokenize : Text → List Text
unfolding tokens_from
tokenize line = tokens_from is_blank [] line
