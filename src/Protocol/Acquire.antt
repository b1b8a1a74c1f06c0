-- ===== src/Protocol/Acquire.antt =====
-- The `acquire` command of `parse_command`.
use gpumemd.Base.{
  ℕ, ◌^◌, ◌≤◌, ◌<◌, ◌≡◌, subst, true, not, ◌||◌, Option, none, some, List, [], ◌∷◌, arith, Text,
  length, ltb, if◌then◌else◌, pos, pos_part, neg_part, word, Bool-cases, Option-cases, inl, inr,
}
use gpumemd.Names.{valid_name}
use gpumemd.Resource.{AcquireOptions, millis_max}
use gpumemd.Protocol.Command
use gpumemd.Protocol.Command.{
  Command, ParseResult, failed, parsed, named, default_options, invalid_request, invalid_size,
  invalid_name,
}
use gpumemd.Protocol.{parse_size, parse_priority, parse_timeout}
use gpumemd.Protocol.Numbers.{parse_size-exact, parse_priority-range}

abbrev with_timeout : AcquireOptions → Option ℕ → Option AcquireOptions
with_timeout options none = none
with_timeout options (some timeout) = some (record options { timeout = pos timeout })

abbrev with_cost : AcquireOptions → Option ℕ → Option AcquireOptions
with_cost options none = none
with_cost options (some cost) = some (record options { estimated_cost = pos cost })

-- The fields behind the priority, by how many there are.
abbrev later_options : AcquireOptions → List Text → Option AcquireOptions
later_options options [] = some options
later_options options (timeout ∷ []) = with_timeout options (parse_timeout timeout)
later_options options (timeout ∷ cost ∷ []) = with_cost options (parse_timeout cost)
later_options options (timeout ∷ cost ∷ _ ∷ _) = some options

-- The fields behind the size; `none` where one of them is refused.
unfoldable pub read_options : List Text → Option AcquireOptions
read_options [] = some default_options
read_options (priority ∷ rest) = elim (parse_priority priority) [
  | none ↦ none
  | some value ↦ later_options (record default_options { priority = value }) rest
]

unfoldable pub acquire_fields : List Text → ParseResult
unfolding read_options
acquire_fields (name ∷ size ∷ rest) =
    if not (valid_name name) then failed invalid_name else elim (parse_size size) [
      | none ↦ failed invalid_size
      | some bytes ↦ elim (read_options rest) [
        | none ↦ failed invalid_request
        | some options ↦
            parsed (record (named Command.acquires name) { bytes = bytes; options = options })
      ]
    ]
acquire_fields _ = failed invalid_request

-- The arguments of `acquire`: the tokens behind the first.
unfoldable pub parse_acquire : List Text → ParseResult
unfolding acquire_fields
parse_acquire arguments =
    if ltb (length arguments) 2 || ltb 5 (length arguments)
    then failed invalid_request
    else acquire_fields arguments

-- What `parse_acquire` guarantees of a request that it accepts.
pub record IsAcceptable (request : Command) : Type 0 where
  pub named : valid_name request.name ≡ true
  pub sized : (0 < request.bytes) × (request.bytes < word)
  pub ranked :
      (neg_part request.options.priority ≤ 2 ^ 31) × (pos_part request.options.priority < 2 ^ 31)
  pub patient :
      (neg_part request.options.timeout ≡ 0) × (pos_part request.options.timeout ≤ millis_max)
  pub priced :
      (neg_part request.options.estimated_cost ≡ 0)
      × (pos_part request.options.estimated_cost ≤ millis_max)

abbrev Options : AcquireOptions → Type 0
Options options =
    ((neg_part options.priority ≤ 2 ^ 31) × (pos_part options.priority < 2 ^ 31))
    × ((neg_part options.timeout ≡ 0) × (pos_part options.timeout ≤ millis_max))
    × ((neg_part options.estimated_cost ≡ 0) × (pos_part options.estimated_cost ≤ millis_max))

parse_timeout-range :
    (token : Text) (value : ℕ) → parse_timeout token ≡ some value → value ≤ millis_max
unfolding parse_timeout
parse_timeout-range token value h = ground arith

later_options-Options :
    (start : AcquireOptions) (rest : List Text) (options : AcquireOptions)
    → Options start
    → later_options start rest ≡ some options
    → Options options
later_options-Options start [] options v h = ground arith
later_options-Options start (timeout ∷ []) options v h =
    elim (Option-cases (parse_timeout timeout)) [
      | inl e ↦ absurd (ground arith)
      | inr (value, e) ↦ ground (arith, parse_timeout-range timeout value e)
    ]
later_options-Options start (timeout ∷ cost ∷ []) options v h =
    elim (Option-cases (parse_timeout cost)) [
      | inl e ↦ absurd (ground arith)
      | inr (value, e) ↦ ground (arith, parse_timeout-range cost value e)
    ]
later_options-Options start (timeout ∷ cost ∷ _ ∷ _) options v h = ground arith

read_options-Options :
    (rest : List Text) (options : AcquireOptions)
    → read_options rest ≡ some options
    → Options options
unfolding read_options
read_options-Options [] options h = ground arith
read_options-Options (priority ∷ rest) options h = elim (Option-cases (parse_priority priority)) [
  | inl e ↦ absurd (ground arith)
  | inr (value, e) ↦
      later_options-Options (record default_options { priority = value }) rest options
        (parse_priority-range priority value e, ground arith, ground arith)
        (rw (read_options, e) at h)
]

acquire_fields-IsAcceptable :
    (tokens : List Text) (request : Command)
    → acquire_fields tokens ≡ parsed request
    → IsAcceptable request
unfolding acquire_fields
acquire_fields-IsAcceptable [] request h = cc
acquire_fields-IsAcceptable (name ∷ []) request h = cc
acquire_fields-IsAcceptable (name ∷ size ∷ rest) request h = elim (Bool-cases (valid_name name)) [
  | inr e ↦ absurd (ground arith)
  | inl e ↦ elim (Option-cases (parse_size size)) [
    | inl f ↦ absurd (ground arith)
    | inr (bytes, f) ↦ elim (Option-cases (read_options rest)) [
      | inl g ↦ absurd (ground arith)
      | inr (options, g) ↦
          let good = read_options-Options rest options g in
          let (split, digits, product, positive, fits) = parse_size-exact size bytes f in
          let same : record (named Command.acquires name) { bytes = bytes; options = options }
              ≡ request =
            ground arith in
          subst IsAcceptable same (record {
            named = e;
            sized = (positive, fits);
            ranked = good.0;
            patient = good.1;
            priced = good.2;
          })
    ]
  ]
]

-- A request that `acquire` is parsed to has a valid name, a size that is not 0 and fits 64 bits, a
-- priority in the range of `int`, and a timeout and a cost in the range of milliseconds.
pub parse_acquire-IsAcceptable :
    (tokens : List Text) (request : Command)
    → parse_acquire tokens ≡ parsed request
    → IsAcceptable request
unfolding parse_acquire
parse_acquire-IsAcceptable tokens request h =
    elim (Bool-cases (ltb (length tokens) 2 || ltb 5 (length tokens))) [
      | inl e ↦ absurd (ground arith)
      | inr e ↦ acquire_fields-IsAcceptable tokens request (rw (parse_acquire, e) at h)
    ]
