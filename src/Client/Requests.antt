-- ===== src/Client/Requests.antt =====
-- What the daemon makes of the commands that the client sends.
use gpumemd.Base.{
  ℕ, ◌^◌, ◌≤◌, ◌<◌, ◌≡◌, refl, ap, ◌∙◌, true, not, ◌||◌, List, [], ◌∷◌, ◌++◌, append-nil, arith,
  Text, codes, text_eq, All, if◌then◌else◌, ℤ, pos, pos_part, neg_part, eqb_ℤ, word, Bool-cases,
  inl, inr,
}
use gpumemd.Names.{valid_name}
use gpumemd.Resource.{AcquireOptions, millis_max}
use gpumemd.Protocol.Tokens.{IsToken, unwords, tokenize-unwords, valid_name-IsToken, append-fields}
use gpumemd.Protocol.Decimal.{
  print, print_int, parse_size-print, parse_priority-print, parse_timeout-print, print-IsToken,
  print_int-IsToken,
}
use gpumemd.Protocol.Command
use gpumemd.Protocol.Command.{ParseResult, parsed, named, default_options, try}
use gpumemd.Protocol.Acquire.{parse_acquire, acquire_fields, read_options}
use gpumemd.Protocol.Parse.{parse_command, parse_tokens}
use gpumemd.Client.{
  timing, acquire_command, try_acquire_command, release_command, load_command, unload_command,
  share_command,
}

pub parse_command-unwords :
    (tokens : List Text) → All IsToken tokens → parse_command (unwords tokens) ≡ parse_tokens tokens
unfolding parse_command
parse_command-unwords tokens a = ap parse_tokens (tokenize-unwords tokens a)

-- The daemon parses each of these commands to the operation and the arguments that the client was
-- called with, for a valid name and a size that is not 0 and fits 64 bits.
pub parse_command-requests :
    (name : Text) (bytes : ℕ)
    → valid_name name ≡ true
    → 0 < bytes
    → bytes < word
    → (parse_command (release_command name) ≡ parsed (named Command.releases name))
      × (parse_command (load_command name) ≡ parsed (named Command.load_model name))
      × (parse_command (unload_command name) ≡ parsed (named Command.unload_model name))
      × (parse_command (share_command name) ≡ parsed (named Command.share name))
      × (parse_command (try_acquire_command name bytes)
          ≡ parsed (record (named Command.acquires name) {
            bytes = bytes;
            acquire_mode = try;
            options = record default_options { timeout = pos 0 };
          }))
unfolding parse_tokens text_eq release_command load_command unload_command share_command
    try_acquire_command
parse_command-requests name bytes valid positive fits =
    let token = valid_name-IsToken name valid in
    (
      parse_command-unwords (codes "release" ∷ name ∷ []) ((refl, refl), (token, tt))
          ∙ rw valid refl,
      parse_command-unwords (codes "load" ∷ name ∷ []) ((refl, refl), (token, tt)) ∙ rw valid refl,
      parse_command-unwords (codes "unload" ∷ name ∷ []) ((refl, refl), (token, tt))
          ∙ rw valid refl,
      parse_command-unwords (codes "share" ∷ name ∷ []) ((refl, refl), (token, tt)) ∙ rw valid refl,
      parse_command-unwords (codes "try_acquire" ∷ name ∷ print bytes ∷ [])
            ((refl, refl), (token, (print-IsToken bytes, tt)))
          ∙ rw (valid, parse_size-print bytes positive fits) refl,
    )

-- The options that arrive at the daemon: a timeout only without a cost, and a cost only with a timeout.
abbrev pub received : AcquireOptions → AcquireOptions
received options = record options {
  timeout =
      if eqb_ℤ options.timeout (pos millis_max) || not (eqb_ℤ options.estimated_cost (pos 0))
      then pos millis_max
      else options.timeout;
  estimated_cost = if eqb_ℤ options.timeout (pos millis_max) then pos 0 else options.estimated_cost;
}

-- The arguments of `acquire` as the client writes them.
module _ (name : Text) (bytes : ℕ) (priority : ℤ) (valid : valid_name name ≡ true)
    (positive : 0 < bytes) (fits : bytes < word) (low : neg_part priority ≤ 2 ^ 31)
    (high : pos_part priority < 2 ^ 31) where
  abbrev arguments : List Text → List Text
  arguments rest = name ∷ print bytes ∷ print_int priority ∷ rest

  abbrev accepted : ℕ → ℕ → ParseResult
  accepted timeout cost = parsed (record (named Command.acquires name) {
    bytes = bytes;
    options = record { priority = priority; timeout = pos timeout; estimated_cost = pos cost };
  })

  parse_acquire-priority : parse_acquire (arguments []) ≡ accepted millis_max 0
  unfolding parse_acquire
  parse_acquire-priority =
      rw
        (
          parse_acquire,
          acquire_fields,
          read_options,
          valid,
          parse_size-print bytes positive fits,
          parse_priority-print priority low high,
        )
        refl

  parse_acquire-timeout :
      (timeout : ℕ)
      → timeout ≤ millis_max
      → parse_acquire (arguments (print timeout ∷ [])) ≡ accepted timeout 0
  unfolding parse_acquire
  parse_acquire-timeout timeout t =
      rw
        (
          parse_acquire,
          acquire_fields,
          read_options,
          valid,
          parse_size-print bytes positive fits,
          parse_priority-print priority low high,
          parse_timeout-print timeout t,
        )
        refl

  parse_acquire-cost :
      (ignored : Text) (cost : ℕ)
      → cost ≤ millis_max
      → parse_acquire (arguments (ignored ∷ print cost ∷ [])) ≡ accepted millis_max cost
  unfolding parse_acquire
  parse_acquire-cost ignored cost c =
      rw
        (
          parse_acquire,
          acquire_fields,
          read_options,
          valid,
          parse_size-print bytes positive fits,
          parse_priority-print priority low high,
          parse_timeout-print cost c,
        )
        refl

  arguments-IsToken :
      (rest : List Text) → All IsToken rest → All IsToken (codes "acquire" ∷ arguments rest)
  arguments-IsToken rest a = (
    (refl, refl),
    (valid_name-IsToken name valid, (print-IsToken bytes, (print_int-IsToken priority, a))),
  )

  -- A command with further fields behind the priority.
  abbrev sent : Text → Text
  sent fields =
      codes "acquire " ++ name ++ b' ' ∷ print bytes ++ b' ' ∷ print_int priority ++ fields

  abbrev spaced : List Text → Text
  spaced [] = []
  spaced (token ∷ rest) = b' ' ∷ unwords (token ∷ rest)

  sent-nested :
      (fields : Text)
      → sent fields
        ≡ codes "acquire "
          ++ (name ++ b' ' ∷ (print bytes ++ b' ' ∷ (print_int priority ++ fields)))
  sent-nested fields =
      ap (λ t. codes "acquire " ++ t)
        (append-fields b' ' name (print bytes) (print_int priority) fields)

  sent-spaced : (rest : List Text) → sent (spaced rest) ≡ unwords (codes "acquire" ∷ arguments rest)
  sent-spaced [] =
      sent-nested []
      ∙ ap (λ t. codes "acquire " ++ (name ++ b' ' ∷ (print bytes ++ b' ' ∷ t)))
          (append-nil (print_int priority))
  sent-spaced (token ∷ rest) = sent-nested (b' ' ∷ unwords (token ∷ rest))

  parse_command-sent :
      (fields : Text) (rest : List Text)
      → fields ≡ spaced rest
      → All IsToken rest
      → parse_command (sent fields) ≡ parse_acquire (arguments rest)
  unfolding parse_tokens text_eq
  parse_command-sent fields rest e a =
      ap (λ t. parse_command (sent t)) e
      ∙ ap parse_command (sent-spaced rest)
      ∙ parse_command-unwords (codes "acquire" ∷ arguments rest) (arguments-IsToken rest a)

-- The daemon parses the `acquire` that the client sends to that name, size and priority, if the name is
-- valid, the size is a 64-bit number and not 0, the priority fits a 32-bit `int`, and the timeout and
-- the cost are not negative and at most the maximum of milliseconds. But of the timeout and the cost it
-- gets at most one: with a cost that is not 0 the timeout is
-- the maximum whatever the caller asked for, and with the maximal timeout the cost is 0.
pub parse_command-acquire_command :
    (name : Text) (bytes : ℕ) (priority : ℤ) (timeout cost : ℕ)
    → valid_name name ≡ true
    → 0 < bytes
    → bytes < word
    → neg_part priority ≤ 2 ^ 31
    → pos_part priority < 2 ^ 31
    → timeout ≤ millis_max
    → cost ≤ millis_max
    → let options : AcquireOptions = record {
      priority = priority;
      timeout = pos timeout;
      estimated_cost = pos cost;
    } in
      parse_command (acquire_command name bytes options)
      ≡ parsed (record (named Command.acquires name) { bytes = bytes; options = received options })
unfolding acquire_command print_int
parse_command-acquire_command name bytes priority timeout cost valid positive fits low high t c =
    let options : AcquireOptions = record {
      priority = priority;
      timeout = pos timeout;
      estimated_cost = pos cost;
    } in
    let reach =
      parse_command-sent name bytes priority valid positive fits low high (timing options) in
    elim (Bool-cases (eqb_ℤ (pos timeout) (pos millis_max))) [
      | inl e ↦
          reach [] (rw (timing, e) refl) tt
          ∙ parse_acquire-priority name bytes priority valid positive fits low high
          ∙ rw e refl
      | inr e ↦ elim (Bool-cases (eqb_ℤ (pos cost) (pos 0))) [
        | inl f ↦
            let zero_cost : 0 ≡ cost = ground (arith, f) in
            reach (print timeout ∷ [])
              (rw (timing, e, f) (ap (λ t. b' ' ∷ t) (append-nil (print timeout))))
              (print-IsToken timeout, tt)
            ∙ parse_acquire-timeout name bytes priority valid positive fits low high timeout t
            ∙ rw (e, f)
                (ap (accepted name bytes priority valid positive fits low high timeout) zero_cost)
        | inr f ↦
            reach (print timeout ∷ print cost ∷ []) (rw (timing, e, f) refl)
              (print-IsToken timeout, (print-IsToken cost, tt))
            ∙ parse_acquire-cost name bytes priority valid positive fits low high (print timeout)
                cost c
            ∙ rw (e, f) refl
      ]
    ]
