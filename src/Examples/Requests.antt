-- ===== src/Examples/Requests.antt =====
-- The theorems on the parsing of requests at concrete inputs.
use gpumemd.Base.{◌*◌, ◌<◌, ◌≡◌, refl, true, codes, text_eq, all_of, word, mul64, negsuc}
use gpumemd.Names.{is_digit}
use gpumemd.Protocol.{decimal, split_suffix, suffixes, parse_size, parse_priority}
use gpumemd.Resource.{millis_max}
use gpumemd.Protocol.{parse_timeout}
use gpumemd.Protocol.Acquire.{IsAcceptable, parse_acquire, parse_acquire-IsAcceptable}
use gpumemd.Names.{valid_name}
use gpumemd.Base.{List, [], ◌∷◌, pos, Text}
use gpumemd.Protocol.Command
use gpumemd.Protocol.Command.{Command, named}
use gpumemd.Protocol.Numbers.{Split, parse_size-exact}

parse_size-exact_example :
    let (digits, multiplier) = split_suffix suffixes (codes "4KiB") in
    Split (codes "4KiB") (digits, multiplier)
    × (all_of is_digit digits ≡ true)
    × (4_096 ≡ decimal 0 digits * multiplier)
    × (0 < 4_096)
    × (4_096 < word)
unfolding parse_size text_eq mul64
parse_size-exact_example = parse_size-exact (codes "4KiB") 4_096 refl

abbrev fields : List Text
fields = codes "a" ∷ codes "4KiB" ∷ codes "-7" ∷ codes "nonsense" ∷ codes "30" ∷ []

abbrev accepted : Command
accepted = record (named Command.acquires (codes "a")) {
  bytes = 4_096;
  options = record { priority = negsuc 6; timeout = pos millis_max; estimated_cost = pos 30 };
}

parse_acquire-IsAcceptable_example : IsAcceptable accepted
unfolding parse_acquire valid_name text_eq mul64 parse_size parse_priority parse_timeout
parse_acquire-IsAcceptable_example = parse_acquire-IsAcceptable fields accepted refl
