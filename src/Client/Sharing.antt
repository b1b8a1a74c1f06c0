-- ===== src/Client/Sharing.antt =====
-- The reply to `share`, from the daemon to the client.
use gpumemd.Base.{
  ℕ, ◌<◌, ◌≡◌, refl, ap, ◌∙◌, true, false, not, some, List, [], ◌∷◌, ◌++◌, append_assoc, arith,
  Text, codes, text_eq, all_of, all_of-weaken, word,
}
use gpumemd.Names.{valid_name, is_empty, is_name_char, is_digit}
use gpumemd.Registry
use gpumemd.Protocol.{from_chars, tokens_from}
use gpumemd.Protocol.Numbers.{span_digits-all}
use gpumemd.Protocol.Tokens.{IsWord, unwords, tokens_from-unwords}
use gpumemd.Protocol.Decimal.{print, print-digits}
use gpumemd.Protocol.Replies.{format_share_result, newline}
use gpumemd.Client.{is_space, is_hex, read_share, parse_share_response}

-- A token as backends export it: hexadecimal digits.
abbrev pub IsHex : Text → Type 0
IsHex token = (is_empty token ≡ false) × (all_of is_hex token ≡ true)

hex-IsWord : (token : Text) → IsHex token → IsWord is_space token
hex-IsWord token h =
    (h.0, all_of-weaken is_hex (λ c. not (is_space c)) token (λ c k. ground arith) h.1)

print-IsWord : (n : ℕ) → IsWord is_space (print n)
print-IsWord n =
    let (digits, filled, value) = print-digits n in
    (filled, all_of-weaken is_digit (λ c. not (is_space c)) (print n) (λ c k. ground arith) digits)

valid_name-IsWord : (name : Text) → valid_name name ≡ true → IsWord is_space name
unfolding valid_name is_name_char
valid_name-IsWord name h = (
  ground arith,
  all_of-weaken is_name_char (λ c. not (is_space c)) name (λ c k. ground arith) (ground arith),
)

from_chars-print : (n : ℕ) → n < word → from_chars (print n) ≡ some (n, [])
unfolding from_chars
from_chars-print n h =
    let (digits, filled, value) = print-digits n in
    ground (arith, span_digits-all (print n) digits, filled, value)

-- What the daemon replies when it has shared a model, the client reads back: the size and the token.
pub parse_share_response-format_share_result :
    (name token : Text) (bytes : ℕ)
    → valid_name name ≡ true
    → IsHex token
    → bytes < word
    → parse_share_response
        (format_share_result name (record { error = Registry.ok; amount = bytes; token = token }))
      ≡ some (record { bytes = bytes; token = token })
unfolding parse_share_response format_share_result read_share text_eq tokens_from
parse_share_response-format_share_result name token bytes valid hex fits =
    let fields : List Text = codes "OK" ∷ codes "shared" ∷ name ∷ print bytes ∷ token ∷ [] in
    let read : tokens_from is_space [] (unwords fields ++ newline) ≡ fields =
      tokens_from-unwords is_space fields newline refl (λ t. refl)
        (
          (refl, refl),
          (
            (refl, refl),
            (valid_name-IsWord name valid, (print-IsWord bytes, (hex-IsWord token hex, tt))),
          ),
        ) in
    ap (λ t. parse_share_response (codes "OK shared " ++ t ++ newline))
      (append_assoc name (b' ' ∷ print bytes) (b' ' ∷ token))
    ∙ ap read_share read
    ∙ rw (read_share, hex.0, from_chars-print bytes fits, hex.1) refl
