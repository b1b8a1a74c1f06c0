-- ===== src/Protocol/Numbers.antt =====
-- What the parsers of numbers accept, and what they return.
use gpumemd.Base.{
  ℕ, zero, suc, ◌-◌, ◌*◌, ◌/◌, ◌^◌, ◌≤◌, ◌<◌, ◌≡◌, refl, ap, sym, true, not, ◌&&◌, none, some, List,
  [], ◌∷◌, ◌++◌, append-nil, arith, Text, length, take, drop, all_of, All, ltb, if◌then◌else◌,
  mul64, ℤ, pos_part, neg_part, Bool-cases, inl, inr, word,
}
use native.Mathlib.Nat.{le-div_iff_mul-le}
use gpumemd.Names.{is_digit, is_empty}
use gpumemd.Protocol.{
  decimal, span_digits, from_chars, suffixes, ends_with, split_suffix, scale, parse_size,
  parse_unsigned, parse_priority,
}

pub span_digits-all : (text : Text) → all_of is_digit text ≡ true → span_digits text ≡ (text, [])
unfolding span_digits
span_digits-all [] h = refl
span_digits-all (c ∷ rest) h =
    let digit : is_digit c ≡ true = ground arith in
    rw (span_digits, digit, span_digits-all rest (ground arith)) refl

span_digits-rest :
    (text : Text) → is_empty (span_digits text).1 ≡ true → all_of is_digit text ≡ true
unfolding span_digits
span_digits-rest [] h = refl
span_digits-rest (c ∷ rest) h = elim (Bool-cases (is_digit c)) [
  | inl e ↦ let more = span_digits-rest rest (rw (span_digits, e) at h) in ground arith
  | inr e ↦ absurd (ground arith)
]

-- `parse_unsigned` accepts exactly the rows of digits that write a number below 2 ^ 64, and returns
-- that number.
pub parse_unsigned_lem :
    (token : Text)
    → parse_unsigned token ≡ (
        if not (is_empty token) && all_of is_digit token && ltb (decimal 0 token) (2 ^ 64)
        then some (decimal 0 token)
        else none)
unfolding parse_unsigned from_chars
parse_unsigned_lem token = elim (Bool-cases (all_of is_digit token)) [
  | inl e ↦ rw (parse_unsigned, from_chars, span_digits-all token e, e) (ground arith)
  | inr e ↦ ground (arith, span_digits-rest token)
]

take-drop : (n : ℕ) (xs : Text) → take n xs ++ drop n xs ≡ xs
take-drop zero xs = refl
take-drop (suc n) [] = refl
take-drop (suc n) (x ∷ xs) = ap (λ ys. x ∷ ys) (take-drop n xs)

-- What a token is split into.
abbrev pub Split : Text → Text × ℕ → Type 0
Split token (digits, multiplier) = (suffix : Text) × (token ≡ digits ++ suffix) × (0 < multiplier)

split_suffix-Split :
    (table : List (Text × ℕ)) (token : Text)
    → All (λ entry. 0 < entry.1) table
    → Split token (split_suffix table token)
unfolding split_suffix
split_suffix-Split [] token a = ([], sym (append-nil token), omega arith)
split_suffix-Split ((suffix, value) ∷ rest) token a = elim (Bool-cases (ends_with token suffix)) [
  | inr e ↦ rw (split_suffix, e) (split_suffix-Split rest token a.1)
  | inl e ↦
      rw (split_suffix, e)
        (
          drop (length token - length suffix) token,
          sym (take-drop (length token - length suffix) token),
          a.0,
        )
]

product-positive : (a b : ℕ) → 0 < a → 0 < b → 0 < a * b
product-positive zero b h k = absurd (omega arith)
product-positive (suc a) zero h k = absurd (omega arith)
product-positive (suc a) (suc b) h k = grind arith

-- A size that is accepted is digits times a positive multiplier, and the product is neither 0 nor
-- wrapped around.
scale_lem :
    (digits : Text) (multiplier bytes : ℕ)
    → 0 < multiplier
    → scale digits multiplier ≡ some bytes
    → (bytes ≡ decimal 0 digits * multiplier)
      × (0 < bytes)
      × (bytes < word)
      × (all_of is_digit digits ≡ true)
unfolding scale from_chars mul64
scale_lem digits multiplier bytes positive h = elim (Bool-cases (all_of is_digit digits)) [
  | inr e ↦ absurd (ground arith)
  | inl e ↦
      let value = decimal 0 digits in
      let bound : value ≤ (2 ^ 64 - 1) / multiplier = ground (arith, span_digits-all digits e) in
      let nonzero : 0 < value = ground (arith, span_digits-all digits e) in
      let fits : value * multiplier < word = omega (arith, (le-div_iff_mul-le positive).0 bound) in
      let some_bytes : 0 < value * multiplier =
        product-positive value multiplier nonzero positive in
      ground (arith, span_digits-all digits e, fits, some_bytes)
]

suffixes-positive : All (λ entry. 0 < entry.1) suffixes
suffixes-positive = (
  omega arith,
  (omega arith, (omega arith, (omega arith, (omega arith, (omega arith, (omega arith, tt)))))),
)

-- A size that is accepted is a row of digits with a suffix; it is that number times a positive
-- multiplier, without wrapping around, and is not 0.
pub parse_size-exact :
    (token : Text) (bytes : ℕ)
    → parse_size token ≡ some bytes
    → let (digits, multiplier) = split_suffix suffixes token in
      Split token (digits, multiplier)
      × (all_of is_digit digits ≡ true)
      × (bytes ≡ decimal 0 digits * multiplier)
      × (0 < bytes)
      × (bytes < word)
unfolding parse_size
parse_size-exact token bytes h =
    let split = split_suffix-Split suffixes token suffixes-positive in
    let (product, positive, fits, digits) =
      scale_lem (split_suffix suffixes token).0 (split_suffix suffixes token).1 bytes split.2 h in
    (split, digits, product, positive, fits)

-- A priority that is parsed lies in the range of a 32-bit `int`.
pub parse_priority-range :
    (token : Text) (priority : ℤ)
    → parse_priority token ≡ some priority
    → (neg_part priority ≤ 2 ^ 31) × (pos_part priority < 2 ^ 31)
unfolding parse_priority
parse_priority-range token priority h = ground arith
