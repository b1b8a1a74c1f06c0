-- ===== src/Protocol/Decimal.antt =====
-- Numbers as `operator<<` and `std::to_string` write them, and reading them back.
use gpumemd.Base.{
  ℕ, zero, suc, ◌+◌, ◌-◌, ◌*◌, ◌/◌, ◌%◌, ◌^◌, ◌≤◌, ◌<◌, ◌≡◌, refl, ap, Bool, true, false, not, some,
  [], ◌∷◌, ◌++◌, arith, Text, codes, text_eq_iff, length, drop, all_of, all_of-append, ltb, mul64,
  ℤ, pos, negsuc, pos_part, neg_part, Bool-cases, inl, inr, word,
}
use gpumemd.Names.{is_digit, is_empty}
use gpumemd.Resource.{millis_max}
use gpumemd.Protocol.{
  decimal, from_chars, suffixes, ends_with, split_suffix, scale, parse_size, parse_unsigned,
  split_sign, parse_priority, parse_timeout, is_blank,
}
use gpumemd.Protocol.Numbers.{parse_unsigned_lem, span_digits-all}
use gpumemd.Protocol.Tokens.{IsToken}

-- The decimal digits of a number. A round divides by ten, so the number itself is fuel enough.
unfoldable pub print_digits : ℕ → ℕ → Text
print_digits zero n = (b'0' + n % 10) ∷ []
print_digits (suc fuel) n = elim (ltb n 10) [
  | true ↦ (b'0' + n % 10) ∷ []
  | false ↦ print_digits fuel (n / 10) ++ (b'0' + n % 10) ∷ []
]

unfoldable pub print : ℕ → Text
unfolding print_digits
print n = print_digits n n

unfoldable pub print_int : ℤ → Text
unfolding print
print_int (pos n) = print n
print_int (negsuc n) = b'-' ∷ print (n + 1)

print_digits-all : (fuel n : ℕ) → all_of is_digit (print_digits fuel n) ≡ true
unfolding print_digits
print_digits-all zero n = ground arith
print_digits-all (suc fuel) n = elim (Bool-cases (ltb n 10)) [
  | inl e ↦ rw (print_digits, e) (ground arith)
  | inr e ↦
      rw (print_digits, e)
        (ground (
          arith,
          all_of-append is_digit (print_digits fuel (n / 10)) ((b'0' + n % 10) ∷ []),
          print_digits-all fuel (n / 10),
        ))
]

is_empty-append : (xs : Text) (c : ℕ) → is_empty (xs ++ c ∷ []) ≡ false
is_empty-append [] c = refl
is_empty-append (x ∷ xs) c = ground arith

print_digits-is_empty : (fuel n : ℕ) → is_empty (print_digits fuel n) ≡ false
unfolding print_digits
print_digits-is_empty zero n = refl
print_digits-is_empty (suc fuel) n = elim (Bool-cases (ltb n 10)) [
  | inl e ↦ rw (print_digits, e) refl
  | inr e ↦ rw (print_digits, e) (is_empty-append (print_digits fuel (n / 10)) (b'0' + n % 10))
]

decimal-append :
    (sum : ℕ) (xs : Text) (c : ℕ) → decimal sum (xs ++ c ∷ []) ≡ decimal sum xs * 10 + (c - 48)
unfolding decimal
decimal-append sum [] c = refl
decimal-append sum (x ∷ xs) c = decimal-append (sum * 10 + (x - 48)) xs c

decimal-print_digits : (fuel n : ℕ) → n ≤ fuel → decimal 0 (print_digits fuel n) ≡ n
unfolding print_digits decimal
decimal-print_digits zero n h = omega arith
decimal-print_digits (suc fuel) n h = elim (Bool-cases (ltb n 10)) [
  | inl e ↦ rw (print_digits, e) (ground arith)
  | inr e ↦
      rw (print_digits, e)
        (ground (
          arith,
          decimal-append 0 (print_digits fuel (n / 10)) (b'0' + n % 10),
          decimal-print_digits fuel (n / 10),
        ))
]

-- What is known of a printed number.
pub print-digits :
    (n : ℕ)
    → (all_of is_digit (print n) ≡ true) × (is_empty (print n) ≡ false) × (decimal 0 (print n) ≡ n)
unfolding print
print-digits n =
    (print_digits-all n n, print_digits-is_empty n n, decimal-print_digits n n (omega arith))

-- A number below 2 ^ 64 is read back from its print.
pub parse_unsigned-print : (n : ℕ) → n < word → parse_unsigned (print n) ≡ some n
parse_unsigned-print n h =
    let (digits, filled, value) = print-digits n in ground (arith, parse_unsigned_lem (print n))

all_of-drop : (p : ℕ → Bool) (n : ℕ) (xs : Text) → all_of p xs ≡ true → all_of p (drop n xs) ≡ true
all_of-drop p zero xs h = h
all_of-drop p (suc n) [] h = refl
all_of-drop p (suc n) (x ∷ xs) h = all_of-drop p n xs (ground arith)

ends_with-digits :
    (token suffix : Text)
    → all_of is_digit token ≡ true
    → all_of is_digit suffix ≡ false
    → ends_with token suffix ≡ false
ends_with-digits token suffix h k = ground (
  arith,
  text_eq_iff (drop (length token - length suffix) token) suffix,
  all_of-drop is_digit (length token - length suffix) token h,
  ap (all_of is_digit),
)

split_suffix-digits :
    (token : Text) → all_of is_digit token ≡ true → split_suffix suffixes token ≡ (token, 1)
unfolding split_suffix
split_suffix-digits token h =
    rw
      (
        split_suffix,
        ends_with-digits token (codes "KiB") h refl,
        ends_with-digits token (codes "MiB") h refl,
        ends_with-digits token (codes "GiB") h refl,
        ends_with-digits token (codes "KB") h refl,
        ends_with-digits token (codes "MB") h refl,
        ends_with-digits token (codes "GB") h refl,
        ends_with-digits token (codes "B") h refl,
      )
      refl

-- A size that is not 0 is read back from its print in bytes.
pub parse_size-print : (n : ℕ) → 0 < n → n < word → parse_size (print n) ≡ some n
unfolding parse_size scale from_chars mul64
parse_size-print n h k =
    let (digits, filled, value) = print-digits n in
    ground (
      arith,
      split_suffix-digits (print n) digits,
      span_digits-all (print n) digits,
      digits,
      filled,
      value,
    )

split_sign-digits :
    (token : Text) → all_of is_digit token ≡ true → split_sign token ≡ (false, token)
split_sign-digits [] h = refl
split_sign-digits (c ∷ rest) h = ground arith

-- A priority in the range of a 32-bit `int` is read back from its print.
pub parse_priority-print :
    (priority : ℤ)
    → neg_part priority ≤ 2 ^ 31
    → pos_part priority < 2 ^ 31
    → parse_priority (print_int priority) ≡ some priority
unfolding parse_priority print_int
parse_priority-print (pos n) h k =
    let (digits, filled, value) = print-digits n in
    rw
      (
        parse_priority,
        filled,
        split_sign-digits (print n) digits,
        parse_unsigned-print n (omega (arith, k)),
      )
      (ground (arith, k))
parse_priority-print (negsuc n) h k =
    rw (parse_priority, parse_unsigned-print (n + 1) (omega (arith, h))) (ground (arith, h))

-- A timeout is read back from its print.
pub parse_timeout-print : (n : ℕ) → n ≤ millis_max → parse_timeout (print n) ≡ some n
unfolding parse_timeout
parse_timeout-print n h =
    rw (parse_timeout, parse_unsigned-print n (omega arith)) (ground (arith, h))

is_blank-digits :
    (token : Text) → all_of is_digit token ≡ true → all_of (λ c. not (is_blank c)) token ≡ true
is_blank-digits [] h = refl
is_blank-digits (c ∷ rest) h = ground (arith, is_blank-digits rest)

pub print-IsToken : (n : ℕ) → IsToken (print n)
print-IsToken n =
    let (digits, filled, value) = print-digits n in (filled, is_blank-digits (print n) digits)

pub print_int-IsToken : (p : ℤ) → IsToken (print_int p)
unfolding print_int
print_int-IsToken (pos n) = print-IsToken n
print_int-IsToken (negsuc n) = ground (arith, print-IsToken (n + 1))
