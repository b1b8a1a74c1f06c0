-- ===== src/Server/Chunks.antt =====
-- Lines and chunks: more bytes that come later are as good as bytes that were there before.
use mathlib.Core.Option
use gpumemd.Base.{
  ℕ, zero, suc, ◌+◌, ◌<◌, ◌≤◌, ◌≡◌, refl, sym, ap, ◌∙◌, true, Option, none, some, [], ◌∷◌, ◌++◌,
  arith, Text, length, length-append, leb, ltb, ◌==◌, if◌then◌else◌, Bool-cases, Option-cases, inl,
  inr,
}
use gpumemd.Server.{max_line_bytes}
use gpumemd.Server.Lines.{
  cut, Turn, goes_on, stops, blocks, Session, reading, closed, blocked, Event, chunk, retry, closes,
  continue, process_lines, process_input, receive,
}

pub cut-append :
    (input more line rest : Text)
    → cut input ≡ some (line, rest)
    → (cut (input ++ more) ≡ some (line, rest ++ more)) × (length rest < length input)
unfolding cut
cut-append [] more line rest h = absurd (ground arith)
cut-append (c ∷ input) more line rest h = elim (Bool-cases (c == b'\n')) [
  | inl e ↦
      let found : some ([], input) ≡ some (line, rest) = rw (cut, e) at h in
      let same : input ≡ rest = ground (arith, found) in
      let sizes : length input ≡ length rest = ap (λ t. length t) same in
      let later : some ([], input ++ more) ≡ some (line, rest ++ more) =
        ap (Option.map (λ q. (q.0, q.1 ++ more))) found in
      let smaller : length rest < length (c ∷ input) = omega (arith, sizes) in
      rw (cut, e) (later, smaller)
  | inr e ↦ elim (Option-cases (cut input)) [
    | inl f ↦ absurd (ground (arith, rw (cut, e, f) at h))
    | inr ((line', rest'), f) ↦
        let (later, less) = cut-append input more line' rest' f in
        rw (cut, e, later) (ground (arith, rw (cut, e, f) at h, less))
  ]
]

-- An input without a line of its own is the start of the first line.
pub cut-none :
    (input more line rest : Text)
    → cut input ≡ none
    → cut (input ++ more) ≡ some (line, rest)
    → length input ≤ length line
unfolding cut
cut-none [] more line rest h k = omega arith
cut-none (c ∷ input) more line rest h k = elim (Bool-cases (c == b'\n')) [
  | inl e ↦ absurd (ground (arith, rw (cut, e) at h))
  | inr e ↦ elim (Option-cases (cut input)) [
    | inr (found, f) ↦ absurd (ground (arith, rw (cut, e, f) at h))
    | inl f ↦ elim (Option-cases (cut (input ++ more))) [
      | inl g ↦ absurd (ground (arith, rw (cut, e, g) at k))
      | inr ((line', rest'), g) ↦
          ground (arith, rw (cut, e, g) at k, cut-none input more line' rest' f g)
    ]
  ]
]

module _ {A : Type 0} (answer : Text → A → Turn A) (too_large unterminated : A → Option A) where
  abbrev process : ℕ → Text → A → Session A
  process = process_lines answer too_large unterminated

  abbrev receiving : Event → Session A → Session A
  receiving = receive answer too_large unterminated

  pub continue-ap :
      (f g : A → Session A)
      → ((a : A) → f a ≡ g a)
      → (turn : Turn A) → continue f turn ≡ continue g turn
  continue-ap f g h (goes_on a) = h a
  continue-ap f g h (stops a) = refl
  continue-ap f g h blocks = refl

  pub process_lines-fuel :
      (fuel fuel' : ℕ) (input : Text) (a : A)
      → length input < fuel
      → length input < fuel'
      → process fuel input a ≡ process fuel' input a
  unfolding process_lines
  process_lines-fuel zero fuel' input a h k = absurd (omega arith)
  process_lines-fuel (suc fuel) zero input a h k = absurd (omega arith)
  process_lines-fuel (suc fuel) (suc fuel') input a h k = elim (Option-cases (cut input)) [
    | inl e ↦ rw (process_lines, e) refl
    | inr ((line, rest), e) ↦
        let less = (cut-append input [] line rest e).1 in
        rw (process_lines, e)
          (ap (λ next. if ltb max_line_bytes (length line + 1) then closes (too_large a) else next)
            (continue-ap _ _
              (λ a'.
                process_lines-fuel fuel fuel' rest a' (omega (arith, less)) (omega (arith, less)))
              (answer line a)))
  ]

  receive-closes : (bytes : Text) (a : Option A) → receiving (chunk bytes) (closes a) ≡ closes a
  unfolding receive
  receive-closes bytes none = refl
  receive-closes bytes (some a) = refl

  receive-continue :
      (bytes : Text) (f g : A → Session A)
      → ((a : A) → receiving (chunk bytes) (f a) ≡ g a)
      → (turn : Turn A) → receiving (chunk bytes) (continue f turn) ≡ continue g turn
  unfolding receive
  receive-continue bytes f g h (goes_on a) = h a
  receive-continue bytes f g h (stops a) = refl
  receive-continue bytes f g h blocks = refl

  receive-process_lines :
      (fuel fuel' : ℕ) (input more : Text) (a : A)
      → length input < fuel
      → length (input ++ more) < fuel'
      → receiving (chunk more) (process fuel input a) ≡ process fuel' (input ++ more) a
  unfolding process_lines receive process_input
  receive-process_lines zero fuel' input more a h k = absurd (omega arith)
  receive-process_lines (suc fuel) zero input more a h k = absurd (omega arith)
  receive-process_lines (suc fuel) (suc fuel') input more a h k = elim (Option-cases (cut input)) [
    | inl e ↦ elim (Bool-cases (leb max_line_bytes (length input))) [
      | inr unbroken ↦
          rw (process_lines, e, unbroken)
            (process_lines-fuel (suc (length (input ++ more))) (suc fuel') (input ++ more) a
              (omega arith) k)
      | inl full ↦
          rw (process_lines, e, full) (receive-closes more (too_large a) ∙ sym (rejects e full))
    ]
    | inr ((line, rest), e) ↦
        let (later, less) = cut-append input more line rest e in
        rw (process_lines, e, later)
          (elim (Bool-cases (ltb max_line_bytes (length line + 1))) [
            | inl long ↦ rw long (receive-closes more (too_large a))
            | inr short ↦ rw short (
                receive-continue more _ _
                  (λ a'.
                    receive-process_lines fuel fuel' rest more a' (omega (arith, less))
                      (omega (arith, less, k, length-append input more, length-append rest more)))
                  (answer line a))
          ])
  ]
    where
      rejects :
          cut input ≡ none
          → leb max_line_bytes (length input) ≡ true
          → process (suc fuel') (input ++ more) a ≡ closes (too_large a)
      rejects e full = elim (Option-cases (cut (input ++ more))) [
        | inl f ↦
            let still : leb max_line_bytes (length (input ++ more)) ≡ true =
              ground (arith, full, length-append input more) in
            rw (process_lines, f, still) refl
        | inr ((line, rest), f) ↦
            let long : ltb max_line_bytes (length line + 1) ≡ true =
              ground (arith, full, cut-none input more line rest e f) in
            rw (process_lines, f, long) refl
      ]

  pub receive-process_input :
      (input more : Text) (a : A)
      → receiving (chunk more) (process_input answer too_large unterminated input a)
        ≡ process_input answer too_large unterminated (input ++ more) a
  unfolding process_input
  receive-process_input input more a =
      receive-process_lines (suc (length input)) (suc (length (input ++ more))) input more a
        (omega arith) (omega arith)

  pub receive-retry : (s : Session A) → receiving retry s ≡ s
  unfolding receive
  receive-retry (reading a input) = refl
  receive-retry (closed a) = refl
  receive-retry blocked = refl
