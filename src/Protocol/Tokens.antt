-- ===== src/Protocol/Tokens.antt =====
-- The tokens of a line.
use gpumemd.Base.{
  ℕ, ◌≡◌, refl, ap, ◌∙◌, sym, Bool, true, false, not, List, [], ◌∷◌, ◌++◌, append-nil, append_assoc,
  arith, Text, all_of, all_of-append, All, Bool-cases, inl, inr,
}
use gpumemd.Names.{valid_name, is_empty, is_name_char}
use gpumemd.Protocol.{is_blank, end_token, tokens_from, tokenize}

abbrev pub join : List Text → Text
join [] = []
join (token ∷ rest) = token ++ join rest

empty-nil : (text : Text) → is_empty text ≡ true → text ≡ []
empty-nil [] h = refl
empty-nil (c ∷ rest) h = absurd (ground arith)

-- Tokens with a space between them.
abbrev pub unwords : List Text → Text
unwords [] = []
unwords (token ∷ []) = token
unwords (token ∷ next ∷ rest) = token ++ b' ' ∷ unwords (next ∷ rest)

-- Fields with a character between them, however the concatenations nest.
pub append-fields :
    (c : ℕ) (x y z rest : Text) → x ++ c ∷ y ++ c ∷ z ++ rest ≡ x ++ c ∷ (y ++ c ∷ (z ++ rest))
append-fields c x y z rest =
    ap (λ t. t ++ rest) (append_assoc x (c ∷ y) (c ∷ z))
    ∙ append_assoc x (c ∷ (y ++ c ∷ z)) rest
    ∙ ap (λ t. x ++ c ∷ t) (append_assoc y (c ∷ z) rest)

module _ (blank : ℕ → Bool) where
  -- A text that is not empty and holds no blank.
  abbrev pub IsWord : Text → Type 0
  IsWord token = (is_empty token ≡ false) × (all_of (λ c. not (blank c)) token ≡ true)

  tokens_from-IsWord :
      (token line : Text)
      → all_of (λ c. not (blank c)) token ≡ true
      → All IsWord (tokens_from blank token line)
  unfolding tokens_from
  tokens_from-IsWord token [] h = elim (Bool-cases (is_empty token)) [
    | inl e ↦ rw e tt
    | inr e ↦ rw e ((e, h), tt)
  ]
  tokens_from-IsWord token (c ∷ rest) h = elim (Bool-cases (blank c)) [
    | inl b ↦ elim (Bool-cases (is_empty token)) [
      | inl e ↦ rw (tokens_from, b, e) (tokens_from-IsWord [] rest refl)
      | inr e ↦ rw (tokens_from, b, e) ((e, h), tokens_from-IsWord [] rest refl)
    ]
    | inr b ↦
        rw (tokens_from, b)
          (tokens_from-IsWord (token ++ c ∷ []) rest
            (ground (arith, all_of-append (λ d. not (blank d)) token (c ∷ []), b)))
  ]

  -- The characters of a line without its blanks.
  unfoldable pub squeeze : Text → Text
  squeeze [] = []
  squeeze (c ∷ rest) = elim (blank c) [ true ↦ squeeze rest | false ↦ c ∷ squeeze rest ]

  join-tokens_from :
      (token line : Text) → join (tokens_from blank token line) ≡ token ++ squeeze line
  unfolding tokens_from squeeze
  join-tokens_from token [] = elim (Bool-cases (is_empty token)) [
    | inl e ↦ rw e (ground (arith, append-nil token, empty-nil token e))
    | inr e ↦ rw e refl
  ]
  join-tokens_from token (c ∷ rest) = elim (Bool-cases (blank c)) [
    | inr b ↦
        rw (tokens_from, squeeze, b)
          (join-tokens_from (token ++ c ∷ []) rest ∙ append_assoc token (c ∷ []) (squeeze rest))
    | inl b ↦ elim (Bool-cases (is_empty token)) [
      | inl e ↦
          rw (tokens_from, squeeze, b, e)
            (join-tokens_from [] rest ∙ ap (λ t. t ++ squeeze rest) (sym (empty-nil token e)))
      | inr e ↦ rw (tokens_from, squeeze, b, e) (ap (λ t. token ++ t) (join-tokens_from [] rest))
    ]
  ]

  tokens_from-append :
      (start token rest : Text)
      → all_of (λ c. not (blank c)) token ≡ true
      → tokens_from blank start (token ++ rest) ≡ tokens_from blank (start ++ token) rest
  unfolding tokens_from
  tokens_from-append start [] rest h = ap (λ t. tokens_from blank t rest) (sym (append-nil start))
  tokens_from-append start (c ∷ token) rest h =
      let open_char : blank c ≡ false = ground arith in
      rw (tokens_from, open_char)
        (tokens_from-append (start ++ c ∷ []) token rest (ground arith)
          ∙ ap (λ t. tokens_from blank t rest) (append_assoc start (c ∷ []) token))

  -- Tokens that are joined by spaces are told apart again, if what follows only ends the last one.
  pub tokens_from-unwords :
      (tokens : List Text) (tail : Text)
      → blank b' ' ≡ true
      → ((token : Text) → tokens_from blank token tail ≡ end_token token [])
      → All IsWord tokens
      → tokens_from blank [] (unwords tokens ++ tail) ≡ tokens
  unfolding tokens_from
  tokens_from-unwords [] tail space ends a = ends []
  tokens_from-unwords (token ∷ []) tail space ends a =
      tokens_from-append [] token tail a.0.1 ∙ ends token ∙ ground (arith, a.0.0)
  tokens_from-unwords (token ∷ next ∷ rest) tail space ends a =
      ap (tokens_from blank []) (append_assoc token (b' ' ∷ unwords (next ∷ rest)) tail)
      ∙ tokens_from-append [] token (b' ' ∷ unwords (next ∷ rest) ++ tail) a.0.1
      ∙ rw (tokens_from, space)
          (ground (arith, a.0.0, tokens_from-unwords (next ∷ rest) tail space ends a.1))

abbrev pub IsToken : Text → Type 0
IsToken = IsWord is_blank

-- The tokens of a line are not empty and hold no blank, and one after the other they are the line
-- without its blanks.
pub tokenize_lem :
    (line : Text) → All IsToken (tokenize line) × (join (tokenize line) ≡ squeeze is_blank line)
unfolding tokenize
tokenize_lem line = (tokens_from-IsWord is_blank [] line refl, join-tokens_from is_blank [] line)

-- Tokens that are joined by spaces are told apart again.
pub tokenize-unwords :
    (tokens : List Text) → All IsToken tokens → tokenize (unwords tokens) ≡ tokens
unfolding tokenize tokens_from
tokenize-unwords tokens a =
    ap (tokens_from is_blank []) (sym (append-nil (unwords tokens)))
    ∙ tokens_from-unwords is_blank tokens [] refl (λ token. refl) a

name_chars-open :
    (name : Text) → all_of is_name_char name ≡ true → all_of (λ c. not (is_blank c)) name ≡ true
unfolding is_name_char
name_chars-open [] h = refl
name_chars-open (c ∷ rest) h = ground (arith, name_chars-open rest)

-- A valid name is a token.
pub valid_name-IsToken : (name : Text) → valid_name name ≡ true → IsToken name
unfolding valid_name
valid_name-IsToken name h = (ground arith, name_chars-open name (ground arith))
