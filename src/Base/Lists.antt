-- ===== src/Base/Lists.antt =====
-- Lists measured and indexed by native numbers, and predicates on every element.
use Prim.Native.Nat.{ℕ, zero, suc, ◌+◌}
use mathlib.Core.Path.{◌≡◌, refl, subst}
use mathlib.Core.Bool.{Bool, true, false, ◌&&◌, ◌||◌}
use mathlib.Core.List.{List, [], ◌∷◌, ◌++◌}
use mathlib.Core.Option.{Option, none, some}
use mathlib.Core.Logic.{inl, inr}
use native.Mathlib.Omega.{arith}
use gpumemd.Base.Tests.{Bool-cases}

module _ {ℓ} {A : Type ℓ} where
  abbrev pub length : List A → ℕ
  length [] = 0
  length (x ∷ xs) = suc (length xs)

  abbrev pub get_elem? : List A → ℕ → Option A
  get_elem? [] i = none
  get_elem? (x ∷ xs) zero = some x
  get_elem? (x ∷ xs) (suc i) = get_elem? xs i

  -- `v.erase(v.begin() + i)`
  abbrev pub erase_at : ℕ → List A → List A
  erase_at i [] = []
  erase_at zero (x ∷ xs) = xs
  erase_at (suc i) (x ∷ xs) = x ∷ erase_at i xs

  -- A write out of bounds changes nothing.
  abbrev pub set : List A → ℕ → A → List A
  set [] i v = []
  set (x ∷ xs) zero v = v ∷ xs
  set (x ∷ xs) (suc i) v = x ∷ set xs i v

  abbrev pub take : ℕ → List A → List A
  take zero xs = []
  take (suc n) [] = []
  take (suc n) (x ∷ xs) = x ∷ take n xs

  abbrev pub drop : ℕ → List A → List A
  drop zero xs = xs
  drop (suc n) [] = []
  drop (suc n) (x ∷ xs) = drop n xs

  -- std::all_of and std::any_of
  abbrev pub all_of : (A → Bool) → List A → Bool
  all_of p [] = true
  all_of p (x ∷ xs) = p x && all_of p xs

  abbrev pub any_of : (A → Bool) → List A → Bool
  any_of p [] = false
  any_of p (x ∷ xs) = p x || any_of p xs

  -- std::find_if
  abbrev pub find_if : (A → Bool) → List A → Option A
  find_if p [] = none
  find_if p (x ∷ xs) = elim (p x) [ true ↦ some x | false ↦ find_if p xs ]

  pub find_if-any_of :
      (p : A → Bool) (xs : List A)
      → any_of p xs ≡ true
      → (x : A) × (find_if p xs ≡ some x) × (p x ≡ true)
  find_if-any_of p [] h = absurd (ground arith)
  find_if-any_of p (x ∷ xs) h = elim (Bool-cases (p x)) [
    | inl e ↦ (x, rw (e, find_if), e)
    | inr e ↦
        let (y, found, fits) = find_if-any_of p xs (rw e at h) in (y, rw (e, find_if) found, fits)
  ]

  pub all_of-weaken :
      (p q : A → Bool) (xs : List A)
      → ((x : A) → p x ≡ true → q x ≡ true)
      → all_of p xs ≡ true
      → all_of q xs ≡ true
  all_of-weaken p q [] h k = refl
  all_of-weaken p q (x ∷ xs) h k = ground (arith, h x, all_of-weaken p q xs h)

  pub length-append : (xs ys : List A) → length (xs ++ ys) ≡ length xs + length ys
  length-append [] ys = omega arith
  length-append (x ∷ xs) ys = omega (arith, length-append xs ys)

  pub length-erase_at :
      (i : ℕ) (xs : List A) {x : A}
      → get_elem? xs i ≡ some x
      → length (erase_at i xs) + 1 ≡ length xs
  length-erase_at i [] h = ground arith
  length-erase_at zero (x ∷ xs) h = omega arith
  length-erase_at (suc i) (x ∷ xs) h = omega (arith, length-erase_at i xs h)

module _ {ℓ κ} {A : Type ℓ} (P : A → Type κ) where
  abbrev pub All : List A → Type κ
  All [] = Unit
  All (x ∷ xs) = P x × All xs

  pub All-append : (xs ys : List A) → All xs → All ys → All (xs ++ ys)
  All-append [] ys _ hy = hy
  All-append (x ∷ xs) ys (px, hx) hy = (px, All-append xs ys hx hy)

  pub All-erase_at : (i : ℕ) (xs : List A) → All xs → All (erase_at i xs)
  All-erase_at i [] h = tt
  All-erase_at zero (x ∷ xs) h = h.1
  All-erase_at (suc i) (x ∷ xs) h = (h.0, All-erase_at i xs h.1)

  pub All-get : (xs : List A) (i : ℕ) {x : A} → All xs → get_elem? xs i ≡ some x → P x
  All-get [] i h e = absurd (ground arith)
  All-get (y ∷ xs) zero h e = ground (arith, h.0)
  All-get (y ∷ xs) (suc i) h e = All-get xs i h.1 e

  pub All-find_if :
      (p : A → Bool) (xs : List A) {x : A} → All xs → find_if p xs ≡ some x → P x × (p x ≡ true)
  All-find_if p [] h e = absurd (ground arith)
  All-find_if p (y ∷ xs) {x} h e = elim (Bool-cases (p y)) [
    | inl t ↦ let same : y ≡ x = ground arith in (subst P same h.0, subst (λ z. p z ≡ true) same t)
    | inr f ↦ All-find_if p xs h.1 (ground arith)
  ]

pub find_if-none {ℓ} :
    {A : Type ℓ} (p : A → Bool) (xs : List A) → find_if p xs ≡ none → any_of p xs ≡ false
find_if-none p [] h = refl
find_if-none p (x ∷ xs) h = ground (arith, find_if-none p xs)

pub drop-suc {ℓ} :
    {A : Type ℓ} (i : ℕ) (xs rest : List A) {x : A}
    → drop i xs ≡ x ∷ rest
    → (drop (suc i) xs ≡ rest) × (get_elem? xs i ≡ some x)
drop-suc zero [] rest h = ground arith
drop-suc zero (y ∷ xs) rest h = ground arith
drop-suc (suc i) [] rest h = ground arith
drop-suc (suc i) (y ∷ xs) rest h = drop-suc i xs rest h

pub all_of-append {ℓ} :
    {A : Type ℓ} (p : A → Bool) (xs ys : List A)
    → all_of p (xs ++ ys) ≡ (all_of p xs && all_of p ys)
all_of-append p [] ys = refl
all_of-append p (x ∷ xs) ys = ground (arith, all_of-append p xs ys)
