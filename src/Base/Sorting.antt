-- ===== src/Base/Sorting.antt =====
-- `std::sort` with a comparison. Where two elements are equivalent the library leaves their order
-- open; here the one that stands first stays first.
use Prim.Native.Nat.{ℕ, ◌+◌}
use mathlib.Core.Path.{◌≡◌, refl}
use mathlib.Core.Bool.{Bool, true, false, ◌||◌}
use mathlib.Core.List.{List, [], ◌∷◌, Perm}
use mathlib.Core.List.Perm
use native.Mathlib.Omega.{arith}
use gpumemd.Base.Tests.{if◌then◌else◌, Bool-cases}
use gpumemd.Base.Lists.{All, any_of}
use mathlib.Core.Logic.{inl, inr}

abbrev pub sum_of {ℓ} : {A : Type ℓ} → (A → ℕ) → List A → ℕ
sum_of f [] = 0
sum_of f (x ∷ xs) = f x + sum_of f xs

module _ {ℓ} {A : Type ℓ} (less : A → A → Bool) where
  insert : A → List A → List A
  insert x [] = x ∷ []
  insert x (y ∷ ys) = if less x y then x ∷ y ∷ ys else y ∷ insert x ys

  unfoldable pub sort : List A → List A
  unfolding insert
  sort [] = []
  sort (x ∷ xs) = insert x (sort xs)

  -- No element is less than the one before it.
  abbrev Follows : A → List A → Type 0
  Follows x [] = Unit
  Follows x (y ∷ ys) = less y x ≡ false

  abbrev pub IsSorted : List A → Type 0
  IsSorted [] = Unit
  IsSorted (x ∷ xs) = Follows x xs × IsSorted xs

  insert-perm : (x : A) (xs : List A) → Perm (insert x xs) (x ∷ xs)
  unfolding insert
  insert-perm x [] = Perm.refl _
  insert-perm x (y ∷ ys) = elim (Bool-cases (less x y)) [
    | inl e ↦ rw e (Perm.refl _)
    | inr e ↦ rw e (Perm.trans (Perm.cons y (insert-perm x ys)) (Perm.swap x y ys))
  ]

  pub sort-perm : (xs : List A) → Perm (sort xs) xs
  unfolding sort
  sort-perm [] = Perm.refl _
  sort-perm (x ∷ xs) = Perm.trans (insert-perm x (sort xs)) (Perm.cons x (sort-perm xs))

  module _ (asym : (x y : A) → less x y ≡ true → less y x ≡ false) where
    Follows-insert :
        (y x : A) (xs : List A) → less x y ≡ false → Follows y xs → Follows y (insert x xs)
    unfolding insert
    Follows-insert y x [] h f = h
    Follows-insert y x (z ∷ zs) h f = ground arith

    insert-IsSorted : (x : A) (xs : List A) → IsSorted xs → IsSorted (insert x xs)
    unfolding insert
    insert-IsSorted x [] h = (tt, tt)
    insert-IsSorted x (y ∷ ys) h = elim (Bool-cases (less x y)) [
      | inl e ↦ rw e (asym x y e, h)
      | inr e ↦ rw e (Follows-insert y x ys e h.0, insert-IsSorted x ys h.1)
    ]

    pub sort-IsSorted : (xs : List A) → IsSorted (sort xs)
    unfolding sort
    sort-IsSorted [] = tt
    sort-IsSorted (x ∷ xs) = insert-IsSorted x (sort xs) (sort-IsSorted xs)

  module _ {κ} (P : A → Type κ) where
    insert-All : (x : A) (xs : List A) → P x → All P xs → All P (insert x xs)
    unfolding insert
    insert-All x [] px h = (px, tt)
    insert-All x (y ∷ ys) px h = elim (Bool-cases (less x y)) [
      | inl e ↦ rw e (px, h)
      | inr e ↦ rw e (h.0, insert-All x ys px h.1)
    ]

    pub sort-All : (xs : List A) → All P xs → All P (sort xs)
    unfolding sort
    sort-All [] h = tt
    sort-All (x ∷ xs) h = insert-All x (sort xs) h.0 (sort-All xs h.1)

  module _ (f : A → ℕ) where
    insert-sum_of : (x : A) (xs : List A) → sum_of f (insert x xs) ≡ f x + sum_of f xs
    unfolding insert
    insert-sum_of x [] = refl
    insert-sum_of x (y ∷ ys) = ground (arith, insert-sum_of x ys)

    pub sort-sum_of : (xs : List A) → sum_of f (sort xs) ≡ sum_of f xs
    unfolding sort
    sort-sum_of [] = refl
    sort-sum_of (x ∷ xs) = omega (arith, insert-sum_of x (sort xs), sort-sum_of xs)

  module _ (p : A → Bool) where
    insert-any_of : (x : A) (xs : List A) → any_of p (insert x xs) ≡ (p x || any_of p xs)
    unfolding insert
    insert-any_of x [] = refl
    insert-any_of x (y ∷ ys) = ground (arith, insert-any_of x ys)

    -- Sorting loses nothing that a test would find.
    pub sort-any_of : (xs : List A) → any_of p (sort xs) ≡ any_of p xs
    unfolding sort
    sort-any_of [] = refl
    sort-any_of (x ∷ xs) = ground (arith, insert-any_of x (sort xs), sort-any_of xs)
