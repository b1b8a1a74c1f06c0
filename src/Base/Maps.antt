-- ===== src/Base/Maps.antt =====
-- `std::unordered_map<std::string, V>` as an association list. The order of iteration, which the
-- library leaves open, is the order of the list.
use Prim.Native.Nat.{ℕ, ◌+◌, ◌≤◌}
use mathlib.Core.Path.{◌≡◌, refl}
use mathlib.Core.Bool.{Bool, true, false, ◌||◌}
use mathlib.Core.Option.{Option, none, some}
use mathlib.Core.List.{List, [], ◌∷◌}
use native.Mathlib.Omega.{arith}
use gpumemd.Base.Tests.{if◌then◌else◌}
use gpumemd.Base.Texts.{Text, text_eq, text_eq_iff}

module _ {ℓ} {V : Type ℓ} where
  -- `m.find(k)`: `none` is `m.end()`
  unfoldable pub find : Text → List (Text × V) → Option V
  find k [] = none
  find k ((j, v) ∷ m) = if text_eq j k then some v else find k m

  abbrev pub is_some : Option V → Bool
  is_some none = false
  is_some (some v) = true

  unfoldable pub contains : Text → List (Text × V) → Bool
  contains k [] = false
  contains k ((j, v) ∷ m) = text_eq j k || contains k m

  -- `m.emplace(k, v)`: a key that is there keeps its value
  unfoldable pub emplace : Text → V → List (Text × V) → List (Text × V)
  unfolding contains
  emplace k v m = if contains k m then m else (k, v) ∷ m

  -- `m[k] = v`, and a write through `m.find(k)->second`
  unfoldable pub assign : Text → V → List (Text × V) → List (Text × V)
  assign k v [] = (k, v) ∷ []
  assign k v ((j, w) ∷ m) = if text_eq j k then (j, v) ∷ m else (j, w) ∷ assign k v m

  unfoldable pub erase : Text → List (Text × V) → List (Text × V)
  erase k [] = []
  erase k ((j, v) ∷ m) = if text_eq j k then m else (j, v) ∷ erase k m

  -- Every key stands once.
  abbrev pub Unique : List (Text × V) → Type 0
  Unique [] = Unit
  Unique ((k, v) ∷ m) = (contains k m ≡ false) × Unique m

  pub contains-find : (k : Text) (m : List (Text × V)) → contains k m ≡ is_some (find k m)
  unfolding contains find
  contains-find k [] = refl
  contains-find k ((j, v) ∷ m) = ground (arith, contains-find k m)

  pub contains-emplace :
      (k j : Text) (v : V) (m : List (Text × V))
      → contains j (emplace k v m) ≡ (text_eq k j || contains j m)
  unfolding emplace
  contains-emplace k j v m = ground (arith, text_eq_iff k j)

  pub find-emplace :
      (k j : Text) (v : V) (m : List (Text × V))
      → contains k m ≡ false
      → find j (emplace k v m) ≡ (if text_eq k j then some v else find j m)
  unfolding emplace find
  find-emplace k j v m h = rw h

  pub contains-erase :
      (k j : Text) (m : List (Text × V)) → contains j m ≡ false → contains j (erase k m) ≡ false
  unfolding contains erase
  contains-erase k j [] h = refl
  contains-erase k j ((i, v) ∷ m) h = ground (arith, contains-erase k j m)

  pub contains-erase_ne :
      (k j : Text) (m : List (Text × V))
      → text_eq k j ≡ false
      → contains j (erase k m) ≡ contains j m
  unfolding contains erase
  contains-erase_ne k j [] h = refl
  contains-erase_ne k j ((i, v) ∷ m) h =
      ground (arith, contains-erase_ne k j m, text_eq_iff i k, text_eq_iff i j, text_eq_iff k j)

  pub contains-erase_self :
      (k : Text) (m : List (Text × V)) → Unique m → contains k (erase k m) ≡ false
  unfolding contains erase
  contains-erase_self k [] u = refl
  contains-erase_self k ((i, v) ∷ m) u =
      ground (arith, contains-erase_self k m u.1, text_eq_iff i k)

  pub find-erase_ne :
      (k j : Text) (m : List (Text × V)) → text_eq k j ≡ false → find j (erase k m) ≡ find j m
  unfolding find erase
  find-erase_ne k j [] h = refl
  find-erase_ne k j ((i, v) ∷ m) h =
      ground (arith, find-erase_ne k j m, text_eq_iff i k, text_eq_iff i j, text_eq_iff k j)

  pub find-erase_self : (k : Text) (m : List (Text × V)) → Unique m → find k (erase k m) ≡ none
  find-erase_self k m u = ground (arith, contains-erase_self k m u, contains-find k (erase k m))

  pub find-assign :
      (k j : Text) (v : V) (m : List (Text × V))
      → find j (assign k v m) ≡ (if text_eq k j then some v else find j m)
  unfolding find assign
  find-assign k j v [] = refl
  find-assign k j v ((i, w) ∷ m) =
      ground (arith, find-assign k j v m, text_eq_iff i k, text_eq_iff i j, text_eq_iff k j)

  pub contains-assign :
      (k j : Text) (v : V) (m : List (Text × V))
      → contains j (assign k v m) ≡ (text_eq k j || contains j m)
  contains-assign k j v m =
      ground (arith, contains-find j (assign k v m), contains-find j m, find-assign k j v m)

  pub Unique-emplace : (k : Text) (v : V) (m : List (Text × V)) → Unique m → Unique (emplace k v m)
  unfolding emplace
  Unique-emplace k v m u = ground arith

  pub Unique-erase : (k : Text) (m : List (Text × V)) → Unique m → Unique (erase k m)
  unfolding erase
  Unique-erase k [] u = tt
  Unique-erase k ((i, v) ∷ m) u = ground (arith, Unique-erase k m u.1, contains-erase k i m u.0)

  pub Unique-assign : (k : Text) (v : V) (m : List (Text × V)) → Unique m → Unique (assign k v m)
  unfolding assign
  Unique-assign k v [] u = unfold contains in (refl, tt)
  Unique-assign k v ((i, w) ∷ m) u =
      ground
        (arith, Unique-assign k v m u.1, contains-assign k i v m, text_eq_iff i k, text_eq_iff k i)

module _ {ℓ} {V : Type ℓ} (size : V → ℕ) where
  -- The sum of a measure over the values.
  abbrev pub total : List (Text × V) → ℕ
  total [] = 0
  total ((k, v) ∷ m) = size v + total m

  pub total-emplace :
      (k : Text) (v : V) (m : List (Text × V))
      → contains k m ≡ false
      → total (emplace k v m) ≡ total m + size v
  unfolding emplace
  total-emplace k v m h = rw h (omega arith)

  pub total-erase :
      (k : Text) (v : V) (m : List (Text × V))
      → find k m ≡ some v
      → total (erase k m) + size v ≡ total m
  unfolding find erase
  total-erase k v [] h = cc
  total-erase k v ((i, w) ∷ m) h = ground (arith, total-erase k v m, text_eq_iff i k)

  pub le-total : (k : Text) (v : V) (m : List (Text × V)) → find k m ≡ some v → size v ≤ total m
  le-total k v m h = omega (arith, total-erase k v m h)
