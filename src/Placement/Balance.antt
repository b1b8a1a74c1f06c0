-- ===== src/Placement/Balance.antt =====
-- What the devices account for.
use gpumemd.Base.{
  ℕ, zero, suc, ◌+◌, ◌-◌, ◌^◌, ◌≤◌, ◌<◌, ◌≡◌, refl, subst, none, some, List, [], ◌∷◌, ◌++◌, map,
  arith, Text, length, get_elem?, set, find_if, ◌==◌, if◌then◌else◌, add64, sub64, add64_exact,
  sub64_exact, word, All, sum_of, Bool-cases, Option-cases, inl, inr,
}
use gpumemd.Placement.{
  Device, DevicePlacement, DevicePlacementRecord, create, room, select, to_uint32, has_model, put,
  place, remove, give_back, release,
}
use gpumemd.Placement.Selection.{Picked, select_least_used}

-- The bytes that are placed on a device.
abbrev pub load : ℕ → List DevicePlacementRecord → ℕ
load index = sum_of λ item. if item.device == index then item.bytes else 0

-- What each device says that it uses is what is placed on it, and no more than its capacity.
pub record IsBalanced (p : DevicePlacement) : Type 0 where
  pub few : length p.devices < 2 ^ 32
  pub words : All (λ device. device.capacity < word) p.devices
  pub accounted :
      (index : ℕ) (device : Device)
      → get_elem? p.devices index ≡ some device
      → (device.used ≡ load index p.placements) × (device.used ≤ device.capacity)

set-length {ℓ} : {A : Type ℓ} (xs : List A) (i : ℕ) (v : A) → length (set xs i v) ≡ length xs
set-length [] i v = refl
set-length (x ∷ xs) zero v = refl
set-length (x ∷ xs) (suc i) v = omega (arith, set-length xs i v)

get_elem?-set {ℓ} :
    {A : Type ℓ} (xs : List A) (i j : ℕ) (v : A) {old : A}
    → get_elem? xs i ≡ some old
    → get_elem? (set xs i v) j ≡ (if i == j then some v else get_elem? xs j)
get_elem?-set [] i j v e = cc
get_elem?-set (x ∷ xs) zero zero v e = ground arith
get_elem?-set (x ∷ xs) zero (suc j) v e = ground arith
get_elem?-set (x ∷ xs) (suc i) zero v e = ground arith
get_elem?-set (x ∷ xs) (suc i) (suc j) v e = ground (arith, get_elem?-set xs i j v e)

set-All {ℓ κ} :
    {A : Type ℓ} (P : A → Type κ) (xs : List A) (i : ℕ) (v : A)
    → All P xs
    → P v
    → All P (set xs i v)
set-All P [] i v h k = tt
set-All P (x ∷ xs) zero v h k = (k, h.1)
set-All P (x ∷ xs) (suc i) v h k = (h.0, set-All P xs i v h.1 k)

get_elem?-All {ℓ κ} :
    {A : Type ℓ} (P : A → Type κ) (xs : List A) (i : ℕ) (v : A)
    → All P xs
    → get_elem? xs i ≡ some v
    → P v
get_elem?-All P [] i v h e = absurd (ground arith)
get_elem?-All P (x ∷ xs) zero v h e = subst P (ground arith) h.0
get_elem?-All P (x ∷ xs) (suc i) v h e = get_elem?-All P xs i v h.1 e

get_elem?-length {ℓ} :
    {A : Type ℓ} (xs : List A) (i : ℕ) {v : A} → get_elem? xs i ≡ some v → i < length xs
get_elem?-length [] i e = absurd (ground arith)
get_elem?-length (x ∷ xs) zero e = omega arith
get_elem?-length (x ∷ xs) (suc i) e = omega (arith, get_elem?-length xs i e)

load-append :
    (index : ℕ) (items : List DevicePlacementRecord) (item : DevicePlacementRecord)
    → load index (items ++ item ∷ [])
      ≡ load index items + (if item.device == index then item.bytes else 0)
load-append index [] item = omega arith
load-append index (first ∷ items) item = omega (arith, load-append index items item)

put-IsBalanced :
    (model_id : Text) (bytes index : ℕ) (device : Device) {p : DevicePlacement}
    → IsBalanced p
    → get_elem? p.devices index ≡ some device
    → bytes ≤ room device
    → IsBalanced (put model_id bytes index device p)
put-IsBalanced model_id bytes index device {p} v at fits =
    let own = v.accounted index device at in
    let big = get_elem?-All (λ d. d.capacity < word) p.devices index device v.words at in
    let left : room device ≡ device.capacity - device.used =
      sub64_exact device.capacity device.used own.1 big in
    let more : add64 device.used bytes ≡ device.used + bytes =
      add64_exact device.used bytes (omega (arith, left, own.1, big)) in
    let small : to_uint32 index ≡ index =
      omega (arith, get_elem?-length p.devices index at, v.few) in
    let new : Device = record device { used = add64 device.used bytes } in
    record {
      few = omega (arith, set-length p.devices index new, v.few);
      words = set-All (λ d. d.capacity < word) p.devices index new v.words big;
      accounted = λ other found e.
          let item : DevicePlacementRecord = record {
            model_id = model_id;
            device = to_uint32 index;
            bytes = bytes;
          } in
          let listed = load-append other p.placements item in
          elim (Bool-cases (index == other)) [
            | inl same ↦
                let is_new : new ≡ found =
                  ground (arith, get_elem?-set p.devices index other new at) in
                let here : index ≡ other = ground arith in
                let now : found.used ≡ device.used + bytes = ground (arith, more) in
                let top : found.capacity ≡ device.capacity = ground arith in
                let mine : device.used ≡ load other p.placements = rw here at own.0 in
                (ground (arith, now, listed, small, mine), omega (arith, now, top, left, own.1))
            | inr differs ↦
                let old =
                  v.accounted other found
                    (ground (arith, get_elem?-set p.devices index other new at)) in
                (ground (arith, old.0, listed, small), old.1)
          ];
    }

place-IsBalanced :
    (model_id : Text) (bytes : ℕ) {p : DevicePlacement}
    → IsBalanced p
    → IsBalanced (place model_id bytes p).0
unfolding place
place-IsBalanced model_id bytes {p} v = elim (Option-cases (select bytes 0 p.devices none)) [
  | inl e ↦ ground arith
  | inr ((index, device), e) ↦
      let picked : Picked bytes p.devices (some (index, device)) =
        rw e at (select_least_used bytes p.devices).0 in
      ground (arith, put-IsBalanced model_id bytes index device v picked.0 picked.1)
]

load-remove :
    (index : ℕ) (model_id : Text) (items : List DevicePlacementRecord)
    (item : DevicePlacementRecord)
    → find_if (has_model model_id) items ≡ some item
    → load index items
      ≡ (if item.device == index then item.bytes else 0) + load index (remove model_id items)
unfolding remove
load-remove index model_id [] item e = cc
load-remove index model_id (first ∷ rest) item e = elim (Bool-cases (has_model model_id first)) [
  | inl f ↦ let same : first ≡ item = ground arith in rw (remove, f, same) refl
  | inr f ↦ rw (remove, f) (omega (arith, load-remove index model_id rest item (ground arith)))
]

taken-IsBalanced :
    (model_id : Text) (item : DevicePlacementRecord) {p : DevicePlacement}
    → IsBalanced p
    → find_if (has_model model_id) p.placements ≡ some item
    → IsBalanced (record {
      devices = give_back item.device item.bytes p.devices;
      placements = remove model_id p.placements;
    })
taken-IsBalanced model_id item {p} v e = elim (Option-cases (get_elem? p.devices item.device)) [
  | inl f ↦
      rw (give_back, f)
        (record {
          few = v.few;
          words = v.words;
          accounted = λ other found at.
              let old = v.accounted other found at in
              let less = load-remove other model_id p.placements item e in
              elim (Bool-cases (item.device == other)) [
                | inl same ↦
                    let here : item.device ≡ other = ground arith in
                    absurd (ground (arith, rw here at f))
                | inr differs ↦ (ground (arith, old.0, less), old.1)
              ];
        })
  | inr (device, f) ↦
      let new : Device = record device { used = sub64 device.used item.bytes } in
      let own = v.accounted item.device device f in
      let big = get_elem?-All (λ d. d.capacity < word) p.devices item.device device v.words f in
      let mine = load-remove item.device model_id p.placements item e in
      let enough : item.bytes ≤ device.used = ground (arith, own.0, mine) in
      let less : sub64 device.used item.bytes ≡ device.used - item.bytes =
        sub64_exact device.used item.bytes enough (omega (arith, own.1, big)) in
      rw (give_back, f)
        (record {
          few = omega (arith, set-length p.devices item.device new, v.few);
          words = set-All (λ d. d.capacity < word) p.devices item.device new v.words big;
          accounted = λ other found at.
              let written = get_elem?-set p.devices item.device other new f in
              let listed = load-remove other model_id p.placements item e in
              elim (Bool-cases (item.device == other)) [
                | inl same ↦
                    let here : item.device ≡ other = ground arith in
                    let now : found.used ≡ device.used - item.bytes =
                      ground (arith, written, less) in
                    let top : found.capacity ≡ device.capacity = ground (arith, written) in
                    let before : device.used ≡ load other p.placements = rw here at own.0 in
                    (ground (arith, now, listed, before, enough), omega (arith, now, top, own.1))
                | inr differs ↦
                    let old = v.accounted other found (ground (arith, written)) in
                    (ground (arith, old.0, listed), old.1)
              ];
        })
]

release-IsBalanced :
    (model_id : Text) {p : DevicePlacement} → IsBalanced p → IsBalanced (release model_id p).0
unfolding release
release-IsBalanced model_id {p} v =
    elim (Option-cases (find_if (has_model model_id) p.placements)) [
      | inl e ↦ rw (release, e) v
      | inr (item, e) ↦ rw (release, e) (taken-IsBalanced model_id item v e)
    ]

pub data Call : Type 0 where
  places : Text → ℕ → Call
  releases : Text → Call

pub step : DevicePlacement → Call → DevicePlacement
step p (places model_id bytes) = (place model_id bytes p).0
step p (releases model_id) = (release model_id p).0

pub run : DevicePlacement → List Call → DevicePlacement
run p [] = p
run p (call ∷ calls) = run (step p call) calls

run-keeps : (calls : List Call) {p : DevicePlacement} → IsBalanced p → IsBalanced (run p calls)
unfolding run step
run-keeps [] v = v
run-keeps (places model_id bytes ∷ calls) v = run-keeps calls (place-IsBalanced model_id bytes v)
run-keeps (releases model_id ∷ calls) v = run-keeps calls (release-IsBalanced model_id v)

abbrev unused : ℕ → Device
unused value = record { capacity = value; used = 0 }

unused-length : (capacities : List ℕ) → length (map unused capacities) ≡ length capacities
unused-length [] = refl
unused-length (capacity ∷ capacities) = omega (arith, unused-length capacities)

unused-words :
    (capacities : List ℕ)
    → All (λ capacity. capacity < word) capacities
    → All (λ device. device.capacity < word) (map unused capacities)
unused-words [] a = tt
unused-words (capacity ∷ capacities) a = (a.0, unused-words capacities a.1)

unused-used :
    (capacities : List ℕ) (index : ℕ) (device : Device)
    → get_elem? (map unused capacities) index ≡ some device
    → device.used ≡ 0
unused-used [] index device e = cc
unused-used (capacity ∷ capacities) zero device e = ground arith
unused-used (capacity ∷ capacities) (suc index) device e = unused-used capacities index device e

create-IsBalanced :
    (capacities : List ℕ) {p : DevicePlacement}
    → length capacities < 2 ^ 32
    → All (λ capacity. capacity < word) capacities
    → create capacities ≡ some p
    → IsBalanced p
unfolding create
create-IsBalanced [] l a e = cc
create-IsBalanced (capacity ∷ capacities) {p} l a e =
    let is_new : record { devices = map unused (capacity ∷ capacities); placements = [] } ≡ p =
      ground arith in
    subst IsBalanced is_new (record {
      few = omega (arith, unused-length capacities, l);
      words = unused-words (capacity ∷ capacities) a;
      accounted = λ index device at.
          let none_used = unused-used (capacity ∷ capacities) index device at in
          (omega (arith, none_used), omega (arith, none_used));
    })

-- Whatever is placed and released, on devices with 64-bit capacities of which there are fewer
-- than 2 ^ 32, each device uses exactly the bytes of the models placed on it, and no more than its
-- capacity.
pub run-IsBalanced :
    (capacities : List ℕ) (calls : List Call) (p : DevicePlacement)
    → length capacities < 2 ^ 32
    → All (λ capacity. capacity < word) capacities
    → create capacities ≡ some p
    → IsBalanced (run p calls)
run-IsBalanced capacities calls p l a e = run-keeps calls (create-IsBalanced capacities l a e)
