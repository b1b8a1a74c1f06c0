-- ===== src/Placement.antt =====
-- include/gpumemd/device_placement.hpp and src/core/device_placement.cpp: models on several devices.
pub mod Selection
pub mod Balance
use gpumemd.Base.{
  ℕ, suc, ◌+◌, ◌%◌, ◌^◌, Bool, true, false, not, ◌||◌, ◌&&◌, Option, none, some, List, [], ◌∷◌,
  ◌++◌, map, Text, text_eq, text_lt, length, get_elem?, set, any_of, find_if, ltb, leb, ◌==◌,
  if◌then◌else◌, add64, sub64, sort,
}
use gpumemd.Names.{is_empty}

pub data PlacementError : Type 0 where
  ok invalid_device invalid_model invalid_size duplicate_model unknown_model : PlacementError
  insufficient_memory : PlacementError

pub record PlacementResult : Type 0 where
  pub error : PlacementError
  pub device : ℕ

abbrev pub failed : PlacementError → PlacementResult
failed e = record { error = e; device = 0 }

abbrev pub placed : ℕ → PlacementResult
placed device = record { error = ok; device = device }

pub record DevicePlacementRecord : Type 0 where
  pub model_id : Text
  pub device : ℕ
  pub bytes : ℕ

pub record Device : Type 0 where
  pub capacity : ℕ
  pub used : ℕ

pub record DevicePlacement : Type 0 where
  pub devices : List Device
  pub placements : List DevicePlacementRecord

-- The constructor throws without a device or at a device of capacity 0.
unfoldable pub create : List ℕ → Option DevicePlacement
create [] = none
create (capacity ∷ capacities) =
    if any_of (λ value. value == 0) (capacity ∷ capacities)
    then none
    else some (record {
      devices = map (λ value. record { capacity = value; used = 0 }) (capacity ∷ capacities);
      placements = [];
    })

abbrev pub room : Device → ℕ
room device = sub64 device.capacity device.used

abbrev pub is_better : Device → Option (ℕ × Device) → Bool
is_better device none = true
is_better device (some (index, selected)) = ltb device.used selected.used

-- The loop over the devices from `index` on; `selected == devices_.size()` is `none`.
unfoldable pub select : ℕ → ℕ → List Device → Option (ℕ × Device) → Option (ℕ × Device)
select bytes index [] selected = selected
select bytes index (device ∷ rest) selected = select bytes (suc index) rest (
    if leb bytes (room device) && is_better device selected then some (index, device) else selected)

-- `static_cast<std::uint32_t>`
abbrev pub to_uint32 : ℕ → ℕ
to_uint32 n = n % 2 ^ 32

abbrev pub has_model : Text → DevicePlacementRecord → Bool
has_model model_id item = text_eq item.model_id model_id

abbrev pub put : Text → ℕ → ℕ → Device → DevicePlacement → DevicePlacement
put model_id bytes index device p = record {
  devices = set p.devices index (record device { used = add64 device.used bytes });
  placements =
      p.placements ++ record { model_id = model_id; device = to_uint32 index; bytes = bytes } ∷ [];
}

unfoldable pub place : Text → ℕ → DevicePlacement → DevicePlacement × PlacementResult
unfolding select
place model_id bytes p =
    if is_empty model_id || ltb 64 (length model_id)
    then (p, failed invalid_model)
    else if bytes == 0
    then (p, failed invalid_size)
    else if any_of (has_model model_id) p.placements
    then (p, failed duplicate_model)
    else elim (select bytes 0 p.devices none) [
      | none ↦ (p, failed insufficient_memory)
      | some (index, device) ↦ (put model_id bytes index device p, placed (to_uint32 index))
    ]

-- `placements_.erase(iterator)` for the first placement of that model
unfoldable pub remove : Text → List DevicePlacementRecord → List DevicePlacementRecord
remove model_id [] = []
remove model_id (item ∷ rest) = elim (has_model model_id item) [
  | true ↦ rest
  | false ↦ item ∷ remove model_id rest
]

-- `devices_[index].used -= bytes`
abbrev pub give_back : ℕ → ℕ → List Device → List Device
give_back index bytes devices = elim (get_elem? devices index) [
  | none ↦ devices
  | some device ↦ set devices index (record device { used = sub64 device.used bytes })
]

unfoldable pub release : Text → DevicePlacement → DevicePlacement × PlacementResult
unfolding remove
release model_id p = elim (find_if (has_model model_id) p.placements) [
  | none ↦ (p, failed unknown_model)
  | some item ↦ (
    record {
      devices = give_back item.device item.bytes p.devices;
      placements = remove model_id p.placements;
    },
    placed item.device,
  )
]

pub record DeviceSnapshot : Type 0 where
  pub id : ℕ
  pub capacity : ℕ
  pub used : ℕ
  pub free : ℕ

unfoldable pub device_snapshots : ℕ → List Device → List DeviceSnapshot
device_snapshots index [] = []
device_snapshots index (device ∷ rest) =
    record {
      id = to_uint32 index;
      capacity = device.capacity;
      used = device.used;
      free = room device;
    }
    ∷ device_snapshots (suc index) rest

abbrev pub by_model : DevicePlacementRecord → DevicePlacementRecord → Bool
by_model left right = text_lt left.model_id right.model_id

pub record PlacementSnapshot : Type 0 where
  pub devices : List DeviceSnapshot
  pub placements : List DevicePlacementRecord

unfoldable pub snapshot : DevicePlacement → PlacementSnapshot
unfolding device_snapshots
snapshot p = record {
  devices = device_snapshots 0 p.devices;
  placements = sort by_model p.placements;
}
