-- ===== src/Placement/Selection.antt =====
-- Which device a model is placed on.
use gpumemd.Base.{
  ℕ, suc, ◌≤◌, ◌<◌, ◌≡◌, ◌⊎◌, refl, ◌&&◌, Option, none, some, List, [], ◌∷◌, arith, get_elem?, drop,
  drop-suc, leb, if◌then◌else◌, All,
}
use gpumemd.Placement.{Device, room, is_better, select}

abbrev pub Picked : ℕ → List Device → Option (ℕ × Device) → Type 0
Picked bytes devices none = Unit
Picked bytes devices (some (index, device)) =
    (get_elem? devices index ≡ some device) × (bytes ≤ room device)

-- Whether `other` may be passed over: it has no room, or it is used no less.
abbrev pub PassedOver : ℕ → Option (ℕ × Device) → Device → Type 0
PassedOver bytes none other = room other < bytes
PassedOver bytes (some (index, device)) other = (room other < bytes) ⊎ (device.used ≤ other.used)

abbrev round : ℕ → ℕ → Device → Option (ℕ × Device) → Option (ℕ × Device)
round bytes index device selected =
    if leb bytes (room device) && is_better device selected then some (index, device) else selected

module _ (bytes : ℕ) (devices : List Device) where
  round-Picked :
      (index : ℕ) (device : Device) (selected : Option (ℕ × Device))
      → get_elem? devices index ≡ some device
      → Picked bytes devices selected
      → Picked bytes devices (round bytes index device selected)
  round-Picked index device none at c = ground arith
  round-Picked index device (some (i, s)) at c = ground arith

  select-Picked :
      (index : ℕ) (rest : List Device) (selected : Option (ℕ × Device))
      → drop index devices ≡ rest
      → Picked bytes devices selected
      → Picked bytes devices (select bytes index rest selected)
  unfolding select
  select-Picked index [] selected d c = c
  select-Picked index (device ∷ rest) selected d c =
      let (d', at) = drop-suc index devices rest d in
      select-Picked (suc index) rest _ d' (round-Picked index device selected at c)

  round-PassedOver :
      (index : ℕ) (device other : Device) (selected : Option (ℕ × Device))
      → PassedOver bytes selected other
      → PassedOver bytes (round bytes index device selected) other
  round-PassedOver index device other none p = ground arith
  round-PassedOver index device other (some (i, s)) p = ground arith

  round-PassedOver_self :
      (index : ℕ) (device : Device) (selected : Option (ℕ × Device))
      → PassedOver bytes (round bytes index device selected) device
  round-PassedOver_self index device none = ground arith
  round-PassedOver_self index device (some (i, s)) = ground arith

  select-PassedOver :
      (index : ℕ) (rest : List Device) (selected : Option (ℕ × Device)) (other : Device)
      → PassedOver bytes selected other
      → PassedOver bytes (select bytes index rest selected) other
  unfolding select
  select-PassedOver index [] selected other p = p
  select-PassedOver index (device ∷ rest) selected other p =
      select-PassedOver (suc index) rest _ other (round-PassedOver index device other selected p)

  select-All :
      (index : ℕ) (rest : List Device) (selected : Option (ℕ × Device))
      → All (PassedOver bytes (select bytes index rest selected)) rest
  unfolding select
  select-All index [] selected = tt
  select-All index (device ∷ rest) selected = (
    select-PassedOver (suc index) rest _ device (round-PassedOver_self index device selected),
    select-All (suc index) rest _,
  )

-- `place` picks a device with room for the model, of those the one that is used least; it picks none
-- only if no device has room.
pub select_least_used :
    (bytes : ℕ) (devices : List Device)
    → Picked bytes devices (select bytes 0 devices none)
      × All (PassedOver bytes (select bytes 0 devices none)) devices
select_least_used bytes devices =
    (select-Picked bytes devices 0 devices none refl tt, select-All bytes devices 0 devices none)
