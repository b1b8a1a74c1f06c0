-- ===== src/Examples/Stores.antt =====
-- The theorems on the allocator, the placement on devices and the nodes at concrete inputs.
use gpumemd.Base.{◌<◌, ◌≡◌, ◌⊎◌, refl, none, List, [], ◌∷◌, codes, arith, All}
use gpumemd.Names.{valid_name}
use gpumemd.Allocator
use gpumemd.Allocator.{
  Allocator, pool, allocate, allocate_pool, carve, allocated, failed, ok, out_of_memory,
}
use gpumemd.Allocator.Pool
use gpumemd.Allocator.Pool.{IsPool, allocates, held, create-IsPool, run-IsPool}
use gpumemd.Allocator.Serving.{allocate_fresh, allocate_serves}
use gpumemd.Placement
use gpumemd.Placement.{Device, DevicePlacement}
use gpumemd.Placement.Balance
use gpumemd.Placement.Balance.{IsBalanced, places, run-IsBalanced}
use gpumemd.Placement.Selection.{Picked, PassedOver, select_least_used}
use gpumemd.Nodes.Usage
use gpumemd.Nodes.Usage.{IsNodes, registers, updates, run-IsNodes}
use gpumemd.Examples.Fixtures.{alice, bob}

abbrev fresh_pool : Allocator
fresh_pool = record {
  capacity = 100;
  strategy = pool;
  used = 0;
  direct_next_offset = 0;
  free_blocks = record { offset = 0; bytes = 100 } ∷ [];
  allocations = [];
}

abbrev pool_calls : List Pool.Call
pool_calls = allocates alice 30 ∷ allocates bob 20 ∷ Pool.releases alice ∷ allocates alice 10 ∷ []

run-IsPool_example : IsPool (Pool.run fresh_pool pool_calls)
unfolding Allocator.create
run-IsPool_example = run-IsPool 100 pool_calls fresh_pool (omega arith) refl

fresh_pool-IsPool : IsPool fresh_pool
unfolding Allocator.create
fresh_pool-IsPool = create-IsPool 100 (omega arith) refl

allocate_fresh_example :
    (held 7 fresh_pool.allocations ≡ 0)
    × (7 < fresh_pool.capacity)
    × (held 7 (allocate alice 30 fresh_pool).0.allocations ≡ 1)
unfolding allocate valid_name
allocate_fresh_example =
    allocate_fresh alice 30 0 7 fresh_pool fresh_pool-IsPool refl (omega arith) (omega arith)

allocate_serves_example :
    ((allocate alice 130 fresh_pool).1.error ≡ ok)
    ⊎ ((allocate alice 130 fresh_pool ≡ (fresh_pool, failed out_of_memory))
        × All (λ block. block.bytes < 130) fresh_pool.free_blocks)
unfolding valid_name
allocate_serves_example = allocate_serves alice 130 fresh_pool refl refl (omega arith) refl

abbrev two_devices : List Device
two_devices = record { capacity = 100; used = 40 } ∷ record { capacity = 50; used = 10 } ∷ []

select_least_used_example :
    Picked 30 two_devices (Placement.select 30 0 two_devices none)
    × All (PassedOver 30 (Placement.select 30 0 two_devices none)) two_devices
select_least_used_example = select_least_used 30 two_devices

abbrev two_unused : DevicePlacement
two_unused = record {
  devices = record { capacity = 100; used = 0 } ∷ record { capacity = 50; used = 0 } ∷ [];
  placements = [];
}

run-IsBalanced_example :
    IsBalanced
      (Balance.run two_unused (places alice 30 ∷ places bob 60 ∷ Balance.releases alice ∷ []))
unfolding Placement.create
run-IsBalanced_example =
    run-IsBalanced (100 ∷ 50 ∷ []) (places alice 30 ∷ places bob 60 ∷ Balance.releases alice ∷ [])
      two_unused (omega arith) (omega arith, (omega arith, tt)) refl

run-IsNodes_example :
    IsNodes (Usage.run [] (registers alice (codes "host:1") 100 ∷ updates alice 60 ∷ []))
run-IsNodes_example = run-IsNodes (registers alice (codes "host:1") 100 ∷ updates alice 60 ∷ [])
