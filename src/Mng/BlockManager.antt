-- ===== src/Mng/BlockManager.antt =====
-- The block manager: include/stxxl/bits/mng/block_manager.h, lib/mng/block_manager.cpp, on the allocators
-- of its disks. The disk that a functor chooses for a block is a function of the number of the block. The
-- file of the disk `d` is `disk_file d`; that a file discards the space of a block is not modelled.
pub mod Lines
pub mod Disks
pub mod Blocks
pub mod Deletion
pub mod RoundTrip
mod Tests
use stxxl.Prelude.{
  ℕ, zero, suc, ◌+◌, ◌-◌, ◌*◌, ◌%◌, ◌^◌, ◌==◌, Bool, true, false, ltb, ◌&&◌, if◌then◌else◌, List,
  [], ◌∷◌, Option, none, some, ◌>>=◌, count, length, get_elem?, replicate, put,
}
use stxxl.Mng.Allocator.Region.{Error}
use stxxl.Mng.Allocator.Disk.{DiskAllocator, Bid, done, thrown, out_of_fuel}
use stxxl.Mng.Allocator.Disk

-- The counts of bytes are those of `STXXL_MNG_COUNT_ALLOCATION`.
pub record BlockManager : Type 0 where
  pub n_disks : ℕ
  pub allocators : ℕ → DiskAllocator
  pub total_allocation : ℕ
  pub current_allocation : ℕ
  pub maximum_allocation : ℕ

-- No file, one without an allocator, and that of a disk.
pub data Storage : Type 0 where
  no_file unmanaged : Storage
  disk_file : ℕ → Storage

-- `BID`
pub record BlockId : Type 0 where
  pub storage : Storage
  pub offset : ℕ

-- A call that returns, one that throws, one that goes outside of a vector, and lack of fuel.
pub data Result {ℓ} (A : Type ℓ) : Type ℓ where
  returned : A → BlockManager → Result A
  raised : Error → BlockManager → Result A
  outside : Result A
  no_fuel : Result A

abbrev pub with_allocator : ℕ → DiskAllocator → BlockManager → BlockManager
with_allocator d a m = record m { allocators = put d a m.allocators }

-- The loop that calls the functor.
unfoldable pub assign_disks : (ℕ → ℕ) → ℕ → ℕ → List ℕ
assign_disks functor i zero = []
assign_disks functor i (suc n) = functor (i % 2 ^ 64) ∷ assign_disks functor (i + 1) n

unfoldable pub all_below : ℕ → List ℕ → Bool
all_below n [] = true
all_below n (d ∷ disks) = ltb d n && all_below n disks

-- The loop over the disks, for `n` disks from `i` on. `bl[d]` is how often `d` stands in `disks`, and
-- `handed` are the blocks that the allocators gave.
unfoldable pub allocate_disks :
    ℕ → ℕ → List ℕ → ℕ → ℕ → (ℕ → List Bid) → BlockManager → Result (ℕ → List Bid)
allocate_disks fuel block_size disks zero i handed m = returned handed m
allocate_disks fuel block_size disks (suc n) i handed m = elim (count i disks == 0) [
  | true ↦ allocate_disks fuel block_size disks n (i + 1) handed m
  | false ↦
      elim (Disk.new_blocks fuel block_size (replicate (count i disks) (record { offset = 0 }))
        (m.allocators i)) [
          | done bids a ↦
              allocate_disks fuel block_size disks n (i + 1) (put i bids handed)
                (with_allocator i a m)
          | thrown e a ↦ raised e (with_allocator i a m)
          | out_of_fuel ↦ no_fuel
        ]
]

-- The loop that gives out the blocks in the order of the disks that were chosen; `bl` says how many of a
-- disk are given out.
unfoldable pub give_out : (ℕ → List Bid) → List ℕ → (ℕ → ℕ) → Option (List BlockId)
give_out handed [] bl = some []
give_out handed (d ∷ disks) bl = get_elem? (handed d) (bl d) >>= (λ b.
    give_out handed disks (put d (bl d + 1) bl)
    >>= (λ bids. some (record { storage = disk_file d; offset = b.offset } ∷ bids)))

unfoldable pub count_new : ℕ → BlockManager → BlockManager
count_new bytes m =
    let current = (m.current_allocation + bytes) % 2 ^ 64 in
    record m {
      total_allocation = (m.total_allocation + bytes) % 2 ^ 64;
      current_allocation = current;
      maximum_allocation =
          if ltb m.maximum_allocation current then current else m.maximum_allocation;
    }

-- `new_blocks_int`; the recursion of an allocator on its blocks is not deeper than their number.
unfoldable pub new_blocks : ℕ → ℕ → (ℕ → ℕ) → ℕ → BlockManager → Result (List BlockId)
new_blocks block_size nblocks functor offset m =
    let disks = assign_disks functor offset nblocks in
    elim (all_below m.n_disks disks) [
      | false ↦ outside
      | true ↦ elim (allocate_disks (nblocks + 1) block_size disks m.n_disks 0 (λ d. []) m) [
        | returned handed m' ↦ elim (give_out handed disks (λ d. 0)) [
          | none ↦ outside
          | some bids ↦ returned bids (count_new (nblocks * block_size) m')
        ]
        | raised e m' ↦ raised e m'
        | outside ↦ outside
        | no_fuel ↦ no_fuel
      ]
    ]

unfoldable pub delete_block : ℕ → BlockId → BlockManager → Result (Unit {0})
delete_block block_size bid m = elim bid.storage [
  | no_file ↦ returned tt m
  | unmanaged ↦ returned tt m
  | disk_file d ↦ elim (ltb d m.n_disks) [
    | false ↦ outside
    | true ↦ elim (Disk.delete_block block_size (record { offset = bid.offset }) (m.allocators d)) [
      | done u a ↦ returned tt (record (with_allocator d a m) {
        current_allocation = (m.current_allocation + 2 ^ 64 - block_size) % 2 ^ 64;
      })
      | thrown e a ↦ raised e (with_allocator d a m)
      | out_of_fuel ↦ no_fuel
    ]
  ]
]

unfoldable pub delete_blocks : ℕ → List BlockId → BlockManager → Result (Unit {0})
delete_blocks block_size [] m = returned tt m
delete_blocks block_size (bid ∷ bids) m = elim (delete_block block_size bid m) [
  | returned u m' ↦ delete_blocks block_size bids m'
  | raised e m' ↦ raised e m'
  | outside ↦ outside
  | no_fuel ↦ no_fuel
]

-- The loops of `get_total_bytes` and `get_free_bytes`, over the first `n` disks.
unfoldable pub get_total_bytes : ℕ → (ℕ → DiskAllocator) → ℕ
get_total_bytes zero allocators = 0
get_total_bytes (suc n) allocators =
    (get_total_bytes n allocators + (allocators n).disk_bytes) % 2 ^ 64

unfoldable pub get_free_bytes : ℕ → (ℕ → DiskAllocator) → ℕ
get_free_bytes zero allocators = 0
get_free_bytes (suc n) allocators =
    (get_free_bytes n allocators + (allocators n).free_bytes) % 2 ^ 64
