-- ===== src/Mng/Allocator/Tests.antt =====
-- Runs of the allocator on a disk of 64 bytes, with two free regions of 16 bytes.
use stxxl.Prelude.{ℕ, ◌+◌, ◌≤◌, ◌≡◌, refl, Bool, true, false, List, [], ◌∷◌, arith, inr}
use stxxl.Mng.Allocator.FreeMap.{
  FreeMap, cover, upper_bound, decrement, before, insert, erase, find_fit,
}
use stxxl.Mng.Allocator.Taking.{take_space}
use stxxl.Mng.Allocator.Region.{IsGapped, Added, add_region, added, double_deallocation}
use stxxl.Mng.Allocator.Adding.{add_region-Added}
use stxxl.Mng.Allocator.Disk.{
  DiskAllocator, Bid, done, thrown, delete_block, new_blocks, ensure_free, requested_size,
  ensure_region, hand_out, use_region, assign_offsets,
}
use stxxl.Mng.Allocator.Growth.{IsValid, Freed, delete_block-Freed, delete_block-double, block}
use stxxl.Mng.Allocator.Sizes.{hits_blocks}
use stxxl.Mng.Allocator.Regions.{Gives}
use stxxl.Mng.Allocator.Blocks.{new_blocks-Allocated, new_blocks_disjoint}

abbrev two_regions : FreeMap
two_regions = record { first = 0; second = 16 } ∷ record { first = 48; second = 16 } ∷ []

abbrev disk : Bool → DiskAllocator
disk autogrow = record {
  free_space = two_regions;
  free_bytes = 32;
  disk_bytes = 64;
  cfg_bytes = 64;
  file_size = 64;
  autogrow = autogrow;
}

two_regions-IsGapped : IsGapped 0 two_regions
two_regions-IsGapped = (omega arith, omega arith, (omega arith, omega arith, tt))

disk-IsValid : (autogrow : Bool) → IsValid (disk autogrow)
disk-IsValid autogrow = record {
  gapped = two_regions-IsGapped;
  inside = λ x p. ground arith;
  counted = refl;
}

abbrev at_byte : ℕ → Bid
at_byte n = record { offset = n }

abbrev two_bids : List Bid
two_bids = at_byte 0 ∷ at_byte 0 ∷ []

-- A region between the two is joined with both.
join_both :
    add_region (record { first = 16; second = 32 }) two_regions
    ≡ added (record { first = 0; second = 64 } ∷ [])
unfolding add_region upper_bound decrement before insert erase
join_both = refl

add_region-Added_example :
    Added 0
      (record { first = 16; second = 32 })
      two_regions
      (add_region (record { first = 16; second = 32 }) two_regions)
add_region-Added_example =
    add_region-Added 0 (record { first = 16; second = 32 }) two_regions (omega arith) (omega arith)
      two_regions-IsGapped

delete_block-Freed_example :
    (b : DiskAllocator) × (delete_block 16 (at_byte 16) (disk true) ≡ done tt b)
    × Freed (block 16 (at_byte 16)) (disk true) b
delete_block-Freed_example =
    delete_block-Freed 16 (at_byte 16) (disk true) (disk-IsValid true) (omega arith) (omega arith)
      (λ x p. ground arith)

delete_block-double_example :
    delete_block 16 (at_byte 40) (disk true) ≡ thrown double_deallocation (disk true)
delete_block-double_example =
    delete_block-double 16 (at_byte 40) (disk true) (disk-IsValid true) (omega arith) (omega arith)
      50 refl (omega arith)

-- Two blocks of 16 bytes fit in no region, and are taken from the two.
two_halves :
    new_blocks 3 16 two_bids (disk false)
    ≡ done (at_byte 0 ∷ at_byte 48 ∷ []) (record (disk false) { free_space = []; free_bytes = 0 })
unfolding new_blocks ensure_free requested_size ensure_region find_fit hand_out use_region
    take_space erase assign_offsets
two_halves = refl

new_blocks-Allocated_example :
    Gives 16 two_bids (disk false) (new_blocks 3 16 two_bids (disk false))
new_blocks-Allocated_example =
    new_blocks-Allocated 16 (omega arith) 3 two_bids (disk false) (omega arith) (omega arith)
      (disk-IsValid false) (inr (omega arith))

new_blocks_disjoint_example : cover [] 50 + hits_blocks 16 (at_byte 0 ∷ at_byte 48 ∷ []) 50 ≤ 1
new_blocks_disjoint_example =
    new_blocks_disjoint 16 (omega arith) 3 two_bids (at_byte 0 ∷ at_byte 48 ∷ []) (disk false)
      (record (disk false) { free_space = []; free_bytes = 0 }) (omega arith) (omega arith)
      (disk-IsValid false) (inr (omega arith)) two_halves 50
