-- ===== src/Mng/BlockManager/Tests.antt =====
-- Runs of a block manager with two disks of 64 bytes, on which blocks of 16 bytes alternate.
use stxxl.Prelude.{ℕ, ◌%◌, ◌<◌, ◌≡◌, refl, arith, true, List, [], ◌∷◌, count, inl}
use native.Mathlib.Nat.{mod-lt}
use stxxl.Mng.Allocator.Disk.{
  DiskAllocator, ensure_free, requested_size, ensure_region, hand_out, use_region, assign_offsets,
}
use stxxl.Mng.Allocator.Disk
use stxxl.Mng.Allocator.FreeMap.{find_fit, erase, insert}
use stxxl.Mng.Allocator.Taking.{take_space}
use stxxl.Mng.Allocator.Growth.{IsValid}
use stxxl.Mng.BlockManager.{
  BlockManager, BlockId, Result, returned, disk_file, assign_disks, all_below, allocate_disks,
  give_out, count_new, new_blocks,
}
use stxxl.Mng.BlockManager.Disks.{Ready}
use stxxl.Mng.BlockManager.Blocks.{Handed, new_blocks-Handed}
use stxxl.Mng.BlockManager.RoundTrip.{Returned, new_blocks-delete_blocks}

abbrev free_disk : DiskAllocator
free_disk = record {
  free_space = record { first = 0; second = 64 } ∷ [];
  free_bytes = 64;
  disk_bytes = 64;
  cfg_bytes = 64;
  file_size = 64;
  autogrow = true;
}

abbrev manager : BlockManager
manager = record {
  n_disks = 2;
  allocators = λ d. free_disk;
  total_allocation = 0;
  current_allocation = 0;
  maximum_allocation = 0;
}

abbrev alternate : ℕ → ℕ
alternate i = i % 2

abbrev result_bids : Result (List BlockId) → List BlockId
result_bids (returned bids m) = bids
result_bids _ = []

free_disk-IsValid : IsValid free_disk
free_disk-IsValid = record {
  gapped = (omega arith, omega arith, tt);
  inside = λ x p. ground arith;
  counted = refl;
}

each_disk-Ready :
    (d : ℕ) → d < 2 → Ready 16 (count d (assign_disks alternate 0 3)) (manager.allocators d)
each_disk-Ready d l = record { valid = free_disk-IsValid; room = inl refl }

-- The blocks of a disk are handed out in the order of their numbers.
three_blocks :
    result_bids (new_blocks 16 3 alternate 0 manager)
    ≡ record { storage = disk_file 0; offset = 0 }
      ∷ record { storage = disk_file 1; offset = 0 }
      ∷ record { storage = disk_file 0; offset = 16 }
      ∷ []
unfolding new_blocks assign_disks all_below allocate_disks give_out count_new Disk.new_blocks
    ensure_free requested_size ensure_region hand_out use_region assign_offsets find_fit take_space
    erase insert
three_blocks = refl

new_blocks-Handed_example : Handed 16 3 alternate 0 manager (new_blocks 16 3 alternate 0 manager)
new_blocks-Handed_example =
    new_blocks-Handed 16 (omega arith) 3 alternate 0 manager (λ i. mod-lt i (omega arith))
      each_disk-Ready

new_blocks-delete_blocks_example : Returned 16 3 alternate 0 manager
new_blocks-delete_blocks_example =
    new_blocks-delete_blocks 16 3 alternate 0 manager (λ i. mod-lt i (omega arith)) each_disk-Ready
      (omega arith)
