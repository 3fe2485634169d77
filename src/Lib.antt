-- ===== src/Lib.antt =====
-- Verification of STXXL, the C++ library of containers and algorithms in external memory.
--
-- The layers of the library, from below: the I/O layer performs asynchronous requests on the
-- files of the disks; the management layer (bits/mng) hands out the blocks of each disk, and
-- moves them between disk and memory; the containers (bits/containers) and the algorithms keep
-- their data in such blocks, with a cache in memory; bits/common has the tools that all of them
-- use.
--
-- Modules and code (paths from the root of the repository): Prelude, with Prelude.Lists,
-- Prelude.Counts and Prelude.Tests: the names, list lemmas and Boolean tests that all modules
-- share.
-- Mng.Allocator: `disk_allocator`, in include/stxxl/bits/mng/disk_allocator.h and
-- lib/mng/disk_allocator.cpp. FreeMap is the std::map of free regions, as the list of its entries
-- in the order of the keys, with the operations on it that the code uses. Region is the part of
-- `add_free_region` that changes the map, check by check and case by case. Disk has the state
-- `DiskAllocator`, with the fields of the class, and one function for each operation:
-- `grow_file`, `add_free_region`, `delete_block`, `new_blocks`, the constructor `new_allocator`
-- and the destructor `close`. A call is a function from the state to an `Outcome`: what it
-- returns, or the error that it throws, with the state that it leaves. Joining, Adding, Taking,
-- Growth, Sizes, Regions, Halves and Blocks have the proofs.
-- Containers.ListStack: the contract `IsStack` of a stack, that its calls do what they do on the
-- list of its elements while steps run in the background, and sequences of such events.
-- Containers.NormalStack: `normal_stack`, in include/stxxl/bits/containers/stack.h. The cache has
-- two pages, of which `back` says which is the back page; the blocks on the disk are named by
-- their index in `bids`. Run shows the contract of a stack; Copy has the constructor that copies a
-- stack of another type, which is a parameter.
-- Containers.GrowShrinkStack: `grow_shrink_stack`, in the same file. The state has the two halves
-- of the cache, the blocks on the disk and the requests under way (`Io`, `Request`). `complete`
-- is the step of the I/O layer that does a request, at any time before the end of a wait for it.
-- Requests, Contents, Settled, Blocks, Push, Underflow, Pop and Schedule have the proofs.
-- Containers.Deque: `deque` and its iterators, in include/stxxl/bits/containers/deque.h, on a
-- vector as its elements and their number. Wrap has the arithmetic of the places, Contents the
-- invariant and the list of the elements, Growth `double_array`, Push, Pop and Resize the calls,
-- Run sequences of calls, and Iterator the iterators.
-- Containers.Pager: `lru_pager` and `random_pager`, in include/stxxl/bits/containers/pager.h. The
-- history of `lru_pager` is a list of pages, the one used last in front. Policy has the interface
-- of a pager and its laws; the vector has a pager as a parameter.
-- Containers.Vector: `vector`, in include/stxxl/bits/containers/vector.h, for a vector without a
-- file of its own. `fetch` is what `element` and `const_element` share. Positions has
-- `double_blocked_index`, by which iterators step from element to element. Resizing has the size
-- and the capacity, Flushing the writing of the cache. Index has the parts of an index, Mapping
-- the map of pages and slots, Cells where an element is, Pages `read_page` and `write_page`,
-- Valid the invariant, Occupy, Replace and Fetch the way of a page into the cache, Access and
-- Write element access, Sizes, Ends, FlushLoop and Flush the other calls. Calls has the calls of
-- a vector and of the array that it stands for, Represents and Run sequences of calls.
-- Mng.BlockManager: `block_manager`, in include/stxxl/bits/mng/block_manager.h and
-- lib/mng/block_manager.cpp. Lines has the order in which blocks are given out, Disks the loop
-- over the disks, Blocks `new_blocks_int`, Deletion `delete_blocks`, and RoundTrip both. The fuel
-- of an allocator is one more than the number of the blocks, which bounds the depth of its
-- recursion.
-- Mng.Strategies: the strategies that choose the disk of a block, in
-- include/stxxl/bits/mng/block_alloc.h and block_alloc_interleaved.h. What a random generator
-- draws and the shuffle are arguments.
-- Common.BinaryBuffer: `binary_buffer`, and in Reader `binary_reader`, in
-- include/stxxl/bits/common/binary_buffer.h. The buffer is the list of the bytes written and the
-- number of bytes allocated.
-- Common.SizeParser: `parse_SI_IEC_size`, in lib/common/utils.cpp, on texts as lists of character
-- codes, with the `strtoul` of the C library. Numbers has the digits, and Units the spellings of
-- the units.
-- Common.UintPair: `uint_pair`, that is uint40 and uint48, in
-- include/stxxl/bits/common/uint_types.h.
-- Common.Ilog2: `ilog2_floor` and `ilog2_ceil`, in include/stxxl/bits/common/utils.h.
-- Common.WinnerTree: `winner_tree`, in include/stxxl/bits/common/winner_tree.h. The comparator is
-- an argument, and a call returns `none` where it reads or writes outside of the tree. Path has
-- the way from a node to the root, Tournament the invariant, Replay the loop of
-- `replay_on_change` and Calls its calls, Erase, Batch, Wipe and Vacate the removal of several
-- players at once, Building `rebuild` and `resize_and_rebuild`, Doubling `double_num_slots`, and
-- Top what the winner is.
--
-- How they interact: the block manager asks its functor, a strategy, for the disk of each block,
-- and the allocator of each disk for the blocks. The stack and the vector ask the block manager
-- for the blocks of a page; they name a block by its index in `bids`, so they rely on blocks that
-- are distinct. The vector asks its pager which slot of the cache a page takes when none is free,
-- and tells it of each use; it relies on the laws of IsPolicy.
--
-- Integers: the positions and sizes of the allocator are natural numbers, since they stay within
-- the disk file, whose size an int64 holds. `uint_pair`, the numbers of the disks and the cursor
-- of the reader wrap around as their types do. The sizes of the stack and of the buffer are
-- natural numbers below 2 ^ 64.
--
-- Fuel: `new_blocks` recurses on the halves of the blocks, and takes more fuel than there are
-- blocks, since each half of two or more blocks is shorter than the whole. The loop of `dynalloc`
-- takes the size asked for plus one, since each round enlarges the memory by at least one byte.
-- The loops of `winner_tree` that climb take the place of the leaf, since the place is halved in
-- each round; those of `ilog2_floor` take the number itself.
--
-- Not modelled: the mutex of the allocator (its calls are atomic but for the two on the halves),
-- messages and dumps; of the buffer `set_size`, references and the copies of other types than
-- bytes; of the stacks `swap`, the destructors, the freeing of blocks, and for
-- `grow_shrink_stack` the constructor that copies; of the vector those with a file, export,
-- `swap`, copies, iterators and the buffered readers and writers; of the block manager its
-- constructor, which opens files, and the discarding of the space of a block; of `winner_tree`
-- what follows the first loop of `double_num_slots`, which is never reached. The other
-- containers, the pools and the block scheduler, the I/O layer, sorting and streams are left out;
-- wrappers of system libraries, the command line, timers, logs and programs that use the library
-- are left out too.
pub mod Prelude
pub mod Common
pub mod Containers
pub mod Mng
