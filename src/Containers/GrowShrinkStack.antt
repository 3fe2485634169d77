-- ===== src/Containers/GrowShrinkStack.antt =====
-- `grow_shrink_stack`: include/stxxl/bits/containers/stack.h. The cache has two halves of
-- `blocks_per_page` blocks; `cached` says which half `cache_buffers` points to, and `overlap_buffers`
-- points to the other. `disk` gives the contents of the blocks behind `bids`, by their index in that
-- vector; the block manager hands out blocks that are distinct. A request moves its block at any
-- time between its start and the end of a wait for it: `complete` is that step.
pub mod Requests
pub mod Contents
pub mod Settled
pub mod Blocks
pub mod Push
pub mod Underflow
pub mod Pop
pub mod Schedule
mod Tests
use stxxl.Prelude.{
  ℕ, zero, suc, ◌+◌, ◌-◌, ◌*◌, ◌/◌, ◌%◌, ◌==◌, Bool, true, false, ◌&&◌, ◌||◌, not, Option, none,
  some, ltb, leb, if◌then◌else◌,
}
use stxxl.Containers.NormalStack.{Address, Block, same_bool, load, store, page_size}

-- `request_ptr`: no request, one that is done, and those that write or read the block `index` of the
-- half `half` of the cache to or from the block `bid` of the disk.
pub data Request : Type 0 where
  no_request finished : Request
  writing reading : (half : Bool) (index bid : ℕ) → Request

abbrev pub done : Request → Request
done no_request = no_request
done r = finished

module _ {ℓ} (A : Type ℓ) where
  -- What requests work on.
  pub record Io : Type ℓ where
    pub cache : Bool → ℕ → Block A
    pub disk : ℕ → Block A
    pub requests : ℕ → Request

  -- `current_element` is `none` where it points to no element of the cache.
  pub record GrowShrinkStack : Type ℓ where
    pub size : ℕ
    pub cache_offset : ℕ
    pub current_element : Option Address
    pub cached : Bool
    pub n_bids : ℕ
    pub io : Io

module _ {ℓ} {A : Type ℓ} where
  -- A request that is not done moves its block.
  unfoldable pub perform : Request → Io A → Io A
  perform no_request io = io
  perform finished io = io
  perform (writing half index bid) io = record io {
    disk = λ j. if j == bid then io.cache half index else io.disk j;
  }
  perform (reading half index bid) io = record io {
    cache = λ h i. if same_bool h half && i == index then io.disk bid else io.cache h i;
  }

  -- `requests[k] = r`
  unfoldable pub assign : ℕ → Request → Io A → Io A
  assign k r io = record io { requests = λ j. if j == k then r else io.requests j }

  unfoldable pub complete : ℕ → Io A → Io A
  complete k io = assign k (done (io.requests k)) (perform (io.requests k) io)

  -- `wait_all`, for the `n` requests from `k` on
  unfoldable pub wait_all : ℕ → ℕ → Io A → Io A
  wait_all zero k io = io
  wait_all (suc n) k io = wait_all n (k + 1) (complete k io)

  -- The loop of `push`: each request is waited for, if there is one, and the next one is started.
  unfoldable pub write_page : ℕ → ℕ → Bool → ℕ → Io A → Io A
  write_page zero k half cur_bid io = io
  write_page (suc n) k half cur_bid io =
      write_page n (k + 1) half (cur_bid + 1) (assign k (writing half k cur_bid) (complete k io))

  -- The loop of `pop` that reads ahead, for `i` from `n - 1` down.
  unfoldable pub prefetch_page : ℕ → Bool → ℕ → Io A → Io A
  prefetch_page zero half cur_bid io = io
  prefetch_page (suc n) half cur_bid io =
      prefetch_page n half (cur_bid - 1) (assign n (reading half n (cur_bid - 1)) io)

  -- `wait_all`, if there are requests
  unfoldable pub wait_requests : ℕ → Io A → Io A
  wait_requests n io = elim (io.requests 0) [ no_request ↦ io | _ ↦ wait_all n 0 io ]

  abbrev pub write_cell : Address → A → Io A → Io A
  write_cell a v io = record io { cache = store io.cache a v }

module _ (blocks_per_page block_size : ℕ) where
  -- The element at an offset of `cache_buffers`.
  abbrev pub cell : Bool → ℕ → Address
  cell half offset = record {
    half = half;
    block = offset / block_size;
    index = offset % block_size;
  }

  module _ {ℓ} {A : Type ℓ} where
    -- The branch of `push` for a full cache.
    unfoldable pub push_overflow : A → GrowShrinkStack A → GrowShrinkStack A
    push_overflow val s =
        let first : Address = record { half = not s.cached; block = 0; index = 0 } in
        record {
          size = s.size + 1;
          cache_offset = 1;
          current_element = some first;
          cached = not s.cached;
          n_bids = s.n_bids + blocks_per_page;
          io = write_cell first val (write_page blocks_per_page 0 s.cached s.n_bids s.io);
        }

    unfoldable pub push_cached : A → GrowShrinkStack A → GrowShrinkStack A
    push_cached val s = record s {
      size = s.size + 1;
      cache_offset = s.cache_offset + 1;
      current_element = some (cell s.cached s.cache_offset);
      io = write_cell (cell s.cached s.cache_offset) val s.io;
    }

    unfoldable pub push : A → GrowShrinkStack A → GrowShrinkStack A
    push val s =
        if s.cache_offset == page_size blocks_per_page block_size
        then push_overflow val s
        else push_cached val s

    -- The branch of `pop` that leaves the cache without an element.
    unfoldable pub pop_underflow : GrowShrinkStack A → GrowShrinkStack A
    pop_underflow s =
        let io = wait_requests blocks_per_page s.io in
        record {
          size = s.size - 1;
          cache_offset = page_size blocks_per_page block_size;
          current_element =
              some (record {
                half = not s.cached;
                block = blocks_per_page - 1;
                index = block_size - 1;
              });
          cached = not s.cached;
          n_bids = s.n_bids - blocks_per_page;
          io =
              if ltb blocks_per_page s.n_bids
              then prefetch_page blocks_per_page s.cached (s.n_bids - blocks_per_page) io
              else io;
        }

    -- At `cache_offset == 1` with no block on the disk the pointer lies outside the cache; it is not
    -- read while the stack is empty.
    unfoldable pub pop_cached : GrowShrinkStack A → GrowShrinkStack A
    pop_cached s = record s {
      size = s.size - 1;
      cache_offset = s.cache_offset - 1;
      current_element =
          if s.cache_offset == 1 then none else some (cell s.cached (s.cache_offset - 1 - 1));
    }

    -- `none` is a failed assertion, `cache_offset > 0` or `m_size > 0`.
    unfoldable pub pop : GrowShrinkStack A → Option (GrowShrinkStack A)
    pop s =
        if s.cache_offset == 0 || s.size == 0
        then none
        else if s.cache_offset == 1 && leb blocks_per_page s.n_bids
        then some (pop_underflow s)
        else some (pop_cached s)

module _ {ℓ} {A : Type ℓ} where
  -- `none` is a failed assertion, or a pointer to no element.
  unfoldable pub top : GrowShrinkStack A → Option A
  top s =
      if s.size == 0
      then none
      else elim s.current_element [ none ↦ none | some a ↦ some (load s.io.cache a) ]

  -- The constructor, for whatever the memory and the disk hold.
  unfoldable pub new_stack : (Bool → ℕ → Block A) → (ℕ → Block A) → GrowShrinkStack A
  new_stack cache disk = record {
    size = 0;
    cache_offset = 0;
    current_element = none;
    cached = false;
    n_bids = 0;
    io = record { cache = cache; disk = disk; requests = λ _. no_request };
  }
