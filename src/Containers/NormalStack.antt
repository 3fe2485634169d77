-- ===== src/Containers/NormalStack.antt =====
-- `normal_stack`: include/stxxl/bits/containers/stack.h. The cache has two halves of
-- `blocks_per_page` blocks; `back` says which half `back_page` points to, and `front_page` points to
-- the other. `disk` gives the contents of the blocks behind `bids`, by their index in that vector;
-- the block manager hands out blocks that are distinct. The requests of a call are waited for before
-- the call returns, and before a buffer of theirs is written.
pub mod Memory
pub mod Addresses
pub mod Contents
pub mod Push
pub mod Pop
pub mod Run
pub mod Copy
mod Tests
use stxxl.Prelude.{
  ℕ, zero, suc, ◌+◌, ◌-◌, ◌*◌, ◌/◌, ◌%◌, ◌==◌, Bool, true, false, ◌&&◌, ◌||◌, not, Option, none,
  some, ltb, leb, if◌then◌else◌,
}

-- An address in the cache: the half, the block in it, the element of the block.
pub record Address : Type 0 where
  pub half : Bool
  pub block : ℕ
  pub index : ℕ

abbrev pub same_bool : Bool → Bool → Bool
same_bool a b = if a then b else not b

abbrev pub same_address : Address → Address → Bool
same_address a b = same_bool a.half b.half && (a.block == b.block && a.index == b.index)

module _ {ℓ} (A : Type ℓ) where
  abbrev pub Block : Type ℓ
  Block = ℕ → A

  -- `current_element` is `none` where it points to no element of the cache.
  pub record NormalStack : Type ℓ where
    pub size : ℕ
    pub cache_offset : ℕ
    pub current_element : Option Address
    pub cache : Bool → ℕ → Block
    pub back : Bool
    pub n_bids : ℕ
    pub disk : ℕ → Block

module _ {ℓ} {A : Type ℓ} where
  abbrev pub load : (Bool → ℕ → Block A) → Address → A
  load cache a = cache a.half a.block a.index

  -- `*a = v`
  unfoldable pub store : (Bool → ℕ → Block A) → Address → A → Bool → ℕ → Block A
  store cache a v half block index =
      if same_address a (record { half = half; block = block; index = index })
      then v
      else cache half block index

  -- The loop that writes the blocks `page + i` to the blocks `base + i` of the disk.
  unfoldable pub write_page : ℕ → ℕ → (ℕ → Block A) → ℕ → (ℕ → Block A) → ℕ → Block A
  write_page zero i page base disk = disk
  write_page (suc k) i page base disk =
      write_page k (i + 1) page base (λ j. if j == base + i then page i else disk j)

  -- The loop that reads the blocks `base + i` into `page + i`, `i` running down from `k - 1`.
  unfoldable pub read_page : ℕ → ℕ → (ℕ → Block A) → (ℕ → Block A) → ℕ → Block A
  read_page zero base disk page = page
  read_page (suc k) base disk page =
      read_page k base disk (λ j. if j == k then disk (base + k) else page j)

module _ (blocks_per_page block_size : ℕ) where
  -- How many elements a half of the cache holds.
  abbrev pub page_size : ℕ
  page_size = blocks_per_page * block_size

  -- `element`
  unfoldable pub element : Bool → ℕ → Address
  element back offset =
      if ltb offset page_size
      then record { half = back; block = offset / block_size; index = offset % block_size }
      else let unbiased = offset - page_size in
        record { half = not back; block = unbiased / block_size; index = unbiased % block_size }

  module _ {ℓ} {A : Type ℓ} where
    -- The branch of `push` for a full cache: the back page goes to the disk and becomes the front.
    unfoldable pub push_overflow : A → NormalStack A → NormalStack A
    unfolding store write_page
    push_overflow val s =
        let first : Address = record { half = s.back; block = 0; index = 0 } in
        record {
          size = s.size + 1;
          cache_offset = page_size + 1;
          current_element = some first;
          cache = store s.cache first val;
          back = not s.back;
          n_bids = s.n_bids + blocks_per_page;
          disk = write_page blocks_per_page 0 (s.cache s.back) s.n_bids s.disk;
        }

    unfoldable pub push : A → NormalStack A → NormalStack A
    unfolding push_overflow
    push val s =
        if s.cache_offset == 2 * blocks_per_page * block_size
        then push_overflow val s
        else record s {
          size = s.size + 1;
          cache_offset = s.cache_offset + 1;
          current_element = some (element s.back s.cache_offset);
          cache = store s.cache (element s.back s.cache_offset) val;
        }

    -- The branch of `pop` that leaves the cache without an element: the front page is read from the
    -- disk and becomes the back.
    unfoldable pub pop_underflow : NormalStack A → NormalStack A
    unfolding read_page
    pop_underflow s = record {
      size = s.size - 1;
      cache_offset = page_size;
      current_element =
          some (record { half = not s.back; block = blocks_per_page - 1; index = block_size - 1 });
      cache = λ half.
          if same_bool half s.back
          then s.cache half
          else read_page blocks_per_page (s.n_bids - blocks_per_page) s.disk (s.cache half);
      back = not s.back;
      n_bids = s.n_bids - blocks_per_page;
      disk = s.disk;
    }

    -- The branch of `pop` that only moves the pointer. At `cache_offset == 1` with no block on the disk
    -- the pointer that `element` forms lies outside the cache; it is not read while the stack is empty.
    unfoldable pub pop_cached : NormalStack A → NormalStack A
    pop_cached s = record s {
      size = s.size - 1;
      cache_offset = s.cache_offset - 1;
      current_element =
          if s.cache_offset == 1 then none else some (element s.back (s.cache_offset - 1 - 1));
    }

    -- `none` is a failed assertion, `cache_offset > 0` or `m_size > 0`.
    unfoldable pub pop : NormalStack A → Option (NormalStack A)
    unfolding pop_underflow pop_cached
    pop s =
        if s.cache_offset == 0 || s.size == 0
        then none
        else if s.cache_offset == 1 && leb blocks_per_page s.n_bids
        then some (pop_underflow s)
        else some (pop_cached s)

module _ {ℓ} {A : Type ℓ} where
  -- `none` is a failed assertion, or a pointer to no element.
  unfoldable pub top : NormalStack A → Option A
  top s =
      if s.size == 0
      then none
      else elim s.current_element [ none ↦ none | some a ↦ some (load s.cache a) ]

  -- The constructor, for whatever the memory holds.
  unfoldable pub new_stack : (Bool → ℕ → Block A) → (ℕ → Block A) → NormalStack A
  new_stack cache disk = record {
    size = 0;
    cache_offset = 0;
    current_element = none;
    cache = cache;
    back = false;
    n_bids = 0;
    disk = disk;
  }
