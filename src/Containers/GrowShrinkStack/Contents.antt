-- ===== src/Containers/GrowShrinkStack/Contents.antt =====
-- The elements of a `grow_shrink_stack` and its invariant, which hold while requests are under way.
use stxxl.Prelude.{
  ℕ, ◌+◌, ◌-◌, ◌*◌, ◌/◌, ◌%◌, ◌≡◌, ◌<◌, ◌≤◌, Bool, not, some, ltb, leb, if◌then◌else◌, arith,
}
use stxxl.Containers.NormalStack.{Block, page_size}
use stxxl.Containers.GrowShrinkStack.{
  Request, no_request, finished, writing, reading, Io, GrowShrinkStack, cell, pop,
}

module _ {ℓ} {A : Type ℓ} where
  -- What a block of the last page on the disk holds, or will hold when its request is done.
  abbrev pub held : Request → Io A → ℕ → Block A
  held (writing half index bid) io j = io.cache half index
  held r io j = io.disk j

  -- The same for every block of the disk; `page` is the number of the blocks below the last page.
  unfoldable pub on_disk : ℕ → Io A → ℕ → Block A
  on_disk page io j = if leb page j then held (io.requests (j - page)) io j else io.disk j

module _ {ℓ} (blocks_per_page : ℕ) {A : Type ℓ} (cached : Bool) (n_bids : ℕ) (io : Io A) (k : ℕ)
    (r : Request) where
  -- The request `r` moves the block `k` of `overlap_buffers` to or from the last page on the disk. When
  -- it is done, the two hold the same.
  pub data IsFine : Type ℓ where
    unused : r ≡ no_request → n_bids ≡ 0 → IsFine
    settled :
        r ≡ finished
        → (0 < n_bids → io.cache (not cached) k ≡ io.disk (n_bids - blocks_per_page + k))
        → IsFine
    writes : r ≡ writing (not cached) k (n_bids - blocks_per_page + k) → 0 < n_bids → IsFine
    reads : r ≡ reading (not cached) k (n_bids - blocks_per_page + k) → 0 < n_bids → IsFine

module _ {ℓ} (blocks_per_page block_size : ℕ) {A : Type ℓ} where
  -- The element at the position `i` from the bottom.
  unfoldable pub at : GrowShrinkStack A → ℕ → A
  at s i =
      let o = i - s.n_bids * block_size in
      if ltb i (s.n_bids * block_size)
      then on_disk (s.n_bids - blocks_per_page) s.io (i / block_size) (i % block_size)
      else s.io.cache s.cached (o / block_size) (o % block_size)

  pub at-disk :
      (s : GrowShrinkStack A) (i : ℕ)
      → i < s.n_bids * block_size
      → at s i ≡ on_disk (s.n_bids - blocks_per_page) s.io (i / block_size) (i % block_size)
  unfolding at
  at-disk s i h = ground arith

  pub at-cache :
      (s : GrowShrinkStack A) (i : ℕ)
      → s.n_bids * block_size ≤ i
      → at s i ≡ (
          let o = i - s.n_bids * block_size in
          s.io.cache s.cached (o / block_size) (o % block_size))
  unfolding at
  at-cache s i h = ground arith

  pub record IsValid (s : GrowShrinkStack A) : Type ℓ where
    pub pages : ℕ
    pub whole : s.n_bids ≡ pages * blocks_per_page
    pub counted : s.size ≡ s.n_bids * block_size + s.cache_offset
    pub fits : s.cache_offset ≤ page_size blocks_per_page block_size
    pub busy : 0 < s.n_bids → 0 < s.cache_offset
    pub pointed :
        0 < s.size
        → s.current_element ≡ some (cell blocks_per_page block_size s.cached (s.cache_offset - 1))
    pub fine :
        (k : ℕ)
        → k < blocks_per_page
        → IsFine blocks_per_page s.cached s.n_bids s.io k (s.io.requests k)

  -- `push` puts `v` on top of `s`, and leaves what is below.
  pub record Pushed (v : A) (s s' : GrowShrinkStack A) : Type ℓ where
    pub valid : IsValid s'
    pub size : s'.size ≡ s.size + 1
    pub new : at s' s.size ≡ v
    pub old : (i : ℕ) → i < s.size → at s' i ≡ at s i

  -- `pop` takes the top of `s` away, and leaves what is below.
  pub record Popped (s s' : GrowShrinkStack A) : Type ℓ where
    pub valid : IsValid s'
    pub size : s.size ≡ s'.size + 1
    pub old : (i : ℕ) → i < s'.size → at s' i ≡ at s i

  pub record Pops (s : GrowShrinkStack A) : Type ℓ where
    pub rest : GrowShrinkStack A
    pub pops : pop blocks_per_page block_size s ≡ some rest
    pub popped : Popped s rest
