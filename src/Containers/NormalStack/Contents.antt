-- ===== src/Containers/NormalStack/Contents.antt =====
-- The elements of a `normal_stack`, its invariant, and what a push must do.
use stxxl.Prelude.{ℕ, ◌+◌, ◌-◌, ◌*◌, ◌/◌, ◌%◌, ◌≡◌, ◌<◌, ◌≤◌, arith, some, ltb, if◌then◌else◌}
use stxxl.Containers.NormalStack.{NormalStack, load, element, pop}

module _ {ℓ} (blocks_per_page block_size : ℕ) {A : Type ℓ} where
  -- The element at the position `i` from the bottom.
  unfoldable pub at : NormalStack A → ℕ → A
  at s i =
      if ltb i (s.n_bids * block_size)
      then s.disk (i / block_size) (i % block_size)
      else load s.cache (element blocks_per_page block_size s.back (i - s.n_bids * block_size))

  pub record IsValid (s : NormalStack A) : Type 0 where
    pub pages : ℕ
    pub whole : s.n_bids ≡ pages * blocks_per_page
    pub counted : s.size ≡ s.n_bids * block_size + s.cache_offset
    pub fits : s.cache_offset ≤ 2 * blocks_per_page * block_size
    pub busy : 0 < s.n_bids → 0 < s.cache_offset
    pub pointed :
        0 < s.size
        → s.current_element ≡ some (element blocks_per_page block_size s.back (s.cache_offset - 1))

  pub at-disk :
      (s : NormalStack A) (i : ℕ)
      → i < s.n_bids * block_size
      → at s i ≡ s.disk (i / block_size) (i % block_size)
  unfolding at
  at-disk s i h = ground arith

  pub at-cache :
      (s : NormalStack A) (i : ℕ)
      → s.n_bids * block_size ≤ i
      → at s i
        ≡ load s.cache (element blocks_per_page block_size s.back (i - s.n_bids * block_size))
  unfolding at
  at-cache s i h = ground arith

  -- `push` puts `v` on top of `s`, and leaves what is below.
  pub record Pushed (v : A) (s s' : NormalStack A) : Type ℓ where
    pub valid : IsValid s'
    pub size : s'.size ≡ s.size + 1
    pub new : at s' s.size ≡ v
    pub old : (i : ℕ) → i < s.size → at s' i ≡ at s i

  -- `pop` takes the top of `s` away, and leaves what is below.
  pub record Popped (s s' : NormalStack A) : Type ℓ where
    pub valid : IsValid s'
    pub size : s.size ≡ s'.size + 1
    pub old : (i : ℕ) → i < s'.size → at s' i ≡ at s i

  pub record Pops (s : NormalStack A) : Type ℓ where
    pub rest : NormalStack A
    pub pops : pop blocks_per_page block_size s ≡ some rest
    pub popped : Popped s rest
