-- ===== src/Containers/Deque.antt =====
-- `deque` and its iterators: include/stxxl/bits/containers/deque.h. The vector below is its elements and
-- their number; `fresh` is what it holds at places that `resize` adds. `none` is a failed
-- assertion. Sizes and places are natural numbers below 2 ^ 63; in `resize` the size that is asked
-- for can be larger, and its sums wrap around.
pub mod Wrap
pub mod Contents
pub mod Growth
pub mod Push
pub mod Pop
pub mod Resize
pub mod Iterator
pub mod Run
mod Tests
use stxxl.Prelude.{
  ℕ, zero, suc, ◌+◌, ◌-◌, ◌*◌, ◌%◌, ◌==◌, Bool, true, false, ◌&&◌, Option, none, some, ltb, leb,
  if◌then◌else◌, ◌^◌,
}

module _ {ℓ} (A : Type ℓ) where
  -- `elements` and `vector_size` are those of `m_vector`.
  pub record Deque : Type ℓ where
    pub elements : ℕ → A
    pub vector_size : ℕ
    pub m_begin : ℕ
    pub m_end : ℕ
    pub m_size : ℕ

module _ {ℓ} {A : Type ℓ} where
  -- `m_vector.resize(n)`
  abbrev pub enlarge : (ℕ → A) → ℕ → ℕ → Deque A → Deque A
  enlarge fresh old n d = record d {
    elements = λ j. if ltb j old then d.elements j else fresh j;
    vector_size = n;
  }

  -- `std::copy` of the elements from `first` to before `last`, for ranges that do not overlap
  abbrev pub copy : ℕ → ℕ → ℕ → (ℕ → A) → ℕ → A
  copy first last dest elements j =
      if leb dest j && ltb j (dest + (last - first))
      then elements (first + (j - dest))
      else elements j

  -- The part that `double_array` and `resize` have in common: the elements up to the old end of the
  -- vector are copied to the new one, where the deque wraps around.
  abbrev pub move_up : ℕ → ℕ → Deque A → Deque A
  move_up old_size new_begin d =
      if ltb d.m_end d.m_begin
      then record d { elements = copy d.m_begin old_size new_begin d.elements; m_begin = new_begin }
      else d

  unfoldable pub double_array : (ℕ → A) → Deque A → Deque A
  double_array fresh d =
      let old_size = d.vector_size in
      move_up old_size (old_size + d.m_begin) (enlarge fresh old_size (2 * old_size) d)

  -- The constructor for `n` elements; `blocks` is the number of elements in a block.
  unfoldable pub new_deque : (ℕ → A) → ℕ → ℕ → Deque A
  new_deque fresh blocks n = record {
    elements = fresh;
    vector_size = if ltb blocks (2 * n) then 2 * n else blocks;
    m_begin = 0;
    m_end = n;
    m_size = n;
  }

  unfoldable pub empty : Deque A → Bool
  empty d = d.m_size == 0

  -- `operator []`
  abbrev pub element : Deque A → ℕ → A
  element d n = d.elements ((d.m_begin + n) % d.vector_size)

  unfoldable pub at : ℕ → Deque A → Option A
  at n d = if ltb n d.m_size then some (element d n) else none

  unfoldable pub front : Deque A → Option A
  front d = if empty d then none else some (d.elements d.m_begin)

  unfoldable pub back : Deque A → Option A
  back d =
      if empty d then none else some (d.elements ((d.m_end + d.vector_size - 1) % d.vector_size))

  -- `m_vector[i] = v`
  abbrev pub write : ℕ → A → (ℕ → A) → ℕ → A
  write i v elements j = if j == i then v else elements j

  -- A write through the reference that `operator []` returns.
  unfoldable pub assign : ℕ → A → Deque A → Option (Deque A)
  assign n v d =
      if ltb n d.m_size
      then some (record d { elements = write ((d.m_begin + n) % d.vector_size) v d.elements })
      else none

  unfoldable pub swap : Deque A → Deque A → Deque A × Deque A
  swap d obj = (obj, d)

  -- `push_front` after the test for an overflow
  unfoldable pub put_front : A → Deque A → Deque A
  put_front el d =
      let first = (d.m_begin + d.vector_size - 1) % d.vector_size in
      record d { elements = write first el d.elements; m_begin = first; m_size = d.m_size + 1 }

  unfoldable pub push_front : (ℕ → A) → A → Deque A → Deque A
  push_front fresh el d = put_front el (
      if (d.m_begin + d.vector_size - 1) % d.vector_size == d.m_end
      then double_array fresh d
      else d)

  -- `push_back` after the test for an overflow
  unfoldable pub put_back : A → Deque A → Deque A
  put_back el d = record d {
    elements = write d.m_end el d.elements;
    m_end = (d.m_end + 1) % d.vector_size;
    m_size = d.m_size + 1;
  }

  unfoldable pub push_back : (ℕ → A) → A → Deque A → Deque A
  push_back fresh el d =
      put_back el (if (d.m_end + 1) % d.vector_size == d.m_begin then double_array fresh d else d)

  unfoldable pub pop_front : Deque A → Option (Deque A)
  pop_front d =
      if empty d
      then none
      else some (record d { m_begin = (d.m_begin + 1) % d.vector_size; m_size = d.m_size - 1 })

  unfoldable pub pop_back : Deque A → Option (Deque A)
  pop_back d =
      if empty d
      then none
      else some (record d {
        m_end = (d.m_end + d.vector_size - 1) % d.vector_size;
        m_size = d.m_size - 1;
      })

  unfoldable pub clear : (ℕ → A) → ℕ → Deque A → Deque A
  clear fresh blocks d = record {
    elements = fresh;
    vector_size = blocks;
    m_begin = 0;
    m_end = 0;
    m_size = 0;
  }

  -- The loop of `resize` that takes elements off the end, `k` times.
  unfoldable pub pop_times : ℕ → Deque A → Option (Deque A)
  pop_times zero d = some d
  pop_times (suc k) d = elim (pop_back d) [ none ↦ none | some d' ↦ pop_times k d' ]

  -- The branch of `resize` that adds elements.
  unfoldable pub make_room : (ℕ → A) → ℕ → Deque A → Deque A
  make_room fresh n d =
      let old_size = d.vector_size in
      let new_size = 2 * n % 2 ^ 64 in
      if ltb old_size ((n + 1) % 2 ^ 64)
      then move_up old_size ((new_size + 2 ^ 64 - old_size + d.m_begin) % 2 ^ 64)
          (enlarge fresh old_size new_size d)
      else d

  unfoldable pub add_elements : ℕ → Deque A → Deque A
  add_elements n d = record d {
    m_end = (d.m_end + n + 2 ^ 64 - d.m_size) % 2 ^ 64 % d.vector_size;
    m_size = n;
  }

  -- Each round takes one element off, so the difference of the sizes is the number of rounds.
  unfoldable pub resize : (ℕ → A) → ℕ → Deque A → Option (Deque A)
  resize fresh n d =
      if ltb n d.m_size
      then pop_times (d.m_size - n) d
      else some (add_elements n (make_room fresh n d))
