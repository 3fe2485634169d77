-- ===== src/Containers/Vector/Resizing.antt =====
-- The size and the capacity of a vector: include/stxxl/bits/containers/vector.h. `fresh` is what the
-- block manager's new blocks hold.
use stxxl.Prelude.{
  ℕ, zero, suc, ◌+◌, ◌-◌, ◌*◌, ◌%◌, ◌&&◌, [], ◌∷◌, ◌++◌, Option, none, some, ltb, leb,
  if◌then◌else◌, iota, ◌^◌, put,
}
use stxxl.Containers.NormalStack.{Block}
use stxxl.Containers.Pager.Policy.{Policy}
use stxxl.Containers.Vector.{Vector, valid_on_disk, uninitialized, div_ceil, write}

module _ {ℓ} {G : Type 0} {A : Type ℓ} (policy : Policy G) (page_size block_size : ℕ) where
  abbrev pub capacity : Vector G A → ℕ
  capacity v = v.n_bids * block_size

  unfoldable pub reserve : (ℕ → Block A) → ℕ → Vector G A → Vector G A
  reserve fresh n v =
      let new_bids = div_ceil n block_size in
      if leb n (capacity v) then v else record v {
        n_pages = div_ceil new_bids page_size;
        page_status = λ p. if ltb p v.n_pages then v.page_status p else uninitialized;
        page_to_slot = λ p. if ltb p v.n_pages then v.page_to_slot p else none;
        n_bids = new_bids;
        disk = λ b. if ltb b v.n_bids then v.disk b else fresh b;
      }

  -- One round of the loop of `_resize`, for the page `page`.
  unfoldable pub evict : ℕ → Vector G A → Vector G A
  evict page v = elim (v.page_to_slot page) [
    | none ↦ record v { page_status = put page uninitialized v.page_status }
    | some slot ↦ record v {
      free_slots = v.free_slots ++ (slot ∷ []);
      page_to_slot = put page none v.page_to_slot;
      page_status = put page uninitialized v.page_status;
    }
  ]

  -- The loop, for `n` pages from `page` on.
  unfoldable pub evict_pages : ℕ → ℕ → Vector G A → Vector G A
  evict_pages zero page v = v
  evict_pages (suc n) page v = evict_pages n (page + 1) (evict page v)

  -- `_resize`
  unfoldable pub resize : (ℕ → Block A) → ℕ → Vector G A → Vector G A
  resize fresh n v =
      let r = reserve fresh n v in
      let first = div_ceil n (block_size * page_size) in
      record (if ltb n r.size then evict_pages (r.n_pages - first) first r else r) { size = n }

  -- `_resize_shrink_capacity`; the blocks that it gives back are those from `old_bids_size` on.
  unfoldable pub resize_shrink_capacity : (ℕ → Block A) → ℕ → Vector G A → Vector G A
  resize_shrink_capacity fresh n v =
      let new_bids = div_ceil n block_size in
      let new_pages = div_ceil new_bids page_size in
      record (if ltb v.n_bids new_bids
        then reserve fresh n v
        else if ltb new_bids v.n_bids
        then record v {
          n_bids = new_bids;
          page_status =
              λ p. if leb new_pages p && ltb p v.n_pages then valid_on_disk else v.page_status p;
        }
        else v) { size = n }

  unfoldable pub clear : Vector G A → Vector G A
  clear v = record v {
    size = 0;
    n_bids = 0;
    n_pages = 0;
    page_to_slot = λ p. none;
    free_slots = iota 0 (policy.slots v.pager);
  }

  unfoldable pub push_back : (ℕ → Block A) → A → Vector G A → Option (Vector G A)
  push_back fresh x v = write policy page_size block_size v.size x (resize fresh (v.size + 1) v)

  unfoldable pub pop_back : (ℕ → Block A) → Vector G A → Vector G A
  pop_back fresh v = resize fresh ((v.size + 2 ^ 64 - 1) % 2 ^ 64) v

  -- The constructor, with what the new blocks, the new cache and the new `m_slot_to_page` hold.
  unfoldable pub new_vector : (ℕ → Block A) → (ℕ → Block A) → (ℕ → ℕ) → G → ℕ → Vector G A
  new_vector fresh cache to_page pager n =
      let n_bids = div_ceil n block_size in
      record {
        size = n;
        n_bids = n_bids;
        pager = pager;
        n_pages = div_ceil n_bids page_size;
        page_status = λ p. uninitialized;
        page_to_slot = λ p. none;
        slot_to_page = to_page;
        free_slots = iota 0 (policy.slots pager);
        cache = cache;
        disk = fresh;
      }
