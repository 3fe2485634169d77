-- ===== src/Containers/Vector.antt =====
-- `vector`: include/stxxl/bits/containers/vector.h, for a vector that has no file of its own. Its pages
-- are kept in the slots of a cache of blocks, by the pager `policy`. The blocks of the disk are
-- named by their index in `m_bids`; `fresh` is what the block manager's new blocks hold. A page
-- is read or written with one request for each block, and waited for as a whole. `none` is a
-- failed assertion; those of `read_page` and `write_page`, on the page that they are given, are left
-- out, and are `has_block` of Access. Numbers are natural numbers below 2 ^ 63.
pub mod Resizing
pub mod Flushing
pub mod Index
pub mod Positions
pub mod Mapping
pub mod Cells
pub mod Pages
pub mod Valid
pub mod Occupy
pub mod Replace
pub mod Fetch
pub mod Access
pub mod Write
pub mod Sizes
pub mod Ends
pub mod FlushLoop
pub mod Flush
pub mod Calls
pub mod Represents
pub mod Run
mod Tests
use stxxl.Prelude.{
  ℕ, zero, suc, ◌+◌, ◌-◌, ◌*◌, ◌/◌, ◌%◌, ◌&&◌, ◌==◌, ◌<◌, Bool, true, false, List, [], ◌∷◌, ◌++◌,
  Option, none, some, ltb, leb, if◌then◌else◌, ◌>>=◌, min, count, iota, ◌^◌, put,
}
use stxxl.Containers.NormalStack.{Block}
use stxxl.Containers.Pager.Policy.{Policy}

-- `valid_on_disk`, `uninitialized` and `dirty`
pub data PageStatus : Type 0 where
  valid_on_disk uninitialized dirty : PageStatus

-- The parts of a `double_blocked_index` with the moduli `modulo2` and `modulo1`.
pub record BlockedIndex : Type 0 where
  pub block2 : ℕ
  pub block1 : ℕ
  pub offset : ℕ

unfoldable pub blocked_index : ℕ → ℕ → ℕ → BlockedIndex
blocked_index modulo2 modulo1 pos =
    let block2 = pos / (modulo1 * modulo2) in
    let rest = pos - block2 * (modulo1 * modulo2) in
    record { block2 = block2; block1 = rest / modulo1; offset = rest - rest / modulo1 * modulo1 }

-- A place in the cache.
pub record Place : Type 0 where
  pub block : ℕ
  pub offset : ℕ

-- `div_ceil`
abbrev pub div_ceil : ℕ → ℕ → ℕ
div_ceil n d = n / d + (if n % d == 0 then 0 else 1)

module _ {ℓ} (G : Type 0) (A : Type ℓ) where
  -- `n_bids` is the size of `m_bids`, and `n_pages` that of `m_page_status` and `m_page_to_slot`;
  -- a page that is `on_disk` has no slot.
  pub record Vector : Type ℓ where
    pub size : ℕ
    pub n_bids : ℕ
    pub pager : G
    pub n_pages : ℕ
    pub page_status : ℕ → PageStatus
    pub page_to_slot : ℕ → Option ℕ
    pub slot_to_page : ℕ → ℕ
    pub free_slots : List ℕ
    pub cache : ℕ → Block A
    pub disk : ℕ → Block A

-- The loops of `read_page` and `write_page`: `n` blocks of `from`, from the block `f` on, go to the blocks
-- of `to` from `t` on.
unfoldable pub move_blocks {ℓ} :
    {A : Type ℓ} → ℕ → ℕ → ℕ → (ℕ → Block A) → (ℕ → Block A) → ℕ → Block A
move_blocks zero f t from to = to
move_blocks (suc n) f t from to = move_blocks n (f + 1) (t + 1) from (put t (from f) to)

module _ (page_size block_size : ℕ) where
  abbrev pub index : ℕ → BlockedIndex
  index i = blocked_index page_size block_size i

  abbrev pub place : ℕ → ℕ → Place
  place slot i = record { block = slot * page_size + (index i).block1; offset = (index i).offset }

module _ {ℓ} {G : Type 0} {A : Type ℓ} (policy : Policy G) (page_size block_size : ℕ) where
  -- `last_block - page_no * page_size`
  abbrev pub blocks_of : ℕ → Vector G A → ℕ
  blocks_of page v = min (page * page_size + page_size) v.n_bids - page * page_size

  unfoldable pub read_page : ℕ → ℕ → Vector G A → Vector G A
  read_page page slot v = elim (v.page_status page) [
    | uninitialized ↦ v
    | _ ↦ record v {
      cache = move_blocks (blocks_of page v) (page * page_size) (slot * page_size) v.disk v.cache;
    }
  ]

  unfoldable pub write_page : ℕ → ℕ → Vector G A → Vector G A
  write_page page slot v = elim (v.page_status page) [
    | dirty ↦ record v {
      disk = move_blocks (blocks_of page v) (slot * page_size) (page * page_size) v.cache v.disk;
      page_status = put page valid_on_disk v.page_status;
    }
    | _ ↦ v
  ]

  -- The page that the slot `slot` holds gives way to the page `page`.
  unfoldable pub replace : ℕ → ℕ → Vector G A → Vector G A
  replace page slot v =
      let old = v.slot_to_page slot in
      read_page page slot (
        write_page old slot (record v {
          page_to_slot = put old none (put page (some slot) v.page_to_slot);
          slot_to_page = put slot page v.slot_to_page;
        }))

  -- The page goes to the free slot `slot`.
  unfoldable pub occupy : ℕ → ℕ → List ℕ → Vector G A → Vector G A
  occupy page slot rest v = read_page page slot (record v {
    page_to_slot = put page (some slot) v.page_to_slot;
    slot_to_page = put slot page v.slot_to_page;
    free_slots = rest;
  })

  abbrev pub with_pager : Vector G A → G → Vector G A
  with_pager v g = record v { pager = g }

  -- The branch for a page that is not in the cache.
  unfoldable pub load : ℕ → List ℕ → Vector G A → Option (ℕ × Vector G A)
  load page [] v =
      policy.kick v.pager
      >>= (λ k. policy.hit k.0 k.1 >>= (λ g. some (k.0, replace page k.0 (with_pager v g))))
  load page (slot ∷ rest) v =
      policy.hit slot v.pager >>= (λ g. some (slot, occupy page slot rest (with_pager v g)))

  -- What `element` and `const_element` have in common: the slot of the page, which is brought in if it is
  -- not in the cache.
  unfoldable pub fetch : ℕ → Vector G A → Option (ℕ × Vector G A)
  fetch page v =
      if ltb page v.n_pages
      then elim (v.page_to_slot page) [
        | none ↦ load page v.free_slots v
        | some slot ↦ policy.hit slot v.pager >>= (λ g. some (slot, with_pager v g))
      ]
      else none

  -- `m_page_status[page_no] = dirty`
  abbrev pub mark_dirty : ℕ → Vector G A → Vector G A
  mark_dirty page v = record v { page_status = put page dirty v.page_status }

  unfoldable pub element : ℕ → Vector G A → Option (Place × Vector G A)
  element i v = fetch (index page_size block_size i).block2 v >>= (λ r.
      some (place page_size block_size r.0 i, mark_dirty (index page_size block_size i).block2 r.1))

  unfoldable pub const_element : ℕ → Vector G A → Option (Place × Vector G A)
  const_element i v =
      fetch (index page_size block_size i).block2 v
      >>= (λ r. some (place page_size block_size r.0 i, r.1))

  -- A read and a write through a reference.
  abbrev pub dereference : Place → Vector G A → A
  dereference p v = v.cache p.block p.offset

  abbrev pub assign : Place → A → Vector G A → Vector G A
  assign p x v = record v {
    cache = λ k j. if k == p.block then (if j == p.offset then x else v.cache k j) else v.cache k j;
  }

  -- `x = v[i]` on a constant vector, and `v[i] = x`
  unfoldable pub read : ℕ → Vector G A → Option (A × Vector G A)
  read i v = const_element i v >>= (λ r. some (dereference r.0 r.1, r.1))

  unfoldable pub write : ℕ → A → Vector G A → Option (Vector G A)
  write i x v = element i v >>= (λ r. some (assign r.0 x r.1))

  -- `x = v[i]` on a vector that is not constant
  unfoldable pub read_mutable : ℕ → Vector G A → Option (A × Vector G A)
  read_mutable i v = element i v >>= (λ r. some (dereference r.0 r.1, r.1))

  unfoldable pub is_page_cached : ℕ → Vector G A → Option Bool
  is_page_cached i v =
      if ltb (index page_size block_size i).block2 v.n_pages
      then some (elim (v.page_to_slot (index page_size block_size i).block2) [
        | none ↦ false
        | some slot ↦ true
      ])
      else none
