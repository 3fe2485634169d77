-- ===== src/Mng/BlockManager/RoundTrip.antt =====
-- Blocks that the block manager gives, and takes back.
use stxxl.Prelude.{
  ℕ, suc, ◌+◌, ◌%◌, ◌^◌, ◌<◌, ◌≡◌, refl, ◌∙◌, sym, subst, arith, List, [], ◌∷◌, get_elem?, some,
  count, ltb, Bool-cases, inl, inr,
}
use stxxl.Mng.Allocator.FreeMap.{cover}
use stxxl.Mng.Allocator.Growth.{IsValid}
use stxxl.Mng.BlockManager.{
  BlockManager, BlockId, returned, disk_file, assign_disks, new_blocks, delete_blocks,
}
use stxxl.Mng.BlockManager.Disks.{Ready}
use stxxl.Mng.BlockManager.Blocks.{grown, Handed, new_blocks-Handed}
use stxxl.Mng.BlockManager.Deletion.{AllOn, InUse, delete_blocks-Deleted}

all_on :
    (k : ℕ) (bids : List BlockId)
    → ((i : ℕ) (b : BlockId)
        → get_elem? bids i ≡ some b
        → (d : ℕ) × (b.storage ≡ disk_file d) × (d < k))
    → AllOn k bids
all_on k [] h = tt
all_on k (b ∷ bids) h = (h 0 b refl, all_on k bids (λ i c e. h (suc i) c e))

-- The blocks were given and taken back: the free bytes are those from before, and those that the disks grew
-- by.
pub record Returned (bs nblocks : ℕ) (functor : ℕ → ℕ) (offset : ℕ) (m : BlockManager)
    : Type 0 where
  pub bids : List BlockId
  pub middle : BlockManager
  pub last : BlockManager
  pub news : new_blocks bs nblocks functor offset m ≡ returned bids middle
  pub deletes : delete_blocks bs bids middle ≡ returned tt last
  pub valid : (d : ℕ) → d < m.n_disks → IsValid (last.allocators d)
  pub bytes :
      (d x : ℕ)
      → d < m.n_disks
      → cover (last.allocators d).free_space x
        ≡ cover (m.allocators d).free_space x + grown (m.allocators d) (middle.allocators d) x

module _ (bs nblocks : ℕ) (functor : ℕ → ℕ) (offset : ℕ) (m : BlockManager)
    (below : (i : ℕ) → functor i < m.n_disks)
    (ready : (d : ℕ)
      → d < m.n_disks
      → Ready bs (count d (assign_disks functor offset nblocks)) (m.allocators d)) where
  given_blocks-InUse :
      (g : Handed bs nblocks functor offset m (new_blocks bs nblocks functor offset m))
      → InUse bs g.bids g.next
  given_blocks-InUse g = record {
    valid = λ d k. g.valid d (omega (arith, g.n_disks));
    placed =
        subst (λ k. AllOn k g.bids) (sym g.n_disks)
          (all_on m.n_disks g.bids (λ i b e.
            (functor ((offset + i) % 2 ^ 64), g.chosen i b e, below ((offset + i) % 2 ^ 64))));
    disjoint = λ d x k. g.disjoint d x (omega (arith, g.n_disks));
    within = λ d x k p.
        let l : d < m.n_disks = omega (arith, g.n_disks) in
        elim (Bool-cases (ltb x (m.allocators d).disk_bytes)) [
          | inl t ↦ ground (arith, g.grows d l)
          | inr t ↦ ground (arith, g.bytes d x l, (ready d l).valid.inside x, g.grows d l)
        ];
  }

  -- What `new_blocks` gives, `delete_blocks` takes back: both return, and then the free bytes of each disk
  -- are those that were free before, and those that its disk grew by. Each number that the functor
  -- gives is that of a disk, the allocators are valid, and each disk may grow or has room for its
  -- blocks. Blocks have at least one byte.
  pub new_blocks-delete_blocks : 0 < bs → Returned bs nblocks functor offset m
  new_blocks-delete_blocks h =
      let g = new_blocks-Handed bs h nblocks functor offset m below ready in
      let f = delete_blocks-Deleted bs h g.bids g.next (given_blocks-InUse g) in
      record {
        bids = g.bids;
        middle = g.next;
        last = f.next;
        news = g.returns;
        deletes = f.returns;
        valid = λ d k. f.valid d (omega (arith, g.n_disks));
        bytes = λ d x k. f.bytes d x (omega (arith, g.n_disks)) ∙ g.bytes d x k;
      }
