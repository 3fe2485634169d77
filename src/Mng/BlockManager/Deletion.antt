-- ===== src/Mng/BlockManager/Deletion.antt =====
-- What `delete_blocks` of the block manager gives back.
use stxxl.Prelude.{
  ℕ, ◌+◌, ◌-◌, ◌%◌, ◌^◌, ◌<◌, ◌≤◌, ◌==◌, ◌≡◌, ◌≢◌, refl, ap, ◌∙◌, sym, subst, arith, true, false,
  Bool-cases, inl, inr, ltb, List, [], ◌∷◌, put, put_self, put_other,
}
use stxxl.Mng.Allocator.FreeMap.{cover, hits}
use stxxl.Mng.Allocator.Disk.{DiskAllocator, Bid, done, thrown, out_of_fuel}
use stxxl.Mng.Allocator.Disk
use stxxl.Mng.Allocator.Growth.{IsValid, Freed, delete_block-Freed, block}
use stxxl.Mng.Allocator.Sizes.{hits_blocks}
use stxxl.Mng.BlockManager.{
  BlockManager, BlockId, Result, returned, disk_file, with_allocator, delete_block, delete_blocks,
}
use stxxl.Mng.BlockManager.Lines.{bids_on}

-- The blocks are on disks below `k`.
abbrev pub AllOn : ℕ → List BlockId → Type 0
AllOn k [] = Unit {0}
AllOn k (b ∷ bids) = ((d : ℕ) × (b.storage ≡ disk_file d) × (d < k)) × AllOn k bids

-- The blocks are in use: no byte of one is free, or in another, and they lie within their disks.
pub record InUse (bs : ℕ) (bids : List BlockId) (m : BlockManager) : Type 0 where
  pub valid : (d : ℕ) → d < m.n_disks → IsValid (m.allocators d)
  pub placed : AllOn m.n_disks bids
  pub disjoint :
      (d x : ℕ)
      → d < m.n_disks
      → cover (m.allocators d).free_space x + hits_blocks bs (bids_on d bids) x ≤ 1
  pub within :
      (d x : ℕ)
      → d < m.n_disks
      → 0 < hits_blocks bs (bids_on d bids) x
      → x < (m.allocators d).disk_bytes

-- The bytes of the blocks are free.
pub record Deleted (bs : ℕ) (bids : List BlockId) (m : BlockManager) (result : Result (Unit {0}))
    : Type 0 where
  pub next : BlockManager
  pub returns : result ≡ returned tt next
  pub n_disks : next.n_disks ≡ m.n_disks
  pub valid : (d : ℕ) → d < m.n_disks → IsValid (next.allocators d)
  pub bytes :
      (d x : ℕ)
      → d < m.n_disks
      → cover (next.allocators d).free_space x
        ≡ cover (m.allocators d).free_space x + hits_blocks bs (bids_on d bids) x

-- The manager after one block is given back.
without : ℕ → ℕ → DiskAllocator → BlockManager → BlockManager
without bs e a m = record (with_allocator e a m) {
  current_allocation = (m.current_allocation + 2 ^ 64 - bs) % 2 ^ 64;
}

module _ (bs : ℕ) where
  bids_on_own :
      (e : ℕ) (b : BlockId) (bids : List BlockId)
      → b.storage ≡ disk_file e
      → bids_on e (b ∷ bids) ≡ record { offset = b.offset } ∷ bids_on e bids
  bids_on_own e b bids at = let here : e == e ≡ true = ground arith in rw (at, here) refl

  bids_on_other :
      (d e : ℕ) (b : BlockId) (bids : List BlockId)
      → b.storage ≡ disk_file e
      → d ≢ e
      → bids_on d (b ∷ bids) ≡ bids_on d bids
  bids_on_other d e b bids at ne =
      let not_here : e == d ≡ false = ground arith in rw (at, not_here) refl

  delete_block_step :
      (e : ℕ) (b : BlockId) (m : BlockManager) (a : DiskAllocator)
      → b.storage ≡ disk_file e
      → e < m.n_disks
      → Disk.delete_block bs (record { offset = b.offset }) (m.allocators e) ≡ done tt a
      → delete_block bs b m ≡ returned tt (without bs e a m)
  unfolding without delete_block
  delete_block_step e b m a at l freed =
      let below : ltb e m.n_disks ≡ true = ground arith in rw (delete_block, at, below, freed) refl

  delete_blocks_step :
      (b : BlockId) (bids : List BlockId) (m next : BlockManager)
      → delete_block bs b m ≡ returned tt next
      → delete_blocks bs (b ∷ bids) m ≡ delete_blocks bs bids next
  unfolding delete_blocks
  delete_blocks_step b bids m next e = rw (delete_blocks, e) refl

  -- The blocks on a disk, with the first block and without it.
  own_hits :
      (e x : ℕ) (b : BlockId) (bids : List BlockId)
      → b.storage ≡ disk_file e
      → hits_blocks bs (bids_on e (b ∷ bids)) x
        ≡ hits (block bs (record { offset = b.offset })) x + hits_blocks bs (bids_on e bids) x
  own_hits e x b bids at = ap (λ l. hits_blocks bs l x) (bids_on_own e b bids at)

  -- The first block is given back: the others are in use, and its bytes are free.
  module _ (b : BlockId) (bids : List BlockId) (m : BlockManager) (e : ℕ) (a : DiskAllocator)
      (at : b.storage ≡ disk_file e) (l : e < m.n_disks)
      (f : Freed (block bs (record { offset = b.offset })) (m.allocators e) a) where
    after_bytes :
        (d x : ℕ)
        → cover (put e a m.allocators d).free_space x + hits_blocks bs (bids_on d bids) x
          ≡ cover (m.allocators d).free_space x + hits_blocks bs (bids_on d (b ∷ bids)) x
    after_bytes d x = elim (Bool-cases (e == d)) [
      | inl t ↦
          let same : e ≡ d = ground arith in
          subst
            (λ z.
              cover (put e a m.allocators z).free_space x + hits_blocks bs (bids_on z bids) x
              ≡ cover (m.allocators z).free_space x + hits_blocks bs (bids_on z (b ∷ bids)) x)
            same
            (omega (
              arith,
              ap (λ z. cover z.free_space x) (put_self e a m.allocators),
              f.bytes x,
              own_hits e x b bids at,
            ))
      | inr t ↦
          let ne : d ≢ e = λ g. ground arith in
          omega (
            arith,
            ap (λ z. cover z.free_space x) (put_other e a m.allocators d ne),
            ap (λ z. hits_blocks bs z x) (bids_on_other d e b bids at ne),
          )
    ]

    after_disk : (d : ℕ) → (put e a m.allocators d).disk_bytes ≡ (m.allocators d).disk_bytes
    after_disk d = elim (Bool-cases (e == d)) [
      | inl t ↦
          let same : e ≡ d = ground arith in
          subst (λ z. (put e a m.allocators z).disk_bytes ≡ (m.allocators z).disk_bytes) same
            (ap (λ z. z.disk_bytes) (put_self e a m.allocators) ∙ f.disk)
      | inr t ↦ ap (λ z. z.disk_bytes) (put_other e a m.allocators d (λ g. ground arith))
    ]

    fewer_hits :
        (d x : ℕ) → hits_blocks bs (bids_on d bids) x ≤ hits_blocks bs (bids_on d (b ∷ bids)) x
    fewer_hits d x = elim (Bool-cases (e == d)) [
      | inl t ↦
          let same : e ≡ d = ground arith in
          subst (λ z. hits_blocks bs (bids_on z bids) x ≤ hits_blocks bs (bids_on z (b ∷ bids)) x)
            same (omega (arith, own_hits e x b bids at))
      | inr t ↦
          omega
            (arith, ap (λ z. hits_blocks bs z x) (bids_on_other d e b bids at (λ g. ground arith)))
    ]

    after-InUse : InUse bs (b ∷ bids) m → InUse bs bids (without bs e a m)
    unfolding without
    after-InUse u = record {
      valid = λ d k. elim (Bool-cases (e == d)) [
        | inl t ↦
            let same : e ≡ d = ground arith in
            subst (λ z. IsValid (put e a m.allocators z)) same
              (subst IsValid (sym (put_self e a m.allocators)) f.valid)
        | inr t ↦
            subst IsValid (sym (put_other e a m.allocators d (λ g. ground arith))) (u.valid d k)
      ];
      placed = u.placed.1;
      disjoint = λ d x k. omega (arith, after_bytes d x, u.disjoint d x k);
      within =
          λ d x k p. omega (arith, u.within d x k (omega (arith, fewer_hits d x)), after_disk d);
    }

  -- `delete_blocks` on blocks that are in use returns: exactly their bytes become free, and the allocators
  -- stay valid.
  -- Blocks have at least one byte.
  pub delete_blocks-Deleted :
      0 < bs
      → (bids : List BlockId) (m : BlockManager) → InUse bs bids m
      → Deleted bs bids m (delete_blocks bs bids m)
  unfolding delete_blocks without
  delete_blocks-Deleted h [] m u = record {
    next = m;
    returns = refl;
    n_disks = refl;
    valid = u.valid;
    bytes = λ d x k. omega arith;
  }
  delete_blocks-Deleted h (b ∷ bids) m u =
      let (e, at, l) = u.placed.0 in
      let bid : Bid = record { offset = b.offset } in
      let own = λ (x : ℕ). own_hits e x b bids at in
      let last = bid.offset + bs - 1 in
      let inside : bid.offset + bs ≤ (m.allocators e).disk_bytes =
        ground (arith, u.within e last l, own last) in
      let (a, returns, f) =
        delete_block-Freed bs bid (m.allocators e) (u.valid e l) h inside
          (λ x p. omega (arith, p, own x, u.disjoint e x l)) in
      let rest =
        delete_blocks-Deleted h bids (without bs e a m) (after-InUse b bids m e a at l f u) in
      record {
        next = rest.next;
        returns =
            delete_blocks_step b bids m (without bs e a m) (delete_block_step e b m a at l returns)
            ∙ rest.returns;
        n_disks = rest.n_disks;
        valid = rest.valid;
        bytes = λ d x k. rest.bytes d x k ∙ after_bytes b bids m e a at l f d x;
      }
