-- ===== src/Mng/BlockManager/Blocks.antt =====
-- What `new_blocks` of the block manager gives.
use stxxl.Prelude.{
  ℕ, zero, suc, ◌+◌, ◌-◌, ◌*◌, ◌%◌, ◌^◌, ◌<◌, ◌≤◌, ◌≡◌, refl, ap, ◌∙◌, sym, subst, arith, true,
  Bool-cases, inl, inr, ltb, List, [], ◌∷◌, count, length, length-replicate, get_elem?, take, drop,
  some,
}
use stxxl.Mng.Allocator.FreeMap.{cover, hits}
use stxxl.Mng.Allocator.Taking.{cover-le-one}
use stxxl.Mng.Allocator.Disk.{DiskAllocator, Bid}
use stxxl.Mng.Allocator.Growth.{IsValid}
use stxxl.Mng.Allocator.Sizes.{hits_blocks}
use stxxl.Mng.BlockManager.{
  BlockManager, BlockId, Result, returned, disk_file, assign_disks, all_below, allocate_disks,
  give_out, count_new, new_blocks,
}
use stxxl.Mng.BlockManager.Lines.{
  bids_on, count-le_length, length-assign_disks, get_elem?-assign_disks, all_below-assign_disks,
  give_out-Given,
}
use stxxl.Mng.BlockManager.Disks.{Served, idle, served, Ready, allocate_disks-Spread}

-- What the disk `d` has grown by.
abbrev pub grown : DiskAllocator → DiskAllocator → ℕ → ℕ
grown a b = hits (record { first = a.disk_bytes; second = b.disk_bytes - a.disk_bytes })

-- The blocks `bids` were given, each on the disk that the functor chose. On each disk, a byte of a block was
-- free or is new, is free no more, and is in no other block.
pub record Handed (bs nblocks : ℕ) (functor : ℕ → ℕ) (offset : ℕ) (m : BlockManager)
    (result : Result (List BlockId)) : Type 0 where
  pub bids : List BlockId
  pub next : BlockManager
  pub returns : result ≡ returned bids next
  pub n_disks : next.n_disks ≡ m.n_disks
  pub many : length bids ≡ nblocks
  pub chosen :
      (i : ℕ) (b : BlockId)
      → get_elem? bids i ≡ some b
      → b.storage ≡ disk_file (functor ((offset + i) % 2 ^ 64))
  pub valid : (d : ℕ) → d < m.n_disks → IsValid (next.allocators d)
  pub bytes :
      (d x : ℕ)
      → d < m.n_disks
      → cover (next.allocators d).free_space x + hits_blocks bs (bids_on d bids) x
        ≡ cover (m.allocators d).free_space x + grown (m.allocators d) (next.allocators d) x
  pub grows : (d : ℕ) → d < m.n_disks → (m.allocators d).disk_bytes ≤ (next.allocators d).disk_bytes
  pub disjoint :
      (d x : ℕ)
      → d < m.n_disks
      → cover (next.allocators d).free_space x + hits_blocks bs (bids_on d bids) x ≤ 1
  pub current : next.current_allocation ≡ (m.current_allocation + nblocks * bs) % 2 ^ 64

count-all_below :
    (k : ℕ) (disks : List ℕ) (d : ℕ) → all_below k disks ≡ true → k ≤ d → count d disks ≡ 0
unfolding all_below
count-all_below k [] d h l = refl
count-all_below k (e ∷ disks) d h l =
    let below : ltb e k ≡ true = ground arith in
    let rest : all_below k disks ≡ true = ground arith in
    ground (arith, count-all_below k disks d rest l)

take-length : (l : List Bid) (n : ℕ) → length l ≡ n → take n (drop 0 l) ≡ l
take-length [] zero e = refl
take-length [] (suc n) e = refl
take-length (b ∷ l) zero e = absurd (omega arith)
take-length (b ∷ l) (suc n) e = ap (λ z. b ∷ z) (take-length l n (omega arith))

module _ (bs : ℕ) where
  length-Served :
      (n : ℕ) (bids : List Bid) (a b : DiskAllocator) → Served bs n bids a b → length bids ≡ n
  length-Served n bids a b (idle e f g) = ap length f ∙ sym e
  length-Served n bids a b (served g) =
      g.count ∙ length-replicate n (let c : Bid = record { offset = 0 } in c)

  valid-Served :
      (n : ℕ) (bids : List Bid) (a b : DiskAllocator) → IsValid a → Served bs n bids a b → IsValid b
  valid-Served n bids a b v (idle e f g) = subst IsValid (sym g) v
  valid-Served n bids a b v (served g) = g.valid

  bytes-Served :
      (n : ℕ) (bids : List Bid) (a b : DiskAllocator) (x : ℕ)
      → Served bs n bids a b
      → cover b.free_space x + hits_blocks bs bids x ≡ cover a.free_space x + grown a b x
  bytes-Served n bids a b x (idle e f g) =
      let still : cover a.free_space x + 0 ≡ cover a.free_space x + grown a a x = ground arith in
      subst (λ z. cover z.free_space x + hits_blocks bs bids x ≡ cover a.free_space x + grown a z x)
        (sym g)
        (subst (λ l. cover a.free_space x + hits_blocks bs l x ≡ cover a.free_space x + grown a a x)
          (sym f) still)
  bytes-Served n bids a b x (served g) = g.bytes x

  grows-Served :
      (n : ℕ) (bids : List Bid) (a b : DiskAllocator)
      → Served bs n bids a b
      → a.disk_bytes ≤ b.disk_bytes
  grows-Served n bids a b (idle e f g) = omega (arith, ap (λ z. z.disk_bytes) g)
  grows-Served n bids a b (served g) = g.grows

  disjoint_at :
      (n : ℕ) (bids : List Bid) (a b : DiskAllocator) (x : ℕ)
      → IsValid a
      → Served bs n bids a b
      → cover b.free_space x + hits_blocks bs bids x ≤ 1
  disjoint_at n bids a b x v g =
      ground
        (arith, bytes-Served n bids a b x g, v.inside x, cover-le-one 0 x a.free_space v.gapped)

  new_blocks-returns :
      (nblocks : ℕ) (functor : ℕ → ℕ) (offset : ℕ) (m next : BlockManager) (given : ℕ → List Bid)
      (bids : List BlockId)
      → all_below m.n_disks (assign_disks functor offset nblocks) ≡ true
      → allocate_disks
          (nblocks + 1)
          bs
          (assign_disks functor offset nblocks)
          m.n_disks
          0
          (λ d. [])
          m
        ≡ returned given next
      → give_out given (assign_disks functor offset nblocks) (λ d. 0) ≡ some bids
      → new_blocks bs nblocks functor offset m ≡ returned bids (count_new (nblocks * bs) next)
  unfolding new_blocks
  new_blocks-returns nblocks functor offset m next given bids all e f =
      rw (all, new_blocks, e, f) refl

  -- `new_blocks` gives any number of blocks, where each number that the functor gives is that of a disk, the
  -- allocators are valid, and each disk may grow or has room for its blocks. The blocks are on the
  -- disks that the functor chose for their numbers. On each disk, the bytes that are free or in one
  -- of its new blocks are those that were free before or that the disk grew by, and none is both
  -- free and in a block, or in two. The allocators stay valid, and the bytes are counted.
  -- Blocks have at least one byte.
  pub new_blocks-Handed :
      0 < bs
      → (nblocks : ℕ) (functor : ℕ → ℕ) (offset : ℕ) (m : BlockManager)
      → ((i : ℕ) → functor i < m.n_disks)
      → ((d : ℕ)
          → d < m.n_disks
          → Ready bs (count d (assign_disks functor offset nblocks)) (m.allocators d))
      → Handed bs nblocks functor offset m (new_blocks bs nblocks functor offset m)
  unfolding count_new
  new_blocks-Handed h nblocks functor offset m below ready =
      let disks = assign_disks functor offset nblocks in
      let size = length-assign_disks functor offset nblocks in
      let all : all_below m.n_disks disks ≡ true =
        all_below-assign_disks functor m.n_disks offset nblocks below in
      let s =
        allocate_disks-Spread bs (nblocks + 1) disks h
          (λ d. omega (arith, count-le_length d disks, size)) m.n_disks 0 (λ d. []) m
          (λ d l k. refl) (λ d l k. ready d (omega arith)) in
      let at : (d : ℕ)
          → d < m.n_disks
          → Served bs (count d disks) (s.given d) (m.allocators d) (s.next.allocators d) =
        λ d k. s.all_served d (omega arith) (omega arith) in
      let g =
        give_out-Given s.given disks (λ d. 0)
          (λ d. elim (Bool-cases (ltb d m.n_disks)) [
            | inl t ↦ omega (arith, length-Served _ _ _ _ (at d (ground arith)))
            | inr t ↦ omega (arith, count-all_below m.n_disks disks d all (ground arith))
          ]) in
      let on : (d : ℕ) → d < m.n_disks → bids_on d g.bids ≡ s.given d =
        λ d k. g.on d ∙ take-length (s.given d) (count d disks) (length-Served _ _ _ _ (at d k)) in
      record {
        bids = g.bids;
        next = count_new (nblocks * bs) s.next;
        returns =
            new_blocks-returns nblocks functor offset m s.next s.given g.bids all s.returns
              g.returns;
        n_disks = ap (λ z. z.n_disks) s.frame;
        many = g.many ∙ size;
        chosen = λ i b e.
            let (d, f, on_disk) = g.chosen i b e in
            on_disk ∙ ap disk_file (get_elem?-assign_disks functor offset nblocks i d f);
        valid = λ d k. valid-Served _ _ _ _ (ready d k).valid (at d k);
        bytes = λ d x k.
            subst
              (λ z.
                cover (s.next.allocators d).free_space x + hits_blocks bs z x
                ≡ cover (m.allocators d).free_space x
                  + grown (m.allocators d) (s.next.allocators d) x)
              (sym (on d k)) (bytes-Served _ _ _ _ x (at d k));
        grows = λ d k. grows-Served _ _ _ _ (at d k);
        disjoint = λ d x k.
            subst (λ z. cover (s.next.allocators d).free_space x + hits_blocks bs z x ≤ 1)
              (sym (on d k)) (disjoint_at _ _ _ _ x (ready d k).valid (at d k));
        current = ap (λ z. (z.current_allocation + nblocks * bs) % 2 ^ 64) s.frame;
      }
