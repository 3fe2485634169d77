-- ===== src/Mng/Allocator/Growth.antt =====
-- Freeing a region and growing the file: `add_free_region`, `grow_file` and the two tests of
-- `new_blocks` that grow the file.
use stxxl.Prelude.{ℕ, suc, zero, Bool, ◌+◌, ◌≤◌, ◌<◌, ◌≡◌, refl, [], some, arith, inl, inr, ◌⊎◌}
use stxxl.Mng.Allocator.FreeMap.{Place, find_fit, hits, cover, total}
use stxxl.Mng.Allocator.Region.{
  IsGapped, Added, AddResult, added, refused, add_region, double_deallocation, out_of_memory,
  assertion,
}
use stxxl.Mng.Allocator.Adding.{add_region-Added}
use stxxl.Mng.Allocator.Taking.{cover-le-one, find_fit-stretch}
use stxxl.Mng.Allocator.Disk.{
  DiskAllocator, done, thrown, add_free_region, grow_file, new_allocator, delete_block, Bid,
}

-- The invariant: the map is in order and coalesced, holds bytes of the disk only, and
-- `free_bytes` counts them.
pub record IsValid (a : DiskAllocator) : Type 0 where
  pub gapped : IsGapped 0 a.free_space
  pub inside : (x : ℕ) → a.disk_bytes ≤ x → cover a.free_space x ≡ 0
  pub counted : a.free_bytes ≡ total a.free_space

-- The allocator `b` is `a` after the file grew by `n` bytes, which are free.
pub record Grown (n : ℕ) (a b : DiskAllocator) : Type 0 where
  pub valid : IsValid b
  pub bytes :
      (x : ℕ)
      → cover b.free_space x
        ≡ cover a.free_space x + hits (record { first = a.disk_bytes; second = n }) x
  pub disk : b.disk_bytes ≡ a.disk_bytes + n
  pub free : b.free_bytes ≡ a.free_bytes + n
  pub autogrow_kept : b.autogrow ≡ a.autogrow
  pub cfg_kept : b.cfg_bytes ≡ a.cfg_bytes

pub Grown-refl : (a : DiskAllocator) → IsValid a → Grown 0 a a
Grown-refl a v = record {
  valid = v;
  bytes = λ x. ground arith;
  disk = omega arith;
  free = omega arith;
  autogrow_kept = refl;
  cfg_kept = refl;
}

module _ (n : ℕ) (a : DiskAllocator) (v : IsValid a) (h : 0 < n) where
  grow_file_result :
      (res : AddResult)
      → add_region (record { first = a.disk_bytes; second = n }) a.free_space ≡ res
      → Added 0 (record { first = a.disk_bytes; second = n }) a.free_space res
      → (b : DiskAllocator) × (grow_file n a ≡ done tt b) × Grown n a b
  unfolding grow_file add_free_region
  grow_file_result (added m) e w = (
    record a {
      free_space = m;
      free_bytes = a.free_bytes + n;
      disk_bytes = a.disk_bytes + n;
      file_size = a.disk_bytes + n;
    },
    ground arith,
    record {
      valid = record {
        gapped = w.0;
        inside = λ x p. ground (arith, w.1 x, v.inside x);
        counted = omega (arith, w.2, v.counted);
      };
      bytes = w.1;
      disk = refl;
      free = refl;
      autogrow_kept = refl;
      cfg_kept = refl;
    },
  )
  grow_file_result (refused double_deallocation) e w =
      absurd (ground (arith, w.1, w.2, v.inside w.0))
  grow_file_result (refused out_of_memory) e w = absurd w
  grow_file_result (refused assertion) e w = absurd w

  -- `grow_file` by at least one byte on a valid allocator never throws: exactly the bytes behind the
  -- old end become free, and the invariant holds.
  pub grow_file-Grown : (b : DiskAllocator) × (grow_file n a ≡ done tt b) × Grown n a b
  grow_file-Grown = grow_file_result _ refl (
      add_region-Added 0 (record { first = a.disk_bytes; second = n }) a.free_space (omega arith) h
        v.gapped)

  -- After that the search for `n` bytes succeeds.
  pub Grown-find_fit :
      (b : DiskAllocator) → Grown n a b → (s : Place) × (find_fit n b.free_space ≡ some s)
  Grown-find_fit b w =
      find_fit-stretch 0 a.disk_bytes n b.free_space w.valid.gapped h
        (λ x p q. ground (arith, w.bytes x))

-- The allocator `b` is `a` with the region `r` freed.
pub record Freed (r : Place) (a b : DiskAllocator) : Type 0 where
  pub valid : IsValid b
  pub bytes : (x : ℕ) → cover b.free_space x ≡ cover a.free_space x + hits r x
  pub free : b.free_bytes ≡ a.free_bytes + r.second
  pub disk : b.disk_bytes ≡ a.disk_bytes

module _ (r : Place) (a : DiskAllocator) (v : IsValid a) (h : 0 < r.second)
    (inside : r.first + r.second ≤ a.disk_bytes) where
  add_free_region_result :
      (res : AddResult)
      → add_region r a.free_space ≡ res
      → Added 0 r a.free_space res
      → ((b : DiskAllocator) × (add_free_region r a ≡ done tt b) × Freed r a b)
        ⊎ ((x : ℕ) × (add_free_region r a ≡ thrown double_deallocation a)
            × (hits r x ≡ 1)
            × (0 < cover a.free_space x))
  unfolding add_free_region
  add_free_region_result (added m) e w = inl (
    record a { free_space = m; free_bytes = a.free_bytes + r.second },
    ground arith,
    record {
      valid = record {
        gapped = w.0;
        inside = λ x p. ground (arith, w.1 x, v.inside x);
        counted = omega (arith, w.2, v.counted);
      };
      bytes = w.1;
      free = refl;
      disk = refl;
    },
  )
  add_free_region_result (refused double_deallocation) e w = inr (w.0, ground arith, w.1, w.2)
  add_free_region_result (refused out_of_memory) e w = absurd w
  add_free_region_result (refused assertion) e w = absurd w

  add_free_region-cases :
      ((b : DiskAllocator) × (add_free_region r a ≡ done tt b) × Freed r a b)
      ⊎ ((x : ℕ) × (add_free_region r a ≡ thrown double_deallocation a)
          × (hits r x ≡ 1)
          × (0 < cover a.free_space x))
  add_free_region-cases =
      add_free_region_result _ refl (add_region-Added 0 r a.free_space (omega arith) h v.gapped)

-- the bytes of a block
abbrev pub block : ℕ → Bid → Place
block block_size bid = record { first = bid.offset; second = block_size }

module _ (block_size : ℕ) (bid : Bid) (a : DiskAllocator) (v : IsValid a) (h : 0 < block_size)
    (inside : bid.offset + block_size ≤ a.disk_bytes) where
  -- `delete_block` on a block within the disk, of which no byte is free, returns: exactly the bytes of the block
  -- become free, and the invariant holds.
  -- The allocator is valid, and blocks have at least one byte.
  pub delete_block-Freed :
      ((x : ℕ) → hits (block block_size bid) x ≡ 1 → cover a.free_space x ≡ 0)
      → (b : DiskAllocator) × (delete_block block_size bid a ≡ done tt b)
        × Freed (block block_size bid) a b
  unfolding delete_block
  delete_block-Freed used = elim (add_free_region-cases (block block_size bid) a v h inside) [
    | inl w ↦ w
    | inr (x, e, p, q) ↦ absurd (ground (arith, used x p))
  ]

  -- `delete_block` on a block within the disk, of which a byte is free, throws, and the state stays.
  -- The allocator is valid, and blocks have at least one byte.
  pub delete_block-double :
      (x : ℕ)
      → hits (block block_size bid) x ≡ 1
      → 0 < cover a.free_space x
      → delete_block block_size bid a ≡ thrown double_deallocation a
  unfolding delete_block
  delete_block-double x p q = elim (add_free_region-cases (block block_size bid) a v h inside) [
    | inl (b, e, w) ↦
        absurd (omega (arith, w.bytes x, cover-le-one 0 x b.free_space w.valid.gapped))
    | inr (x', e, p', q') ↦ e
  ]

-- The constructor returns a valid allocator of the configured size, with as many bytes free.
pub new_allocator-IsValid :
    (n : ℕ) (autogrow : Bool)
    → (a : DiskAllocator) × (new_allocator n autogrow ≡ done tt a)
      × IsValid a
      × (a.disk_bytes ≡ n)
      × (a.free_bytes ≡ n)
      × (a.autogrow ≡ autogrow)
      × (a.cfg_bytes ≡ n)
unfolding new_allocator
new_allocator-IsValid zero g = (
  record {
    free_space = [];
    free_bytes = 0;
    disk_bytes = 0;
    cfg_bytes = 0;
    file_size = 0;
    autogrow = g;
  },
  unfold grow_file in refl,
  record { gapped = tt; inside = λ x p. refl; counted = refl },
  refl,
  refl,
  refl,
  refl,
)
new_allocator-IsValid (suc n) g =
    let (b, e, w) =
      grow_file-Grown (suc n)
        (record {
          free_space = [];
          free_bytes = 0;
          disk_bytes = 0;
          cfg_bytes = suc n;
          file_size = 0;
          autogrow = g;
        })
        (record { gapped = tt; inside = λ x p. refl; counted = refl }) (omega arith) in
    (b, e, w.valid, omega (arith, w.disk), omega (arith, w.free), w.autogrow_kept, w.cfg_kept)
