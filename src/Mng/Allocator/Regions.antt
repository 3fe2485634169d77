-- ===== src/Mng/Allocator/Regions.antt =====
-- The two tests of `disk_allocator::new_blocks` that grow the file, and the use of a region.
use stxxl.Prelude.{
  ℕ, ◌+◌, ◌-◌, ◌*◌, ◌==◌, ◌≤◌, ◌<◌, ◌≡◌, refl, true, List, [], ◌∷◌, some, ltb, length, arith, inl,
  inr, Bool-cases, Option-cases, ◌⊎◌,
}
use stxxl.Mng.Allocator.FreeMap.{Place, find_fit, hits, cover}
use stxxl.Mng.Allocator.Taking.{take_space, take_space-Taken}
use stxxl.Mng.Allocator.Disk.{
  DiskAllocator, Bid, Outcome, done, ensure_free, ensure_region, use_region, assign_offsets,
}
use stxxl.Mng.Allocator.Growth.{IsValid, Grown, Grown-refl, grow_file-Grown, Grown-find_fit}
use stxxl.Mng.Allocator.Sizes.{wanted, hits_blocks, wanted-eq, length-assign, hits-assign}

-- The blocks `l` were taken from `a`, and `b` is what it left. The byte law says that each byte of
-- a block was free, or is one that the file grew by, is free no more, and is in no other block.
pub record Allocated (bs : ℕ) (l : List Bid) (l' : List Bid) (a b : DiskAllocator) : Type 0 where
  pub valid : IsValid b
  pub count : length l' ≡ length l
  pub grows : a.disk_bytes ≤ b.disk_bytes
  pub bytes :
      (x : ℕ)
      → cover b.free_space x + hits_blocks bs l' x
        ≡ cover a.free_space x
          + hits (record { first = a.disk_bytes; second = b.disk_bytes - a.disk_bytes }) x
  pub free : b.free_bytes + length l * bs + a.disk_bytes ≡ a.free_bytes + b.disk_bytes
  pub autogrow_kept : b.autogrow ≡ a.autogrow

-- `a` after growing by some bytes
abbrev pub Grew : DiskAllocator → DiskAllocator → Type 0
Grew a b = (n : ℕ) × Grown n a b

pub Grown-trans : {m n : ℕ} {a b c : DiskAllocator} → Grown m a b → Grown n b c → Grown (m + n) a c
Grown-trans {m} {n} {a} {b} {c} p q = record {
  valid = q.valid;
  bytes = λ x. ground (arith, p.bytes x, q.bytes x, p.disk);
  disk = omega (arith, p.disk, q.disk);
  free = omega (arith, p.free, q.free);
  autogrow_kept = ground (arith, p.autogrow_kept, q.autogrow_kept);
  cfg_kept = ground (arith, p.cfg_kept, q.cfg_kept);
}

-- The first test leaves enough free bytes, where the disk may grow or has them.
pub ensure_free-Grew :
    (n : ℕ) (a : DiskAllocator)
    → IsValid a
    → (a.autogrow ≡ true) ⊎ (n ≤ a.free_bytes)
    → (b : DiskAllocator) × (ensure_free n a ≡ done tt b) × Grew a b × (n ≤ b.free_bytes)
unfolding ensure_free
ensure_free-Grew n a v h = elim (Bool-cases (ltb a.free_bytes n)) [
  | inl t ↦
      let (b, e, w) = grow_file-Grown n a v (ground arith) in
      (b, ground arith, (n, w), omega (arith, w.free))
  | inr t ↦ (a, rw t, (0, Grown-refl a v), ground arith)
]

-- The second test finds a region for one block.
pub ensure_region-Grew :
    (bs n : ℕ) (a : DiskAllocator)
    → 0 < bs
    → IsValid a
    → (b : DiskAllocator) × (ensure_region bs n a ≡ done tt b)
      × Grew a b
      × (n ≡ bs → (s : Place) × (find_fit n b.free_space ≡ some s))
unfolding ensure_region
ensure_region-Grew bs n a h v = elim (Option-cases (find_fit n a.free_space)) [
  | inr (s, t) ↦ (a, ground arith, (0, Grown-refl a v), λ e. (s, t))
  | inl t ↦ elim (Bool-cases (n == bs)) [
    | inl u ↦
        let (b, e, w) = grow_file-Grown bs a v h in
        (b, ground arith, (bs, w), λ q. rw q (Grown-find_fit bs a v h b w))
    | inr u ↦ (a, ground arith, (0, Grown-refl a v), λ q. absurd (ground arith))
  ]
]

pub use_region-Allocated :
    (bs : ℕ) (l : List Bid) (a b : DiskAllocator) (s : Place)
    → Grew a b
    → find_fit (wanted bs l) b.free_space ≡ some s
    → (l' : List Bid) × (c : DiskAllocator) × (use_region bs (wanted bs l) l s b ≡ done l' c)
      × Allocated bs l l' a c
unfolding use_region
use_region-Allocated bs l a b s (n, w) e =
    let t = take_space-Taken 0 (wanted bs l) b.free_space s w.valid.gapped e in
    (
      assign_offsets bs s.first l,
      record b {
        free_space = take_space (wanted bs l) s b.free_space;
        free_bytes = b.free_bytes - wanted bs l;
      },
      refl,
      record {
        valid = record {
          gapped = t.gapped;
          inside = λ x p. omega (arith, t.bytes x, w.valid.inside x p);
          counted = omega (arith, w.valid.counted, t.sizes);
        };
        count = length-assign bs s.first l;
        grows = omega (arith, w.disk);
        bytes = λ x. ground (arith, hits-assign bs s.first l x, t.bytes x, w.bytes x, w.disk);
        free = omega (arith, w.free, w.disk, t.sizes, wanted-eq bs l, w.valid.counted);
        autogrow_kept = w.autogrow_kept;
      },
    )

pub wanted-one : (bs : ℕ) (l : List Bid) → 0 < length l → length l ≤ 1 → wanted bs l ≡ bs
wanted-one bs [] p q = absurd (omega arith)
wanted-one bs (b ∷ []) p q = omega arith
wanted-one bs (b ∷ c ∷ l) p q = absurd (omega arith)

-- What a call gives: blocks, and the state that it leaves.
abbrev pub Gives : ℕ → List Bid → DiskAllocator → Outcome (List Bid) → Type 0
Gives bs l a r = (l' : List Bid) × (c : DiskAllocator) × (r ≡ done l' c) × Allocated bs l l' a c

-- The disk may grow, or has enough free bytes.
abbrev pub Affordable : ℕ → List Bid → DiskAllocator → Type 0
Affordable bs l a = (a.autogrow ≡ true) ⊎ (length l * bs ≤ a.free_bytes)
