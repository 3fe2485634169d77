-- ===== src/Mng/Allocator/Blocks.antt =====
-- `disk_allocator::new_blocks`: that it returns, what it hands out, and when it throws.
use stxxl.Prelude.{
  ℕ, zero, suc, ◌+◌, ◌*◌, ◌≤◌, ◌<◌, ◌≡◌, true, false, List, length, arith, inl, inr, ◌⊎◌, ◌∙◌, sym,
}
use stxxl.Mng.Allocator.FreeMap.{cover}
use stxxl.Mng.Allocator.Region.{out_of_memory}
use stxxl.Mng.Allocator.Taking.{cover-le-one}
use stxxl.Mng.Allocator.Disk.{
  DiskAllocator, Bid, done, thrown, ensure_free, ensure_region, requested_size, new_blocks,
  hand_out, >>=-done, >>=-thrown,
}
use stxxl.Mng.Allocator.Growth.{IsValid}
use stxxl.Mng.Allocator.Sizes.{wanted, hits_blocks, requested_size-eq, wanted-eq}
use stxxl.Mng.Allocator.Regions.{
  Gives, Affordable, Grew, Grown-trans, ensure_free-Grew, ensure_region-Grew,
}
use stxxl.Mng.Allocator.Halves.{hand_out-Gives}

ensure_free_throws :
    (n : ℕ) (a : DiskAllocator)
    → a.autogrow ≡ false
    → a.free_bytes < n
    → ensure_free n a ≡ thrown out_of_memory a
unfolding ensure_free
ensure_free_throws n a g q = ground arith

module _ (bs : ℕ) (h : 0 < bs) where
  Affordable-Grew :
      (l : List Bid) (a b : DiskAllocator) → Affordable bs l a → Grew a b → Affordable bs l b
  Affordable-Grew l a b (inl g) (n, w) = inl (ground (arith, w.autogrow_kept))
  Affordable-Grew l a b (inr q) (n, w) = inr (omega (arith, w.free))

  Affordable-wanted :
      (l : List Bid) (a : DiskAllocator)
      → Affordable bs l a
      → (a.autogrow ≡ true) ⊎ (wanted bs l ≤ a.free_bytes)
  Affordable-wanted l a (inl g) = inl g
  Affordable-wanted l a (inr q) = inr (omega (arith, wanted-eq bs l))

  shorter : {x y : ℕ} (k : ℕ) → x < y → y < suc k → x < k
  shorter k p q = omega arith

  requested_size-zero : (l : List Bid) → requested_size bs 0 l ≡ wanted bs l
  requested_size-zero l = omega (arith, requested_size-eq bs 0 l)

  new_blocks_step :
      (k n : ℕ) (l : List Bid) (a b c : DiskAllocator)
      → requested_size bs 0 l ≡ n
      → ensure_free n a ≡ done tt b
      → ensure_region bs n b ≡ done tt c
      → new_blocks (suc k) bs l a ≡ hand_out (λ part. new_blocks k bs part) bs n l c
  unfolding new_blocks
  new_blocks_step k n l a b c q e e' =
      rw q (>>=-done (ensure_free n) _ e ∙ >>=-done (ensure_region bs n) _ e')

  -- `new_blocks` for at least one block, with more fuel than there are blocks, returns on a valid
  -- allocator whose disk may grow or has enough free bytes: it hands out that many blocks, each byte
  -- of them was free or is new and is free no more, and the allocator stays valid.
  -- Blocks have at least one byte.
  pub new_blocks-Allocated :
      (k : ℕ) (l : List Bid) (a : DiskAllocator)
      → 0 < length l
      → length l < k
      → IsValid a
      → Affordable bs l a
      → Gives bs l a (new_blocks k bs l a)
  unfolding new_blocks
  new_blocks-Allocated zero l a long f v ok = absurd (omega arith)
  new_blocks-Allocated (suc k) l a long f v ok =
      let (b, e, (m, w), enough) = ensure_free-Grew (wanted bs l) a v (Affordable-wanted l a ok) in
      let (c, e', (n, w'), one) = ensure_region-Grew bs (wanted bs l) b h w.valid in
      let grew : Grew a c = (m + n, Grown-trans w w') in
      let (l', d, e2, g) =
        hand_out-Gives bs h (λ part. new_blocks k bs part) l a c
          (λ part d p q v' ok'. new_blocks-Allocated k part d p (shorter k q f) v' ok') long grew
          (Affordable-Grew l a c ok grew) one in
      (l', d, new_blocks_step k (wanted bs l) l a b c (requested_size-zero l) e e' ∙ e2, g)

  -- `new_blocks` on a disk that may not grow, with too few free bytes, throws, and the state stays.
  -- Blocks have at least one byte.
  pub new_blocks-out_of_memory :
      (k : ℕ) (l : List Bid) (a : DiskAllocator)
      → a.autogrow ≡ false
      → a.free_bytes < length l * bs
      → new_blocks (suc k) bs l a ≡ thrown out_of_memory a
  unfolding new_blocks
  new_blocks-out_of_memory k l a g q = >>=-thrown (ensure_free (requested_size bs 0 l)) _ (
      ensure_free_throws (requested_size bs 0 l) a g
        (omega (arith, requested_size-zero l, wanted-eq bs l)))

  -- When `new_blocks` for at least one block, with more fuel than there are blocks, on a valid
  -- allocator whose disk may grow or has enough free bytes, returned, no byte is both free and in one
  -- of the blocks, or in two of them.
  -- Blocks have at least one byte.
  pub new_blocks_disjoint :
      (k : ℕ) (l l' : List Bid) (a b : DiskAllocator)
      → 0 < length l
      → length l < k
      → IsValid a
      → Affordable bs l a
      → new_blocks k bs l a ≡ done l' b
      → (x : ℕ) → cover b.free_space x + hits_blocks bs l' x ≤ 1
  new_blocks_disjoint k l l' a b long f v ok e x =
      let (m', c, e', g) = new_blocks-Allocated k l a long f v ok in
      let same : done m' c ≡ done l' b = sym e' ∙ e in
      let at_one : cover c.free_space x + hits_blocks bs m' x ≤ 1 =
        ground (arith, g.bytes x, v.inside x, cover-le-one 0 x a.free_space v.gapped) in
      ground (arith, same, at_one)
