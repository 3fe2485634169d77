-- ===== src/Mng/Allocator/Halves.antt =====
-- The recursion of `disk_allocator::new_blocks` on the halves of the blocks.
use stxxl.Prelude.{
  ℕ, ◌/◌, ◌<◌, ◌≡◌, List, [], ◌∷◌, ◌++◌, none, some, length, take, drop, length-take, length-drop,
  length-append, take-append-drop, arith, inl, inr, Option-cases, ap, subst,
}
use stxxl.Mng.Allocator.FreeMap.{Place, find_fit}
use stxxl.Mng.Allocator.Disk.{DiskAllocator, Bid, Outcome, done, hand_out}
use stxxl.Mng.Allocator.Growth.{IsValid}
use stxxl.Mng.Allocator.Sizes.{wanted, wanted-eq, wanted-append, hits_blocks-append}
use stxxl.Mng.Allocator.Regions.{Allocated, Gives, Affordable, Grew, use_region-Allocated}

module _ (bs : ℕ) (h : 0 < bs) where
  pub Allocated-halves :
      (l r l' r' : List Bid) (a b c d : DiskAllocator)
      → Grew a b
      → Allocated bs l l' b c
      → Allocated bs r r' c d
      → Allocated bs (l ++ r) (l' ++ r') a d
  Allocated-halves l r l' r' a b c d (n, w) p q = record {
    valid = q.valid;
    count = omega (arith, length-append l' r', length-append l r, p.count, q.count);
    grows = omega (arith, w.disk, p.grows, q.grows);
    bytes = λ x. ground (
      arith,
      hits_blocks-append bs l' r' x,
      w.bytes x,
      p.bytes x,
      q.bytes x,
      w.disk,
      p.grows,
      q.grows,
    );
    free = omega (
      arith,
      w.free,
      w.disk,
      p.free,
      q.free,
      wanted-eq bs l,
      wanted-eq bs r,
      wanted-eq bs (l ++ r),
      wanted-append bs l r,
    );
    autogrow_kept = ground (arith, w.autogrow_kept, p.autogrow_kept, q.autogrow_kept);
  }

  pub Affordable-front :
      (l r : List Bid) (a : DiskAllocator) → Affordable bs (l ++ r) a → Affordable bs l a
  Affordable-front l r a (inl g) = inl g
  Affordable-front l r a (inr q) =
      inr (omega (arith, wanted-eq bs l, wanted-eq bs (l ++ r), wanted-append bs l r))

  pub Affordable-back :
      (l r l' : List Bid) (a c : DiskAllocator)
      → Affordable bs (l ++ r) a
      → Allocated bs l l' a c
      → Affordable bs r c
  Affordable-back l r l' a c (inl g) p = inl (ground (arith, p.autogrow_kept))
  Affordable-back l r l' a c (inr q) p = inr (
      omega (
        arith,
        wanted-eq bs l,
        wanted-eq bs r,
        wanted-eq bs (l ++ r),
        wanted-append bs l r,
        p.free,
        p.grows,
      ))

  -- Without a region for all the blocks there are at least two of them.
  pub two_blocks :
      (l : List Bid) (b : DiskAllocator)
      → 0 < length l
      → find_fit (wanted bs l) b.free_space ≡ none
      → (wanted bs l ≡ bs → (s : Place) × (find_fit (wanted bs l) b.free_space ≡ some s))
      → 1 < length l
  two_blocks [] b p t one = absurd (omega arith)
  two_blocks (x ∷ []) b p t one =
      let (s, found) = one (omega arith) in absurd (ground (arith, t, found))
  two_blocks (x ∷ y ∷ l) b p t one = omega arith

  pub wanted-two : (l : List Bid) → 1 < length l → bs < wanted bs l
  wanted-two [] p = absurd (omega arith)
  wanted-two (x ∷ []) p = absurd (omega arith)
  wanted-two (x ∷ y ∷ l) p = omega arith

  pub hand_out-halves :
      (again : List Bid → DiskAllocator → Outcome (List Bid)) (l l' r' : List Bid)
      (b c d : DiskAllocator)
      → find_fit (wanted bs l) b.free_space ≡ none
      → 1 < length l
      → again (take (length l / 2) l) b ≡ done l' c
      → again (drop (length l / 2) l) c ≡ done r' d
      → hand_out again bs (wanted bs l) l b ≡ done (l' ++ r') d
  unfolding hand_out
  hand_out-halves again l l' r' b c d t two e e' = ground (arith, wanted-two l two)

  pub halves-Gives :
      (again : List Bid → DiskAllocator → Outcome (List Bid)) (l f r : List Bid)
      (a b : DiskAllocator)
      → ((part : List Bid) (c : DiskAllocator)
          → 0 < length part
          → length part < length l
          → IsValid c
          → Affordable bs part c
          → Gives bs part c (again part c))
      → Grew a b
      → f ++ r ≡ l
      → 0 < length f
      → 0 < length r
      → Affordable bs l b
      → (l' r' : List Bid) × (c d : DiskAllocator) × (again f b ≡ done l' c)
        × (again r c ≡ done r' d)
        × Allocated bs l (l' ++ r') a d
  halves-Gives again l f r a b rec (n, w) e p q ok =
      let ok' = rw (← e) at ok in
      let (l', c, e1, g1) =
        rec f b p (omega (arith, ap length e, length-append f r)) w.valid
          (Affordable-front f r b ok') in
      let (r', d, e2, g2) =
        rec r c q (omega (arith, ap length e, length-append f r)) g1.valid
          (Affordable-back f r l' b c ok' g1) in
      (
        l',
        r',
        c,
        d,
        e1,
        e2,
        subst (λ z. Allocated bs z (l' ++ r') a d) e
            (Allocated-halves f r l' r' a b c d (n, w) g1 g2),
      )

  pub hand_out-Gives :
      (again : List Bid → DiskAllocator → Outcome (List Bid)) (l : List Bid) (a b : DiskAllocator)
      → ((part : List Bid) (c : DiskAllocator)
          → 0 < length part
          → length part < length l
          → IsValid c
          → Affordable bs part c
          → Gives bs part c (again part c))
      → 0 < length l
      → Grew a b
      → Affordable bs l b
      → (wanted bs l ≡ bs → (s : Place) × (find_fit (wanted bs l) b.free_space ≡ some s))
      → Gives bs l a (hand_out again bs (wanted bs l) l b)
  hand_out-Gives again l a b rec long w ok one =
      elim (Option-cases (find_fit (wanted bs l) b.free_space)) [
        | inr (s, t) ↦
            let (l', c, e, g) = use_region-Allocated bs l a b s w t in
            (l', c, unfold hand_out in rw (t, hand_out) e, g)
        | inl t ↦
            let two = two_blocks l b long t one in
            let (l', r', c, d, e1, e2, g) =
              halves-Gives again l (take (length l / 2) l) (drop (length l / 2) l) a b rec w
                (take-append-drop (length l / 2) l) (omega (arith, length-take (length l / 2) l))
                (omega (arith, length-drop (length l / 2) l)) ok in
            (l' ++ r', d, hand_out-halves again l l' r' b c d t two e1 e2, g)
      ]
