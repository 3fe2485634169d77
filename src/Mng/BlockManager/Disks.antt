-- ===== src/Mng/BlockManager/Disks.antt =====
-- The loop over the disks, on each of which the allocator gives the blocks of its disk.
use stxxl.Prelude.{
  ℕ, zero, suc, ◌+◌, ◌*◌, ◌<◌, ◌≤◌, ◌==◌, ◌≡◌, ◌≢◌, refl, ◌∙◌, sym, subst, arith, true, false,
  Bool-cases, inl, inr, ◌⊎◌, List, [], count, replicate, length-replicate, put, put_self, put_other,
}
use stxxl.Mng.Allocator.Disk.{DiskAllocator, Bid, done, thrown, out_of_fuel}
use stxxl.Mng.Allocator.Disk
use stxxl.Mng.Allocator.Growth.{IsValid}
use stxxl.Mng.Allocator.Regions.{Allocated}
use stxxl.Mng.Allocator.Blocks.{new_blocks-Allocated}
use stxxl.Mng.BlockManager.{BlockManager, Result, returned, allocate_disks, with_allocator}

-- Blocks of which no offset is known.
abbrev pub blank : ℕ → List Bid
blank n = replicate n (record { offset = 0 })

-- The allocator gave `n` blocks, or was not asked.
pub data Served (bs n : ℕ) (bids : List Bid) (a b : DiskAllocator) : Type 0 where
  idle : n ≡ 0 → bids ≡ [] → b ≡ a → Served bs n bids a b
  served : Allocated bs (blank n) bids a b → Served bs n bids a b

-- The allocator is valid, and its disk may grow or has room for `n` blocks.
pub record Ready (bs n : ℕ) (a : DiskAllocator) : Type 0 where
  pub valid : IsValid a
  pub room : (a.autogrow ≡ true) ⊎ (n * bs ≤ a.free_bytes)

module _ (bs fuel : ℕ) (disks : List ℕ) where
  -- The disks from `i` on, `n` in number, gave their blocks.
  pub record Spread (n i : ℕ) (handed : ℕ → List Bid) (m : BlockManager)
      (result : Result (ℕ → List Bid)) : Type 0 where
    pub given : ℕ → List Bid
    pub next : BlockManager
    pub returns : result ≡ returned given next
    pub frame : next ≡ record m { allocators = next.allocators }
    pub kept : (d : ℕ) → d < i → (given d ≡ handed d) × (next.allocators d ≡ m.allocators d)
    pub all_served :
        (d : ℕ)
        → i ≤ d
        → d < i + n
        → Served bs (count d disks) (given d) (m.allocators d) (next.allocators d)

  -- The disk `i` was served, and then those after it.
  serve_disk :
      (n i : ℕ) (handed : ℕ → List Bid) (bids : List Bid) (a : DiskAllocator) (m : BlockManager)
      (result : Result (ℕ → List Bid))
      → Served bs (count i disks) bids (m.allocators i) a
      → Spread n (i + 1) (put i bids handed) (with_allocator i a m) result
      → Spread (suc n) i handed m result
  serve_disk n i handed bids a m result first rest = record {
    given = rest.given;
    next = rest.next;
    returns = rest.returns;
    frame = rest.frame;
    kept = λ d h.
        let (e, f) = rest.kept d (omega arith) in
        let ne : d ≢ i = omega arith in
        (e ∙ put_other i bids handed d ne, f ∙ put_other i a m.allocators d ne);
    all_served = λ d l h. elim (Bool-cases (i == d)) [
      | inl t ↦
          let same : i ≡ d = ground arith in
          let (e, f) = rest.kept i (omega arith) in
          subst
            (λ z.
              Served bs (count z disks) (rest.given z) (m.allocators z) (rest.next.allocators z))
            same
            (subst (λ z. Served bs (count i disks) z (m.allocators i) (rest.next.allocators i))
              (sym (e ∙ put_self i bids handed))
              (subst (Served bs (count i disks) bids (m.allocators i))
                (sym (f ∙ put_self i a m.allocators)) first))
      | inr t ↦
          let ne : d ≢ i = λ e. ground arith in
          let later : i + 1 ≤ d = ground arith in
          subst (λ z. Served bs (count d disks) (rest.given d) z (rest.next.allocators d))
            (put_other i a m.allocators d ne) (rest.all_served d later (omega arith))
    ];
  }

  skip_disk :
      (n i : ℕ) (handed : ℕ → List Bid) (m : BlockManager) (result : Result (ℕ → List Bid))
      → count i disks ≡ 0
      → handed i ≡ []
      → Spread n (i + 1) handed m result
      → Spread (suc n) i handed m result
  skip_disk n i handed m result no_block no_bids rest = record {
    given = rest.given;
    next = rest.next;
    returns = rest.returns;
    frame = rest.frame;
    kept = λ d h. rest.kept d (omega arith);
    all_served = λ d l h. elim (Bool-cases (i == d)) [
      | inl t ↦
          let same : i ≡ d = ground arith in
          let (e, f) = rest.kept i (omega arith) in
          subst
            (λ z.
              Served bs (count z disks) (rest.given z) (m.allocators z) (rest.next.allocators z))
            same (idle no_block (e ∙ no_bids) f)
      | inr t ↦ rest.all_served d (ground arith) (omega arith)
    ];
  }

  module _ (h : 0 < bs) (enough : (d : ℕ) → count d disks < fuel) where
    blocks_step :
        (n i : ℕ) (handed : ℕ → List Bid) (bids : List Bid) (a : DiskAllocator) (m : BlockManager)
        → count i disks == 0 ≡ false
        → Disk.new_blocks fuel bs (blank (count i disks)) (m.allocators i) ≡ done bids a
        → allocate_disks fuel bs disks (suc n) i handed m
          ≡ allocate_disks fuel bs disks n (i + 1) (put i bids handed) (with_allocator i a m)
    unfolding allocate_disks
    blocks_step n i handed bids a m some_block e = rw (some_block, allocate_disks, e) refl

    idle_step :
        (n i : ℕ) (handed : ℕ → List Bid) (m : BlockManager)
        → count i disks == 0 ≡ true
        → allocate_disks fuel bs disks (suc n) i handed m
          ≡ allocate_disks fuel bs disks n (i + 1) handed m
    unfolding allocate_disks
    idle_step n i handed m no_block = rw (no_block, allocate_disks) refl

    -- Each disk gives its blocks, where each allocator is valid, and its disk may grow or has room.
    pub allocate_disks-Spread :
        (n i : ℕ) (handed : ℕ → List Bid) (m : BlockManager)
        → ((d : ℕ) → i ≤ d → d < i + n → handed d ≡ [])
        → ((d : ℕ) → i ≤ d → d < i + n → Ready bs (count d disks) (m.allocators d))
        → Spread n i handed m (allocate_disks fuel bs disks n i handed m)
    unfolding allocate_disks
    allocate_disks-Spread zero i handed m none_yet ready = record {
      given = handed;
      next = m;
      returns = refl;
      frame = refl;
      kept = λ d k. (refl, refl);
      all_served = λ d l k. absurd (omega arith);
    }
    allocate_disks-Spread (suc n) i handed m none_yet ready =
        elim (Bool-cases (count i disks == 0)) [
          | inl t ↦ subst (Spread (suc n) i handed m) (sym (idle_step n i handed m t)) (
              skip_disk n i handed m _ (ground arith) (none_yet i (omega arith) (omega arith)) (
                allocate_disks-Spread n (i + 1) handed m
                  (λ d l k. none_yet d (omega arith) (omega arith))
                  (λ d l k. ready d (omega arith) (omega arith))))
          | inr t ↦
              let r = ready i (omega arith) (omega arith) in
              let size =
                length-replicate (count i disks) (let b : Bid = record { offset = 0 } in b) in
              let (bids, a, e, g) =
                new_blocks-Allocated bs h fuel (blank (count i disks)) (m.allocators i)
                  (ground (arith, size)) (omega (arith, size, enough i)) r.valid
                  (elim r.room [ inl w ↦ inl w | inr w ↦ inr (rw size w) ]) in
              subst (Spread (suc n) i handed m) (sym (blocks_step n i handed bids a m t e)) (
                serve_disk n i handed bids a m _ (served g) (
                  allocate_disks-Spread n (i + 1) (put i bids handed) (with_allocator i a m)
                    (λ d l k.
                      put_other i bids handed d (λ c. omega (arith, c, l))
                      ∙ none_yet d (omega arith) (omega arith))
                    (λ d l k.
                      subst (Ready bs (count d disks))
                        (sym (put_other i a m.allocators d (λ c. omega (arith, c, l))))
                        (ready d (omega arith) (omega arith)))))
        ]
