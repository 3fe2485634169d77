-- ===== src/Containers/Vector/Sizes.antt =====
-- The changes of the size of a vector: `reserve`, `_resize` and `clear`.
use native.Mathlib.Nat.{div-lt_iff_lt-mul}
use stxxl.Prelude.{
  ℕ, zero, suc, ◌+◌, ◌-◌, ◌*◌, ◌≡◌, ◌≢◌, ◌<◌, ◌≤◌, refl, ◌∙◌, sym, subst, arith, inl, inr, none,
  Bool-cases, Option-cases, true, ltb, leb, if◌then◌else◌, [], ◌∷◌, ◌++◌, put, put_other,
}
use stxxl.Containers.NormalStack.{Block}
use stxxl.Containers.Pager.Policy.{Policy}
use stxxl.Containers.Vector.{Vector, uninitialized, index, div_ceil, blocked_index}
use stxxl.Containers.Vector.Resizing.{reserve, evict, evict_pages, resize}
use stxxl.Containers.Vector.Index.{row-lt, block-lt, div_ceil_bounds}
use stxxl.Containers.Vector.Mapping.{IsMapped-evict, IsMapped-grow}
use stxxl.Containers.Vector.Cells.{CellHolds, CellHolds-move, Holds}
use stxxl.Containers.Vector.Valid.{IsValid}
use stxxl.Containers.Vector.Access.{page-lt}

-- More blocks do not need fewer pages.
more_pages :
    (ps n_bids n_pages new_bids : ℕ)
    → 0 < ps
    → n_pages * ps < n_bids + ps
    → n_bids ≤ new_bids
    → n_pages ≤ div_ceil new_bids ps
more_pages ps n_bids n_pages new_bids hp h m =
    let (up, _) = div_ceil_bounds new_bids ps hp in
    omega (arith, row-lt n_pages (suc (div_ceil new_bids ps)) ps (omega arith))

-- The page of an element that stays is not evicted.
page-first :
    (ps bs i n : ℕ) → 0 < ps → 0 < bs → i < n → (index ps bs i).block2 < div_ceil n (bs * ps)
unfolding blocked_index
page-first ps bs i n hp hs h =
    let pos : 0 < bs * ps = grind arith in
    let (up, _) = div_ceil_bounds n (bs * ps) pos in
    (div-lt_iff_lt-mul {k = bs * ps} {x = i} {y = div_ceil n (bs * ps)} pos).1 (omega arith)

module _ {ℓ} {G : Type 0} {A : Type ℓ} (policy : Policy G) (Valid : G → Type 0) (ps bs : ℕ) where
  -- The vector has at least `n` elements of space, and all its elements.
  pub record Reserved (v : Vector G A) (n : ℕ) (next : Vector G A) : Type ℓ where
    pub valid : IsValid policy Valid ps bs next
    pub size : next.size ≡ v.size
    pub room : n ≤ next.n_bids * bs
    pub more : v.n_bids ≤ next.n_bids
    pub kept : (i : ℕ) (y : A) → Holds ps bs v i y → Holds ps bs next i y

  module _ (hp : 0 < ps) (hs : 0 < bs) (fresh : ℕ → Block A) where
    pub reserve-Reserved :
        (n : ℕ) (v : Vector G A)
        → IsValid policy Valid ps bs v
        → Reserved v n (reserve policy ps bs fresh n v)
    unfolding reserve
    reserve-Reserved n v w = elim (Bool-cases (leb n (v.n_bids * bs))) [
      | inl t ↦ rw t (record {
        valid = w;
        size = refl;
        room = ground arith;
        more = ground arith;
        kept = λ i y h. h;
      })
      | inr t ↦
          let new_bids = div_ceil n bs in
          let (up, _) = div_ceil_bounds n bs hs in
          let (up1, near1) = div_ceil_bounds new_bids ps hp in
          let longer : v.n_bids < new_bids = row-lt v.n_bids new_bids bs (ground (arith, up)) in
          let pages = more_pages ps v.n_bids v.n_pages new_bids hp w.pages (omega arith) in
          let next : Vector G A = record v {
            n_pages = div_ceil new_bids ps;
            page_status = λ p. if ltb p v.n_pages then v.page_status p else uninitialized;
            page_to_slot = λ p. if ltb p v.n_pages then v.page_to_slot p else none;
            n_bids = new_bids;
            disk = λ b. if ltb b v.n_bids then v.disk b else fresh b;
          } in
          rw t (record {
            valid = record {
              mapped = IsMapped-grow w.mapped (div_ceil new_bids ps) pages;
              pager = w.pager;
              some_slot = w.some_slot;
              blocks = up1;
              pages = near1;
              capacity = ground (arith, w.capacity, up);
            };
            size = refl;
            room = up;
            more = omega arith;
            kept = λ i y h.
                let c = index ps bs i in
                let old_page : ltb c.block2 v.n_pages ≡ true =
                  ground (arith, page-lt policy Valid ps bs v i w hp hs h.inside) in
                let old_block : ltb (c.block2 * ps + c.block1) v.n_bids ≡ true =
                  ground (arith, block-lt ps bs hp hs i v.n_bids h.inside) in
                record {
                  inside = ground (arith, h.inside, up);
                  cell =
                      CellHolds-move ps v next c.block2 c.block1 c.offset y (rw old_page refl)
                        (rw old_page refl) (λ s e. refl) (rw old_block refl) h.cell;
                };
          })
    ]

  -- Pages from `page` on are out of the cache; the ones before it stay.
  record Evicted (page : ℕ) (v next : Vector G A) : Type ℓ where
    valid : IsValid policy Valid ps bs next
    size : next.size ≡ v.size
    n_bids : next.n_bids ≡ v.n_bids
    kept : (p b o : ℕ) (y : A) → p < page → CellHolds ps v p b o y → CellHolds ps next p b o y

  evict-Evicted :
      (page : ℕ) (v : Vector G A)
      → IsValid policy Valid ps bs v
      → Evicted page v (evict policy ps bs page v)
  unfolding evict
  evict-Evicted page v w = elim (Option-cases (v.page_to_slot page)) [
    | inl e ↦
        let next : Vector G A = record v { page_status = put page uninitialized v.page_status } in
        rw (e, evict)
          (record {
            valid = record {
              mapped = w.mapped;
              pager = w.pager;
              some_slot = w.some_slot;
              blocks = w.blocks;
              pages = w.pages;
              capacity = w.capacity;
            };
            size = refl;
            n_bids = refl;
            kept = λ p b o y h c.
                CellHolds-move ps v next p b o y refl
                  (put_other page uninitialized v.page_status p (omega arith)) (λ s f. refl) refl c;
          })
    | inr (slot, e) ↦
        let next : Vector G A = record v {
          free_slots = v.free_slots ++ (slot ∷ []);
          page_to_slot = put page none v.page_to_slot;
          page_status = put page uninitialized v.page_status;
        } in
        rw (e, evict)
          (record {
            valid = record {
              mapped = IsMapped-evict w.mapped page slot e;
              pager = w.pager;
              some_slot = w.some_slot;
              blocks = w.blocks;
              pages = w.pages;
              capacity = w.capacity;
            };
            size = refl;
            n_bids = refl;
            kept = λ p b o y h c.
                let ne : p ≢ page = omega arith in
                CellHolds-move ps v next p b o y (put_other page none v.page_to_slot p ne)
                  (put_other page uninitialized v.page_status p ne) (λ s f. refl) refl c;
          })
  ]

  evict_pages-Evicted :
      (n page : ℕ) (v : Vector G A)
      → IsValid policy Valid ps bs v
      → Evicted page v (evict_pages policy ps bs n page v)
  unfolding evict_pages
  evict_pages-Evicted zero page v w = record {
    valid = w;
    size = refl;
    n_bids = refl;
    kept = λ p b o y h c. c;
  }
  evict_pages-Evicted (suc n) page v w =
      let first = evict-Evicted page v w in
      let rest = evict_pages-Evicted n (page + 1) (evict policy ps bs page v) first.valid in
      record {
        valid = rest.valid;
        size = rest.size ∙ first.size;
        n_bids = rest.n_bids ∙ first.n_bids;
        kept = λ p b o y h c. rest.kept p b o y (omega arith) (first.kept p b o y h c);
      }

  -- The vector has `n` elements, and the first `n` of those that it had.
  pub record Sized (v : Vector G A) (n : ℕ) (next : Vector G A) : Type ℓ where
    pub valid : IsValid policy Valid ps bs next
    pub size : next.size ≡ n
    pub more : v.n_bids ≤ next.n_bids
    pub kept : (i : ℕ) (y : A) → i < n → Holds ps bs v i y → Holds ps bs next i y

  -- The number of elements is not part of an element.
  sized :
      (v : Vector G A) (n i : ℕ) (y : A)
      → Holds ps bs v i y
      → Holds ps bs (record v { size = n }) i y
  sized v n i y h = record {
    inside = h.inside;
    cell =
        CellHolds-move ps v (record v { size = n }) (index ps bs i).block2 (index ps bs i).block1
          (index ps bs i).offset y refl refl (λ s f. refl) refl h.cell;
  }

  module _ (hp : 0 < ps) (hs : 0 < bs) (fresh : ℕ → Block A) where
    -- A valid vector that is resized is valid, with the new size and blocks for it. The elements
    -- that are in both sizes keep their values: a smaller size takes no page with one of them out
    -- of the cache. Blocks and pages are not empty.
    pub resize-Sized :
        (n : ℕ) (v : Vector G A)
        → IsValid policy Valid ps bs v
        → Sized v n (resize policy ps bs fresh n v)
    unfolding resize
    resize-Sized n v w =
        let r = reserve policy ps bs fresh n v in
        let s = reserve-Reserved hp hs fresh n v w in
        elim (Bool-cases (ltb n r.size)) [
          | inl t ↦
              let first = div_ceil n (bs * ps) in
              let last = evict_pages policy ps bs (r.n_pages - first) first r in
              let e = evict_pages-Evicted (r.n_pages - first) first r s.valid in
              rw t (record {
                valid = record {
                  mapped = e.valid.mapped;
                  pager = e.valid.pager;
                  some_slot = e.valid.some_slot;
                  blocks = e.valid.blocks;
                  pages = e.valid.pages;
                  capacity = subst (λ z. n ≤ z * bs) (sym e.n_bids) s.room;
                };
                size = refl;
                more = omega (arith, s.more, e.n_bids);
                kept = λ i y h k.
                    let k' = s.kept i y k in
                    let c = index ps bs i in
                    sized last n i y (record {
                      inside = subst (λ z. i < z * bs) (sym e.n_bids) k'.inside;
                      cell =
                          e.kept c.block2 c.block1 c.offset y (page-first ps bs i n hp hs h)
                            k'.cell;
                    });
              })
          | inr t ↦ rw t (record {
            valid = record {
              mapped = s.valid.mapped;
              pager = s.valid.pager;
              some_slot = s.valid.some_slot;
              blocks = s.valid.blocks;
              pages = s.valid.pages;
              capacity = s.room;
            };
            size = refl;
            more = s.more;
            kept = λ i y h k. sized r n i y (s.kept i y k);
          })
        ]
