-- ===== src/Containers/Vector/Access.antt =====
-- Reads of elements, `const_element`, and what `element` does to a page.
use stxxl.Prelude.{
  ℕ, ◌+◌, ◌*◌, ◌==◌, ◌≡◌, ◌<◌, refl, ap, ◌∙◌, sym, subst, arith, inl, inr, some, Option, Bool-cases,
  put_other, put_self,
}
use stxxl.Containers.Pager.Policy.{Policy, IsPolicy}
use stxxl.Containers.Vector.{Vector, dirty, index, mark_dirty, const_element, read, blocks_of}
use stxxl.Containers.Vector.Index.{row-lt, index-Splits, block-lt, row}
use stxxl.Containers.Vector.Cells.{CellHolds, CellHolds-move, stored, changed, copied, Holds}
use stxxl.Containers.Vector.Valid.{IsValid, Keeps}
use stxxl.Containers.Vector.Fetch.{fetch-Fetched}

module _ {ℓ} {G : Type 0} {A : Type ℓ} (policy : Policy G) (Valid : G → Type 0) (ps bs : ℕ) where
  -- A page has at least a block, as the assertions of `read_page` and `write_page` state.
  pub has_block :
      (v : Vector G A) (page : ℕ)
      → IsValid policy Valid ps bs v
      → page < v.n_pages
      → 0 < ps
      → 0 < blocks_of policy ps bs page v
  has_block v page w l h = omega (arith, row page v.n_pages ps l, w.pages)

  -- The page of an element that has a place.
  pub page-lt :
      (v : Vector G A) (i : ℕ)
      → IsValid policy Valid ps bs v
      → 0 < ps
      → 0 < bs
      → i < v.n_bids * bs
      → (index ps bs i).block2 < v.n_pages
  page-lt v i w hp hs l =
      row-lt (index ps bs i).block2 v.n_pages ps
        (omega (arith, block-lt ps bs hp hs i v.n_bids l, w.blocks))

  -- A page of the cache that is dirty has its elements.
  dirty_cell :
      (v : Vector G A) (page slot b o : ℕ) (y : A)
      → v.page_to_slot page ≡ some slot
      → CellHolds ps v page b o y
      → CellHolds ps (mark_dirty policy ps bs page v) page b o y
  dirty_cell v page slot b o y at (stored e f g) = absurd (ground arith)
  dirty_cell v page slot b o y at (changed s e f g) =
      changed s e (put_self page dirty v.page_status) g
  dirty_cell v page slot b o y at (copied s e f g d) =
      changed s e (put_self page dirty v.page_status) g

  pub mark_dirty-Keeps :
      (v : Vector G A) (page slot : ℕ)
      → IsValid policy Valid ps bs v
      → v.page_to_slot page ≡ some slot
      → Keeps policy Valid ps bs v (mark_dirty policy ps bs page v)
  mark_dirty-Keeps v page slot w at = record {
    valid = record {
      mapped = w.mapped;
      pager = w.pager;
      some_slot = w.some_slot;
      blocks = w.blocks;
      pages = w.pages;
      capacity = w.capacity;
    };
    size = refl;
    n_bids = refl;
    n_pages = refl;
    cells = λ p b o y h l c. elim (Bool-cases (p == page)) [
      | inl t ↦
          let e : p ≡ page = ground arith in
          subst
            (λ z. CellHolds ps v z b o y → CellHolds ps (mark_dirty policy ps bs page v) z b o y)
            (sym e) (dirty_cell v page slot b o y at) c
      | inr t ↦
          CellHolds-move ps v (mark_dirty policy ps bs page v) p b o y refl
            (put_other page dirty v.page_status p (ground arith)) (λ s f. refl) refl c
    ];
  }

  -- The element is in the slot of its page.
  pub cached_cell :
      (v : Vector G A) (p slot b o : ℕ) (y : A)
      → v.page_to_slot p ≡ some slot
      → CellHolds ps v p b o y
      → v.cache (slot * ps + b) o ≡ y
  cached_cell v p slot b o y at (stored e f g) = absurd (ground arith)
  cached_cell v p slot b o y at (changed s e f g) =
      let same : slot ≡ s = ground arith in ap (λ z. v.cache (z * ps + b) o) same ∙ g
  cached_cell v p slot b o y at (copied s e f g d) =
      let same : slot ≡ s = ground arith in ap (λ z. v.cache (z * ps + b) o) same ∙ g

  -- A read gives the value of the element, and keeps all elements.
  pub record Reads (v : Vector G A) (i : ℕ) (result : Option (A × Vector G A)) : Type ℓ where
    pub value : A
    pub next : Vector G A
    pub returns : result ≡ some (value, next)
    pub keeps : Keeps policy Valid ps bs v next
    pub reads : (y : A) → Holds ps bs v i y → value ≡ y

  pub Keeps-Holds :
      (v next : Vector G A) (i : ℕ) (y : A)
      → Keeps policy Valid ps bs v next
      → 0 < ps
      → 0 < bs
      → Holds ps bs v i y
      → Holds ps bs next i y
  Keeps-Holds v next i y k hp hs h = record {
    inside = subst (λ z. i < z * bs) (sym k.n_bids) h.inside;
    cell =
        k.cells (index ps bs i).block2 (index ps bs i).block1 (index ps bs i).offset y
          (index-Splits ps bs hp hs i).block1 (block-lt ps bs hp hs i v.n_bids h.inside) h.cell;
  }

  module _ (laws : IsPolicy policy Valid) (hp : 0 < ps) (hs : 0 < bs) where
    -- A read of an element that has a block succeeds. It gives the value of the element, if it has one,
    -- whether its page is in the cache or not. The vector stays valid and keeps its sizes and all elements.
    pub read-Reads :
        (v : Vector G A) (i : ℕ)
        → IsValid policy Valid ps bs v
        → i < v.n_bids * bs
        → Reads v i (read policy ps bs i v)
    unfolding read const_element
    read-Reads v i w l =
        let c = index ps bs i in
        let r = fetch-Fetched policy Valid ps bs laws c.block2 v w (page-lt v i w hp hs l) in
        record {
          value = r.next.cache (r.slot * ps + c.block1) c.offset;
          next = r.next;
          returns = rw r.returns refl;
          keeps = r.keeps;
          reads = λ y h.
              cached_cell r.next c.block2 r.slot c.block1 c.offset y r.at
                (Keeps-Holds v r.next i y r.keeps hp hs h).cell;
        }
