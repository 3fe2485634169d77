-- ===== src/Containers/Vector/Occupy.antt =====
-- A page that takes a free slot of the cache.
use stxxl.Prelude.{
  ℕ, ◌+◌, ◌*◌, ◌==◌, ◌≡◌, ◌≢◌, ◌<◌, refl, ap, ◌∙◌, sym, subst, arith, Bool-cases, inl, inr, none,
  some, List, ◌∷◌, count, put, put_other, put_self,
}
use stxxl.Containers.Pager.Policy.{Policy}
use stxxl.Containers.Vector.{Vector, read_page, occupy}
use stxxl.Containers.Vector.Mapping.{IsMapped-occupy}
use stxxl.Containers.Vector.Cells.{CellHolds, CellHolds-move, stored, changed, copied}
use stxxl.Containers.Vector.Pages.{read_page-Loaded, read_page-cell, read_page-other}
use stxxl.Containers.Vector.Valid.{IsValid, Keeps}

module _ {ℓ} {G : Type 0} {A : Type ℓ} (policy : Policy G) (Valid : G → Type 0) (ps bs : ℕ) where
  pub at_page :
      (v w : Vector G A) (page p b o : ℕ) (y : A)
      → p ≡ page
      → (page * ps + b < v.n_bids → CellHolds ps v page b o y → CellHolds ps w page b o y)
      → p * ps + b < v.n_bids
      → CellHolds ps v p b o y
      → CellHolds ps w p b o y
  at_page v w page p b o y e =
      subst
        (λ z.
          (page * ps + b < v.n_bids → CellHolds ps v page b o y → CellHolds ps w page b o y)
          → z * ps + b < v.n_bids
          → CellHolds ps v z b o y
          → CellHolds ps w z b o y)
        (sym e) (λ f. f)

  module _ (v : Vector G A) (w : IsValid policy Valid ps bs v) (page : ℕ) (l : page < v.n_pages)
      (out : v.page_to_slot page ≡ none) where
    -- A page that has no slot is read from the disk.
    pub brought :
        (b o : ℕ) (y : A)
        → b < ps
        → page * ps + b < v.n_bids
        → {slot : ℕ} (w0 : Vector G A) → w0.page_to_slot page ≡ some slot
        → w0.n_bids ≡ v.n_bids
        → w0.page_status page ≡ v.page_status page
        → w0.disk (page * ps + b) o ≡ v.disk (page * ps + b) o
        → CellHolds ps v page b o y
        → CellHolds ps (read_page policy ps bs page slot w0) page b o y
    brought b o y h k {slot} w0 at n status disk (stored e f g) =
        read_page-cell policy ps bs page slot w0 b o y h (omega arith) at (status ∙ f) (disk ∙ g)
    brought b o y h k {slot} w0 at n status disk (changed s e f g) = absurd (ground arith)
    brought b o y h k {slot} w0 at n status disk (copied s e f g d) = absurd (ground arith)

    -- A free slot holds no page.
    occupied :
        (slot : ℕ) (rest : List ℕ)
        → v.free_slots ≡ slot ∷ rest
        → (p : ℕ) → v.page_to_slot p ≢ some slot
    occupied slot rest e p f =
        let (_, _, _, none_free) = w.mapped.cached p slot f in
        let some_free = ap (count slot) e in ground arith

    pub occupy-Keeps :
        (slot : ℕ) (rest : List ℕ)
        → v.free_slots ≡ slot ∷ rest
        → Keeps policy Valid ps bs v (occupy policy ps bs page slot rest v)
          × ((occupy policy ps bs page slot rest v).page_to_slot page ≡ some slot)
    unfolding occupy
    occupy-Keeps slot rest e =
        let w0 : Vector G A = record v {
          page_to_slot = put page (some slot) v.page_to_slot;
          slot_to_page = put slot page v.slot_to_page;
          free_slots = rest;
        } in
        let r = read_page-Loaded policy ps bs page slot w0 in
        (
          record {
            valid = subst (IsValid policy Valid ps bs) (sym r.frame) (record {
              mapped = IsMapped-occupy w.mapped page slot rest e l out;
              pager = w.pager;
              some_slot = w.some_slot;
              blocks = w.blocks;
              pages = w.pages;
              capacity = w.capacity;
            });
            size = ap (λ z. z.size) r.frame;
            n_bids = ap (λ z. z.n_bids) r.frame;
            n_pages = ap (λ z. z.n_pages) r.frame;
            cells = λ p b o y h k c. elim (Bool-cases (p == page)) [
              | inl t ↦
                  at_page v (read_page policy ps bs page slot w0) page p b o y (ground arith)
                    (λ k' c'.
                      brought b o y h k' w0 (put_self page (some slot) v.page_to_slot) refl refl
                        refl c')
                    k c
              | inr t ↦
                  let same = put_other page (some slot) v.page_to_slot p (ground arith) in
                  read_page-other policy ps bs page slot w0 p b o y h
                    (λ f. occupied slot rest e p (sym same ∙ f))
                    (CellHolds-move ps v w0 p b o y same refl (λ s e. refl) refl c)
            ];
          },
          ap (λ z. z.page_to_slot page) r.frame ∙ put_self page (some slot) v.page_to_slot,
        )
