-- ===== src/Containers/Vector/Valid.antt =====
-- The invariant of a vector, and what a change of its cache keeps.
use stxxl.Prelude.{ℕ, ◌+◌, ◌*◌, ◌≡◌, ◌<◌, ◌≤◌, refl, ◌∙◌, sym, subst, arith}
use stxxl.Containers.Pager.Policy.{Policy}
use stxxl.Containers.Vector.{Vector, with_pager}
use stxxl.Containers.Vector.Mapping.{IsMapped}
use stxxl.Containers.Vector.Cells.{CellHolds, CellHolds-move}

module _ {ℓ} {G : Type 0} {A : Type ℓ} (policy : Policy G) (Valid : G → Type 0) (ps bs : ℕ) where
  -- The slots are those of the pager; there are as many pages as the blocks need, and as many blocks as
  -- the elements need, or more.
  pub record IsValid (v : Vector G A) : Type 0 where
    pub mapped :
        IsMapped (policy.slots v.pager) v.n_pages v.page_to_slot v.slot_to_page v.free_slots
    pub pager : Valid v.pager
    pub some_slot : 0 < policy.slots v.pager
    pub blocks : v.n_bids ≤ v.n_pages * ps
    pub pages : v.n_pages * ps < v.n_bids + ps
    pub capacity : v.size ≤ v.n_bids * bs

  -- `next` has the elements of `v`, and the same sizes.
  pub record Keeps (v next : Vector G A) : Type ℓ where
    pub valid : IsValid next
    pub size : next.size ≡ v.size
    pub n_bids : next.n_bids ≡ v.n_bids
    pub n_pages : next.n_pages ≡ v.n_pages
    pub cells :
        (p b o : ℕ) (y : A)
        → b < ps
        → p * ps + b < v.n_bids
        → CellHolds ps v p b o y
        → CellHolds ps next p b o y

  pub Keeps-trans : (v w x : Vector G A) → Keeps v w → Keeps w x → Keeps v x
  Keeps-trans v w x k k' = record {
    valid = k'.valid;
    size = k'.size ∙ k.size;
    n_bids = k'.n_bids ∙ k.n_bids;
    n_pages = k'.n_pages ∙ k.n_pages;
    cells = λ p b o y h l c. k'.cells p b o y h (omega (arith, k.n_bids)) (k.cells p b o y h l c);
  }

  pub with_pager-Keeps :
      (v : Vector G A) (g : G)
      → IsValid v
      → Valid g
      → policy.slots g ≡ policy.slots v.pager
      → Keeps v (with_pager policy ps bs v g)
  with_pager-Keeps v g w ok e = record {
    valid = record {
      mapped =
          subst (λ z. IsMapped z v.n_pages v.page_to_slot v.slot_to_page v.free_slots) (sym e)
            w.mapped;
      pager = ok;
      some_slot = omega (arith, e, w.some_slot);
      blocks = w.blocks;
      pages = w.pages;
      capacity = w.capacity;
    };
    size = refl;
    n_bids = refl;
    n_pages = refl;
    cells = λ p b o y h l c.
        CellHolds-move ps v (with_pager policy ps bs v g) p b o y refl refl (λ s f. refl) refl c;
  }
