-- ===== src/Containers/Vector/Replace.antt =====
-- A page that takes the slot of another, which is written first if it is dirty.
use stxxl.Prelude.{
  ℕ, ◌+◌, ◌*◌, ◌==◌, ◌≡◌, ◌≢◌, ◌<◌, refl, ap, ◌∙◌, sym, subst, arith, Bool-cases, inl, inr, none,
  some, [], put, put_other, put_self,
}
use stxxl.Containers.Pager.Policy.{Policy}
use stxxl.Containers.Vector.{Vector, read_page, write_page, replace}
use stxxl.Containers.Vector.Mapping.{IsMapped-replace, same_page}
use stxxl.Containers.Vector.Cells.{CellHolds, CellHolds-move, stored, changed, copied}
use stxxl.Containers.Vector.Pages.{
  write_page-Written, read_page-Loaded, read_page-other, write_page-cell, write_page-other,
}
use stxxl.Containers.Vector.Valid.{IsValid, Keeps}
use stxxl.Containers.Vector.Occupy.{at_page, brought}

module _ {ℓ} {G : Type 0} {A : Type ℓ} (policy : Policy G) (Valid : G → Type 0) (ps bs : ℕ) where
  -- A page that is written, and has given its slot up, is on the disk.
  pub gave_way :
      (v w0 : Vector G A) (page slot b o : ℕ) (y : A)
      → b < ps
      → page * ps + b < v.n_bids
      → v.page_to_slot page ≡ some slot
      → w0.page_to_slot page ≡ none
      → w0.n_bids ≡ v.n_bids
      → w0.page_status ≡ v.page_status
      → w0.cache ≡ v.cache
      → w0.disk ≡ v.disk
      → CellHolds ps v page b o y
      → CellHolds ps (write_page policy ps bs page slot w0) page b o y
  gave_way v w0 page slot b o y h k held at n status cache disk (stored e f g) =
      absurd (ground arith)
  gave_way v w0 page slot b o y h k held at n status cache disk (changed s e f g) =
      let same : s ≡ slot = ground arith in
      write_page-cell policy ps bs page slot w0 b o y h (omega arith) at (
        inl (
          ap (λ z. z page) status ∙ f,
          ap (λ z. z (slot * ps + b) o) cache ∙ ap (λ z. v.cache (z * ps + b) o) (sym same) ∙ g,
        ))
  gave_way v w0 page slot b o y h k held at n status cache disk (copied s e f g d) =
      write_page-cell policy ps bs page slot w0 b o y h (omega arith) at
        (inr (ap (λ z. z page) status ∙ f, ap (λ z. z (page * ps + b) o) disk ∙ d))

  module _ (v : Vector G A) (w : IsValid policy Valid ps bs v) (page : ℕ) (l : page < v.n_pages)
      (out : v.page_to_slot page ≡ none) where
    pub replace-Keeps :
        (slot : ℕ)
        → v.free_slots ≡ []
        → slot < policy.slots v.pager
        → Keeps policy Valid ps bs v (replace policy ps bs page slot v)
          × ((replace policy ps bs page slot v).page_to_slot page ≡ some slot)
    unfolding replace
    replace-Keeps slot e inside_slot =
        let old = v.slot_to_page slot in
        let held = w.mapped.taken slot inside_slot (rw e refl) in
        let ne : page ≢ old = λ f. ground (arith, ap v.page_to_slot f) in
        let w0 : Vector G A = record v {
          page_to_slot = put old none (put page (some slot) v.page_to_slot);
          slot_to_page = put slot page v.slot_to_page;
        } in
        let w1 = write_page policy ps bs old slot w0 in
        let written = write_page-Written policy ps bs old slot w0 in
        let r = read_page-Loaded policy ps bs page slot w1 in
        let at1 : w1.page_to_slot page ≡ some slot =
          ap (λ z. z.page_to_slot page) written.frame
          ∙ put_other old none (put page (some slot) v.page_to_slot) page ne
          ∙ put_self page (some slot) v.page_to_slot in
        let at_old0 : w0.page_to_slot old ≡ none =
          put_self old none (put page (some slot) v.page_to_slot) in
        let at_old : w1.page_to_slot old ≡ none =
          ap (λ z. z.page_to_slot old) written.frame ∙ at_old0 in
        (
          record {
            valid = subst (IsValid policy Valid ps bs) (sym r.frame) (
                subst
                  (λ z.
                    IsValid policy Valid ps bs
                      (record z { cache = (read_page policy ps bs page slot w1).cache }))
                  (sym written.frame)
                  (record {
                    mapped = IsMapped-replace w.mapped page slot e l inside_slot out;
                    pager = w.pager;
                    some_slot = w.some_slot;
                    blocks = w.blocks;
                    pages = w.pages;
                    capacity = w.capacity;
                  }));
            size = ap (λ z. z.size) r.frame ∙ ap (λ z. z.size) written.frame;
            n_bids = ap (λ z. z.n_bids) r.frame ∙ ap (λ z. z.n_bids) written.frame;
            n_pages = ap (λ z. z.n_pages) r.frame ∙ ap (λ z. z.n_pages) written.frame;
            cells = λ p b o y h k c. elim (Bool-cases (p == page)) [
              | inl t ↦
                  at_page policy Valid ps bs v (read_page policy ps bs page slot w1) page p b o y
                    (ground arith)
                    (λ k' c'.
                      brought policy Valid ps bs v w page l out b o y h k' w1 at1
                        (ap (λ z. z.n_bids) written.frame) (written.kept page ne)
                        (ap (λ z. z o) (written.other page b ne h)) c')
                    k c
              | inr t ↦ elim (Bool-cases (p == old)) [
                | inl u ↦
                    at_page policy Valid ps bs v (read_page policy ps bs page slot w1) old p b o y
                      (ground arith)
                      (λ k' c'.
                        read_page-other policy ps bs page slot w1 old b o y h
                          (λ f. ground (arith, sym at_old ∙ f))
                          (gave_way v w0 old slot b o y h k' held at_old0 refl refl refl refl c'))
                      k c
                | inr u ↦
                    let not_old : p ≢ old = ground arith in
                    let same0 : w0.page_to_slot p ≡ v.page_to_slot p =
                      put_other old none (put page (some slot) v.page_to_slot) p not_old
                      ∙ put_other page (some slot) v.page_to_slot p (ground arith) in
                    let same1 = ap (λ z. z.page_to_slot p) written.frame ∙ same0 in
                    read_page-other policy ps bs page slot w1 p b o y h
                      (λ f. not_old (same_page w.mapped p old slot (sym same1 ∙ f) held))
                      (write_page-other policy ps bs old slot w0 p b o y h not_old
                        (CellHolds-move ps v w0 p b o y same0 refl (λ s g. refl) refl c))
              ]
            ];
          },
          ap (λ z. z.page_to_slot page) r.frame ∙ at1,
        )
