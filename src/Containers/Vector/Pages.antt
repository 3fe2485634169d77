-- ===== src/Containers/Vector/Pages.antt =====
-- What `read_page` and `write_page` do to a vector.
use stxxl.Prelude.{
  ℕ, ◌+◌, ◌*◌, ◌≡◌, ◌≢◌, ◌<◌, ◌≤◌, ◌⊎◌, refl, ap, ◌∙◌, sym, arith, inl, inr, subst, some, none,
  put_other, put_self,
}
use stxxl.Containers.NormalStack.{Block}
use stxxl.Containers.Pager.Policy.{Policy}
use stxxl.Containers.Vector.{
  Vector, PageStatus, valid_on_disk, uninitialized, dirty, blocks_of, move_blocks, read_page,
  write_page,
}
use stxxl.Containers.Vector.Index.{row-outside}
use stxxl.Containers.Vector.Cells.{
  move_blocks-in, move_blocks-out, CellHolds, CellHolds-move, stored, copied,
}

pub PageStatus-cases : (s : PageStatus) → (s ≡ dirty) ⊎ ((s ≡ valid_on_disk) ⊎ (s ≡ uninitialized))
PageStatus-cases valid_on_disk = inr (inl refl)
PageStatus-cases uninitialized = inr (inr refl)
PageStatus-cases dirty = inl refl

moved_out {ℓ} :
    {A : Type ℓ} (n f page ps : ℕ) (from to : ℕ → Block A) (p b : ℕ)
    → n ≤ ps
    → p ≢ page
    → b < ps
    → move_blocks n f (page * ps) from to (p * ps + b) ≡ to (p * ps + b)
moved_out n f page ps from to p b h ne l =
    move_blocks-out n f (page * ps) from to (p * ps + b)
      (elim (row-outside p page b ps ne l) [ inl k ↦ inl k | inr k ↦ inr (omega (arith, h, k)) ])

module _ {ℓ} {G : Type 0} {A : Type ℓ} (policy : Policy G) (ps bs page slot : ℕ)
    (w : Vector G A) where
  -- The vector after `write_page`, `next`, has what was in the slot on the disk.
  pub record Written (next : Vector G A) : Type ℓ where
    pub frame : next ≡ record w { disk = next.disk; page_status = next.page_status }
    pub kept : (p : ℕ) → p ≢ page → next.page_status p ≡ w.page_status p
    pub other : (p b : ℕ) → p ≢ page → b < ps → next.disk (p * ps + b) ≡ w.disk (p * ps + b)
    pub own :
        w.page_status page ≡ dirty
        → (next.page_status page ≡ valid_on_disk)
          × ((b : ℕ)
              → b < ps
              → page * ps + b < w.n_bids
              → next.disk (page * ps + b) ≡ w.cache (slot * ps + b))
    pub idle : w.page_status page ≢ dirty → next ≡ w

  write_page-idle :
      (w.page_status page ≡ valid_on_disk) ⊎ (w.page_status page ≡ uninitialized)
      → write_page policy ps bs page slot w ≡ w
  unfolding write_page
  write_page-idle (inl e) = rw (e, write_page) refl
  write_page-idle (inr e) = rw (e, write_page) refl

  not_dirty :
      (w.page_status page ≡ valid_on_disk) ⊎ (w.page_status page ≡ uninitialized)
      → w.page_status page ≢ dirty
  not_dirty (inl e) f = cc
  not_dirty (inr e) f = cc

  pub write_page-Written : Written (write_page policy ps bs page slot w)
  unfolding write_page
  write_page-Written =
      let n = blocks_of policy ps bs page w in
      elim (PageStatus-cases (w.page_status page)) [
        | inl e ↦
            rw (e, write_page)
              (record {
                frame = refl;
                kept = λ p ne. put_other page valid_on_disk w.page_status p ne;
                other = λ p b ne h.
                    moved_out n (slot * ps) page ps w.cache w.disk p b (omega arith) ne h;
                own = λ f. (
                  put_self page valid_on_disk w.page_status,
                  λ b h l. move_blocks-in n (slot * ps) (page * ps) w.cache w.disk b (omega arith),
                );
                idle = λ ne. absurd (ne e);
              })
        | inr r ↦ subst Written (sym (write_page-idle r)) (record {
          frame = refl;
          kept = λ p ne. refl;
          other = λ p b ne h. refl;
          own = λ f. absurd (not_dirty r f);
          idle = λ ne. refl;
        })
      ]

  -- The vector after `read_page` has the page in the slot.
  pub record Loaded (next : Vector G A) : Type ℓ where
    pub frame : next ≡ record w { cache = next.cache }
    pub other : (s b : ℕ) → s ≢ slot → b < ps → next.cache (s * ps + b) ≡ w.cache (s * ps + b)
    pub own :
        w.page_status page ≡ valid_on_disk
        → (b : ℕ) → b < ps
        → page * ps + b < w.n_bids
        → next.cache (slot * ps + b) ≡ w.disk (page * ps + b)

  brought : Vector G A
  brought = record w {
    cache = move_blocks (blocks_of policy ps bs page w) (page * ps) (slot * ps) w.disk w.cache;
  }

  brought-Loaded : Loaded brought
  unfolding brought
  brought-Loaded =
      let n = blocks_of policy ps bs page w in
      record {
        frame = refl;
        other = λ s b ne h. moved_out n (page * ps) slot ps w.disk w.cache s b (omega arith) ne h;
        own = λ e b h l. move_blocks-in n (page * ps) (slot * ps) w.disk w.cache b (omega arith);
      }

  pub read_page-Loaded : Loaded (read_page policy ps bs page slot w)
  unfolding read_page brought
  read_page-Loaded = elim (PageStatus-cases (w.page_status page)) [
    | inl e ↦ rw (e, read_page) brought-Loaded
    | inr (inl e) ↦ rw (e, read_page) brought-Loaded
    | inr (inr e) ↦
        rw (e, read_page)
          (record {
            frame = refl;
            other = λ s b ne h. refl;
            own = λ f. absurd (let g : uninitialized ≡ valid_on_disk = cc in cc);
          })
  ]

-- The elements of the pages, after `read_page` and `write_page`.
module _ {ℓ} {G : Type 0} {A : Type ℓ} (policy : Policy G) (ps bs page slot : ℕ)
    (w : Vector G A) where
  -- A page that has its slot, and is on the disk, is read.
  pub read_page-cell :
      (b o : ℕ) (y : A)
      → b < ps
      → page * ps + b < w.n_bids
      → w.page_to_slot page ≡ some slot
      → w.page_status page ≡ valid_on_disk
      → w.disk (page * ps + b) o ≡ y
      → CellHolds ps (read_page policy ps bs page slot w) page b o y
  read_page-cell b o y h l at e f =
      let r = read_page-Loaded policy ps bs page slot w in
      copied slot (ap (λ z. z.page_to_slot page) r.frame ∙ at)
        (ap (λ z. z.page_status page) r.frame ∙ e) (ap (λ z. z o) (r.own e b h l) ∙ f)
        (ap (λ z. z.disk (page * ps + b) o) r.frame ∙ f)

  -- Pages in other slots, and those on the disk, stay.
  pub read_page-other :
      (p b o : ℕ) (y : A)
      → b < ps
      → w.page_to_slot p ≢ some slot
      → CellHolds ps w p b o y
      → CellHolds ps (read_page policy ps bs page slot w) p b o y
  read_page-other p b o y h ne c =
      let r = read_page-Loaded policy ps bs page slot w in
      CellHolds-move ps w (read_page policy ps bs page slot w) p b o y
        (ap (λ z. z.page_to_slot p) r.frame) (ap (λ z. z.page_status p) r.frame)
        (λ s e. ap (λ z. z o) (r.other s b (λ k. ne (e ∙ ap some k)) h))
        (ap (λ z. z.disk (p * ps + b) o) r.frame) c

  -- A page that has given up its slot is on the disk after it is written.
  pub write_page-cell :
      (b o : ℕ) (y : A)
      → b < ps
      → page * ps + b < w.n_bids
      → w.page_to_slot page ≡ none
      → ((w.page_status page ≡ dirty) × (w.cache (slot * ps + b) o ≡ y))
        ⊎ ((w.page_status page ≡ valid_on_disk) × (w.disk (page * ps + b) o ≡ y))
      → CellHolds ps (write_page policy ps bs page slot w) page b o y
  write_page-cell b o y h l at k =
      let r = write_page-Written policy ps bs page slot w in
      let to_slot = ap (λ z. z.page_to_slot page) r.frame in
      elim k [
        | inl (e, f) ↦
            let (status, disk) = r.own e in
            stored (to_slot ∙ at) status (ap (λ z. z o) (disk b h l) ∙ f)
        | inr (e, f) ↦
            let same = r.idle (not_dirty policy ps bs page slot w (inl e)) in
            stored (to_slot ∙ at) (ap (λ z. z.page_status page) same ∙ e)
              (ap (λ z. z.disk (page * ps + b) o) same ∙ f)
      ]

  pub write_page-other :
      (p b o : ℕ) (y : A)
      → b < ps
      → p ≢ page
      → CellHolds ps w p b o y
      → CellHolds ps (write_page policy ps bs page slot w) p b o y
  write_page-other p b o y h ne c =
      let r = write_page-Written policy ps bs page slot w in
      CellHolds-move ps w (write_page policy ps bs page slot w) p b o y
        (ap (λ z. z.page_to_slot p) r.frame) (r.kept p ne)
        (λ s e. ap (λ z. z.cache (s * ps + b) o) r.frame) (ap (λ z. z o) (r.other p b ne h)) c
