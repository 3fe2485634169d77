-- ===== src/Containers/Vector/FlushLoop.antt =====
-- The loop of `flush`: the slots that hold a page are written one after the other.
use stxxl.Prelude.{
  ℕ, zero, suc, ◌+◌, ◌*◌, ◌==◌, ◌≡◌, ◌≢◌, ◌<◌, ◌≤◌, refl, ap, ◌∙◌, sym, subst, arith, inl, inr,
  some, none, Option, Bool, true, false, Bool-cases, ltb, if◌then◌else◌, List, [], ◌∷◌, ◌++◌, count,
  put, put_other, put_self,
}
use stxxl.Containers.Pager.Policy.{Policy}
use stxxl.Containers.Vector.{Vector, write_page}
use stxxl.Containers.Vector.Flushing.{flush_slot, flush_slots, flush}
use stxxl.Containers.Vector.Mapping.{same_page, count-snoc}
use stxxl.Containers.Vector.Cells.{CellHolds, CellHolds-move}
use stxxl.Containers.Vector.Pages.{PageStatus-cases, write_page-Written, write_page-other}
use stxxl.Containers.Vector.Valid.{IsValid}
use stxxl.Containers.Vector.Replace.{gave_way}

module _ {ℓ} {G : Type 0} {A : Type ℓ} (policy : Policy G) (Valid : G → Type 0) (ps bs : ℕ) where
  -- The page can be taken out of the cache before it is written.
  write_page-unmapped :
      (page slot : ℕ) (to_slot : ℕ → Option ℕ) (v : Vector G A)
      → record (write_page policy ps bs page slot v) { page_to_slot = to_slot }
        ≡ write_page policy ps bs page slot (record v { page_to_slot = to_slot })
  unfolding write_page
  write_page-unmapped page slot to_slot v = elim (PageStatus-cases (v.page_status page)) [
    | inl e ↦ rw (e, write_page) refl
    | inr (inl e) ↦ rw (e, write_page) refl
    | inr (inr e) ↦ rw (e, write_page) refl
  ]

  module _ (taken : ℕ → Bool) (slot : ℕ) (v : Vector G A) where
    flush_slot-free :
        taken slot ≡ false
        → flush_slot policy ps bs taken slot v
          ≡ record v { free_slots = v.free_slots ++ (slot ∷ []) }
    unfolding flush_slot
    flush_slot-free e = rw (e, flush_slot) refl

    flush_slot-used :
        taken slot ≡ true
        → flush_slot policy ps bs taken slot v
          ≡ write_page policy ps bs (v.slot_to_page slot) slot (record v {
            free_slots = v.free_slots ++ (slot ∷ []);
            page_to_slot = put (v.slot_to_page slot) none v.page_to_slot;
          })
    unfolding flush_slot
    flush_slot-used e =
        let page = v.slot_to_page slot in
        let w0 : Vector G A = record v { free_slots = v.free_slots ++ (slot ∷ []) } in
        let written = write_page policy ps bs page slot w0 in
        let kept = ap (λ z. z.page_to_slot) (write_page-Written policy ps bs page slot w0).frame in
        let unmap : (ℕ → Option ℕ) → Vector G A =
          λ f. record written { page_to_slot = put page none f } in
        rw (e, flush_slot)
          (ap unmap kept ∙ write_page-unmapped page slot (put page none v.page_to_slot) w0)

  module _ (v : Vector G A) (w : IsValid policy Valid ps bs v) where
    used : ℕ → Bool
    used s = count s v.free_slots == 0

    -- The slots below `slot` have been flushed.
    pub record FlushedTo (slot : ℕ) (u : Vector G A) : Type ℓ where
      pub pager : u.pager ≡ v.pager
      pub size : u.size ≡ v.size
      pub n_bids : u.n_bids ≡ v.n_bids
      pub n_pages : u.n_pages ≡ v.n_pages
      pub slot_to_page : u.slot_to_page ≡ v.slot_to_page
      pub free : (s : ℕ) → count s u.free_slots ≡ (if ltb s slot then 1 else 0)
      pub left : (p s : ℕ) → u.page_to_slot p ≡ some s → (v.page_to_slot p ≡ some s) × (slot ≤ s)
      pub same : (p s : ℕ) → v.page_to_slot p ≡ some s → slot ≤ s → u.page_to_slot p ≡ some s
      pub cells :
          (p b o : ℕ) (y : A)
          → b < ps
          → p * ps + b < v.n_bids
          → CellHolds ps v p b o y
          → CellHolds ps u p b o y

    snoc_free :
        (slot : ℕ) (l : List ℕ)
        → ((s : ℕ) → count s l ≡ (if ltb s slot then 1 else 0))
        → (s : ℕ) → count s (l ++ (slot ∷ [])) ≡ (if ltb s (slot + 1) then 1 else 0)
    snoc_free slot l h s = ground (arith, count-snoc s slot l, h s)

    free_slot :
        (slot : ℕ) (u : Vector G A)
        → used slot ≡ false
        → FlushedTo slot u
        → FlushedTo (slot + 1) (record u { free_slots = u.free_slots ++ (slot ∷ []) })
    unfolding used
    free_slot slot u not_used f =
        let next : Vector G A = record u { free_slots = u.free_slots ++ (slot ∷ []) } in
        record {
          pager = f.pager;
          size = f.size;
          n_bids = f.n_bids;
          n_pages = f.n_pages;
          slot_to_page = f.slot_to_page;
          free = snoc_free slot u.free_slots f.free;
          left = λ p s e.
              let (held, above) = f.left p s e in
              let (_, _, _, taken) = w.mapped.cached p s held in
              let other : s ≢ slot = λ g. ground (arith, ap (λ z. count z v.free_slots) g) in
              (held, omega (arith, other));
          same = λ p s e h. f.same p s e (omega arith);
          cells = λ p b o y h k c.
              CellHolds-move ps u next p b o y refl refl (λ s e. refl) refl (f.cells p b o y h k c);
        }

    used_slot :
        (slot : ℕ) (u : Vector G A)
        → slot < policy.slots v.pager
        → used slot ≡ true
        → FlushedTo slot u
        → FlushedTo (slot + 1) (
            write_page policy ps bs (v.slot_to_page slot) slot (record u {
              free_slots = u.free_slots ++ (slot ∷ []);
              page_to_slot = put (v.slot_to_page slot) none u.page_to_slot;
            }))
    unfolding used
    used_slot slot u inside_slot taken f =
        let page = v.slot_to_page slot in
        let held = w.mapped.taken slot inside_slot (ground arith) in
        let at = f.same page slot held (omega arith) in
        let w0 : Vector G A = record u {
          free_slots = u.free_slots ++ (slot ∷ []);
          page_to_slot = put page none u.page_to_slot;
        } in
        let next = write_page policy ps bs page slot w0 in
        let written = write_page-Written policy ps bs page slot w0 in
        let slots = ap (λ z. z.page_to_slot) written.frame in
        record {
          pager = ap (λ z. z.pager) written.frame ∙ f.pager;
          size = ap (λ z. z.size) written.frame ∙ f.size;
          n_bids = ap (λ z. z.n_bids) written.frame ∙ f.n_bids;
          n_pages = ap (λ z. z.n_pages) written.frame ∙ f.n_pages;
          slot_to_page = ap (λ z. z.slot_to_page) written.frame ∙ f.slot_to_page;
          free = λ s.
              ap (λ z. count s z.free_slots) written.frame ∙ snoc_free slot u.free_slots f.free s;
          left = λ p s e.
              let e' : put page none u.page_to_slot p ≡ some s = ap (λ z. z p) (sym slots) ∙ e in
              let ne : p ≢ page = ground arith in
              let (held', above) = f.left p s (ground arith) in
              let other : s ≢ slot =
                λ g. ne (same_page w.mapped p page slot (held' ∙ ap some g) held) in
              (held', omega (arith, other));
          same = λ p s e h.
              let ne : p ≢ page = λ g. ground (arith, ap v.page_to_slot g) in
              ap (λ z. z p) slots
              ∙ put_other page none u.page_to_slot p ne
              ∙ f.same p s e (omega arith);
          cells = λ p b o y h k c.
              let c' = f.cells p b o y h k c in
              elim (Bool-cases (p == page)) [
                | inl t ↦
                    let e : page ≡ p = ground arith in
                    subst
                      (λ z.
                        z * ps + b < v.n_bids → CellHolds ps u z b o y → CellHolds ps next z b o y)
                      e
                      (λ k' d.
                        gave_way policy Valid ps bs u w0 page slot b o y h (omega (arith, f.n_bids))
                          at (put_self page none u.page_to_slot) refl refl refl refl d)
                      k c'
                | inr t ↦
                    let ne : p ≢ page = ground arith in
                    write_page-other policy ps bs page slot w0 p b o y h ne (
                      CellHolds-move ps u w0 p b o y (put_other page none u.page_to_slot p ne) refl
                        (λ s e. refl) refl c')
              ];
        }

    flush_slot-FlushedTo :
        (slot : ℕ) (u : Vector G A)
        → slot < policy.slots v.pager
        → FlushedTo slot u
        → FlushedTo (slot + 1) (flush_slot policy ps bs used slot u)
    flush_slot-FlushedTo slot u inside_slot f = elim (Bool-cases (used slot)) [
      | inl t ↦
          let at_page : ℕ → Vector G A = λ page. write_page policy ps bs page slot (record u {
            free_slots = u.free_slots ++ (slot ∷ []);
            page_to_slot = put page none u.page_to_slot;
          }) in
          subst (FlushedTo (slot + 1))
            (sym (flush_slot-used used slot u t ∙ ap at_page (ap (λ z. z slot) f.slot_to_page)))
            (used_slot slot u inside_slot t f)
      | inr t ↦
          subst (FlushedTo (slot + 1)) (sym (flush_slot-free used slot u t)) (free_slot slot u t f)
    ]

    flush_slots-FlushedTo :
        (n slot : ℕ) (u : Vector G A)
        → slot + n ≡ policy.slots v.pager
        → FlushedTo slot u
        → FlushedTo (policy.slots v.pager) (flush_slots policy ps bs used n slot u)
    unfolding flush_slots
    flush_slots-FlushedTo zero slot u e f =
        let e' : slot ≡ policy.slots v.pager = omega arith in subst (λ z. FlushedTo z u) e' f
    flush_slots-FlushedTo (suc n) slot u e f =
        flush_slots-FlushedTo n (slot + 1) (flush_slot policy ps bs used slot u) (omega arith)
          (flush_slot-FlushedTo slot u (omega arith) f)

    pub flush-FlushedTo : FlushedTo (policy.slots v.pager) (flush policy ps bs v)
    unfolding flush used
    flush-FlushedTo =
        let start : Vector G A = record v { free_slots = [] } in
        flush_slots-FlushedTo (policy.slots v.pager) 0 start (omega arith) (record {
          pager = refl;
          size = refl;
          n_bids = refl;
          n_pages = refl;
          slot_to_page = refl;
          free = λ s. ground arith;
          left = λ p s e. (e, omega arith);
          same = λ p s e h. e;
          cells = λ p b o y h k c. CellHolds-move ps v start p b o y refl refl (λ s e. refl) refl c;
        })
