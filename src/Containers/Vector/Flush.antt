-- ===== src/Containers/Vector/Flush.antt =====
-- What `flush` does to a vector.
use stxxl.Prelude.{
  ℕ, ◌+◌, ◌*◌, ◌≡◌, ◌<◌, ap, sym, subst, arith, none, Option-cases, inl, inr, count, ◌≢◌, Option,
  [], ◌∷◌, ◌++◌, some, ltb, true, refl, put, put_other, put_self,
}
use stxxl.Containers.Pager.Policy.{Policy}
use stxxl.Containers.Vector.{Vector, valid_on_disk, index, dirty}
use stxxl.Containers.Vector.Flushing.{flush, page_externally_updated, renew_cache}
use stxxl.Containers.Vector.Index.{index-Splits, block-lt}
use stxxl.Containers.Vector.Cells.{CellHolds, Holds, stored, changed, copied, CellHolds-move}
use stxxl.Containers.Vector.Valid.{IsValid, Keeps}
use stxxl.Containers.Vector.FlushLoop.{flush-FlushedTo}
use stxxl.Containers.NormalStack.{Block}
use stxxl.Containers.Vector.Mapping.{IsMapped-evict}
use stxxl.Containers.Vector.Pages.{PageStatus-cases}

module _ {ℓ} {G : Type 0} {A : Type ℓ} (policy : Policy G) (Valid : G → Type 0) (ps bs : ℕ) where
  -- All slots are free, and the elements are on the disk.
  pub record Flushed (v next : Vector G A) : Type ℓ where
    pub keeps : Keeps policy Valid ps bs v next
    pub out : (p : ℕ) → next.page_to_slot p ≡ none
    pub free : (s : ℕ) → s < policy.slots v.pager → count s next.free_slots ≡ 1
    pub on_disk :
        (i : ℕ) (y : A)
        → Holds ps bs v i y
        → (next.page_status (index ps bs i).block2 ≡ valid_on_disk)
          × (next.disk ((index ps bs i).block2 * ps + (index ps bs i).block1) (index ps bs i).offset
              ≡ y)

  disk_cell :
      (v : Vector G A) (p b o : ℕ) (y : A)
      → v.page_to_slot p ≡ none
      → CellHolds ps v p b o y
      → (v.page_status p ≡ valid_on_disk) × (v.disk (p * ps + b) o ≡ y)
  disk_cell v p b o y out (stored e f g) = (f, g)
  disk_cell v p b o y out (changed s e f g) = absurd (ground arith)
  disk_cell v p b o y out (copied s e f g d) = absurd (ground arith)

  -- After `flush` a valid vector is valid, with the same sizes. No page is in the cache, each slot
  -- is free once, and each element is on the disk, in its block, where its page is valid. Blocks
  -- and pages are not empty.
  pub flush-Flushed :
      (v : Vector G A)
      → 0 < ps
      → 0 < bs
      → IsValid policy Valid ps bs v
      → Flushed v (flush policy ps bs v)
  flush-Flushed v hp hs w =
      let next = flush policy ps bs v in
      let f = flush-FlushedTo policy Valid ps bs v w in
      let out : (p : ℕ) → next.page_to_slot p ≡ none = λ p.
        elim (Option-cases (next.page_to_slot p)) [
          | inl e ↦ e
          | inr (s, e) ↦
              let (held, above) = f.left p s e in
              let (_, inside_slot, _, _) = w.mapped.cached p s held in absurd (omega arith)
        ] in
      let keeps : Keeps policy Valid ps bs v next = record {
        valid = record {
          mapped = record {
            cached = λ p s e. let no = out p in absurd (ground arith);
            taken = λ s b e. absurd (ground (arith, f.pager, f.free s));
            once = λ s. ground (arith, f.free s, f.pager);
          };
          pager = subst Valid (sym f.pager) w.pager;
          some_slot = subst (λ g. 0 < policy.slots g) (sym f.pager) w.some_slot;
          blocks = omega (arith, f.n_bids, ap (λ z. z * ps) f.n_pages, w.blocks);
          pages = omega (arith, f.n_bids, ap (λ z. z * ps) f.n_pages, w.pages);
          capacity = omega (arith, f.size, ap (λ z. z * bs) f.n_bids, w.capacity);
        };
        size = f.size;
        n_bids = f.n_bids;
        n_pages = f.n_pages;
        cells = f.cells;
      } in
      record {
        keeps = keeps;
        out = out;
        free = λ s h. ground (arith, f.free s);
        on_disk = λ i y h.
            let c = index ps bs i in
            disk_cell next c.block2 c.block1 c.offset y (out c.block2) (
              f.cells c.block2 c.block1 c.offset y (index-Splits ps bs hp hs i).block1
                (block-lt ps bs hp hs i v.n_bids h.inside) h.cell);
      }

  -- Another cache in the place of the old one, which is flushed, leaves all elements.
  pub renew_cache-Keeps :
      (fresh : ℕ → Block A) (v : Vector G A)
      → 0 < ps
      → 0 < bs
      → IsValid policy Valid ps bs v
      → Keeps policy Valid ps bs v (renew_cache policy ps bs fresh v)
  unfolding renew_cache
  renew_cache-Keeps fresh v hp hs w =
      let f = flush-Flushed v hp hs w in
      let k = f.keeps in
      record {
        valid = record {
          mapped = k.valid.mapped;
          pager = k.valid.pager;
          some_slot = k.valid.some_slot;
          blocks = k.valid.blocks;
          pages = k.valid.pages;
          capacity = k.valid.capacity;
        };
        size = k.size;
        n_bids = k.n_bids;
        n_pages = k.n_pages;
        cells = λ p b o y h l c.
            let (status, disk) =
              disk_cell (flush policy ps bs v) p b o y (f.out p) (k.cells p b o y h l c) in
            stored (f.out p) status disk;
      }

  -- The page has what is on the disk, and the other pages stay.
  pub record Updated (v : Vector G A) (page : ℕ) (result : Option (Vector G A)) : Type ℓ where
    pub next : Vector G A
    pub returns : result ≡ some next
    pub valid : IsValid policy Valid ps bs next
    pub own : (b o : ℕ) → CellHolds ps next page b o (v.disk (page * ps + b) o)
    pub kept : (p b o : ℕ) (y : A) → p ≢ page → CellHolds ps v p b o y → CellHolds ps next p b o y

  module _ (v : Vector G A) (page : ℕ) (w : IsValid policy Valid ps bs v) where
    marked : Vector G A → Vector G A
    marked u = record u { page_status = put page valid_on_disk u.page_status }

    marked-Updated :
        (u : Vector G A)
        → IsValid policy Valid ps bs u
        → u.disk ≡ v.disk
        → u.page_to_slot page ≡ none
        → ((p b o : ℕ) (y : A) → p ≢ page → CellHolds ps v p b o y → CellHolds ps u p b o y)
        → Updated v page (some (marked u))
    unfolding marked
    marked-Updated u ok same out kept = record {
      next = marked u;
      returns = refl;
      valid = record {
        mapped = ok.mapped;
        pager = ok.pager;
        some_slot = ok.some_slot;
        blocks = ok.blocks;
        pages = ok.pages;
        capacity = ok.capacity;
      };
      own = λ b o.
          stored out (put_self page valid_on_disk u.page_status)
            (ap (λ z. z (page * ps + b) o) same);
      kept = λ p b o y ne c.
          CellHolds-move ps u (marked u) p b o y refl
            (put_other page valid_on_disk u.page_status p ne) (λ s f. refl) refl
            (kept p b o y ne c);
    }

    -- A page of a valid vector, below the number of its pages, that is not dirty gives up its slot, if it has
    -- one, and is what the disk has. The vector stays valid, and the other pages stay.
    pub page_externally_updated-Updated :
        page < v.n_pages
        → v.page_status page ≢ dirty
        → Updated v page (page_externally_updated policy ps bs page v)
    unfolding page_externally_updated marked
    page_externally_updated-Updated l clean =
        let b : ltb page v.n_pages ≡ true = ground arith in
        let body : Updated v page (elim (v.page_to_slot page) [
          | none ↦ some (marked v)
          | some slot ↦ some (
              marked (record v {
                free_slots = v.free_slots ++ (slot ∷ []);
                page_to_slot = put page none v.page_to_slot;
              }))
        ]) =
          elim (Option-cases (v.page_to_slot page)) [
            | inl e ↦ rw e (marked-Updated v w refl e (λ p b o y ne c. c))
            | inr (slot, e) ↦
                let u : Vector G A = record v {
                  free_slots = v.free_slots ++ (slot ∷ []);
                  page_to_slot = put page none v.page_to_slot;
                } in
                rw e (
                  marked-Updated u
                    (record {
                      mapped = IsMapped-evict w.mapped page slot e;
                      pager = w.pager;
                      some_slot = w.some_slot;
                      blocks = w.blocks;
                      pages = w.pages;
                      capacity = w.capacity;
                    })
                    refl (put_self page none v.page_to_slot)
                    (λ p b o y ne c.
                      CellHolds-move ps v u p b o y (put_other page none v.page_to_slot p ne) refl
                        (λ s f. refl) refl c))
          ] in
        elim (PageStatus-cases (v.page_status page)) [
          | inl e ↦ absurd (clean e)
          | inr (inl e) ↦ rw (b, e) body
          | inr (inr e) ↦ rw (b, e) body
        ]
