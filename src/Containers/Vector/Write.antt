-- ===== src/Containers/Vector/Write.antt =====
-- Writes of elements: `element`.
use stxxl.Prelude.{
  ℕ, ◌+◌, ◌*◌, ◌==◌, ◌≡◌, ◌≢◌, ◌<◌, ◌⊎◌, refl, ap, ◌∙◌, sym, subst, arith, inl, inr, some, Option,
  Bool-cases, true, false, put_self,
}
use stxxl.Containers.Pager.Policy.{Policy, IsPolicy}
use stxxl.Containers.Vector.{
  Vector, dirty, index, place, mark_dirty, element, assign, write, read_mutable,
}
use stxxl.Containers.Vector.Index.{row-outside, index-Splits, index-ne}
use stxxl.Containers.Vector.Mapping.{same_page}
use stxxl.Containers.Vector.Cells.{CellHolds-move, changed, Holds}
use stxxl.Containers.Vector.Valid.{IsValid, Keeps-trans}
use stxxl.Containers.Vector.Fetch.{fetch-Fetched}
use stxxl.Containers.Vector.Access.{page-lt, mark_dirty-Keeps, Keeps-Holds, cached_cell, Reads}

module _ {ℓ} {G : Type 0} {A : Type ℓ} (policy : Policy G) (Valid : G → Type 0) (ps bs : ℕ) where
  -- A write gives its element the new value, and keeps all others.
  pub record Writes (v : Vector G A) (i : ℕ) (x : A) (result : Option (Vector G A)) : Type ℓ where
    pub next : Vector G A
    pub returns : result ≡ some next
    pub valid : IsValid policy Valid ps bs next
    pub size : next.size ≡ v.size
    pub n_bids : next.n_bids ≡ v.n_bids
    pub n_pages : next.n_pages ≡ v.n_pages
    pub own : Holds ps bs next i x
    pub kept : (j : ℕ) (y : A) → j ≢ i → Holds ps bs v j y → Holds ps bs next j y

  -- What is written to one place of the cache leaves the others.
  assign_other :
      (v : Vector G A) (x : A) (k o k' o' : ℕ)
      → (k' ≢ k) ⊎ (o' ≢ o)
      → (assign policy ps bs (record { block = k; offset = o }) x v).cache k' o' ≡ v.cache k' o'
  assign_other v x k o k' o' (inl ne) = let f : k' == k ≡ false = ground arith in rw f refl
  assign_other v x k o k' o' (inr ne) =
      let f : o' == o ≡ false = ground arith in
      elim (Bool-cases (k' == k)) [ inl t ↦ rw (t, f) refl | inr t ↦ rw t refl ]

  assign_self :
      (v : Vector G A) (x : A) (k o : ℕ)
      → (assign policy ps bs (record { block = k; offset = o }) x v).cache k o ≡ x
  assign_self v x k o =
      let f : k == k ≡ true = ground arith in let g : o == o ≡ true = ground arith in rw (f, g) refl

  -- An element other than `i`, where the page of `i` is in the slot `slot`.
  other_cell :
      0 < ps
      → 0 < bs
      → (v : Vector G A) (w : IsValid policy Valid ps bs v) (i j : ℕ) (x y : A) (slot : ℕ)
      → v.page_to_slot (index ps bs i).block2 ≡ some slot
      → j ≢ i
      → Holds ps bs v j y
      → Holds ps bs (assign policy ps bs (place ps bs slot i) x v) j y
  other_cell hp hs v w i j x y slot at ne h =
      let ci = index ps bs i in
      let cj = index ps bs j in
      let bi = (index-Splits ps bs hp hs i).block1 in
      let bj = (index-Splits ps bs hp hs j).block1 in
      let next = assign policy ps bs (place ps bs slot i) x v in
      let moved : (s : ℕ)
          → v.page_to_slot cj.block2 ≡ some s
          → next.cache (s * ps + cj.block1) cj.offset ≡ v.cache (s * ps + cj.block1) cj.offset =
        λ s e.
          assign_other v x (slot * ps + ci.block1) ci.offset (s * ps + cj.block1) cj.offset
            (elim (Bool-cases (s == slot)) [
              | inl t ↦
                  let same : s ≡ slot = ground arith in
                  let page = same_page w.mapped cj.block2 ci.block2 slot (e ∙ ap some same) at in
                  elim (Bool-cases (cj.block1 == ci.block1)) [
                    | inl u ↦ elim (Bool-cases (cj.offset == ci.offset)) [
                      | inl z ↦
                          absurd (ne (index-ne ps bs hp hs j i page (ground arith) (ground arith)))
                      | inr z ↦ inr (ground arith)
                    ]
                    | inr u ↦ inl (λ f.
                        let same_row : s * ps ≡ slot * ps = ap (λ z. z * ps) same in ground arith)
                  ]
              | inr t ↦ inl (λ f.
                  let out = row-outside s slot cj.block1 ps (ground arith) bj in
                  elim out [ inl k ↦ omega (arith, k, f) | inr k ↦ omega (arith, k, f, bi) ])
            ]) in
      record {
        inside = h.inside;
        cell = CellHolds-move ps v next cj.block2 cj.block1 cj.offset y refl refl moved refl h.cell;
      }

  module _ (laws : IsPolicy policy Valid) (hp : 0 < ps) (hs : 0 < bs) where
    -- A write of an element of a valid vector, below its capacity, succeeds. The element then has
    -- the new value, and all others have the value that they had, whatever page was kicked out of
    -- the cache. The vector stays valid and keeps its sizes. The pager keeps its laws, and blocks
    -- and pages are not empty.
    pub write-Writes :
        (v : Vector G A) (i : ℕ) (x : A)
        → IsValid policy Valid ps bs v
        → i < v.n_bids * bs
        → Writes v i x (write policy ps bs i x v)
    unfolding write element
    write-Writes v i x w l =
        let c = index ps bs i in
        let r =
          fetch-Fetched policy Valid ps bs laws c.block2 v w
            (page-lt policy Valid ps bs v i w hp hs l) in
        let marked = mark_dirty policy ps bs c.block2 r.next in
        let m = mark_dirty-Keeps policy Valid ps bs r.next c.block2 r.slot r.keeps.valid r.at in
        let k = Keeps-trans policy Valid ps bs v r.next marked r.keeps m in
        let next = assign policy ps bs (place ps bs r.slot i) x marked in
        record {
          next = next;
          returns = rw r.returns refl;
          valid = record {
            mapped = k.valid.mapped;
            pager = k.valid.pager;
            some_slot = k.valid.some_slot;
            blocks = k.valid.blocks;
            pages = k.valid.pages;
            capacity = k.valid.capacity;
          };
          size = k.size;
          n_bids = k.n_bids;
          n_pages = k.n_pages;
          own = record {
            inside = subst (λ z. i < z * bs) (sym k.n_bids) l;
            cell =
                changed r.slot r.at (put_self c.block2 dirty r.next.page_status)
                  (assign_self marked x (r.slot * ps + c.block1) c.offset);
          };
          kept = λ j y ne h.
              other_cell hp hs marked k.valid i j x y r.slot r.at ne
                (Keeps-Holds policy Valid ps bs v marked j y k hp hs h);
        }

    -- A read through `element` does what one through `const_element` does.
    pub read_mutable-Reads :
        (v : Vector G A) (i : ℕ)
        → IsValid policy Valid ps bs v
        → i < v.n_bids * bs
        → Reads policy Valid ps bs v i (read_mutable policy ps bs i v)
    unfolding read_mutable element
    read_mutable-Reads v i w l =
        let c = index ps bs i in
        let r =
          fetch-Fetched policy Valid ps bs laws c.block2 v w
            (page-lt policy Valid ps bs v i w hp hs l) in
        let marked = mark_dirty policy ps bs c.block2 r.next in
        let m = mark_dirty-Keeps policy Valid ps bs r.next c.block2 r.slot r.keeps.valid r.at in
        record {
          value = r.next.cache (r.slot * ps + c.block1) c.offset;
          next = marked;
          returns = rw r.returns refl;
          keeps = Keeps-trans policy Valid ps bs v r.next marked r.keeps m;
          reads = λ y h.
              cached_cell policy Valid ps bs r.next c.block2 r.slot c.block1 c.offset y r.at
                (Keeps-Holds policy Valid ps bs v r.next i y r.keeps hp hs h).cell;
        }
