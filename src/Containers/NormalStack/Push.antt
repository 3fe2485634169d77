-- ===== src/Containers/NormalStack/Push.antt =====
-- `normal_stack::push`.
use stxxl.Prelude.{
  ℕ, suc, ◌+◌, ◌-◌, ◌*◌, ◌/◌, ◌%◌, ◌==◌, ◌≡◌, ◌≢◌, ◌∙◌, sym, ap, ◌<◌, ◌≤◌, refl, arith, false, not,
  Bool-cases, Option, some, ltb, inl, inr, ap₂,
}
use stxxl.Containers.NormalStack.{
  Address, NormalStack, load, store, page_size, element, push, push_overflow,
}
use stxxl.Containers.NormalStack.Memory.{write_page-outside, write_page-inside}
use stxxl.Containers.NormalStack.Addresses.{
  same_address_self, element-low, element-high, first-address, element-ne, other_half, load-store,
  div-shift, div-below,
}
use stxxl.Containers.NormalStack.Contents.{at, IsValid, at-disk, at-cache, Pushed}

module _ {ℓ} (bpp bs : ℕ) {A : Type ℓ} (s : NormalStack A) (v : A) (o : ℕ) where
  -- `s` with `v` stored at the offset `o` of the cache.
  abbrev stored : ℕ → ℕ → Option Address → NormalStack A
  stored n c p = record s {
    size = n;
    cache_offset = c;
    current_element = p;
    cache = store s.cache (element bpp bs s.back o) v;
  }

  at-stored_self : (n c : ℕ) (p : Option Address) → at bpp bs (stored n c p) (s.n_bids * bs + o) ≡ v
  at-stored_self n c p =
      let e : s.n_bids * bs + o - s.n_bids * bs ≡ o = omega arith in
      at-cache bpp bs (stored n c p) (s.n_bids * bs + o) (omega arith)
      ∙ ap (λ z. load (store s.cache (element bpp bs s.back o) v) (element bpp bs s.back z)) e
      ∙ load-store s.cache (element bpp bs s.back o) (element bpp bs s.back o) v
      ∙ rw (same_address_self (element bpp bs s.back o))

  at-stored_ne :
      (n c : ℕ) (p : Option Address) (i : ℕ)
      → i < s.n_bids * bs + o
      → at bpp bs (stored n c p) i ≡ at bpp bs s i
  at-stored_ne n c p i h = elim (Bool-cases (ltb i (s.n_bids * bs))) [
    | inl t ↦
        at-disk bpp bs (stored n c p) i (ground arith) ∙ sym (at-disk bpp bs s i (ground arith))
    | inr t ↦
        at-cache bpp bs (stored n c p) i (ground arith)
        ∙ load-store s.cache (element bpp bs s.back o) (element bpp bs s.back (i - s.n_bids * bs)) v
        ∙ rw (element-ne bpp bs s.back o (i - s.n_bids * bs) (ground arith))
            (sym (at-cache bpp bs s i (ground arith)))
  ]

module _ {ℓ} (bpp bs : ℕ) (hp : 0 < bpp) (hs : 0 < bs) {A : Type ℓ} where
  push_cached-Pushed :
      (v : A) (s : NormalStack A)
      → IsValid bpp bs s
      → s.cache_offset ≢ 2 * bpp * bs
      → Pushed bpp bs v s (push bpp bs v s)
  unfolding push
  push_cached-Pushed v s w ne =
      let full : (s.cache_offset == 2 * bpp * bs) ≡ false = ground arith in
      let o = s.cache_offset in
      let p = some (element bpp bs s.back o) in
      rw (full) (record {
        valid = record {
          pages = w.pages;
          whole = w.whole;
          counted = omega (arith, w.counted);
          fits = omega (arith, w.fits);
          busy = λ _. omega arith;
          pointed = λ _. ap (λ z. some (element bpp bs s.back z)) (omega arith);
        };
        size = refl;
        new =
            ap (at bpp bs (stored bpp bs s v o (s.size + 1) (o + 1) p)) w.counted
            ∙ at-stored_self bpp bs s v o (s.size + 1) (o + 1) p;
        old = λ i h. at-stored_ne bpp bs s v o (s.size + 1) (o + 1) p i (omega (arith, w.counted));
      })

  overflow-page :
      (v : A) (s : NormalStack A) (i : ℕ)
      → s.n_bids * bs ≤ i
      → i < (s.n_bids + bpp) * bs
      → at bpp bs (push_overflow bpp bs v s) i ≡ at bpp bs s i
  unfolding push_overflow
  overflow-page v s i p q =
      let (block, index) = div-shift bs hs i s.n_bids p in
      let o = i - s.n_bids * bs in
      let low : o < page_size bpp bs = omega arith in
      at-disk bpp bs _ i q
      ∙ ap (λ z. z (i % bs))
          (write_page-inside bpp 0 (s.cache s.back) s.n_bids s.disk (i / bs) (omega (arith, block))
            (omega (arith, div-below bs hs i (s.n_bids + bpp) q)))
      ∙ ap₂ (s.cache s.back) (omega (arith, block)) index
      ∙ sym (at-cache bpp bs s i p ∙ ap (load s.cache) (element-low bpp bs s.back o low))

  overflow-front :
      (v : A) (s : NormalStack A) (i : ℕ)
      → (s.n_bids + bpp) * bs ≤ i
      → i < s.n_bids * bs + 2 * bpp * bs
      → at bpp bs (push_overflow bpp bs v s) i ≡ at bpp bs s i
  unfolding push_overflow
  overflow-front v s i p q =
      let first : Address = record { half = s.back; block = 0; index = 0 } in
      let o = i - (s.n_bids + bpp) * bs in
      let a : Address = record { half = not s.back; block = o / bs; index = o % bs } in
      let same : i - s.n_bids * bs - page_size bpp bs ≡ o = omega arith in
      at-cache bpp bs _ i p
      ∙ ap (load (store s.cache first v)) (element-low bpp bs (not s.back) o (omega arith))
      ∙ load-store s.cache first a v
      ∙ rw (other_half first a refl) refl
      ∙ sym (
          at-cache bpp bs s i (omega arith)
          ∙ ap (load s.cache) (
              element-high bpp bs s.back (i - s.n_bids * bs) (omega arith)
              ∙ ap (λ z. record { half = not s.back; block = z / bs; index = z % bs }) same))

  -- The page that `push_overflow` writes holds the elements behind those on the disk.
  push_overflow-old :
      (v : A) (s : NormalStack A)
      → (i : ℕ) → i < s.n_bids * bs + 2 * bpp * bs
      → at bpp bs (push_overflow bpp bs v s) i ≡ at bpp bs s i
  unfolding push_overflow
  push_overflow-old v s i h = elim (Bool-cases (ltb i (s.n_bids * bs))) [
    | inl t ↦
        at-disk bpp bs _ i (ground arith)
        ∙ ap (λ z. z (i % bs))
            (write_page-outside bpp 0 (s.cache s.back) s.n_bids s.disk (i / bs)
              (inl (omega (arith, div-below bs hs i s.n_bids (ground arith)))))
        ∙ sym (at-disk bpp bs s i (ground arith))
    | inr t ↦ elim (Bool-cases (ltb i ((s.n_bids + bpp) * bs))) [
      | inl u ↦ overflow-page v s i (ground arith) (ground arith)
      | inr u ↦ overflow-front v s i (ground arith) (ground arith)
    ]
  ]

  push_overflow-Pushed :
      (v : A) (s : NormalStack A)
      → IsValid bpp bs s
      → s.cache_offset ≡ 2 * bpp * bs
      → Pushed bpp bs v s (push_overflow bpp bs v s)
  unfolding push_overflow
  push_overflow-Pushed v s w full =
      let first : Address = record { half = s.back; block = 0; index = 0 } in
      record {
        valid = record {
          pages = suc w.pages;
          whole = omega (arith, w.whole);
          counted = omega (arith, w.counted);
          fits = grind arith;
          busy = λ _. omega arith;
          pointed = λ _.
              ap some (sym (first-address bpp bs s.back (page_size bpp bs + 1 - 1) (omega arith)));
        };
        size = refl;
        new =
            at-cache bpp bs _ s.size (omega (arith, w.counted))
            ∙ ap (load (store s.cache first v))
                (first-address bpp bs s.back _ (omega (arith, w.counted)))
            ∙ load-store s.cache first first v
            ∙ rw (same_address_self first) refl;
        old = λ i h. push_overflow-old v s i (omega (arith, w.counted));
      }

  -- `push` on a valid stack puts its argument on top and leaves the elements below as they were, also
  -- where it writes a page to the disk; the stack stays valid.
  -- Pages have at least one block, and blocks at least one element.
  pub push-Pushed :
      (v : A) (s : NormalStack A) → IsValid bpp bs s → Pushed bpp bs v s (push bpp bs v s)
  push-Pushed v s w = elim (Bool-cases (s.cache_offset == 2 * bpp * bs)) [
    | inl t ↦ unfold push in rw (t, push) (push_overflow-Pushed v s w (ground arith))
    | inr t ↦ push_cached-Pushed v s w (ground arith)
  ]
