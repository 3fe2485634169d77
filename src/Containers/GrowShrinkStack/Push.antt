-- ===== src/Containers/GrowShrinkStack/Push.antt =====
-- `grow_shrink_stack::push`.
use native.Mathlib.Nat.{zero-div, zero-mod}
use stxxl.Prelude.{
  ℕ, suc, ◌+◌, ◌-◌, ◌*◌, ◌/◌, ◌%◌, ◌==◌, ◌≡◌, ◌≢◌, ◌<◌, ◌≤◌, ◌∙◌, refl, sym, ap, ap₂, arith, true,
  false, not, ltb, leb, Bool-cases, inl, inr, some,
}
use stxxl.Containers.NormalStack.{Address, load, page_size}
use stxxl.Containers.NormalStack.Addresses.{
  not-not, same_address_self, load-store, div-shift, div-below,
}
use stxxl.Containers.GrowShrinkStack.{
  Io, GrowShrinkStack, done, write_cell, wait_all, cell, push, push_cached, push_overflow,
}
use stxxl.Containers.GrowShrinkStack.Contents.{
  on_disk, writes, at, at-disk, at-cache, IsValid, Pushed,
}
use stxxl.Containers.GrowShrinkStack.Requests.{start_page, write_page-wait_all}
use stxxl.Containers.GrowShrinkStack.Settled.{IsFine-cong, with_io, wait_all-Keeps}
use stxxl.Containers.GrowShrinkStack.Blocks.{store-other_half, cell-ne, on_disk-cong, on_disk-done}

module _ {ℓ} (bpp bs : ℕ) (hp : 0 < bpp) (hs : 0 < bs) {A : Type ℓ} where
  push_cached-Pushed :
      (v : A) (s : GrowShrinkStack A)
      → IsValid bpp bs s
      → s.cache_offset ≢ page_size bpp bs
      → Pushed bpp bs v s (push_cached bpp bs v s)
  unfolding push_cached
  push_cached-Pushed v s w ne =
      let o = s.cache_offset in
      let a = cell bpp bs s.cached o in
      let t = push_cached bpp bs v s in
      let top : s.size ≡ s.n_bids * bs + o → s.size - s.n_bids * bs ≡ o = λ e. omega (arith, e) in
      let other = λ (m : ℕ). store-other_half s.io.cache a v (not s.cached) m refl in
      record {
        valid = record {
          pages = w.pages;
          whole = w.whole;
          counted = omega (arith, w.counted);
          fits = omega (arith, w.fits);
          busy = λ _. omega arith;
          pointed = λ _. ap (λ z. some (cell bpp bs s.cached z)) (omega arith);
          fine = λ k l.
              IsFine-cong bpp s.cached s.n_bids s.io _ k (s.io.requests k) (other k) refl
                (w.fine k l);
        };
        size = refl;
        new =
            at-cache bpp bs t s.size (omega (arith, w.counted))
            ∙ ap (λ z. load t.io.cache (cell bpp bs s.cached z)) (top w.counted)
            ∙ load-store s.io.cache a a v
            ∙ rw (same_address_self a) refl;
        old = λ i l. elim (Bool-cases (ltb i (s.n_bids * bs))) [
          | inl u ↦
              let low : i < s.n_bids * bs = ground arith in
              at-disk bpp bs t i low
              ∙ ap (λ b. b (i % bs))
                  (on_disk-cong bpp s.cached s.n_bids s.io _ other w.fine (i / bs)
                    (div-below bs hs i s.n_bids low))
              ∙ sym (at-disk bpp bs s i low)
          | inr u ↦
              let high : s.n_bids * bs ≤ i = ground arith in
              let o' = i - s.n_bids * bs in
              at-cache bpp bs t i high
              ∙ load-store s.io.cache a (cell bpp bs s.cached o') v
              ∙ rw (cell-ne bpp bs s.cached o o' (omega (arith, w.counted)))
                  (sym (at-cache bpp bs s i high))
        ];
      }

  -- The branch of `push` for a full cache, where `io` has the requests of the page.
  abbrev over : A → GrowShrinkStack A → Io A → GrowShrinkStack A
  over v s io =
      let first : Address = record { half = not s.cached; block = 0; index = 0 } in
      record {
        size = s.size + 1;
        cache_offset = 1;
        current_element = some first;
        cached = not s.cached;
        n_bids = s.n_bids + bpp;
        io = write_cell first v io;
      }

  over-low :
      (v : A) (s : GrowShrinkStack A)
      → ((m : ℕ) → m < bpp → done (s.io.requests m) ≡ s.io.requests m)
      → (i : ℕ) → i < s.n_bids * bs
      → at bpp bs (over v s (start_page bpp 0 s.cached s.n_bids s.io)) i ≡ at bpp bs s i
  unfolding start_page on_disk
  over-low v s is_done i l =
      let j = i / bs in
      let below : j < s.n_bids = div-below bs hs i s.n_bids l in
      let t : leb (s.n_bids + bpp - bpp) j ≡ false = ground arith in
      at-disk bpp bs _ i (omega arith)
      ∙ rw t refl
      ∙ sym (ap (λ b. b (i % bs)) (on_disk-done bpp s.cached s.n_bids s.io is_done j below))
      ∙ sym (at-disk bpp bs s i l)

  over-page :
      (v : A) (s : GrowShrinkStack A) (i : ℕ)
      → s.n_bids * bs ≤ i
      → i < (s.n_bids + bpp) * bs
      → at bpp bs (over v s (start_page bpp 0 s.cached s.n_bids s.io)) i ≡ at bpp bs s i
  unfolding start_page on_disk
  over-page v s i p q =
      let first : Address = record { half = not s.cached; block = 0; index = 0 } in
      let (block, index) = div-shift bs hs i s.n_bids p in
      let j = i / bs in
      let k = j - s.n_bids in
      let above : s.n_bids ≤ j = omega (arith, block) in
      let below : j < s.n_bids + bpp = div-below bs hs i (s.n_bids + bpp) q in
      let shift : s.n_bids + bpp - bpp ≡ s.n_bids = omega arith in
      let t : leb s.n_bids j ≡ true = ground arith in
      let u : ltb k (0 + bpp) ≡ true = ground arith in
      let z : leb 0 k ≡ true = ground arith in
      at-disk bpp bs _ i q
      ∙ rw (shift, t, u, z) refl
      ∙ ap (λ b. b (i % bs))
          (store-other_half s.io.cache first v s.cached k (sym (not-not s.cached)))
      ∙ ap₂ (s.io.cache s.cached) (omega (arith, block)) index
      ∙ sym (at-cache bpp bs s i p)

  started-Pushed :
      (v : A) (s : GrowShrinkStack A)
      → IsValid bpp bs s
      → ((m : ℕ) → m < bpp → done (s.io.requests m) ≡ s.io.requests m)
      → s.cache_offset ≡ page_size bpp bs
      → Pushed bpp bs v s (over v s (start_page bpp 0 s.cached s.n_bids s.io))
  unfolding start_page
  started-Pushed v s w is_done full =
      let first : Address = record { half = not s.cached; block = 0; index = 0 } in
      let t = over v s (start_page bpp 0 s.cached s.n_bids s.io) in
      let zero_cell : cell bpp bs (not s.cached) 0 ≡ first =
        ap₂ (λ y z. record { half = not s.cached; block = y; index = z }) (zero-div bs)
          (zero-mod bs) in
      let here : s.size - (s.n_bids + bpp) * bs ≡ 0 = omega (arith, w.counted) in
      record {
        valid = record {
          pages = suc w.pages;
          whole = omega (arith, w.whole);
          counted = omega (arith, w.counted);
          fits = grind arith;
          busy = λ _. omega arith;
          pointed = λ _. ap some (sym zero_cell);
          fine = λ k l.
              let u : ltb k (0 + bpp) ≡ true = ground arith in
              let z : leb 0 k ≡ true = ground arith in
              let bid : s.n_bids + (k - 0) ≡ s.n_bids + bpp - bpp + k = omega arith in
              writes (rw (u, z, bid, not-not s.cached) refl) (omega arith);
        };
        size = refl;
        new =
            at-cache bpp bs t s.size (omega (arith, w.counted))
            ∙ ap (λ z. load t.io.cache (cell bpp bs (not s.cached) z)) here
            ∙ ap (load t.io.cache) zero_cell
            ∙ load-store s.io.cache first first v
            ∙ rw (same_address_self first) refl;
        old = λ i l. elim (Bool-cases (ltb i (s.n_bids * bs))) [
          | inl q ↦ over-low v s is_done i (ground arith)
          | inr q ↦ over-page v s i (ground arith) (omega (arith, w.counted))
        ];
      }

  push_overflow-Pushed :
      (v : A) (s : GrowShrinkStack A)
      → IsValid bpp bs s
      → s.cache_offset ≡ page_size bpp bs
      → Pushed bpp bs v s (push_overflow bpp bs v s)
  unfolding push_overflow
  push_overflow-Pushed v s w full =
      let io = wait_all bpp 0 s.io in
      let (keeps, is_done, _) = wait_all-Keeps bpp bs hs bpp 0 s w (omega arith) in
      let p =
        started-Pushed v (with_io s io) keeps.valid (λ m l. is_done m (omega arith) (omega arith))
          full in
      rw (write_page-wait_all bpp 0 s.cached s.n_bids s.io) (record {
        valid = p.valid;
        size = p.size;
        new = p.new;
        old = λ i l. p.old i l ∙ keeps.same i;
      })

  -- `push` on a valid stack puts its argument on top and leaves the elements below as they were, also
  -- where it starts to write a page to the disk, and whatever requests are under way; the stack stays
  -- valid. Pages have at least one block, and blocks at least one element.
  pub push-Pushed :
      (v : A) (s : GrowShrinkStack A) → IsValid bpp bs s → Pushed bpp bs v s (push bpp bs v s)
  unfolding push
  push-Pushed v s w = elim (Bool-cases (s.cache_offset == page_size bpp bs)) [
    | inl t ↦ rw t (push_overflow-Pushed v s w (ground arith))
    | inr t ↦ rw t (push_cached-Pushed v s w (ground arith))
  ]
