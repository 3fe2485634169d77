-- ===== src/Containers/GrowShrinkStack/Pop.antt =====
-- `grow_shrink_stack::pop` and `grow_shrink_stack::top`.
use stxxl.Prelude.{
  ℕ, ◌-◌, ◌*◌, ◌==◌, ◌&&◌, ◌≡◌, ◌<◌, ◌∙◌, refl, sym, ap, arith, false, leb, Bool-cases, inl, inr,
  some,
}
use stxxl.Containers.NormalStack.{load}
use stxxl.Containers.NormalStack.Pop.{no_page, filled}
use stxxl.Containers.GrowShrinkStack.{GrowShrinkStack, cell, pop, pop_cached, pop_underflow, top}
use stxxl.Containers.GrowShrinkStack.Contents.{at, at-cache, IsValid, Popped, Pops}
use stxxl.Containers.GrowShrinkStack.Underflow.{pop_underflow-Popped}

module _ {ℓ} (bpp bs : ℕ) (hp : 0 < bpp) (hs : 0 < bs) {A : Type ℓ} where
  pop_cached-Popped :
      (s : GrowShrinkStack A)
      → IsValid bpp bs s
      → 0 < s.size
      → (s.cache_offset ≡ 1 → s.n_bids < bpp)
      → Popped bpp bs s (pop_cached bpp bs s)
  unfolding pop_cached at
  pop_cached-Popped s w p q =
      let none_left : s.cache_offset ≡ 1 → s.n_bids ≡ 0 =
        λ e. no_page w.pages bpp s.n_bids w.whole (q e) in
      let some_left = filled bs s.n_bids s.cache_offset s.size w.counted p w.busy in
      record {
        valid = record {
          pages = w.pages;
          whole = w.whole;
          counted = omega (arith, w.counted);
          fits = omega (arith, w.fits);
          busy = λ h. elim (Bool-cases (s.cache_offset == 1)) [
            | inl t ↦ absurd (omega (arith, h, none_left (ground arith)))
            | inr t ↦ ground arith
          ];
          pointed = λ h. elim (Bool-cases (s.cache_offset == 1)) [
            | inl t ↦
                let no_bids : s.n_bids * bs ≡ 0 * bs =
                  ap (λ z. z * bs) (none_left (ground arith)) in
                let one : s.cache_offset ≡ 1 = ground arith in
                absurd (omega (arith, h, w.counted, no_bids, one))
            | inr t ↦ rw t refl
          ];
          fine = w.fine;
        };
        size = omega (arith, w.counted);
        old = λ i h. refl;
      }

  -- `pop` on a valid stack that is not empty takes the top away and leaves the elements below as they
  -- were, also where it takes a page from the overlap buffers and starts to read the next one, and
  -- whatever requests are under way; the stack stays valid. Pages have at least one block, and
  -- blocks at least one element.
  pub pop-Pops : (s : GrowShrinkStack A) → IsValid bpp bs s → 0 < s.size → Pops bpp bs s
  unfolding pop
  pop-Pops s w p =
      let some_left = filled bs s.n_bids s.cache_offset s.size w.counted p w.busy in
      elim (Bool-cases (s.cache_offset == 1 && leb bpp s.n_bids)) [
        | inl t ↦ record {
          rest = pop_underflow bpp bs s;
          pops = ground arith;
          popped = pop_underflow-Popped bpp bs hp hs s w (ground arith) (ground arith);
        }
        | inr t ↦ record {
          rest = pop_cached bpp bs s;
          pops = ground arith;
          popped = pop_cached-Popped s w p (λ e. ground arith);
        }
      ]

  pub top-at :
      (s : GrowShrinkStack A)
      → IsValid bpp bs s
      → 0 < s.size
      → top s ≡ some (at bpp bs s (s.size - 1))
  unfolding top at
  top-at s w p =
      let o = s.cache_offset - 1 in
      let full : (s.size == 0) ≡ false = ground arith in
      let some_left = filled bs s.n_bids s.cache_offset s.size w.counted p w.busy in
      let same : s.size - 1 - s.n_bids * bs ≡ o = omega (arith, w.counted) in
      rw (full, w.pointed p)
        (ap some (
          sym (
            at-cache bpp bs s (s.size - 1) (omega (arith, w.counted))
            ∙ ap (λ z. load s.io.cache (cell bpp bs s.cached z)) same)))
