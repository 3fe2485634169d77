-- ===== src/Containers/NormalStack/Pop.antt =====
-- `normal_stack::pop` and `normal_stack::top`.
use stxxl.Prelude.{
  ℕ, zero, suc, ◌+◌, ◌-◌, ◌*◌, ◌/◌, ◌%◌, ◌==◌, ◌&&◌, ◌≡◌, ◌∙◌, sym, ap, ◌<◌, ◌≤◌, refl, arith, Bool,
  true, false, not, Bool-cases, some, ltb, leb, if◌then◌else◌, inl, inr, ap₂,
}
use stxxl.Containers.NormalStack.{
  NormalStack, same_bool, load, read_page, page_size, element, pop, pop_underflow, pop_cached, top,
}
use stxxl.Containers.NormalStack.Memory.{read_page-inside}
use stxxl.Containers.NormalStack.Addresses.{element-low, div-shift, div-below, last-div}
use stxxl.Containers.NormalStack.Contents.{at, IsValid, at-disk, at-cache, Popped, Pops}

not_same : (b : Bool) → same_bool (not b) b ≡ false
not_same true = refl
not_same false = refl

last-address :
    (bpp bs : ℕ) (back : Bool) (o : ℕ)
    → 0 < bpp
    → 0 < bs
    → o + 1 ≡ page_size bpp bs
    → element bpp bs back o ≡ record { half = back; block = bpp - 1; index = bs - 1 }
last-address bpp bs back o hp hs h =
    let (block, index) = last-div bs hs bpp o hp h in
    element-low bpp bs back o (omega arith)
    ∙ ap₂ (λ y z. record { half = back; block = y; index = z }) block index

pub page_positive : (bpp bs : ℕ) → 0 < bpp → 0 < bs → 0 < page_size bpp bs
page_positive bpp bs hp hs = grind arith

pub one_page_less : (k b n : ℕ) → n ≡ k * b → b ≤ n → 0 < b → n - b ≡ (k - 1) * b
one_page_less zero b n e h p = absurd (omega arith)
one_page_less (suc k) b n e h p =
    let one : suc k - 1 ≡ k = omega arith in omega (arith, ap (λ z. z * b) one)

pub no_page : (k b n : ℕ) → n ≡ k * b → n < b → n ≡ 0
no_page zero b n e h = omega arith
no_page (suc k) b n e h = absurd (omega arith)

pub filled : (bs n o size : ℕ) → size ≡ n * bs + o → 0 < size → (0 < n → 0 < o) → 0 < o
filled bs zero o size e p h = omega arith
filled bs (suc n) o size e p h = h (omega arith)

module _ {ℓ} (bpp bs : ℕ) (hp : 0 < bpp) (hs : 0 < bs) {A : Type ℓ} where
  pop_underflow-page :
      (s : NormalStack A) (i : ℕ)
      → bpp ≤ s.n_bids
      → (s.n_bids - bpp) * bs ≤ i
      → i < s.n_bids * bs
      → at bpp bs (pop_underflow bpp bs s) i ≡ at bpp bs s i
  unfolding pop_underflow
  pop_underflow-page s i p q r =
      let n = s.n_bids - bpp in
      let (block, index) = div-shift bs hs i n q in
      let o = i - n * bs in
      let split : s.n_bids * bs ≡ (n + bpp) * bs = ap (λ z. z * bs) (omega arith) in
      let in_page : o < page_size bpp bs = omega arith in
      let page = read_page bpp n s.disk (s.cache (not s.back)) in
      let other : (if same_bool (not s.back) s.back then s.cache (not s.back) else page) ≡ page =
        rw (not_same s.back) refl in
      at-cache bpp bs _ i q
      ∙ ap (load (pop_underflow bpp bs s).cache) (element-low bpp bs (not s.back) o in_page)
      ∙ ap (λ z. z (o / bs) (o % bs)) other
      ∙ ap (λ z. z (o % bs))
          (read_page-inside bpp n s.disk (s.cache (not s.back)) (o / bs)
            (div-below bs hs o bpp in_page))
      ∙ ap₂ s.disk (omega (arith, block)) (sym index)
      ∙ sym (at-disk bpp bs s i r)

  pop_underflow-Popped :
      (s : NormalStack A)
      → IsValid bpp bs s
      → bpp ≤ s.n_bids
      → s.cache_offset ≡ 1
      → Popped bpp bs s (pop_underflow bpp bs s)
  unfolding pop_underflow
  pop_underflow-Popped s w p q =
      let n = s.n_bids - bpp in
      let positive = page_positive bpp bs hp hs in
      let whole : s.n_bids ≡ n + bpp = omega arith in
      let split : s.n_bids * bs ≡ n * bs + page_size bpp bs =
        (ap (λ z. z * bs) whole) ∙ omega arith in
      record {
        valid = record {
          pages = w.pages - 1;
          whole = one_page_less w.pages bpp s.n_bids w.whole p hp;
          counted = omega (arith, w.counted);
          fits = omega arith;
          busy = λ _. positive;
          pointed = λ _. ap some (sym (last-address bpp bs (not s.back) _ hp hs (omega arith)));
        };
        size = omega (arith, w.counted);
        old = λ i h. elim (Bool-cases (ltb i (n * bs))) [
          | inl t ↦ at-disk bpp bs _ i (ground arith) ∙ sym (at-disk bpp bs s i (ground arith))
          | inr t ↦ pop_underflow-page s i p (ground arith) (omega (arith, w.counted))
        ];
      }

  pop_cached-Popped :
      (s : NormalStack A)
      → IsValid bpp bs s
      → 0 < s.size
      → (s.cache_offset ≡ 1 → s.n_bids < bpp)
      → Popped bpp bs s (pop_cached bpp bs s)
  unfolding pop_cached at
  pop_cached-Popped s w p q =
      let none_left : s.cache_offset ≡ 1 → s.n_bids ≡ 0 =
        λ e. no_page w.pages bpp s.n_bids w.whole (q e) in
      let some_left : 0 < s.cache_offset =
        filled bs s.n_bids s.cache_offset s.size w.counted p w.busy in
      record {
        valid = record {
          pages = w.pages;
          whole = w.whole;
          counted = omega (arith, w.counted);
          fits = omega (arith, w.fits);
          busy = λ h. elim (Bool-cases (s.cache_offset == 1)) [
            | inl t ↦ absurd (omega (arith, h, none_left (ground arith)))
            | inr t ↦ ground arith
          ];
          pointed = λ h. elim (Bool-cases (s.cache_offset == 1)) [
            | inl t ↦
                let no_bids : s.n_bids * bs ≡ 0 * bs =
                  ap (λ z. z * bs) (none_left (ground arith)) in
                let one : s.cache_offset ≡ 1 = ground arith in
                absurd (omega (arith, h, w.counted, no_bids, one))
            | inr t ↦ rw t refl
          ];
        };
        size = omega (arith, w.counted);
        old = λ i h. refl;
      }

  -- `pop` on a valid stack that is not empty takes the top away and leaves the elements below as they
  -- were, also where it reads a page back from the disk; the stack stays valid.
  -- Pages have at least one block, and blocks at least one element.
  pub pop-Pops : (s : NormalStack A) → IsValid bpp bs s → 0 < s.size → Pops bpp bs s
  unfolding pop
  pop-Pops s w p =
      let some_left = filled bs s.n_bids s.cache_offset s.size w.counted p w.busy in
      elim (Bool-cases (s.cache_offset == 1 && leb bpp s.n_bids)) [
        | inl t ↦ record {
          rest = pop_underflow bpp bs s;
          pops = ground arith;
          popped = pop_underflow-Popped s w (ground arith) (ground arith);
        }
        | inr t ↦ record {
          rest = pop_cached bpp bs s;
          pops = ground arith;
          popped = pop_cached-Popped s w p (λ e. ground arith);
        }
      ]

  -- `top` on a valid stack that is not empty gives the element at the last position.
  -- Pages have at least one block, and blocks at least one element.
  pub top-at :
      (s : NormalStack A) → IsValid bpp bs s → 0 < s.size → top s ≡ some (at bpp bs s (s.size - 1))
  unfolding top at
  top-at s w p =
      let o = s.cache_offset - 1 in
      let full : (s.size == 0) ≡ false = ground arith in
      let some_left = filled bs s.n_bids s.cache_offset s.size w.counted p w.busy in
      let same : s.size - 1 - s.n_bids * bs ≡ o = omega (arith, w.counted) in
      rw (full, w.pointed p)
        (ap some (
          sym (
            at-cache bpp bs s (s.size - 1) (omega (arith, w.counted))
            ∙ ap (λ z. load s.cache (element bpp bs s.back z)) same)))
