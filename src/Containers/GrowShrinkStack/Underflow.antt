-- ===== src/Containers/GrowShrinkStack/Underflow.antt =====
-- The branch of `grow_shrink_stack::pop` that goes back to a page on the disk.
use stxxl.Prelude.{
  ℕ, zero, suc, ◌+◌, ◌-◌, ◌*◌, ◌/◌, ◌%◌, ◌≡◌, ◌<◌, ◌≤◌, ◌∙◌, refl, sym, ap, ap₂, arith, Bool, true,
  not, ltb, leb, if◌then◌else◌, Bool-cases, inl, inr, some,
}
use stxxl.Containers.NormalStack.{page_size}
use stxxl.Containers.NormalStack.Addresses.{not-not, div-shift, div-below, last-div}
use stxxl.Containers.NormalStack.Pop.{page_positive, one_page_less}
use stxxl.Containers.GrowShrinkStack.{
  Request, Io, GrowShrinkStack, done, wait_all, wait_requests, prefetch_page, pop_underflow,
}
use stxxl.Containers.GrowShrinkStack.Contents.{
  on_disk, IsFine, unused, settled, writes, reads, at, at-disk, at-cache, IsValid, Popped,
}
use stxxl.Containers.GrowShrinkStack.Requests.{read_ahead, prefetch_page-read_ahead}
use stxxl.Containers.GrowShrinkStack.Settled.{block_of, with_io, wait_all-Keeps}
use stxxl.Containers.GrowShrinkStack.Blocks.{on_disk-done}

module _ {ℓ} (bpp : ℕ) {A : Type ℓ} where
  -- Where there are blocks on the disk, there are requests.
  wait_requests-wait_all :
      (c : Bool) (n : ℕ) (io : Io A)
      → 0 < n
      → IsFine bpp c n io 0 (io.requests 0)
      → wait_requests bpp io ≡ wait_all bpp 0 io
  unfolding wait_requests
  wait_requests-wait_all c n io l (unused e h) = absurd (omega arith)
  wait_requests-wait_all c n io l (settled e h) = rw (e, wait_requests) refl
  wait_requests-wait_all c n io l (writes e h) = rw (e, wait_requests) refl
  wait_requests-wait_all c n io l (reads e h) = rw (e, wait_requests) refl

  -- A block of the overlap buffers whose request is done holds that of the disk.
  overlap-disk :
      (c : Bool) (n : ℕ) (io : Io A) (k : ℕ) (r : Request)
      → 0 < n
      → done r ≡ r
      → IsFine bpp c n io k r
      → io.cache (not c) k ≡ io.disk (block_of bpp n k)
  overlap-disk c n io k r l d (unused e h) = absurd (omega arith)
  overlap-disk c n io k r l d (settled e h) = h l
  overlap-disk c n io k r l d (writes e h) = cc
  overlap-disk c n io k r l d (reads e h) = cc

  -- With no block on the disk, a request that is done is in order.
  done-IsFine :
      (c c' : Bool) (n : ℕ) (io : Io A) (k : ℕ) (r : Request)
      → done r ≡ r
      → IsFine bpp c n io k r
      → IsFine bpp c' 0 io k r
  done-IsFine c c' n io k r d (unused e h) = unused e refl
  done-IsFine c c' n io k r d (settled e h) = settled e (λ l. absurd (omega arith))
  done-IsFine c c' n io k r d (writes e h) = cc
  done-IsFine c c' n io k r d (reads e h) = cc

two_pages : (k b n : ℕ) → n ≡ k * b → b < n → 2 * b ≤ n
two_pages zero b n e h = absurd (omega arith)
two_pages (suc zero) b n e h = absurd (omega arith)
two_pages (suc (suc k)) b n e h = omega arith

module _ {ℓ} (bpp bs : ℕ) (hp : 0 < bpp) (hs : 0 < bs) {A : Type ℓ} where
  -- The branch of `pop` that leaves the cache without an element, where `io` has the requests.
  abbrev under : GrowShrinkStack A → Io A → GrowShrinkStack A
  under s io = record {
    size = s.size - 1;
    cache_offset = page_size bpp bs;
    current_element = some (record { half = not s.cached; block = bpp - 1; index = bs - 1 });
    cached = not s.cached;
    n_bids = s.n_bids - bpp;
    io = io;
  }

  -- The requests that are started then, if any.
  abbrev ahead : GrowShrinkStack A → Io A
  ahead s = if ltb bpp s.n_bids then read_ahead bpp s.cached (s.n_bids - bpp) s.io else s.io

  ahead-fine :
      (s : GrowShrinkStack A) (k : ℕ)
      → IsValid bpp bs s
      → ((m : ℕ) → m < bpp → done (s.io.requests m) ≡ s.io.requests m)
      → bpp ≤ s.n_bids
      → k < bpp
      → IsFine bpp (not s.cached) (s.n_bids - bpp) (ahead s) k ((ahead s).requests k)
  unfolding read_ahead
  ahead-fine s k w is_done p l = elim (Bool-cases (ltb bpp s.n_bids)) [
    | inl t ↦
        let two = two_pages w.pages bpp s.n_bids w.whole (ground arith) in
        let u : ltb k bpp ≡ true = ground arith in
        rw (t, u) (reads (rw (not-not s.cached) refl) (omega arith))
    | inr t ↦
        let none_left : s.n_bids - bpp ≡ 0 = ground arith in
        rw (t, none_left)
          (done-IsFine bpp s.cached (not s.cached) s.n_bids s.io k (s.io.requests k) (is_done k l)
            (w.fine k l))
  ]

  read_ahead-on_disk :
      (s : GrowShrinkStack A) (j : ℕ)
      → j < s.n_bids - bpp
      → on_disk (s.n_bids - bpp - bpp) (read_ahead bpp s.cached (s.n_bids - bpp) s.io) j
        ≡ s.io.disk j
  unfolding read_ahead on_disk
  read_ahead-on_disk s j l = elim (Bool-cases (leb (s.n_bids - bpp - bpp) j)) [
    | inr t ↦ rw t refl
    | inl t ↦
        let le : s.n_bids - bpp - bpp ≤ j = ground arith in
        let u : ltb (j - (s.n_bids - bpp - bpp)) bpp ≡ true = ground arith in rw (t, u) refl
  ]

  under-low :
      (s : GrowShrinkStack A) (i : ℕ)
      → IsValid bpp bs s
      → ((m : ℕ) → m < bpp → done (s.io.requests m) ≡ s.io.requests m)
      → bpp ≤ s.n_bids
      → i < (s.n_bids - bpp) * bs
      → at bpp bs (under s (ahead s)) i ≡ at bpp bs s i
  under-low s i w is_done p l =
      let n = s.n_bids - bpp in
      let j = i / bs in
      let below : j < n = div-below bs hs i n l in
      let more : bpp < s.n_bids = omega arith in
      let split : s.n_bids * bs ≡ (n + bpp) * bs = ap (λ z. z * bs) (omega arith) in
      let t : ltb bpp s.n_bids ≡ true = ground arith in
      at-disk bpp bs (under s (ahead s)) i l
      ∙ rw t (ap (λ b. b (i % bs)) (read_ahead-on_disk s j below))
      ∙ sym (ap (λ b. b (i % bs)) (on_disk-done bpp s.cached s.n_bids s.io is_done j (omega arith)))
      ∙ sym (at-disk bpp bs s i (omega arith))

  ahead-cache :
      (s : GrowShrinkStack A) (k : ℕ)
      → (ahead s).cache (not s.cached) k ≡ s.io.cache (not s.cached) k
  unfolding read_ahead
  ahead-cache s k = elim (Bool-cases (ltb bpp s.n_bids)) [ inl t ↦ rw t refl | inr t ↦ rw t refl ]

  under-page :
      (s : GrowShrinkStack A) (i : ℕ)
      → IsValid bpp bs s
      → ((m : ℕ) → m < bpp → done (s.io.requests m) ≡ s.io.requests m)
      → bpp ≤ s.n_bids
      → (s.n_bids - bpp) * bs ≤ i
      → i < s.n_bids * bs
      → at bpp bs (under s (ahead s)) i ≡ at bpp bs s i
  under-page s i w is_done p q r =
      let n = s.n_bids - bpp in
      let (block, index) = div-shift bs hs i n q in
      let o = i - n * bs in
      let split : s.n_bids * bs ≡ (n + bpp) * bs = ap (λ z. z * bs) (omega arith) in
      let k : o / bs < bpp = div-below bs hs o bpp (omega arith) in
      let here : i / bs ≡ block_of bpp s.n_bids (o / bs) = omega (arith, block) in
      at-cache bpp bs (under s (ahead s)) i q
      ∙ ap (λ b. b (o % bs))
          (ahead-cache s (o / bs)
            ∙ overlap-disk bpp s.cached s.n_bids s.io (o / bs) (s.io.requests (o / bs))
                (omega arith) (is_done (o / bs) k) (w.fine (o / bs) k))
      ∙ ap₂ s.io.disk (sym here) (sym index)
      ∙ sym (
          ap (λ b. b (i % bs))
            (on_disk-done bpp s.cached s.n_bids s.io is_done (i / bs)
              (div-below bs hs i s.n_bids r)))
      ∙ sym (at-disk bpp bs s i r)

  under-Popped :
      (s : GrowShrinkStack A)
      → IsValid bpp bs s
      → ((m : ℕ) → m < bpp → done (s.io.requests m) ≡ s.io.requests m)
      → bpp ≤ s.n_bids
      → s.cache_offset ≡ 1
      → Popped bpp bs s (under s (ahead s))
  under-Popped s w is_done p one =
      let n = s.n_bids - bpp in
      let positive = page_positive bpp bs hp hs in
      let split : s.n_bids * bs ≡ (n + bpp) * bs = ap (λ z. z * bs) (omega arith) in
      let (block, index) = last-div bs hs bpp (page_size bpp bs - 1) hp (omega arith) in
      record {
        valid = record {
          pages = w.pages - 1;
          whole = one_page_less w.pages bpp s.n_bids w.whole p hp;
          counted = omega (arith, w.counted);
          fits = omega arith;
          busy = λ _. positive;
          pointed = λ _. ap some (
              ap₂ (λ y z. record { half = not s.cached; block = y; index = z }) (sym block)
                (sym index));
          fine = λ k l. ahead-fine s k w is_done p l;
        };
        size = omega (arith, w.counted);
        old = λ i l. elim (Bool-cases (ltb i (n * bs))) [
          | inl t ↦ under-low s i w is_done p (ground arith)
          | inr t ↦ under-page s i w is_done p (ground arith) (omega (arith, w.counted))
        ];
      }

  pop_underflow-ahead :
      (s : GrowShrinkStack A)
      → IsValid bpp bs s
      → bpp ≤ s.n_bids
      → pop_underflow bpp bs s ≡ (let io = wait_all bpp 0 s.io in under s (ahead (with_io s io)))
  unfolding pop_underflow
  pop_underflow-ahead s w p =
      let io = wait_all bpp 0 s.io in
      ap
        (λ z.
          under s (if ltb bpp s.n_bids then prefetch_page bpp s.cached (s.n_bids - bpp) z else z))
        (wait_requests-wait_all bpp s.cached s.n_bids s.io (omega arith) (w.fine 0 hp))
      ∙ ap (under s) (elim (Bool-cases (ltb bpp s.n_bids)) [
        | inl t ↦
            let two = two_pages w.pages bpp s.n_bids w.whole (ground arith) in
            rw t (prefetch_page-read_ahead bpp s.cached (s.n_bids - bpp) io (omega arith))
        | inr t ↦ rw t refl
      ])

  pub pop_underflow-Popped :
      (s : GrowShrinkStack A)
      → IsValid bpp bs s
      → bpp ≤ s.n_bids
      → s.cache_offset ≡ 1
      → Popped bpp bs s (pop_underflow bpp bs s)
  pop_underflow-Popped s w p one =
      let io = wait_all bpp 0 s.io in
      let (keeps, is_done, _) = wait_all-Keeps bpp bs hs bpp 0 s w (omega arith) in
      let q =
        under-Popped (with_io s io) keeps.valid (λ m l. is_done m (omega arith) (omega arith)) p
          one in
      rw (pop_underflow-ahead s w p)
        (record { valid = q.valid; size = q.size; old = λ i l. q.old i l ∙ keeps.same i })
