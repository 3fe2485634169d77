-- ===== src/Containers/GrowShrinkStack/Schedule.antt =====
-- Sequences of calls on a `grow_shrink_stack`, with requests done in between, in any order and at any
-- time.
use stxxl.Prelude.{
  ℕ, suc, ◌-◌, ◌≡◌, ◌∙◌, sym, ap, ap₂, ◌<◌, refl, arith, List, ◌∷◌, Option, Bool, Bool-cases, inl,
  inr, ◌==◌, ltb, if◌then◌else◌,
}
use stxxl.Containers.ListStack.{
  down, down-cong, Event, run_list, run_stack, Tops, bottom, tops, IsStack, run_stack-run_list,
}
use stxxl.Containers.NormalStack.{Block}
use stxxl.Containers.GrowShrinkStack.{GrowShrinkStack, complete, push, pop, top, new_stack}
use stxxl.Containers.GrowShrinkStack.Contents.{at, IsValid, unused, Popped}
use stxxl.Containers.GrowShrinkStack.Settled.{with_io, complete-Keeps}
use stxxl.Containers.GrowShrinkStack.Push.{push-Pushed}
use stxxl.Containers.GrowShrinkStack.Pop.{pop-Pops, top-at}

module _ {ℓ} (blocks_per_page block_size : ℕ) {A : Type ℓ} where
  -- The I/O layer does the request `k` of the stack, if there is one.
  unfoldable pub io_step : ℕ → GrowShrinkStack A → GrowShrinkStack A
  io_step k s = if ltb k blocks_per_page then with_io s (complete k s.io) else s

  -- The values that the calls of `top` return, with requests done in between.
  abbrev pub run : List (Event A) → GrowShrinkStack A → Option (List A)
  run = run_stack (push blocks_per_page block_size) (pop blocks_per_page block_size) top io_step

  -- The elements of the stack, the top first.
  unfoldable pub contents : GrowShrinkStack A → List A
  contents s = down s.size (at blocks_per_page block_size s)

module _ {ℓ} (bpp bs : ℕ) (hp : 0 < bpp) (hs : 0 < bs) {A : Type ℓ} where
  contents-push :
      (v : A) (s : GrowShrinkStack A)
      → IsValid bpp bs s
      → contents bpp bs (push bpp bs v s) ≡ v ∷ contents bpp bs s
  unfolding contents
  contents-push v s w =
      let p = push-Pushed bpp bs hp hs v s w in
      let size : (push bpp bs v s).size ≡ suc s.size = omega (arith, p.size) in
      ap (λ n. down n (at bpp bs (push bpp bs v s))) size
      ∙ ap₂ (◌∷◌) p.new (down-cong s.size _ _ p.old)

  contents-pop :
      (s s' : GrowShrinkStack A)
      → Popped bpp bs s s'
      → contents bpp bs s ≡ at bpp bs s (s.size - 1) ∷ contents bpp bs s'
  unfolding contents
  contents-pop s s' p =
      let size : s.size ≡ suc s'.size = omega (arith, p.size) in
      let top : s'.size ≡ s.size - 1 = omega (arith, p.size) in
      ap (λ n. down n (at bpp bs s)) size
      ∙ ap₂ (◌∷◌) (ap (at bpp bs s) top) (down-cong s'.size _ _ (λ i h. sym (p.old i h)))

  take_top :
      (s : GrowShrinkStack A)
      → IsValid bpp bs s
      → Tops (push bpp bs) (pop bpp bs) top (io_step bpp bs) (IsValid bpp bs) (contents bpp bs) s
  unfolding contents pop top
  take_top s w = elim (Bool-cases (s.size == 0)) [
    | inl t ↦
        let e : s.size ≡ 0 = ground arith in
        bottom (ap (λ n. down n (at bpp bs s)) e) (ground arith) (ground arith)
    | inr t ↦
        let p = pop-Pops bpp bs hp hs s w (ground arith) in
        tops (at bpp bs s (s.size - 1)) p.rest (contents-pop s p.rest p.popped) p.pops
          (top-at bpp bs hp hs s w (ground arith)) p.popped.valid
  ]

  io_step-IsValid :
      (k : ℕ) (s : GrowShrinkStack A) → IsValid bpp bs s → IsValid bpp bs (io_step bpp bs k s)
  unfolding io_step
  io_step-IsValid k s w = elim (Bool-cases (ltb k bpp)) [
    | inl t ↦ rw t (complete-Keeps bpp bs hs s k w (ground arith)).valid
    | inr t ↦ rw t w
  ]

  io_step-contents :
      (k : ℕ) (s : GrowShrinkStack A)
      → IsValid bpp bs s
      → contents bpp bs (io_step bpp bs k s) ≡ contents bpp bs s
  unfolding io_step contents
  io_step-contents k s w = elim (Bool-cases (ltb k bpp)) [
    | inl t ↦
        let keeps = complete-Keeps bpp bs hs s k w (ground arith) in
        rw t (down-cong s.size _ _ (λ i l. keeps.same i))
    | inr t ↦ rw t refl
  ]

  -- A `grow_shrink_stack` keeps the contract of a stack.
  grow_shrink_stack-IsStack :
      IsStack
        (push bpp bs)
        (pop bpp bs)
        top
        (io_step bpp bs {A = A})
        (IsValid bpp bs)
        (contents bpp bs)
  grow_shrink_stack-IsStack = record {
    push_valid = λ v s w. (push-Pushed bpp bs hp hs v s w).valid;
    push_contents = contents-push;
    take_top = take_top;
    step_valid = io_step-IsValid;
    step_contents = io_step-contents;
  }

  -- Any sequence of calls of `push`, `pop` and `top` on a valid stack, with requests done in between in
  -- any order and at any time, gives what the calls give on the list of the stack's elements: the
  -- same values of `top`, and a failure where the list has none. Pages have at least one block, and
  -- blocks at least one element.
  pub run_events-run_list :
      (events : List (Event A)) (s : GrowShrinkStack A)
      → IsValid bpp bs s
      → run bpp bs events s ≡ run_list events (contents bpp bs s)
  run_events-run_list events s w =
      run_stack-run_list (push bpp bs) (pop bpp bs) top (io_step bpp bs) (IsValid bpp bs)
        (contents bpp bs) grow_shrink_stack-IsStack events s w

  pub new_stack-IsValid :
      (cache : Bool → ℕ → Block A) (disk : ℕ → Block A) → IsValid bpp bs (new_stack cache disk)
  unfolding new_stack
  new_stack-IsValid cache disk = record {
    pages = 0;
    whole = omega arith;
    counted = omega arith;
    fits = omega arith;
    busy = λ h. absurd (omega arith);
    pointed = λ h. absurd (omega arith);
    fine = λ k l. unused refl refl;
  }
