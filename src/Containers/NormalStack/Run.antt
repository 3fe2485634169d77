-- ===== src/Containers/NormalStack/Run.antt =====
-- Sequences of calls on a `normal_stack`, and on a list.
use stxxl.Prelude.{
  ℕ, suc, ◌-◌, ◌≡◌, ◌∙◌, sym, ap, ◌<◌, refl, arith, List, [], ◌∷◌, Option, none, ap₂, Bool,
  Bool-cases, inl, inr, ◌==◌,
}
use stxxl.Containers.ListStack.{
  down, down-cong, Event, run_list, run_stack, Tops, bottom, tops, IsStack, run_stack-run_list,
}
use stxxl.Containers.NormalStack.{NormalStack, Block, push, pop, top, new_stack}
use stxxl.Containers.NormalStack.Contents.{at, IsValid, Popped}
use stxxl.Containers.NormalStack.Push.{push-Pushed}
use stxxl.Containers.NormalStack.Pop.{pop-Pops, top-at}

module _ {ℓ} (blocks_per_page block_size : ℕ) {A : Type ℓ} where
  -- The values that the calls of `top` return; `none` where a call fails. Nothing happens in the
  -- background of a `normal_stack`.
  abbrev pub run : List (Event A) → NormalStack A → Option (List A)
  run = run_stack (push blocks_per_page block_size) (pop blocks_per_page block_size) top (λ _ s. s)

module _ {ℓ} (bpp bs : ℕ) {A : Type ℓ} where
  -- The elements of the stack, the top first.
  unfoldable pub contents : NormalStack A → List A
  contents s = down s.size (at bpp bs s)

module _ {ℓ} (bpp bs : ℕ) (hp : 0 < bpp) (hs : 0 < bs) {A : Type ℓ} where
  pub contents-push :
      (v : A) (s : NormalStack A)
      → IsValid bpp bs s
      → contents bpp bs (push bpp bs v s) ≡ v ∷ contents bpp bs s
  unfolding contents
  contents-push v s w =
      let p = push-Pushed bpp bs hp hs v s w in
      let size : (push bpp bs v s).size ≡ suc s.size = omega (arith, p.size) in
      ap (λ n. down n (at bpp bs (push bpp bs v s))) size
      ∙ ap₂ (◌∷◌) p.new (down-cong s.size _ _ p.old)

  pub contents-pop :
      (s s' : NormalStack A)
      → Popped bpp bs s s'
      → contents bpp bs s ≡ at bpp bs s (s.size - 1) ∷ contents bpp bs s'
  unfolding contents
  contents-pop s s' p =
      let size : s.size ≡ suc s'.size = omega (arith, p.size) in
      let top : s'.size ≡ s.size - 1 = omega (arith, p.size) in
      ap (λ n. down n (at bpp bs s)) size
      ∙ ap₂ (◌∷◌) (ap (at bpp bs s) top) (down-cong s'.size _ _ (λ i h. sym (p.old i h)))

  pub contents-empty : (s : NormalStack A) → s.size ≡ 0 → contents bpp bs s ≡ []
  unfolding contents
  contents-empty s e = ap (λ n. down n (at bpp bs s)) e

  pop-empty : (s : NormalStack A) → s.size ≡ 0 → pop bpp bs s ≡ none
  unfolding pop
  pop-empty s e = ground arith

  top-empty : (s : NormalStack A) → s.size ≡ 0 → top s ≡ none
  unfolding top
  top-empty s e = ground arith

  take_top :
      (s : NormalStack A)
      → IsValid bpp bs s
      → Tops (push bpp bs) (pop bpp bs) top (λ _ s. s) (IsValid bpp bs) (contents bpp bs) s
  take_top s w = elim (Bool-cases (s.size == 0)) [
    | inl t ↦
        let e : s.size ≡ 0 = ground arith in
        bottom (contents-empty s e) (pop-empty s e) (top-empty s e)
    | inr t ↦
        let p = pop-Pops bpp bs hp hs s w (ground arith) in
        tops (at bpp bs s (s.size - 1)) p.rest (contents-pop s p.rest p.popped) p.pops
          (top-at bpp bs hp hs s w (ground arith)) p.popped.valid
  ]

  -- A `normal_stack` keeps the contract of a stack.
  pub normal_stack-IsStack :
      IsStack
        (push bpp bs)
        (pop bpp bs)
        top
        (λ _ (s : NormalStack A). s)
        (IsValid bpp bs)
        (contents bpp bs)
  normal_stack-IsStack = record {
    push_valid = λ v s w. (push-Pushed bpp bs hp hs v s w).valid;
    push_contents = contents-push;
    take_top = take_top;
    step_valid = λ k s w. w;
    step_contents = λ k s w. refl;
  }

  -- Any sequence of calls of `push`, `pop` and `top` on a valid stack gives what it gives on the list
  -- of the stack's elements: the same values of `top`, and a failure where the list has none.
  -- Pages have at least one block, and blocks at least one element.
  pub run-run_list :
      (calls : List (Event A)) (s : NormalStack A)
      → IsValid bpp bs s
      → run bpp bs calls s ≡ run_list calls (contents bpp bs s)
  run-run_list calls s w =
      run_stack-run_list (push bpp bs) (pop bpp bs) top (λ _ s. s) (IsValid bpp bs)
        (contents bpp bs) normal_stack-IsStack calls s w

  pub new_stack-IsValid :
      (cache : Bool → ℕ → Block A) (disk : ℕ → Block A) → IsValid bpp bs (new_stack cache disk)
  unfolding new_stack
  new_stack-IsValid cache disk = record {
    pages = 0;
    whole = omega arith;
    counted = omega arith;
    fits = omega arith;
    busy = λ h. absurd (omega arith);
    pointed = λ h. absurd (omega arith);
  }

  -- A sequence of calls on a new stack gives what it gives on the empty list.
  -- Pages have at least one block, and blocks at least one element.
  pub run-new_stack :
      (calls : List (Event A)) (cache : Bool → ℕ → Block A) (disk : ℕ → Block A)
      → run bpp bs calls (new_stack cache disk) ≡ run_list calls []
  unfolding new_stack
  run-new_stack calls cache disk =
      run-run_list calls (new_stack cache disk) (new_stack-IsValid cache disk)
      ∙ ap (run_list calls) (contents-empty (new_stack cache disk) refl)
