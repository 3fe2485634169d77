-- ===== src/Containers/ListStack.antt =====
-- The contract of a stack, and what a sequence of calls on one gives, against a list.
use stxxl.Prelude.{
  ℕ, zero, suc, ◌≡◌, ◌∙◌, sym, ap, ap₂, ◌<◌, refl, arith, List, [], ◌∷◌, Option, none, some,
}

module _ {ℓ} {A : Type ℓ} where
  -- `f (n - 1)` down to `f 0`
  abbrev pub down : ℕ → (ℕ → A) → List A
  down zero f = []
  down (suc n) f = f n ∷ down n f

  pub down-cong : (n : ℕ) (f g : ℕ → A) → ((i : ℕ) → i < n → f i ≡ g i) → down n f ≡ down n g
  down-cong zero f g h = refl
  down-cong (suc n) f g h =
      ap₂ (◌∷◌) (h n (omega arith)) (down-cong n f g (λ i p. h i (omega arith)))

-- The results of a call, and of the calls after it, which a failed call ends.
abbrev pub resume {ℓ ℓ'} : {S : Type ℓ} → {B : Type ℓ'} → Option S → (S → Option B) → Option B
resume none f = none
resume (some s) f = f s

abbrev pub answer {ℓ} : {A : Type ℓ} → A → Option (List A) → Option (List A)
answer v none = none
answer v (some vs) = some (v ∷ vs)

-- A call, or a step in the background, which the caller does not choose.
pub data Event {ℓ} (A : Type ℓ) : Type ℓ where
  push_call : A → Event A
  pop_call top_call : Event A
  background : ℕ → Event A

module _ {ℓ} {A : Type ℓ} where
  -- The values that the calls of `top` return on a list, the top first; `none` where a call fails.
  unfoldable pub run_list : List (Event A) → List A → Option (List A)
  run_list [] l = some []
  run_list (push_call v ∷ events) l = run_list events (v ∷ l)
  run_list (pop_call ∷ events) [] = none
  run_list (pop_call ∷ events) (v ∷ l) = run_list events l
  run_list (top_call ∷ events) [] = none
  run_list (top_call ∷ events) (v ∷ l) = answer v (run_list events (v ∷ l))
  run_list (background k ∷ events) l = run_list events l

module _ {ℓ κ} {A : Type ℓ} {S : Type κ} (push : A → S → S) (pop : S → Option S)
    (top : S → Option A) (step : ℕ → S → S) where
  -- The same events on a stack.
  unfoldable pub run_stack : List (Event A) → S → Option (List A)
  run_stack [] s = some []
  run_stack (push_call v ∷ events) s = run_stack events (push v s)
  run_stack (pop_call ∷ events) s = resume (pop s) (run_stack events)
  run_stack (top_call ∷ events) s = resume (top s) (λ v. answer v (run_stack events s))
  run_stack (background k ∷ events) s = run_stack events (step k s)

  module _ {μ} (Valid : S → Type μ) (contents : S → List A) where
    -- What `pop` and `top` do: both fail, or the top and the rest are there.
    pub data Tops (s : S) : Type (ℓ ⊔ κ ⊔ μ) where
      bottom : contents s ≡ [] → pop s ≡ none → top s ≡ none → Tops s
      tops :
          (v : A) (s' : S)
          → contents s ≡ v ∷ contents s'
          → pop s ≡ some s'
          → top s ≡ some v
          → Valid s'
          → Tops s

    -- The contract: a valid stack is a list, and a step in the background is not seen.
    pub record IsStack : Type (ℓ ⊔ κ ⊔ μ) where
      pub push_valid : (v : A) (s : S) → Valid s → Valid (push v s)
      pub push_contents : (v : A) (s : S) → Valid s → contents (push v s) ≡ v ∷ contents s
      pub take_top : (s : S) → Valid s → Tops s
      pub step_valid : (k : ℕ) (s : S) → Valid s → Valid (step k s)
      pub step_contents : (k : ℕ) (s : S) → Valid s → contents (step k s) ≡ contents s

    module _ (laws : IsStack) where
      run_pop :
          (events : List (Event A)) (s : S)
          → ((s' : S) → Valid s' → run_stack events s' ≡ run_list events (contents s'))
          → Tops s
          → run_stack (pop_call ∷ events) s ≡ run_list (pop_call ∷ events) (contents s)
      unfolding run_stack run_list
      run_pop events s ih (bottom c p t) =
          ap (λ z. resume z (run_stack events)) p ∙ sym (ap (run_list (pop_call ∷ events)) c)
      run_pop events s ih (tops v s' c p t w) =
          ap (λ z. resume z (run_stack events)) p
          ∙ ih s' w
          ∙ sym (ap (run_list (pop_call ∷ events)) c)

      run_top :
          (events : List (Event A)) (s : S)
          → run_stack events s ≡ run_list events (contents s)
          → Tops s
          → run_stack (top_call ∷ events) s ≡ run_list (top_call ∷ events) (contents s)
      unfolding run_stack run_list
      run_top events s ih (bottom c p t) =
          ap (λ z. resume z (λ v. answer v (run_stack events s))) t
          ∙ sym (ap (run_list (top_call ∷ events)) c)
      run_top events s ih (tops v s' c p t w) =
          ap (λ z. resume z (λ v. answer v (run_stack events s))) t
          ∙ ap (answer v) (ih ∙ ap (run_list events) c)
          ∙ sym (ap (run_list (top_call ∷ events)) c)

      pub run_stack-run_list :
          (events : List (Event A)) (s : S)
          → Valid s
          → run_stack events s ≡ run_list events (contents s)
      unfolding run_stack run_list
      run_stack-run_list [] s w = refl
      run_stack-run_list (push_call v ∷ events) s w =
          run_stack-run_list events (push v s) (laws.push_valid v s w)
          ∙ ap (run_list events) (laws.push_contents v s w)
      run_stack-run_list (pop_call ∷ events) s w =
          run_pop events s (run_stack-run_list events) (laws.take_top s w)
      run_stack-run_list (top_call ∷ events) s w =
          run_top events s (run_stack-run_list events s w) (laws.take_top s w)
      run_stack-run_list (background k ∷ events) s w =
          run_stack-run_list events (step k s) (laws.step_valid k s w)
          ∙ ap (run_list events) (laws.step_contents k s w)
