-- ===== src/Containers/NormalStack/Copy.antt =====
-- The constructor of `normal_stack` that copies a stack of another type, which is a parameter: its copy
-- constructor and `size`, `top` and `pop`. `normal_stack` itself cannot be copied.
use mathlib.Core.List.{append-nil}
use stxxl.Prelude.{
  ℕ, zero, suc, ◌++◌, Bool, ◌≡◌, ◌∙◌, ap, refl, List, [], ◌∷◌, Option, none, some, length, ◌<◌,
}
use stxxl.Containers.NormalStack.{NormalStack, Block, push, new_stack}
use stxxl.Containers.NormalStack.Contents.{IsValid}
use stxxl.Containers.NormalStack.Push.{push-Pushed}
use stxxl.Containers.NormalStack.Run.{contents, contents-push, contents-empty, new_stack-IsValid}

-- What the constructor calls of `StackType`; `none` is a call that fails.
pub record StackType {ℓ κ} (A : Type ℓ) (S : Type κ) : Type (ℓ ⊔ κ) where
  pub copy : S → S
  pub size : S → ℕ
  pub top : S → Option A
  pub pop : S → Option S

-- What it relies on: a stack holds a list, the top first, which its copy holds too.
pub record IsSource {ℓ κ μ} {A : Type ℓ} {S : Type κ} (type : StackType A S) (Valid : S → Type μ)
    (elements : S → List A) : Type (ℓ ⊔ κ ⊔ μ) where
  pub copy_valid : (s : S) → Valid s → Valid (type.copy s)
  pub copy_elements : (s : S) → Valid s → elements (type.copy s) ≡ elements s
  pub size : (s : S) → Valid s → type.size s ≡ length (elements s)
  pub top : (s : S) (v : A) (l : List A) → Valid s → elements s ≡ v ∷ l → type.top s ≡ some v
  pub pop :
      (s : S) (v : A) (l : List A)
      → Valid s
      → elements s ≡ v ∷ l
      → (s' : S) × (type.pop s ≡ some s') × Valid s' × (elements s' ≡ l)

module _ {ℓ κ} {A : Type ℓ} {S : Type κ} (type : StackType A S) where
  -- The loop that takes the elements from `stack_copy`; `tmp` is filled from its end.
  unfoldable pub drain : ℕ → S → List A → Option (List A)
  drain zero s tmp = some tmp
  drain (suc k) s tmp = elim (type.top s) [
    | none ↦ none
    | some v ↦ elim (type.pop s) [ none ↦ none | some s' ↦ drain k s' (v ∷ tmp) ]
  ]

module _ {ℓ} (blocks_per_page block_size : ℕ) {A : Type ℓ} where
  -- The loop that pushes the elements of `tmp`.
  unfoldable pub push_all : List A → NormalStack A → NormalStack A
  push_all [] t = t
  push_all (v ∷ tmp) t = push_all tmp (push blocks_per_page block_size v t)

  -- The constructor, for the memory and the disk that it finds.
  unfoldable pub copy_stack {κ} :
      {S : Type κ} → StackType A S → S → NormalStack A → Option (NormalStack A)
  copy_stack type stack new =
      let stack_copy = type.copy stack in
      elim (drain type (type.size stack_copy) stack_copy []) [
        | none ↦ none
        | some tmp ↦ some (push_all tmp new)
      ]

module _ {ℓ} {A : Type ℓ} where
  abbrev onto : List A → List A → List A
  onto [] acc = acc
  onto (v ∷ l) acc = onto l (v ∷ acc)

  onto-onto : (l acc m : List A) → onto (onto l acc) m ≡ onto acc (l ++ m)
  onto-onto [] acc m = refl
  onto-onto (v ∷ l) acc m = onto-onto l (v ∷ acc) m

module _ {ℓ κ μ} {A : Type ℓ} {S : Type κ} {type : StackType A S} {Valid : S → Type μ}
    {elements : S → List A} (laws : IsSource type Valid elements) where
  drain_step :
      (k : ℕ) (s s' : S) (v : A) (tmp : List A)
      → type.top s ≡ some v
      → type.pop s ≡ some s'
      → drain type (suc k) s tmp ≡ drain type k s' (v ∷ tmp)
  unfolding drain
  drain_step k s s' v tmp h h' = rw (h, h', drain) refl

  drain-elements :
      (l : List A) (s : S) (tmp : List A)
      → Valid s
      → elements s ≡ l
      → drain type (length l) s tmp ≡ some (onto l tmp)
  unfolding drain
  drain-elements [] s tmp w e = refl
  drain-elements (v ∷ l) s tmp w e =
      let (s', pops, w', rest) = laws.pop s v l w e in
      drain_step (length l) s s' v tmp (laws.top s v l w e) pops
      ∙ drain-elements l s' (v ∷ tmp) w' rest

  drain-copy :
      (s : S)
      → Valid s
      → drain type (type.size (type.copy s)) (type.copy s) [] ≡ some (onto (elements s) [])
  drain-copy s w =
      let w' = laws.copy_valid s w in
      let same = laws.copy_elements s w in
      ap (λ n. drain type n (type.copy s) []) (laws.size (type.copy s) w' ∙ ap length same)
      ∙ drain-elements (elements s) (type.copy s) [] w' same

module _ {ℓ} (bpp bs : ℕ) (hp : 0 < bpp) (hs : 0 < bs) {A : Type ℓ} where
  push_all-contents :
      (l : List A) (t : NormalStack A)
      → IsValid bpp bs t
      → IsValid bpp bs (push_all bpp bs l t)
        × (contents bpp bs (push_all bpp bs l t) ≡ onto l (contents bpp bs t))
  unfolding push_all
  push_all-contents [] t w = (w, refl)
  push_all-contents (v ∷ l) t w =
      let (w', e) = push_all-contents l (push bpp bs v t) (push-Pushed bpp bs hp hs v t w).valid in
      (w', e ∙ ap (onto l) (contents-push bpp bs hp hs v t w))

  new_stack-contents :
      (cache : Bool → ℕ → Block A) (disk : ℕ → Block A)
      → contents bpp bs (new_stack cache disk) ≡ []
  unfolding new_stack
  new_stack-contents cache disk = contents-empty bpp bs hp hs (new_stack cache disk) refl

  -- The constructor that copies a stack of another type, which holds a list of elements in its way, returns
  -- a valid stack with the same elements, in the same order, through any number of full pages.
  -- Pages have at least one block, and blocks at least one element.
  pub copy_stack-contents {κ μ} :
      {S : Type κ} {type : StackType A S} {Valid : S → Type μ} {elements : S → List A}
      → IsSource type Valid elements
      → (s : S) (cache : Bool → ℕ → Block A) (disk : ℕ → Block A) → Valid s
      → (t : NormalStack A) × (copy_stack bpp bs type s (new_stack cache disk) ≡ some t)
        × IsValid bpp bs t
        × (contents bpp bs t ≡ elements s)
  unfolding copy_stack
  copy_stack-contents {type = type} {elements = elements} laws s cache disk w =
      let new = new_stack cache disk in
      let l = onto (elements s) [] in
      let none_yet : contents bpp bs new ≡ [] = new_stack-contents cache disk in
      let (w', e) = push_all-contents l new (new_stack-IsValid bpp bs hp hs cache disk) in
      (
        push_all bpp bs l new,
        rw (drain-copy laws s w, copy_stack) refl,
        w',
        e ∙ ap (onto l) none_yet ∙ onto-onto (elements s) [] [] ∙ append-nil (elements s),
      )
