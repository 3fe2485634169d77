-- ===== src/Containers/Deque/Contents.antt =====
-- The list of the elements of a deque, and its invariant.
use native.Mathlib.Nat.{mod-eq_of_lt}
use stxxl.Prelude.{
  ltb, Bool-cases, inl, inr, ◌*◌, sym, ℕ, zero, suc, ◌+◌, ◌%◌, ◌≡◌, ◌<◌, ◌≤◌, refl, ap, ap₂, ◌∙◌,
  arith, List, [], ◌∷◌, ◌++◌, none, some, get_elem?,
}
use stxxl.Containers.Deque.{new_deque, clear, Deque, element}

zero_plus : (n : ℕ) → 0 + n ≡ n
zero_plus n = omega arith

module _ {ℓ} {A : Type ℓ} where
  -- `f 0` to `f (n - 1)`
  abbrev pub gather : ℕ → (ℕ → A) → List A
  gather zero f = []
  gather (suc n) f = f 0 ∷ gather n (λ i. f (i + 1))

  pub gather-cong : (n : ℕ) (f g : ℕ → A) → ((i : ℕ) → i < n → f i ≡ g i) → gather n f ≡ gather n g
  gather-cong zero f g h = refl
  gather-cong (suc n) f g h =
      ap₂ (◌∷◌) (h 0 (omega arith))
        (gather-cong n (λ i. f (i + 1)) (λ i. g (i + 1)) (λ i l. h (i + 1) (omega arith)))

  pub gather-snoc : (n : ℕ) (f : ℕ → A) → gather (suc n) f ≡ gather n f ++ (f n ∷ [])
  gather-snoc zero f = refl
  gather-snoc (suc n) f =
      let e : n + 1 ≡ suc n = omega arith in
      ap (λ l. f 0 ∷ l)
        (gather-snoc n (λ i. f (i + 1)) ∙ ap (λ k. gather n (λ i. f (i + 1)) ++ (f k ∷ [])) e)

  pub get_elem?-gather : (n i : ℕ) (f : ℕ → A) → i < n → get_elem? (gather n f) i ≡ some (f i)
  get_elem?-gather zero i f h = absurd (omega arith)
  get_elem?-gather (suc n) zero f h = refl
  get_elem?-gather (suc n) (suc i) f h =
      let e : i + 1 ≡ suc i = omega arith in
      get_elem?-gather n i (λ j. f (j + 1)) (omega arith) ∙ ap (λ k. some (f k)) e

  pub get_elem?-beyond : (n i : ℕ) (f : ℕ → A) → n ≤ i → get_elem? (gather n f) i ≡ none
  get_elem?-beyond zero i f h = refl
  get_elem?-beyond (suc n) zero f h = absurd (omega arith)
  get_elem?-beyond (suc n) (suc i) f h = get_elem?-beyond n i (λ j. f (j + 1)) (omega arith)

  -- The elements, the front first.
  abbrev pub contents : Deque A → List A
  contents d = gather d.m_size (element d)

  -- The places are within the vector, which has at least one place that is free.
  pub record IsValid (d : Deque A) : Type 0 where
    pub inside : d.m_begin < d.vector_size
    pub room : d.m_size < d.vector_size
    pub ends : d.m_end ≡ (d.m_begin + d.m_size) % d.vector_size

  -- The constructors make valid deques, where a block has at least one element.
  pub new_deque-IsValid :
      (fresh : ℕ → A) (blocks n : ℕ) → 0 < blocks → IsValid (new_deque fresh blocks n)
  unfolding new_deque
  new_deque-IsValid fresh blocks n h = elim (Bool-cases (ltb blocks (2 * n))) [
    | inl t ↦
        let l : blocks < 2 * n = ground arith in
        rw t (record {
          inside = omega arith;
          room = omega arith;
          ends = sym (mod-eq_of_lt (omega arith) ∙ zero_plus n);
        })
    | inr t ↦
        let l : 2 * n ≤ blocks = ground arith in
        rw t (record {
          inside = h;
          room = omega arith;
          ends = sym (mod-eq_of_lt (omega arith) ∙ zero_plus n);
        })
  ]

  pub clear-IsValid :
      (fresh : ℕ → A) (blocks : ℕ) (d : Deque A) → 0 < blocks → IsValid (clear fresh blocks d)
  unfolding clear
  clear-IsValid fresh blocks d h = record { inside = h; room = h; ends = sym (mod-eq_of_lt h) }
