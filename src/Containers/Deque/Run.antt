-- ===== src/Containers/Deque/Run.antt =====
-- Sequences of calls on a deque, and the same calls on a list.
use stxxl.Prelude.{
  ℕ, zero, suc, ◌==◌, ◌≡◌, ◌⊎◌, refl, ap, ap₂, ◌∙◌, sym, arith, inl, inr, true, false, ltb,
  Bool-cases, List, [], ◌∷◌, ◌++◌, Option, none, some, get_elem?,
}
use stxxl.Containers.ListStack.{resume, answer}
use stxxl.Containers.Deque.{
  Deque, element, at, front, back, push_front, push_back, pop_front, pop_back, empty,
}
use stxxl.Containers.Deque.Contents.{IsValid, gather, contents, get_elem?-gather, get_elem?-beyond}
use stxxl.Containers.Deque.Push.{push_front-contents, push_back-contents}
use stxxl.Containers.Deque.Pop.{pop_front-contents, pop_back-contents}

pub data Call {ℓ} (A : Type ℓ) : Type ℓ where
  push_front_call push_back_call : A → Call A
  pop_front_call pop_back_call front_call back_call : Call A
  at_call : ℕ → Call A

module _ {ℓ} {A : Type ℓ} where
  unfoldable pub last : List A → Option A
  last [] = none
  last (x ∷ []) = some x
  last (x ∷ y ∷ l) = last (y ∷ l)

  unfoldable pub without_last : List A → Option (List A)
  without_last [] = none
  without_last (x ∷ []) = some []
  without_last (x ∷ y ∷ l) = elim (without_last (y ∷ l)) [ none ↦ none | some r ↦ some (x ∷ r) ]

  last-snoc : (l : List A) (x : A) → last (l ++ (x ∷ [])) ≡ some x
  unfolding last
  last-snoc [] x = refl
  last-snoc (y ∷ []) x = refl
  last-snoc (y ∷ z ∷ l) x = last-snoc (z ∷ l) x

  without_last-snoc : (l : List A) (x : A) → without_last (l ++ (x ∷ [])) ≡ some l
  unfolding without_last
  without_last-snoc [] x = refl
  without_last-snoc (y ∷ []) x = refl
  without_last-snoc (y ∷ z ∷ l) x = rw (without_last-snoc (z ∷ l) x) refl

  -- The values that the calls of `front`, `back` and `[]` return on a list; `none` where a call fails.
  unfoldable pub run_list : List (Call A) → List A → Option (List A)
  run_list [] l = some []
  run_list (push_front_call v ∷ calls) l = run_list calls (v ∷ l)
  run_list (push_back_call v ∷ calls) l = run_list calls (l ++ (v ∷ []))
  run_list (pop_front_call ∷ calls) [] = none
  run_list (pop_front_call ∷ calls) (v ∷ l) = run_list calls l
  run_list (pop_back_call ∷ calls) l = resume (without_last l) (run_list calls)
  run_list (front_call ∷ calls) l = resume (get_elem? l 0) (λ v. answer v (run_list calls l))
  run_list (back_call ∷ calls) l = resume (last l) (λ v. answer v (run_list calls l))
  run_list (at_call n ∷ calls) l = resume (get_elem? l n) (λ v. answer v (run_list calls l))

  -- The same calls on a deque.
  unfoldable pub run : (ℕ → A) → List (Call A) → Deque A → Option (List A)
  run fresh [] d = some []
  run fresh (push_front_call v ∷ calls) d = run fresh calls (push_front fresh v d)
  run fresh (push_back_call v ∷ calls) d = run fresh calls (push_back fresh v d)
  run fresh (pop_front_call ∷ calls) d = resume (pop_front d) (run fresh calls)
  run fresh (pop_back_call ∷ calls) d = resume (pop_back d) (run fresh calls)
  run fresh (front_call ∷ calls) d = resume (front d) (λ v. answer v (run fresh calls d))
  run fresh (back_call ∷ calls) d = resume (back d) (λ v. answer v (run fresh calls d))
  run fresh (at_call n ∷ calls) d = resume (at n d) (λ v. answer v (run fresh calls d))

-- Both ends of a deque.
data Ends {ℓ} {A : Type ℓ} (d : Deque A) : Type ℓ where
  no_end :
      contents d ≡ []
      → pop_front d ≡ none
      → pop_back d ≡ none
      → front d ≡ none
      → back d ≡ none
      → Ends d
  two_ends :
      (x y : A) (s t : Deque A)
      → contents d ≡ x ∷ contents s
      → contents d ≡ contents t ++ (y ∷ [])
      → pop_front d ≡ some s
      → pop_back d ≡ some t
      → front d ≡ some x
      → back d ≡ some y
      → IsValid s
      → IsValid t
      → Ends d

positive : (n : ℕ) → (n ≡ 0) ⊎ ((k : ℕ) × (n ≡ suc k))
positive zero = inl refl
positive (suc k) = inr (k, refl)

module _ {ℓ} {A : Type ℓ} where
  ends : (d : Deque A) → IsValid d → Ends d
  unfolding pop_front pop_back front back empty
  ends d v = elim (positive d.m_size) [
    | inl e ↦
        let t : d.m_size == 0 ≡ true = ground arith in
        no_end (ap (λ n. gather n (element d)) e) (rw t refl) (rw t refl) (rw t refl) (rw t refl)
    | inr (k, e) ↦
        let t : d.m_size == 0 ≡ false = ground arith in
        let (s, p, vs, c) = pop_front-contents d v k e in
        let (r, q, vr, b, _, _) = pop_back-contents d v k e in
        two_ends _ _ s r c b p q (rw t refl) (rw t refl) vs vr
  ]

  at-contents : (n : ℕ) (d : Deque A) → at n d ≡ get_elem? (contents d) n
  unfolding at
  at-contents n d = elim (Bool-cases (ltb n d.m_size)) [
    | inl t ↦ rw t (sym (get_elem?-gather d.m_size n (element d) (ground arith)))
    | inr t ↦ rw t (sym (get_elem?-beyond d.m_size n (element d) (ground arith)))
  ]

returned {ℓ} :
    {A : Type ℓ} (o o' : Option A) (r r' : Option (List A))
    → o ≡ o'
    → r ≡ r'
    → resume o (λ v. answer v r) ≡ resume o' (λ v. answer v r')
returned o o' r r' e f = ap₂ (λ a b. resume a (λ v. answer v b)) e f

module _ {ℓ} {A : Type ℓ} (fresh : ℕ → A) where
  -- Any sequence of calls of `push_front`, `push_back`, `pop_front`, `pop_back`, `front`, `back` and `[]`
  -- on a valid deque gives what the calls give on the list of its elements: the same values, and a
  -- failed assertion where the list has no such element.
  pub run_calls-run_list :
      (calls : List (Call A)) (d : Deque A)
      → IsValid d
      → run fresh calls d ≡ run_list calls (contents d)
  unfolding run run_list without_last last
  run_calls-run_list [] d v = refl
  run_calls-run_list (push_front_call x ∷ calls) d v =
      let (v', e) = push_front-contents fresh d v x in
      run_calls-run_list calls (push_front fresh x d) v' ∙ ap (run_list calls) e
  run_calls-run_list (push_back_call x ∷ calls) d v =
      let (v', e) = push_back-contents fresh d v x in
      run_calls-run_list calls (push_back fresh x d) v' ∙ ap (run_list calls) e
  run_calls-run_list (pop_front_call ∷ calls) d v = elim (ends d v) [
    | no_end c p q f b ↦
        ap (λ o. resume o (run fresh calls)) p ∙ sym (ap (run_list (pop_front_call ∷ calls)) c)
    | two_ends x y s t c c' p q f b vs vt ↦
        ap (λ o. resume o (run fresh calls)) p
        ∙ run_calls-run_list calls s vs
        ∙ sym (ap (run_list (pop_front_call ∷ calls)) c)
  ]
  run_calls-run_list (pop_back_call ∷ calls) d v = elim (ends d v) [
    | no_end c p q f b ↦
        ap (λ o. resume o (run fresh calls)) q
        ∙ sym (ap (λ l. resume (without_last l) (run_list calls)) c)
    | two_ends x y s t c c' p q f b vs vt ↦
        ap (λ o. resume o (run fresh calls)) q
        ∙ run_calls-run_list calls t vt
        ∙ sym (
            ap (λ o. resume o (run_list calls))
              (ap without_last c' ∙ without_last-snoc (contents t) y))
  ]
  run_calls-run_list (front_call ∷ calls) d v =
      let same = run_calls-run_list calls d v in
      elim (ends d v) [
        | no_end c p q f b ↦ returned (front d) _ _ _ (f ∙ sym (ap (λ l. get_elem? l 0) c)) same
        | two_ends x y s t c c' p q f b vs vt ↦
            returned (front d) _ _ _ (f ∙ sym (ap (λ l. get_elem? l 0) c)) same
      ]
  run_calls-run_list (back_call ∷ calls) d v =
      let same = run_calls-run_list calls d v in
      elim (ends d v) [
        | no_end c p q f b ↦ returned (back d) _ _ _ (b ∙ sym (ap last c)) same
        | two_ends x y s t c c' p q f b vs vt ↦
            returned (back d) _ _ _ (b ∙ sym (ap last c' ∙ last-snoc (contents t) y)) same
      ]
  run_calls-run_list (at_call n ∷ calls) d v =
      returned (at n d) _ _ _ (at-contents n d) (run_calls-run_list calls d v)
