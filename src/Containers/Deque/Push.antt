-- ===== src/Containers/Deque/Push.antt =====
-- `push_front` and `push_back`.
use native.Mathlib.Nat.{mod-eq_of_lt}
use stxxl.Prelude.{
  ℕ, suc, ◌+◌, ◌-◌, ◌*◌, ◌%◌, ◌==◌, ◌≡◌, ◌≢◌, ◌<◌, refl, ap, ap₂, ◌∙◌, sym, arith, false, Bool, ltb,
  Bool-cases, inl, inr, if◌then◌else◌, [], ◌∷◌, ◌++◌,
}
use stxxl.Containers.Deque.{
  Deque, element, write, double_array, put_front, put_back, push_front, push_back,
}
use stxxl.Containers.Deque.Wrap.{
  inside, outside, wrap, before, before-lt, count_from-before, place_ne, first_place, last_place,
}
use stxxl.Containers.Deque.Contents.{IsValid, gather, gather-cong, gather-snoc, contents}
use stxxl.Containers.Deque.Growth.{Grown, double_array-Grown}

module _ {ℓ} {A : Type ℓ} where
  write_self : (i : ℕ) (v : A) (elements : ℕ → A) → write i v elements i ≡ v
  write_self i v elements = ground arith

  write_other :
      (i : ℕ) (v : A) (elements : ℕ → A) (j : ℕ) → j ≢ i → write i v elements j ≡ elements j
  write_other i v elements j ne = ground arith

  pub Grown-contents : (d d' : Deque A) (n : ℕ) → Grown d n d' → contents d' ≡ contents d
  Grown-contents d d' n g =
      let f = element d' in
      ap (λ k. gather k f) g.m_size ∙ gather-cong d.m_size f (element d) g.same

module _ {ℓ} {A : Type ℓ} (d : Deque A) (v : IsValid d) where
  -- The places of the elements are different.
  place-end : (i : ℕ) → i < d.m_size → (d.m_begin + i) % d.vector_size ≢ d.m_end
  place-end i l e =
      let begin = v.inside in
      let room = v.room in
      let ends = v.ends in
      elim (wrap (d.m_begin + i) d.vector_size (omega arith)) [
        | inside p f ↦ elim (wrap (d.m_begin + d.m_size) d.vector_size (omega arith)) [
          | inside p' f' ↦ omega arith
          | outside p' f' ↦ omega arith
        ]
        | outside p f ↦ elim (wrap (d.m_begin + d.m_size) d.vector_size (omega arith)) [
          | inside p' f' ↦ omega arith
          | outside p' f' ↦ omega arith
        ]
      ]

  put_back-contents :
      (el : A)
      → d.m_size + 1 < d.vector_size
      → IsValid (put_back el d) × (contents (put_back el d) ≡ contents d ++ (el ∷ []))
  unfolding put_back
  put_back-contents el room =
      let begin = v.inside in
      let ends = v.ends in
      let f = element (put_back el d) in
      let e : d.m_size + 1 ≡ suc d.m_size = omega arith in
      (
        record {
          inside = begin;
          room = room;
          ends = elim (wrap (d.m_begin + d.m_size) d.vector_size (omega arith)) [
            | inside p g ↦ ap (λ z. z % d.vector_size) (omega arith)
            | outside p g ↦ elim (wrap (d.m_begin + (d.m_size + 1)) d.vector_size (omega arith)) [
              | inside p' g' ↦ absurd (omega arith)
              | outside p' g' ↦ mod-eq_of_lt (omega arith) ∙ omega arith
            ]
          ];
        },
        ap (λ k. gather k f) e
            ∙ gather-snoc d.m_size f
            ∙ ap₂ (λ l x. l ++ (x ∷ []))
                (gather-cong d.m_size f (element d)
                  (λ i l. write_other d.m_end el d.elements _ (place-end i l)))
                (ap (write d.m_end el d.elements) (sym ends) ∙ write_self d.m_end el d.elements),
      )

  put_front-contents :
      (el : A)
      → d.m_size + 1 < d.vector_size
      → IsValid (put_front el d) × (contents (put_front el d) ≡ el ∷ contents d)
  unfolding put_front
  put_front-contents el room =
      let n = d.vector_size in
      let b = before d.m_begin n in
      let begin = v.inside in
      let ends = v.ends in
      let f = element (put_front el d) in
      let e : d.m_size + 1 ≡ suc d.m_size = omega arith in
      (
        record {
          inside = before-lt d.m_begin n begin;
          room = room;
          ends = ends ∙ sym (count_from-before d.m_begin d.m_size n begin room);
        },
        ap (λ k. gather k f) e
            ∙ ap₂ (◌∷◌)
                (ap (write b el d.elements) (first_place b n (before-lt d.m_begin n begin))
                  ∙ write_self b el d.elements)
                (gather-cong d.m_size (λ i. f (i + 1)) (element d)
                  (λ i l.
                    write_other b el d.elements ((b + (i + 1)) % n) (
                      place_ne b (i + 1) n (before-lt d.m_begin n begin) (omega arith)
                        (omega arith))
                    ∙ ap d.elements (count_from-before d.m_begin i n begin (omega arith)))),
      )

module _ {ℓ} {A : Type ℓ} (fresh : ℕ → A) (d : Deque A) (v : IsValid d) (el : A) where
  -- After the test for an overflow there is a free place more, and the elements are the same.
  roomy :
      (full : Bool)
      → (full ≡ false → d.m_size + 1 < d.vector_size)
      → (d' : Deque A) × ((if full then double_array fresh d else d) ≡ d')
        × IsValid d'
        × (d'.m_size + 1 < d'.vector_size)
        × (contents d' ≡ contents d)
  roomy full h = elim (Bool-cases full) [
    | inl t ↦
        let g = double_array-Grown fresh d v in
        let room = v.room in
        let m_size = g.m_size in
        let vector_size = g.vector_size in
        (
          double_array fresh d,
          rw t refl,
          g.valid,
          omega arith,
          Grown-contents d (double_array fresh d) (2 * d.vector_size) g,
        )
    | inr t ↦ (d, rw t refl, v, h t, refl)
  ]

  room_back : ((d.m_end + 1) % d.vector_size == d.m_begin) ≡ false → d.m_size + 1 < d.vector_size
  room_back t =
      let begin = v.inside in
      let room = v.room in
      let ends = v.ends in
      let ne : (d.m_end + 1) % d.vector_size ≢ d.m_begin = ground arith in
      elim (Bool-cases (ltb (d.m_size + 1) d.vector_size)) [
        | inl u ↦ ground arith
        | inr u ↦
            let e : d.m_size + 1 ≡ d.vector_size = ground arith in
            absurd (ne (last_place d.m_begin d.m_size d.m_end d.vector_size begin e ends))
      ]

  room_front :
      ((d.m_begin + d.vector_size - 1) % d.vector_size == d.m_end) ≡ false
      → d.m_size + 1 < d.vector_size
  room_front t =
      let begin = v.inside in
      let room = v.room in
      let ends = v.ends in
      let ne : before d.m_begin d.vector_size ≢ d.m_end = ground arith in
      elim (Bool-cases (ltb (d.m_size + 1) d.vector_size)) [
        | inl u ↦ ground arith
        | inr u ↦
            let e : d.m_begin + d.vector_size - 1 ≡ d.m_begin + d.m_size = ground arith in
            absurd (ne (ap (λ z. z % d.vector_size) e ∙ sym ends))
      ]

  pub push_back-contents :
      IsValid (push_back fresh el d) × (contents (push_back fresh el d) ≡ contents d ++ (el ∷ []))
  unfolding push_back
  push_back-contents =
      let (d', e, v', r, c) = roomy ((d.m_end + 1) % d.vector_size == d.m_begin) room_back in
      let (valid, eq) = put_back-contents d' v' el r in
      rw e (valid, eq ∙ ap (λ l. l ++ (el ∷ [])) c)

  pub push_front-contents :
      IsValid (push_front fresh el d) × (contents (push_front fresh el d) ≡ el ∷ contents d)
  unfolding push_front
  push_front-contents =
      let (d', e, v', r, c) =
        roomy ((d.m_begin + d.vector_size - 1) % d.vector_size == d.m_end) room_front in
      let (valid, eq) = put_front-contents d' v' el r in rw e (valid, eq ∙ ap (λ l. el ∷ l) c)
