-- ===== src/Containers/Deque/Pop.antt =====
-- `pop_front` and `pop_back`.
use native.Mathlib.Nat.{mod-lt}
use stxxl.Prelude.{
  ℕ, suc, ◌+◌, ◌-◌, ◌%◌, ◌==◌, ◌≡◌, refl, ap, ap₂, ◌∙◌, sym, arith, false, [], ◌∷◌, ◌++◌, some,
}
use stxxl.Containers.Deque.{Deque, element, pop_front, pop_back, empty}
use stxxl.Containers.Deque.Wrap.{before, count_from_after, before-count, first_place}
use stxxl.Containers.Deque.Contents.{IsValid, gather, gather-cong, gather-snoc, contents}

module _ {ℓ} {A : Type ℓ} (d : Deque A) (v : IsValid d) where
  pub pop_front-contents :
      (k : ℕ)
      → d.m_size ≡ suc k
      → (rest : Deque A) × (pop_front d ≡ some rest)
        × IsValid rest
        × (contents d ≡ d.elements d.m_begin ∷ contents rest)
  unfolding pop_front empty
  pop_front-contents k e =
      let n = d.vector_size in
      let begin = v.inside in
      let room = v.room in
      let ends = v.ends in
      let t : d.m_size == 0 ≡ false = ground arith in
      let rest : Deque A = record d { m_begin = (d.m_begin + 1) % n; m_size = d.m_size - 1 } in
      let f : d.m_size - 1 ≡ k = omega arith in
      (
        rest,
        rw t refl,
        record {
          inside = mod-lt (d.m_begin + 1) (omega arith);
          room = omega arith;
          ends =
              ends
              ∙ ap (λ z. (d.m_begin + z) % n) (omega arith)
              ∙ sym (count_from_after d.m_begin (d.m_size - 1) n begin);
        },
        ap (λ z. gather z (element d)) e
            ∙ ap₂ (◌∷◌) (ap d.elements (first_place d.m_begin n begin)) (
                gather-cong k (λ i. element d (i + 1)) (element rest)
                  (λ i l. ap d.elements (sym (count_from_after d.m_begin i n begin))))
            ∙ ap (λ z. d.elements d.m_begin ∷ gather z (element rest)) (sym f),
      )

  pub pop_back-contents :
      (k : ℕ)
      → d.m_size ≡ suc k
      → (rest : Deque A) × (pop_back d ≡ some rest)
        × IsValid rest
        × (contents d
            ≡ contents rest ++ (d.elements ((d.m_end + d.vector_size - 1) % d.vector_size) ∷ []))
        × (rest.m_size ≡ k)
        × ((i : ℕ) → element rest i ≡ element d i)
  unfolding pop_back empty
  pop_back-contents k e =
      let n = d.vector_size in
      let begin = v.inside in
      let room = v.room in
      let ends = v.ends in
      let t : d.m_size == 0 ≡ false = ground arith in
      let rest : Deque A = record d { m_end = before d.m_end n; m_size = d.m_size - 1 } in
      let f : d.m_size - 1 ≡ k = omega arith in
      let last : before d.m_end n ≡ (d.m_begin + k) % n =
        ap (λ z. before z n) (ends ∙ ap (λ z. (d.m_begin + z) % n) (omega arith))
        ∙ before-count d.m_begin k n begin (omega arith) in
      (
        rest,
        rw t refl,
        record {
          inside = begin;
          room = omega arith;
          ends = last ∙ ap (λ z. (d.m_begin + z) % n) (sym f);
        },
        ap (λ z. gather z (element d)) e
            ∙ gather-snoc k (element d)
            ∙ ap₂ (λ l x. l ++ (x ∷ [])) (ap (λ z. gather z (element d)) (sym f))
                (ap d.elements (sym last)),
        f,
        λ i. refl,
      )
