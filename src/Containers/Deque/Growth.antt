-- ===== src/Containers/Deque/Growth.antt =====
-- `double_array` and the growth in `resize`: the vector grows, and the elements stay.
use native.Mathlib.Nat.{mod-eq_of_lt}
use stxxl.Prelude.{
  ℕ, ◌+◌, ◌-◌, ◌*◌, ◌%◌, ◌≡◌, ◌<◌, ◌≤◌, ◌&&◌, refl, ap, ◌∙◌, sym, arith, true, ltb, leb, Bool-cases,
  inl, inr, if◌then◌else◌, ◌^◌,
}
use stxxl.Containers.Deque.{Deque, element, enlarge, copy, move_up, double_array, make_room}
use stxxl.Containers.Deque.Wrap.{inside, outside, wrap}
use stxxl.Containers.Deque.Contents.{IsValid}

-- The deque `d'` has the elements of `d` in a vector of `n` places.
pub record Grown {ℓ} {A : Type ℓ} (d : Deque A) (n : ℕ) (d' : Deque A) : Type ℓ where
  pub valid : IsValid d'
  pub vector_size : d'.vector_size ≡ n
  pub m_size : d'.m_size ≡ d.m_size
  pub same : (i : ℕ) → i < d.m_size → element d' i ≡ element d i

module _ {ℓ} {A : Type ℓ} where
  -- Reads after the vector has grown to `size` places and its end from `b` on has moved up to `dest`.
  read-copied :
      (elements fresh : ℕ → A) (b size dest i : ℕ)
      → b + i < size
      → copy b size dest (λ j. if ltb j size then elements j else fresh j) (dest + i)
        ≡ elements (b + i)
  read-copied elements fresh b size dest i h =
      let t : leb dest (dest + i) && ltb (dest + i) (dest + (size - b)) ≡ true = ground arith in
      let e : b + (dest + i - dest) ≡ b + i = omega arith in
      let u : ltb (b + i) size ≡ true = ground arith in rw (t, e, u) refl

  read-low :
      (elements fresh : ℕ → A) (b size dest k : ℕ)
      → k < size
      → k < dest
      → copy b size dest (λ j. if ltb j size then elements j else fresh j) k ≡ elements k
  read-low elements fresh b size dest k h h' = ground arith

  module _ (fresh : ℕ → A) (d : Deque A) (v : IsValid d) (n : ℕ) (h : d.vector_size * 2 ≤ n) where
    wrapped :
        d.m_end < d.m_begin
        → Grown d n (record (enlarge fresh d.vector_size n d) {
          elements =
              copy d.m_begin d.vector_size
                (n - d.vector_size + d.m_begin)
                (enlarge fresh d.vector_size n d).elements;
          m_begin = n - d.vector_size + d.m_begin;
        })
    wrapped l =
        let size = d.vector_size in
        let b = d.m_begin in
        let dest = n - size + b in
        let begin = v.inside in
        let room = v.room in
        let ends = v.ends in
        elim (wrap (b + d.m_size) size (omega arith)) [
          | inside p e ↦ absurd (omega arith)
          | outside p e ↦ record {
            valid = record {
              inside = omega arith;
              room = omega arith;
              ends = elim (wrap (dest + d.m_size) n (omega arith)) [
                | inside q f ↦ absurd (omega arith)
                | outside q f ↦ omega arith
              ];
            };
            vector_size = refl;
            m_size = refl;
            same = λ i k. elim (wrap (b + i) size (omega arith)) [
              | inside q f ↦
                  ap (copy b size dest (enlarge fresh size n d).elements)
                    (mod-eq_of_lt (omega arith))
                  ∙ read-copied d.elements fresh b size dest i q
                  ∙ ap d.elements (sym f)
              | outside q f ↦
                  let g : (dest + i) % n ≡ (b + i) % size = elim (wrap (dest + i) n (omega arith)) [
                    | inside q' f' ↦ absurd (omega arith)
                    | outside q' f' ↦ omega arith
                  ] in
                  ap (copy b size dest (enlarge fresh size n d).elements) g
                  ∙ read-low d.elements fresh b size dest ((b + i) % size) (omega arith)
                      (omega arith)
            ];
          }
        ]

    straight : d.m_begin ≤ d.m_end → Grown d n (enlarge fresh d.vector_size n d)
    straight l =
        let size = d.vector_size in
        let begin = v.inside in
        let room = v.room in
        let ends = v.ends in
        elim (wrap (d.m_begin + d.m_size) size (omega arith)) [
          | outside p e ↦ absurd (omega arith)
          | inside p e ↦ record {
            valid = record {
              inside = omega arith;
              room = omega arith;
              ends = ends ∙ e ∙ sym (mod-eq_of_lt (omega arith));
            };
            vector_size = refl;
            m_size = refl;
            same = λ i k.
                let small : d.m_begin + i < size = omega arith in
                let t : ltb (d.m_begin + i) size ≡ true = ground arith in
                ap (enlarge fresh size n d).elements (mod-eq_of_lt (omega arith))
                ∙ rw t refl
                ∙ ap d.elements (sym (mod-eq_of_lt small));
          }
        ]

    pub move_up-Grown :
        Grown d n
          (move_up d.vector_size (n - d.vector_size + d.m_begin) (enlarge fresh d.vector_size n d))
    move_up-Grown = elim (Bool-cases (ltb d.m_end d.m_begin)) [
      | inl t ↦ rw t (wrapped (ground arith))
      | inr t ↦ rw t (straight (ground arith))
    ]

  pub double_array-Grown :
      (fresh : ℕ → A) (d : Deque A) → IsValid d → Grown d (2 * d.vector_size) (double_array fresh d)
  unfolding double_array
  double_array-Grown fresh d v =
      let n = 2 * d.vector_size in
      let e : d.vector_size + d.m_begin ≡ n - d.vector_size + d.m_begin = omega arith in
      rw e (move_up-Grown fresh d v n (omega arith))

  -- The growth in `resize` leaves a place more than the `n` elements need.
  pub make_room-Grown :
      (fresh : ℕ → A) (n : ℕ) (d : Deque A)
      → IsValid d
      → n < 2 ^ 62
      → d.vector_size ≤ 2 ^ 63
      → (size : ℕ) × (n < size) × Grown d size (make_room fresh n d) × (size ≤ 2 ^ 63)
  unfolding make_room
  make_room-Grown fresh n d v small few =
      let begin = v.inside in
      let next : (n + 1) % 2 ^ 64 ≡ n + 1 = omega arith in
      let twice : 2 * n % 2 ^ 64 ≡ 2 * n = omega arith in
      elim (Bool-cases (ltb d.vector_size (n + 1))) [
        | inl t ↦
            let dest : (2 * n + 2 ^ 64 - d.vector_size + d.m_begin) % 2 ^ 64
                ≡ 2 * n - d.vector_size + d.m_begin =
              ground arith in
            rw (next, twice, t, dest)
              (2 * n, ground arith, move_up-Grown fresh d v (2 * n) (ground arith), omega arith)
        | inr t ↦
            rw (next, t)
              (
                d.vector_size,
                ground arith,
                record { valid = v; vector_size = refl; m_size = refl; same = λ i h. refl },
                few,
              )
      ]
