-- ===== src/Containers/Vector/Positions/Steps.antt =====
-- The steps of a position, `++` and `--`, against `set`.
use native.Mathlib.Nat.{
  mul-add-div_right, div-eq_of_lt, div-add-mod', mod-lt, div-lt_iff_lt-mul, mul_comm,
}
use stxxl.Prelude.{
  ℕ, ◌+◌, ◌-◌, ◌*◌, ◌/◌, ◌%◌, ◌^◌, ◌<◌, ◌≤◌, ◌==◌, ◌≡◌, refl, ap, ◌∙◌, sym, arith, false,
  Bool-cases, inl, inr, zero, suc,
}
use stxxl.Containers.Vector.{blocked_index}
use stxxl.Containers.Vector.Index.{row}
use stxxl.Containers.Vector.Positions.{Position, set_position, next_position, previous_position}

-- What the assertions of the class state.
pub record IsPosition (modulo2 modulo1 : ℕ) (i : Position) : Type 0 where
  pub total : i.block2 * (modulo1 * modulo2) + i.block1 * modulo1 + i.offset ≡ i.pos
  pub block1 : i.block1 < modulo2
  pub offset : i.offset < modulo1

-- A number of rows is at most that of their cells.
le_cells : (b m : ℕ) → 0 < m → b ≤ b * m
le_cells zero m h = omega arith
le_cells (suc b) m h = omega (arith, le_cells b m h)

module _ (m2 m1 : ℕ) (h2 : 0 < m2) (h1 : 0 < m1) where
  -- `set` keeps the assertions.
  pub set_position-IsPosition : (pos : ℕ) → IsPosition m2 m1 (set_position m2 m1 pos)
  unfolding set_position blocked_index
  set_position-IsPosition pos =
      let m = m1 * m2 in
      let some_block : 0 < m = grind arith in
      let rest = pos - pos / m * m in
      let whole = div-add-mod' pos m in
      let small = mod-lt pos some_block in
      let whole1 = div-add-mod' rest m1 in
      let small1 = mod-lt rest h1 in
      record {
        total = omega arith;
        block1 =
            (div-lt_iff_lt-mul {k = m1} {x = rest} {y = m2} h1).1 (omega (arith, mul_comm m1 m2));
        offset = omega arith;
      }

  -- The assertions determine a position.
  pub IsPosition-set_position : (i : Position) → IsPosition m2 m1 i → i ≡ set_position m2 m1 i.pos
  unfolding set_position blocked_index
  IsPosition-set_position i p =
      let m = m1 * m2 in
      let some_block : 0 < m = grind arith in
      let low = i.block1 * m1 + i.offset in
      let small : low < m = omega (arith, row i.block1 m2 m1 p.block1, p.offset, mul_comm m1 m2) in
      let total : i.pos ≡ i.block2 * m + low = omega (arith, p.total) in
      let b2 : i.pos / m ≡ i.block2 =
        ap (λ z. z / m) total
        ∙ mul-add-div_right some_block i.block2 low
        ∙ ap (λ z. i.block2 + z) (div-eq_of_lt small)
        ∙ omega arith in
      let rest : i.pos - i.pos / m * m ≡ low = omega (arith, total, ap (λ z. z * m) b2) in
      let b1 : (i.pos - i.pos / m * m) / m1 ≡ i.block1 =
        ap (λ z. z / m1) rest
        ∙ mul-add-div_right h1 i.block1 i.offset
        ∙ ap (λ z. i.block1 + z) (div-eq_of_lt p.offset)
        ∙ omega arith in
      let o : i.pos - i.pos / m * m - (i.pos - i.pos / m * m) / m1 * m1 ≡ i.offset =
        omega (arith, rest, ap (λ z. z * m1) b1) in
      λ k. record { pos = i.pos; block2 = sym b2 k; block1 = sym b1 k; offset = sym o k }

  next_position-IsPosition :
      (i : Position)
      → IsPosition m2 m1 i
      → i.pos + 1 < 2 ^ 64
      → IsPosition m2 m1 (next_position m2 m1 i) × ((next_position m2 m1 i).pos ≡ i.pos + 1)
  unfolding next_position
  next_position-IsPosition i p small =
      let m = m1 * m2 in
      let some_block : 0 < m = grind arith in
      let bound = le_cells i.block2 m some_block in
      let no_wrap : (i.pos + 1) % 2 ^ 64 ≡ i.pos + 1 = omega arith in
      let no_wrap2 : (i.block2 + 1) % 2 ^ 64 ≡ i.block2 + 1 = omega (arith, p.total) in
      elim (Bool-cases (i.offset + 1 == m1)) [
        | inl t ↦ elim (Bool-cases (i.block1 + 1 == m2)) [
          | inl u ↦
              let e1 : i.block1 + 1 ≡ m2 = ground arith in
              let e0 : i.offset + 1 ≡ m1 = ground arith in
              let whole : i.block1 * m1 + m1 ≡ m =
                omega (arith, ap (λ z. z * m1) e1, mul_comm m1 m2) in
              rw (t, u, no_wrap, no_wrap2)
                (
                  record { total = omega (arith, p.total, whole, e0); block1 = h2; offset = h1 },
                  refl,
                )
          | inr u ↦
              let e0 : i.offset + 1 ≡ m1 = ground arith in
              rw (t, u, no_wrap)
                (
                  record {
                    total = omega (arith, p.total, e0);
                    block1 = ground (arith, p.block1);
                    offset = h1;
                  },
                  refl,
                )
        ]
        | inr t ↦
            rw (t, no_wrap)
              (
                record {
                  total = omega (arith, p.total);
                  block1 = p.block1;
                  offset = ground (arith, p.offset);
                },
                refl,
              )
      ]

  -- `++` of the position of an element is the position of the next, as long as its number does not
  -- wrap around. Blocks and pages are not empty.
  pub next_position-set_position :
      (pos : ℕ)
      → pos + 1 < 2 ^ 64
      → next_position m2 m1 (set_position m2 m1 pos) ≡ set_position m2 m1 (pos + 1)
  unfolding set_position blocked_index
  next_position-set_position pos small =
      let i = set_position m2 m1 pos in
      let (p, e) = next_position-IsPosition i (set_position-IsPosition pos) small in
      IsPosition-set_position (next_position m2 m1 i) p ∙ ap (set_position m2 m1) e

  -- `--` of the next position is the position, as long as the number of an element does not wrap around.
  pub previous_position-next_position :
      (i : Position)
      → IsPosition m2 m1 i
      → i.pos + 1 < 2 ^ 64
      → previous_position m2 m1 (next_position m2 m1 i) ≡ i
  unfolding previous_position next_position
  previous_position-next_position i p small =
      let m = m1 * m2 in
      let some_block : 0 < m = grind arith in
      let bound = le_cells i.block2 m some_block in
      let no_wrap : (i.pos + 1) % 2 ^ 64 ≡ i.pos + 1 = omega arith in
      let no_wrap2 : (i.block2 + 1) % 2 ^ 64 ≡ i.block2 + 1 = omega (arith, p.total) in
      let back : (i.pos + 1 + 2 ^ 64 - 1) % 2 ^ 64 ≡ i.pos = omega arith in
      let back2 : (i.block2 + 1 + 2 ^ 64 - 1) % 2 ^ 64 ≡ i.block2 = omega (arith, p.total) in
      elim (Bool-cases (i.offset + 1 == m1)) [
        | inl t ↦ elim (Bool-cases (i.block1 + 1 == m2)) [
          | inl u ↦
              let e1 : m2 - 1 ≡ i.block1 = ground arith in
              let e0 : m1 - 1 ≡ i.offset = ground arith in
              rw (t, u, no_wrap, no_wrap2, back, back2, e0, e1) refl
          | inr u ↦
              let e0 : m1 - 1 ≡ i.offset = ground arith in
              let ne : i.block1 + 1 == 0 ≡ false = ground arith in
              let e1 : i.block1 + 1 - 1 ≡ i.block1 = omega arith in
              rw (t, u, no_wrap, back, ne, e0, e1) refl
        ]
        | inr t ↦
            let ne : i.offset + 1 == 0 ≡ false = ground arith in
            let e0 : i.offset + 1 - 1 ≡ i.offset = omega arith in rw (t, no_wrap, back, ne, e0) refl
      ]
