-- ===== src/Containers/Deque/Resize.antt =====
-- `resize`.
use native.Mathlib.Nat.{mod-lt}
use stxxl.Prelude.{
  ℕ, zero, suc, ◌+◌, ◌-◌, ◌%◌, ◌≡◌, ◌<◌, refl, ap, ◌∙◌, arith, ltb, Bool-cases, inl, inr, Option,
  some, ◌^◌, ◌≤◌,
}
use stxxl.Containers.Deque.{Deque, element, pop_times, make_room, add_elements, resize}
use stxxl.Containers.Deque.Wrap.{grow_end}
use stxxl.Containers.Deque.Contents.{IsValid}
use stxxl.Containers.Deque.Growth.{make_room-Grown}
use stxxl.Containers.Deque.Pop.{pop_back-contents}

-- The deque of size `n` that is left, which starts with the elements of `d`.
pub record Resized {ℓ} {A : Type ℓ} (n : ℕ) (d : Deque A) (result : Option (Deque A)) : Type ℓ where
  pub rest : Deque A
  pub returns : result ≡ some rest
  pub valid : IsValid rest
  pub size : rest.m_size ≡ n
  pub same : (i : ℕ) → i < n → i < d.m_size → element rest i ≡ element d i

module _ {ℓ} {A : Type ℓ} where
  pop_times-Resized :
      (k n : ℕ) (d : Deque A) → IsValid d → d.m_size ≡ n + k → Resized n d (pop_times k d)
  unfolding pop_times
  pop_times-Resized zero n d v e = record {
    rest = d;
    returns = refl;
    valid = v;
    size = omega arith;
    same = λ i h h'. refl;
  }
  pop_times-Resized (suc k) n d v e =
      let (d', p, v', _, size, same) = pop_back-contents d v (n + k) (omega arith) in
      let r = pop_times-Resized k n d' v' size in
      record {
        rest = r.rest;
        returns = rw (p, pop_times) r.returns;
        valid = r.valid;
        size = r.size;
        same = λ i h h'. r.same i h (omega arith) ∙ same i;
      }

  -- The sum in `resize` does not wrap around.
  moved_end :
      (d : Deque A) (n : ℕ)
      → IsValid d
      → d.m_size ≤ n
      → n < 2 ^ 62
      → d.vector_size ≤ 2 ^ 63
      → (d.m_end + n + 2 ^ 64 - d.m_size) % 2 ^ 64 ≡ d.m_end + n - d.m_size
  moved_end d n v more small few =
      let begin = v.inside in
      let ends = v.ends in
      let place = mod-lt (d.m_begin + d.m_size) {m = d.vector_size} (omega arith) in omega arith

  -- `resize` of a valid deque, with a vector of at most 2 ^ 63 places, to any size below 2 ^ 62 returns a
  -- valid deque of that size, in which the elements that both have are as they were, also where the
  -- vector grows.
  pub resize-Resized :
      (fresh : ℕ → A) (n : ℕ) (d : Deque A)
      → IsValid d
      → n < 2 ^ 62
      → d.vector_size ≤ 2 ^ 63
      → Resized n d (resize fresh n d)
  unfolding resize add_elements
  resize-Resized fresh n d v small few = elim (Bool-cases (ltb n d.m_size)) [
    | inl t ↦ rw t (pop_times-Resized (d.m_size - n) n d v (ground arith))
    | inr t ↦
        let (size, h, g, fits) = make_room-Grown fresh n d v small few in
        let d' = make_room fresh n d in
        let inside = g.valid.inside in
        let m_size = g.m_size in
        let vector_size = g.vector_size in
        let sum = moved_end d' n g.valid (ground arith) small (omega arith) in
        rw t (record {
          rest = add_elements n d';
          returns = refl;
          valid = record {
            inside = inside;
            room = omega arith;
            ends =
                ap (λ z. z % d'.vector_size) sum
                ∙ ap (λ z. (z + n - d'.m_size) % d'.vector_size) g.valid.ends
                ∙ grow_end d'.m_begin d'.m_size n d'.vector_size inside g.valid.room (ground arith);
          };
          size = refl;
          same = λ i l l'. g.same i l';
        })
  ]
