-- ===== src/Containers/Deque/Iterator.antt =====
-- `deque_iterator` and `const_deque_iterator`. An iterator is its offset; the deque is an argument.
-- `size_type` and `difference_type` have 64 bits.
use native.Mathlib.Nat.{mod-add-mod, add-mod_right}
use stxxl.Prelude.{
  ◌≢◌, ℕ, ◌+◌, ◌-◌, ◌%◌, ◌^◌, ◌==◌, ◌≡◌, ◌<◌, ◌≤◌, ◌&&◌, refl, ap, ap₂, ◌∙◌, sym, arith, Bool, true,
  false, ltb, leb, Bool-cases, inl, inr, if◌then◌else◌,
}
use stxxl.Containers.Deque.{Deque, element}
use stxxl.Containers.Deque.Wrap.{inside, outside, wrap}
use stxxl.Containers.Deque.Contents.{IsValid}

module _ {ℓ} {A : Type ℓ} (d : Deque A) where
  abbrev pub begin : ℕ
  begin = d.m_begin

  abbrev pub end : ℕ
  end = d.m_end

  abbrev pub abs_offset : ℕ → ℕ
  abs_offset offset = if leb d.m_begin offset then offset else d.vector_size + offset

  -- `self - a`, as the bits of the signed number
  unfoldable pub difference : ℕ → ℕ → ℕ
  difference self a = (abs_offset self + 2 ^ 64 - abs_offset a) % 2 ^ 64

  -- `self < a`, that is, `(a - self) > 0` as a signed number
  unfoldable pub less : ℕ → ℕ → Bool
  less self a = ltb 0 (difference a self) && ltb (difference a self) (2 ^ 63)

  -- `+` and `+=`, and `++` for 1
  unfoldable pub plus : ℕ → ℕ → ℕ
  plus offset op = (offset + op) % d.vector_size

  -- `-` and `-=`, and `--` for 1
  unfoldable pub minus : ℕ → ℕ → ℕ
  minus offset op = (offset + d.vector_size - op) % d.vector_size

  abbrev pub dereference : ℕ → A
  dereference offset = d.elements offset

  -- The iterators at the distances `i` and `j` from the start behave like `i` and `j`.
  pub record Indexes (i j : ℕ) : Type ℓ where
    pub value : dereference (plus begin i) ≡ element d i
    pub last : plus begin d.m_size ≡ end
    pub distance : difference (plus begin i) (plus begin j) ≡ (i + 2 ^ 64 - j) % 2 ^ 64
    pub order : less (plus begin i) (plus begin j) ≡ ltb i j
    pub same : (plus begin i == plus begin j) ≡ (i == j)
    pub onward : i ≤ j → plus (plus begin i) (j - i) ≡ plus begin j
    pub backward : i ≤ j → minus (plus begin j) (j - i) ≡ plus begin i

-- The sign of a difference of small numbers, read off its bits.
signed :
    (i j : ℕ)
    → i < 2 ^ 63
    → j < 2 ^ 63
    → (ltb 0 ((j + 2 ^ 64 - i) % 2 ^ 64) && ltb ((j + 2 ^ 64 - i) % 2 ^ 64) (2 ^ 63)) ≡ ltb i j
signed i j h h' = ground arith

equal : (i j : ℕ) → (i == j) ≡ true → i ≡ j
equal i j t = ground arith

module _ {ℓ} {A : Type ℓ} (d : Deque A) (v : IsValid d) where
  abs_offset-plus : (i : ℕ) → i ≤ d.m_size → abs_offset d (plus d (begin d) i) ≡ d.m_begin + i
  unfolding plus
  abs_offset-plus i h =
      let start = v.inside in
      let room = v.room in
      elim (wrap (d.m_begin + i) d.vector_size (omega arith)) [
        | inside p e ↦
            let t : leb d.m_begin ((d.m_begin + i) % d.vector_size) ≡ true = ground arith in rw t e
        | outside p e ↦
            let t : leb d.m_begin ((d.m_begin + i) % d.vector_size) ≡ false = ground arith in
            rw t (omega arith)
      ]

  plus-distinct :
      (i j : ℕ) → i ≤ d.m_size → j ≤ d.m_size → plus d (begin d) i ≡ plus d (begin d) j → i ≡ j
  plus-distinct i j h h' e =
      let e' = ap (abs_offset d) e in omega (arith, abs_offset-plus i h, abs_offset-plus j h', e')

  difference-plus :
      (i j : ℕ)
      → i ≤ d.m_size
      → j ≤ d.m_size
      → difference d (plus d (begin d) i) (plus d (begin d) j) ≡ (i + 2 ^ 64 - j) % 2 ^ 64
  unfolding difference
  difference-plus i j h h' =
      ap₂ (λ x y. (x + 2 ^ 64 - y) % 2 ^ 64) (abs_offset-plus i h) (abs_offset-plus j h')
      ∙ ap (λ z. z % 2 ^ 64) (omega arith)

  -- Iterators at two distances, at most the size, from the start of a valid deque whose vector has at most
  -- 2 ^ 62 places are told apart, compared and subtracted as the distances are; they lead from one
  -- to the other by `+` and `-`, the first gives its element, and the last place is the end.
  pub plus-Indexes :
      (i j : ℕ) → i ≤ d.m_size → j ≤ d.m_size → d.vector_size ≤ 2 ^ 62 → Indexes d i j
  unfolding plus minus less
  plus-Indexes i j h h' small =
      let n = d.vector_size in
      let b = d.m_begin in
      let start = v.inside in
      let room = v.room in
      let back = difference-plus j i h' h in
      record {
        value = refl;
        last = sym v.ends;
        distance = difference-plus i j h h';
        order =
            ap₂ (λ x y. ltb 0 x && ltb y (2 ^ 63)) back back
            ∙ signed i j (omega arith) (omega arith);
        same = elim (Bool-cases (i == j)) [
          | inl t ↦ let e = ap (λ z. (b + z) % n) (equal i j t) in rw t (ground arith)
          | inr t ↦
              let ne : i ≢ j = ground arith in
              let ne' : (b + i) % n ≢ (b + j) % n = λ e. ne (plus-distinct i j h h' e) in
              rw t (ground arith)
        ];
        onward = λ l. mod-add-mod (b + i) n (j - i) ∙ ap (λ z. z % n) (omega arith);
        backward = λ l. elim (wrap (b + j) n (omega arith)) [
          | inside p e ↦
              let f : (b + j) % n + n - (j - i) ≡ b + i + n = omega arith in
              ap (λ z. z % n) f ∙ add-mod_right (b + i) n
          | outside p e ↦
              let f : (b + j) % n + n - (j - i) ≡ b + i = omega arith in ap (λ z. z % n) f
        ];
      }
