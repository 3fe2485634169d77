-- ===== src/Containers/Vector/Index.antt =====
-- The parts of an index, and rows of a table: `p * n + b` for `b` below `n`.
use native.Mathlib.Nat.{
  div-add-mod', mod-lt, div-lt_iff_lt-mul, mul-add-div_right, div-eq_of_lt, mul_comm,
}
use stxxl.Prelude.{
  ℕ, zero, suc, ◌+◌, ◌-◌, ◌*◌, ◌/◌, ◌%◌, ◌==◌, ◌≡◌, ◌≢◌, ◌<◌, ◌≤◌, ap, ap₂, ◌∙◌, sym, arith, ltb,
  ◌⊎◌, Bool-cases, inl, inr,
}
use stxxl.Containers.Vector.{blocked_index, index, div_ceil}

-- A row ends before a later one begins.
pub row : (p q n : ℕ) → p < q → p * n + n ≤ q * n
row p zero n h = absurd (omega arith)
row p (suc q) n h = elim (Bool-cases (ltb p q)) [
  | inl t ↦ omega (arith, row p q n (ground arith))
  | inr t ↦ let e : p ≡ q = ground arith in rw e (omega arith)
]

pub row-lt : (p q n : ℕ) → p * n < q * n → p < q
row-lt p q n h = elim (Bool-cases (ltb p q)) [
  | inl t ↦ ground arith
  | inr t ↦ elim (Bool-cases (p == q)) [
    | inl e ↦ absurd (omega (arith, ap (λ z. z * n) (let f : p ≡ q = ground arith in f)))
    | inr ne ↦ absurd (omega (arith, row q p n (ground arith)))
  ]
]

-- Outside of a row.
pub row-outside : (p q b n : ℕ) → p ≢ q → b < n → (p * n + b < q * n) ⊎ (q * n + n ≤ p * n + b)
row-outside p q b n ne h = elim (Bool-cases (ltb p q)) [
  | inl t ↦ inl (omega (arith, row p q n (ground arith)))
  | inr t ↦ inr (omega (arith, row q p n (ground arith)))
]

-- The quotient is rounded up.
pub div_ceil_bounds : (n d : ℕ) → 0 < d → (n ≤ div_ceil n d * d) × (div_ceil n d * d < n + d)
div_ceil_bounds n d h =
    let total = div-add-mod' n d in
    let small = mod-lt n h in
    elim (Bool-cases (n % d == 0)) [
      | inl t ↦ rw t (ground arith, ground arith)
      | inr t ↦ rw t (ground arith, ground arith)
    ]

spread : (q p b s : ℕ) → (q * p + b) * s ≡ q * (s * p) + b * s
spread q p b s = grind arith

module _ (page_size block_size : ℕ) (hp : 0 < page_size) (hs : 0 < block_size) where
  -- What the assertions of `set` state, and the block.
  pub record Splits (i : ℕ) : Type 0 where
    pub total :
        i
        ≡ ((index page_size block_size i).block2 * page_size
              + (index page_size block_size i).block1)
            * block_size
          + (index page_size block_size i).offset
    pub block1 : (index page_size block_size i).block1 < page_size
    pub offset : (index page_size block_size i).offset < block_size

  pub index-Splits : (i : ℕ) → Splits i
  unfolding blocked_index
  index-Splits i =
      let m = block_size * page_size in
      let pos : 0 < m = grind arith in
      let rest = i - i / m * m in
      let total = div-add-mod' i m in
      let small = mod-lt i pos in
      let total1 = div-add-mod' rest block_size in
      let small1 = mod-lt rest hs in
      record {
        total = omega (arith, spread (i / m) page_size (rest / block_size) block_size);
        block1 =
            (div-lt_iff_lt-mul {k = block_size} {x = rest} {y = page_size} hs).1
              (omega (arith, mul_comm block_size page_size));
        offset = omega arith;
      }

  pub block-of :
      (i : ℕ)
      → i / block_size
        ≡ (index page_size block_size i).block2 * page_size + (index page_size block_size i).block1
  block-of i =
      let c = index page_size block_size i in
      let p = index-Splits i in
      ap (λ z. z / block_size) p.total
      ∙ mul-add-div_right hs (c.block2 * page_size + c.block1) c.offset
      ∙ ap (λ z. c.block2 * page_size + c.block1 + z) (div-eq_of_lt p.offset)
      ∙ omega arith

  -- An index below the end of `n` blocks lies in one of them.
  pub block-lt :
      (i n : ℕ)
      → i < n * block_size
      → (index page_size block_size i).block2 * page_size + (index page_size block_size i).block1
        < n
  block-lt i n h =
      omega (arith, block-of i, (div-lt_iff_lt-mul {k = block_size} {x = i} {y = n} hs).1 h)

  -- Two indices differ in a part.
  pub index-ne :
      (i j : ℕ)
      → (index page_size block_size i).block2 ≡ (index page_size block_size j).block2
      → (index page_size block_size i).block1 ≡ (index page_size block_size j).block1
      → (index page_size block_size i).offset ≡ (index page_size block_size j).offset
      → i ≡ j
  index-ne i j e f g =
      (index-Splits i).total
      ∙ ap₂ (λ x y. x * block_size + y) (ap₂ (λ x y. x * page_size + y) e f) g
      ∙ sym (index-Splits j).total
