-- ===== src/Containers/NormalStack/Memory.antt =====
-- What the loops over the blocks of a page write and read.
use stxxl.Prelude.{
  ℕ, zero, suc, ◌+◌, ◌-◌, ◌==◌, ◌≡◌, ◌<◌, ◌≤◌, refl, arith, if◌then◌else◌, ◌⊎◌, inl, inr,
  Bool-cases, ap, ◌∙◌,
}
use stxxl.Containers.NormalStack.{Block, write_page, read_page}

module _ {ℓ} {A : Type ℓ} where
  pub write_page-outside :
      (k i : ℕ) (page : ℕ → Block A) (base : ℕ) (disk : ℕ → Block A) (j : ℕ)
      → (j < base + i) ⊎ (base + i + k ≤ j)
      → write_page k i page base disk j ≡ disk j
  unfolding write_page
  write_page-outside zero i page base disk j h = refl
  write_page-outside (suc k) i page base disk j h = ground (
    arith,
    write_page-outside k (i + 1) page base (λ j. if j == base + i then page i else disk j) j,
  )

  pub write_page-inside :
      (k i : ℕ) (page : ℕ → Block A) (base : ℕ) (disk : ℕ → Block A) (j : ℕ)
      → base + i ≤ j
      → j < base + i + k
      → write_page k i page base disk j ≡ page (j - base)
  unfolding write_page
  write_page-inside zero i page base disk j p q = absurd (omega arith)
  write_page-inside (suc k) i page base disk j p q = elim (Bool-cases (j == base + i)) [
    | inl t ↦
        let here : (if j == base + i then page i else disk j) ≡ page i = rw t in
        let index : i ≡ j - base = ground arith in
        write_page-outside k (i + 1) page base _ j (inl (ground arith)) ∙ here ∙ ap page index
    | inr t ↦ write_page-inside k (i + 1) page base _ j (ground arith) (ground arith) ∙ refl
  ]

  read_page-outside :
      (k base : ℕ) (disk page : ℕ → Block A) (j : ℕ) → k ≤ j → read_page k base disk page j ≡ page j
  unfolding read_page
  read_page-outside zero base disk page j h = refl
  read_page-outside (suc k) base disk page j h =
      ground
        (arith, read_page-outside k base disk (λ i. if i == k then disk (base + k) else page i) j)

  pub read_page-inside :
      (k base : ℕ) (disk page : ℕ → Block A) (j : ℕ)
      → j < k
      → read_page k base disk page j ≡ disk (base + j)
  unfolding read_page
  read_page-inside zero base disk page j p = absurd (omega arith)
  read_page-inside (suc k) base disk page j p = elim (Bool-cases (j == k)) [
    | inl t ↦
        let index : k ≡ j = ground arith in
        read_page-outside k base disk _ j (ground arith) ∙ rw (t, index)
    | inr t ↦ read_page-inside k base disk _ j (ground arith)
  ]
