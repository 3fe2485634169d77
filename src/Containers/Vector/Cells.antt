-- ===== src/Containers/Vector/Cells.antt =====
-- When an element of a vector has a value, and the moves of blocks.
use stxxl.Prelude.{
  true, false, ℕ, zero, suc, ◌+◌, ◌-◌, ◌*◌, ◌==◌, ◌≡◌, ◌<◌, ◌≤◌, ◌&&◌, ◌⊎◌, refl, ap, ◌∙◌, arith,
  ltb, leb, Bool-cases, inl, inr, if◌then◌else◌, none, some, put,
}
use stxxl.Containers.NormalStack.{Block}
use stxxl.Containers.Vector.{Vector, valid_on_disk, dirty, index, move_blocks}

pub move_blocks-at {ℓ} :
    {A : Type ℓ} (n f t : ℕ) (from to : ℕ → Block A) (k : ℕ)
    → move_blocks n f t from to k ≡ (if leb t k && ltb k (t + n) then from (f + (k - t)) else to k)
unfolding move_blocks
move_blocks-at zero f t from to k =
    let out : leb t k && ltb k (t + zero) ≡ false = ground arith in rw out refl
move_blocks-at (suc n) f t from to k =
    move_blocks-at n (f + 1) (t + 1) from (put t (from f) to) k ∙ elim (Bool-cases (k == t)) [
      | inl e ↦
          let later : leb (t + 1) k && ltb k (t + 1 + n) ≡ false = ground arith in
          let now : leb t k && ltb k (t + suc n) ≡ true = ground arith in
          let first : f ≡ f + (k - t) = ground arith in rw (later, now, e) (ap from first)
      | inr e ↦
          let same : leb (t + 1) k && ltb k (t + 1 + n) ≡ leb t k && ltb k (t + suc n) =
            ground arith in
          elim (Bool-cases (leb t k && ltb k (t + suc n))) [
            | inl b ↦
                let next : f + 1 + (k - (t + 1)) ≡ f + (k - t) = ground arith in
                rw (same, b) (ap from next)
            | inr b ↦ rw (same, b, e) refl
          ]
    ]

-- A block that is moved, and one that is not.
pub move_blocks-in {ℓ} :
    {A : Type ℓ} (n f t : ℕ) (from to : ℕ → Block A) (b : ℕ)
    → b < n
    → move_blocks n f t from to (t + b) ≡ from (f + b)
move_blocks-in n f t from to b h =
    let now : leb t (t + b) && ltb (t + b) (t + n) ≡ true = ground arith in
    let e : f + (t + b - t) ≡ f + b = omega arith in
    move_blocks-at n f t from to (t + b) ∙ rw now (ap from e)

pub move_blocks-out {ℓ} :
    {A : Type ℓ} (n f t : ℕ) (from to : ℕ → Block A) (k : ℕ)
    → (k < t) ⊎ (t + n ≤ k)
    → move_blocks n f t from to k ≡ to k
move_blocks-out n f t from to k h =
    let out : leb t k && ltb k (t + n) ≡ false = elim h [
      | inl l ↦ ground arith
      | inr l ↦ ground arith
    ] in
    move_blocks-at n f t from to k ∙ rw out refl

module _ {ℓ} {G : Type 0} {A : Type ℓ} (page_size : ℕ) where
  -- The element at the offset `o` of the block `b` of the page `p` is `y`: on the disk, in the cache, or in
  -- both.
  pub data CellHolds (v : Vector G A) (p b o : ℕ) (y : A) : Type ℓ where
    stored :
        v.page_to_slot p ≡ none
        → v.page_status p ≡ valid_on_disk
        → v.disk (p * page_size + b) o ≡ y
        → CellHolds v p b o y
    changed :
        (s : ℕ)
        → v.page_to_slot p ≡ some s
        → v.page_status p ≡ dirty
        → v.cache (s * page_size + b) o ≡ y
        → CellHolds v p b o y
    copied :
        (s : ℕ)
        → v.page_to_slot p ≡ some s
        → v.page_status p ≡ valid_on_disk
        → v.cache (s * page_size + b) o ≡ y
        → v.disk (p * page_size + b) o ≡ y
        → CellHolds v p b o y

  -- The element `i` of the vector is `y`.
  pub record Holds (block_size : ℕ) (v : Vector G A) (i : ℕ) (y : A) : Type ℓ where
    pub inside : i < v.n_bids * block_size
    pub cell :
        CellHolds v
          (index page_size block_size i).block2
          (index page_size block_size i).block1
          (index page_size block_size i).offset
          y

  -- An element stays where its page, its slot and its blocks stay.
  pub CellHolds-move :
      (v w : Vector G A) (p b o : ℕ) (y : A)
      → w.page_to_slot p ≡ v.page_to_slot p
      → w.page_status p ≡ v.page_status p
      → ((s : ℕ)
          → v.page_to_slot p ≡ some s
          → w.cache (s * page_size + b) o ≡ v.cache (s * page_size + b) o)
      → w.disk (p * page_size + b) o ≡ v.disk (p * page_size + b) o
      → CellHolds v p b o y
      → CellHolds w p b o y
  CellHolds-move v w p b o y slot status cache disk (stored e f g) =
      stored (slot ∙ e) (status ∙ f) (disk ∙ g)
  CellHolds-move v w p b o y slot status cache disk (changed s e f g) =
      changed s (slot ∙ e) (status ∙ f) (cache s e ∙ g)
  CellHolds-move v w p b o y slot status cache disk (copied s e f g d) =
      copied s (slot ∙ e) (status ∙ f) (cache s e ∙ g) (disk ∙ d)
