-- ===== src/Containers/NormalStack/Addresses.antt =====
-- The addresses that `normal_stack::element` computes, and loads and stores at them.
use native.Mathlib.Nat.{
  div-add-mod, div-eq_of_lt, mod-eq_of_lt, div-lt_iff_lt-mul, add-mul-mod_self_right,
  add-mul-div_right, zero-div, zero-mod,
}
use stxxl.Prelude.{
  ℕ, zero, suc, ◌+◌, ◌-◌, ◌*◌, ◌/◌, ◌%◌, ◌≡◌, ◌≢◌, ◌∙◌, sym, ap, ◌<◌, ◌≤◌, refl, arith, Bool, true,
  false, not, Bool-cases, if◌then◌else◌, inl, inr,
}
use stxxl.Containers.NormalStack.{
  Address, Block, same_bool, same_address, load, store, page_size, element,
}

pub not-not : (b : Bool) → not (not b) ≡ b
not-not true = refl
not-not false = refl

module _ (blocks_per_page block_size : ℕ) where
  -- The offset of an address, as `element` counts.
  pub offset_of : Bool → Address → ℕ
  offset_of back a =
      if same_bool a.half back
      then block_size * a.block + a.index
      else page_size blocks_per_page block_size + (block_size * a.block + a.index)

  pub offset_of-element :
      (back : Bool) (o : ℕ) → offset_of back (element blocks_per_page block_size back o) ≡ o
  unfolding offset_of element
  offset_of-element true o = ground (
    arith,
    div-add-mod o block_size,
    div-add-mod (o - page_size blocks_per_page block_size) block_size,
  )
  offset_of-element false o = ground (
    arith,
    div-add-mod o block_size,
    div-add-mod (o - page_size blocks_per_page block_size) block_size,
  )

pub same_address-eq : (a b : Address) → same_address a b ≡ true → a ≡ b
same_address-eq a b h = ground arith

pub same_address_self : (a : Address) → same_address a a ≡ true
same_address_self a = ground arith

module _ (blocks_per_page block_size : ℕ) where
  pub element-low :
      (back : Bool) (o : ℕ)
      → o < page_size blocks_per_page block_size
      → element blocks_per_page block_size back o
        ≡ record { half = back; block = o / block_size; index = o % block_size }
  unfolding element
  element-low back o h = ground arith

  pub element-high :
      (back : Bool) (o : ℕ)
      → page_size blocks_per_page block_size ≤ o
      → element blocks_per_page block_size back o ≡ (
          let u = o - page_size blocks_per_page block_size in
          record { half = not back; block = u / block_size; index = u % block_size })
  unfolding element
  element-high back o h = ground arith

  pub first-address :
      (back : Bool) (o : ℕ)
      → o ≡ page_size blocks_per_page block_size
      → element blocks_per_page block_size (not back) o
        ≡ record { half = back; block = 0; index = 0 }
  first-address back o h =
      element-high (not back) o (omega arith)
      ∙ ground (arith, not-not back, zero-div block_size, zero-mod block_size)

  -- Two offsets have two addresses.
  pub element-ne :
      (back : Bool) (o o' : ℕ)
      → o ≢ o'
      → same_address
          (element blocks_per_page block_size back o)
          (element blocks_per_page block_size back o')
        ≡ false
  element-ne back o o' ne =
      elim (Bool-cases (
        same_address (element blocks_per_page block_size back o)
          (element blocks_per_page block_size back o'))) [
            | inr t ↦ t
            | inl t ↦ absurd (
                ne (
                  sym (offset_of-element blocks_per_page block_size back o)
                  ∙ ap (offset_of blocks_per_page block_size back) (same_address-eq _ _ t)
                  ∙ offset_of-element blocks_per_page block_size back o'))
          ]

-- Addresses in two halves.
pub other_half : (a b : Address) → b.half ≡ not a.half → same_address a b ≡ false
other_half a b h = ground arith

module _ {ℓ} {A : Type ℓ} where
  pub load-store :
      (cache : Bool → ℕ → Block A) (a b : Address) (v : A)
      → load (store cache a v) b ≡ (if same_address a b then v else load cache b)
  unfolding store
  load-store cache a b v = refl

module _ (bs : ℕ) (hs : 0 < bs) where
  -- Where the block `n` begins the division by the block size starts anew.
  pub div-shift :
      (i n : ℕ) → n * bs ≤ i → (i / bs ≡ (i - n * bs) / bs + n) × (i % bs ≡ (i - n * bs) % bs)
  div-shift i n h =
      let e : i ≡ (i - n * bs) + n * bs = omega arith in
      (
        ap (λ z. z / bs) e ∙ add-mul-div_right (i - n * bs) n hs,
        ap (λ z. z % bs) e ∙ add-mul-mod_self_right (i - n * bs) n bs,
      )

  pub div-below : (i n : ℕ) → i < n * bs → i / bs < n
  div-below i n h = (div-lt_iff_lt-mul {k = bs} {x = i} {y = n} hs).1 h

  -- The last element of the first `n` blocks.
  pub last-div : (n o : ℕ) → 0 < n → o + 1 ≡ n * bs → (o / bs ≡ n - 1) × (o % bs ≡ bs - 1)
  last-div zero o p e = absurd (omega arith)
  last-div (suc m) o p e =
      let (block, index) = div-shift o m (omega arith) in
      let rest : o - m * bs ≡ bs - 1 = omega arith in
      let low : bs - 1 < bs = omega arith in
      (
        block ∙ ap (λ z. z / bs + m) rest ∙ ap (λ z. z + m) (div-eq_of_lt low) ∙ omega arith,
        index ∙ ap (λ z. z % bs) rest ∙ mod-eq_of_lt low,
      )
