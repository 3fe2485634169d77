-- ===== src/Containers/GrowShrinkStack/Blocks.antt =====
-- The blocks of the cache and of the disk, where the memory or the requests change.
use mathlib.Core.Path.{fun_ext}
use native.Mathlib.Nat.{div-add-mod}
use stxxl.Prelude.{
  ℕ, ◌-◌, ◌*◌, ◌/◌, ◌%◌, ◌≡◌, ◌≢◌, ◌<◌, ◌≤◌, ◌∙◌, refl, sym, ap, arith, Bool, false, not, leb,
  Bool-cases, inl, inr,
}
use stxxl.Containers.NormalStack.{Address, Block, same_address, store}
use stxxl.Containers.NormalStack.Addresses.{same_address-eq, other_half}
use stxxl.Containers.GrowShrinkStack.{
  Request, no_request, finished, writing, reading, Io, done, cell,
}
use stxxl.Containers.GrowShrinkStack.Contents.{held, on_disk, IsFine}
use stxxl.Containers.GrowShrinkStack.Settled.{block_of, held-cong}

-- A store in one half leaves the blocks of the other.
pub store-other_half {ℓ} :
    {A : Type ℓ} (cache : Bool → ℕ → Block A) (a : Address) (v : A) (half : Bool) (k : ℕ)
    → half ≡ not a.half
    → store cache a v half k ≡ cache half k
unfolding store
store-other_half cache a v half k e =
    fun_ext λ index. rw (other_half a (record { half = half; block = k; index = index }) e) refl

pub cell-ne :
    (bpp bs : ℕ) (half : Bool) (o o' : ℕ)
    → o ≢ o'
    → same_address (cell bpp bs half o) (cell bpp bs half o') ≡ false
cell-ne bpp bs half o o' ne =
    elim (Bool-cases (same_address (cell bpp bs half o) (cell bpp bs half o'))) [
      | inr t ↦ t
      | inl t ↦
          let e = same_address-eq (cell bpp bs half o) (cell bpp bs half o') t in
          let block : o / bs ≡ o' / bs = ap (λ (a : Address). a.block) e in
          let index : o % bs ≡ o' % bs = ap (λ (a : Address). a.index) e in
          absurd
            (omega (arith, ne, div-add-mod o bs, div-add-mod o' bs, ap (λ z. bs * z) block, index))
    ]

pub held-done {ℓ} :
    {A : Type ℓ} (r : Request) (io : Io A) (j : ℕ) → done r ≡ r → held r io j ≡ io.disk j
held-done no_request io j e = refl
held-done finished io j e = refl
held-done (writing half index bid) io j e = cc
held-done (reading half index bid) io j e = refl

module _ {ℓ} (bpp : ℕ) {A : Type ℓ} where
  -- Memory that differs in the half of `cache_buffers` only.
  pub on_disk-cong :
      (c : Bool) (n : ℕ) (io : Io A) (cache : Bool → ℕ → Block A)
      → ((m : ℕ) → cache (not c) m ≡ io.cache (not c) m)
      → ((m : ℕ) → m < bpp → IsFine bpp c n io m (io.requests m))
      → (j : ℕ) → j < n
      → on_disk (n - bpp) (record io { cache = cache }) j ≡ on_disk (n - bpp) io j
  unfolding on_disk
  on_disk-cong c n io cache same fine j l = elim (Bool-cases (leb (n - bpp) j)) [
    | inr t ↦ rw t refl
    | inl t ↦
        let m = j - (n - bpp) in
        let le : n - bpp ≤ j = ground arith in
        let here : j ≡ block_of bpp n m = omega arith in
        rw t (
          ap (held (io.requests m) (record io { cache = cache })) here
          ∙ held-cong bpp c n io (record io { cache = cache }) m (io.requests m) (same m) refl
              (fine m (omega arith))
          ∙ ap (held (io.requests m) io) (sym here))
  ]

  -- Where all requests of the last page are done, the disk holds it.
  pub on_disk-done :
      (c : Bool) (n : ℕ) (io : Io A)
      → ((m : ℕ) → m < bpp → done (io.requests m) ≡ io.requests m)
      → (j : ℕ) → j < n
      → on_disk (n - bpp) io j ≡ io.disk j
  unfolding on_disk
  on_disk-done c n io is_done j l = elim (Bool-cases (leb (n - bpp) j)) [
    | inr t ↦ rw t refl
    | inl t ↦
        let le : n - bpp ≤ j = ground arith in
        rw t (held-done (io.requests (j - (n - bpp))) io j (is_done (j - (n - bpp)) (omega arith)))
  ]
