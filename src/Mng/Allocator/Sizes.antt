-- ===== src/Mng/Allocator/Sizes.antt =====
-- The loops of `disk_allocator::new_blocks` over the blocks: their sizes, and their positions.
use stxxl.Prelude.{ℕ, ◌+◌, ◌*◌, ◌≡◌, refl, List, [], ◌∷◌, ◌++◌, length, arith}
use stxxl.Mng.Allocator.FreeMap.{hits}
use stxxl.Mng.Allocator.Disk.{Bid, requested_size, assign_offsets}
use stxxl.Mng.Allocator.Growth.{block}

-- The sizes of the blocks together.
abbrev pub wanted : ℕ → List Bid → ℕ
wanted bs [] = 0
wanted bs (b ∷ l) = bs + wanted bs l

-- How many of the blocks hold the byte at `x`.
abbrev pub hits_blocks : ℕ → List Bid → ℕ → ℕ
hits_blocks bs [] x = 0
hits_blocks bs (b ∷ l) x = hits (block bs b) x + hits_blocks bs l x

pub requested_size-eq : (bs acc : ℕ) (l : List Bid) → requested_size bs acc l ≡ acc + wanted bs l
unfolding requested_size
requested_size-eq bs acc [] = omega arith
requested_size-eq bs acc (b ∷ l) = omega (arith, requested_size-eq bs (acc + bs) l)

pub wanted-eq : (bs : ℕ) (l : List Bid) → wanted bs l ≡ length l * bs
wanted-eq bs [] = omega arith
wanted-eq bs (b ∷ l) = grind (arith, wanted-eq bs l)

pub wanted-append : (bs : ℕ) (l r : List Bid) → wanted bs (l ++ r) ≡ wanted bs l + wanted bs r
wanted-append bs [] r = omega arith
wanted-append bs (b ∷ l) r = omega (arith, wanted-append bs l r)

pub hits_blocks-append :
    (bs : ℕ) (l r : List Bid) (x : ℕ)
    → hits_blocks bs (l ++ r) x ≡ hits_blocks bs l x + hits_blocks bs r x
hits_blocks-append bs [] r x = omega arith
hits_blocks-append bs (b ∷ l) r x = omega (arith, hits_blocks-append bs l r x)

pub length-assign : (bs pos : ℕ) (l : List Bid) → length (assign_offsets bs pos l) ≡ length l
unfolding assign_offsets
length-assign bs pos [] = refl
length-assign bs pos (b ∷ l) = omega (arith, length-assign bs (pos + bs) l)

pub hits-assign :
    (bs pos : ℕ) (l : List Bid) (x : ℕ)
    → hits_blocks bs (assign_offsets bs pos l) x
      ≡ hits (record { first = pos; second = wanted bs l }) x
unfolding assign_offsets
hits-assign bs pos [] x = ground arith
hits-assign bs pos (b ∷ l) x = ground (arith, hits-assign bs (pos + bs) l x)
