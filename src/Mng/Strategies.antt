-- ===== src/Mng/Strategies.antt =====
-- The strategies that choose the disk of a block: include/stxxl/bits/mng/block_alloc.h, and for blocks
-- of several runs block_alloc_interleaved.h. What a random generator draws, `std::random_shuffle` and
-- the disks that are configured are parameters. A sum of unsigned numbers is taken modulo 2 ^ 64.
pub mod Range
pub mod Spread
mod Tests
use stxxl.Prelude.{
  ℕ, zero, suc, ◌+◌, ◌-◌, ◌*◌, ◌/◌, ◌%◌, ◌^◌, List, [], ◌∷◌, Option, none, some, get_elem?, iota,
}

pub record Striping : Type 0 where
  pub begin : ℕ
  pub diff : ℕ

unfoldable pub striping : ℕ → ℕ → Striping
striping b e = record { begin = b; diff = (e + 2 ^ 64 - b) % 2 ^ 64 }

unfoldable pub striping_disk : Striping → ℕ → ℕ
striping_disk s i = (s.begin + i % s.diff) % 2 ^ 64

-- `FR`: `rnd` is what the generator draws for this call, below its argument.
unfoldable pub fr_disk : (ℕ → ℕ) → Striping → ℕ → ℕ
fr_disk rnd s i = (s.begin + rnd s.diff) % 2 ^ 64

-- `SR`
pub record SimpleRandom : Type 0 where
  pub base : Striping
  pub offset : ℕ

unfoldable pub simple_random : (ℕ → ℕ) → Striping → SimpleRandom
simple_random rnd s = record { base = s; offset = rnd s.diff }

unfoldable pub sr_disk : SimpleRandom → ℕ → ℕ
sr_disk s i = (s.base.begin + (i + s.offset) % 2 ^ 64 % s.base.diff) % 2 ^ 64

-- `RC`
pub record RandomCycling : Type 0 where
  pub base : Striping
  pub perm : List ℕ

-- The loop `perm[i] = i`, then the shuffle.
unfoldable pub random_cycling : (List ℕ → List ℕ) → Striping → RandomCycling
random_cycling shuffle s = record { base = s; perm = shuffle (iota 0 s.diff) }

-- `none` is an index outside the vector.
unfoldable pub rc_disk : RandomCycling → ℕ → Option ℕ
rc_disk s i = elim (get_elem? s.perm (i % s.base.diff)) [
  | none ↦ none
  | some d ↦ some ((s.base.begin + d) % 2 ^ 64)
]

-- `single_disk`
abbrev pub single_disk : ℕ → ℕ → ℕ
single_disk disk i = disk

-- `offset_allocator`; the offset is given by its bit pattern.
unfoldable pub offset_disk {ℓ} : {B : Type ℓ} → (ℕ → B) → ℕ → ℕ → B
offset_disk base offset i = base ((offset + i) % 2 ^ 64)

-- `interleaved_striping` and `interleaved_FR`
unfoldable pub interleaved_disk : ℕ → Striping → ℕ → ℕ
interleaved_disk nruns s i = (s.begin + i / nruns % s.diff) % 2 ^ 64

unfoldable pub interleaved_fr_disk : (ℕ → ℕ) → Striping → ℕ → ℕ
interleaved_fr_disk rnd s i = (s.begin + rnd s.diff) % 2 ^ 64

-- The loop of `interleaved_SR`, which draws an offset for each of the `k` runs from `r` on;
-- `rnd r` is what the generator draws for the run `r`. An offset fits an `int`.
unfoldable pub offsets : (ℕ → ℕ → ℕ) → ℕ → ℕ → ℕ → List ℕ
offsets rnd diff r zero = []
offsets rnd diff r (suc k) = rnd r diff ∷ offsets rnd diff (r + 1) k

unfoldable pub interleaved_sr_disk : ℕ → List ℕ → Striping → ℕ → Option ℕ
interleaved_sr_disk nruns offs s i = elim (get_elem? offs (i % nruns)) [
  | none ↦ none
  | some o ↦ some ((s.begin + (i / nruns + o) % 2 ^ 64 % s.diff) % 2 ^ 64)
]

-- The loop of `interleaved_RC`; `shuffle r` is the shuffle for the run `r`.
unfoldable pub perms : (ℕ → List ℕ → List ℕ) → ℕ → ℕ → ℕ → List (List ℕ)
perms shuffle diff r zero = []
perms shuffle diff r (suc k) = shuffle r (iota 0 diff) ∷ perms shuffle diff (r + 1) k

unfoldable pub interleaved_rc_disk : ℕ → List (List ℕ) → Striping → ℕ → Option ℕ
interleaved_rc_disk nruns ps s i = elim (get_elem? ps (i % nruns)) [
  | none ↦ none
  | some p ↦ elim (get_elem? p (i / nruns % s.diff)) [
    | none ↦ none
    | some d ↦ some ((s.begin + d) % 2 ^ 64)
  ]
]
