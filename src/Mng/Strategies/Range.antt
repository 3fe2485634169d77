-- ===== src/Mng/Strategies/Range.antt =====
-- Which disks the strategies choose: those from `begin` on, `diff` in number.
use native.Mathlib.Nat.{mod-lt, mod-eq_of_lt}
use stxxl.Prelude.{
  ℕ, ◌+◌, ◌/◌, ◌%◌, ◌^◌, ◌≡◌, ◌<◌, ◌≤◌, refl, arith, List, some, length, get_elem?, count, iota,
  count-iota, length-iota, get_elem?-count,
}
use stxxl.Mng.Strategies.{
  Striping, striping, striping_disk, fr_disk, sr_disk, simple_random, random_cycling, rc_disk,
  interleaved_disk,
}

-- There is a disk, and the numbers of the disks are unsigned numbers.
pub record IsValid (s : Striping) : Type 0 where
  pub some_disk : 0 < s.diff
  pub small : s.begin + s.diff ≤ 2 ^ 64

pub record InRange (s : Striping) (d : ℕ) : Type 0 where
  pub above : s.begin ≤ d
  pub below : d < s.begin + s.diff

-- `striping(b, e)` with `b < e` makes a valid range, which ends before `e`.
pub striping-IsValid :
    (b e : ℕ) → b < e → e < 2 ^ 64 → IsValid (striping b e) × (b + (striping b e).diff ≡ e)
unfolding striping
striping-IsValid b e p q = (record { some_disk = omega arith; small = omega arith }, omega arith)

module _ (s : Striping) (v : IsValid s) where
  pub chosen : (o : ℕ) → o < s.diff → (s.begin + o) % 2 ^ 64 ≡ s.begin + o
  chosen o h = mod-eq_of_lt {n = s.begin + o} {m = 2 ^ 64} (omega (arith, v.small))

  chosen-InRange : (o : ℕ) → o < s.diff → InRange s ((s.begin + o) % 2 ^ 64)
  chosen-InRange o h = record {
    above = omega (arith, chosen o h);
    below = omega (arith, chosen o h);
  }

  remainder : (i : ℕ) → i % s.diff < s.diff
  remainder i = mod-lt i v.some_disk

  -- `striping` on a valid range chooses a disk of the range.
  pub striping_disk-InRange : (i : ℕ) → InRange s (striping_disk s i)
  unfolding striping_disk
  striping_disk-InRange i = chosen-InRange (i % s.diff) (remainder i)

  -- `SR` on a valid range chooses a disk of the range, whatever offset was drawn.
  pub sr_disk-InRange : (rnd : ℕ → ℕ) (i : ℕ) → InRange s (sr_disk (simple_random rnd s) i)
  unfolding sr_disk simple_random
  sr_disk-InRange rnd i = chosen-InRange _ (remainder ((i + rnd s.diff) % 2 ^ 64))

  -- `FR` on a valid range chooses a disk of the range, where the generator draws below its argument.
  pub fr_disk-InRange :
      (rnd : ℕ → ℕ) (i : ℕ) → ((n : ℕ) → 0 < n → rnd n < n) → InRange s (fr_disk rnd s i)
  unfolding fr_disk
  fr_disk-InRange rnd i h = chosen-InRange (rnd s.diff) (h s.diff v.some_disk)

  -- `interleaved_striping` on a valid range chooses a disk of the range.
  pub interleaved_disk-InRange : (nruns i : ℕ) → InRange s (interleaved_disk nruns s i)
  unfolding interleaved_disk
  interleaved_disk-InRange nruns i = chosen-InRange (i / nruns % s.diff) (remainder (i / nruns))

  module _ (shuffle : List ℕ → List ℕ)
      (same : (l : List ℕ) (x : ℕ) → count x (shuffle l) ≡ count x l)
      (whole : (l : List ℕ) → length (shuffle l) ≡ length l) where
    -- The entry of a shuffled vector of disks.
    pub shuffled-entry :
        (k : ℕ)
        → k < s.diff
        → (d : ℕ) × (get_elem? (shuffle (iota 0 s.diff)) k ≡ some d) × (d < s.diff)
    shuffled-entry k h =
        let (d, e, c) =
          get_elem?-count (shuffle (iota 0 s.diff)) k
            (omega (arith, whole (iota 0 s.diff), length-iota 0 s.diff)) in
        (d, e, ground (arith, same (iota 0 s.diff) d, count-iota d 0 s.diff))

    -- `RC` on a valid range chooses a disk of the range, where the shuffle permutes its argument.
    pub rc_disk-InRange :
        (i : ℕ) → (d : ℕ) × (rc_disk (random_cycling shuffle s) i ≡ some d) × InRange s d
    unfolding rc_disk random_cycling
    rc_disk-InRange i =
        let (d, e, h) = shuffled-entry (i % s.diff) (remainder i) in
        ((s.begin + d) % 2 ^ 64, rw e refl, chosen-InRange d h)
