-- ===== src/Mng/Strategies/Spread.antt =====
-- That blocks with neighbouring numbers are on different disks.
use native.Mathlib.Nat.{div-add-mod, mul-add, mul-le-mul_left, mod-eq_of_lt, mod-lt}
use stxxl.Prelude.{
  ℕ, ◌+◌, ◌/◌, ◌%◌, ◌^◌, ◌≡◌, ◌≢◌, ◌<◌, ◌≤◌, ◌∙◌, sym, ap, arith, List, some, length, count, iota,
  count-iota, leb, Bool-cases, inl, inr, count_distinct, refl,
}
use stxxl.Mng.Strategies.{Striping, striping_disk, sr_disk, simple_random, random_cycling, rc_disk}
use stxxl.Mng.Strategies.Range.{IsValid, chosen, shuffled-entry}

-- Two numbers less than `d` apart have different remainders.
mod-ne : (d i j : ℕ) → i < j → j < i + d → i % d ≢ j % d
mod-ne d i j p q e =
    let di = div-add-mod i d in
    let dj = div-add-mod j d in
    elim (Bool-cases (leb (j / d) (i / d))) [
      | inl t ↦
          let m : j / d ≤ i / d = ground arith in
          let le = mul-le-mul_left d m in absurd (omega (arith, di, dj, le, e))
      | inr t ↦
          let m : i / d + 1 ≤ j / d = ground arith in
          let le = mul-le-mul_left d m in absurd (omega (arith, di, dj, le, e, mul-add d (i / d) 1))
    ]

module _ (s : Striping) (v : IsValid s) where
  -- `striping` puts two blocks whose numbers are less than the number of disks apart on different
  -- disks.
  pub striping_disk-ne : (i j : ℕ) → i < j → j < i + s.diff → striping_disk s i ≢ striping_disk s j
  unfolding striping_disk
  striping_disk-ne i j p q e = mod-ne s.diff i j p q (
      omega (
        arith,
        e,
        chosen s v (i % s.diff) (mod-lt i v.some_disk),
        chosen s v (j % s.diff) (mod-lt j v.some_disk),
      ))

  -- `SR` puts two blocks whose numbers are less than the number of disks apart on different disks,
  -- while the numbers with the offset stay below 2 ^ 64.
  pub sr_disk-ne :
      (rnd : ℕ → ℕ) (i j : ℕ)
      → i < j
      → j < i + s.diff
      → j + rnd s.diff < 2 ^ 64
      → sr_disk (simple_random rnd s) i ≢ sr_disk (simple_random rnd s) j
  unfolding sr_disk simple_random
  sr_disk-ne rnd i j p q small e =
      let a = i + rnd s.diff in
      let b = j + rnd s.diff in
      let a' : a % 2 ^ 64 ≡ a = mod-eq_of_lt {n = a} {m = 2 ^ 64} (omega arith) in
      let b' : b % 2 ^ 64 ≡ b = mod-eq_of_lt {n = b} {m = 2 ^ 64} small in
      let same : a % 2 ^ 64 % s.diff ≡ b % 2 ^ 64 % s.diff = omega (
        arith,
        e,
        chosen s v (a % 2 ^ 64 % s.diff) (mod-lt (a % 2 ^ 64) v.some_disk),
        chosen s v (b % 2 ^ 64 % s.diff) (mod-lt (b % 2 ^ 64) v.some_disk),
      ) in
      mod-ne s.diff a b (omega arith) (omega arith)
        (ap (λ z. z % s.diff) (sym a') ∙ same ∙ ap (λ z. z % s.diff) b')

  -- `RC` puts two blocks whose numbers are less than the number of disks apart on different disks of
  -- the range, where the shuffle permutes its argument.
  pub rc_disk-ne :
      (shuffle : List ℕ → List ℕ)
      → ((l : List ℕ) (x : ℕ) → count x (shuffle l) ≡ count x l)
      → ((l : List ℕ) → length (shuffle l) ≡ length l)
      → (i j : ℕ) → i < j
      → j < i + s.diff
      → rc_disk (random_cycling shuffle s) i ≢ rc_disk (random_cycling shuffle s) j
  unfolding rc_disk random_cycling
  rc_disk-ne shuffle same whole i j p q eq =
      let (d, e, h) = shuffled-entry s v shuffle same whole (i % s.diff) (mod-lt i v.some_disk) in
      let (d', e', h') =
        shuffled-entry s v shuffle same whole (j % s.diff) (mod-lt j v.some_disk) in
      let chosen_i : rc_disk (random_cycling shuffle s) i ≡ some ((s.begin + d) % 2 ^ 64) =
        rw e refl in
      let chosen_j : rc_disk (random_cycling shuffle s) j ≡ some ((s.begin + d') % 2 ^ 64) =
        rw e' refl in
      let one : (s.begin + d) % 2 ^ 64 ≡ (s.begin + d') % 2 ^ 64 =
        ground (arith, chosen_i, chosen_j, eq) in
      let dd : d' ≡ d = omega (arith, one, chosen s v d h, chosen s v d' h') in
      let l = shuffle (iota 0 s.diff) in
      let twice =
        count_distinct l (i % s.diff) (j % s.diff) d (mod-ne s.diff i j p q) e (e' ∙ ap some dd) in
      ground (arith, twice, same (iota 0 s.diff) d, count-iota d 0 s.diff)
