-- ===== src/Common/Ilog2.antt =====
-- `ilog2_floor` and `ilog2_ceil`: include/stxxl/bits/common/utils.h.
use stxxl.Prelude.{
  ℕ, zero, suc, ◌+◌, ◌-◌, ◌*◌, ◌/◌, ◌^◌, ◌≡◌, ◌<◌, ◌≤◌, ◌==◌, ltb, leb, arith, true, false,
  if◌then◌else◌, Bool-cases, inl, inr, subst, sym, ◌∙◌,
}

-- The loop that shifts by one bit, and counts in `p`. The fuel is `i`, which each round makes smaller.
unfoldable pub by_bits : ℕ → ℕ → ℕ → ℕ
by_bits zero i p = p
by_bits (suc fuel) i p = elim (i / 2 == 0) [ true ↦ p | false ↦ by_bits fuel (i / 2) (p + 1) ]

-- The loop that shifts by eight bits, and what follows it.
unfoldable pub by_bytes : ℕ → ℕ → ℕ → ℕ
by_bytes zero i p = by_bits i i p
by_bytes (suc fuel) i p = elim (leb 256 i) [
  | true ↦ by_bytes fuel (i / 256) (p + 8)
  | false ↦ by_bits i i p
]

unfoldable pub ilog2_floor : ℕ → ℕ
ilog2_floor i = by_bytes i i 0

unfoldable pub ilog2_ceil : ℕ → ℕ
ilog2_ceil i = if leb i 1 then 0 else ilog2_floor (i - 1) + 1

-- `r` is the logarithm of `i`, rounded down.
pub record IsLog (i r : ℕ) : Type 0 where
  pub low : 2 ^ r ≤ i
  pub high : i < 2 * 2 ^ r

pub pow_mono : (a b : ℕ) → a ≤ b → 2 ^ a ≤ 2 ^ b
pow_mono a zero h = let e : a ≡ 0 = omega (arith, h) in rw e (omega arith)
pow_mono a (suc b) h = elim (Bool-cases (leb a b)) [
  | inl t ↦ omega (arith, pow_mono a b (ground arith))
  | inr t ↦ let e : a ≡ suc b = ground arith in rw e (omega arith)
]

by_bits-IsLog : (fuel i p : ℕ) → 0 < i → i ≤ fuel → (r : ℕ) × (by_bits fuel i p ≡ p + r) × IsLog i r
unfolding by_bits
by_bits-IsLog zero i p pos enough = absurd (omega arith)
by_bits-IsLog (suc fuel) i p pos enough = elim (Bool-cases (i / 2 == 0)) [
  | inl t ↦ (0, rw (t, by_bits) (omega arith), record { low = ground arith; high = ground arith })
  | inr t ↦
      let (r, e, l) = by_bits-IsLog fuel (i / 2) (p + 1) (ground arith) (ground arith) in
      let low = l.low in
      let high = l.high in
      (
        suc r,
        rw (t, by_bits) (omega (arith, e)),
        record { low = omega (arith, low); high = omega (arith, high) },
      )
]

two_pow : (r : ℕ) → 2 ^ (r + 1) ≡ 2 * 2 ^ r
two_pow r = let e : r + 1 ≡ suc r = omega arith in rw e (omega arith)

two_pow_8 : (r : ℕ) → 2 ^ (r + 8) ≡ 256 * 2 ^ r
two_pow_8 r =
    let e : r + 8 ≡ suc (suc (suc (suc (suc (suc (suc (suc r))))))) = omega arith in
    rw e (omega arith)

shift_byte : (i r : ℕ) → IsLog (i / 256) r → IsLog i (r + 8)
shift_byte i r l =
    let low = l.low in
    let high = l.high in let e = two_pow_8 r in record { low = omega arith; high = omega arith }

by_bytes-IsLog :
    (fuel i p : ℕ) → 0 < i → i ≤ fuel → (r : ℕ) × (by_bytes fuel i p ≡ p + r) × IsLog i r
unfolding by_bytes
by_bytes-IsLog zero i p pos enough = absurd (omega arith)
by_bytes-IsLog (suc fuel) i p pos enough = elim (Bool-cases (leb 256 i)) [
  | inl t ↦
      let big : 256 ≤ i = ground arith in
      let (r, e, l) = by_bytes-IsLog fuel (i / 256) (p + 8) (omega arith) (omega arith) in
      (r + 8, rw (t, by_bytes) (omega (arith, e)), shift_byte i r l)
  | inr t ↦ let (r, e, l) = by_bits-IsLog i i p pos (omega arith) in (r, rw (t, by_bytes) e, l)
]

-- `ilog2_floor` of a positive number is its logarithm, rounded down.
pub ilog2_floor-IsLog : (i : ℕ) → 0 < i → IsLog i (ilog2_floor i)
unfolding ilog2_floor
ilog2_floor-IsLog i pos =
    let (r, e, l) = by_bytes-IsLog i i 0 pos (omega arith) in
    subst (IsLog i) (sym (e ∙ omega arith)) l

above : (r c i : ℕ) → 2 ^ r ≤ i → i < 2 ^ c → r + 1 ≤ c
above r c i low h = elim (Bool-cases (ltb r c)) [
  | inl t ↦ ground arith
  | inr t ↦ absurd (omega (arith, pow_mono c r (ground arith)))
]

-- `ilog2_ceil` is the least exponent whose power of two is not below the number.
pub ilog2_ceil-IsLeast : (i : ℕ) → (i ≤ 2 ^ ilog2_ceil i) × ((c : ℕ) → i ≤ 2 ^ c → ilog2_ceil i ≤ c)
unfolding ilog2_ceil
ilog2_ceil-IsLeast i = elim (Bool-cases (leb i 1)) [
  | inl t ↦ rw t (ground arith, λ c h. omega arith)
  | inr t ↦
      let big : 1 < i = ground arith in
      let l = ilog2_floor-IsLog (i - 1) (omega arith) in
      let low = l.low in
      let high = l.high in
      let r = ilog2_floor (i - 1) in
      rw t (omega (arith, two_pow r), λ c h. above r c (i - 1) low (omega arith))
]
