-- ===== src/Common/UintPair/Laws.antt =====
-- The arithmetic and the comparisons of `uint_pair`, against the value that a pair stands for.
use native.Mathlib.Nat.{mod-eq_of_lt, mod-eq-sub-mod, div-eq_of_lt, div-eq-sub-div}
use stxxl.Prelude.{
  ℕ, ◌+◌, ◌-◌, ◌*◌, ◌/◌, ◌%◌, ◌^◌, ◌==◌, ◌<◌, ◌≤◌, ◌≡◌, ◌∙◌, Bool-cases, inl, inr, none, some, ltb,
  leb, if◌then◌else◌, arith,
}
use stxxl.Common.UintPair.{
  UintPair, ull, of_int32, of_uint64, increment, decrement, add, equal, less, less_equal, greater,
  greater_equal,
}

pub record IsValid (high_max : ℕ) (a : UintPair) : Type 0 where
  pub low_fits : a.low < 2 ^ 32
  pub high_fits : a.high ≤ high_max

-- The number of values.
abbrev pub modulus : ℕ → ℕ
modulus high_max = 2 ^ 32 * (high_max + 1)

-- `x % m`, where `x` is below twice `m`
mod_once : (x m : ℕ) → x < m + m → (x % m ≡ (if ltb x m then x else x - m))
mod_once x m h = elim (Bool-cases (ltb x m)) [
  | inl t ↦ rw t (mod-eq_of_lt {n = x} {m = m} (ground arith))
  | inr t ↦ rw t (
      mod-eq-sub-mod {n = x} {m = m} (ground arith)
      ∙ mod-eq_of_lt {n = x - m} {m = m} (ground arith))
]

module _ (h : ℕ) where
  -- A valid pair is what `uint_pair(uint64)` makes of its value.
  pub of_uint64-ull : {a : UintPair} → IsValid h a → of_uint64 h (ull a) ≡ some a
  unfolding of_uint64 ull
  of_uint64-ull {a} v = ground (
    arith,
    div-eq_of_lt {n = a.high * 2 ^ 32 + a.low} {m = modulus h} (omega arith),
    mod-eq_of_lt {n = a.high} {m = h + 1} (omega arith),
  )

  -- `uint_pair(uint64)` accepts a number below the modulus: `ull` gives the number back, and the pair
  -- is valid.
  pub ull-of_uint64 :
      (x : ℕ)
      → x < modulus h
      → (a : UintPair) × (of_uint64 h x ≡ some a) × (ull a ≡ x) × IsValid h a
  unfolding of_uint64 ull
  ull-of_uint64 x p = (
    record { low = x % 2 ^ 32; high = x / 2 ^ 32 },
    ground (
      arith,
      div-eq_of_lt {n = x} {m = modulus h} p,
      mod-eq_of_lt {n = x / 2 ^ 32} {m = h + 1} (omega arith),
    ),
    omega arith,
    omega arith,
  )

  -- `uint_pair(uint64)` refuses a number that is not below the modulus.
  pub of_uint64_refuses : (x : ℕ) → modulus h ≤ x → of_uint64 h x ≡ none
  unfolding of_uint64
  of_uint64_refuses x q = ground (arith, div-eq-sub-div {m = modulus h} {n = x} (omega arith) q)

  -- `uint_pair(int32)` of a bit pattern below 2 ^ 32 is sign extension to the number of bits of the
  -- pair, and valid.
  pub ull-of_int32 :
      (x : ℕ)
      → x < 2 ^ 32
      → (ull (of_int32 h x) ≡ (if ltb x (2 ^ 31) then x else x + modulus h - 2 ^ 32))
        × IsValid h (of_int32 h x)
  unfolding of_int32 ull
  ull-of_int32 x p = ground arith

  -- `++` on a valid pair adds 1 to the value, modulo the number of values, and keeps it valid.
  pub ull-increment :
      {a : UintPair}
      → IsValid h a
      → (ull (increment h a) ≡ (ull a + 1) % modulus h) × IsValid h (increment h a)
  unfolding increment ull
  ull-increment {a} v =
      ground
        (arith, mod_once (a.high + 1) (h + 1), mod_once (a.high * 2 ^ 32 + a.low + 1) (modulus h))

  -- `--` on a valid pair takes 1 from the value, modulo the number of values, and keeps it valid.
  pub ull-decrement :
      {a : UintPair}
      → IsValid h a
      → (ull (decrement h a) ≡ (ull a + modulus h - 1) % modulus h) × IsValid h (decrement h a)
  unfolding decrement ull
  ull-decrement {a} v = ground (
    arith,
    mod_once (a.high + (h + 1) - 1) (h + 1),
    mod_once (a.high * 2 ^ 32 + a.low + modulus h - 1) (modulus h),
  )

  -- `+=` on valid pairs adds the values, modulo the number of values, and gives a valid pair, where
  -- the high part is not limited to 0.
  pub ull-add :
      {a b : UintPair}
      → 0 < h
      → IsValid h a
      → IsValid h b
      → (ull (add h a b) ≡ (ull a + ull b) % modulus h) × IsValid h (add h a b)
  unfolding add ull
  ull-add {a} {b} p v w = ground (
    arith,
    mod_once (a.high + b.high + (a.low + b.low) / 2 ^ 32 % (h + 1)) (h + 1),
    mod_once ((a.low + b.low) / 2 ^ 32) (h + 1),
    mod_once (a.high * 2 ^ 32 + a.low + (b.high * 2 ^ 32 + b.low)) (modulus h),
  )

-- On valid pairs, `==`, `<`, `<=`, `>` and `>=` are those of the values.
pub compare_values :
    {h : ℕ} {a b : UintPair}
    → IsValid h a
    → IsValid h b
    → (equal a b ≡ (ull a == ull b))
      × (less a b ≡ ltb (ull a) (ull b))
      × (less_equal a b ≡ leb (ull a) (ull b))
      × (greater a b ≡ ltb (ull b) (ull a))
      × (greater_equal a b ≡ leb (ull b) (ull a))
unfolding equal less less_equal greater greater_equal ull
compare_values {h} {a} {b} v w =
    (ground arith, ground arith, ground arith, ground arith, ground arith)
