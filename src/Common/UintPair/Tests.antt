-- ===== src/Common/UintPair/Tests.antt =====
-- Runs of uint_types.h, for uint40.
use stxxl.Prelude.{◌+◌, ◌%◌, ◌≡◌, refl, some, arith, ltb, leb, ◌==◌}
use stxxl.Common.UintPair.{
  UintPair, ull, of_uint64, increment, decrement, add, equal, less, less_equal, greater,
  greater_equal,
}
use stxxl.Common.UintPair.Laws.{IsValid, modulus, of_uint64-ull, ull-add, compare_values}

-- The low part is full.
abbrev full_low : UintPair
full_low = record { low = 4294967295; high = 6 }

-- The low part is 0.
abbrev zero_low : UintPair
zero_low = record { low = 0; high = 7 }

full_low-IsValid : IsValid 255 full_low
full_low-IsValid = record { low_fits = omega arith; high_fits = omega arith }

zero_low-IsValid : IsValid 255 zero_low
zero_low-IsValid = record { low_fits = omega arith; high_fits = omega arith }

carry : increment 255 full_low ≡ zero_low
unfolding increment
carry = refl

borrow : decrement 255 zero_low ≡ full_low
unfolding decrement
borrow = refl

of_uint64-ull_example : of_uint64 255 (ull full_low) ≡ some full_low
of_uint64-ull_example = of_uint64-ull 255 full_low-IsValid

ull-add_example :
    (ull (add 255 full_low zero_low) ≡ (ull full_low + ull zero_low) % modulus 255)
    × IsValid 255 (add 255 full_low zero_low)
ull-add_example = ull-add 255 (omega arith) full_low-IsValid zero_low-IsValid

compare_values_example :
    (equal full_low zero_low ≡ (ull full_low == ull zero_low))
    × (less full_low zero_low ≡ ltb (ull full_low) (ull zero_low))
    × (less_equal full_low zero_low ≡ leb (ull full_low) (ull zero_low))
    × (greater full_low zero_low ≡ ltb (ull zero_low) (ull full_low))
    × (greater_equal full_low zero_low ≡ leb (ull zero_low) (ull full_low))
compare_values_example = compare_values full_low-IsValid zero_low-IsValid
