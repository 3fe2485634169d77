-- ===== src/Common/UintPair.antt =====
-- `uint_pair<HighType>`: include/stxxl/bits/common/uint_types.h. The parameter `high_max` is
-- `std::numeric_limits<high_type>::max()`: 255 for uint40, 65535 for uint48. A mask by `high_max`
-- or by `low_max` and a cast to the type are `%`. Where the source joins two numbers with no common
-- bit by `|`, the model adds them.
pub mod Laws
mod Tests
use stxxl.Prelude.{
  ℕ, ◌+◌, ◌-◌, ◌*◌, ◌/◌, ◌%◌, ◌^◌, ◌==◌, Bool, ◌&&◌, ◌||◌, not, Option, none, some, ltb, leb,
  if◌then◌else◌,
}

pub record UintPair : Type 0 where
  pub low : ℕ
  pub high : ℕ

abbrev pub low_max : ℕ
low_max = 2 ^ 32 - 1

unfoldable pub ull : UintPair → ℕ
ull a = a.high * 2 ^ 32 + a.low

unfoldable pub of_uint32 : ℕ → UintPair
of_uint32 a = record { low = a; high = 0 }

unfoldable pub equal : UintPair → UintPair → Bool
equal a b = a.low == b.low && a.high == b.high

unfoldable pub less : UintPair → UintPair → Bool
less a b = ltb a.high b.high || (a.high == b.high && ltb a.low b.low)

unfoldable pub less_equal : UintPair → UintPair → Bool
less_equal a b = ltb a.high b.high || (a.high == b.high && leb a.low b.low)

unfoldable pub greater : UintPair → UintPair → Bool
greater a b = ltb b.high a.high || (a.high == b.high && ltb b.low a.low)

unfoldable pub greater_equal : UintPair → UintPair → Bool
greater_equal a b = ltb b.high a.high || (a.high == b.high && leb b.low a.low)

abbrev pub min_value : UintPair
min_value = record { low = 0; high = 0 }

module _ (high_max : ℕ) where
  abbrev pub max_value : UintPair
  max_value = record { low = low_max; high = high_max }

  -- An int32 is given by its bit pattern, which is negative from 2 ^ 31 on.
  unfoldable pub of_int32 : ℕ → UintPair
  of_int32 a =
      if ltb a (2 ^ 31) then record { low = a; high = 0 } else record { low = a; high = high_max }

  -- The assertion fails for a number of more bits.
  unfoldable pub of_uint64 : ℕ → Option UintPair
  of_uint64 a =
      if a / (2 ^ 32 * (high_max + 1)) == 0
      then some (record { low = a % 2 ^ 32; high = a / 2 ^ 32 % (high_max + 1) })
      else none

  unfoldable pub increment : UintPair → UintPair
  increment a =
      if a.low == low_max
      then record { low = 0; high = (a.high + 1) % (high_max + 1) }
      else record a { low = a.low + 1 }

  unfoldable pub decrement : UintPair → UintPair
  decrement a =
      if a.low == 0
      then record { low = low_max; high = (a.high + (high_max + 1) - 1) % (high_max + 1) }
      else record a { low = a.low - 1 }

  unfoldable pub add : UintPair → UintPair → UintPair
  add a b =
      let sum = a.low + b.low in
      record {
        low = sum % 2 ^ 32;
        high = (a.high + b.high + sum / 2 ^ 32 % (high_max + 1)) % (high_max + 1);
      }
