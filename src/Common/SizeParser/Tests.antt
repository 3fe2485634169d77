-- ===== src/Common/SizeParser/Tests.antt =====
-- Runs of `parse_SI_IEC_size`.
use stxxl.Prelude.{◌*◌, ◌%◌, ◌^◌, ◌≡◌, refl, arith, true, [], ◌∷◌, ◌++◌, if◌then◌else◌}
use stxxl.Common.SizeParser.{parse_size, strtoul, digits, skip, signed, number}
use stxxl.Common.SizeParser.Numbers.{digits_text, blanks, value_from}
use stxxl.Common.SizeParser.Units.{
  giga, kilo, mega, absent, lower, upper, multiple, unit_behind, unit_base, unit_exponent, letter,
  exponent,
}
use stxxl.Common.SizeParser.RoundTrip.{parse_size-unit_text, parse_size-default_unit}

-- -1, which is the largest number.
minus_one : strtoul (32 ∷ 45 ∷ 49 ∷ []) ≡ record { value = 18446744073709551615; rest = [] }
unfolding strtoul digits skip signed number
minus_one = refl

-- The text "343KB"
kilobytes :
    digits_text (3 ∷ 4 ∷ 3 ∷ []) ++ unit_behind 0 (multiple kilo true absent upper) 0
    ≡ 51 ∷ 52 ∷ 51 ∷ 75 ∷ 66 ∷ []
kilobytes = refl

-- "  44 GiB  "
parse_size-unit_text_example :
    parse_size
      (blanks 2 ++ (digits_text (4 ∷ 4 ∷ []) ++ unit_behind 1 (multiple giga true lower upper) 2))
      77
    ≡ record {
      accepted = true;
      size =
          value_from 0 (4 ∷ 4 ∷ [])
          * unit_base (multiple giga true lower upper)
            ^ unit_exponent (multiple giga true lower upper)
          % 2 ^ 64;
    }
parse_size-unit_text_example =
    parse_size-unit_text 2 4 (4 ∷ []) 1 (multiple giga true lower upper) 2 77
      (omega arith, (omega arith, tt)) (omega arith)

parse_size-default_unit_example :
    parse_size (blanks 0 ++ (digits_text (7 ∷ []) ++ blanks 1)) (letter mega true) ≡ record {
      accepted = true;
      size = value_from 0 (7 ∷ []) * (if true then 1024 else 1000) ^ exponent mega % 2 ^ 64;
    }
parse_size-default_unit_example =
    parse_size-default_unit 0 7 [] 1 mega true (omega arith, tt) (omega arith)
