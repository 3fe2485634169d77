-- ===== src/Common/SizeParser/RoundTrip.antt =====
-- `parse_SI_IEC_size` on a number in decimal digits, with a unit and without one.
use stxxl.Prelude.{
  ℕ, ◌*◌, ◌%◌, ◌^◌, ◌<◌, ◌≡◌, ◌∙◌, ap, Bool, true, List, ◌∷◌, ◌++◌, if◌then◌else◌, [],
}
use stxxl.Common.SizeParser.{strtoul, read_scale, at_end, parse_size, scaled}
use stxxl.Common.SizeParser.Numbers.{
  AllDigits, value_from, digits_text, blanks, strtoul-digits_text, multiply-pow,
}
use stxxl.Common.SizeParser.Units.{
  Multiple, SizeUnit, exponent, letter, unit_base, unit_exponent, unit_behind, read_scale-unit,
  read_scale-default, unit_not_digit, blanks_not_digit,
}

-- A number and a scale, both read to the end.
parsed :
    (text rest : List ℕ) (u v base power : ℕ)
    → strtoul text ≡ record { value = v; rest = rest }
    → read_scale u rest ≡ record { base = base; power = power; rest = [] }
    → v < 2 ^ 64
    → parse_size text u ≡ record { accepted = true; size = v * base ^ power % 2 ^ 64 }
unfolding parse_size scaled at_end
parsed text rest u v base power e f small =
    ap (λ n. scaled n.value (read_scale u n.rest)) e
    ∙ ap (scaled v) f
    ∙ ap (λ z. record { accepted = true; size = z }) (multiply-pow power base v small)

-- A number below 2 ^ 64 in decimal digits with a unit is accepted, whatever the default unit, and its size
-- is the number times the power of 1000 or 1024 that the unit names, modulo 2 ^ 64. The unit is `b`,
-- or the letter of a multiple, with an `i` for powers of 1024 or without, and with a `b` or without,
-- each letter in lower or upper case; there are any number of spaces before the number, before the
-- unit and after it.
pub parse_size-unit_text :
    (lead d : ℕ) (ds : List ℕ) (before : ℕ) (unit : SizeUnit) (after u : ℕ)
    → AllDigits (d ∷ ds)
    → value_from 0 (d ∷ ds) < 2 ^ 64
    → parse_size (blanks lead ++ (digits_text (d ∷ ds) ++ unit_behind before unit after)) u
      ≡ record {
        accepted = true;
        size = value_from 0 (d ∷ ds) * unit_base unit ^ unit_exponent unit % 2 ^ 64;
      }
parse_size-unit_text lead d ds before unit after u h small =
    parsed _ (unit_behind before unit after) u (value_from 0 (d ∷ ds)) (unit_base unit)
      (unit_exponent unit)
      (strtoul-digits_text lead d ds (unit_behind before unit after) h small
        (unit_not_digit before unit after))
      (read_scale-unit u before unit after) small

-- A number below 2 ^ 64 in decimal digits without a unit is accepted, with any number of spaces before and
-- after it, and has the default unit that is named by a letter: times a power of 1000 for one in
-- lower case and of 1024 for one in upper case, modulo 2 ^ 64.
pub parse_size-default_unit :
    (lead d : ℕ) (ds : List ℕ) (after : ℕ) (m : Multiple) (big : Bool)
    → AllDigits (d ∷ ds)
    → value_from 0 (d ∷ ds) < 2 ^ 64
    → parse_size (blanks lead ++ (digits_text (d ∷ ds) ++ blanks after)) (letter m big) ≡ record {
      accepted = true;
      size = value_from 0 (d ∷ ds) * (if big then 1024 else 1000) ^ exponent m % 2 ^ 64;
    }
parse_size-default_unit lead d ds after m big h small =
    parsed _ (blanks after) (letter m big) (value_from 0 (d ∷ ds)) (if big then 1024 else 1000)
      (exponent m) (strtoul-digits_text lead d ds (blanks after) h small (blanks_not_digit after))
      (read_scale-default m big after) small
