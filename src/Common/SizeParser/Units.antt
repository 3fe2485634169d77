-- ===== src/Common/SizeParser/Units.antt =====
-- Units as texts: what `parse_SI_IEC_size` reads behind the number.
use mathlib.Core.List.{append_assoc}
use stxxl.Prelude.{
  ℕ, zero, suc, ◌≡◌, ◌∙◌, refl, ap, Bool, true, false, List, [], ◌∷◌, ◌++◌, ◌==◌, if◌then◌else◌,
}
use stxxl.Common.SizeParser.{
  Scale, head, is_digit, skip, spaces, either, read_scale, read_power, read_base, read_byte,
  default_unit,
}
use stxxl.Common.SizeParser.Numbers.{blanks}

-- The multiples that a unit can name.
pub data Multiple : Type 0 where
  kilo mega giga tera peta : Multiple

abbrev pub exponent : Multiple → ℕ
exponent kilo = 1
exponent mega = 2
exponent giga = 3
exponent tera = 4
exponent peta = 5

-- The letter of a multiple, in upper case or not.
abbrev pub letter : Multiple → Bool → ℕ
letter kilo upper = if upper then 75 else 107
letter mega upper = if upper then 77 else 109
letter giga upper = if upper then 71 else 103
letter tera upper = if upper then 84 else 116
letter peta upper = if upper then 80 else 112

-- A letter that can be left out, and stand in lower or in upper case.
pub data Mark : Type 0 where
  absent lower upper : Mark

abbrev pub mark_text : ℕ → ℕ → Mark → List ℕ
mark_text low high absent = []
mark_text low high lower = low ∷ []
mark_text low high upper = high ∷ []

-- `b` or `B`, or a multiple with an `i` for powers of 1024, and a `b`.
pub data SizeUnit : Type 0 where
  bytes : Bool → SizeUnit
  multiple : Multiple → Bool → Mark → Mark → SizeUnit

abbrev pub unit_text : SizeUnit → List ℕ
unit_text (bytes big) = (if big then 66 else 98) ∷ []
unit_text (multiple m big iec byte) = letter m big ∷ (mark_text 105 73 iec ++ mark_text 98 66 byte)

abbrev pub mark_base : Mark → ℕ
mark_base absent = 1000
mark_base lower = 1024
mark_base upper = 1024

abbrev pub unit_base : SizeUnit → ℕ
unit_base (bytes big) = 1000
unit_base (multiple m big iec byte) = mark_base iec

abbrev pub unit_exponent : SizeUnit → ℕ
unit_exponent (bytes big) = 0
unit_exponent (multiple m big iec byte) = exponent m

-- What stands behind the number: spaces, the unit, and spaces.
abbrev pub unit_behind : ℕ → SizeUnit → ℕ → List ℕ
unit_behind before unit after = blanks before ++ (unit_text unit ++ blanks after)

some_power : (m : Multiple) → (exponent m == 0) ≡ false
some_power kilo = refl
some_power mega = refl
some_power giga = refl
some_power tera = refl
some_power peta = refl

read_power-letter :
    (m : Multiple) (big : Bool) (s : List ℕ)
    → read_power (letter m big ∷ s) ≡ record { base = 1000; power = exponent m; rest = s }
unfolding read_power
read_power-letter kilo true s = refl
read_power-letter kilo false s = refl
read_power-letter mega true s = refl
read_power-letter mega false s = refl
read_power-letter giga true s = refl
read_power-letter giga false s = refl
read_power-letter tera true s = refl
read_power-letter tera false s = refl
read_power-letter peta true s = refl
read_power-letter peta false s = refl

read_base-mark :
    (m : Multiple) (iec : Mark) (s : List ℕ)
    → either 105 73 (head s) ≡ false
    → read_base (record { base = 1000; power = exponent m; rest = mark_text 105 73 iec ++ s })
      ≡ record { base = mark_base iec; power = exponent m; rest = s }
unfolding read_base
read_base-mark m absent s e = rw e refl
read_base-mark m lower s e = rw (some_power m) refl
read_base-mark m upper s e = rw (some_power m) refl

read_byte-mark :
    (u base : ℕ) (m : Multiple) (byte : Mark) (s : List ℕ)
    → either 98 66 (head s) ≡ false
    → read_byte u (record { base = base; power = exponent m; rest = mark_text 98 66 byte ++ s })
      ≡ record { base = base; power = exponent m; rest = s }
unfolding read_byte
read_byte-mark u base m absent s e = rw (e, some_power m) refl
read_byte-mark u base m lower s e = refl
read_byte-mark u base m upper s e = refl

no_iec : (byte : Mark) (n : ℕ) → either 105 73 (head (mark_text 98 66 byte ++ blanks n)) ≡ false
no_iec absent zero = refl
no_iec absent (suc n) = refl
no_iec lower n = refl
no_iec upper n = refl

no_byte : (n : ℕ) → either 98 66 (head (blanks n)) ≡ false
no_byte zero = refl
no_byte (suc n) = refl

skip_before : (n : ℕ) (s : List ℕ) → skip spaces (blanks n ++ s) ≡ skip spaces s
unfolding skip
skip_before zero s = refl
skip_before (suc n) s = skip_before n s

skip_after : (n : ℕ) → skip spaces (blanks n) ≡ []
unfolding skip
skip_after zero = refl
skip_after (suc n) = skip_after n

-- `endptr` stays at a letter.
skip-letter :
    (m : Multiple) (big : Bool) (s : List ℕ) → skip spaces (letter m big ∷ s) ≡ letter m big ∷ s
unfolding skip
skip-letter kilo true s = refl
skip-letter kilo false s = refl
skip-letter mega true s = refl
skip-letter mega false s = refl
skip-letter giga true s = refl
skip-letter giga false s = refl
skip-letter tera true s = refl
skip-letter tera false s = refl
skip-letter peta true s = refl
skip-letter peta false s = refl

-- The last step of `read_scale`.
finish : Scale → Scale
finish t = record t { rest = skip spaces t.rest }

read_scale-bytes :
    (u before : ℕ) (big : Bool) (after : ℕ)
    → read_scale u (unit_behind before (bytes big) after)
      ≡ finish (
          read_byte u
            (read_base (read_power (skip spaces (unit_text (bytes big) ++ blanks after)))))
unfolding read_scale finish
read_scale-bytes u before big after =
    ap (λ z. finish (read_byte u (read_base (read_power z))))
      (skip_before before (unit_text (bytes big) ++ blanks after))

finish_bytes :
    (u : ℕ) (big : Bool) (after : ℕ)
    → finish
        (read_byte u (read_base (read_power (skip spaces (unit_text (bytes big) ++ blanks after)))))
      ≡ record { base = 1000; power = 0; rest = [] }
unfolding read_power read_base read_byte skip finish
finish_bytes u true after = ap (λ z. record { base = 1000; power = 0; rest = z }) (skip_after after)
finish_bytes u false after =
    ap (λ z. record { base = 1000; power = 0; rest = z }) (skip_after after)

-- The unit is read, with the spaces around it, whatever the default unit.
pub read_scale-unit :
    (u before : ℕ) (unit : SizeUnit) (after : ℕ)
    → read_scale u (unit_behind before unit after)
      ≡ record { base = unit_base unit; power = unit_exponent unit; rest = [] }
unfolding read_scale finish
read_scale-unit u before (bytes big) after =
    read_scale-bytes u before big after ∙ finish_bytes u big after
read_scale-unit u before (multiple m big iec byte) after =
    let s = blanks after in
    let marks = mark_text 105 73 iec ++ mark_text 98 66 byte in
    let tail_text = mark_text 98 66 byte ++ s in
    let start : skip spaces (unit_behind before (multiple m big iec byte) after)
        ≡ letter m big ∷ (mark_text 105 73 iec ++ tail_text) =
      skip_before before (unit_text (multiple m big iec byte) ++ s)
      ∙ skip-letter m big (marks ++ s)
      ∙ ap (λ z. letter m big ∷ z) (append_assoc (mark_text 105 73 iec) (mark_text 98 66 byte) s) in
    ap (λ z. finish (read_byte u (read_base (read_power z)))) start
    ∙ ap (λ z. finish (read_byte u (read_base z)))
        (read_power-letter m big (mark_text 105 73 iec ++ tail_text))
    ∙ ap (λ z. finish (read_byte u z)) (read_base-mark m iec tail_text (no_iec byte after))
    ∙ ap finish (read_byte-mark u (mark_base iec) m byte s (no_byte after))
    ∙ ap (λ z. record { base = mark_base iec; power = exponent m; rest = z }) (skip_after after)

-- No digit follows the number.
pub unit_not_digit :
    (before : ℕ) (unit : SizeUnit) (after : ℕ)
    → is_digit (head (unit_behind before unit after)) ≡ false
unit_not_digit (suc n) unit after = refl
unit_not_digit zero (bytes true) after = refl
unit_not_digit zero (bytes false) after = refl
unit_not_digit zero (multiple kilo true iec byte) after = refl
unit_not_digit zero (multiple kilo false iec byte) after = refl
unit_not_digit zero (multiple mega true iec byte) after = refl
unit_not_digit zero (multiple mega false iec byte) after = refl
unit_not_digit zero (multiple giga true iec byte) after = refl
unit_not_digit zero (multiple giga false iec byte) after = refl
unit_not_digit zero (multiple tera true iec byte) after = refl
unit_not_digit zero (multiple tera false iec byte) after = refl
unit_not_digit zero (multiple peta true iec byte) after = refl
unit_not_digit zero (multiple peta false iec byte) after = refl

-- Where there is no unit, the default unit counts: lower case for powers of 1000, upper case for those of
-- 1024.
pub read_scale-default :
    (m : Multiple) (big : Bool) (after : ℕ)
    → read_scale (letter m big) (blanks after)
      ≡ record { base = if big then 1024 else 1000; power = exponent m; rest = [] }
unfolding read_scale read_power read_base read_byte default_unit skip finish
read_scale-default m big after =
    ap (λ z. finish (read_byte (letter m big) (read_base (read_power z)))) (skip_after after)
    ∙ at_default m big
  where
    at_default :
        (m' : Multiple) (big' : Bool)
        → finish (read_byte (letter m' big') (read_base (read_power [])))
          ≡ record { base = if big' then 1024 else 1000; power = exponent m'; rest = [] }
    at_default kilo true = refl
    at_default kilo false = refl
    at_default mega true = refl
    at_default mega false = refl
    at_default giga true = refl
    at_default giga false = refl
    at_default tera true = refl
    at_default tera false = refl
    at_default peta true = refl
    at_default peta false = refl

pub blanks_not_digit : (n : ℕ) → is_digit (head (blanks n)) ≡ false
blanks_not_digit zero = refl
blanks_not_digit (suc n) = refl
