-- ===== src/Common/SizeParser.antt =====
-- `parse_SI_IEC_size`: lib/common/utils.cpp. A text is the list of its character codes, none of them 0;
-- at its end `endptr[0]` is 0. `strtoul` is that of the C library, which always sets `endptr`, so that
-- the test `!endptr` never holds.
pub mod Numbers
pub mod Units
pub mod RoundTrip
mod Tests
use stxxl.Prelude.{
  ℕ, zero, suc, ◌+◌, ◌-◌, ◌*◌, ◌%◌, ◌^◌, ◌==◌, Bool, true, false, ◌&&◌, ◌||◌, not, List, [], ◌∷◌,
  ltb, leb, if◌then◌else◌,
}

-- `endptr[0]`
abbrev pub head : List ℕ → ℕ
head [] = 0
head (c ∷ s) = c

-- `++endptr`
abbrev pub tail : List ℕ → List ℕ
tail [] = []
tail (c ∷ s) = s

abbrev pub is_digit : ℕ → Bool
is_digit c = leb 48 c && leb c 57

abbrev pub is_space : ℕ → Bool
is_space c = c == 32 || (leb 9 c && leb c 13)

unfoldable pub skip : (ℕ → Bool) → List ℕ → List ℕ
skip test [] = []
skip test (c ∷ s) = let rest = skip test s in if test c then rest else c ∷ s

-- A number that was read, and where `endptr` points.
pub record Token : Type 0 where
  pub value : ℕ
  pub rest : List ℕ

unfoldable pub number : ℕ → List ℕ → Token
number v [] = record { value = v; rest = [] }
number v (c ∷ s) =
    let more = number (v * 10 + (c - 48)) s in
    if is_digit c then more else record { value = v; rest = c ∷ s }

-- `ULONG_MAX` for a number that is too large, else the number or its negative.
unfoldable pub signed : Bool → ℕ → ℕ
signed negative v =
    if leb (2 ^ 64) v then 2 ^ 64 - 1 else if negative then (2 ^ 64 - v) % 2 ^ 64 else v

-- The digits of the number; where there is none, nothing is read.
unfoldable pub digits : Bool → List ℕ → List ℕ → Token
digits negative whole s =
    if is_digit (head s)
    then record { value = signed negative (number 0 s).value; rest = (number 0 s).rest }
    else record { value = 0; rest = whole }

unfoldable pub strtoul : List ℕ → Token
strtoul whole =
    let s = skip is_space whole in
    if head s == 45
    then digits true whole (tail s)
    else if head s == 43
    then digits false whole (tail s)
    else digits false whole s

-- `base`, `power` and `endptr`
pub record Scale : Type 0 where
  pub base : ℕ
  pub power : ℕ
  pub rest : List ℕ

-- One of two letters.
abbrev pub either : ℕ → ℕ → ℕ → Bool
either a b c = c == a || c == b

abbrev pub power_of : ℕ → ℕ
power_of c =
    if either 107 75 c
    then 1
    else if either 109 77 c
    then 2
    else if either 103 71 c
    then 3
    else if either 116 84 c
    then 4
    else if either 112 80 c
    then 5
    else 0

-- The letter of the multiple.
unfoldable pub read_power : List ℕ → Scale
read_power s =
    let p = power_of (head s) in
    record { base = 1000; power = p; rest = if p == 0 then s else tail s }

-- The letter `i` or `I`.
unfoldable pub read_base : Scale → Scale
read_base t =
    if either 105 73 (head t.rest) && not (t.power == 0)
    then record t { base = 1024; rest = tail t.rest }
    else t

-- `switch (def_unit)`
unfoldable pub default_unit : ℕ → Scale → Scale
default_unit u t =
    if power_of u == 0
    then t
    else record t { power = power_of u; base = if leb 97 u then 1000 else 1024 }

-- The letter `b` or `B`, or the default.
unfoldable pub read_byte : ℕ → Scale → Scale
read_byte def_unit t =
    if either 98 66 (head t.rest)
    then record t { rest = tail t.rest }
    else if t.power == 0
    then default_unit def_unit t
    else t

-- The loop that multiplies.
unfoldable pub multiply : ℕ → ℕ → ℕ → ℕ
multiply zero base size = size
multiply (suc p) base size = multiply p base (size * base % 2 ^ 64)

-- What the function returns, and what it leaves in `size`.
pub record Parsed : Type 0 where
  pub accepted : Bool
  pub size : ℕ

unfoldable pub at_end : List ℕ → Bool
at_end [] = true
at_end (c ∷ s) = false

abbrev pub spaces : ℕ → Bool
spaces c = c == 32

unfoldable pub read_scale : ℕ → List ℕ → Scale
read_scale def_unit s =
    let t = read_byte def_unit (read_base (read_power (skip spaces s))) in
    record t { rest = skip spaces t.rest }

-- The end of the function, behind the unit.
unfoldable pub scaled : ℕ → Scale → Parsed
scaled size t = record { accepted = at_end t.rest; size = multiply t.power t.base size }

unfoldable pub parse_size : List ℕ → ℕ → Parsed
parse_size str def_unit = let n = strtoul str in scaled n.value (read_scale def_unit n.rest)
