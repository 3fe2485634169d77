-- ===== src/Common/SizeParser/Numbers.antt =====
-- Numbers in decimal digits, and the loop that multiplies.
use native.Mathlib.Nat.{div-add-mod, add-mul-mod_self_left, pow-zero, pow-suc}
use stxxl.Prelude.{
  ℕ, zero, suc, ◌+◌, ◌-◌, ◌*◌, ◌%◌, ◌^◌, ◌<◌, ◌≡◌, ◌∙◌, refl, ap, arith, true, false, List, [], ◌∷◌,
  ◌++◌, leb, ◌==◌, sym, ◌/◌,
}
use stxxl.Common.SizeParser.{
  head, is_digit, is_space, skip, number, digits, strtoul, signed, multiply,
}

abbrev pub AllDigits : List ℕ → Type 0
AllDigits [] = Unit {0}
AllDigits (d ∷ ds) = (d < 10) × AllDigits ds

-- The value of decimal digits, behind those of `v`.
abbrev pub value_from : ℕ → List ℕ → ℕ
value_from v [] = v
value_from v (d ∷ ds) = value_from (v * 10 + d) ds

abbrev pub digits_text : List ℕ → List ℕ
digits_text [] = []
digits_text (d ∷ ds) = (48 + d) ∷ digits_text ds

number-digits_text :
    (v : ℕ) (ds rest : List ℕ)
    → AllDigits ds
    → is_digit (head rest) ≡ false
    → number v (digits_text ds ++ rest) ≡ record { value = value_from v ds; rest = rest }
unfolding number
number-digits_text v [] [] h e = refl
number-digits_text v [] (c ∷ s) h e = rw e refl
number-digits_text v (d ∷ ds) rest (h, hs) e =
    let is : is_digit (48 + d) ≡ true = ground arith in
    let back : 48 + d - 48 ≡ d = omega arith in
    rw (is, back) (number-digits_text (v * 10 + d) ds rest hs e)

abbrev pub blanks : ℕ → List ℕ
blanks zero = []
blanks (suc n) = 32 ∷ blanks n

skip-blanks : (n : ℕ) (s : List ℕ) → skip is_space (blanks n ++ s) ≡ skip is_space s
unfolding skip
skip-blanks zero s = refl
skip-blanks (suc n) s = skip-blanks n s

-- A number behind spaces.
pub strtoul-digits_text :
    (n d : ℕ) (ds rest : List ℕ)
    → AllDigits (d ∷ ds)
    → value_from 0 (d ∷ ds) < 2 ^ 64
    → is_digit (head rest) ≡ false
    → strtoul (blanks n ++ (digits_text (d ∷ ds) ++ rest))
      ≡ record { value = value_from 0 (d ∷ ds); rest = rest }
unfolding strtoul digits skip signed
strtoul-digits_text n d ds rest h small e =
    let below : d < 10 = h.0 in
    let space : is_space (48 + d) ≡ false = ground arith in
    let minus : (48 + d == 45) ≡ false = ground arith in
    let plus : (48 + d == 43) ≡ false = ground arith in
    let is : is_digit (48 + d) ≡ true = ground arith in
    let fits : leb (2 ^ 64) (value_from 0 (d ∷ ds)) ≡ false = ground arith in
    rw
      (
        skip-blanks n (digits_text (d ∷ ds) ++ rest),
        space,
        minus,
        plus,
        is,
        number-digits_text 0 (d ∷ ds) rest h e,
        fits,
      )
      refl

mod-mul : (x b m : ℕ) → x % m * b % m ≡ x * b % m
mod-mul x b m =
    let parts : (m * (x / m) + x % m) * b ≡ x % m * b + m * (x / m * b) = omega arith in
    sym (
      ap (λ z. z % m) (ap (λ z. z * b) (sym (div-add-mod x m)) ∙ parts)
      ∙ add-mul-mod_self_left (x % m * b) m (x / m * b))

pub multiply-pow : (p base v : ℕ) → v < 2 ^ 64 → multiply p base v ≡ v * base ^ p % 2 ^ 64
unfolding multiply
multiply-pow zero base v h = rw (pow-zero base) (omega arith)
multiply-pow (suc p) base v h =
    let parts : v * base * base ^ p ≡ v * (base ^ p * base) = omega arith in
    multiply-pow p base (v * base % 2 ^ 64) (omega arith)
    ∙ mod-mul (v * base) (base ^ p) (2 ^ 64)
    ∙ ap (λ z. z % 2 ^ 64) (parts ∙ ap (λ z. v * z) (sym (pow-suc base p)))
