-- ===== src/Containers/Deque/Wrap.antt =====
-- Places that wrap around the end of the vector.
use native.Mathlib.Nat.{mod-eq_of_lt, add-mod_right, mod-lt}
use stxxl.Prelude.{
  ℕ, ◌+◌, ◌-◌, ◌%◌, ◌≡◌, ◌<◌, ◌≤◌, ltb, ap, ◌∙◌, arith, Bool-cases, inl, inr, sym, ◌≢◌,
}

-- A place below twice the size is as it is, or goes back by the size.
pub data Wraps (x n : ℕ) : Type 0 where
  inside : x < n → x % n ≡ x → Wraps x n
  outside : n ≤ x → x % n + n ≡ x → Wraps x n

pub wrap : (x n : ℕ) → x < n + n → Wraps x n
wrap x n h = elim (Bool-cases (ltb x n)) [
  | inl b ↦ inside (ground arith) (mod-eq_of_lt (ground arith))
  | inr b ↦
      let y = x - n in
      let e : x ≡ y + n = ground arith in
      let f = ap (λ z. z % n) e ∙ add-mod_right y n ∙ mod-eq_of_lt (ground arith) in
      outside (ground arith) (omega (arith, e, f))
]

-- The place before `b`.
abbrev pub before : ℕ → ℕ → ℕ
before b n = (b + n - 1) % n

pub before-lt : (b n : ℕ) → b < n → before b n < n
before-lt b n h = mod-lt (b + n - 1) (omega arith)

-- Counted from the place before `b`, all places are one further.
pub count_from-before : (b i n : ℕ) → b < n → i + 1 < n → (before b n + (i + 1)) % n ≡ (b + i) % n
count_from-before b i n h h' = elim (wrap (b + n - 1) n (omega arith)) [
  | inside p e ↦
      let f : before b n + (i + 1) ≡ b + i + n = omega arith in
      ap (λ z. z % n) f ∙ add-mod_right (b + i) n
  | outside p e ↦ let f : before b n + (i + 1) ≡ b + i = omega arith in ap (λ z. z % n) f
]

-- Counted from the place after `b`, all places are one less far.
pub count_from_after : (b i n : ℕ) → b < n → ((b + 1) % n + i) % n ≡ (b + (i + 1)) % n
count_from_after b i n h = elim (wrap (b + 1) n (omega arith)) [
  | inside p e ↦ let f : (b + 1) % n + i ≡ b + (i + 1) = omega arith in ap (λ z. z % n) f
  | outside p e ↦
      let f : b + (i + 1) ≡ (b + 1) % n + i + n = omega arith in
      sym (ap (λ z. z % n) f ∙ add-mod_right ((b + 1) % n + i) n)
]

-- The place before the one at the distance `k + 1`.
pub before-count : (b k n : ℕ) → b < n → k + 1 < n → before ((b + (k + 1)) % n) n ≡ (b + k) % n
before-count b k n h h' = elim (wrap (b + (k + 1)) n (omega arith)) [
  | inside p e ↦
      let f : (b + (k + 1)) % n + n - 1 ≡ b + k + n = omega arith in
      ap (λ z. z % n) f ∙ add-mod_right (b + k) n
  | outside p e ↦ let f : (b + (k + 1)) % n + n - 1 ≡ b + k = omega arith in ap (λ z. z % n) f
]

pub place_ne : (b k n : ℕ) → b < n → 0 < k → k < n → (b + k) % n ≢ b
place_ne b k n h pos h' e = elim (wrap (b + k) n (omega arith)) [
  | inside p f ↦ omega arith
  | outside p f ↦ omega arith
]

-- After the last place of a full vector comes the first.
pub last_place : (b k e n : ℕ) → b < n → k + 1 ≡ n → e ≡ (b + k) % n → (e + 1) % n ≡ b
last_place b k e n h full ends = elim (wrap (b + k) n (omega arith)) [
  | inside p f ↦ elim (wrap (e + 1) n (omega arith)) [
    | inside q g ↦ omega arith
    | outside q g ↦ omega arith
  ]
  | outside p f ↦ elim (wrap (e + 1) n (omega arith)) [
    | inside q g ↦ omega arith
    | outside q g ↦ omega arith
  ]
]

-- The place of the first element.
pub first_place : (b n : ℕ) → b < n → (b + 0) % n ≡ b
first_place b n h = mod-eq_of_lt (omega arith) ∙ omega arith

-- The end after the size grows from `s` to `k`.
pub grow_end : (b s k n : ℕ) → b < n → s < n → s ≤ k → ((b + s) % n + k - s) % n ≡ (b + k) % n
grow_end b s k n h h' l = elim (wrap (b + s) n (omega arith)) [
  | inside p e ↦ let f : (b + s) % n + k - s ≡ b + k = omega arith in ap (λ z. z % n) f
  | outside p e ↦
      let f : b + k ≡ (b + s) % n + k - s + n = omega arith in
      sym (ap (λ z. z % n) f ∙ add-mod_right ((b + s) % n + k - s) n)
]
