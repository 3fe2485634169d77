-- ===== src/Common/BinaryBuffer/Growth.antt =====
-- What the writing operations of `binary_buffer` do to the bytes and to the memory.
use native.Mathlib.Nat.{mod-eq_of_lt, mod-lt, div-add-mod, mul-mod_right}
use mathlib.Core.List.{append_assoc, append-nil}
use stxxl.Prelude.{
  ℕ, zero, suc, ◌+◌, ◌-◌, ◌*◌, ◌/◌, ◌%◌, ◌^◌, ◌==◌, ◌≤◌, ◌<◌, ◌≡◌, refl, List, [], ◌∷◌, ◌++◌,
  Option, some, ltb, length, length-append, length-replicate, replicate, arith, Bool-cases, inl,
  inr, ap, ◌⊎◌,
}
use stxxl.Common.BinaryBuffer.{
  BinaryBuffer, size, alloc, enlarge, enlarge_to, dynalloc, reserve, append, put, align, put_all,
}

-- The written bytes lie within the allocated memory.
abbrev pub IsValid : BinaryBuffer → Type 0
IsValid b = size b ≤ b.capacity

-- The sum in the loop of `dynalloc` does not wrap around on the way to `n` bytes.
abbrev pub HasRoom : ℕ → Type 0
HasRoom n = n + 1024 * 1024 ≤ 2 ^ 64

enlarge_to_ends :
    (k c n : ℕ)
    → n ≤ k + c
    → HasRoom n
    → (r : ℕ) × (enlarge_to (suc k) c n ≡ some r) × (n ≤ r) × ((r ≡ c) ⊎ (r < n + 1024 * 1024))
unfolding enlarge_to
enlarge_to_ends zero c n h small = (c, ground arith, omega arith, inl refl)
enlarge_to_ends (suc k) c n h small = elim (Bool-cases (ltb c n)) [
  | inl t ↦
      let no_wrap : (c + 1024 * 1024) % 2 ^ 64 ≡ c + 1024 * 1024 = ground arith in
      let (r, e, p, q) = enlarge_to_ends k (enlarge c) n (ground arith) small in
      (r, rw t e, p, inr (ground arith))
  | inr t ↦ (c, rw t, ground arith, inl refl)
]

-- `b'` is `b` with room for `n` bytes in all, in memory that grew within the bound.
pub record Roomy (n : ℕ) (b b' : BinaryBuffer) : Type 0 where
  pub same : b'.bytes ≡ b.bytes
  pub room : n ≤ b'.capacity
  pub grows : b.capacity ≤ b'.capacity
  pub bounded : (b'.capacity ≡ b.capacity) ⊎ (b'.capacity < n + 1024 * 1024)

-- `dynalloc` for at most 2 ^ 64 - 2 ^ 20 bytes ends, keeps the bytes, and leaves room for `n` of them: in
-- the memory that was there, or in less than 1 MiB more than that.
pub dynalloc-Roomy :
    (n : ℕ) (b : BinaryBuffer)
    → HasRoom n
    → (b' : BinaryBuffer) × (dynalloc n b ≡ some b') × Roomy n b b'
unfolding dynalloc
dynalloc-Roomy n b small = elim (Bool-cases (ltb b.capacity n)) [
  | inl t ↦
      let (r, e, p, q) = enlarge_to_ends n b.capacity n (omega arith) small in
      (alloc r b, ground arith, ground arith)
  | inr t ↦ (
    b,
    rw t,
    record { same = refl; room = ground arith; grows = omega arith; bounded = inl refl },
  )
]

reserve-Roomy :
    (n : ℕ) (b : BinaryBuffer)
    → HasRoom (size b + n)
    → (b' : BinaryBuffer) × (reserve n b ≡ some b') × Roomy (size b + n) b b'
unfolding reserve
reserve-Roomy n b small =
    let no_wrap : (size b + n) % 2 ^ 64 ≡ size b + n = omega arith in
    elim (Bool-cases (ltb b.capacity (size b + n))) [
      | inl t ↦ let (b', e, r) = dynalloc-Roomy (size b + n) b small in (b', rw (no_wrap, t) e, r)
      | inr t ↦ (
        b,
        rw (no_wrap, t) refl,
        record { same = refl; room = ground arith; grows = omega arith; bounded = inl refl },
      )
    ]

-- The result of a write of `source`: it returns, the bytes follow those that were there, and they
-- lie within the memory.
abbrev pub Writes : List ℕ → BinaryBuffer → Option BinaryBuffer → Type 0
Writes source b o =
    (b' : BinaryBuffer) × (o ≡ some b') × (b'.bytes ≡ b.bytes ++ source) × IsValid b'

-- `append` on a buffer that stays below 2 ^ 64 - 2 ^ 20 bytes ends, and writes its argument behind the
-- bytes that were there, within the memory.
pub append-Writes :
    (source : List ℕ) (b : BinaryBuffer)
    → HasRoom (size b + length source)
    → Writes source b (append source b)
unfolding append
append-Writes source b small =
    let (b', e, r) = reserve-Roomy (length source) b small in
    (
      record b' { bytes = b'.bytes ++ source },
      ground arith,
      ground (arith, r.same),
      omega (arith, length-append b'.bytes source, r.room, ap length r.same),
    )

put-Writes : (x : ℕ) (b : BinaryBuffer) → HasRoom (size b + 1) → Writes (x % 2 ^ 8 ∷ []) b (put x b)
unfolding put
put-Writes x b small =
    let (b', e, r) = reserve-Roomy 1 b small in
    (
      record b' { bytes = b'.bytes ++ (x % 2 ^ 8) ∷ [] },
      ground arith,
      ground (arith, r.same),
      omega (arith, length-append b'.bytes ((x % 2 ^ 8) ∷ []), r.room, ap length r.same),
    )

abbrev pub AllBytes : List ℕ → Type 0
AllBytes [] = Unit {0}
AllBytes (x ∷ xs) = (x < 2 ^ 8) × AllBytes xs

put-byte :
    (x : ℕ) (b : BinaryBuffer) → HasRoom (size b + 1) → x < 2 ^ 8 → Writes (x ∷ []) b (put x b)
put-byte x b small h =
    let (b', e, same, v) = put-Writes x b small in
    (b', e, ground (arith, same, mod-eq_of_lt {n = x} {m = 2 ^ 8} h), v)

pub put_all-Writes :
    (xs : List ℕ) (b : BinaryBuffer)
    → HasRoom (size b + length xs)
    → AllBytes xs
    → IsValid b
    → Writes xs b (put_all xs b)
unfolding put_all
put_all-Writes [] b small h v = (b, refl, simp append-nil, v)
put_all-Writes (x ∷ xs) b small h v =
    let (b', e, same, v') = put-byte x b (omega arith) h.0 in
    let (b'', e', same', v'') =
      put_all-Writes xs b' (omega (arith, ap length same, length-append b.bytes (x ∷ []))) h.1 v' in
    (b'', ground arith, ground (arith, same', same, append_assoc b.bytes (x ∷ []) xs), v'')

pad-mod : (s n : ℕ) → 0 < n → (s + (n - s % n)) % n ≡ 0
pad-mod s n p =
    let e : s + (n - s % n) ≡ n * (s / n + 1) = omega (arith, div-add-mod s n, mod-lt s p) in
    rw e (mul-mod_right n (s / n + 1))

-- `align` of a valid buffer of at most 2 ^ 64 - 2 ^ 20 - n bytes to a positive `n` ends, pads with zero bytes to a multiple of `n`, adds fewer than `n` of them, and writes
-- within the memory.
pub align-Writes :
    (n : ℕ) (b : BinaryBuffer)
    → 0 < n
    → IsValid b
    → HasRoom (size b + n)
    → (k : ℕ) × (k < n) × ((size b + k) % n ≡ 0) × Writes (replicate k 0) b (align n b)
unfolding align
align-Writes n b p v small = elim (Bool-cases (size b % n == 0)) [
  | inl t ↦ (0, p, ground arith, (b, rw t, simp append-nil, v))
  | inr t ↦
      let (b', e, r) = reserve-Roomy (n - size b % n) b (omega arith) in
      (
        n - size b % n,
        ground (arith, mod-lt (size b) p),
        pad-mod (size b) n p,
        (
          record b' { bytes = b'.bytes ++ replicate (n - size b % n) 0 },
          ground arith,
          ground (arith, r.same),
          omega (
            arith,
            length-append b'.bytes (replicate (n - size b % n) 0),
            length-replicate {A = ℕ} (n - size b % n) 0,
            r.room,
            ap length r.same,
          ),
        ),
      )
]
