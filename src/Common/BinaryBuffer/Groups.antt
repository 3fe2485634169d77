-- ===== src/Common/BinaryBuffer/Groups.antt =====
-- One byte of a varint: what `group` and its kin read from what `put_varint` writes.
use native.Mathlib.Nat.{
  mod-eq_of_lt, suc-add, div-add-mod', mod-eq-sub-div-mul, div-div-eq-div-mul, div-lt_iff_lt-mul,
}
use stxxl.Prelude.{
  ℕ, zero, suc, ◌+◌, ◌*◌, ◌/◌, ◌%◌, ◌^◌, ◌≤◌, ◌<◌, ◌≡◌, refl, ap, ◌∙◌, List, [], ◌∷◌, ◌++◌, some,
  ltb, leb, true, false, length, get_elem?, drop, arith, subst,
}
use stxxl.Common.BinaryBuffer.{more, last}
use stxxl.Common.BinaryBuffer.Reader.{
  BinaryReader, ok, get, group, last_group, M, first_group, >>=-ok, load, advance, check_available,
  ◌>>=◌, pure, ◌>>◌,
}

-- A reader whose bytes a `size_t` counts.
abbrev pub IsSound : BinaryReader → Type 0
IsSound r = (r.curr ≤ length r.bytes) × (length r.bytes < 2 ^ 64)

-- The bytes that are left to read are `xs`.
abbrev pub Ahead : BinaryReader → List ℕ → Type 0
Ahead r xs = (drop r.curr r.bytes ≡ xs) × (length r.bytes < 2 ^ 64)

abbrev pub moved : ℕ → BinaryReader → BinaryReader
moved n r = record r { curr = r.curr + n }

drop-nil : (n : ℕ) {x : ℕ} {rest : List ℕ} → drop n [] ≡ x ∷ rest → ⊥
drop-nil zero h = cc
drop-nil (suc n) h = cc

drop-cons :
    (n : ℕ) (xs : List ℕ) {x : ℕ} {rest : List ℕ}
    → drop n xs ≡ x ∷ rest
    → (get_elem? xs n ≡ some x) × (drop (n + 1) xs ≡ rest) × (n < length xs)
drop-cons n [] h = absurd (drop-nil n h)
drop-cons zero (y ∷ xs) h = ground arith
drop-cons (suc n) (y ∷ xs) h = let (a, b, c) = drop-cons n xs h in (a, rw suc-add b, omega arith)

-- Within the bytes the cursor moves by `n`.
pub check_available-ok :
    (n : ℕ) (r : BinaryReader)
    → r.curr + n ≤ length r.bytes
    → length r.bytes < 2 ^ 64
    → (check_available n r ≡ ok tt r) × (advance n r ≡ ok tt (moved n r))
unfolding check_available advance
check_available-ok n r h f =
    let e : (r.curr + n) % 2 ^ 64 ≡ r.curr + n =
      mod-eq_of_lt {n = r.curr + n} {m = 2 ^ 64} (omega arith) in
    (ground (arith, e), rw e)

load-ok : (r : BinaryReader) (x : ℕ) → get_elem? r.bytes r.curr ≡ some x → load r ≡ ok x r
unfolding load
load-ok r x h = rw (h, load)

get-Ahead :
    (r : BinaryReader) (x : ℕ) (rest : List ℕ)
    → Ahead r (x ∷ rest)
    → (get r ≡ ok x (moved 1 r)) × Ahead (moved 1 r) rest
unfolding get
get-Ahead r x rest h =
    let (a, b, c) = drop-cons r.curr r.bytes h.0 in
    let (fits, moves) = check_available-ok 1 r (omega arith) h.1 in
    (
      >>=-ok (check_available 1) (λ _. load >>= λ y. advance 1 >> pure y) fits
          ∙ >>=-ok load (λ y. advance 1 >> pure y) {r = r} (load-ok r x a)
          ∙ >>=-ok (advance 1) (λ _. pure x) {r = r} moves,
      (b, h.1),
    )

-- `m` reads the value `x` from `n` bytes, before `rest`.
abbrev pub Gets {ℓ} : {A : Type ℓ} → M A → A → BinaryReader → ℕ → List ℕ → Type ℓ
Gets m x r n rest = (m r ≡ ok x (moved n r)) × Ahead (moved n r) rest

pub Gets-next {ℓ} :
    {A : Type ℓ} (m : M A) (x : A) (r : BinaryReader) (n : ℕ) (rest : List ℕ)
    → (m r ≡ ok x (moved n (moved 1 r)))
    → Ahead (moved n (moved 1 r)) rest
    → Gets m x r (suc n) rest
Gets-next m x r n rest e a =
    let same : moved n (moved 1 r) ≡ moved (suc n) r = ground arith in
    (e ∙ ap (ok x) same, subst (λ s. Ahead s rest) same a)

-- Seven bits more of a number.
pub mod_step : (v p : ℕ) → 0 < p → v % p + v / p % 128 * p ≡ v % (p * 128)
mod_step v p h =
    let t = v / p / 128 in
    let split : v / p ≡ 128 * t + v / p % 128 = omega arith in
    omega (
      arith,
      div-add-mod' v p,
      ap (λ (z : ℕ). z * p) split,
      mod-eq-sub-div-mul v (p * 128),
      ap (λ (z : ℕ). z * (p * 128)) (div-div-eq-div-mul v p 128),
    )

module _ (v p acc acc' : ℕ) (e : acc + v / p % 128 * p ≡ acc') (r : BinaryReader)
    (rest : List ℕ) where
  -- A byte with the continuation bit.
  pub group-more :
      (k : ℕ → M ℕ) (x n : ℕ) (bs : List ℕ)
      → Ahead r (more v p ∷ bs)
      → ((r' : BinaryReader) → Ahead r' bs → Gets (k acc') x r' n rest)
      → Gets (group p k acc) x r (suc n) rest
  unfolding group
  group-more k x n bs h next =
      let (g, a) = get-Ahead r (more v p) bs h in
      let (q, b) = next (moved 1 r) a in
      let low : more v p % 128 ≡ v / p % 128 = omega arith in
      let high : ltb (more v p) 128 ≡ false = ground arith in
      Gets-next (group p k acc) x r n rest (>>=-ok get _ g ∙ rw (high, low, e) q) b

  -- A byte without.
  pub group-last : (k : ℕ → M ℕ) → Ahead r (last v p ∷ rest) → Gets (group p k acc) acc' r 1 rest
  unfolding group
  group-last k h =
      let (g, a) = get-Ahead r (last v p) rest h in
      let low : last v p % 128 ≡ v / p % 128 = omega arith in
      let high : ltb (last v p) 128 ≡ true = ground arith in
      (>>=-ok get _ g ∙ rw (high, low, e) refl, a)

  pub last_group-last :
      (limit : ℕ)
      → v / p % 128 < limit
      → Ahead r (last v p ∷ rest)
      → Gets (last_group limit p acc) acc' r 1 rest
  unfolding last_group
  last_group-last limit f h =
      let (g, a) = get-Ahead r (last v p) rest h in
      let low : last v p % 128 ≡ v / p % 128 = omega arith in
      let fits : leb limit (last v p) ≡ false = ground arith in
      (>>=-ok get _ g ∙ rw (fits, low, e) refl, a)

pub whole : (v p : ℕ) → 0 < p → v < p * 128 → v % p + v / p % 128 * p ≡ v
whole v p h f = mod_step v p h ∙ mod-eq_of_lt {n = v} {m = p * 128} f

module _ (v : ℕ) (r : BinaryReader) (rest : List ℕ) where
  -- The first byte.
  pub first-more :
      (k : ℕ → M ℕ) (x n : ℕ) (bs : List ℕ)
      → Ahead r (more v (2 ^ 0) ∷ bs)
      → ((r' : BinaryReader) → Ahead r' bs → Gets (k (v % 2 ^ 7)) x r' n rest)
      → Gets (first_group k) x r (suc n) rest
  unfolding first_group
  first-more k x n bs h next =
      let (g, a) = get-Ahead r (more v (2 ^ 0)) bs h in
      let (q, b) = next (moved 1 r) a in
      let low : more v (2 ^ 0) % 128 ≡ v % 2 ^ 7 = omega arith in
      let high : ltb (more v (2 ^ 0)) 128 ≡ false = ground arith in
      Gets-next (first_group k) x r n rest (>>=-ok get _ g ∙ rw (high, low) q) b

  pub first-last : (k : ℕ → M ℕ) → v < 128 → Ahead r (v ∷ rest) → Gets (first_group k) v r 1 rest
  unfolding first_group
  first-last k f h =
      let (g, a) = get-Ahead r v rest h in
      let high : ltb v 128 ≡ true = ground arith in (>>=-ok get _ g ∙ rw high refl, a)

-- The readers' lines from the factor `p` on, with `m` of them before the last.
abbrev pub chain : ℕ → ℕ → ℕ → ℕ → M ℕ
chain zero limit p = last_group limit p
chain (suc m) limit p = group p (chain m limit (p * 128))

-- The bytes from the factor `p` on, with `j` of them before the last.
abbrev pub tail_bytes : ℕ → ℕ → ℕ → List ℕ
tail_bytes zero v p = last v p ∷ []
tail_bytes (suc j) v p = more v p ∷ tail_bytes j v (p * 128)

-- The numbers that `j` bytes and a last one can hold, and those that the reader accepts.
abbrev pub capacity : ℕ → ℕ → ℕ
capacity zero p = p * 128
capacity (suc j) p = capacity j (p * 128)

abbrev pub accepted : ℕ → ℕ → ℕ → ℕ
accepted zero limit p = p * limit
accepted (suc m) limit p = accepted m limit (p * 128)

module _ (v limit : ℕ) (rest : List ℕ) where
  chain-Gets :
      (j m p : ℕ) (r : BinaryReader)
      → j ≤ m
      → 0 < p
      → v < capacity j p
      → v < accepted m limit p
      → Ahead r (tail_bytes j v p ++ rest)
      → Gets (chain m limit p (v % p)) v r (suc j) rest
  chain-Gets zero zero p r h pos f g a =
      last_group-last v p (v % p) v (whole v p pos f) r rest limit small a
    where
      small : v / p % 128 < limit
      small = omega (arith, (div-lt_iff_lt-mul {k = p} {x = v} {y = limit} pos).1 (omega arith))
  chain-Gets zero (suc m) p r h pos f g a =
      group-last v p (v % p) v (whole v p pos f) r rest (chain m limit (p * 128)) a
  chain-Gets (suc j) zero p r h pos f g a = absurd (omega arith)
  chain-Gets (suc j) (suc m) p r h pos f g a =
      group-more v p (v % p) (v % (p * 128)) (mod_step v p pos) r rest (chain m limit (p * 128)) v
        (suc j) (tail_bytes j v (p * 128) ++ rest) a
        λ r' a'. chain-Gets j m (p * 128) r' (omega arith) (omega arith) f g a'

  -- The whole of a varint of `j + 2` bytes.
  pub varint-Gets :
      (j m : ℕ) (r : BinaryReader)
      → j ≤ m
      → v < capacity j (2 ^ 7)
      → v < accepted m limit (2 ^ 7)
      → Ahead r ((more v (2 ^ 0) ∷ tail_bytes j v (2 ^ 7)) ++ rest)
      → Gets (first_group (chain m limit (2 ^ 7))) v r (suc (suc j)) rest
  varint-Gets j m r h f g a =
      first-more v r rest (chain m limit (2 ^ 7)) v (suc j) (tail_bytes j v (2 ^ 7) ++ rest) a
        λ r' a'. chain-Gets j m (2 ^ 7) r' h (omega arith) f g a'
