-- ===== src/Common/BinaryBuffer/RoundTrip.antt =====
-- The writers of `binary_buffer` followed by the readers of `binary_reader`.
use mathlib.Core.List.{append-nil, append_assoc}
use native.Mathlib.Nat.{mod-eq_of_lt, zero-add, suc-add}
use stxxl.Prelude.{
  ℕ, suc, ◌+◌, ◌^◌, ◌≤◌, ◌<◌, ◌≡◌, ◌∙◌, refl, sym, ap, subst, List, [], ◌∷◌, ◌++◌, Option, some,
  ltb, length, length-append, take, drop, arith, Bool, true, false, if◌then◌else◌, zero,
}
use stxxl.Common.BinaryBuffer.{
  BinaryBuffer, size, varint_bytes, varint64_bytes, put_varint, put_varint64, put_string,
}
use stxxl.Common.BinaryBuffer.Growth.{
  IsValid, HasRoom, Writes, AllBytes, put_all-Writes, append-Writes,
}
use stxxl.Common.BinaryBuffer.Reader.{
  BinaryReader, M, ok, >>=-ok, read, copy, check_available, advance, pure, ◌>>=◌, ◌>>◌, get_varint,
  get_varint64, get_string,
}
use stxxl.Common.BinaryBuffer.Groups.{Ahead, Gets, moved, check_available-ok}
use stxxl.Common.BinaryBuffer.Varint.{get_varint-varint_bytes, get_varint64-varint64_bytes}

drop-append : (xs ys : List ℕ) → drop (length xs) (xs ++ ys) ≡ ys
drop-append [] ys = refl
drop-append (x ∷ xs) ys = drop-append xs ys

take-append : (xs ys : List ℕ) → take (length xs) (xs ++ ys) ≡ xs
take-append [] ys = refl
take-append (x ∷ xs) ys = ap (◌∷◌ x) (take-append xs ys)

drop-nil : (n : ℕ) → drop {A = ℕ} n [] ≡ []
drop-nil zero = refl
drop-nil (suc n) = refl

-- A reader over the buffer `b'`, at the end of what `b` held.
abbrev pub reader_at : BinaryBuffer → BinaryBuffer → BinaryReader
reader_at b' b = record { bytes = b'.bytes; curr = size b }

-- `w` writes `x` to `b` in a way that `m` reads it back: the buffer stays valid, and the cursor
-- moves from the old end to the new one.
abbrev pub RoundTrips {ℓ} :
    {A : Type ℓ} → (BinaryBuffer → Option BinaryBuffer) → M A → A → BinaryBuffer → Type ℓ
RoundTrips w m x b =
    (b' : BinaryBuffer) × (w b ≡ some b')
    × IsValid b'
    × (m (reader_at b' b) ≡ ok x (reader_at b' b'))

AllBytes-if :
    (c : Bool) (x y : List ℕ)
    → (c ≡ true → AllBytes x)
    → (c ≡ false → AllBytes y)
    → AllBytes (if c then x else y)
AllBytes-if true x y p q = p refl
AllBytes-if false x y p q = q refl

varint_bytes-AllBytes : (v : ℕ) → v < 2 ^ 32 → AllBytes (varint_bytes v)
unfolding varint_bytes
varint_bytes-AllBytes v h =
    AllBytes-if (ltb v 128) _ _ (λ t. (ground arith, tt))
      λ _.
        AllBytes-if (ltb v (128 ^ 2)) _ _ (λ t. omega arith)
          λ _.
            AllBytes-if (ltb v (128 ^ 3)) _ _ (λ t. omega arith)
              λ _. AllBytes-if (ltb v (128 ^ 4)) _ _ (λ t. omega arith) (λ t. omega arith)

varint64_bytes-AllBytes : (v : ℕ) → v < 2 ^ 64 → AllBytes (varint64_bytes v)
unfolding varint64_bytes
varint64_bytes-AllBytes v h =
    AllBytes-if (ltb v 128) _ _ (λ t. (ground arith, tt))
      λ _.
        AllBytes-if (ltb v (128 ^ 2)) _ _ (λ t. omega arith)
          λ _.
            AllBytes-if (ltb v (128 ^ 3)) _ _ (λ t. omega arith)
              λ _.
                AllBytes-if (ltb v (128 ^ 4)) _ _ (λ t. omega arith)
                  λ _.
                    AllBytes-if (ltb v (128 ^ 5)) _ _ (λ t. omega arith)
                      λ _.
                        AllBytes-if (ltb v (128 ^ 6)) _ _ (λ t. omega arith)
                          λ _.
                            AllBytes-if (ltb v (128 ^ 7)) _ _ (λ t. omega arith)
                              λ _.
                                AllBytes-if (ltb v (128 ^ 8)) _ _ (λ t. omega arith)
                                  λ _.
                                    AllBytes-if (ltb v (128 ^ 9)) _ _ (λ t. omega arith)
                                      (λ t. omega arith)

-- A reader behind `pre`.
Ahead-after :
    (pre xs rest : List ℕ) (r : BinaryReader)
    → r.bytes ≡ pre ++ (xs ++ rest)
    → r.curr ≡ length pre
    → length r.bytes < 2 ^ 64
    → Ahead r (xs ++ rest)
Ahead-after pre xs rest r e f h = (rw (e, f) (drop-append pre (xs ++ rest)), h)

RoundTrips-bytes {ℓ} :
    {A : Type ℓ} (w : BinaryBuffer → Option BinaryBuffer) (m : M A) (x : A) (xs : List ℕ)
    (b : BinaryBuffer)
    → Writes xs b (w b)
    → ((r : BinaryReader)
        → r.curr + length xs ≤ length r.bytes
        → Ahead r (xs ++ [])
        → Gets m x r (length xs) [])
    → size b + length xs < 2 ^ 64
    → RoundTrips w m x b
RoundTrips-bytes w m x xs b (b', e, same, v) gets f = (b', e, v, back)
  where
    h : size b' < 2 ^ 64
    h = omega (arith, f, length-append b.bytes xs, ap length same)

    back : m (reader_at b' b) ≡ ok x (reader_at b' b')
    back =
        let a : Ahead (reader_at b' b) (xs ++ []) =
          Ahead-after b.bytes xs [] (reader_at b' b) (rw append-nil same) refl h in
        let (g, _) =
          gets (reader_at b' b) (omega (arith, length-append b.bytes xs, ap length same)) a in
        let moves : size b + length xs ≡ size b' =
          omega (arith, length-append b.bytes xs, ap length same) in
        g ∙ ap (λ n. ok x (record { bytes = b'.bytes; curr = n })) moves

-- A number below 2 ^ 32 that `put_varint` puts into a valid buffer, which stays within 2 ^ 64 - 2 ^ 20 bytes,
-- is read back by `get_varint`: the writer ends, and the cursor moves from the old end to the new.
pub put_varint-RoundTrips :
    (v : ℕ) (b : BinaryBuffer)
    → v < 2 ^ 32
    → IsValid b
    → HasRoom (size b + length (varint_bytes v))
    → RoundTrips (put_varint v) get_varint v b
unfolding put_varint
put_varint-RoundTrips v b h w f =
    RoundTrips-bytes (put_varint v) get_varint v (varint_bytes v) b
      (put_all-Writes (varint_bytes v) b f (varint_bytes-AllBytes v h) w)
      (λ r _ a. get_varint-varint_bytes v r [] h a) (omega arith)

-- A number below 2 ^ 64 that `put_varint(uint64)` puts into a valid buffer, which stays within
-- 2 ^ 64 - 2 ^ 20 bytes, is read back by `get_varint64`, and the cursor moves from the old end to the new.
pub put_varint64-RoundTrips :
    (v : ℕ) (b : BinaryBuffer)
    → v < 2 ^ 64
    → IsValid b
    → HasRoom (size b + length (varint64_bytes v))
    → RoundTrips (put_varint64 v) get_varint64 v b
unfolding put_varint64
put_varint64-RoundTrips v b h w f =
    RoundTrips-bytes (put_varint64 v) get_varint64 v (varint64_bytes v) b
      (put_all-Writes (varint64_bytes v) b f (varint64_bytes-AllBytes v h) w)
      (λ r _ a. get_varint64-varint64_bytes v r [] h a) (omega arith)

drop-drop : (m n : ℕ) (xs : List ℕ) → drop (m + n) xs ≡ drop n (drop m xs)
drop-drop zero n xs = rw zero-add
drop-drop (suc m) n [] = rw suc-add (sym (drop-nil n))
drop-drop (suc m) n (x ∷ xs) = rw suc-add (drop-drop m n xs)

read-Gets :
    (s rest : List ℕ) (r : BinaryReader)
    → r.curr + length s ≤ length r.bytes
    → Ahead r (s ++ rest)
    → Gets (read (length s)) s r (length s) rest
unfolding read copy
read-Gets s rest r f (a, h) =
    let (fits, moves) = check_available-ok (length s) r f h in
    let whole : take (length s) (drop r.curr r.bytes) ≡ s = rw a (take-append s rest) in
    let copied : copy (length s) r ≡ ok s r = ground (arith, whole) in
    (
      >>=-ok (check_available (length s))
            (λ _. copy (length s) >>= λ out. advance (length s) >> pure out) fits
          ∙ >>=-ok (copy (length s)) (λ out. advance (length s) >> pure out) {r = r} copied
          ∙ >>=-ok (advance (length s)) (λ _. pure s) {r = r} moves,
      (drop-drop r.curr (length s) r.bytes ∙ ap (drop (length s)) a ∙ drop-append s rest, h),
    )

get_string-Gets :
    (s : List ℕ) (r : BinaryReader)
    → length s < 2 ^ 32
    → r.curr + length (varint_bytes (length s) ++ s) ≤ length r.bytes
    → Ahead r ((varint_bytes (length s) ++ s) ++ [])
    → Gets get_string s r (length (varint_bytes (length s) ++ s)) []
unfolding get_string
get_string-Gets s r h f a =
    let n = length (varint_bytes (length s)) in
    let parts = length-append (varint_bytes (length s)) s in
    let (g, a1) =
      get_varint-varint_bytes (length s) r (s ++ []) h
        (subst (Ahead r) (append_assoc (varint_bytes (length s)) s []) a) in
    let (q, a2) = read-Gets s [] (moved n r) (omega (arith, parts)) a1 in
    let same : moved (length s) (moved n r) ≡ moved (length (varint_bytes (length s) ++ s)) r =
      ground (arith, parts) in
    (>>=-ok get_varint read g ∙ q ∙ ap (ok s) same, subst (λ z. Ahead z []) same a2)

put_string-Writes :
    (s : List ℕ) (b : BinaryBuffer)
    → length s < 2 ^ 32
    → IsValid b
    → HasRoom (size b + length (varint_bytes (length s) ++ s))
    → Writes (varint_bytes (length s) ++ s) b (put_string s b)
unfolding put_string put_varint
put_string-Writes s b h w small =
    let parts = length-append (varint_bytes (length s)) s in
    let (b', e, same, v) =
      put_all-Writes (varint_bytes (length s)) b (omega (arith, parts))
        (varint_bytes-AllBytes (length s) h) w in
    let (b'', e', same', v') =
      append-Writes s b'
        (omega (arith, parts, ap length same, length-append b.bytes (varint_bytes (length s)))) in
    (
      b'',
      ground (arith, mod-eq_of_lt {n = length s} {m = 2 ^ 32} h),
      same' ∙ rw same (append_assoc b.bytes (varint_bytes (length s)) s),
      v',
    )

-- A text of fewer than 2 ^ 32 bytes that `put_string` puts into a valid buffer, which stays within
-- 2 ^ 64 - 2 ^ 20 bytes, is read back by `get_string`, and the cursor moves from the old end to the new.
pub put_string-RoundTrips :
    (s : List ℕ) (b : BinaryBuffer)
    → length s < 2 ^ 32
    → IsValid b
    → HasRoom (size b + length (varint_bytes (length s) ++ s))
    → RoundTrips (put_string s) get_string s b
put_string-RoundTrips s b h w f =
    RoundTrips-bytes (put_string s) get_string s (varint_bytes (length s) ++ s) b
      (put_string-Writes s b h w f) (λ r q a. get_string-Gets s r h q a) (omega arith)
