-- ===== src/Common/BinaryBuffer/Reader.antt =====
-- `binary_reader`: include/stxxl/bits/common/binary_buffer.h. A read throws at the end of the bytes.
-- The sum in `cursor_available` is taken modulo 2 ^ 64; a read that this lets go past the end of
-- the memory is a `fault`.
use stxxl.Prelude.{
  ℕ, ◌≡◌, ◌+◌, ◌*◌, ◌%◌, ◌^◌, ◌==◌, List, none, some, ltb, leb, Bool, if◌then◌else◌, length,
  get_elem?, take, drop,
}

pub record BinaryReader : Type 0 where
  pub bytes : List ℕ
  pub curr : ℕ

pub data Read {ℓ} (A : Type ℓ) : Type ℓ where
  ok : A → BinaryReader → Read A
  underrun overflow fault : Read A

abbrev pub M {ℓ} : Type ℓ → Type ℓ
M A = BinaryReader → Read A

infixl 5 ◌>>=◌ ◌>>◌
abbrev pub ◌>>=◌ {ℓ κ} : {A : Type ℓ} {B : Type κ} → M A → (A → M B) → M B
◌>>=◌ m f r = elim (m r) [
  | ok x r' ↦ f x r'
  | underrun ↦ underrun
  | overflow ↦ overflow
  | fault ↦ fault
]

abbrev pub ◌>>◌ {ℓ} : {B : Type ℓ} → M (Unit {0}) → M B → M B
◌>>◌ m k = m >>= λ _. k

pub >>=-ok {ℓ κ} :
    {A : Type ℓ} {B : Type κ} (m : M A) (f : A → M B) {x : A} {r r' : BinaryReader}
    → m r ≡ ok x r'
    → (m >>= f) r ≡ f x r'
>>=-ok m f h = rw (h, ◌>>=◌)

abbrev pub pure {ℓ} : {A : Type ℓ} → A → M A
pure x r = ok x r

unfoldable pub reader : List ℕ → BinaryReader
reader bytes = record { bytes = bytes; curr = 0 }

unfoldable pub rewind : BinaryReader → BinaryReader
rewind r = record r { curr = 0 }

unfoldable pub at_end : BinaryReader → Bool
at_end r = r.curr == length r.bytes

unfoldable pub cursor_available : ℕ → BinaryReader → Bool
cursor_available n r = leb ((r.curr + n) % 2 ^ 64) (length r.bytes)

unfoldable pub check_available : ℕ → M (Unit {0})
unfolding cursor_available
check_available n r = if cursor_available n r then ok tt r else underrun

unfoldable pub advance : ℕ → M (Unit {0})
advance n r = ok tt (record r { curr = (r.curr + n) % 2 ^ 64 })

unfoldable pub skip : ℕ → M (Unit {0})
unfolding check_available advance
skip n = do check_available n; advance n

-- The `n` bytes from the cursor on.
unfoldable pub copy : ℕ → M (List ℕ)
copy n r = if leb (r.curr + n) (length r.bytes) then ok (take n (drop r.curr r.bytes)) r else fault

unfoldable pub read : ℕ → M (List ℕ)
unfolding check_available copy advance
read n = do check_available n; out ← copy n; advance n; pure out

-- `get<uint8>`
unfoldable pub load : M ℕ
load r = elim (get_elem? r.bytes r.curr) [ none ↦ fault | some x ↦ ok x r ]

unfoldable pub get : M ℕ
unfolding check_available load advance
get = do check_available 1; x ← load; advance 1; pure x

-- One line of the varint readers: `u = get<uint8>(), v |= (u & 0x7F) << s; if (!(u & 0x80)) return v;`
-- with the lines below it in `rest`; `s` is given as 2 ^ s. The bits that are joined are disjoint,
-- so `|` is a sum.
unfoldable pub group : ℕ → (ℕ → M ℕ) → ℕ → M ℕ
group p rest v = do u ← get; let v' = v + u % 128 * p; if ltb u 128 then pure v' else rest v'

-- The last line: the bits of `u` from `limit` on must be clear.
unfoldable pub last_group : ℕ → ℕ → ℕ → M ℕ
last_group limit p v = do u ← get; if leb limit u then (λ _. overflow) else pure (v + u % 128 * p)

-- The lines of `get_varint` below the first, and those of `get_varint64`.
abbrev pub groups32 : ℕ → M ℕ
groups32 = group (2 ^ 7) (group (2 ^ 14) (group (2 ^ 21) (last_group 16 (2 ^ 28))))

abbrev pub groups64 : ℕ → M ℕ
groups64 = group (2 ^ 7) (
    group (2 ^ 14) (
      group (2 ^ 21) (
        group (2 ^ 28) (
          group (2 ^ 35)
            (group (2 ^ 42) (group (2 ^ 49) (group (2 ^ 56) (last_group 2 (2 ^ 63)))))))))

-- The first line, then the others.
unfoldable pub first_group : (ℕ → M ℕ) → M ℕ
first_group rest = get >>= λ v. if ltb v 128 then pure v else rest (v % 128)

unfoldable pub get_varint : M ℕ
unfolding first_group group last_group
get_varint = first_group groups32

unfoldable pub get_varint64 : M ℕ
unfolding first_group group last_group
get_varint64 = first_group groups64

unfoldable pub get_string : M (List ℕ)
get_string = do len ← get_varint; read len
