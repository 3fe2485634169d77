-- ===== src/Common/BinaryBuffer.antt =====
-- `binary_buffer`: include/stxxl/bits/common/binary_buffer.h. The buffer is the list of the bytes
-- that were written, whose length is `m_size`; what the memory holds behind them is never read.
-- `realloc` and `memcpy` succeed and keep the bytes.
pub mod Growth
pub mod Reader
pub mod Groups
pub mod Varint
pub mod RoundTrip
mod Tests
use stxxl.Prelude.{
  ℕ, zero, suc, ◌+◌, ◌-◌, ◌*◌, ◌/◌, ◌%◌, ◌^◌, ◌==◌, List, [], ◌∷◌, ◌++◌, Option, none, some, ltb,
  if◌then◌else◌, length, replicate,
}

pub record BinaryBuffer : Type 0 where
  pub bytes : List ℕ
  pub capacity : ℕ

abbrev pub size : BinaryBuffer → ℕ
size b = length b.bytes

abbrev pub empty : BinaryBuffer
empty = record { bytes = []; capacity = 0 }

unfoldable pub alloc : ℕ → BinaryBuffer → BinaryBuffer
alloc n b = if ltb b.capacity n then record b { capacity = n } else b

unfoldable pub clear : BinaryBuffer → BinaryBuffer
clear b = record b { bytes = [] }

-- `dealloc`, and `detach` with the bytes that it hands out.
unfoldable pub dealloc : BinaryBuffer → BinaryBuffer
dealloc b = empty

unfoldable pub detach : BinaryBuffer → List ℕ × BinaryBuffer
detach b = (b.bytes, empty)

unfoldable pub assign : List ℕ → BinaryBuffer → BinaryBuffer
unfolding alloc
assign source b =
    let b' = if ltb b.capacity (length source) then alloc (length source) b else b in
    record b' { bytes = source }

-- One round of the loop of `dynalloc`.
abbrev pub enlarge : ℕ → ℕ
enlarge newsize =
    if ltb newsize 256
    then 512
    else if ltb newsize (1024 * 1024)
    then 2 * newsize
    else (newsize + 1024 * 1024) % 2 ^ 64

-- The loop, on fuel; `none` is lack of it.
unfoldable pub enlarge_to : ℕ → ℕ → ℕ → Option ℕ
enlarge_to zero newsize n = none
enlarge_to (suc k) newsize n =
    let more = enlarge_to k (enlarge newsize) n in if ltb newsize n then more else some newsize

-- Each round adds at least one as long as the sum does not wrap around, and then `n` rounds and the last
-- test are enough. Where it wraps around, the loop of the source need not end, and the fuel may be
-- used up.
unfoldable pub dynalloc : ℕ → BinaryBuffer → Option BinaryBuffer
unfolding enlarge_to alloc
dynalloc n b =
    if ltb b.capacity n
    then elim (enlarge_to (suc n) b.capacity n) [ none ↦ none | some c ↦ some (alloc c b) ]
    else some b

-- Room for `n` more bytes.
unfoldable pub reserve : ℕ → BinaryBuffer → Option BinaryBuffer
reserve n b =
    let needed = (size b + n) % 2 ^ 64 in
    if ltb b.capacity needed then dynalloc needed b else some b

unfoldable pub append : List ℕ → BinaryBuffer → Option BinaryBuffer
append source b = elim (reserve (length source) b) [
  | none ↦ none
  | some b' ↦ some (record b' { bytes = b'.bytes ++ source })
]

-- `put<uint8>`
unfoldable pub put : ℕ → BinaryBuffer → Option BinaryBuffer
put item b = elim (reserve 1 b) [
  | none ↦ none
  | some b' ↦ some (record b' { bytes = b'.bytes ++ (item % 2 ^ 8) ∷ [] })
]

-- The assertion `n > 0` is a hypothesis of the theorems.
unfoldable pub align : ℕ → BinaryBuffer → Option BinaryBuffer
align n b =
    let rem = size b % n in
    if rem == 0 then some b else elim (reserve (n - rem) b) [
      | none ↦ none
      | some b' ↦ some (record b' { bytes = b'.bytes ++ replicate (n - rem) 0 })
    ]

-- The calls of `put<uint8>` one after the other.
unfoldable pub put_all : List ℕ → BinaryBuffer → Option BinaryBuffer
put_all [] b = some b
put_all (x ∷ xs) b = elim (put x b) [ none ↦ none | some b' ↦ put_all xs b' ]

-- `((v >> s) & 0x7F) | 0x80`, and the byte `(v >> s) & 0x7F` that comes last; `s` is given as 2 ^ s.
abbrev pub more : ℕ → ℕ → ℕ
more v p = v / p % 128 + 128

abbrev pub last : ℕ → ℕ → ℕ
last v p = v / p % 128

-- The bytes of `put_varint(uint32)`.
unfoldable pub varint_bytes : ℕ → List ℕ
varint_bytes v =
    if ltb v 128
    then v ∷ []
    else if ltb v (128 ^ 2)
    then more v (2 ^ 0) ∷ last v (2 ^ 7) ∷ []
    else if ltb v (128 ^ 3)
    then more v (2 ^ 0) ∷ more v (2 ^ 7) ∷ last v (2 ^ 14) ∷ []
    else if ltb v (128 ^ 4)
    then more v (2 ^ 0) ∷ more v (2 ^ 7) ∷ more v (2 ^ 14) ∷ last v (2 ^ 21) ∷ []
    else more v (2 ^ 0) ∷ more v (2 ^ 7) ∷ more v (2 ^ 14) ∷ more v (2 ^ 21) ∷ last v (2 ^ 28) ∷ []

-- The bytes of `put_varint(uint64)`.
unfoldable pub varint64_bytes : ℕ → List ℕ
varint64_bytes v =
    if ltb v 128
    then v ∷ []
    else if ltb v (128 ^ 2)
    then more v (2 ^ 0) ∷ last v (2 ^ 7) ∷ []
    else if ltb v (128 ^ 3)
    then more v (2 ^ 0) ∷ more v (2 ^ 7) ∷ last v (2 ^ 14) ∷ []
    else if ltb v (128 ^ 4)
    then more v (2 ^ 0) ∷ more v (2 ^ 7) ∷ more v (2 ^ 14) ∷ last v (2 ^ 21) ∷ []
    else if ltb v (128 ^ 5)
    then more v (2 ^ 0) ∷ more v (2 ^ 7) ∷ more v (2 ^ 14) ∷ more v (2 ^ 21) ∷ last v (2 ^ 28) ∷ []
    else if ltb v (128 ^ 6)
    then more v (2 ^ 0)
      ∷ more v (2 ^ 7)
      ∷ more v (2 ^ 14)
      ∷ more v (2 ^ 21)
      ∷ more v (2 ^ 28)
      ∷ last v (2 ^ 35)
      ∷ []
    else if ltb v (128 ^ 7)
    then more v (2 ^ 0)
      ∷ more v (2 ^ 7)
      ∷ more v (2 ^ 14)
      ∷ more v (2 ^ 21)
      ∷ more v (2 ^ 28)
      ∷ more v (2 ^ 35)
      ∷ last v (2 ^ 42)
      ∷ []
    else if ltb v (128 ^ 8)
    then more v (2 ^ 0)
      ∷ more v (2 ^ 7)
      ∷ more v (2 ^ 14)
      ∷ more v (2 ^ 21)
      ∷ more v (2 ^ 28)
      ∷ more v (2 ^ 35)
      ∷ more v (2 ^ 42)
      ∷ last v (2 ^ 49)
      ∷ []
    else if ltb v (128 ^ 9)
    then more v (2 ^ 0)
      ∷ more v (2 ^ 7)
      ∷ more v (2 ^ 14)
      ∷ more v (2 ^ 21)
      ∷ more v (2 ^ 28)
      ∷ more v (2 ^ 35)
      ∷ more v (2 ^ 42)
      ∷ more v (2 ^ 49)
      ∷ last v (2 ^ 56)
      ∷ []
    else more v (2 ^ 0)
      ∷ more v (2 ^ 7)
      ∷ more v (2 ^ 14)
      ∷ more v (2 ^ 21)
      ∷ more v (2 ^ 28)
      ∷ more v (2 ^ 35)
      ∷ more v (2 ^ 42)
      ∷ more v (2 ^ 49)
      ∷ more v (2 ^ 56)
      ∷ last v (2 ^ 63)
      ∷ []

unfoldable pub put_varint : ℕ → BinaryBuffer → Option BinaryBuffer
put_varint v b = put_all (varint_bytes v) b

unfoldable pub put_varint64 : ℕ → BinaryBuffer → Option BinaryBuffer
put_varint64 v b = put_all (varint64_bytes v) b

-- The length is cast to uint32.
unfoldable pub put_string : List ℕ → BinaryBuffer → Option BinaryBuffer
put_string s b = elim (put_varint (length s % 2 ^ 32) b) [ none ↦ none | some b' ↦ append s b' ]
