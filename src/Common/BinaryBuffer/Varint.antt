-- ===== src/Common/BinaryBuffer/Varint.antt =====
-- `get_varint` and `get_varint64` on the bytes of `put_varint`.
use stxxl.Prelude.{ℕ, ◌^◌, ◌<◌, List, ◌++◌, ltb, length, arith, Bool-cases, inl, inr}
use stxxl.Common.BinaryBuffer.{varint_bytes, varint64_bytes}
use stxxl.Common.BinaryBuffer.Reader.{BinaryReader, get_varint, get_varint64}
use stxxl.Common.BinaryBuffer.Groups.{Ahead, Gets, chain, first-last, varint-Gets}

-- `get_varint` reads back any number below 2 ^ 32 from what `put_varint` writes for it, whatever bytes
-- follow, and leaves the cursor behind its bytes.
pub get_varint-varint_bytes :
    (v : ℕ) (r : BinaryReader) (rest : List ℕ)
    → v < 2 ^ 32
    → Ahead r (varint_bytes v ++ rest)
    → Gets get_varint v r (length (varint_bytes v)) rest
unfolding get_varint varint_bytes
get_varint-varint_bytes v r rest h = elim (Bool-cases (ltb v (128 ^ 1))) [
  | inl t1 ↦ rw (t1) (first-last v r rest (chain 3 16 (2 ^ 7)) (ground arith))
  | inr t1 ↦ elim (Bool-cases (ltb v (128 ^ 2))) [
    | inl t2 ↦ rw (t1, t2) (varint-Gets v 16 rest 0 3 r (omega arith) (ground arith) (ground arith))
    | inr t2 ↦ elim (Bool-cases (ltb v (128 ^ 3))) [
      | inl t3 ↦
          rw (t1, t2, t3) (varint-Gets v 16 rest 1 3 r (omega arith) (ground arith) (ground arith))
      | inr t3 ↦ elim (Bool-cases (ltb v (128 ^ 4))) [
        | inl t4 ↦
            rw (t1, t2, t3, t4)
              (varint-Gets v 16 rest 2 3 r (omega arith) (ground arith) (ground arith))
        | inr t4 ↦
            rw (t1, t2, t3, t4)
              (varint-Gets v 16 rest 3 3 r (omega arith) (ground arith) (ground arith))
      ]
    ]
  ]
]

-- `get_varint64` reads back any number below 2 ^ 64 from what `put_varint` writes for it, whatever bytes
-- follow, and leaves the cursor behind its bytes.
pub get_varint64-varint64_bytes :
    (v : ℕ) (r : BinaryReader) (rest : List ℕ)
    → v < 2 ^ 64
    → Ahead r (varint64_bytes v ++ rest)
    → Gets get_varint64 v r (length (varint64_bytes v)) rest
unfolding get_varint64 varint64_bytes
get_varint64-varint64_bytes v r rest h = elim (Bool-cases (ltb v (128 ^ 1))) [
  | inl t1 ↦ rw (t1) (first-last v r rest (chain 8 2 (2 ^ 7)) (ground arith))
  | inr t1 ↦ elim (Bool-cases (ltb v (128 ^ 2))) [
    | inl t2 ↦ rw (t1, t2) (varint-Gets v 2 rest 0 8 r (omega arith) (ground arith) (ground arith))
    | inr t2 ↦ elim (Bool-cases (ltb v (128 ^ 3))) [
      | inl t3 ↦
          rw (t1, t2, t3) (varint-Gets v 2 rest 1 8 r (omega arith) (ground arith) (ground arith))
      | inr t3 ↦ elim (Bool-cases (ltb v (128 ^ 4))) [
        | inl t4 ↦
            rw (t1, t2, t3, t4)
              (varint-Gets v 2 rest 2 8 r (omega arith) (ground arith) (ground arith))
        | inr t4 ↦ elim (Bool-cases (ltb v (128 ^ 5))) [
          | inl t5 ↦
              rw (t1, t2, t3, t4, t5)
                (varint-Gets v 2 rest 3 8 r (omega arith) (ground arith) (ground arith))
          | inr t5 ↦ elim (Bool-cases (ltb v (128 ^ 6))) [
            | inl t6 ↦
                rw (t1, t2, t3, t4, t5, t6)
                  (varint-Gets v 2 rest 4 8 r (omega arith) (ground arith) (ground arith))
            | inr t6 ↦ elim (Bool-cases (ltb v (128 ^ 7))) [
              | inl t7 ↦
                  rw (t1, t2, t3, t4, t5, t6, t7)
                    (varint-Gets v 2 rest 5 8 r (omega arith) (ground arith) (ground arith))
              | inr t7 ↦ elim (Bool-cases (ltb v (128 ^ 8))) [
                | inl t8 ↦
                    rw (t1, t2, t3, t4, t5, t6, t7, t8)
                      (varint-Gets v 2 rest 6 8 r (omega arith) (ground arith) (ground arith))
                | inr t8 ↦ elim (Bool-cases (ltb v (128 ^ 9))) [
                  | inl t9 ↦
                      rw (t1, t2, t3, t4, t5, t6, t7, t8, t9)
                        (varint-Gets v 2 rest 7 8 r (omega arith) (ground arith) (ground arith))
                  | inr t9 ↦
                      rw (t1, t2, t3, t4, t5, t6, t7, t8, t9)
                        (varint-Gets v 2 rest 8 8 r (omega arith) (ground arith) (ground arith))
                ]
              ]
            ]
          ]
        ]
      ]
    ]
  ]
]
