-- ===== src/Containers/Vector/Positions.antt =====
-- `double_blocked_index`: include/stxxl/bits/containers/vector.h. Numbers are unsigned numbers of 64 bits.
pub mod Steps
use native.Mathlib.Nat.{
  mul-add-div_right, div-eq_of_lt, div-add-mod', mod-lt, div-lt_iff_lt-mul, mul_comm,
}
use stxxl.Prelude.{
  ℕ, ◌+◌, ◌-◌, ◌*◌, ◌/◌, ◌%◌, ◌^◌, ◌<◌, ◌≤◌, ◌==◌, ◌≡◌, refl, ap, ◌∙◌, sym, arith, ltb, ◌&&◌, Bool,
  false, Bool-cases, inl, inr, if◌then◌else◌, Option, some, none, zero, suc,
}
use stxxl.Containers.Vector.{blocked_index}
use stxxl.Containers.Vector.Index.{row}

pub record Position : Type 0 where
  pub pos : ℕ
  pub block2 : ℕ
  pub block1 : ℕ
  pub offset : ℕ

module _ (modulo2 modulo1 : ℕ) where
  unfoldable pub set_position : ℕ → Position
  set_position pos =
      let c = blocked_index modulo2 modulo1 pos in
      record { pos = pos; block2 = c.block2; block1 = c.block1; offset = c.offset }

  -- The constructor from the parts; `none` is a failed assertion.
  unfoldable pub of_blocks : ℕ → ℕ → ℕ → Option Position
  of_blocks block2 block1 offset =
      if ltb block1 modulo2 && ltb offset modulo1
      then some (record {
        pos = (block2 * (modulo1 * modulo2) + block1 * modulo1 + offset) % 2 ^ 64;
        block2 = block2;
        block1 = block1;
        offset = offset;
      })
      else none

  -- `operator ++`
  unfoldable pub next_position : Position → Position
  next_position i =
      let moved : Position = record i { pos = (i.pos + 1) % 2 ^ 64; offset = i.offset + 1 } in
      if moved.offset == modulo1
      then (if i.block1 + 1 == modulo2
          then record moved { offset = 0; block1 = 0; block2 = (i.block2 + 1) % 2 ^ 64 }
          else record moved { offset = 0; block1 = i.block1 + 1 })
      else moved

  -- `operator --`
  unfoldable pub previous_position : Position → Position
  previous_position i =
      let moved : Position = record i { pos = (i.pos + 2 ^ 64 - 1) % 2 ^ 64 } in
      if i.offset == 0
      then (if i.block1 == 0
          then record moved {
            offset = modulo1 - 1;
            block1 = modulo2 - 1;
            block2 = (i.block2 + 2 ^ 64 - 1) % 2 ^ 64;
          }
          else record moved { offset = modulo1 - 1; block1 = i.block1 - 1 })
      else record moved { offset = i.offset - 1 }

  unfoldable pub add_position : Position → ℕ → Position
  add_position i addend = set_position ((i.pos + addend) % 2 ^ 64)

  unfoldable pub sub_position : Position → ℕ → Position
  sub_position i subtrahend = set_position ((i.pos + 2 ^ 64 - subtrahend) % 2 ^ 64)

  unfoldable pub shift_position : Position → ℕ → Position
  shift_position i shift = set_position (i.pos / 2 ^ shift)

unfoldable pub distance : Position → Position → ℕ
distance i j = (i.pos + 2 ^ 64 - j.pos) % 2 ^ 64

unfoldable pub same_position : Position → Position → Bool
same_position i j = i.pos == j.pos

unfoldable pub before_position : Position → Position → Bool
before_position i j = ltb i.pos j.pos
