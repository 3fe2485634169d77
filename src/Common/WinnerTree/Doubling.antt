-- ===== src/Common/WinnerTree/Doubling.antt =====
-- `double_num_slots`, which no call returns from.
use stxxl.Prelude.{
  ℕ, zero, suc, ◌+◌, ◌-◌, ◌*◌, ◌%◌, ◌^◌, ltb, ◌&&◌, ◌≡◌, ◌<◌, ◌≤◌, inl, inr, refl, ap, ◌∙◌, arith,
  Bool, Bool-cases, false, none, some, if◌then◌else◌, ◌>>=◌,
}
use stxxl.Common.WinnerTree.{
  WinnerTree, invalid_key, put, make_room, copy_down, new_index, double_num_slots, activate_player,
}
use stxxl.Common.WinnerTree.Tournament.{HasShape}

copy-out : (fuel size i : ℕ) (nodes : ℕ → ℕ) → size ≤ i → copy_down (suc fuel) size i nodes ≡ none
unfolding copy_down
copy-out fuel size i nodes h =
    let b : ltb i size && ltb (new_index i) size ≡ false = ground arith in rw (b, copy_down) refl

copy-next :
    (fuel size i : ℕ) (nodes : ℕ → ℕ)
    → ((nodes' : ℕ → ℕ) → copy_down fuel size ((i + (2 ^ 64 - 1)) % 2 ^ 64) nodes' ≡ none)
    → copy_down (suc fuel) size i nodes ≡ none
unfolding copy_down
copy-next fuel size i nodes rest = elim (Bool-cases (ltb i size && ltb (new_index i) size)) [
  | inl b ↦ rw (b, copy_down) (rest (put (new_index i) (nodes i) nodes))
  | inr b ↦ rw (b, copy_down) refl
]

-- The loop of `double_num_slots` reads or writes outside of the tree at last.
copy_down-none :
    (size : ℕ)
    → size < 2 ^ 64
    → (i : ℕ) → i < 2 ^ 64
    → (nodes : ℕ → ℕ) → copy_down (suc (suc i)) size i nodes ≡ none
copy_down-none size l zero h nodes =
    copy-next (suc zero) size zero nodes
      (λ nodes'. copy-out zero size ((zero + (2 ^ 64 - 1)) % 2 ^ 64) nodes' (omega arith))
copy_down-none size l (suc i) h nodes =
    let e : (suc i + (2 ^ 64 - 1)) % 2 ^ 64 ≡ i = omega arith in
    copy-next (suc (suc i)) size (suc i) nodes (λ nodes'.
      ap (λ z. copy_down (suc (suc i)) size z nodes') e
      ∙ copy_down-none size l i (omega arith) nodes')

double_num_slots-none :
    (t : WinnerTree)
    → 0 < t.size
    → t.size + 1 ≡ t.num_slots * 2
    → t.num_slots ≤ 2 ^ 30
    → double_num_slots t ≡ none
unfolding double_num_slots
double_num_slots-none t pos whole few =
    let e : suc t.size ≡ suc (suc (t.size - 1)) = omega arith in
    let size = t.num_slots * 2 * 2 - 1 in
    let nodes = λ (j : ℕ). if ltb j t.size then t.nodes j else invalid_key in
    ap
      (λ o.
        o
        >>= (λ nodes'. some (record { nodes = nodes'; size = size; num_slots = t.num_slots * 2 })))
      (ap (λ z. copy_down z size (t.size - 1) nodes) e
        ∙ copy_down-none size (omega arith) (t.size - 1) (omega arith) nodes)

-- A player for whom there is no slot cannot be activated: on a tree of the right shape with at most 2 ^ 30
-- slots, the call leads to an access outside of the tree, since the loop of `double_num_slots`
-- does not stop at the root.
pub activate_player-faults :
    (less : ℕ → ℕ → Bool) (index : ℕ) (t : WinnerTree)
    → HasShape t
    → t.num_slots ≤ 2 ^ 30
    → t.num_slots ≤ index
    → activate_player less index t ≡ none
unfolding activate_player make_room
activate_player-faults less index t shape few l =
    let whole = shape.whole in
    let pos = shape.slots in
    let b : ltb index t.num_slots ≡ false = ground arith in
    let e = double_num_slots-none t (omega arith) whole few in rw (b, make_room, e) refl
