-- ===== src/Common/WinnerTree.antt =====
-- `winner_tree`: include/stxxl/bits/common/winner_tree.h. A call of the comparator is an argument
-- `less`, which compares the values of two players by their indices. Sizes and indices are natural
-- numbers below 2 ^ 64. `none` is a fault: a read or write outside of the tree, or a shift of an int
-- that overflows; in `make_room` it is also lack of fuel for the loop, of which each round would at
-- least double the slots. The assertions on the arguments are the caller's duty.
pub mod Path
pub mod Tournament
pub mod Replay
pub mod Calls
pub mod Erase
pub mod Batch
pub mod Wipe
pub mod Vacate
pub mod Building
pub mod Doubling
pub mod Top
mod Tests
use stxxl.Prelude.{
  ℕ, zero, suc, ◌+◌, ◌-◌, ◌*◌, ◌/◌, ◌%◌, ◌^◌, ◌==◌, ltb, Bool, true, false, ◌&&◌, Option, none,
  some, if◌then◌else◌, ◌>>=◌,
}
use stxxl.Common.Ilog2.{ilog2_floor, ilog2_ceil}

abbrev pub invalid_key : ℕ
invalid_key = 18446744073709551615

-- `nodes` are the elements of `m_tree`, and `size` is their number.
pub record WinnerTree : Type 0 where
  pub nodes : ℕ → ℕ
  pub size : ℕ
  pub num_slots : ℕ

-- `m_tree[i] = v`
abbrev pub put : ℕ → ℕ → (ℕ → ℕ) → ℕ → ℕ
put i v nodes = λ j. if j == i then v else nodes j

-- The place of a player's leaf.
abbrev pub leaf : WinnerTree → ℕ → ℕ
leaf t index = t.size / 2 + index

abbrev none_playing : ℕ → ℕ
none_playing j = invalid_key

-- The constructor; the vector is empty before, so `resize` fills it.
unfoldable pub new_tree : ℕ → Option WinnerTree
new_tree num_players =
    if ltb (ilog2_ceil num_players) 31
    then some (record {
      nodes = none_playing;
      size = 2 ^ ilog2_ceil num_players * 2 - 1;
      num_slots = 2 ^ ilog2_ceil num_players;
    })
    else none

-- `resize`: elements that the vector has already stay as they are.
unfoldable pub resize : ℕ → WinnerTree → Option WinnerTree
resize num_players t =
    if ltb (ilog2_ceil num_players) 31
    then some (record {
      nodes = λ j. if ltb j t.size then t.nodes j else invalid_key;
      size = 2 ^ ilog2_ceil num_players * 2 - 1;
      num_slots = 2 ^ ilog2_ceil num_players;
    })
    else none

unfoldable pub clear : WinnerTree → WinnerTree
clear t = record t { nodes = none_playing }

unfoldable pub resize_and_clear : ℕ → WinnerTree → Option WinnerTree
resize_and_clear num_players t = do t' ← resize num_players t; some (clear t')

-- Where `double_num_slots` moves the node `i`.
abbrev pub new_index : ℕ → ℕ
new_index i = (i + 2 ^ ilog2_floor ((i + 1) % 2 ^ 64)) % 2 ^ 64

-- The first loop of `double_num_slots`, as far as `fuel` rounds. Its condition `i >= 0` always holds for
-- an unsigned number, so no number of rounds ends it; the numbers wrap around at 2 ^ 64.
unfoldable pub copy_down : ℕ → ℕ → ℕ → (ℕ → ℕ) → Option (ℕ → ℕ)
copy_down zero size i nodes = some nodes
copy_down (suc fuel) size i nodes = elim (ltb i size && ltb (new_index i) size) [
  | true ↦ copy_down fuel size ((i + (2 ^ 64 - 1)) % 2 ^ 64) (put (new_index i) (nodes i) nodes)
  | false ↦ none
]

-- `double_num_slots` up to that loop, which is given one round more than there are elements.
unfoldable pub double_num_slots : WinnerTree → Option WinnerTree
double_num_slots t =
    let num_slots = t.num_slots * 2 in
    let size = num_slots * 2 - 1 in
    do
      nodes ←
          copy_down (suc t.size) size (t.size - 1)
            (λ j. if ltb j t.size then t.nodes j else invalid_key)
      some (record { nodes = nodes; size = size; num_slots = num_slots })

-- `while (index >= m_num_slots) double_num_slots();`
unfoldable pub make_room : ℕ → ℕ → WinnerTree → Option WinnerTree
make_room zero index t = none
make_room (suc fuel) index t = elim (ltb index t.num_slots) [
  | true ↦ some t
  | false ↦ double_num_slots t >>= make_room fuel index
]

unfoldable pub activate_without_replay : ℕ → WinnerTree → Option WinnerTree
activate_without_replay index t = do
  t' ← make_room (suc index) index t
  if ltb (leaf t' index) t'.size
      then some (record t' { nodes = put (leaf t' index) index t'.nodes })
      else none

unfoldable pub deactivate_without_replay : ℕ → WinnerTree → Option WinnerTree
deactivate_without_replay index t =
    if ltb (leaf t index) t.size
    then some (record t { nodes = put (leaf t index) invalid_key t.nodes })
    else none

abbrev pub top : WinnerTree → ℕ
top t = t.nodes 0

unfoldable pub empty : WinnerTree → Bool
empty t = t.nodes 0 == invalid_key

-- `p -= (p + 1) % 2`, which moves to the left sibling if necessary.
abbrev pub left : ℕ → ℕ
left p = p - (p + 1) % 2

-- The loop of `deactivate_player_step`, from `p` up.
unfoldable pub erase_path : ℕ → ℕ → ℕ → (ℕ → ℕ) → ℕ → ℕ
erase_path zero index p nodes = nodes
erase_path (suc fuel) index p nodes = elim (ltb 0 p && (nodes p == index)) [
  | true ↦ erase_path fuel index (left p / 2) (put p invalid_key nodes)
  | false ↦ nodes
]

-- The root, which the loop does not reach.
unfoldable pub erase_root : ℕ → (ℕ → ℕ) → ℕ → ℕ
erase_root index nodes = if nodes 0 == index then put 0 invalid_key nodes else nodes

unfoldable pub deactivate_player_step : ℕ → WinnerTree → Option WinnerTree
deactivate_player_step index t =
    let p = leaf t index in
    if ltb p t.size
    then some (record t { nodes = erase_root index (erase_path p index p t.nodes) })
    else none

module _ (less : ℕ → ℕ → Bool) where
  -- One game: the winner of two players, of which an invalid one loses.
  unfoldable pub play : ℕ → ℕ → ℕ
  play a b =
      if a == invalid_key then b else if b == invalid_key then a else if less a b then a else b

  -- The loop of `replay_on_change`, from the place `p` of the node that the player `top` takes.
  unfoldable pub replay : ℕ → ℕ → ℕ → ℕ → (ℕ → ℕ) → Option (ℕ → ℕ)
  replay zero size p top nodes = none
  replay (suc fuel) size p top nodes = elim (ltb 0 p) [
    | false ↦ some (put p top nodes)
    | true ↦
        let nodes' = put p top nodes in
        elim (ltb p size && ltb (left p + 1) size) [
          | true ↦
              replay fuel size (left p / 2) (play (nodes' (left p)) (nodes' (left p + 1))) nodes'
          | false ↦ none
        ]
  ]

  -- The loop has one round for each level, so the place of the leaf is enough fuel.
  unfoldable pub replay_on_change : ℕ → Bool → WinnerTree → Option WinnerTree
  replay_on_change index done t = do
    nodes ←
        replay (leaf t index + 1) t.size (leaf t index) (if done then invalid_key else index)
          t.nodes
    some (record t { nodes = nodes })

  abbrev pub notify_change : ℕ → WinnerTree → Option WinnerTree
  notify_change index t = replay_on_change index false t

  abbrev pub deactivate_player : ℕ → WinnerTree → Option WinnerTree
  deactivate_player index t = replay_on_change index true t

  abbrev pub replay_on_deactivations : ℕ → WinnerTree → Option WinnerTree
  replay_on_deactivations index t = replay_on_change index true t

  abbrev pub replay_on_pop : WinnerTree → Option WinnerTree
  replay_on_pop t = replay_on_change (top t) false t

  unfoldable pub activate_player : ℕ → WinnerTree → Option WinnerTree
  activate_player index t = make_room (suc index) index t >>= replay_on_change index false

  -- The loop of `rebuild`, for the nodes before `i`.
  unfoldable pub rebuild_below : ℕ → (ℕ → ℕ) → ℕ → ℕ
  rebuild_below zero nodes = nodes
  rebuild_below (suc i) nodes =
      rebuild_below i (put i (play (nodes (i * 2 + 1)) (nodes (i * 2 + 2))) nodes)

  unfoldable pub rebuild : WinnerTree → WinnerTree
  rebuild t = record t { nodes = rebuild_below (t.size / 2) t.nodes }

  -- The loop of `resize_and_rebuild`, for `n` players from `i` on.
  unfoldable pub activate_all : ℕ → ℕ → WinnerTree → Option WinnerTree
  activate_all zero i t = some t
  activate_all (suc n) i t = activate_without_replay i t >>= activate_all n (i + 1)

  unfoldable pub resize_and_rebuild : ℕ → WinnerTree → Option WinnerTree
  resize_and_rebuild num_players t = do
    t' ← resize_and_clear num_players t
    t'' ← activate_all num_players 0 t'
    some (rebuild t'')
