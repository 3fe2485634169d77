-- ===== src/Common/WinnerTree/Tests.antt =====
-- Runs of a winner tree with three players.
use stxxl.Prelude.{
  ℕ, zero, suc, ◌≡◌, ◌<◌, refl, arith, inl, inr, ltb, ◌==◌, if◌then◌else◌, Bool, false, [], ◌∷◌,
  get_or, none, some, ◌+◌, ◌>>=◌, ◌⊎◌,
}
use stxxl.Common.WinnerTree.{
  WinnerTree, invalid_key, play, top, activate_player, replay_on_change, replay, resize_and_rebuild,
  erase_path, leaf, erase_root, deactivate_player_step,
}
use stxxl.Common.WinnerTree.Tournament.{IsValid, Nowhere, RightAt}
use stxxl.Common.WinnerTree.Calls.{AgreeBut, Changed, replay_on_change-Changed}
use stxxl.Common.WinnerTree.Batch.{deactivate_all, HaveSlots, step_all, replay_all}
use stxxl.Common.WinnerTree.Vacate.{Vacated, step_all-Vacated}
use stxxl.Common.WinnerTree.Building.{Rebuilt, resize_and_rebuild-Rebuilt}
use stxxl.Common.WinnerTree.Doubling.{activate_player-faults}
use stxxl.Common.WinnerTree.Top.{IsStrictWeakOrder, HasWinner, top-HasWinner}

abbrev value : ℕ → ℕ
value k = get_or (5 ∷ 2 ∷ 8 ∷ []) k 0

abbrev by_value : ℕ → ℕ → Bool
by_value a b = ltb (value a) (value b)

-- The player 1 has the value 9 now.
abbrev by_new_value : ℕ → ℕ → Bool
by_new_value a b = ltb (if a == 1 then 9 else value a) (if b == 1 then 9 else value b)

-- The players 0, 1 and 2 have the values 5, 2 and 8, and the last of the four leaves is free.
abbrev three : WinnerTree
three = record {
  nodes = λ j. get_or (1 ∷ 1 ∷ 2 ∷ 0 ∷ 1 ∷ 2 ∷ []) j invalid_key;
  size = 7;
  num_slots = 4;
}

three-leaf :
    (k : ℕ) → k < 4 → (three.nodes (leaf three k) ≡ k) ⊎ (three.nodes (leaf three k) ≡ invalid_key)
three-leaf zero h = inl refl
three-leaf (suc zero) h = inl refl
three-leaf (suc (suc zero)) h = inl refl
three-leaf (suc (suc (suc zero))) h = inr refl
three-leaf (suc (suc (suc (suc k)))) h = absurd (omega arith)

three-game : (i : ℕ) → i + 1 < 4 → RightAt by_value three.nodes i
unfolding play
three-game zero h = refl
three-game (suc zero) h = refl
three-game (suc (suc zero)) h = refl
three-game (suc (suc (suc i))) h = absurd (omega arith)

three-IsValid : IsValid by_value three
three-IsValid = record {
  shape = record { whole = refl; slots = omega arith; few = omega arith; leaves = three-leaf };
  games = λ i h out. three-game i h;
}

by_value-IsStrictWeakOrder : IsStrictWeakOrder by_value
by_value-IsStrictWeakOrder = record {
  asym = λ a b h. ground arith;
  through = λ a b c h h'. ground arith;
}

by_new_value-AgreeBut : AgreeBut 1 by_value by_new_value
by_new_value-AgreeBut a b na nb =
    let ea : (a == 1) ≡ false = ground arith in
    let eb : (b == 1) ≡ false = ground arith in rw (ea, eb) refl

-- The player 1 wins, until its value is 9.
new_value_run : (replay_on_change by_new_value 1 false three >>= λ t. some (top t)) ≡ some 0
unfolding replay_on_change replay play
new_value_run = refl

-- The players 1 and 2 leave, and the player 0 is left.
leaving_run : (deactivate_all by_value (1 ∷ 2 ∷ []) three >>= λ t. some (top t)) ≡ some 0
unfolding deactivate_all step_all replay_all deactivate_player_step erase_path erase_root
    replay_on_change replay play
leaving_run = refl

replay_on_change-Changed_example :
    Changed by_new_value Nowhere 1 false three (replay_on_change by_new_value 1 false three)
replay_on_change-Changed_example =
    replay_on_change-Changed by_value three three-IsValid 1 by_new_value false by_new_value-AgreeBut
      (omega arith)

top-HasWinner_example : HasWinner by_value three
top-HasWinner_example = top-HasWinner by_value by_value-IsStrictWeakOrder three three-IsValid

one_two-HaveSlots : HaveSlots (1 ∷ 2 ∷ []) 4
one_two-HaveSlots k h = ground arith

step_all-Vacated_example : Vacated (1 ∷ 2 ∷ []) three (step_all (1 ∷ 2 ∷ []) three)
step_all-Vacated_example =
    step_all-Vacated by_value (1 ∷ 2 ∷ []) three one_two-HaveSlots three-IsValid

resize_and_rebuild-Rebuilt_example : Rebuilt by_value 3 (resize_and_rebuild by_value 3 three)
resize_and_rebuild-Rebuilt_example =
    resize_and_rebuild-Rebuilt by_value 3 three (omega arith) (omega arith)

activate_player-faults_example : activate_player by_value 4 three ≡ none
activate_player-faults_example =
    activate_player-faults by_value 4 three three-IsValid.shape (omega arith) (omega arith)
