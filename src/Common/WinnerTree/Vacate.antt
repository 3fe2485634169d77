-- ===== src/Common/WinnerTree/Vacate.antt =====
-- Several calls of `deactivate_player_step`, before any replay.
use stxxl.Prelude.{
  ℕ, ◌+◌, ◌/◌, ◌==◌, ◌≡◌, ◌<◌, inl, inr, refl, ap, ◌∙◌, sym, arith, Bool, Bool-cases, Option, some,
  if◌then◌else◌, List, [], ◌∷◌, count,
}
use stxxl.Common.WinnerTree.{WinnerTree, invalid_key, leaf}
use stxxl.Common.WinnerTree.Tournament.{
  HasShape, IsValid, IsSourced, free, from, child-inside, IsValid-IsSourced,
}
use stxxl.Common.WinnerTree.Batch.{step_all, HaveSlots, count-head, count-tail}
use stxxl.Common.WinnerTree.Wipe.{wipe, Without, deactivate_player_step-Without}

Without-IsSourced :
    (k : ℕ) (t rest : WinnerTree) → HasShape t → Without k t rest → IsSourced t → IsSourced rest
Without-IsSourced k t rest shape w sourced i inner =
    let whole = shape.whole in
    let slots = w.same_slots in
    let inner' : i + 1 < t.num_slots = omega arith in
    let at = w.wiped i (omega arith) in
    elim (sourced i inner') [
      | free e ↦ free (at ∙ ap (wipe k) e ∙ ground arith)
      | from c ch e ↦
          from c ch (at ∙ ap (wipe k) e ∙ sym (w.wiped c (child-inside inner' whole ch)))
    ]

Without-HasShape : (k : ℕ) (t rest : WinnerTree) → HasShape t → Without k t rest → HasShape rest
Without-HasShape k t rest shape w =
    let whole = shape.whole in
    let pos = shape.slots in
    let few = shape.few in
    let slots = w.same_slots in
    let size = w.same_size in
    record {
      whole = omega arith;
      slots = omega arith;
      few = omega arith;
      leaves = λ j h.
          let at : rest.nodes (leaf rest j) ≡ wipe k (t.nodes (leaf t j)) =
            ap (λ z. rest.nodes (z / 2 + j)) size ∙ w.wiped (leaf t j) (omega arith) in
          elim (Bool-cases (t.nodes (leaf t j) == k)) [
            | inl b ↦ inr (at ∙ rw b refl)
            | inr b ↦ elim (shape.leaves j (omega arith)) [
              | inl e ↦ inl (at ∙ rw b e)
              | inr e ↦ inr (at ∙ rw b e)
            ]
          ];
    }

-- The call returns a tree in which the players `ks` stand nowhere, and every other node is as it was.
pub record Vacated (ks : List ℕ) (t : WinnerTree) (result : Option WinnerTree) : Type 0 where
  pub rest : WinnerTree
  pub returns : result ≡ some rest
  pub same_slots : rest.num_slots ≡ t.num_slots
  pub same_size : rest.size ≡ t.size
  pub nodes :
      (i : ℕ)
      → i < t.size
      → rest.nodes i ≡ (if count (t.nodes i) ks == 0 then t.nodes i else invalid_key)

wipe-count :
    (k n : ℕ) (ks : List ℕ)
    → (if count (wipe k n) ks == 0 then wipe k n else invalid_key)
      ≡ (if count n (k ∷ ks) == 0 then n else invalid_key)
wipe-count k n ks = elim (Bool-cases (n == k)) [
  | inl b ↦ rw b (ground arith)
  | inr b ↦ rw b (ground arith)
]

step_all-vacates :
    (ks : List ℕ) (t : WinnerTree)
    → HaveSlots ks t.num_slots
    → HasShape t
    → IsSourced t
    → Vacated ks t (step_all ks t)
unfolding step_all
step_all-vacates [] t inside shape sourced = record {
  rest = t;
  returns = refl;
  same_slots = refl;
  same_size = refl;
  nodes = λ i h. refl;
}
step_all-vacates (k ∷ ks) t inside shape sourced =
    let (t1, e, w) =
      deactivate_player_step-Without k t shape sourced (inside k (count-head k ks)) in
    let slots = w.same_slots in
    let size = w.same_size in
    let d =
      step_all-vacates ks t1 (λ j h. omega (arith, inside j (count-tail j k ks h)))
        (Without-HasShape k t t1 shape w) (Without-IsSourced k t t1 shape w sourced) in
    record {
      rest = d.rest;
      returns = rw e d.returns;
      same_slots = d.same_slots ∙ w.same_slots;
      same_size = d.same_size ∙ w.same_size;
      nodes = λ i h.
          d.nodes i (omega arith)
          ∙ ap (λ n. if count n ks == 0 then n else invalid_key) (w.wiped i h)
          ∙ wipe-count k (t.nodes i) ks;
    }

-- Players that have slots take the step out of a valid tree, one after the other and each any
-- number of times, before any of them is replayed: each step returns, afterwards none of them stands at
-- any node, from its leaf up to the root, and every node at which another player or nobody stood
-- is as it was.
pub step_all-Vacated :
    (less : ℕ → ℕ → Bool) (ks : List ℕ) (t : WinnerTree)
    → HaveSlots ks t.num_slots
    → IsValid less t
    → Vacated ks t (step_all ks t)
step_all-Vacated less ks t inside v =
    step_all-vacates ks t inside v.shape (IsValid-IsSourced less t v)
