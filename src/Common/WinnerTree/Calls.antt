-- ===== src/Common/WinnerTree/Calls.antt =====
-- The calls of `replay_on_change`: the value of one player changes, or the player comes or goes.
use stxxl.Prelude.{
  ℕ, ◌+◌, ◌-◌, ◌*◌, ◌==◌, ◌≡◌, ◌≢◌, ◌<◌, ◌⊎◌, inl, inr, refl, ap, ◌∙◌, sym, arith, Bool, Bool-cases,
  not, Option, some, if◌then◌else◌, ◌>>=◌, subst,
}
use stxxl.Common.WinnerTree.{WinnerTree, invalid_key, put, leaf, play, replay, replay_on_change}
use stxxl.Common.WinnerTree.Path.{
  parent, Above, next, IsChild, first, second, child-pos, parent-child, Above-child,
}
use stxxl.Common.WinnerTree.Tournament.{
  HasShape, RightAt, IsValidBut, IsValid, game, Nowhere, active, nobody, player, origin,
  IsValid-IsSourced, child-inside,
}
use stxxl.Common.WinnerTree.Replay.{put_other, RightAt-cong, replay-Replayed}

-- The call returns a tree in which the nodes are right but those of `P`, and the player `index` is active
-- unless it is `done`, and the others are as before.
pub record Changed (less : ℕ → ℕ → Bool) (P : ℕ → Type 0) (index : ℕ) (done : Bool) (t : WinnerTree)
    (result : Option WinnerTree) : Type 0 where
  pub rest : WinnerTree
  pub returns : result ≡ some rest
  pub valid : IsValidBut less P rest
  pub same_slots : rest.num_slots ≡ t.num_slots
  pub same_size : rest.size ≡ t.size
  pub players :
      (k : ℕ) → k < t.num_slots → active rest k ≡ (if k == index then not done else active t k)

abbrev new_top : ℕ → Bool → ℕ
new_top index done = if done then invalid_key else index

module _ (less : ℕ → ℕ → Bool) (P : ℕ → Type 0) (t : WinnerTree) (shape : HasShape t) (index : ℕ)
    (l : index < t.num_slots) where
  -- The nodes that are right before the leaf is written are so after it.
  write_leaf :
      (v i : ℕ)
      → i + 1 < t.num_slots
      → ¬ Above i (leaf t index)
      → RightAt less t.nodes i
      → RightAt less (put (leaf t index) v t.nodes) i
  write_leaf v i inner off right =
      let whole = shape.whole in
      let p = leaf t index in
      let off' : (c : ℕ) → IsChild c i → c ≢ p =
        λ c ch e. off (next (omega (arith, child-pos ch, e)) (parent-child ch ∙ ap parent e)) in
      RightAt-cong less t.nodes (put p v t.nodes) i (put_other p v i t.nodes (omega arith))
        (put_other p v (i * 2 + 1) t.nodes (off' (i * 2 + 1) (first refl)))
        (put_other p v (i * 2 + 2) t.nodes (off' (i * 2 + 2) (second refl))) right

  written-leaf :
      (done : Bool) (k : ℕ)
      → k < t.num_slots
      → (put (leaf t index) (new_top index done) t.nodes (leaf t k) ≡ k)
        ⊎ (put (leaf t index) (new_top index done) t.nodes (leaf t k) ≡ invalid_key)
  written-leaf done k h = elim (Bool-cases (k == index)) [
    | inl e ↦ elim (Bool-cases done) [
      | inl d ↦ inr (rw d (ground arith))
      | inr d ↦ inl (rw d (ground arith))
    ]
    | inr e ↦ elim (shape.leaves k h) [
      | inl f ↦ inl (put_other _ _ (leaf t k) t.nodes (ground arith) ∙ f)
      | inr f ↦ inr (put_other _ _ (leaf t k) t.nodes (ground arith) ∙ f)
    ]
  ]

  written-active :
      (done : Bool) (k : ℕ)
      → k < t.num_slots
      → not (put (leaf t index) (new_top index done) t.nodes (leaf t k) == invalid_key)
        ≡ (if k == index then not done else active t k)
  written-active done k h =
      let few = shape.few in
      elim (Bool-cases (k == index)) [
        | inl e ↦ elim (Bool-cases done) [
          | inl d ↦ rw d (ground arith)
          | inr d ↦ rw d (ground arith)
        ]
        | inr e ↦
            ap (λ n. not (n == invalid_key)) (put_other _ _ (leaf t k) t.nodes (ground arith))
            ∙ rw e refl
      ]

  -- Where the nodes off the path of `index` are right but those of `P`, a call of `replay_on_change`
  -- makes the path right.
  pub replay_path :
      (done : Bool)
      → ((i : ℕ) → i + 1 < t.num_slots → ¬ Above i (leaf t index) → ¬ P i → RightAt less t.nodes i)
      → Changed less P index done t (replay_on_change less index done t)
  unfolding replay_on_change
  replay_path done right =
      let whole = shape.whole in
      let few = shape.few in
      let p = leaf t index in
      let v = new_top index done in
      let size : t.size ≡ t.num_slots * 2 - 1 = omega arith in
      let r =
        replay-Replayed less t.num_slots P (p + 1) p v t.nodes (omega arith) (omega arith)
          (λ i inner off out. write_leaf v i inner off (right i inner off out)) in
      let rest : WinnerTree = record t { nodes = r.rest } in
      let at = λ (k : ℕ) (h : k < t.num_slots). r.leaves (leaf t k) (omega (arith, h)) in
      record {
        rest = rest;
        returns =
            ap (λ o. o >>= (λ nodes. some (record t { nodes = nodes })))
              (ap (λ n. replay less (p + 1) n p v t.nodes) size ∙ r.returns);
        valid = record {
          shape = record {
            whole = shape.whole;
            slots = shape.slots;
            few = shape.few;
            leaves = λ k h. elim (written-leaf done k h) [
              | inl e ↦ inl (at k h ∙ e)
              | inr e ↦ inr (at k h ∙ e)
            ];
          };
          games = r.right;
        };
        same_slots = refl;
        same_size = refl;
        players = λ k h. ap (λ n. not (n == invalid_key)) (at k h) ∙ written-active done k h;
      }

-- Two comparators that agree on all players but one.
abbrev pub AgreeBut : ℕ → (ℕ → ℕ → Bool) → (ℕ → ℕ → Bool) → Type 0
AgreeBut index less less' = (a b : ℕ) → a ≢ index → b ≢ index → less a b ≡ less' a b

unchanged_play :
    (index : ℕ) (less less' : ℕ → ℕ → Bool)
    → AgreeBut index less less'
    → (a b : ℕ) → a ≢ index
    → b ≢ index
    → play less a b ≡ play less' a b
unfolding play
unchanged_play index less less' agree a b na nb = rw (agree a b na nb) refl

module _ (less : ℕ → ℕ → Bool) (t : WinnerTree) (v : IsValid less t) (index : ℕ) where
  -- A player stands only on its path.
  off_path :
      (c i : ℕ)
      → IsChild c i
      → i + 1 < t.num_slots
      → index < t.num_slots
      → ¬ Above i (leaf t index)
      → t.nodes c ≢ index
  off_path c i ch inner l off e =
      let few = v.shape.few in
      let whole = v.shape.whole in
      elim (origin t v.shape (IsValid-IsSourced less t v) c (child-inside inner whole ch)) [
        | nobody h ↦ omega (arith, e, h)
        | player k b (inl at) h f ↦ off (
            next (omega (arith, child-pos ch))
              (parent-child ch ∙ ap parent (at ∙ ap (leaf t) (sym h ∙ e))))
        | player k b (inr up) h f ↦ off (
            subst (λ z. Above i (leaf t z)) (sym h ∙ e)
              (Above-child c (parent-child ch) (child-pos ch) up))
      ]

  -- The value of a player that has a slot changes, or the player comes or goes, in a valid tree, while the
  -- comparator stays the same between all other players: `replay_on_change` returns a tree that is
  -- valid for the new comparator, in which the player is active unless it is done, and the others
  -- as before.
  pub replay_on_change-Changed :
      (less' : ℕ → ℕ → Bool) (done : Bool)
      → AgreeBut index less less'
      → index < t.num_slots
      → Changed less' Nowhere index done t (replay_on_change less' index done t)
  replay_on_change-Changed less' done agree l =
      replay_path less' Nowhere t v.shape index l done (λ i inner off out.
        game v i inner
        ∙ unchanged_play index less less' agree (t.nodes (i * 2 + 1)) (t.nodes (i * 2 + 2))
            (off_path (i * 2 + 1) i (first refl) inner l off)
            (off_path (i * 2 + 2) i (second refl) inner l off))
