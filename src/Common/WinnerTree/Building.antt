-- ===== src/Common/WinnerTree/Building.antt =====
-- The calls that build a tree: `rebuild` and `resize_and_rebuild`.
use stxxl.Prelude.{
  ℕ, zero, suc, ◌+◌, ◌-◌, ◌*◌, ◌/◌, ◌^◌, ◌==◌, ltb, ◌≡◌, ◌≢◌, ◌<◌, ◌≤◌, inl, inr, refl, ap, ap₂,
  ◌∙◌, sym, subst, arith, Bool, Bool-cases, true, not, Option, some,
}
use stxxl.Common.Ilog2.{pow_mono, ilog2_ceil, ilog2_ceil-IsLeast}
use stxxl.Common.WinnerTree.{
  WinnerTree, invalid_key, put, leaf, play, none_playing, rebuild_below, rebuild, make_room,
  activate_without_replay, activate_all, resize, clear, resize_and_clear, resize_and_rebuild,
}
use stxxl.Common.WinnerTree.Tournament.{HasShape, RightAt, IsValid, active}
use stxxl.Common.WinnerTree.Replay.{put_self, put_other, RightAt-cong}

module _ (less : ℕ → ℕ → Bool) where
  -- `rebuild_below` makes the nodes before `i` right, and changes no other node.
  rebuild_below-right :
      (i slots : ℕ) (nodes : ℕ → ℕ)
      → ((j : ℕ) → i ≤ j → j + 1 < slots → RightAt less nodes j)
      → (j : ℕ) → j + 1 < slots
      → RightAt less (rebuild_below less i nodes) j
  unfolding rebuild_below
  rebuild_below-right zero slots nodes right j inner = right j (omega arith) inner
  rebuild_below-right (suc i) slots nodes right j inner =
      let v = play less (nodes (i * 2 + 1)) (nodes (i * 2 + 2)) in
      rebuild_below-right i slots (put i v nodes)
        (λ k l inner'. elim (Bool-cases (k == i)) [
          | inl t ↦
              let e : k ≡ i = ground arith in
              ap (put i v nodes) e
              ∙ put_self i v nodes
              ∙ sym (
                  ap₂ (play less)
                    (put_other i v (k * 2 + 1) nodes (omega arith) ∙ ap (λ z. nodes (z * 2 + 1)) e)
                    (put_other i v (k * 2 + 2) nodes (omega arith) ∙ ap (λ z. nodes (z * 2 + 2)) e))
          | inr t ↦
              let ne : k ≢ i = ground arith in
              RightAt-cong less nodes (put i v nodes) k (put_other i v k nodes ne)
                (put_other i v (k * 2 + 1) nodes (omega arith))
                (put_other i v (k * 2 + 2) nodes (omega arith)) (right k (omega arith) inner')
        ])
        j inner

  rebuild_below-above :
      (i : ℕ) (nodes : ℕ → ℕ) (j : ℕ) → i ≤ j → rebuild_below less i nodes j ≡ nodes j
  unfolding rebuild_below
  rebuild_below-above zero nodes j h = refl
  rebuild_below-above (suc i) nodes j h =
      let v = play less (nodes (i * 2 + 1)) (nodes (i * 2 + 2)) in
      rebuild_below-above i (put i v nodes) j (omega arith) ∙ put_other i v j nodes (omega arith)

  -- `rebuild` makes a tree of the right shape valid, whatever its inner nodes hold.
  pub rebuild-IsValid : (t : WinnerTree) → HasShape t → IsValid less (rebuild less t)
  unfolding rebuild
  rebuild-IsValid t shape =
      let whole = shape.whole in
      let m = t.size / 2 in
      record {
        shape = record {
          whole = shape.whole;
          slots = shape.slots;
          few = shape.few;
          leaves =
              λ k h. rw (rebuild_below-above m t.nodes (m + k) (omega arith)) (shape.leaves k h);
        };
        games = λ i inner out.
            rebuild_below-right m t.num_slots t.nodes (λ j l h. absurd (omega arith)) i inner;
      }

  rebuild-active : (t : WinnerTree) (k : ℕ) → active (rebuild less t) k ≡ active t k
  unfolding rebuild
  rebuild-active t k =
      let m = t.size / 2 in
      ap (λ z. not (z == invalid_key)) (rebuild_below-above m t.nodes (m + k) (omega arith))

-- The tree in which the players below `n` are active, before its games are played.
record Filled (n slots : ℕ) (t : WinnerTree) : Type 0 where
  num_slots : t.num_slots ≡ slots
  whole : t.size + 1 ≡ slots * 2
  on : (k : ℕ) → k < n → t.nodes (leaf t k) ≡ k
  off : (k : ℕ) → n ≤ k → k < slots → t.nodes (leaf t k) ≡ invalid_key

make_room-here :
    (fuel index : ℕ) (t : WinnerTree) → index < t.num_slots → make_room (suc fuel) index t ≡ some t
unfolding make_room
make_room-here fuel index t l =
    let b : ltb index t.num_slots ≡ true = ground arith in rw (b, make_room) refl

activate-Filled :
    (n slots : ℕ) (t : WinnerTree)
    → n < slots
    → Filled n slots t
    → (t' : WinnerTree) × (activate_without_replay n t ≡ some t') × Filled (n + 1) slots t'
unfolding activate_without_replay
activate-Filled n slots t l f =
    let num_slots = f.num_slots in
    let whole = f.whole in
    let p = leaf t n in
    let b : ltb p t.size ≡ true = ground arith in
    (
      record t { nodes = put p n t.nodes },
      rw (make_room-here n n t (omega arith), b) refl,
      record {
        num_slots = f.num_slots;
        whole = f.whole;
        on = λ k h. elim (Bool-cases (k == n)) [
          | inl e ↦ ground arith
          | inr e ↦ put_other p n (leaf t k) t.nodes (ground arith) ∙ f.on k (ground arith)
        ];
        off = λ k h h'. put_other p n (leaf t k) t.nodes (omega arith) ∙ f.off k (omega arith) h';
      },
    )

activate_all-Filled :
    (less : ℕ → ℕ → Bool) (n i slots : ℕ) (t : WinnerTree)
    → i + n ≤ slots
    → Filled i slots t
    → (t' : WinnerTree) × (activate_all less n i t ≡ some t') × Filled (i + n) slots t'
unfolding activate_all
activate_all-Filled less zero i slots t l f =
    (t, refl, subst (λ z. Filled z slots t) (omega arith) f)
activate_all-Filled less (suc n) i slots t l f =
    let (t1, e1, f1) = activate-Filled i slots t (omega arith) f in
    let (t2, e2, f2) = activate_all-Filled less n (i + 1) slots t1 (omega arith) f1 in
    (t2, rw e1 e2, subst (λ z. Filled z slots t2) (omega arith) f2)

Filled-HasShape :
    (n slots : ℕ) (t : WinnerTree) → 0 < slots → slots ≤ invalid_key → Filled n slots t → HasShape t
Filled-HasShape n slots t pos few f =
    let num_slots = f.num_slots in
    let whole = f.whole in
    record {
      whole = omega arith;
      slots = omega arith;
      few = omega arith;
      leaves = λ k h. elim (Bool-cases (ltb k n)) [
        | inl b ↦ inl (f.on k (ground arith))
        | inr b ↦ inr (f.off k (ground arith) (omega (arith, h)))
      ];
    }

Filled-active :
    (n slots : ℕ) (t : WinnerTree)
    → slots ≤ invalid_key
    → Filled n slots t
    → (k : ℕ) → k < slots
    → active t k ≡ ltb k n
Filled-active n slots t few f k h = elim (Bool-cases (ltb k n)) [
  | inl b ↦ let e = f.on k (ground arith) in ground arith
  | inr b ↦ let e = f.off k (ground arith) h in ground arith
]

zero_plus : (n : ℕ) → 0 + n ≡ n
zero_plus n = omega arith

-- The tree that `resize_and_rebuild` makes for `n` players.
pub record Rebuilt (less : ℕ → ℕ → Bool) (n : ℕ) (result : Option WinnerTree) : Type 0 where
  pub rest : WinnerTree
  pub returns : result ≡ some rest
  pub valid : IsValid less rest
  pub enough : n ≤ rest.num_slots
  pub players : (k : ℕ) → k < rest.num_slots → active rest k ≡ ltb k n

-- `resize_and_rebuild` for at least one player and at most 2 ^ 30, whatever the tree was, makes a valid
-- tree, with a slot for each player, in which exactly these players are active.
pub resize_and_rebuild-Rebuilt :
    (less : ℕ → ℕ → Bool) (n : ℕ) (t : WinnerTree)
    → 0 < n
    → n ≤ 2 ^ 30
    → Rebuilt less n (resize_and_rebuild less n t)
unfolding resize_and_rebuild resize_and_clear resize clear rebuild
resize_and_rebuild-Rebuilt less n t pos few =
    let c = ilog2_ceil n in
    let (fits, least) = ilog2_ceil-IsLeast n in
    let small = least 30 few in
    let below = pow_mono c 30 small in
    let b : ltb c 31 ≡ true = ground arith in
    let start : WinnerTree = record {
      nodes = none_playing;
      size = 2 ^ c * 2 - 1;
      num_slots = 2 ^ c;
    } in
    let (t', e, f0) = activate_all-Filled less n 0 (2 ^ c) start (omega arith) (record {
      num_slots = refl;
      whole = omega arith;
      on = λ k h. absurd (omega arith);
      off = λ k h h'. refl;
    }) in
    let f = subst (λ z. Filled z (2 ^ c) t') (zero_plus n) f0 in
    let num_slots = f.num_slots in
    let shape = Filled-HasShape n (2 ^ c) t' (omega arith) (omega arith) f in
    record {
      rest = rebuild less t';
      returns = rw (b, e) refl;
      valid = rebuild-IsValid less t' shape;
      enough = omega arith;
      players = λ k h.
          rebuild-active less t' k ∙ Filled-active n (2 ^ c) t' (omega arith) f k (omega arith);
    }
