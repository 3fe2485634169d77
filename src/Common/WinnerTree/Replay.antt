-- ===== src/Common/WinnerTree/Replay.antt =====
-- The loop of `replay_on_change`.
use stxxl.Prelude.{
  ℕ, zero, suc, ◌+◌, ◌-◌, ◌*◌, ◌/◌, ◌==◌, ltb, ◌≡◌, ◌≢◌, ◌<◌, ◌≤◌, inl, inr, refl, ap, ap₂, ◌∙◌,
  sym, subst, arith, Bool, Bool-cases, true, Option, some, ◌&&◌,
}
use stxxl.Common.WinnerTree.{put, left, play, replay}
use stxxl.Common.WinnerTree.Path.{
  parent, Above, next, higher, Above-cases, left-half, IsChild, first, second, child-pos,
  parent-child,
}
use stxxl.Common.WinnerTree.Tournament.{RightAt}

pub put_self : (p v : ℕ) (nodes : ℕ → ℕ) → put p v nodes p ≡ v
put_self p v nodes = ground arith

pub put_other : (p v j : ℕ) (nodes : ℕ → ℕ) → j ≢ p → put p v nodes j ≡ nodes j
put_other p v j nodes ne = ground arith

module _ (less : ℕ → ℕ → Bool) where
  -- A node that is right stays so where neither it nor its children change.
  pub RightAt-cong :
      (nodes nodes' : ℕ → ℕ) (i : ℕ)
      → nodes' i ≡ nodes i
      → nodes' (i * 2 + 1) ≡ nodes (i * 2 + 1)
      → nodes' (i * 2 + 2) ≡ nodes (i * 2 + 2)
      → RightAt less nodes i
      → RightAt less nodes' i
  RightAt-cong nodes nodes' i e e1 e2 h = e ∙ h ∙ sym (ap₂ (play less) e1 e2)

module _ (less : ℕ → ℕ → Bool) where
  replay-next :
      (fuel size p top : ℕ) (nodes : ℕ → ℕ)
      → ltb 0 p ≡ true
      → ltb p size && ltb (left p + 1) size ≡ true
      → replay less (suc fuel) size p top nodes
        ≡ replay less fuel size
            (left p / 2)
            (play less (put p top nodes (left p)) (put p top nodes (left p + 1)))
            (put p top nodes)
  unfolding replay
  replay-next fuel size p top nodes b t = rw (b, t, replay) refl

-- `P` are the nodes that need not be right.
module _ (less : ℕ → ℕ → Bool) (slots : ℕ) (P : ℕ → Type 0) where
  abbrev RightBut : (ℕ → ℕ) → ℕ → Type 0
  RightBut nodes p = (i : ℕ) → i + 1 < slots → ¬ Above i p → ¬ P i → RightAt less nodes i

  root : {i : ℕ} → ¬ Above i 0
  root (next h e) = omega arith
  root (higher h a) = omega arith

  -- The nodes after the loop, which starts at the place `p`.
  pub record Replayed (p top : ℕ) (nodes : ℕ → ℕ) (result : Option (ℕ → ℕ)) : Type 0 where
    pub rest : ℕ → ℕ
    pub returns : result ≡ some rest
    pub right : (i : ℕ) → i + 1 < slots → ¬ P i → RightAt less rest i
    pub leaves : (j : ℕ) → slots ≤ j + 1 → rest j ≡ put p top nodes j

  -- One round makes the node above `p` right.
  round :
      (p : ℕ) (nodes : ℕ → ℕ)
      → 0 < p
      → p + 1 < slots * 2
      → RightBut nodes p
      → RightBut (put (parent p) (play less (nodes (left p)) (nodes (left p + 1))) nodes) (parent p)
  round p nodes pos inside right i inner off out = elim (Bool-cases (i == parent p)) [
    | inl t ↦
        let e : i ≡ parent p = ground arith in
        let one : left p ≡ i * 2 + 1 = omega (arith, e, pos) in
        let two : left p + 1 ≡ i * 2 + 2 = omega (arith, one) in
        let v = play less (nodes (left p)) (nodes (left p + 1)) in
        ap (put (parent p) v nodes) e
        ∙ put_self (parent p) v nodes
        ∙ sym (
            ap₂ (play less)
              (put_other (parent p) v (i * 2 + 1) nodes (omega arith) ∙ ap nodes (sym one))
              (put_other (parent p) v (i * 2 + 2) nodes (omega arith) ∙ ap nodes (sym two)))
    | inr t ↦
        let ne : i ≢ parent p = ground arith in
        let v = play less (nodes (left p)) (nodes (left p + 1)) in
        let off' : (c : ℕ) → IsChild c i → c ≢ parent p =
          λ c ch e. off (next (omega (arith, child-pos ch, e)) (parent-child ch ∙ ap parent e)) in
        RightAt-cong less nodes (put (parent p) v nodes) i (put_other (parent p) v i nodes ne)
          (put_other (parent p) v (i * 2 + 1) nodes (off' (i * 2 + 1) (first refl)))
          (put_other (parent p) v (i * 2 + 2) nodes (off' (i * 2 + 2) (second refl)))
          (right i inner (λ a. elim (Above-cases a) [ inl e ↦ ne e | inr a' ↦ off a' ]) out)
  ]

  pub replay-Replayed :
      (fuel p top : ℕ) (nodes : ℕ → ℕ)
      → p < fuel
      → p + 1 < slots * 2
      → RightBut (put p top nodes) p
      → Replayed p top nodes (replay less fuel (slots * 2 - 1) p top nodes)
  unfolding replay
  replay-Replayed zero p top nodes enough inside right = absurd (omega arith)
  replay-Replayed (suc fuel) p top nodes enough inside right = elim (Bool-cases (ltb 0 p)) [
    | inr b ↦
        let e : p ≡ 0 = ground arith in
        record {
          rest = put p top nodes;
          returns = rw (b, replay) refl;
          right = λ i inner out. right i inner (λ a. root (subst (Above i) e a)) out;
          leaves = λ j h. refl;
        }
    | inl b ↦
        let pos : 0 < p = ground arith in
        let nodes' = put p top nodes in
        let t : ltb p (slots * 2 - 1) && ltb (left p + 1) (slots * 2 - 1) ≡ true = ground arith in
        let v = play less (nodes' (left p)) (nodes' (left p + 1)) in
        let rec =
          replay-Replayed fuel (parent p) v nodes' (omega arith) (omega arith)
            (round p nodes' pos inside right) in
        record {
          rest = rec.rest;
          returns =
              replay-next less fuel (slots * 2 - 1) p top nodes b t
              ∙ ap (λ q. replay less fuel (slots * 2 - 1) q v nodes') (left-half p pos)
              ∙ rec.returns;
          right = rec.right;
          leaves = λ j h.
              rec.leaves j h ∙ put_other (parent p) v j nodes' (omega (arith, h, inside, pos));
        }
  ]
