-- ===== src/Common/WinnerTree/Wipe.antt =====
-- One call of `deactivate_player_step`: the player is erased at every node where it stands.
use stxxl.Prelude.{
  ℕ, zero, suc, ◌+◌, ◌-◌, ◌/◌, ◌==◌, ltb, ◌&&◌, ◌≡◌, ◌≢◌, ◌<◌, ◌≤◌, ◌⊎◌, inl, inr, refl, ap, ◌∙◌,
  sym, subst, arith, Bool-cases, true, false, some, if◌then◌else◌,
}
use stxxl.Common.WinnerTree.{
  WinnerTree, invalid_key, put, leaf, erase_path, erase_root, deactivate_player_step,
}
use stxxl.Common.WinnerTree.Path.{parent, Above, Above-cases, IsChild, parent-child}
use stxxl.Common.WinnerTree.Tournament.{
  HasShape, IsSourced, free, from, nobody, player, origin, child-inside, IsChild-lt,
}
use stxxl.Common.WinnerTree.Replay.{put_self, put_other}
use stxxl.Common.WinnerTree.Erase.{Above-lt, erase_path-next, erase_path-stops, erase_root-other}

-- The player that stands at a node after `k` is erased, where `n` stood before.
abbrev pub wipe : ℕ → ℕ → ℕ
wipe k n = if n == k then invalid_key else n

-- The player `k` stands only at `p` and above it, and without a gap.
record Stands (k p size : ℕ) (nodes : ℕ → ℕ) : Type 0 where
  here : (i : ℕ) → i < size → nodes i ≡ k → (i ≡ p) ⊎ Above i p
  below :
      (i : ℕ) → i < size → nodes i ≡ k → i ≢ p → (c : ℕ) × IsChild c i × (c < size) × (nodes c ≡ k)

-- `nodes'` are the nodes without the player `k`, but for the root.
record Wiped (k size : ℕ) (nodes nodes' : ℕ → ℕ) : Type 0 where
  root : nodes' 0 ≡ nodes 0
  inner : (i : ℕ) → i < size → i ≢ 0 → nodes' i ≡ wipe k (nodes i)

Stands-parent :
    (k p size : ℕ) (nodes : ℕ → ℕ)
    → 0 < p
    → k ≢ invalid_key
    → Stands k p size nodes
    → Stands k (parent p) size (put p invalid_key nodes)
Stands-parent k p size nodes pos valid s =
    let off : (i : ℕ) → put p invalid_key nodes i ≡ k → i ≢ p =
      λ i h e. valid (sym h ∙ ap (put p invalid_key nodes) e ∙ put_self p invalid_key nodes) in
    let old : (i : ℕ) → put p invalid_key nodes i ≡ k → nodes i ≡ k =
      λ i h. sym (put_other p invalid_key i nodes (off i h)) ∙ h in
    record {
      here = λ i l h. elim (s.here i l (old i h)) [
        | inl e ↦ absurd (off i h e)
        | inr a ↦ Above-cases a
      ];
      below = λ i l h ne.
          let (c, ch, inside, at) = s.below i l (old i h) (off i h) in
          (
            c,
            ch,
            inside,
            put_other p invalid_key c nodes (λ e. ne (parent-child ch ∙ ap parent e)) ∙ at,
          );
    }

-- Where the player is not at `p`, it is nowhere.
Stands-nowhere :
    (k p size : ℕ) (nodes : ℕ → ℕ)
    → Stands k p size nodes
    → nodes p ≢ k
    → (n i : ℕ) → p ≤ i + n
    → i < size
    → nodes i ≢ k
Stands-nowhere k p size nodes s ne zero i enough l h = elim (s.here i l h) [
  | inl e ↦ ne (ap nodes (sym e) ∙ h)
  | inr a ↦ omega (arith, Above-lt a)
]
Stands-nowhere k p size nodes s ne (suc n) i enough l h = elim (Bool-cases (i == p)) [
  | inl b ↦ let e : i ≡ p = ground arith in ne (ap nodes (sym e) ∙ h)
  | inr b ↦
      let (c, ch, inside, at) = s.below i l h (ground arith) in
      Stands-nowhere k p size nodes s ne n c (omega (arith, IsChild-lt ch)) inside at
]

wipe-put :
    (k p i : ℕ) (nodes : ℕ → ℕ)
    → nodes p ≡ k
    → wipe k (put p invalid_key nodes i) ≡ wipe k (nodes i)
wipe-put k p i nodes at = elim (Bool-cases (i == p)) [
  | inl b ↦
      let e : i ≡ p = ground arith in
      let gone : put p invalid_key nodes i ≡ invalid_key =
        ap (put p invalid_key nodes) e ∙ put_self p invalid_key nodes in
      let at' : nodes i ≡ k = ap nodes e ∙ at in rw (gone, at') (ground arith)
  | inr b ↦ ap (wipe k) (put_other p invalid_key i nodes (ground arith))
]

wipe-other : (k n : ℕ) → n ≢ k → n ≡ wipe k n
wipe-other k n ne = ground arith

Wiped-stops :
    (k p size : ℕ) (nodes : ℕ → ℕ)
    → Stands k p size nodes
    → (ltb 0 p && (nodes p == k)) ≡ false
    → Wiped k size nodes nodes
Wiped-stops k p size nodes s b = record {
  root = refl;
  inner = λ i l ne. wipe-other k (nodes i) (elim (Bool-cases (p == 0)) [
    | inl e ↦ λ h.
        let z : p ≡ 0 = ground arith in
        elim (s.here i l h) [ inl e' ↦ omega (arith, ne) | inr a ↦ omega (arith, Above-lt a) ]
    | inr e ↦ Stands-nowhere k p size nodes s (λ h. absurd (ground arith)) p i (omega arith) l
  ]);
}

erase_path-Wiped :
    (fuel k p size : ℕ) (nodes : ℕ → ℕ)
    → p ≤ fuel
    → k ≢ invalid_key
    → Stands k p size nodes
    → Wiped k size nodes (erase_path fuel k p nodes)
erase_path-Wiped zero k p size nodes enough valid s =
    let b : (ltb 0 p && (nodes p == k)) ≡ false = ground arith in
    subst (Wiped k size nodes) (sym (erase_path-stops zero k p nodes b))
      (Wiped-stops k p size nodes s b)
erase_path-Wiped (suc fuel) k p size nodes enough valid s =
    elim (Bool-cases (ltb 0 p && (nodes p == k))) [
      | inr b ↦
          subst (Wiped k size nodes) (sym (erase_path-stops (suc fuel) k p nodes b))
            (Wiped-stops k p size nodes s b)
      | inl b ↦
          let pos : 0 < p = ground arith in
          let at : nodes p ≡ k = ground arith in
          let nodes' = put p invalid_key nodes in
          let rec =
            erase_path-Wiped fuel k (parent p) size nodes' (omega arith) valid
              (Stands-parent k p size nodes pos valid s) in
          subst (Wiped k size nodes) (sym (erase_path-next fuel k p nodes b)) (record {
            root = rec.root ∙ put_other p invalid_key 0 nodes (omega arith);
            inner = λ i l ne. rec.inner i l ne ∙ wipe-put k p i nodes at;
          })
    ]

-- The tree in which `k` stands nowhere, and every other node is as it was.
pub record Without (k : ℕ) (t rest : WinnerTree) : Type 0 where
  pub same_slots : rest.num_slots ≡ t.num_slots
  pub same_size : rest.size ≡ t.size
  pub wiped : (i : ℕ) → i < t.size → rest.nodes i ≡ wipe k (t.nodes i)

Stands-leaf :
    (t : WinnerTree) (k : ℕ)
    → HasShape t
    → IsSourced t
    → k < t.num_slots
    → Stands k (leaf t k) t.size t.nodes
Stands-leaf t k shape sourced l =
    let few = shape.few in
    let whole = shape.whole in
    record {
      here = λ i inside h. elim (origin t shape sourced i inside) [
        | nobody e ↦ omega (arith, e, h)
        | player j b place e f ↦ subst (λ z. (i ≡ leaf t z) ⊎ Above i (leaf t z)) (sym e ∙ h) place
      ];
      below = λ i inside h ne. elim (Bool-cases (ltb (i + 1) t.num_slots)) [
        | inl b ↦
            let inner : i + 1 < t.num_slots = ground arith in
            elim (sourced i inner) [
              | free e ↦ absurd (omega (arith, e, h))
              | from c ch e ↦ (c, ch, child-inside inner whole ch, sym e ∙ h)
            ]
        | inr b ↦
            let j = i - t.size / 2 in
            let place : i ≡ leaf t j = ground arith in
            elim (shape.leaves j (ground arith)) [
              | inl e ↦ absurd (ne (place ∙ ap (leaf t) (sym e ∙ ap t.nodes (sym place) ∙ h)))
              | inr e ↦ absurd (omega (arith, ap t.nodes place, e, h))
            ]
      ];
    }

erase_root-wipe :
    (k : ℕ) (nodes nodes' : ℕ → ℕ) → nodes' 0 ≡ nodes 0 → erase_root k nodes' 0 ≡ wipe k (nodes 0)
unfolding erase_root
erase_root-wipe k nodes nodes' e = elim (Bool-cases (nodes' 0 == k)) [
  | inl b ↦ rw b (put_self 0 invalid_key nodes' ∙ ground arith)
  | inr b ↦ rw b (ground arith)
]

pub deactivate_player_step-Without :
    (k : ℕ) (t : WinnerTree)
    → HasShape t
    → IsSourced t
    → k < t.num_slots
    → (rest : WinnerTree) × (deactivate_player_step k t ≡ some rest) × Without k t rest
unfolding deactivate_player_step
deactivate_player_step-Without k t shape sourced l =
    let whole = shape.whole in
    let few = shape.few in
    let p = leaf t k in
    let b : ltb p t.size ≡ true = ground arith in
    let nodes = erase_path p k p t.nodes in
    let w =
      erase_path-Wiped p k p t.size t.nodes (omega arith) (omega arith)
        (Stands-leaf t k shape sourced l) in
    (
      record t { nodes = erase_root k nodes },
      rw b refl,
      record {
        same_slots = refl;
        same_size = refl;
        wiped = λ i inside. elim (Bool-cases (i == 0)) [
          | inl e ↦
              let z : i ≡ 0 = ground arith in
              subst (λ j. erase_root k nodes j ≡ wipe k (t.nodes j)) (sym z)
                (erase_root-wipe k t.nodes nodes w.root)
          | inr e ↦ erase_root-other k nodes i (ground arith) ∙ w.inner i inside (ground arith)
        ];
      },
    )
