-- ===== src/Common/WinnerTree/Erase.antt =====
-- `deactivate_player_step`.
use stxxl.Prelude.{
  ℕ, zero, suc, ◌*◌, ◌==◌, ltb, ◌&&◌, ◌≡◌, ◌≢◌, ◌<◌, ◌≤◌, ◌⊎◌, inl, inr, refl, ap, ◌∙◌, sym, subst,
  arith, Bool-cases, true, false, some, if◌then◌else◌, not, ◌/◌, Bool, ◌+◌,
}
use stxxl.Common.WinnerTree.{
  WinnerTree, invalid_key, put, leaf, erase_path, erase_root, deactivate_player_step,
}
use stxxl.Common.WinnerTree.Path.{
  parent, Above, next, higher, left-half, IsChild, first, second, child-pos, parent-child,
  Above-child,
}
use stxxl.Common.WinnerTree.Tournament.{HasShape, IsValidBut, active}
use stxxl.Common.WinnerTree.Replay.{put_self, put_other, RightAt-cong}

-- What lies above a node has a smaller place.
pub Above-lt : {i p : ℕ} → Above i p → i * 2 < p
Above-lt (next h e) = omega (arith, e)
Above-lt (higher h a) = omega (arith, Above-lt a)

-- The nodes after the player `index` is erased from the node `p` up.
record Erased (index p : ℕ) (nodes nodes' : ℕ → ℕ) : Type 0 where
  same : (i : ℕ) → i ≢ p → ¬ Above i p → nodes' i ≡ nodes i
  gone : 0 < p → nodes p ≡ index → nodes' p ≡ invalid_key
  kept : nodes p ≢ index → nodes' p ≡ nodes p
  alone : p ≡ 0 → nodes' p ≡ nodes p

pub erase_path-stops :
    (fuel index p : ℕ) (nodes : ℕ → ℕ)
    → (ltb 0 p && (nodes p == index)) ≡ false
    → erase_path fuel index p nodes ≡ nodes
unfolding erase_path
erase_path-stops zero index p nodes b = refl
erase_path-stops (suc fuel) index p nodes b = rw (b, erase_path) refl

pub erase_path-next :
    (fuel index p : ℕ) (nodes : ℕ → ℕ)
    → (ltb 0 p && (nodes p == index)) ≡ true
    → erase_path (suc fuel) index p nodes
      ≡ erase_path fuel index (parent p) (put p invalid_key nodes)
unfolding erase_path
erase_path-next fuel index p nodes b =
    rw (b, erase_path)
      (ap (λ q. erase_path fuel index q (put p invalid_key nodes)) (left-half p (ground arith)))

Erased-stops :
    (fuel index p : ℕ) (nodes : ℕ → ℕ)
    → (ltb 0 p && (nodes p == index)) ≡ false
    → Erased index p nodes (erase_path fuel index p nodes)
Erased-stops fuel index p nodes b =
    subst (Erased index p nodes) (sym (erase_path-stops fuel index p nodes b)) (record {
      same = λ i ne off. refl;
      gone = λ pos e. absurd (ground arith);
      kept = λ ne. refl;
      alone = λ e. refl;
    })

erase_path-Erased :
    (fuel index p : ℕ) (nodes : ℕ → ℕ)
    → p ≤ fuel
    → Erased index p nodes (erase_path fuel index p nodes)
erase_path-Erased zero index p nodes enough = Erased-stops zero index p nodes (ground arith)
erase_path-Erased (suc fuel) index p nodes enough =
    elim (Bool-cases (ltb 0 p && (nodes p == index))) [
      | inr b ↦ Erased-stops (suc fuel) index p nodes b
      | inl b ↦
          let pos : 0 < p = ground arith in
          let at : nodes p ≡ index = ground arith in
          let nodes' = put p invalid_key nodes in
          let rec = erase_path-Erased fuel index (parent p) nodes' (omega arith) in
          subst (Erased index p nodes) (sym (erase_path-next fuel index p nodes b)) (record {
            same = λ i ne off.
                rec.same i (λ e. off (next pos e)) (λ a. off (higher pos a))
                ∙ put_other p invalid_key i nodes ne;
            gone = λ pos' e.
                rec.same p (omega arith) (λ a. omega (arith, Above-lt a))
                ∙ put_self p invalid_key nodes;
            kept = λ ne. absurd (ne at);
            alone = λ e. absurd (omega arith);
          })
    ]

Above-root : (n p : ℕ) → p ≤ n → 0 < p → Above 0 p
Above-root zero p l pos = absurd (omega arith)
Above-root (suc n) p l pos = elim (Bool-cases (parent p == 0)) [
  | inl b ↦ next pos (ground arith)
  | inr b ↦ higher pos (Above-root n (parent p) (omega arith) (ground arith))
]

not_root : (p i : ℕ) → i ≢ p → ¬ Above i p → i ≢ 0
not_root p i ne off e =
    off (subst (λ z. Above z p) (sym e) (Above-root p p (omega arith) (omega arith)))

-- The tree after `deactivate_player_step`.
pub record Stepped (index : ℕ) (t rest : WinnerTree) : Type 0 where
  pub num_slots : rest.num_slots ≡ t.num_slots
  pub size : rest.size ≡ t.size
  pub same : (i : ℕ) → i ≢ leaf t index → ¬ Above i (leaf t index) → rest.nodes i ≡ t.nodes i
  pub gone : rest.nodes (leaf t index) ≡ invalid_key

pub erase_root-other :
    (index : ℕ) (nodes : ℕ → ℕ) (i : ℕ) → i ≢ 0 → erase_root index nodes i ≡ nodes i
unfolding erase_root
erase_root-other index nodes i ne = elim (Bool-cases (nodes 0 == index)) [
  | inl b ↦ rw b (put_other 0 invalid_key i nodes ne)
  | inr b ↦ rw b refl
]

erase_root-gone :
    (index : ℕ) (nodes : ℕ → ℕ)
    → (nodes 0 ≡ index) ⊎ (nodes 0 ≡ invalid_key)
    → erase_root index nodes 0 ≡ invalid_key
unfolding erase_root
erase_root-gone index nodes h = elim (Bool-cases (nodes 0 == index)) [
  | inl b ↦ rw b (put_self 0 invalid_key nodes)
  | inr b ↦ elim h [ inl e ↦ absurd (ground arith) | inr e ↦ rw b e ]
]

-- A leaf that holds its player is free after both.
Erased-leaf :
    (index p : ℕ) (nodes nodes' : ℕ → ℕ)
    → Erased index p nodes nodes'
    → (nodes p ≡ index) ⊎ (nodes p ≡ invalid_key)
    → index ≢ invalid_key
    → erase_root index nodes' p ≡ invalid_key
Erased-leaf index p nodes nodes' r h ne = elim (Bool-cases (p == 0)) [
  | inl b ↦
      let e : p ≡ 0 = ground arith in
      let same : nodes' 0 ≡ nodes p = ap nodes' (sym e) ∙ r.alone e in
      ap (erase_root index nodes') e
      ∙ erase_root-gone index nodes'
          (elim h [ inl e' ↦ inl (same ∙ e') | inr e' ↦ inr (same ∙ e') ])
  | inr b ↦
      erase_root-other index nodes' p (ground arith)
      ∙ elim h [ inl e ↦ r.gone (ground arith) e | inr e ↦ r.kept (λ e'. ne (sym e' ∙ e)) ∙ e ]
]

pub deactivate_player_step-Stepped :
    (index : ℕ) (t : WinnerTree)
    → HasShape t
    → index < t.num_slots
    → (rest : WinnerTree) × (deactivate_player_step index t ≡ some rest) × Stepped index t rest
unfolding deactivate_player_step
deactivate_player_step-Stepped index t shape l =
    let whole = shape.whole in
    let few = shape.few in
    let p = leaf t index in
    let b : ltb p t.size ≡ true = ground arith in
    let nodes = erase_path p index p t.nodes in
    let r = erase_path-Erased p index p t.nodes (omega arith) in
    (
      record t { nodes = erase_root index nodes },
      rw b refl,
      record {
        num_slots = refl;
        size = refl;
        same = λ i ne off. erase_root-other index nodes i (not_root p i ne off) ∙ r.same i ne off;
        gone = Erased-leaf index p t.nodes nodes r (shape.leaves index l) (omega arith);
      },
    )

-- A leaf but for the one that is freed is as before.
Stepped-leaf :
    (index : ℕ) (t rest : WinnerTree)
    → HasShape t
    → Stepped index t rest
    → index < t.num_slots
    → (k : ℕ) → k < t.num_slots
    → rest.nodes (leaf rest k) ≡ (if k == index then invalid_key else t.nodes (leaf t k))
Stepped-leaf index t rest shape st l k h =
    let whole = shape.whole in
    ap (λ z. rest.nodes (z / 2 + k)) st.size ∙ elim (Bool-cases (k == index)) [
      | inl b ↦ let e : k ≡ index = ground arith in ap (λ z. rest.nodes (leaf t z)) e ∙ rw b st.gone
      | inr b ↦ rw b (st.same (leaf t k) (ground arith) (λ a. omega (arith, Above-lt a)))
    ]

pub Stepped-active :
    (index : ℕ) (t rest : WinnerTree)
    → HasShape t
    → Stepped index t rest
    → index < t.num_slots
    → (k : ℕ) → k < t.num_slots
    → active rest k ≡ (if k == index then false else active t k)
Stepped-active index t rest shape st l k h =
    ap (λ z. not (z == invalid_key)) (Stepped-leaf index t rest shape st l k h) ∙ ground arith

module _ (less : ℕ → ℕ → Bool) (Q : ℕ → Type 0) where
  -- A step keeps the tree right but for the nodes above the player's leaf.
  pub Stepped-IsValidBut :
      (index : ℕ) (t rest : WinnerTree)
      → index < t.num_slots
      → Stepped index t rest
      → ((i : ℕ) → Above i (leaf t index) → Q i)
      → IsValidBut less Q t
      → IsValidBut less Q rest
  Stepped-IsValidBut index t rest l st above v =
      let whole = v.shape.whole in
      let few = v.shape.few in
      let pos = v.shape.slots in
      let size = st.size in
      let num_slots = st.num_slots in
      let p = leaf t index in
      record {
        shape = record {
          whole = omega arith;
          slots = omega arith;
          few = omega arith;
          leaves = λ k h.
              let h' : k < t.num_slots = omega arith in
              let e = Stepped-leaf index t rest v.shape st l k h' in
              elim (Bool-cases (k == index)) [
                | inl b ↦ inr (e ∙ rw b refl)
                | inr b ↦ elim (v.shape.leaves k h') [
                  | inl f ↦ inl (e ∙ rw b f)
                  | inr f ↦ inr (e ∙ rw b f)
                ]
              ];
        };
        games = λ i inner out.
            let off : ¬ Above i p = λ a. out (above i a) in
            let off' : (c : ℕ) → IsChild c i → rest.nodes c ≡ t.nodes c = λ c ch.
              st.same c
                (λ e. off (next (omega (arith, child-pos ch, e)) (parent-child ch ∙ ap parent e)))
                (λ a. off (Above-child c (parent-child ch) (child-pos ch) a)) in
            RightAt-cong less t.nodes rest.nodes i (st.same i (omega arith) off)
              (off' (i * 2 + 1) (first refl)) (off' (i * 2 + 2) (second refl))
              (v.games i (omega arith) out);
      }
