-- ===== src/Common/WinnerTree/Tournament.antt =====
-- The invariant of a winner tree, and the players that stand at its nodes.
use stxxl.Prelude.{
  ℕ, zero, suc, ◌+◌, ◌-◌, ◌*◌, ◌/◌, ◌==◌, ltb, ◌≡◌, ◌<◌, ◌≤◌, ◌⊎◌, inl, inr, refl, ap, ◌∙◌, arith,
  Bool, Bool-cases, not,
}
use stxxl.Common.WinnerTree.{WinnerTree, invalid_key, leaf, play}
use stxxl.Common.WinnerTree.Path.{
  parent, Above, next, IsChild, first, second, child-pos, parent-child, Above-child,
}

-- Each leaf holds its player or is not active.
pub record HasShape (t : WinnerTree) : Type 0 where
  pub whole : t.size + 1 ≡ t.num_slots * 2
  pub slots : 0 < t.num_slots
  pub few : t.num_slots ≤ invalid_key
  pub leaves :
      (k : ℕ) → k < t.num_slots → (t.nodes (leaf t k) ≡ k) ⊎ (t.nodes (leaf t k) ≡ invalid_key)

module _ (less : ℕ → ℕ → Bool) where
  -- The node `i` holds the winner of its two children.
  abbrev pub RightAt : (ℕ → ℕ) → ℕ → Type 0
  RightAt nodes i = nodes i ≡ play less (nodes (i * 2 + 1)) (nodes (i * 2 + 2))

  pub play-cases : (a b : ℕ) → (play less a b ≡ a) ⊎ (play less a b ≡ b)
  unfolding play
  play-cases a b = elim (Bool-cases (a == invalid_key)) [
    | inl t ↦ inr (rw t refl)
    | inr t ↦ elim (Bool-cases (b == invalid_key)) [
      | inl u ↦ inl (rw (t, u) refl)
      | inr u ↦ elim (Bool-cases (less a b)) [
        | inl l ↦ inl (rw (t, u, l) refl)
        | inr l ↦ inr (rw (t, u, l) refl)
      ]
    ]
  ]

-- Each other node but those of `P` holds the winner of its children.
pub record IsValidBut (less : ℕ → ℕ → Bool) (P : ℕ → Type 0) (t : WinnerTree) : Type 0 where
  pub shape : HasShape t
  pub games : (i : ℕ) → i + 1 < t.num_slots → ¬ P i → RightAt less t.nodes i

pub data Nowhere (i : ℕ) : Type 0 where

-- The invariant.
abbrev pub IsValid : (ℕ → ℕ → Bool) → WinnerTree → Type 0
IsValid less t = IsValidBut less Nowhere t

pub game :
    {less : ℕ → ℕ → Bool} {t : WinnerTree}
    → IsValid less t
    → (i : ℕ) → i + 1 < t.num_slots
    → RightAt less t.nodes i
game v i inner = v.games i inner (λ n. elim n [ ])

-- The players that are active.
abbrev pub active : WinnerTree → ℕ → Bool
active t k = not (t.nodes (leaf t k) == invalid_key)

-- Nobody stands at the node `i`, or a player whose leaf is the node or below it.
pub data Origin (t : WinnerTree) (i : ℕ) : Type 0 where
  nobody : t.nodes i ≡ invalid_key → Origin t i
  player :
      (k : ℕ)
      → k < t.num_slots
      → (i ≡ leaf t k) ⊎ Above i (leaf t k)
      → t.nodes i ≡ k
      → t.nodes (leaf t k) ≡ k
      → Origin t i

Origin-child :
    (t : WinnerTree) {c i : ℕ} → IsChild c i → t.nodes i ≡ t.nodes c → Origin t c → Origin t i
Origin-child t ch e (nobody h) = nobody (e ∙ h)
Origin-child t {c} ch e (player k l (inl h) e' f) =
    player k l (inr (next (omega (arith, child-pos ch)) (parent-child ch ∙ ap parent h))) (e ∙ e') f
Origin-child t {c} ch e (player k l (inr h) e' f) =
    player k l (inr (Above-child c (parent-child ch) (child-pos ch) h)) (e ∙ e') f

-- Nobody stands at the node `i`, or whoever stands at one of its children.
pub data Sourced (nodes : ℕ → ℕ) (i : ℕ) : Type 0 where
  free : nodes i ≡ invalid_key → Sourced nodes i
  from : (c : ℕ) → IsChild c i → nodes i ≡ nodes c → Sourced nodes i

-- The inner nodes of a tree are so.
abbrev pub IsSourced : WinnerTree → Type 0
IsSourced t = (i : ℕ) → i + 1 < t.num_slots → Sourced t.nodes i

pub child-inside :
    {c i slots size : ℕ} → i + 1 < slots → size + 1 ≡ slots * 2 → IsChild c i → c < size
child-inside inner whole (first e) = omega arith
child-inside inner whole (second e) = omega arith

pub IsChild-lt : {c i : ℕ} → IsChild c i → i < c
IsChild-lt (first e) = omega arith
IsChild-lt (second e) = omega arith

module _ (t : WinnerTree) (shape : HasShape t) (s : IsSourced t) where
  from_leaves : (n i : ℕ) → i < t.size → t.size ≤ i + n → Origin t i
  from_leaves zero i h enough = absurd (omega arith)
  from_leaves (suc n) i h enough = elim (Bool-cases (ltb (i + 1) t.num_slots)) [
    | inl q ↦
        let inner : i + 1 < t.num_slots = ground arith in
        elim (s i inner) [
          | free e ↦ nobody e
          | from c ch e ↦
              Origin-child t ch e
                (from_leaves n c (child-inside inner shape.whole ch) (omega (arith, IsChild-lt ch)))
        ]
    | inr q ↦
        let outer : t.num_slots ≤ i + 1 = ground arith in
        let size = shape.whole in
        let pos = shape.slots in
        let k = i - t.size / 2 in
        let place : i ≡ leaf t k = omega arith in
        elim (shape.leaves k (omega arith)) [
          | inl e ↦ player k (omega arith) (inl place) (ap t.nodes place ∙ e) e
          | inr e ↦ nobody (ap t.nodes place ∙ e)
        ]
  ]

  pub origin : (i : ℕ) → i < t.size → Origin t i
  origin i h = from_leaves t.size i h (omega arith)

pub IsValid-IsSourced : (less : ℕ → ℕ → Bool) (t : WinnerTree) → IsValid less t → IsSourced t
IsValid-IsSourced less t v i inner =
    elim (play-cases less (t.nodes (i * 2 + 1)) (t.nodes (i * 2 + 2))) [
      | inl e ↦ from (i * 2 + 1) (first refl) (game v i inner ∙ e)
      | inr e ↦ from (i * 2 + 2) (second refl) (game v i inner ∙ e)
    ]
