-- ===== src/Common/WinnerTree/Path.antt =====
-- The path from a node of a winner tree up to the root.
use stxxl.Prelude.{ℕ, ◌+◌, ◌-◌, ◌*◌, ◌/◌, ◌≡◌, ◌<◌, ◌⊎◌, inl, inr, arith, ap, ◌∙◌}
use stxxl.Common.WinnerTree.{left}

-- The node where the player of a node plays next.
abbrev pub parent : ℕ → ℕ
parent p = (p - 1) / 2

-- `i` lies above `p`, on its path to the root.
pub data Above (i : ℕ) : ℕ → Type 0 where
  next : {p : ℕ} → 0 < p → i ≡ parent p → Above i p
  higher : {p : ℕ} → 0 < p → Above i (parent p) → Above i p

pub left-half : (p : ℕ) → 0 < p → left p / 2 ≡ parent p
left-half p h = omega arith

-- The two children of a node.
pub data IsChild (c i : ℕ) : Type 0 where
  first : c ≡ i * 2 + 1 → IsChild c i
  second : c ≡ i * 2 + 2 → IsChild c i

pub child-pos : {c i : ℕ} → IsChild c i → 0 < c
child-pos (first e) = omega arith
child-pos (second e) = omega arith

pub parent-child : {c i : ℕ} → IsChild c i → i ≡ parent c
parent-child (first e) = omega arith
parent-child (second e) = omega arith

-- What lies above a node also has the node's children below it.
pub Above-child : (c : ℕ) {i p : ℕ} → i ≡ parent c → 0 < c → Above c p → Above i p
Above-child c e pos (next h e') = higher h (next (omega arith) (e ∙ ap parent e'))
Above-child c e pos (higher h a) = higher h (Above-child c e pos a)

-- Above the parent, or the parent.
pub Above-cases : {i p : ℕ} → Above i p → (i ≡ parent p) ⊎ Above i (parent p)
Above-cases (next h e) = inl e
Above-cases (higher h a) = inr a
