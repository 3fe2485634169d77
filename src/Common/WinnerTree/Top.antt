-- ===== src/Common/WinnerTree/Top.antt =====
-- The winner of a valid tree is a least player.
use stxxl.Prelude.{
  ℕ, zero, suc, ◌+◌, ◌*◌, ◌==◌, ◌≡◌, ◌≢◌, ◌<◌, ◌≤◌, ◌⊎◌, inl, inr, ap, ◌∙◌, sym, subst, arith, Bool,
  Bool-cases, true, false, not, ◌%◌,
}
use stxxl.Common.WinnerTree.{WinnerTree, invalid_key, leaf, play, top, empty}
use stxxl.Common.WinnerTree.Path.{parent}
use stxxl.Common.WinnerTree.Tournament.{
  IsValid, game, active, nobody, player, origin, IsValid-IsSourced,
}

-- A comparison such as `<` on values that some players share.
pub record IsStrictWeakOrder (less : ℕ → ℕ → Bool) : Type 0 where
  pub asym : (a b : ℕ) → less a b ≡ true → less b a ≡ false
  pub through : (a b c : ℕ) → less a b ≡ false → less b c ≡ false → less a c ≡ false

-- What the winner of a tree is: nobody where no player is active, else an active player, than whom no
-- active player is less.
pub data HasWinner (less : ℕ → ℕ → Bool) (t : WinnerTree) : Type 0 where
  nobody_left :
      empty t ≡ true
      → top t ≡ invalid_key
      → ((k : ℕ) → k < t.num_slots → active t k ≡ false)
      → HasWinner less t
  winner :
      empty t ≡ false
      → top t < t.num_slots
      → active t (top t) ≡ true
      → ((k : ℕ) → k < t.num_slots → active t k ≡ true → less k (top t) ≡ false)
      → HasWinner less t

child : (p : ℕ) → 0 < p → (p ≡ parent p * 2 + 1) ⊎ (p ≡ parent p * 2 + 2)
child p pos = elim (Bool-cases (p % 2 == 1)) [
  | inl t ↦ inl (ground arith)
  | inr t ↦ inr (ground arith)
]

module _ (less : ℕ → ℕ → Bool) (order : IsStrictWeakOrder less) where
  -- `v` wins the game against `w`, or draws.
  data Beats (v w : ℕ) : Type 0 where
    no_game : w ≡ invalid_key → Beats v w
    game_won : v ≢ invalid_key → less w v ≡ false → Beats v w

  irreflexive : (a : ℕ) → less a a ≡ false
  irreflexive a = elim (Bool-cases (less a a)) [ inl t ↦ order.asym a a t | inr t ↦ t ]

  Beats-refl : (a : ℕ) → Beats a a
  Beats-refl a = elim (Bool-cases (a == invalid_key)) [
    | inl t ↦ no_game (ground arith)
    | inr t ↦ game_won (ground arith) (irreflexive a)
  ]

  Beats-trans : (a b c : ℕ) → Beats a b → Beats b c → Beats a c
  Beats-trans a b c h (no_game e) = no_game e
  Beats-trans a b c (no_game e) (game_won ne l) = absurd (ne e)
  Beats-trans a b c (game_won ne l) (game_won ne' l') = game_won ne (order.through c b a l' l)

  play-Beats : (a b : ℕ) → Beats (play less a b) a × Beats (play less a b) b
  unfolding play
  play-Beats a b = elim (Bool-cases (a == invalid_key)) [
    | inl t ↦ rw t (no_game (ground arith), Beats-refl b)
    | inr t ↦ elim (Bool-cases (b == invalid_key)) [
      | inl u ↦ rw (t, u) (Beats-refl a, no_game (ground arith))
      | inr u ↦ elim (Bool-cases (less a b)) [
        | inl l ↦ rw (t, u, l) (Beats-refl a, game_won (ground arith) (order.asym a b l))
        | inr l ↦ rw (t, u, l) (game_won (ground arith) l, Beats-refl b)
      ]
    ]
  ]

  module _ (t : WinnerTree) (v : IsValid less t) where
    parent-Beats : (p : ℕ) → 0 < p → p < t.size → Beats (t.nodes (parent p)) (t.nodes p)
    parent-Beats p pos inside =
        let i = parent p in
        let whole = v.shape.whole in
        let g = game v i (omega arith) in
        let (b1, b2) = play-Beats (t.nodes (i * 2 + 1)) (t.nodes (i * 2 + 2)) in
        elim (child p pos) [
          | inl e ↦ subst (λ z. Beats (t.nodes i) (t.nodes z)) (sym e) (rw g b1)
          | inr e ↦ subst (λ z. Beats (t.nodes i) (t.nodes z)) (sym e) (rw g b2)
        ]

    root-Beats : (n p : ℕ) → p ≤ n → p < t.size → Beats (top t) (t.nodes p)
    root-Beats n zero l inside = Beats-refl (top t)
    root-Beats zero (suc m) l inside = absurd (omega arith)
    root-Beats (suc n) (suc m) l inside =
        let p = suc m in
        Beats-trans (top t) (t.nodes (parent p)) (t.nodes p)
          (root-Beats n (parent p) (omega arith) (omega arith))
          (parent-Beats p (omega arith) inside)

    beaten :
        (k : ℕ)
        → k < t.num_slots
        → active t k ≡ true
        → (top t ≢ invalid_key) × (less k (top t) ≡ false)
    beaten k l on =
        let whole = v.shape.whole in
        elim (root-Beats (leaf t k) (leaf t k) (omega arith) (omega arith)) [
          | no_game e ↦ absurd (ground arith)
          | game_won ne b ↦ elim (v.shape.leaves k l) [
            | inl e ↦ (ne, subst (λ z. less z (top t) ≡ false) e b)
            | inr e ↦ absurd (ground arith)
          ]
        ]

    -- `top` of a valid tree, for values in a strict weak order, is an active player than whom no active
    -- player is less; where no player is active it is the invalid key. `empty` says which it is.
    pub top-HasWinner : HasWinner less t
    unfolding empty
    top-HasWinner =
        let pos = v.shape.slots in
        let few = v.shape.few in
        let whole = v.shape.whole in
        elim (origin t v.shape (IsValid-IsSourced less t v) 0 (omega arith)) [
          | nobody h ↦ nobody_left (ground arith) h (λ k l. elim (Bool-cases (active t k)) [
            | inl on ↦ absurd ((beaten k l on).0 h)
            | inr off ↦ off
          ])
          | player k l b e f ↦
              winner (ground arith) (omega arith)
                (ap (active t) e ∙ ap (λ z. not (z == invalid_key)) f ∙ ground arith)
                (λ j h on. (beaten j h on).1)
        ]
