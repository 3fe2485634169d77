-- ===== src/Common/WinnerTree/Batch.antt =====
-- Several players leave at once: `deactivate_player_step` for each of them, and then
-- `replay_on_deactivations` for each.
use stxxl.Prelude.{
  ℕ, ◌+◌, ◌/◌, ◌==◌, ◌&&◌, ◌≡◌, ◌<◌, inl, inr, refl, ap, ◌∙◌, sym, subst, arith, Bool, Bool-cases,
  true, false, Option, some, if◌then◌else◌, ◌>>=◌, List, [], ◌∷◌, count,
}
use stxxl.Common.WinnerTree.{WinnerTree, leaf, deactivate_player_step, replay_on_deactivations}
use stxxl.Common.WinnerTree.Path.{Above}
use stxxl.Common.WinnerTree.Tournament.{IsValidBut, IsValid, Nowhere, active, game}
use stxxl.Common.WinnerTree.Erase.{
  deactivate_player_step-Stepped, Stepped-active, Stepped-IsValidBut,
}
use stxxl.Common.WinnerTree.Calls.{replay_path}

-- The two rounds of calls, as the comment of `deactivate_player_step` asks for them.
unfoldable pub step_all : List ℕ → WinnerTree → Option WinnerTree
step_all [] t = some t
step_all (k ∷ ks) t = deactivate_player_step k t >>= step_all ks

unfoldable pub replay_all : (ℕ → ℕ → Bool) → List ℕ → WinnerTree → Option WinnerTree
replay_all less [] t = some t
replay_all less (k ∷ ks) t = replay_on_deactivations less k t >>= replay_all less ks

unfoldable pub deactivate_all : (ℕ → ℕ → Bool) → List ℕ → WinnerTree → Option WinnerTree
deactivate_all less ks t = step_all ks t >>= replay_all less ks

-- The nodes above the leaves of the players `ks`, in a tree of `size` nodes.
pub data Pending (size : ℕ) (ks : List ℕ) (i : ℕ) : Type 0 where
  pending : (k : ℕ) → 0 < count k ks → Above i (size / 2 + k) → Pending size ks i

-- A call for the players `ks` returns a tree that is right but for the nodes of `P`, in which these
-- players are not active, and the others as before.
pub record Deactivated (less : ℕ → ℕ → Bool) (P : ℕ → Type 0) (ks : List ℕ) (t : WinnerTree)
    (result : Option WinnerTree) : Type 0 where
  pub rest : WinnerTree
  pub returns : result ≡ some rest
  pub valid : IsValidBut less P rest
  pub same_slots : rest.num_slots ≡ t.num_slots
  pub same_size : rest.size ≡ t.size
  pub players : (k : ℕ) → k < t.num_slots → active rest k ≡ (active t k && (count k ks == 0))

-- The players `ks` have slots in a tree with `slots` of them.
abbrev pub HaveSlots : List ℕ → ℕ → Type 0
HaveSlots ks slots = (k : ℕ) → 0 < count k ks → k < slots

pub count-head : (k : ℕ) (ks : List ℕ) → 0 < count k (k ∷ ks)
count-head k ks = ground arith

pub count-tail : (j k : ℕ) (ks : List ℕ) → 0 < count j ks → 0 < count j (k ∷ ks)
count-tail j k ks h = ground arith

none_left :
    (k j : ℕ) (ks : List ℕ) (before between after : Bool)
    → between ≡ (if j == k then false else before)
    → after ≡ (between && (count j ks == 0))
    → after ≡ (before && (count j (k ∷ ks) == 0))
none_left k j ks before between after e f = ground arith

twice : (a b : Bool) → ((a && b) && b) ≡ (a && b)
twice a b = ground arith

none_gone : (before : Bool) → before ≡ (before && (0 == 0))
none_gone before = ground arith

not-Pending :
    (t : WinnerTree) (k j : ℕ) (ks : List ℕ) (i : ℕ)
    → ¬ Above i (leaf t k)
    → ¬ Pending t.size ks i
    → 0 < count j (k ∷ ks)
    → ¬ Above i (leaf t j)
not-Pending t k j ks i off out h a = elim (Bool-cases (j == k)) [
  | inl b ↦ let e : j ≡ k = ground arith in off (subst (λ z. Above i (leaf t z)) e a)
  | inr b ↦ out (pending j (ground arith) a)
]

module _ (less : ℕ → ℕ → Bool) where
  step_all-Deactivated :
      (Q : ℕ → Type 0) (ks : List ℕ) (t : WinnerTree)
      → HaveSlots ks t.num_slots
      → ((i k : ℕ) → 0 < count k ks → Above i (t.size / 2 + k) → Q i)
      → IsValidBut less Q t
      → Deactivated less Q ks t (step_all ks t)
  unfolding step_all
  step_all-Deactivated Q [] t inside above v = record {
    rest = t;
    returns = refl;
    valid = v;
    same_slots = refl;
    same_size = refl;
    players = λ k h. none_gone (active t k);
  }
  step_all-Deactivated Q (k ∷ ks) t inside above v =
      let l = inside k (count-head k ks) in
      let (t1, e, st) = deactivate_player_step-Stepped k t v.shape l in
      let num_slots = st.num_slots in
      let v1 = Stepped-IsValidBut less Q k t t1 l st (λ i a. above i k (count-head k ks) a) v in
      let d =
        step_all-Deactivated Q ks t1 (λ j h. omega (arith, inside j (count-tail j k ks h)))
          (λ i j h a. above i j (count-tail j k ks h) (subst (λ z. Above i (z / 2 + j)) st.size a))
          v1 in
      record {
        rest = d.rest;
        returns = rw e d.returns;
        valid = d.valid;
        same_slots = d.same_slots ∙ st.num_slots;
        same_size = d.same_size ∙ st.size;
        players = λ j h.
            none_left k j ks (active t j) (active t1 j) (active d.rest j)
              (Stepped-active k t t1 v.shape st l j h) (d.players j (omega arith));
      }

  replay_all-Deactivated :
      (ks : List ℕ) (t : WinnerTree)
      → HaveSlots ks t.num_slots
      → IsValidBut less (Pending t.size ks) t
      → Deactivated less Nowhere ks t (replay_all less ks t)
  unfolding replay_all
  replay_all-Deactivated [] t inside v = record {
    rest = t;
    returns = refl;
    valid = record {
      shape = v.shape;
      games = λ i inner out.
          v.games i inner (λ p. elim p [ pending k h a ↦ absurd (omega (arith, h)) ]);
    };
    same_slots = refl;
    same_size = refl;
    players = λ k h. none_gone (active t k);
  }
  replay_all-Deactivated (k ∷ ks) t inside v =
      let l = inside k (count-head k ks) in
      let c = replay_path less (Pending t.size ks) t v.shape k l true (λ i inner off out.
        v.games i inner (λ p. elim p [ pending j h a ↦ not-Pending t k j ks i off out h a ])) in
      let num_slots = c.same_slots in
      let v1 = subst (λ z. IsValidBut less (Pending z ks) c.rest) (sym c.same_size) c.valid in
      let d =
        replay_all-Deactivated ks c.rest (λ j h. omega (arith, inside j (count-tail j k ks h)))
          v1 in
      record {
        rest = d.rest;
        returns = rw c.returns d.returns;
        valid = d.valid;
        same_slots = d.same_slots ∙ c.same_slots;
        same_size = d.same_size ∙ c.same_size;
        players = λ j h.
            none_left k j ks (active t j) (active c.rest j) (active d.rest j) (c.players j h)
              (d.players j (omega arith));
      }

  -- Players that have slots leave a valid tree at once, each any number of times in the list: a step for
  -- each of them and then a replay for each give a valid tree, in which they are not active, and
  -- the others as before.
  pub deactivate_all-Deactivated :
      (ks : List ℕ) (t : WinnerTree)
      → HaveSlots ks t.num_slots
      → IsValid less t
      → Deactivated less Nowhere ks t (deactivate_all less ks t)
  unfolding deactivate_all
  deactivate_all-Deactivated ks t inside v =
      let d =
        step_all-Deactivated (Pending t.size ks) ks t inside (λ i k h a. pending k h a)
          (record { shape = v.shape; games = λ i inner out. game v i inner }) in
      let num_slots = d.same_slots in
      let v1 = subst (λ z. IsValidBut less (Pending z ks) d.rest) (sym d.same_size) d.valid in
      let r = replay_all-Deactivated ks d.rest (λ j h. omega (arith, inside j h)) v1 in
      record {
        rest = r.rest;
        returns = rw d.returns r.returns;
        valid = r.valid;
        same_slots = r.same_slots ∙ d.same_slots;
        same_size = r.same_size ∙ d.same_size;
        players = λ k h.
            r.players k (omega arith)
            ∙ ap (λ z. z && (count k ks == 0)) (d.players k h)
            ∙ twice (active t k) (count k ks == 0);
      }
