-- ===== src/Containers/Vector/Represents.antt =====
-- A vector that stands for an array, after calls of the one and of the other.
use mathlib.Core.Option.{some-injective}
use stxxl.Prelude.{
  ℕ, ◌==◌, ◌≡◌, ◌≢◌, ◌<◌, refl, ap, ◌∙◌, sym, subst, arith, Bool-cases, inl, inr, ltb, Option, none,
  some, if◌then◌else◌, ◌>>=◌, put,
}
use stxxl.Containers.Pager.Policy.{Policy}
use stxxl.Containers.Vector.{Vector}
use stxxl.Containers.Vector.Cells.{Holds}
use stxxl.Containers.Vector.Valid.{IsValid, Keeps}
use stxxl.Containers.Vector.Access.{Keeps-Holds, Reads}
use stxxl.Containers.Vector.Sizes.{Sized}
use stxxl.Containers.Vector.Calls.{Array, cut}
use stxxl.Containers.Vector.Resizing.{clear}

module _ {ℓ} {G : Type 0} {A : Type ℓ} (policy : Policy G) (Valid : G → Type 0) (ps bs : ℕ) where
  -- The vector has the size of the array, and its known elements.
  pub record Represents (v : Vector G A) (a : Array A) : Type ℓ where
    pub valid : IsValid policy Valid ps bs v
    pub size : v.size ≡ a.size
    pub elements : (i : ℕ) (y : A) → a.known i ≡ some y → Holds ps bs v i y

  -- A result that agrees with the answer.
  pub record Answers (expected : Option A) (a : Array A) (result : Option (Option A × Vector G A))
      : Type ℓ where
    pub value : Option A
    pub next : Vector G A
    pub returns : result ≡ some (value, next)
    pub agrees : (y : A) → expected ≡ some y → value ≡ some y
    pub represents : Represents next a

  pub no_some : (y : A) → (let r : Option A = none in r) ≢ some y
  no_some y e = ground arith

  pub no_answer : (y : A) (r : Option A) → none ≡ some y → r ≡ some y
  no_answer y r e = absurd (ground arith)

  module _ (hp : 0 < ps) (hs : 0 < bs) where
    pub Keeps-Represents :
        (v next : Vector G A) (a : Array A)
        → Keeps policy Valid ps bs v next
        → Represents v a
        → Represents next a
    Keeps-Represents v next a k r = record {
      valid = k.valid;
      size = k.size ∙ r.size;
      elements = λ i y e. Keeps-Holds policy Valid ps bs v next i y k hp hs (r.elements i y e);
    }

    pub cut-some :
        (n i : ℕ) (f : ℕ → Option A) (y : A) → cut n f i ≡ some y → (i < n) × (f i ≡ some y)
    cut-some n i f y e = elim (Bool-cases (ltb i n)) [
      | inl t ↦
          (ground arith, let b : (if ltb i n then f i else none) ≡ f i = rw t refl in sym b ∙ e)
      | inr t ↦
          absurd
            (let b : (if ltb i n then f i else none) ≡ none = rw t refl in no_some y (sym b ∙ e))
    ]

    pub Sized-Represents :
        (v next : Vector G A) (a : Array A) (n : ℕ)
        → Sized policy Valid ps bs v n next
        → Represents v a
        → Represents next (record { size = n; known = cut n a.known })
    Sized-Represents v next a n z r = record {
      valid = z.valid;
      size = z.size;
      elements = λ i y e. let (l, f) = cut-some n i a.known y e in z.kept i y l (r.elements i y f);
    }

    pub Reads-Answers :
        (v : Vector G A) (a : Array A) (i : ℕ) (result : Option (A × Vector G A))
        → Reads policy Valid ps bs v i result
        → Represents v a
        → Answers (a.known i) a (result >>= (λ q. some (some q.0, q.1)))
    Reads-Answers v a i result o r = record {
      value = some o.value;
      next = o.next;
      returns = rw o.returns refl;
      agrees = λ y e. ap some (o.reads y (r.elements i y e));
      represents = Keeps-Represents v o.next a o.keeps r;
    }

    pub cleared : (v : Vector G A) → (clear policy ps bs v).size ≡ 0
    unfolding clear
    cleared v = refl

    pub quiet :
        (a : Array A) (next : Vector G A) → Represents next a → Answers none a (some (none, next))
    quiet a next r = record {
      value = none;
      next = next;
      returns = refl;
      agrees = λ y e. no_answer y none e;
      represents = r;
    }

    pub written :
        (a : Array A) (next : Vector G A) (size i : ℕ) (x : A) (f : ℕ → Option A)
        → IsValid policy Valid ps bs next
        → next.size ≡ size
        → Holds ps bs next i x
        → ((j : ℕ) (y : A) → j ≢ i → f j ≡ some y → Holds ps bs next j y)
        → Represents next (record { size = size; known = put i (some x) f })
    written a next size i x f valid e own kept = record {
      valid = valid;
      size = e;
      elements = λ j y k. elim (Bool-cases (j == i)) [
        | inl t ↦
            let at : i ≡ j = ground arith in
            let b : put i (some x) f j ≡ some x = rw t refl in
            let same_value : x ≡ y = some-injective _ _ (sym b ∙ k) in
            subst (λ z. Holds ps bs next z y) at (subst (Holds ps bs next i) same_value own)
        | inr t ↦
            let b : put i (some x) f j ≡ f j = rw t refl in kept j y (ground arith) (sym b ∙ k)
      ];
    }
