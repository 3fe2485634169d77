-- ===== src/Containers/Vector/Run.antt =====
-- Sequences of calls of a vector give what they give of an array.
use stxxl.Prelude.{
  ℕ, ◌+◌, ◌-◌, ◌*◌, ◌≡◌, ◌<◌, refl, ap, ◌∙◌, subst, arith, true, Option, none, some, List, [], ◌∷◌,
}
use stxxl.Containers.NormalStack.{Block}
use stxxl.Containers.Pager.Policy.{Policy, IsPolicy}
use stxxl.Containers.Vector.{Vector}
use stxxl.Containers.Vector.Cells.{Holds}
use stxxl.Containers.Vector.Valid.{IsValid}
use stxxl.Containers.Vector.Access.{read-Reads}
use stxxl.Containers.Vector.Write.{read_mutable-Reads, write-Writes}
use stxxl.Containers.Vector.Sizes.{reserve-Reserved, Sized, resize-Sized}
use stxxl.Containers.Vector.Ends.{clear-IsValid, push_back-Pushed, pop_back-Sized}
use stxxl.Containers.Vector.Flush.{flush-Flushed, renew_cache-Keeps}
use stxxl.Containers.Vector.Calls.{
  Call, const_read_at, read_at, write_at, push, pop, resize_to, reserve_for, clear_all, flush_all,
  renew, Array, allowed, cut, effect, answer, all_allowed, answers, Agrees, unknown, same, call,
  run, end,
}
use stxxl.Containers.Vector.Resizing.{clear, reserve, resize, pop_back}
use stxxl.Containers.Vector.Flushing.{flush, renew_cache}
use stxxl.Containers.Vector.Represents.{
  Represents, Answers, no_answer, no_some, Keeps-Represents, Sized-Represents, Reads-Answers, quiet,
  written, cut-some, cleared,
}

module _ {ℓ} {G : Type 0} {A : Type ℓ} (policy : Policy G) (Valid : G → Type 0) (ps bs : ℕ) where
  module _ (hp : 0 < ps) (hs : 0 < bs) (laws : IsPolicy policy Valid) (fresh : ℕ → Block A) where
    call-Answers :
        (c : Call A) (v : Vector G A) (a : Array A)
        → allowed c a ≡ true
        → Represents policy Valid ps bs v a
        → Answers policy Valid ps bs (answer c a) (effect c a) (call policy ps bs fresh c v)
    unfolding allowed answer effect call
    call-Answers (const_read_at i) v a ok r =
        let l : i < v.n_bids * bs = ground (arith, r.size, r.valid.capacity) in
        Reads-Answers policy Valid ps bs hp hs v a i _
          (read-Reads policy Valid ps bs laws hp hs v i r.valid l) r
    call-Answers (read_at i) v a ok r =
        let l : i < v.n_bids * bs = ground (arith, r.size, r.valid.capacity) in
        Reads-Answers policy Valid ps bs hp hs v a i _
          (read_mutable-Reads policy Valid ps bs laws hp hs v i r.valid l) r
    call-Answers (write_at i x) v a ok r =
        let l : i < v.n_bids * bs = ground (arith, r.size, r.valid.capacity) in
        let o = write-Writes policy Valid ps bs laws hp hs v i x r.valid l in
        record {
          value = none;
          next = o.next;
          returns = rw o.returns refl;
          agrees = λ y e. no_answer policy Valid ps bs y none e;
          represents =
              written policy Valid ps bs hp hs a o.next a.size i x a.known o.valid (o.size ∙ r.size)
                o.own (λ j y ne k. o.kept j y ne (r.elements j y k));
        }
    call-Answers (push x) v a ok r =
        let o = push_back-Pushed policy Valid ps bs hp hs fresh laws v x r.valid in
        record {
          value = none;
          next = o.next;
          returns = rw o.returns refl;
          agrees = λ y e. no_answer policy Valid ps bs y none e;
          represents =
              written policy Valid ps bs hp hs a o.next (a.size + 1) a.size x (cut a.size a.known)
                o.valid (o.size ∙ ap (λ z. z + 1) r.size)
                (subst (λ z. Holds ps bs o.next z x) r.size o.last)
                (λ j y ne k.
                  let (l, f) = cut-some policy Valid ps bs hp hs a.size j a.known y k in
                  o.kept j y (omega (arith, r.size)) (r.elements j y f));
        }
    call-Answers pop v a ok r =
        let z =
          pop_back-Sized policy Valid ps bs hp hs fresh v r.valid (ground (arith, r.size))
            (ground (arith, r.size)) in
        quiet policy Valid ps bs hp hs
          (record { size = a.size - 1; known = cut (a.size - 1) a.known })
          (pop_back policy ps bs fresh v)
          (Sized-Represents policy Valid ps bs hp hs v (pop_back policy ps bs fresh v) a
            (a.size - 1)
            (subst (λ n. Sized policy Valid ps bs v (n - 1) (pop_back policy ps bs fresh v)) r.size
              z)
            r)
    call-Answers (resize_to n) v a ok r =
        quiet policy Valid ps bs hp hs (record { size = n; known = cut n a.known })
          (resize policy ps bs fresh n v)
          (Sized-Represents policy Valid ps bs hp hs v (resize policy ps bs fresh n v) a n
            (resize-Sized policy Valid ps bs hp hs fresh n v r.valid) r)
    call-Answers (reserve_for n) v a ok r =
        let z = reserve-Reserved policy Valid ps bs hp hs fresh n v r.valid in
        quiet policy Valid ps bs hp hs a (reserve policy ps bs fresh n v) (record {
          valid = z.valid;
          size = z.size ∙ r.size;
          elements = λ i y e. z.kept i y (r.elements i y e);
        })
    call-Answers clear_all v a ok r =
        quiet policy Valid ps bs hp hs (record { size = 0; known = λ i. none })
          (clear policy ps bs v)
          (record {
            valid = clear-IsValid policy Valid ps bs v hp r.valid;
            size = cleared policy Valid ps bs hp hs v;
            elements = λ i y e. absurd (no_some policy Valid ps bs y e);
          })
    call-Answers flush_all v a ok r = quiet policy Valid ps bs hp hs a (flush policy ps bs v) (
        Keeps-Represents policy Valid ps bs hp hs v (flush policy ps bs v) a
          (flush-Flushed policy Valid ps bs v hp hs r.valid).keeps r)
    call-Answers (renew cache) v a ok r =
        quiet policy Valid ps bs hp hs a (renew_cache policy ps bs cache v) (
          Keeps-Represents policy Valid ps bs hp hs v (renew_cache policy ps bs cache v) a
            (renew_cache-Keeps policy Valid ps bs cache v hp hs r.valid) r)

    -- The results of the calls, and the vector after them.
    pub record Ran (expected : List (Option A)) (v : Vector G A) (calls : List (Call A))
        : Type ℓ where
      pub results : List (Option A)
      pub next : Vector G A
      pub returns : run policy ps bs fresh calls v ≡ some (results, next)
      pub agrees : Agrees expected results
      pub valid : IsValid policy Valid ps bs next

    agree :
        (o r : Option A) (s t : List (Option A))
        → ((y : A) → o ≡ some y → r ≡ some y)
        → Agrees s t
        → Agrees (o ∷ s) (r ∷ t)
    agree none r s t h rest = unknown r rest
    agree (some x) r s t h rest = same x r (h x refl) rest

    -- From a valid vector that has the size and the known elements of an array, calls in any
    -- sequence, where each is allowed for the array at that point, all succeed, and each read gives
    -- the element that the array has, where that is known. The vector is valid at the end. The
    -- pager keeps its laws, and blocks and pages are not empty.
    pub run-Ran :
        (calls : List (Call A)) (v : Vector G A) (a : Array A)
        → all_allowed calls a ≡ true
        → Represents policy Valid ps bs v a
        → Ran (answers calls a) v calls
    unfolding all_allowed answers run
    run-Ran [] v a ok r = record {
      results = [];
      next = v;
      returns = refl;
      agrees = end;
      valid = r.valid;
    }
    run-Ran (c ∷ calls) v a ok r =
        let now = call-Answers c v a (ground arith) r in
        let rest = run-Ran calls now.next (effect c a) (ground arith) now.represents in
        record {
          results = now.value ∷ rest.results;
          next = rest.next;
          returns = rw (now.returns, rest.returns) refl;
          agrees = agree (answer c a) now.value _ _ now.agrees rest.agrees;
          valid = rest.valid;
        }
