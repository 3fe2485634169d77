-- ===== src/Containers/Vector/Ends.antt =====
-- The constructor of a vector, `clear`, `push_back` and `pop_back`.
use stxxl.Prelude.{ℕ, ◌+◌, ◌-◌, ◌%◌, ◌^◌, ◌≡◌, ◌<◌, ◌∙◌, arith, some, Option}
use stxxl.Containers.NormalStack.{Block}
use stxxl.Containers.Pager.Policy.{Policy, IsPolicy}
use stxxl.Containers.Vector.{Vector, div_ceil}
use stxxl.Containers.Vector.Resizing.{resize, clear, new_vector, push_back, pop_back}
use stxxl.Containers.Vector.Index.{div_ceil_bounds}
use stxxl.Containers.Vector.Mapping.{iota-IsMapped}
use stxxl.Containers.Vector.Cells.{Holds}
use stxxl.Containers.Vector.Valid.{IsValid}
use stxxl.Containers.Vector.Write.{write-Writes}
use stxxl.Containers.Vector.Sizes.{Sized, resize-Sized}

module _ {ℓ} {G : Type 0} {A : Type ℓ} (policy : Policy G) (Valid : G → Type 0) (ps bs : ℕ) where
  -- The element `x` is at the end, after all others.
  pub record Pushed (v : Vector G A) (x : A) (result : Option (Vector G A)) : Type ℓ where
    pub next : Vector G A
    pub returns : result ≡ some next
    pub valid : IsValid policy Valid ps bs next
    pub size : next.size ≡ v.size + 1
    pub last : Holds ps bs next v.size x
    pub kept : (i : ℕ) (y : A) → i < v.size → Holds ps bs v i y → Holds ps bs next i y

  -- A vector without elements is valid after `clear`.
  pub clear-IsValid :
      (v : Vector G A)
      → 0 < ps
      → IsValid policy Valid ps bs v
      → IsValid policy Valid ps bs (clear policy ps bs v)
  unfolding clear
  clear-IsValid v hp w = record {
    mapped = iota-IsMapped (policy.slots v.pager) 0 v.slot_to_page;
    pager = w.pager;
    some_slot = w.some_slot;
    blocks = omega arith;
    pages = omega arith;
    capacity = omega arith;
  }

  module _ (hp : 0 < ps) (hs : 0 < bs) (fresh : ℕ → Block A) where
    -- A new vector of any size is valid, with a pager that has a slot.
    pub new_vector-IsValid :
        (cache : ℕ → Block A) (to_page : ℕ → ℕ) (g : G) (n : ℕ)
        → Valid g
        → 0 < policy.slots g
        → IsValid policy Valid ps bs (new_vector policy ps bs fresh cache to_page g n)
    unfolding new_vector
    new_vector-IsValid cache to_page g n ok some_slot =
        let (up, _) = div_ceil_bounds n bs hs in
        let (up1, near1) = div_ceil_bounds (div_ceil n bs) ps hp in
        record {
          mapped = iota-IsMapped (policy.slots g) (div_ceil (div_ceil n bs) ps) to_page;
          pager = ok;
          some_slot = some_slot;
          blocks = up1;
          pages = near1;
          capacity = up;
        }

    -- An element that is pushed to a valid vector is its last, after all that were there, and the vector
    -- stays valid.
    pub push_back-Pushed :
        IsPolicy policy Valid
        → (v : Vector G A) (x : A) → IsValid policy Valid ps bs v
        → Pushed v x (push_back policy ps bs fresh x v)
    unfolding push_back
    push_back-Pushed laws v x w =
        let longer = resize policy ps bs fresh (v.size + 1) v in
        let r = resize-Sized policy Valid ps bs hp hs fresh (v.size + 1) v w in
        let o =
          write-Writes policy Valid ps bs laws hp hs longer v.size x r.valid
            (omega (arith, r.size, r.valid.capacity)) in
        record {
          next = o.next;
          returns = o.returns;
          valid = o.valid;
          size = o.size ∙ r.size;
          last = o.own;
          kept = λ i y h k. o.kept i y (omega arith) (r.kept i y (omega arith) k);
        }

    -- Where a vector has an element, `pop_back` takes the last one off, and keeps the others.
    pub pop_back-Sized :
        (v : Vector G A)
        → IsValid policy Valid ps bs v
        → 0 < v.size
        → v.size < 2 ^ 64
        → Sized policy Valid ps bs v (v.size - 1) (pop_back policy ps bs fresh v)
    unfolding pop_back
    pop_back-Sized v w some_element small =
        let e : (v.size + 2 ^ 64 - 1) % 2 ^ 64 ≡ v.size - 1 = omega arith in
        rw e (resize-Sized policy Valid ps bs hp hs fresh (v.size - 1) v w)
