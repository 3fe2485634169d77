-- ===== src/Containers/Vector/Fetch.antt =====
-- The way of a page into the cache: `fetch`.
use stxxl.Prelude.{
  ℕ, ◌≡◌, ◌<◌, refl, ap, ◌∙◌, arith, ltb, true, inl, inr, Option, none, some, List, [], ◌∷◌,
  Option-cases, count,
}
use stxxl.Containers.Pager.Policy.{Policy, IsPolicy}
use stxxl.Containers.Vector.{Vector, replace, occupy, with_pager, load, fetch}
use stxxl.Containers.Vector.Valid.{IsValid, Keeps, Keeps-trans, with_pager-Keeps}
use stxxl.Containers.Vector.Occupy.{occupy-Keeps}
use stxxl.Containers.Vector.Replace.{replace-Keeps}

module _ {ℓ} {G : Type 0} {A : Type ℓ} (policy : Policy G) (Valid : G → Type 0) (ps bs : ℕ) where
  -- The page is in a slot, with all elements as before.
  pub record Fetched (page : ℕ) (v : Vector G A) (result : Option (ℕ × Vector G A)) : Type ℓ where
    pub slot : ℕ
    pub next : Vector G A
    pub returns : result ≡ some (slot, next)
    pub keeps : Keeps policy Valid ps bs v next
    pub at : next.page_to_slot page ≡ some slot

  module _ (laws : IsPolicy policy Valid) where
    load-Fetched :
        (page : ℕ) (v : Vector G A)
        → IsValid policy Valid ps bs v
        → page < v.n_pages
        → v.page_to_slot page ≡ none
        → (free : List ℕ) → v.free_slots ≡ free
        → Fetched page v (load policy ps bs page free v)
    unfolding load
    load-Fetched page v w l out [] e =
        let (s, g, kicked, inside_slot, ok, same) = laws.kicks v.pager w.pager w.some_slot in
        let (g', hit, ok', same') = laws.hits s g ok (omega (arith, same)) in
        let k = with_pager-Keeps policy Valid ps bs v g' w ok' (same' ∙ same) in
        let (keeps, at) =
          replace-Keeps policy Valid ps bs (with_pager policy ps bs v g') k.valid page l out s e
            (omega (arith, same, same')) in
        record {
          slot = s;
          next = replace policy ps bs page s (with_pager policy ps bs v g');
          returns = rw (kicked, hit) refl;
          keeps =
              Keeps-trans policy Valid ps bs v (with_pager policy ps bs v g')
                (replace policy ps bs page s (with_pager policy ps bs v g')) k keeps;
          at = at;
        }
    load-Fetched page v w l out (slot ∷ rest) e =
        let inside_slot : slot < policy.slots v.pager =
          ground (arith, w.mapped.once slot, ap (count slot) e) in
        let (g, hit, ok, same) = laws.hits slot v.pager w.pager inside_slot in
        let k = with_pager-Keeps policy Valid ps bs v g w ok same in
        let (keeps, at) =
          occupy-Keeps policy Valid ps bs (with_pager policy ps bs v g) k.valid page l out slot rest
            e in
        record {
          slot = slot;
          next = occupy policy ps bs page slot rest (with_pager policy ps bs v g);
          returns = rw hit refl;
          keeps =
              Keeps-trans policy Valid ps bs v (with_pager policy ps bs v g)
                (occupy policy ps bs page slot rest (with_pager policy ps bs v g)) k keeps;
          at = at;
        }

    -- A page of a valid vector, below the number of its pages, comes into a slot of the cache,
    -- whatever page has to give way for it: the vector stays valid, its sizes stay, and so does
    -- each of its elements. The pager keeps its laws.
    pub fetch-Fetched :
        (page : ℕ) (v : Vector G A)
        → IsValid policy Valid ps bs v
        → page < v.n_pages
        → Fetched page v (fetch policy ps bs page v)
    unfolding fetch
    fetch-Fetched page v w l =
        let b : ltb page v.n_pages ≡ true = ground arith in
        elim (Option-cases (v.page_to_slot page)) [
          | inl out ↦ rw (b, out) (load-Fetched page v w l out v.free_slots refl)
          | inr (slot, at) ↦
              let (_, inside_slot, _, _) = w.mapped.cached page slot at in
              let (g, hit, ok, same) = laws.hits slot v.pager w.pager inside_slot in
              record {
                slot = slot;
                next = with_pager policy ps bs v g;
                returns = rw (b, at, hit) refl;
                keeps = with_pager-Keeps policy Valid ps bs v g w ok same;
                at = at;
              }
        ]
