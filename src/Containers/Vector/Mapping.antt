-- ===== src/Containers/Vector/Mapping.antt =====
-- The pages and the slots of a vector: each slot is free, or holds the page that has it.
use stxxl.Prelude.{
  ℕ, ◌+◌, ◌==◌, ◌≡◌, ◌≢◌, ◌<◌, ◌≤◌, ap, ◌∙◌, sym, subst, arith, ltb, Bool-cases, inl, inr,
  if◌then◌else◌, List, [], ◌∷◌, ◌++◌, Option, none, some, count, iota, count-iota, put,
}

pub record IsMapped (slots pages : ℕ) (to_slot : ℕ → Option ℕ) (to_page : ℕ → ℕ) (free : List ℕ)
    : Type 0 where
  pub cached :
      (p s : ℕ)
      → to_slot p ≡ some s
      → (p < pages) × (s < slots) × (to_page s ≡ p) × (count s free ≡ 0)
  pub taken : (s : ℕ) → s < slots → count s free ≡ 0 → to_slot (to_page s) ≡ some s
  pub once : (s : ℕ) → count s free ≤ (if ltb s slots then 1 else 0)

some-inj : (a b : ℕ) → some a ≡ some b → a ≡ b
some-inj a b e = ground arith

pub count-snoc :
    (p q : ℕ) (l : List ℕ) → count p (l ++ (q ∷ [])) ≡ count p l + (if q == p then 1 else 0)
count-snoc p q [] = ground arith
count-snoc p q (r ∷ l) = ground (arith, count-snoc p q l)

module _ {slots pages : ℕ} {to_slot : ℕ → Option ℕ} {to_page : ℕ → ℕ} {free : List ℕ}
    (m : IsMapped slots pages to_slot to_page free) where
  -- Two pages do not share a slot.
  pub same_page : (p q s : ℕ) → to_slot p ≡ some s → to_slot q ≡ some s → p ≡ q
  same_page p q s e f = sym ((m.cached p s e).2) ∙ (m.cached q s f).2

  -- A page that has no slot gets one that is free.
  pub IsMapped-occupy :
      (page slot : ℕ) (rest : List ℕ)
      → free ≡ slot ∷ rest
      → page < pages
      → to_slot page ≡ none
      → IsMapped slots pages (put page (some slot) to_slot) (put slot page to_page) rest
  IsMapped-occupy page slot rest e l out =
      let one = m.once slot in
      let f : count slot rest ≡ 0 = ground (arith, m.once slot, e) in
      let inside : slot < slots = ground (arith, m.once slot, e) in
      record {
        cached = λ p s h. elim (Bool-cases (p == page)) [
          | inl t ↦
              let p_page : p ≡ page = ground arith in
              let s_slot : slot ≡ s = ground arith in
              (omega arith, omega arith, ground arith, subst (λ z. count z rest ≡ 0) s_slot f)
          | inr t ↦
              let h' : to_slot p ≡ some s = ground arith in
              let (a, b, c, d) = m.cached p s h' in (a, b, ground (arith, e), ground (arith, e))
        ];
        taken = λ s b h. elim (Bool-cases (s == slot)) [
          | inl t ↦ ground arith
          | inr t ↦ let old = m.taken s b (ground (arith, e)) in ground arith
        ];
        once = λ s. ground (arith, m.once s, e);
      }

  -- Where no slot is free, the page takes the slot of another.
  pub IsMapped-replace :
      (page slot : ℕ)
      → free ≡ []
      → page < pages
      → slot < slots
      → to_slot page ≡ none
      → IsMapped slots pages
          (put (to_page slot) none (put page (some slot) to_slot))
          (put slot page to_page)
          free
  IsMapped-replace page slot e l inside out =
      let old = to_page slot in
      let held = m.taken slot inside (ground (arith, e)) in
      let ne : page ≢ old = λ f. ground (arith, ap to_slot f) in
      record {
        cached = λ p s h. elim (Bool-cases (p == old)) [
          | inl t ↦ absurd (ground arith)
          | inr t ↦ elim (Bool-cases (p == page)) [
            | inl u ↦
                let s_slot : slot ≡ s = ground arith in
                (ground arith, omega arith, ground arith, ground (arith, e))
            | inr u ↦
                let h' : to_slot p ≡ some s = ground arith in
                let (a, b, c, d) = m.cached p s h' in
                let other : s ≢ slot = λ f. ground (arith, ap to_page f) in (a, b, ground arith, d)
          ]
        ];
        taken = λ s b h. elim (Bool-cases (s == slot)) [
          | inl t ↦ ground arith
          | inr t ↦
              let own = m.taken s b h in
              let not_old : to_page s ≢ old = λ f. ground (arith, ap to_slot f) in
              let not_page : to_page s ≢ page = λ f. ground (arith, ap to_slot f) in ground arith
        ];
        once = m.once;
      }

  -- A page gives its slot back.
  pub IsMapped-evict :
      (page slot : ℕ)
      → to_slot page ≡ some slot
      → IsMapped slots pages (put page none to_slot) to_page (free ++ (slot ∷ []))
  IsMapped-evict page slot e =
      let (l, inside, back, used) = m.cached page slot e in
      record {
        cached = λ p s h.
            let ne : p ≢ page = ground arith in
            let h' : to_slot p ≡ some s = ground arith in
            let (a, b, c, d) = m.cached p s h' in
            let other : s ≢ slot = λ f. ground (arith, ap to_page f) in
            (a, b, c, ground (arith, count-snoc s slot free));
        taken = λ s b h.
            let h' : count s free ≡ 0 = ground (arith, count-snoc s slot free) in
            let other : s ≢ slot = ground (arith, count-snoc s slot free) in
            let own = m.taken s b h' in
            let not_page : to_page s ≢ page = λ f. ground (arith, ap to_slot f) in ground arith;
        once = λ s. ground (arith, m.once s, count-snoc s slot free);
      }

  -- New pages have no slots.
  pub IsMapped-grow :
      (more : ℕ)
      → pages ≤ more
      → IsMapped slots more (λ p. if ltb p pages then to_slot p else none) to_page free
  IsMapped-grow more h = record {
    cached = λ p s e.
        let e' : to_slot p ≡ some s = ground arith in
        let (a, b, c, d) = m.cached p s e' in (omega arith, b, c, d);
    taken = λ s b e.
        let own = m.taken s b e in let (a, _, _, _) = m.cached (to_page s) s own in ground arith;
    once = m.once;
  }

-- All slots are free.
pub iota-IsMapped :
    (slots pages : ℕ) (to_page : ℕ → ℕ) → IsMapped slots pages (λ p. none) to_page (iota 0 slots)
iota-IsMapped slots pages to_page = record {
  cached = λ p s e. absurd (ground arith);
  taken = λ s b h. absurd (ground (arith, count-iota s 0 slots));
  once = λ s. ground (arith, count-iota s 0 slots);
}
