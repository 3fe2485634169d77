-- ===== src/Mng/Allocator/Adding.antt =====
-- What `add_free_region` does to the map: lib/mng/disk_allocator.cpp.
use stxxl.Prelude.{
  ℕ, suc, ◌+◌, ◌≤◌, ◌<◌, ◌≡◌, refl, false, [], ◌∷◌, none, some, ltb, length, arith, inl, inr,
  Bool-cases, Option-cases,
}
use stxxl.Mng.Allocator.FreeMap.{
  Place, FreeMap, Iter, stands_at, upper_bound, before, decrement, erase, insert,
}
use stxxl.Mng.Allocator.Region.{
  double_deallocation, out_of_memory, assertion, AddResult, added, refused, join_pred, coalesce,
  add_at, add_region, IsGapped, Added,
}
use stxxl.Mng.Allocator.Joining.{
  insert-second, erase-second, Added-first, Added-last, Added-between,
}

-- The entries before the predecessor stay.
abbrev cons_added : Place → AddResult → AddResult
cons_added e (added m) = added (e ∷ m)
cons_added e (refused x) = refused x

upper_bound-gt :
    (k : ℕ) (m : FreeMap) (s : Place) → upper_bound k m ≡ some s → (k < s.first) × (0 < length m)
unfolding upper_bound
upper_bound-gt k [] s h = absurd (ground arith)
upper_bound-gt k (e ∷ m) s h = ground (arith, upper_bound-gt k m s)

upper_bound-past :
    (k : ℕ) (e : Place) (m : FreeMap) → e.first ≤ k → stands_at (upper_bound k m) e ≡ false
upper_bound-past k e m h = elim (Option-cases (upper_bound k m)) [
  | inl n ↦ rw n
  | inr (s, u) ↦ rw u (ground (arith, upper_bound-gt k m s u))
]

before-upper_bound :
    (k lo : ℕ) (f : Place) (m : FreeMap)
    → f.first < lo
    → IsGapped lo m
    → f.first ≤ k
    → (p : Place) × (before f m (upper_bound k m) ≡ some p) × (f.first ≤ p.first) × (p.first ≤ k)
unfolding before upper_bound
before-upper_bound k lo f [] l g h = (f, refl, omega arith, h)
before-upper_bound k lo f (e ∷ m) l g h = elim (Bool-cases (ltb k e.first)) [
  | inl t ↦ (f, rw t (ground arith), omega arith, h)
  | inr t ↦
      let (p, a, b, c) =
        before-upper_bound k (suc (e.first + e.second)) e m (omega arith) g.2 (ground arith) in
      (p, rw (t, upper_bound-past k e m (ground arith)) a, omega arith, c)
]

add_at-skip :
    (e f p : Place) (it : Iter) (r : Place) (m : FreeMap)
    → e.first < f.first
    → e.first < p.first
    → p.first ≤ r.first
    → 0 < r.second
    → ((s : Place) → it ≡ some s → (r.first < s.first) × (0 < length m))
    → f.first ≤ r.first
    → add_at (some p) it r (e ∷ f ∷ m) ≡ cons_added e (add_at (some p) it r (f ∷ m))
unfolding add_at coalesce join_pred
add_at-skip e f p none r m h1 h2 h3 h4 h5 h6 = ground (
  arith,
  erase-second p.first e (f ∷ m) h2,
  insert-second (record { first = p.first; second = r.second + p.second }) e (erase p.first (f ∷ m))
      h2,
  insert-second r e (f ∷ m),
)
add_at-skip e f p (some s) r m h1 h2 h3 h4 h5 h6 =
    let after = h5 s refl in
    let q : Place = record { first = r.first; second = r.second + s.second } in
    let m' = erase s.first (f ∷ m) in
    ground (
      arith,
      after,
      erase-second s.first e (f ∷ m),
      erase-second p.first e (f ∷ m) h2,
      erase-second p.first e m' h2,
      insert-second r e (f ∷ m),
      insert-second q e m',
      insert-second (record { first = p.first; second = r.second + p.second }) e
          (erase p.first (f ∷ m)) h2,
      insert-second (record { first = p.first; second = r.second + s.second + p.second }) e
          (erase p.first m') h2,
    )

upper_bound-skip :
    (k : ℕ) (e : Place) (m : FreeMap) → e.first ≤ k → upper_bound k (e ∷ m) ≡ upper_bound k m
unfolding upper_bound
upper_bound-skip k e m h = ground arith

before-past :
    (e f : Place) (m : FreeMap) (it : Iter)
    → stands_at it f ≡ false
    → before e (f ∷ m) it ≡ before f m it
unfolding before
before-past e f m it h = rw h

add_region-skip :
    (lo : ℕ) (r e f : Place) (m : FreeMap)
    → 0 < r.second
    → IsGapped lo (e ∷ f ∷ m)
    → f.first ≤ r.first
    → add_region r (e ∷ f ∷ m) ≡ cons_added e (add_region r (f ∷ m))
unfolding add_region decrement
add_region-skip lo r e f m h g q =
    let (p, found, low, high) =
      before-upper_bound r.first (suc (f.first + f.second)) f m (omega arith) (g.2.2) q in
    rw
      (
        upper_bound-skip r.first e (f ∷ m) (omega arith),
        upper_bound-skip r.first f m q,
        upper_bound-past r.first e m (omega arith),
        upper_bound-past r.first f m q,
        before-past e f m (upper_bound r.first m) (upper_bound-past r.first f m q),
        found,
      )
      (add_at-skip e f p (upper_bound r.first m) r m (omega arith) (omega arith) high h
        (λ s u. upper_bound-gt r.first m s u) q)

Added-cons :
    (lo : ℕ) (r e : Place) (m : FreeMap) (a : AddResult)
    → lo ≤ e.first
    → 0 < e.second
    → Added (suc (e.first + e.second)) r m a
    → Added lo r (e ∷ m) (cons_added e a)
Added-cons lo r e m (added m') h1 h2 w =
    ((h1, h2, w.0), (λ x. ground (arith, w.1 x)), ground (arith, w.2))
Added-cons lo r e m (refused double_deallocation) h1 h2 w = (w.0, w.1, omega (arith, w.2))
Added-cons lo r e m (refused out_of_memory) h1 h2 w = w
Added-cons lo r e m (refused assertion) h1 h2 w = w

-- `add_free_region` with a region of at least one byte, on a map in order and fully coalesced, either
-- adds exactly its bytes to the free ones, and the map stays so, or reports a double deallocation,
-- and then a byte of the region was free.
pub add_region-Added :
    (lo : ℕ) (r : Place) (m : FreeMap)
    → lo ≤ r.first
    → 0 < r.second
    → IsGapped lo m
    → Added lo r m (add_region r m)
unfolding add_region insert
add_region-Added lo r [] h1 h2 g = ((h1, h2, tt), (λ x. omega arith), omega arith)
add_region-Added lo r (e ∷ []) h1 h2 g = elim (Bool-cases (ltb r.first e.first)) [
  | inl t ↦ Added-first lo r e h1 h2 [] g (ground arith)
  | inr t ↦ Added-last lo r e h1 h2 g (ground arith)
]
add_region-Added lo r (e ∷ f ∷ m) h1 h2 g = elim (Bool-cases (ltb r.first e.first)) [
  | inl t ↦ Added-first lo r e h1 h2 (f ∷ m) g (ground arith)
  | inr t ↦ elim (Bool-cases (ltb r.first f.first)) [
    | inl u ↦ Added-between lo r e h1 h2 f m g (ground arith) (ground arith)
    | inr u ↦ rw (add_region-skip lo r e f m h2 g (ground arith)) (
        Added-cons lo r e (f ∷ m) (add_region r (f ∷ m)) g.0 g.1
          (add_region-Added (suc (e.first + e.second)) r (f ∷ m) (ground arith) h2 g.2))
  ]
]
