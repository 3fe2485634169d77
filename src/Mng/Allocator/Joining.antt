-- ===== src/Mng/Allocator/Joining.antt =====
-- `add_free_region` next to the first two entries of the map: the checks, and the coalescing with
-- the neighbours (lib/mng/disk_allocator.cpp).
use stxxl.Prelude.{
  ℕ, suc, ◌+◌, ◌==◌, ◌≤◌, ◌<◌, ◌≡◌, refl, true, false, [], ◌∷◌, none, some, arith, inl, inr,
  Bool-cases,
}
use stxxl.Mng.Allocator.FreeMap.{
  Place, FreeMap, Iter, upper_bound, before, decrement, erase, insert, hits, cover,
}
use stxxl.Mng.Allocator.Region.{
  hits_pred, hits_succ, join_pred, join_succ, coalesce, place_joined, add_at, add_region, IsGapped,
  Added,
}

abbrev pub Overlap : Place → FreeMap → Type 0
Overlap r m = (x : ℕ) × (hits r x ≡ 1) × (0 < cover m x)

-- The two checks, then the rest.
pub add_at-Added :
    (lo : ℕ) (pred succ : Iter) (r : Place) (m : FreeMap)
    → (hits_pred pred r ≡ true → Overlap r m)
    → (hits_succ succ r ≡ true → Overlap r m)
    → (hits_pred pred r ≡ false
        → hits_succ succ r ≡ false
        → Added lo r m (place_joined (coalesce pred succ r m)))
    → Added lo r m (add_at pred succ r m)
unfolding add_at
add_at-Added lo pred succ r m hp hs hk = elim (Bool-cases (hits_pred pred r)) [
  | inl e ↦ rw e (hp e)
  | inr e ↦
      rw e
        (elim (Bool-cases (hits_succ succ r)) [ inl e' ↦ rw e' (hs e') | inr e' ↦ rw e' (hk e e') ])
]

pub add_region-first :
    (r e : Place) (m : FreeMap)
    → r.first < e.first
    → add_region r (e ∷ m) ≡ add_at (some e) (some e) r (e ∷ m)
unfolding add_region upper_bound
add_region-first r e m q = ground arith

pub add_region-last :
    (r e : Place) → e.first ≤ r.first → add_region r (e ∷ []) ≡ add_at (some e) none r (e ∷ [])
unfolding add_region upper_bound decrement before
add_region-last r e q = ground arith

pub add_region-between :
    (r e f : Place) (m : FreeMap)
    → e.first ≤ r.first
    → r.first < f.first
    → add_region r (e ∷ f ∷ m) ≡ add_at (some e) (some f) r (e ∷ f ∷ m)
unfolding add_region upper_bound decrement before
add_region-between r e f m q1 q2 = ground arith

pub insert-first :
    (p : Place) (m : FreeMap) (lo : ℕ) → IsGapped lo m → p.first < lo → insert p m ≡ p ∷ m
unfolding insert
insert-first p [] lo g h = refl
insert-first p (e ∷ m) lo g h = ground arith

pub insert-second :
    (p e : Place) (m : FreeMap) → e.first < p.first → insert p (e ∷ m) ≡ e ∷ insert p m
unfolding insert
insert-second p e m h = ground arith

pub erase-second : (k : ℕ) (e : Place) (m : FreeMap) → e.first < k → erase k (e ∷ m) ≡ e ∷ erase k m
unfolding erase
erase-second k e m h = ground arith

pub coalesce-first :
    (r e : Place) (m : FreeMap)
    → coalesce (some e) (some e) r (e ∷ m)
      ≡ some (join_succ e (record { region = r; rest = e ∷ m }))
unfolding coalesce
coalesce-first r e m = ground arith

pub coalesce-between :
    (e f r : Place) (m : FreeMap)
    → e.first < f.first
    → coalesce (some e) (some f) r (e ∷ f ∷ m)
      ≡ join_pred (some e) (join_succ f (record { region = r; rest = e ∷ f ∷ m }))
unfolding coalesce
coalesce-between e f r m h = ground arith

pub erase-first : (e : Place) (m : FreeMap) → erase e.first (e ∷ m) ≡ m
unfolding erase
erase-first e m = ground arith

module _ (lo : ℕ) (r e : Place) (h1 : lo ≤ r.first) (h2 : 0 < r.second) where
  pub Added-join_succ :
      (m : FreeMap)
      → IsGapped lo (e ∷ m)
      → r.first < e.first
      → hits_succ (some e) r ≡ false
      → Added lo r (e ∷ m) (place_joined (some (join_succ e (record { region = r; rest = e ∷ m }))))
  unfolding join_succ
  Added-join_succ m g q hs = elim (Bool-cases (e.first == r.first + r.second)) [
    | inl t ↦
        rw
          (
            t,
            erase-first e m,
            insert-first (record { first = r.first; second = r.second + e.second }) m
                (suc (e.first + e.second)) (g.2) (ground arith),
          )
          (ground arith, (λ x. ground arith), ground arith)
    | inr t ↦
        rw (t, insert-first r (e ∷ m) e.first (ground arith) q)
          (ground arith, (λ x. ground arith), ground arith)
  ]

  pub Added-first :
      (m : FreeMap)
      → IsGapped lo (e ∷ m)
      → r.first < e.first
      → Added lo r (e ∷ m) (add_region r (e ∷ m))
  Added-first m g q = rw (add_region-first r e m q) (
      add_at-Added lo (some e) (some e) r (e ∷ m) (λ h. absurd (ground arith))
        (λ h. (e.first, ground arith, ground arith))
        (λ hp hs. rw (coalesce-first r e m) (Added-join_succ m g q hs)))

  pub Added-last :
      IsGapped lo (e ∷ []) → e.first ≤ r.first → Added lo r (e ∷ []) (add_region r (e ∷ []))
  unfolding coalesce join_pred erase insert
  Added-last g q = rw (add_region-last r e q) (
      add_at-Added lo (some e) none r (e ∷ []) (λ h. (r.first, ground arith, ground arith))
        (λ h. absurd (ground arith))
        (λ hp hs. elim (Bool-cases (e.first + e.second == r.first)) [
          | inl t ↦ rw (t, erase-first e []) (ground arith, (λ x. ground arith), ground arith)
          | inr t ↦
              rw (t, insert-second r e [] (ground arith))
                (ground arith, (λ x. ground arith), ground arith)
        ]))

  pub Added-joined :
      (f : Place) (m : FreeMap)
      → IsGapped lo (e ∷ f ∷ m)
      → e.first ≤ r.first
      → r.first < f.first
      → hits_pred (some e) r ≡ false
      → hits_succ (some f) r ≡ false
      → Added lo r (e ∷ f ∷ m) (
          place_joined (join_pred (some e) (join_succ f (record { region = r; rest = e ∷ f ∷ m }))))
  unfolding join_pred join_succ
  Added-joined f m g q1 q2 hp hs = elim (Bool-cases (f.first == r.first + r.second)) [
    | inl t ↦
        rw (t, erase-second f.first e (f ∷ m) (omega arith), erase-first f m)
          (elim (Bool-cases (e.first + e.second == r.first)) [
            | inl u ↦
                rw
                  (
                    u,
                    erase-first e m,
                    insert-first
                        (record { first = e.first; second = r.second + f.second + e.second }) m
                        (suc (f.first + f.second)) (g.2.2) (ground arith),
                  )
                  (ground arith, (λ x. ground arith), ground arith)
            | inr u ↦
                rw
                  (
                    u,
                    insert-second (record { first = r.first; second = r.second + f.second }) e m
                        (ground arith),
                    insert-first (record { first = r.first; second = r.second + f.second }) m
                        (suc (f.first + f.second)) (g.2.2) (ground arith),
                  )
                  (ground arith, (λ x. ground arith), ground arith)
          ])
    | inr t ↦ rw t (elim (Bool-cases (e.first + e.second == r.first)) [
      | inl u ↦
          rw
            (
              u,
              erase-first e (f ∷ m),
              insert-first (record { first = e.first; second = r.second + e.second }) (f ∷ m)
                  f.first (ground arith) (ground arith),
            )
            (ground arith, (λ x. ground arith), ground arith)
      | inr u ↦
          rw
            (
              u,
              insert-second r e (f ∷ m) (ground arith),
              insert-first r (f ∷ m) f.first (ground arith) (ground arith),
            )
            (ground arith, (λ x. ground arith), ground arith)
    ])
  ]

  pub Added-between :
      (f : Place) (m : FreeMap)
      → IsGapped lo (e ∷ f ∷ m)
      → e.first ≤ r.first
      → r.first < f.first
      → Added lo r (e ∷ f ∷ m) (add_region r (e ∷ f ∷ m))
  Added-between f m g q1 q2 = rw (add_region-between r e f m q1 q2) (
      add_at-Added lo (some e) (some f) r (e ∷ f ∷ m) (λ h. (r.first, ground arith, ground arith))
        (λ h. (f.first, ground arith, ground arith))
        (λ hp hs. rw (coalesce-between e f r m (omega arith)) (Added-joined f m g q1 q2 hp hs)))
