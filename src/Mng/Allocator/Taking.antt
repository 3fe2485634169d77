-- ===== src/Mng/Allocator/Taking.antt =====
-- What the search for a free region and its use in `disk_allocator::new_blocks` do to the map.
use stxxl.Prelude.{
  ℕ, suc, ◌+◌, ◌-◌, ◌≤◌, ◌<◌, ◌≡◌, refl, [], ◌∷◌, some, ltb, leb, if◌then◌else◌, arith, inl, inr,
  Bool-cases,
}
use stxxl.Mng.Allocator.FreeMap.{Place, FreeMap, erase, insert, find_fit, hits, cover, total}
use stxxl.Mng.Allocator.Region.{IsGapped}
use stxxl.Mng.Allocator.Joining.{insert-first, insert-second, erase-first, erase-second}

-- The region that was found leaves the map, but for what is not requested of it.
unfoldable pub take_space : ℕ → Place → FreeMap → FreeMap
take_space size s m =
    let rest = erase s.first m in
    if ltb size s.second
    then insert (record { first = s.first + size; second = s.second - size }) rest
    else rest

pub cover-low : (lo x : ℕ) (m : FreeMap) → IsGapped lo m → x < lo → cover m x ≡ 0
cover-low lo x [] g h = refl
cover-low lo x (e ∷ m) g h =
    ground (arith, cover-low (suc (e.first + e.second)) x m g.2 (omega arith))

-- No byte is held twice.
pub cover-le-one : (lo x : ℕ) (m : FreeMap) → IsGapped lo m → cover m x ≤ 1
cover-le-one lo x [] g = omega arith
cover-le-one lo x (e ∷ m) g = ground (
  arith,
  cover-low (suc (e.first + e.second)) x m g.2,
  cover-le-one (suc (e.first + e.second)) x m g.2,
)

IsGapped-weaken : (lo lo' : ℕ) (m : FreeMap) → lo' ≤ lo → IsGapped lo m → IsGapped lo' m
IsGapped-weaken lo lo' [] h g = tt
IsGapped-weaken lo lo' (e ∷ m) h g = (omega arith, g.1, g.2)

-- A stretch of free bytes lies in one entry, and so the search finds an entry.
pub find_fit-stretch :
    (lo p n : ℕ) (m : FreeMap)
    → IsGapped lo m
    → 0 < n
    → ((x : ℕ) → p ≤ x → x < p + n → 0 < cover m x)
    → (s : Place) × (find_fit n m ≡ some s)
unfolding find_fit
find_fit-stretch lo p n [] g h all = absurd (omega (arith, all p))
find_fit-stretch lo p n (e ∷ m) g h all = elim (Bool-cases (leb n e.second)) [
  | inl t ↦ (e, rw t)
  | inr t ↦ rw t (
      find_fit-stretch (suc (e.first + e.second)) p n m g.2 h (λ x low high. ground (
        arith,
        all x low high,
        all p,
        all (e.first + e.second),
        cover-low (suc (e.first + e.second)) p m g.2,
        cover-low (suc (e.first + e.second)) (e.first + e.second) m g.2,
      )))
]

-- What is taken, what stays, and that the map stays in order.
pub record Taken (lo size : ℕ) (m : FreeMap) (s : Place) (m' : FreeMap) : Type 0 where
  pub low : lo ≤ s.first
  pub fits : size ≤ s.second
  pub gapped : IsGapped lo m'
  pub bytes : (x : ℕ) → cover m' x + hits (record { first = s.first; second = size }) x ≡ cover m x
  pub sizes : total m' + size ≡ total m

take_space-skip :
    (size : ℕ) (s e : Place) (m : FreeMap)
    → e.first < s.first
    → take_space size s (e ∷ m) ≡ e ∷ take_space size s m
unfolding take_space
take_space-skip size s e m h = ground (
  arith,
  erase-second s.first e m h,
  insert-second (record { first = s.first + size; second = s.second - size }) e (erase s.first m),
)

pub take_space-Taken :
    (lo size : ℕ) (m : FreeMap) (s : Place)
    → IsGapped lo m
    → find_fit size m ≡ some s
    → Taken lo size m s (take_space size s m)
unfolding find_fit take_space
take_space-Taken lo size [] s g h = absurd (ground arith)
take_space-Taken lo size (e ∷ m) s g h = elim (Bool-cases (leb size e.second)) [
  | inl t ↦
      let found : e ≡ s = ground arith in
      rw (← found, erase-first e m)
        (elim (Bool-cases (ltb size e.second)) [
          | inl u ↦
              rw
                (
                  u,
                  insert-first (record { first = e.first + size; second = e.second - size }) m
                      (suc (e.first + e.second)) g.2 (ground arith),
                )
                (record {
                  low = g.0;
                  fits = ground arith;
                  gapped = ground arith;
                  bytes = λ x. ground arith;
                  sizes = ground arith;
                })
          | inr u ↦ rw u (record {
            low = g.0;
            fits = ground arith;
            gapped = IsGapped-weaken (suc (e.first + e.second)) lo m (ground arith) g.2;
            bytes = λ x. ground arith;
            sizes = ground arith;
          })
        ])
  | inr t ↦
      let found : find_fit size m ≡ some s = ground arith in
      let rest = take_space-Taken (suc (e.first + e.second)) size m s g.2 found in
      let later : e.first < s.first = omega (arith, rest.low) in
      rw (take_space-skip size s e m later) (record {
        low = omega (arith, rest.low);
        fits = rest.fits;
        gapped = (g.0, g.1, rest.gapped);
        bytes = λ x. omega (arith, rest.bytes x);
        sizes = omega (arith, rest.sizes);
      })
]
