-- ===== src/Prelude/Counts.antt =====
-- How often a number stands in a list, and the list of the numbers in a range.
use Prim.Native.Nat.{ℕ, zero, suc, ◌+◌, ◌<◌}
use mathlib.Core.Path.{◌≡◌, refl}
use mathlib.Core.Logic.{◌≢◌, inl, inr}
use mathlib.Core.List.{List, [], ◌∷◌}
use mathlib.Core.Option.{some}
use native.Mathlib.Omega.{arith}
use stxxl.Prelude.Lists.{length, get_elem?}
use stxxl.Prelude.Tests.{◌==◌, ltb, leb, if◌then◌else◌, Bool-cases}
use mathlib.Core.Bool.{◌&&◌}

abbrev pub count : ℕ → List ℕ → ℕ
count p [] = 0
count p (q ∷ h) = (if q == p then 1 else 0) + count p h

-- The `k` numbers from `i` on, which a loop puts into a list one after the other.
unfoldable pub iota : ℕ → ℕ → List ℕ
iota i zero = []
iota i (suc k) = i ∷ iota (i + 1) k

pub count-iota : (p i k : ℕ) → count p (iota i k) ≡ (if leb i p && ltb p (i + k) then 1 else 0)
unfolding iota
count-iota p i zero = ground arith
count-iota p i (suc k) = ground (arith, count-iota p (i + 1) k)

pub length-iota : (i k : ℕ) → length (iota i k) ≡ k
unfolding iota
length-iota i zero = refl
length-iota i (suc k) = omega (arith, length-iota (i + 1) k)

-- An element within the list.
pub get_elem?-count :
    (l : List ℕ) (i : ℕ) → i < length l → (x : ℕ) × (get_elem? l i ≡ some x) × (0 < count x l)
get_elem?-count [] i h = absurd (omega arith)
get_elem?-count (x ∷ l) zero h = (x, refl, ground arith)
get_elem?-count (x ∷ l) (suc i) h =
    let (y, e, c) = get_elem?-count l i (omega arith) in (y, e, omega (arith, c))

pub count-get_elem? : (l : List ℕ) (i x : ℕ) → get_elem? l i ≡ some x → 0 < count x l
count-get_elem? [] i x e = absurd (ground arith)
count-get_elem? (y ∷ l) zero x e = ground arith
count-get_elem? (y ∷ l) (suc i) x e = omega (arith, count-get_elem? l i x e)

-- A number at two places.
pub count_twice :
    (l : List ℕ) (i j x : ℕ)
    → i < j
    → get_elem? l i ≡ some x
    → get_elem? l j ≡ some x
    → 1 < count x l
count_twice [] i j x h e e' = absurd (ground arith)
count_twice (y ∷ l) i zero x h e e' = absurd (omega arith)
count_twice (y ∷ l) zero (suc j) x h e e' = ground (arith, count-get_elem? l j x e')
count_twice (y ∷ l) (suc i) (suc j) x h e e' = omega (arith, count_twice l i j x (omega arith) e e')

pub count_distinct :
    (l : List ℕ) (i j x : ℕ)
    → i ≢ j
    → get_elem? l i ≡ some x
    → get_elem? l j ≡ some x
    → 1 < count x l
count_distinct l i j x ne e e' = elim (Bool-cases (ltb i j)) [
  | inl t ↦ count_twice l i j x (ground arith) e e'
  | inr t ↦ count_twice l j i x (ground arith) e' e
]
