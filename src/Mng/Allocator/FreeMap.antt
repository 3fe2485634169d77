-- ===== src/Mng/Allocator/FreeMap.antt =====
-- `disk_allocator::sortseq`, the std::map from the position of a free region to its size, as the
-- list of its entries in the order of the keys. An iterator is the entry at which it stands, and
-- `none` is `end()`.
use stxxl.Prelude.{
  ℕ, ◌+◌, ◌==◌, Bool, true, false, List, [], ◌∷◌, Option, none, some, ltb, leb, ◌&&◌, if◌then◌else◌,
}

-- `disk_allocator::place`: an entry of the map, or a region to be put there.
pub record Place : Type 0 where
  pub first : ℕ
  pub second : ℕ

abbrev pub FreeMap : Type 0
FreeMap = List Place

abbrev pub Iter : Type 0
Iter = Option Place

-- whether an iterator stands at the entry `e`
abbrev pub stands_at : Iter → Place → Bool
stands_at none e = false
stands_at (some p) e = p.first == e.first

abbrev pub is_begin : FreeMap → Iter → Bool
is_begin [] none = true
is_begin [] (some p) = false
is_begin (e ∷ m) it = stands_at it e

unfoldable pub upper_bound : ℕ → FreeMap → Iter
upper_bound k [] = none
upper_bound k (e ∷ m) = if ltb k e.first then some e else upper_bound k m

-- `--it` in the entries `e ∷ m`, for an `it` that is not at `e`
unfoldable pub before : Place → FreeMap → Iter → Iter
before e [] it = some e
before e (f ∷ m) it = if stands_at it f then some e else before f m it

unfoldable pub decrement : FreeMap → Iter → Iter
decrement [] it = it
decrement (e ∷ m) it = before e m it

unfoldable pub erase : ℕ → FreeMap → FreeMap
erase k [] = []
erase k (e ∷ m) = if e.first == k then m else e ∷ erase k m

-- `map[p.first] = p.second`
unfoldable pub insert : Place → FreeMap → FreeMap
insert p [] = p ∷ []
insert p (e ∷ m) =
    if ltb p.first e.first then p ∷ e ∷ m else if p.first == e.first then p ∷ m else e ∷ insert p m

-- `find_if` with `first_fit`: the first entry that is large enough
unfoldable pub find_fit : ℕ → FreeMap → Iter
find_fit size [] = none
find_fit size (e ∷ m) = if leb size e.second then some e else find_fit size m

-- The number of free bytes at the position `x` that an entry holds: 0 or 1.
abbrev pub hits : Place → ℕ → ℕ
hits p x = if leb p.first x && ltb x (p.first + p.second) then 1 else 0

-- How many entries hold the byte at `x`.
abbrev pub cover : FreeMap → ℕ → ℕ
cover [] x = 0
cover (e ∷ m) x = hits e x + cover m x

-- The sum of the sizes.
abbrev pub total : FreeMap → ℕ
total [] = 0
total (e ∷ m) = e.second + total m
