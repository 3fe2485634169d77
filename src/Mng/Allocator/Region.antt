-- ===== src/Mng/Allocator/Region.antt =====
-- `disk_allocator::add_free_region` on the map of free regions.
use stxxl.Prelude.{
  ℕ, suc, ◌+◌, ◌==◌, ◌≤◌, ◌<◌, ◌≡◌, Bool, false, [], ◌∷◌, Option, none, some, ltb, leb, ◌&&◌,
  if◌then◌else◌, length,
}
use stxxl.Mng.Allocator.FreeMap.{
  Place, FreeMap, Iter, is_begin, upper_bound, decrement, erase, insert, hits, cover, total,
}

-- What an allocator call can throw; `assertion` is a failed `assert`.
pub data Error : Type 0 where
  double_deallocation out_of_memory assertion : Error

pub data AddResult : Type 0 where
  added : FreeMap → AddResult
  refused : Error → AddResult

-- The first check: the predecessor reaches into the region.
abbrev pub hits_pred : Iter → Place → Bool
hits_pred none r = false
hits_pred (some p) r = leb p.first r.first && ltb r.first (p.first + p.second)

-- The second check: the region reaches into the successor.
abbrev pub hits_succ : Iter → Place → Bool
hits_succ none r = false
hits_succ (some s) r = leb r.first s.first && ltb s.first (r.first + r.second)

-- `region_pos`, `region_size` and the map, between two steps of the function
pub record Joined : Type 0 where
  pub region : Place
  pub rest : FreeMap

-- coalesce with the predecessor
unfoldable pub join_pred : Iter → Joined → Option Joined
join_pred none j = none
join_pred (some p) j = some (
    if p.first + p.second == j.region.first
    then record {
      region = record { first = p.first; second = j.region.second + p.second };
      rest = erase p.first j.rest;
    }
    else j)

-- coalesce with the successor
unfoldable pub join_succ : Place → Joined → Joined
join_succ s j =
    if s.first == j.region.first + j.region.second
    then record {
      region = record { first = j.region.first; second = j.region.second + s.second };
      rest = erase s.first j.rest;
    }
    else j

-- The cases on `succ` and the size of the map; `none` is a failed assertion.
unfoldable pub coalesce : Iter → Iter → Place → FreeMap → Option Joined
coalesce pred none r m = join_pred pred (record { region = r; rest = m })
coalesce pred (some s) r m =
    let j = join_succ s (record { region = r; rest = m }) in
    if ltb 1 (length m) then (if is_begin m (some s) then some j else join_pred pred j) else some j

abbrev pub place_joined : Option Joined → AddResult
place_joined none = refused assertion
place_joined (some j) = added (insert j.region j.rest)

-- The body at a map that is not empty, for the iterators `pred` and `succ`.
unfoldable pub add_at : Iter → Iter → Place → FreeMap → AddResult
unfolding coalesce join_pred join_succ
add_at pred succ r m =
    if hits_pred pred r
    then refused double_deallocation
    else if hits_succ succ r
    then refused double_deallocation
    else place_joined (coalesce pred succ r m)

unfoldable pub add_region : Place → FreeMap → AddResult
unfolding add_at
add_region r [] = added (insert r [])
add_region r (e ∷ m) =
    let succ = upper_bound r.first (e ∷ m) in
    let pred = if is_begin (e ∷ m) succ then succ else decrement (e ∷ m) succ in
    add_at pred succ r (e ∷ m)

-- The entries from `lo` on: none is empty, and between two of them at least one byte is not free.
abbrev pub IsGapped : ℕ → FreeMap → Type 0
IsGapped lo [] = Unit {0}
IsGapped lo (e ∷ m) = (lo ≤ e.first) × (0 < e.second) × IsGapped (suc (e.first + e.second)) m

-- The two outcomes: the region is added, or a byte of it was free already.
abbrev pub Added : ℕ → Place → FreeMap → AddResult → Type 0
Added lo r m (refused double_deallocation) = (x : ℕ) × (hits r x ≡ 1) × (0 < cover m x)
Added lo r m (refused e) = ⊥
Added lo r m (added m') =
    IsGapped lo m' × ((x : ℕ) → cover m' x ≡ cover m x + hits r x) × (total m' ≡ total m + r.second)
