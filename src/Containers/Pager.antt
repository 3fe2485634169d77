-- ===== src/Containers/Pager.antt =====
-- The pagers: include/stxxl/bits/containers/pager.h. The list `history` of `lru_pager` is a list of
-- page numbers; `history_entry[i]` is the iterator to the entry of the page `i`, so that `splice` moves
-- this entry to the front.
pub mod Recency
pub mod Policy
mod Tests
use stxxl.Prelude.{
  ℕ, zero, suc, ◌+◌, ◌==◌, List, [], ◌∷◌, Option, none, some, ltb, if◌then◌else◌, iota,
}

-- `size` is that of `history_entry`.
pub record LruPager : Type 0 where
  pub history : List ℕ
  pub size : ℕ

-- The constructor inserts the pages from 0 on.
unfoldable pub new_pager : ℕ → LruPager
new_pager num_pages = record { history = iota 0 num_pages; size = num_pages }

-- `history.back()`; `none` where there is no page
unfoldable pub back : List ℕ → Option ℕ
back [] = none
back (p ∷ []) = some p
back (p ∷ q ∷ h) = back (q ∷ h)

unfoldable pub kick : LruPager → Option ℕ
unfolding back
kick g = back g.history

-- The list without the entry of a page.
unfoldable pub unlink : ℕ → List ℕ → List ℕ
unlink p [] = []
unlink p (q ∷ h) = if q == p then h else q ∷ unlink p h

-- `none` is the failed assertion.
unfoldable pub hit : ℕ → LruPager → Option LruPager
unfolding unlink
hit ipage g =
    if ltb ipage g.size then some (record g { history = ipage ∷ unlink ipage g.history }) else none

-- `seed` is the state of the random number generator `rnd`.
pub record RandomPager (Seed : Type 0) : Type 0 where
  pub num_pages : ℕ
  pub seed : Seed

-- `rnd(n)`: a number below `n`, and the next state.
module _ {Seed : Type 0} (rnd : ℕ → Seed → ℕ × Seed) where
  unfoldable pub kick_random : RandomPager Seed → ℕ × RandomPager Seed
  kick_random g = ((rnd g.num_pages g.seed).0, record g { seed = (rnd g.num_pages g.seed).1 })

  -- `none` is the failed assertion.
  unfoldable pub hit_random : ℕ → RandomPager Seed → Option (RandomPager Seed)
  hit_random ipage g = if ltb ipage g.num_pages then some g else none
