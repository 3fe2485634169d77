-- ===== src/Containers/Pager/Tests.antt =====
-- Runs of an `lru_pager` of three pages.
use stxxl.Prelude.{ℕ, ◌<◌, ◌≡◌, ◌≢◌, refl, [], ◌∷◌, some, arith}
use stxxl.Containers.Pager.{LruPager, new_pager, kick}
use stxxl.Containers.Pager.Recency.{
  IsValid, MovesToFront, hit-MovesToFront, hit_all, kick-hit_all, new_pager-IsValid,
}

abbrev three : LruPager
three = new_pager 3

least_recent : kick (record { history = 1 ∷ 2 ∷ 0 ∷ []; size = 3 }) ≡ some 0
unfolding kick
least_recent = refl

hit-MovesToFront_example : MovesToFront 2 three
unfolding new_pager
hit-MovesToFront_example = hit-MovesToFront 2 three (new_pager-IsValid 3) (omega arith)

kick-hit_all_example :
    (g' : LruPager) × (q : ℕ) × (hit_all (2 ∷ 0 ∷ []) three ≡ some g')
    × IsValid g'
    × (kick g' ≡ some q)
    × (q < three.size)
    × (q ≢ 2)
unfolding new_pager
kick-hit_all_example =
    kick-hit_all 2 (0 ∷ []) three (new_pager-IsValid 3) (omega arith) (omega arith, tt)
      (omega arith)
