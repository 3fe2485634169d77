-- ===== src/Mng/Strategies/Tests.antt =====
-- Runs of the strategies on the disks 2, 3 and 4.
use stxxl.Prelude.{ℕ, ◌-◌, ◌≡◌, ◌≢◌, refl, List, some, arith, iota}
use stxxl.Mng.Strategies.{Striping, random_cycling, rc_disk}
use stxxl.Mng.Strategies.Range.{IsValid, InRange, rc_disk-InRange}
use stxxl.Mng.Strategies.Spread.{rc_disk-ne}

abbrev three : Striping
three = record { begin = 2; diff = 3 }

three-IsValid : IsValid three
three-IsValid = record { some_disk = omega arith; small = omega arith }

-- A shuffle that changes nothing, and a generator that always draws the same.
abbrev keep : List ℕ → List ℕ
keep l = l

abbrev last_below : ℕ → ℕ
last_below n = n - 1

cycle : rc_disk (random_cycling keep three) 5 ≡ some 4
unfolding rc_disk random_cycling iota
cycle = refl

rc_disk-InRange_example :
    (d : ℕ) × (rc_disk (random_cycling keep three) 5 ≡ some d) × InRange three d
rc_disk-InRange_example = rc_disk-InRange three three-IsValid keep (λ l x. refl) (λ l. refl) 5

rc_disk-ne_example : rc_disk (random_cycling keep three) 4 ≢ rc_disk (random_cycling keep three) 6
rc_disk-ne_example =
    rc_disk-ne three three-IsValid keep (λ l x. refl) (λ l. refl) 4 6 (omega arith) (omega arith)
