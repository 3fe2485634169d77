-- ===== src/Containers/Pager/Policy.antt =====
-- What the vector asks of its pager, `PagerType`: the operations, the laws, and the two pagers.
use stxxl.Prelude.{ℕ, ◌≡◌, ◌<◌, refl, arith, Option, none, some, ap}
use stxxl.Containers.Pager.{LruPager, kick, hit, RandomPager, kick_random, hit_random}
use stxxl.Containers.Pager.Recency.{IsValid, hit-MovesToFront, back-some, back-count}

pub record Policy (G : Type 0) : Type 0 where
  pub slots : G → ℕ
  pub kick : G → Option (ℕ × G)
  pub hit : ℕ → G → Option G

-- A pager with at least one slot gives one of its slots to replace, and takes note of a use of any of them;
-- the number of slots stays.
pub record IsPolicy {G : Type 0} (policy : Policy G) (Valid : G → Type 0) : Type 0 where
  pub kicks :
      (g : G)
      → Valid g
      → 0 < policy.slots g
      → (s : ℕ) × (g' : G) × (policy.kick g ≡ some (s, g'))
        × (s < policy.slots g)
        × Valid g'
        × (policy.slots g' ≡ policy.slots g)
  pub hits :
      (s : ℕ) (g : G)
      → Valid g
      → s < policy.slots g
      → (g' : G) × (policy.hit s g ≡ some g') × Valid g' × (policy.slots g' ≡ policy.slots g)

abbrev pub kept : LruPager → Option ℕ → Option (ℕ × LruPager)
kept g none = none
kept g (some s) = some (s, g)

abbrev pub lru : Policy LruPager
lru = record { slots = λ g. g.size; kick = λ g. kept g (kick g); hit = hit }

-- `lru_pager` keeps the laws of a pager.
pub lru-IsPolicy : IsPolicy lru IsValid
unfolding kick
lru-IsPolicy = record {
  kicks = λ g v h.
      let (s, e) = back-some g.history (omega (arith, v.pages)) in
      let there = back-count s g.history e in
      (s, g, ap (kept g) e, ground (arith, v.once s), v, refl);
  hits = λ s g v h. let m = hit-MovesToFront s g v h in (m.next, m.hits, m.valid, m.same_size);
}

module _ {Seed : Type 0} (rnd : ℕ → Seed → ℕ × Seed) where
  abbrev pub random : Policy (RandomPager Seed)
  random = record {
    slots = λ g. g.num_pages;
    kick = λ g. some (kick_random rnd g);
    hit = hit_random rnd;
  }

  abbrev pub AnySeed : RandomPager Seed → Type 0
  AnySeed g = Unit {0}

  -- `random_pager` keeps the laws of a pager, where its generator draws numbers below the bound.
  pub random-IsPolicy :
      ((n : ℕ) (seed : Seed) → 0 < n → (rnd n seed).0 < n) → IsPolicy random AnySeed
  unfolding kick_random hit_random
  random-IsPolicy below = record {
    kicks = λ g v h. (_, _, refl, below g.num_pages g.seed h, tt, refl);
    hits = λ s g v h. (g, ground arith, tt, refl);
  }
