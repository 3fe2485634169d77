-- ===== src/Containers/Pager/Recency.antt =====
-- The pages of an `lru_pager`, and the order of their use.
use stxxl.Prelude.{
  ℕ, suc, ◌+◌, ◌==◌, ◌≡◌, ◌≢◌, ◌<◌, ◌≤◌, refl, arith, List, [], ◌∷◌, Option, none, some, Bool-cases,
  inl, inr, ltb, if◌then◌else◌, length, ap, count, count-iota, length-iota,
}
use stxxl.Containers.Pager.{LruPager, new_pager, back, kick, unlink, hit}

-- Where a page stands first.
abbrev pub position : ℕ → List ℕ → ℕ
position p [] = 0
position p (q ∷ h) = if q == p then 0 else suc (position p h)

-- The history has each page of the pager once, and no other.
pub record IsValid (g : LruPager) : Type 0 where
  pub pages : length g.history ≡ g.size
  pub once : (p : ℕ) → count p g.history ≡ (if ltb p g.size then 1 else 0)

count-unlink :
    (p q : ℕ) (h : List ℕ)
    → 0 < count q h
    → count p (unlink q h) + (if q == p then 1 else 0) ≡ count p h
unfolding unlink
count-unlink p q [] e = absurd (omega arith)
count-unlink p q (r ∷ h) e = ground (arith, count-unlink p q h)

length-unlink : (q : ℕ) (h : List ℕ) → 0 < count q h → length (unlink q h) + 1 ≡ length h
unfolding unlink
length-unlink q [] e = absurd (omega arith)
length-unlink q (r ∷ h) e = ground (arith, length-unlink q h)

position-unlink : (p q : ℕ) (h : List ℕ) → p ≢ q → position p (unlink q h) ≤ position p h
unfolding unlink
position-unlink p q [] e = omega arith
position-unlink p q (r ∷ h) e = ground (arith, position-unlink p q h e)

-- What a hit of the page `p` does.
pub record MovesToFront (p : ℕ) (g : LruPager) : Type 0 where
  pub next : LruPager
  pub hits : hit p g ≡ some next
  pub valid : IsValid next
  pub same_size : next.size ≡ g.size
  pub front : position p next.history ≡ 0
  pub others : (q : ℕ) → position q next.history ≤ position q g.history + 1

-- `hit` of a page of a valid pager returns, keeps the pager valid, moves the page to the front,
-- and moves no other page back by more than one place.
pub hit-MovesToFront : (p : ℕ) (g : LruPager) → IsValid g → p < g.size → MovesToFront p g
unfolding hit
hit-MovesToFront p g v l =
    let there : 0 < count p g.history = ground (arith, v.once p) in
    record {
      next = record g { history = p ∷ unlink p g.history };
      hits = ground arith;
      valid = record {
        pages = omega (arith, length-unlink p g.history there, v.pages);
        once = λ q. omega (arith, count-unlink q p g.history there, v.once q);
      };
      same_size = refl;
      front = ground arith;
      others = λ q. elim (Bool-cases (p == q)) [
        | inl t ↦ ground arith
        | inr t ↦ ground (arith, position-unlink q p g.history)
      ];
    }

pub back-count : (p : ℕ) (h : List ℕ) → back h ≡ some p → 0 < count p h
unfolding back
back-count p [] e = absurd (ground arith)
back-count p (q ∷ []) e = ground arith
back-count p (q ∷ r ∷ h) e = ground (arith, back-count p (r ∷ h) e)

-- The page at the back stands last.
back-position : (p : ℕ) (h : List ℕ) → back h ≡ some p → count p h ≤ 1 → position p h + 1 ≡ length h
unfolding back
back-position p [] e c = absurd (ground arith)
back-position p (q ∷ []) e c = ground arith
back-position p (q ∷ r ∷ h) e c = ground (arith, back-position p (r ∷ h) e, back-count p (r ∷ h) e)

pub back-some : (h : List ℕ) → 0 < length h → (p : ℕ) × (back h ≡ some p)
unfolding back
back-some [] l = absurd (omega arith)
back-some (p ∷ []) l = (p, refl)
back-some (p ∷ q ∷ h) l = back-some (q ∷ h) (omega arith)

-- Hits of pages one after the other.
abbrev pub hit_all : List ℕ → LruPager → Option LruPager
hit_all [] g = some g
hit_all (p ∷ ps) g = elim (hit p g) [ none ↦ none | some g' ↦ hit_all ps g' ]

abbrev pub Pages : ℕ → List ℕ → Type 0
Pages n [] = Unit {0}
Pages n (p ∷ ps) = (p < n) × Pages n ps

hit_all-Hits :
    (ps : List ℕ) (g : LruPager)
    → IsValid g
    → Pages g.size ps
    → (g' : LruPager) × (hit_all ps g ≡ some g')
      × IsValid g'
      × (g'.size ≡ g.size)
      × ((q : ℕ) → position q g'.history ≤ position q g.history + length ps)
hit_all-Hits [] g v l = (g, refl, v, refl, λ q. omega arith)
hit_all-Hits (p ∷ ps) g v (l, ls) =
    let w = hit-MovesToFront p g v l in
    let (g', e, v', same, moved) = hit_all-Hits ps w.next w.valid (ground (arith, w.same_size)) in
    (
      g',
      rw (w.hits, hit_all) e,
      v',
      omega (arith, same, w.same_size),
      λ q. omega (arith, moved q, w.others q),
    )

-- `kick` after a hit of the page `p` and fewer than `size - 1` hits of pages, all on a valid pager,
-- gives a page, which is not `p`: the page to replace is none of those that were used last.
pub kick-hit_all :
    (p : ℕ) (ps : List ℕ) (g : LruPager)
    → IsValid g
    → p < g.size
    → Pages g.size ps
    → length ps + 1 < g.size
    → (g' : LruPager) × (q : ℕ) × (hit_all (p ∷ ps) g ≡ some g')
      × IsValid g'
      × (kick g' ≡ some q)
      × (q < g.size)
      × (q ≢ p)
unfolding kick
kick-hit_all p ps g v l ls few =
    let w = hit-MovesToFront p g v l in
    let (g', e, v', same, moved) = hit_all-Hits ps w.next w.valid (ground (arith, w.same_size)) in
    let (q, last) = back-some g'.history (omega (arith, v'.pages, same, w.same_size)) in
    let there : 0 < count q g'.history = back-count q g'.history last in
    let below : q < g.size = ground (arith, v'.once q, same, w.same_size) in
    let once : count q g'.history ≤ 1 = ground (arith, v'.once q) in
    let place : position q g'.history + 1 ≡ g.size =
      omega (arith, back-position q g'.history last once, v'.pages, same, w.same_size) in
    let recent : position p g'.history ≤ length ps = omega (arith, moved p, w.front) in
    (
      g',
      q,
      rw (w.hits, hit_all) e,
      v',
      last,
      below,
      λ z. omega (arith, place, recent, few, ap (λ y. position y g'.history) z),
    )

-- The constructor makes a valid pager of the pages below `n`.
pub new_pager-IsValid : (n : ℕ) → IsValid (new_pager n)
unfolding new_pager
new_pager-IsValid n = record {
  pages = length-iota 0 n;
  once = λ p. ground (arith, count-iota p 0 n);
}

-- `hit` of a number that is no page fails.
pub hit_refuses : (p : ℕ) (g : LruPager) → g.size ≤ p → hit p g ≡ none
unfolding hit
hit_refuses p g h = ground arith
