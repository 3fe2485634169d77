-- ===== src/Mng/BlockManager/Lines.antt =====
-- Blocks that are given out in the order of the disks chosen for them.
use mathlib.Core.Option.{some-injective}
use stxxl.Prelude.{
  ℕ, zero, suc, ◌+◌, ◌<◌, ◌≤◌, ◌%◌, ◌^◌, ◌==◌, ◌≡◌, refl, ap, ◌∙◌, sym, subst, arith, Bool, true,
  false, Bool-cases, inl, inr, if◌then◌else◌, List, [], ◌∷◌, Option, some, count, length, get_elem?,
  take, drop, put, put_self, put_other,
}
use stxxl.Mng.Allocator.Disk.{Bid}
use stxxl.Mng.BlockManager.{BlockId, Storage, disk_file, assign_disks, all_below, give_out}

abbrev pub is_on : ℕ → Storage → Bool
is_on d (disk_file e) = e == d
is_on d _ = false

-- The blocks on a disk.
abbrev pub bids_on : ℕ → List BlockId → List Bid
bids_on d [] = []
bids_on d (b ∷ bids) =
    if is_on d b.storage then record { offset = b.offset } ∷ bids_on d bids else bids_on d bids

pub count-le_length : (d : ℕ) (disks : List ℕ) → count d disks ≤ length disks
count-le_length d [] = omega arith
count-le_length d (e ∷ disks) = ground (arith, count-le_length d disks)

pub length-assign_disks : (f : ℕ → ℕ) (i n : ℕ) → length (assign_disks f i n) ≡ n
unfolding assign_disks
length-assign_disks f i zero = refl
length-assign_disks f i (suc n) = omega (arith, length-assign_disks f (i + 1) n)

pub get_elem?-assign_disks :
    (f : ℕ → ℕ) (i n j d : ℕ) → get_elem? (assign_disks f i n) j ≡ some d → d ≡ f ((i + j) % 2 ^ 64)
unfolding assign_disks
get_elem?-assign_disks f i zero j d e = absurd (ground arith)
get_elem?-assign_disks f i (suc n) zero d e =
    let same : i ≡ i + 0 = omega arith in
    let first : f (i % 2 ^ 64) ≡ d = ground arith in sym first ∙ ap (λ z. f (z % 2 ^ 64)) same
get_elem?-assign_disks f i (suc n) (suc j) d e =
    let same : i + 1 + j ≡ i + suc j = omega arith in
    get_elem?-assign_disks f (i + 1) n j d e ∙ ap (λ z. f (z % 2 ^ 64)) same

pub all_below-assign_disks :
    (f : ℕ → ℕ) (k i n : ℕ) → ((j : ℕ) → f j < k) → all_below k (assign_disks f i n) ≡ true
unfolding all_below assign_disks
all_below-assign_disks f k i zero h = refl
all_below-assign_disks f k i (suc n) h =
    ground (arith, h (i % 2 ^ 64), all_below-assign_disks f k (i + 1) n h)

get_elem?-some :
    (l : List Bid) (i : ℕ)
    → i < length l
    → (b : Bid) × (get_elem? l i ≡ some b) × (drop i l ≡ b ∷ drop (suc i) l)
get_elem?-some [] i h = absurd (omega arith)
get_elem?-some (b ∷ l) zero h = (b, refl, refl)
get_elem?-some (b ∷ l) (suc i) h = get_elem?-some l i (omega arith)

pick :
    (e : ℕ) (disks : List ℕ) (bid : BlockId) (bids : List BlockId)
    → ((i : ℕ) (b : BlockId)
        → get_elem? bids i ≡ some b
        → (d : ℕ) × (get_elem? disks i ≡ some d) × (b.storage ≡ disk_file d))
    → bid.storage ≡ disk_file e
    → (i : ℕ) (b : BlockId) → get_elem? (bid ∷ bids) i ≡ some b
    → (d : ℕ) × (get_elem? (e ∷ disks) i ≡ some d) × (b.storage ≡ disk_file d)
pick e disks bid bids h at zero b k =
    (e, refl, ap (λ z. z.storage) (sym (some-injective _ _ k)) ∙ at)
pick e disks bid bids h at (suc i) b k = h i b k

-- The first block goes to its disk, before those that follow.
on_own :
    (handed : ℕ → List Bid) (e : ℕ) (disks : List ℕ) (bl : ℕ → ℕ) (b : Bid) (bids : List BlockId)
    → drop (bl e) (handed e) ≡ b ∷ drop (suc (bl e)) (handed e)
    → bids_on e bids ≡ take (count e disks) (drop (put e (bl e + 1) bl e) (handed e))
    → bids_on e (record { storage = disk_file e; offset = b.offset } ∷ bids)
      ≡ take (count e (e ∷ disks)) (drop (bl e) (handed e))
on_own handed e disks bl b bids next rest =
    let here : e == e ≡ true = ground arith in
    let more : 1 + count e disks ≡ suc (count e disks) = omega arith in
    let after : put e (bl e + 1) bl e ≡ suc (bl e) = put_self e (bl e + 1) bl ∙ omega arith in
    rw (here, more, next)
      (ap (λ z. b ∷ z) (rest ∙ ap (λ z. take (count e disks) (drop z (handed e))) after))

on_other :
    (handed : ℕ → List Bid) (e d : ℕ) (disks : List ℕ) (bl : ℕ → ℕ) (b : Bid) (bids : List BlockId)
    → e == d ≡ false
    → bids_on d bids ≡ take (count d disks) (drop (put e (bl e + 1) bl d) (handed d))
    → bids_on d (record { storage = disk_file e; offset = b.offset } ∷ bids)
      ≡ take (count d (e ∷ disks)) (drop (bl d) (handed d))
on_other handed e d disks bl b bids not_here rest =
    let none_more : 0 + count d disks ≡ count d disks = omega arith in
    let as_before = put_other e (bl e + 1) bl d (λ k. ground arith) in
    rw (not_here, none_more) (rest ∙ ap (λ z. take (count d disks) (drop z (handed d))) as_before)

-- All blocks are there, each on its disk, and those of a disk are its next ones in order.
pub record Given (handed : ℕ → List Bid) (disks : List ℕ) (bl : ℕ → ℕ)
    (result : Option (List BlockId)) : Type 0 where
  pub bids : List BlockId
  pub returns : result ≡ some bids
  pub many : length bids ≡ length disks
  pub chosen :
      (i : ℕ) (b : BlockId)
      → get_elem? bids i ≡ some b
      → (d : ℕ) × (get_elem? disks i ≡ some d) × (b.storage ≡ disk_file d)
  pub on : (d : ℕ) → bids_on d bids ≡ take (count d disks) (drop (bl d) (handed d))

left_room :
    (handed : ℕ → List Bid) (e : ℕ) (disks : List ℕ) (bl : ℕ → ℕ)
    → ((d : ℕ) → bl d + count d (e ∷ disks) ≤ length (handed d))
    → (d : ℕ) → put e (bl e + 1) bl d + count d disks ≤ length (handed d)
left_room handed e disks bl h d = elim (Bool-cases (d == e)) [
  | inl t ↦ let same : d ≡ e = ground arith in ground (arith, h d, ap bl same)
  | inr t ↦ ground (arith, h d)
]

pub give_out-Given :
    (handed : ℕ → List Bid) (disks : List ℕ) (bl : ℕ → ℕ)
    → ((d : ℕ) → bl d + count d disks ≤ length (handed d))
    → Given handed disks bl (give_out handed disks bl)
unfolding give_out
give_out-Given handed [] bl h = record {
  bids = [];
  returns = refl;
  many = refl;
  chosen = λ i b e. absurd (ground arith);
  on = λ d. refl;
}
give_out-Given handed (e ∷ disks) bl h =
    let room : bl e < length (handed e) = ground (arith, h e) in
    let (b, at, next) = get_elem?-some (handed e) (bl e) room in
    let rest = give_out-Given handed disks (put e (bl e + 1) bl) (left_room handed e disks bl h) in
    let bid : BlockId = record { storage = disk_file e; offset = b.offset } in
    record {
      bids = bid ∷ rest.bids;
      returns = rw (at, rest.returns) refl;
      many = omega (arith, rest.many);
      chosen = pick e disks bid rest.bids rest.chosen refl;
      on = λ d. elim (Bool-cases (e == d)) [
        | inl t ↦
            let same : e ≡ d = ground arith in
            subst
              (λ z.
                bids_on z (bid ∷ rest.bids) ≡ take (count z (e ∷ disks)) (drop (bl z) (handed z)))
              same (on_own handed e disks bl b rest.bids next (rest.on e))
        | inr t ↦ on_other handed e d disks bl b rest.bids t (rest.on d)
      ];
    }
