-- ===== src/Containers/GrowShrinkStack/Settled.antt =====
-- That a request that is done changes no element of a `grow_shrink_stack`.
use stxxl.Prelude.{
  ℕ, zero, suc, ◌+◌, ◌-◌, ◌*◌, ◌/◌, ◌%◌, ◌==◌, ◌≡◌, ◌≢◌, ◌<◌, ◌≤◌, ◌∙◌, refl, sym, ap, arith, Bool,
  true, false, not, ltb, leb, Bool-cases, inl, inr,
}
use stxxl.Containers.NormalStack.{same_bool}
use stxxl.Containers.NormalStack.Addresses.{div-below}
use stxxl.Containers.GrowShrinkStack.{
  Request, no_request, finished, writing, reading, Io, GrowShrinkStack, perform, done, assign,
  complete, wait_all,
}
use stxxl.Containers.GrowShrinkStack.Contents.{
  held, on_disk, IsFine, unused, settled, writes, reads, at, IsValid,
}

-- The block of the disk that the request `k` is for.
abbrev pub block_of : ℕ → ℕ → ℕ → ℕ
block_of bpp n k = n - bpp + k

equal_self : (k : ℕ) → (k == k) ≡ true
equal_self k = ground arith

not_own : (c : Bool) → same_bool c (not c) ≡ false
not_own true = refl
not_own false = refl

own_not : (c : Bool) → same_bool (not c) (not c) ≡ true
own_not true = refl
own_not false = refl

module _ {ℓ} (bpp : ℕ) {A : Type ℓ} (c : Bool) (n : ℕ) where
  pub IsFine-cong :
      (io io' : Io A) (k : ℕ) (r : Request)
      → io'.cache (not c) k ≡ io.cache (not c) k
      → io'.disk (block_of bpp n k) ≡ io.disk (block_of bpp n k)
      → IsFine bpp c n io k r
      → IsFine bpp c n io' k r
  IsFine-cong io io' k r p q (unused e h) = unused e h
  IsFine-cong io io' k r p q (settled e h) = settled e (λ l. p ∙ h l ∙ sym q)
  IsFine-cong io io' k r p q (writes e h) = writes e h
  IsFine-cong io io' k r p q (reads e h) = reads e h

  pub held-cong :
      (io io' : Io A) (k : ℕ) (r : Request)
      → io'.cache (not c) k ≡ io.cache (not c) k
      → io'.disk (block_of bpp n k) ≡ io.disk (block_of bpp n k)
      → IsFine bpp c n io k r
      → held r io' (block_of bpp n k) ≡ held r io (block_of bpp n k)
  held-cong io io' k r p q (unused e h) = rw e q
  held-cong io io' k r p q (settled e h) = rw e q
  held-cong io io' k r p q (writes e h) = rw e p
  held-cong io io' k r p q (reads e h) = rw e q

  -- From `io` to `io'` the request `k` was done, and nothing else happened.
  record Moves (k : ℕ) (io io' : Io A) : Type ℓ where
    own : (b : ℕ) → io'.cache c b ≡ io.cache c b
    others_cache : (m : ℕ) → m ≢ k → io'.cache (not c) m ≡ io.cache (not c) m
    others_disk : (j : ℕ) → j ≢ block_of bpp n k → io'.disk j ≡ io.disk j
    others_requests : (m : ℕ) → m ≢ k → io'.requests m ≡ io.requests m
    fine : IsFine bpp c n io' k (io'.requests k)
    same :
        0 < n
        → held (io'.requests k) io' (block_of bpp n k) ≡ held (io.requests k) io (block_of bpp n k)
    is_done : done (io'.requests k) ≡ io'.requests k

  -- The request `k` of `io` is `q`, done, in `io'`, which has the requests of `io` else.
  idle-Moves :
      (k : ℕ) (io : Io A) (r : Request)
      → io.requests k ≡ r
      → done r ≡ r
      → IsFine bpp c n io k r
      → Moves k io (assign k r io)
  unfolding assign
  idle-Moves k io r e d f = record {
    own = λ b. refl;
    others_cache = λ m ne. refl;
    others_disk = λ j ne. refl;
    others_requests = λ m ne. ground arith;
    fine = rw (equal_self k) (IsFine-cong io _ k r refl refl f);
    same = λ l. rw (equal_self k, e) (held-cong io (assign k r io) k r refl refl f);
    is_done = rw (equal_self k) d;
  }

  writing-Moves :
      (k : ℕ) (io : Io A)
      → io.requests k ≡ writing (not c) k (block_of bpp n k)
      → Moves k io (assign k finished (perform (writing (not c) k (block_of bpp n k)) io))
  unfolding assign perform
  writing-Moves k io e = record {
    own = λ b. refl;
    others_cache = λ m ne. refl;
    others_disk = λ j ne. ground arith;
    others_requests = λ m ne. ground arith;
    fine = rw (equal_self k) (settled refl (λ l. rw (equal_self (block_of bpp n k)) refl));
    same = λ l. rw (equal_self k, e, equal_self (block_of bpp n k)) refl;
    is_done = rw (equal_self k) refl;
  }

  reading-Moves :
      (k : ℕ) (io : Io A)
      → io.requests k ≡ reading (not c) k (block_of bpp n k)
      → Moves k io (assign k finished (perform (reading (not c) k (block_of bpp n k)) io))
  unfolding assign perform
  reading-Moves k io e = record {
    own = λ b. rw (not_own c) refl;
    others_cache = λ m ne. ground arith;
    others_disk = λ j ne. refl;
    others_requests = λ m ne. ground arith;
    fine = rw (equal_self k) (settled refl (λ l. rw (own_not c, equal_self k) refl));
    same = λ l. rw (equal_self k, e) refl;
    is_done = rw (equal_self k) refl;
  }

  complete-Moves :
      (k : ℕ) (io : Io A) → IsFine bpp c n io k (io.requests k) → Moves k io (complete k io)
  unfolding complete perform
  complete-Moves k io (unused e h) = rw e (idle-Moves k io no_request e refl (unused refl h))
  complete-Moves k io (settled e h) = rw e (idle-Moves k io finished e refl (settled refl h))
  complete-Moves k io (writes e h) = rw e (writing-Moves k io e)
  complete-Moves k io (reads e h) = rw e (reading-Moves k io e)

  Moves-on_disk :
      (k : ℕ) (io io' : Io A)
      → Moves k io io'
      → ((m : ℕ) → m < bpp → IsFine bpp c n io m (io.requests m))
      → (j : ℕ) → j < n
      → on_disk (n - bpp) io' j ≡ on_disk (n - bpp) io j
  unfolding on_disk
  Moves-on_disk k io io' v fine j l = elim (Bool-cases (leb (n - bpp) j)) [
    | inr t ↦ let ne : j ≢ block_of bpp n k = ground arith in rw t (v.others_disk j ne)
    | inl t ↦
        let m = j - (n - bpp) in
        let le : n - bpp ≤ j = ground arith in
        let here : j ≡ block_of bpp n m = omega arith in
        rw t (elim (Bool-cases (m == k)) [
          | inl u ↦
              let eq : m ≡ k = ground arith in
              ap (λ z. held (io'.requests z) io' j) eq
              ∙ ap (held (io'.requests k) io') (here ∙ ap (block_of bpp n) eq)
              ∙ v.same (omega arith)
              ∙ ap (held (io.requests k) io) (sym (here ∙ ap (block_of bpp n) eq))
              ∙ ap (λ z. held (io.requests z) io j) (sym eq)
          | inr u ↦
              let ne : m ≢ k = ground arith in
              ap (λ z. held z io' j) (v.others_requests m ne)
              ∙ ap (held (io.requests m) io') here
              ∙ held-cong io io' m (io.requests m) (v.others_cache m ne)
                  (v.others_disk (block_of bpp n m) (omega arith)) (fine m (omega arith))
              ∙ ap (held (io.requests m) io) (sym here)
        ])
  ]

  Moves-fine :
      (k : ℕ) (io io' : Io A)
      → Moves k io io'
      → (m : ℕ) → IsFine bpp c n io m (io.requests m)
      → IsFine bpp c n io' m (io'.requests m)
  Moves-fine k io io' v m f = elim (Bool-cases (m == k)) [
    | inl u ↦ let eq : m ≡ k = ground arith in rw eq v.fine
    | inr u ↦
        let ne : m ≢ k = ground arith in
        rw (v.others_requests m ne) (
          IsFine-cong io io' m (io.requests m) (v.others_cache m ne)
            (v.others_disk (block_of bpp n m) (omega arith)) f)
  ]

-- `s` with other requests, memory and disk.
abbrev pub with_io {ℓ} : {A : Type ℓ} → GrowShrinkStack A → Io A → GrowShrinkStack A
with_io s io = record s { io = io }

module _ {ℓ} (bpp bs : ℕ) (hs : 0 < bs) {A : Type ℓ} where
  -- `io` has the elements of `s`.
  pub record Keeps (s : GrowShrinkStack A) (io : Io A) : Type ℓ where
    pub valid : IsValid bpp bs (with_io s io)
    pub same : (i : ℕ) → at bpp bs (with_io s io) i ≡ at bpp bs s i

  Moves-Keeps :
      (s : GrowShrinkStack A) (k : ℕ) (io : Io A)
      → IsValid bpp bs s
      → Moves bpp s.cached s.n_bids k s.io io
      → Keeps s io
  unfolding at
  Moves-Keeps s k io w v = record {
    valid = record {
      pages = w.pages;
      whole = w.whole;
      counted = w.counted;
      fits = w.fits;
      busy = w.busy;
      pointed = w.pointed;
      fine = λ m l. Moves-fine bpp s.cached s.n_bids k s.io io v m (w.fine m l);
    };
    same = λ i. elim (Bool-cases (ltb i (s.n_bids * bs))) [
      | inl t ↦
          let low : i < s.n_bids * bs = ground arith in
          rw t (
            ap (λ b. b (i % bs))
              (Moves-on_disk bpp s.cached s.n_bids k s.io io v w.fine (i / bs)
                (div-below bs hs i s.n_bids low)))
      | inr t ↦ rw t (ap (λ b. b ((i - s.n_bids * bs) % bs)) (v.own ((i - s.n_bids * bs) / bs)))
    ];
  }

  -- A request of the page that is done, at any time, leaves a valid stack valid and its elements as they
  -- were. Blocks have at least one element.
  pub complete-Keeps :
      (s : GrowShrinkStack A) (k : ℕ) → IsValid bpp bs s → k < bpp → Keeps s (complete k s.io)
  complete-Keeps s k w l =
      Moves-Keeps s k (complete k s.io) w (complete-Moves bpp s.cached s.n_bids k s.io (w.fine k l))

  pub wait_all-Keeps :
      (m k : ℕ) (s : GrowShrinkStack A)
      → IsValid bpp bs s
      → k + m ≤ bpp
      → Keeps s (wait_all m k s.io)
        × ((j : ℕ)
            → k ≤ j
            → j < k + m
            → done ((wait_all m k s.io).requests j) ≡ (wait_all m k s.io).requests j)
        × ((j : ℕ) → j < k → (wait_all m k s.io).requests j ≡ s.io.requests j)
  unfolding wait_all
  wait_all-Keeps zero k s w l =
      (record { valid = w; same = λ i. refl }, (λ j p q. absurd (omega arith)), λ j p. refl)
  wait_all-Keeps (suc m) k s w l =
      let io = complete k s.io in
      let moves = complete-Moves bpp s.cached s.n_bids k s.io (w.fine k (omega arith)) in
      let first = Moves-Keeps s k io w moves in
      let (rest, is_done, below) =
        wait_all-Keeps m (k + 1) (with_io s io) first.valid (omega arith) in
      (
        record { valid = rest.valid; same = λ i. rest.same i ∙ first.same i },
        (λ j p q. elim (Bool-cases (j == k)) [
          | inl t ↦ let eq : j ≡ k = ground arith in rw (below j (omega arith), eq) moves.is_done
          | inr t ↦ is_done j (ground arith) (omega arith)
        ]),
        λ j p. below j (omega arith) ∙ moves.others_requests j (omega arith),
      )
