-- ===== src/Containers/GrowShrinkStack/Requests.antt =====
-- What the loops over the requests of a page leave.
use mathlib.Core.Path.{fun_ext}
use stxxl.Prelude.{
  ℕ, zero, suc, ◌+◌, ◌-◌, ◌≡◌, ◌≢◌, ◌<◌, ◌≤◌, ◌∙◌, refl, ap, arith, Bool, ◌&&◌, ltb, leb,
  if◌then◌else◌,
}
use stxxl.Containers.GrowShrinkStack.{
  Request, no_request, finished, writing, reading, Io, perform, done, assign, complete, wait_all,
  write_page, prefetch_page,
}

pub done-done : (r : Request) → done (done r) ≡ done r
done-done no_request = refl
done-done finished = refl
done-done (writing half index bid) = refl
done-done (reading half index bid) = refl

module _ {ℓ} {A : Type ℓ} where
  assign-assign :
      (j k : ℕ) (q r : Request) (io : Io A)
      → j ≢ k
      → assign j q (assign k r io) ≡ assign k r (assign j q io)
  unfolding assign
  assign-assign j k q r io ne = ap (λ f. record io { requests = f }) (fun_ext λ i. ground arith)

  perform-assign :
      (k : ℕ) (q r : Request) (io : Io A) → perform q (assign k r io) ≡ assign k r (perform q io)
  unfolding assign perform
  perform-assign k no_request r io = refl
  perform-assign k finished r io = refl
  perform-assign k (writing half index bid) r io = refl
  perform-assign k (reading half index bid) r io = refl

  assign-ne :
      (j k : ℕ) (r : Request) (io : Io A) → j ≢ k → (assign k r io).requests j ≡ io.requests j
  unfolding assign
  assign-ne j k r io ne = ground arith

  complete-assign :
      (j k : ℕ) (r : Request) (io : Io A)
      → j ≢ k
      → complete j (assign k r io) ≡ assign k r (complete j io)
  unfolding complete
  complete-assign j k r io ne =
      ap (λ q. assign j (done q) (perform q (assign k r io))) (assign-ne j k r io ne)
      ∙ ap (assign j (done (io.requests j))) (perform-assign k (io.requests j) r io)
      ∙ assign-assign j k _ r _ ne

  wait_all-assign :
      (n m k : ℕ) (r : Request) (io : Io A)
      → k < m
      → wait_all n m (assign k r io) ≡ assign k r (wait_all n m io)
  unfolding wait_all
  wait_all-assign zero m k r io h = refl
  wait_all-assign (suc n) m k r io h =
      ap (wait_all n (m + 1)) (complete-assign m k r io (omega arith))
      ∙ wait_all-assign n (m + 1) k r (complete m io) (omega arith)

  -- The requests of a page, all started.
  unfoldable pub start_page : ℕ → ℕ → Bool → ℕ → Io A → Io A
  start_page n k half cur_bid io = record io {
    requests =
        λ j. if leb k j && ltb j (k + n) then writing half j (cur_bid + (j - k)) else io.requests j;
  }

  start_page-assign :
      (n k : ℕ) (half : Bool) (b : ℕ) (io : Io A)
      → start_page n (k + 1) half (b + 1) (assign k (writing half k b) io)
        ≡ start_page (suc n) k half b io
  unfolding start_page assign
  start_page-assign n k half b io = ap (λ f. record io { requests = f }) (fun_ext λ j. ground arith)

  -- Waiting for each request and starting the next is waiting for all, then starting all.
  pub write_page-wait_all :
      (n k : ℕ) (half : Bool) (b : ℕ) (io : Io A)
      → write_page n k half b io ≡ start_page n k half b (wait_all n k io)
  unfolding write_page wait_all
  write_page-wait_all zero k half b io =
      unfold start_page in ap (λ f. record io { requests = f }) (fun_ext λ j. ground arith)
  write_page-wait_all (suc n) k half b io =
      write_page-wait_all n (k + 1) half (b + 1) (assign k (writing half k b) (complete k io))
      ∙ ap (start_page n (k + 1) half (b + 1))
          (wait_all-assign n (k + 1) k (writing half k b) (complete k io) (omega arith))
      ∙ start_page-assign n k half b (wait_all n (k + 1) (complete k io))

  -- The requests of a page, all started to read ahead.
  unfoldable pub read_ahead : ℕ → Bool → ℕ → Io A → Io A
  read_ahead n half cur_bid io = record io {
    requests = λ j. if ltb j n then reading half j (cur_bid - n + j) else io.requests j;
  }

  pub prefetch_page-read_ahead :
      (n : ℕ) (half : Bool) (cur_bid : ℕ) (io : Io A)
      → n ≤ cur_bid
      → prefetch_page n half cur_bid io ≡ read_ahead n half cur_bid io
  unfolding prefetch_page read_ahead
  prefetch_page-read_ahead zero half b io h =
      ap (λ f. record io { requests = f }) (fun_ext λ j. ground arith)
  prefetch_page-read_ahead (suc n) half b io h =
      prefetch_page-read_ahead n half (b - 1) (assign n (reading half n (b - 1)) io) (omega arith)
      ∙ unfold assign in ap (λ f. record io { requests = f }) (fun_ext λ j. ground arith)
