-- ===== src/Containers/Vector/Calls.antt =====
-- The calls of a vector, and those of a growing array of which some elements are known: what the vector
-- stands for. An array says nothing of its pages, of its cache and of the blocks.
use stxxl.Prelude.{
  ℕ, ◌+◌, ◌-◌, ◌^◌, ◌≡◌, Bool, true, ltb, ◌&&◌, Option, none, some, List, [], ◌∷◌, if◌then◌else◌,
  ◌>>=◌, put,
}
use stxxl.Containers.NormalStack.{Block}
use stxxl.Containers.Pager.Policy.{Policy}
use stxxl.Containers.Vector.{Vector, read, read_mutable, write}
use stxxl.Containers.Vector.Resizing.{reserve, resize, clear, push_back, pop_back}
use stxxl.Containers.Vector.Flushing.{flush, renew_cache}

pub data Call {ℓ} (A : Type ℓ) : Type ℓ where
  const_read_at : ℕ → Call A
  read_at : ℕ → Call A
  write_at : ℕ → A → Call A
  push : A → Call A
  pop : Call A
  resize_to : ℕ → Call A
  reserve_for : ℕ → Call A
  clear_all : Call A
  flush_all : Call A
  renew : (ℕ → Block A) → Call A

-- The size, and the elements that are known.
pub record Array {ℓ} (A : Type ℓ) : Type ℓ where
  pub size : ℕ
  pub known : ℕ → Option A

module _ {ℓ} {A : Type ℓ} where
  -- Reads and writes are inside of the array, and what is popped is there.
  unfoldable pub allowed : Call A → Array A → Bool
  allowed (const_read_at i) a = ltb i a.size
  allowed (read_at i) a = ltb i a.size
  allowed (write_at i x) a = ltb i a.size
  allowed pop a = ltb 0 a.size && ltb a.size (2 ^ 64)
  allowed _ a = true

  -- The elements below `n`.
  abbrev pub cut : ℕ → (ℕ → Option A) → ℕ → Option A
  cut n f i = if ltb i n then f i else none

  unfoldable pub effect : Call A → Array A → Array A
  effect (write_at i x) a = record a { known = put i (some x) a.known }
  effect (push x) a = record { size = a.size + 1; known = put a.size (some x) (cut a.size a.known) }
  effect pop a = record { size = a.size - 1; known = cut (a.size - 1) a.known }
  effect (resize_to n) a = record { size = n; known = cut n a.known }
  effect clear_all a = record { size = 0; known = λ i. none }
  effect _ a = a

  -- What a call gives, where it is known.
  unfoldable pub answer : Call A → Array A → Option A
  answer (const_read_at i) a = a.known i
  answer (read_at i) a = a.known i
  answer _ a = none

  unfoldable pub all_allowed : List (Call A) → Array A → Bool
  all_allowed [] a = true
  all_allowed (c ∷ calls) a = allowed c a && all_allowed calls (effect c a)

  unfoldable pub answers : List (Call A) → Array A → List (Option A)
  answers [] a = []
  answers (c ∷ calls) a = answer c a ∷ answers calls (effect c a)

-- Results that agree with the answers: a known one is given, and of an unknown one nothing is said.
pub data Agrees {ℓ} {A : Type ℓ} : List (Option A) → List (Option A) → Type ℓ where
  end : Agrees [] []
  unknown : (r : Option A) {s t : List (Option A)} → Agrees s t → Agrees (none ∷ s) (r ∷ t)
  same :
      (x : A) (r : Option A) {s t : List (Option A)}
      → r ≡ some x
      → Agrees s t
      → Agrees (some x ∷ s) (r ∷ t)

module _ {ℓ} {G : Type 0} {A : Type ℓ} (policy : Policy G) (page_size block_size : ℕ)
    (fresh : ℕ → Block A) where
  -- A call of the vector, with what a read gives.
  unfoldable pub call : Call A → Vector G A → Option (Option A × Vector G A)
  call (const_read_at i) v = read policy page_size block_size i v >>= (λ q. some (some q.0, q.1))
  call (read_at i) v = read_mutable policy page_size block_size i v >>= (λ q. some (some q.0, q.1))
  call (write_at i x) v = write policy page_size block_size i x v >>= (λ w. some (none, w))
  call (push x) v = push_back policy page_size block_size fresh x v >>= (λ w. some (none, w))
  call pop v = some (none, pop_back policy page_size block_size fresh v)
  call (resize_to n) v = some (none, resize policy page_size block_size fresh n v)
  call (reserve_for n) v = some (none, reserve policy page_size block_size fresh n v)
  call clear_all v = some (none, clear policy page_size block_size v)
  call flush_all v = some (none, flush policy page_size block_size v)
  call (renew cache) v = some (none, renew_cache policy page_size block_size cache v)

  unfoldable pub run : List (Call A) → Vector G A → Option (List (Option A) × Vector G A)
  run [] v = some ([], v)
  run (c ∷ calls) v = call c v >>= (λ q. run calls q.1 >>= (λ r. some (q.0 ∷ r.0, r.1)))
