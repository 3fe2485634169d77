-- ===== src/Mng/Allocator/Disk.antt =====
-- The class `disk_allocator`: its state, and the operations that change it. Positions and sizes are
-- non-negative, and stay at most the size of the disk file, so an `int64` holds them.
use stxxl.Prelude.{
  ℕ, zero, suc, ◌+◌, ◌-◌, ◌/◌, ◌==◌, Bool, List, [], ◌∷◌, ◌++◌, none, some, ltb, ◌&&◌, ◌≡◌,
  if◌then◌else◌, length, take, drop,
}
use stxxl.Mng.Allocator.FreeMap.{Place, FreeMap, find_fit}
use stxxl.Mng.Allocator.Region.{Error, out_of_memory, assertion, added, refused, add_region}
use stxxl.Mng.Allocator.Taking.{take_space}

-- `file_size` is the size that `storage->set_size` was given last.
pub record DiskAllocator : Type 0 where
  pub free_space : FreeMap
  pub free_bytes : ℕ
  pub disk_bytes : ℕ
  pub cfg_bytes : ℕ
  pub file_size : ℕ
  pub autogrow : Bool

-- A call that returns, one that throws, each with the state that it leaves, and lack of fuel.
pub data Outcome {ℓ} (A : Type ℓ) : Type ℓ where
  done : A → DiskAllocator → Outcome A
  thrown : Error → DiskAllocator → Outcome A
  out_of_fuel : Outcome A

abbrev pub M {ℓ} : Type ℓ → Type ℓ
M A = DiskAllocator → Outcome A

infixl 5 ◌>>=◌ ◌>>◌
abbrev pub ◌>>=◌ {ℓ κ} : {A : Type ℓ} {B : Type κ} → M A → (A → M B) → M B
◌>>=◌ m f a = elim (m a) [
  | done x a' ↦ f x a'
  | thrown e a' ↦ thrown e a'
  | out_of_fuel ↦ out_of_fuel
]

abbrev pub ◌>>◌ {ℓ} : {B : Type ℓ} → M (Unit {0}) → M B → M B
◌>>◌ m k = m >>= λ _. k

pub >>=-done {ℓ κ} :
    {A : Type ℓ} {B : Type κ} (m : M A) (f : A → M B) {x : A} {a b : DiskAllocator}
    → m a ≡ done x b
    → (m >>= f) a ≡ f x b
>>=-done m f h = rw (h, ◌>>=◌)

pub >>=-thrown {ℓ κ} :
    {A : Type ℓ} {B : Type κ} (m : M A) (f : A → M B) {e : Error} {a b : DiskAllocator}
    → m a ≡ thrown e b
    → (m >>= f) a ≡ thrown e b
>>=-thrown m f h = rw (h, ◌>>=◌)

abbrev pub pure {ℓ} : {A : Type ℓ} → A → M A
pure x a = done x a

unfoldable pub add_free_region : Place → M (Unit {0})
add_free_region r a = elim (add_region r a.free_space) [
  | added m ↦ done tt (record a { free_space = m; free_bytes = a.free_bytes + r.second })
  | refused e ↦ thrown e a
]

unfoldable pub set_size : ℕ → M (Unit {0})
set_size n a = done tt (record a { file_size = n })

unfoldable pub grow_file : ℕ → M (Unit {0})
unfolding set_size
grow_file n a =
    if n == 0
    then done tt a
    else (do
      set_size (a.disk_bytes + n)
      add_free_region (record { first = a.disk_bytes; second = n })
      λ b. done tt (record b { disk_bytes = b.disk_bytes + n }))
        a

-- The constructor, for a configured size and `autogrow` flag.
unfoldable pub new_allocator : ℕ → Bool → Outcome (Unit {0})
new_allocator size autogrow = grow_file size (record {
  free_space = [];
  free_bytes = 0;
  disk_bytes = 0;
  cfg_bytes = size;
  file_size = 0;
  autogrow = autogrow;
})

-- The destructor.
unfoldable pub close : DiskAllocator → DiskAllocator
close a = if ltb a.cfg_bytes a.disk_bytes then record a { file_size = a.cfg_bytes } else a

-- `BID<BlockSize>` on this disk: its size is `BlockSize`.
pub record Bid : Type 0 where
  pub offset : ℕ

unfoldable pub delete_block : ℕ → Bid → M (Unit {0})
delete_block block_size b = add_free_region (record { first = b.offset; second = block_size })

-- The loop that adds up the sizes.
unfoldable pub requested_size : ℕ → ℕ → List Bid → ℕ
requested_size block_size acc [] = acc
requested_size block_size acc (b ∷ bids) = requested_size block_size (acc + block_size) bids

-- The loop that hands out the positions from `pos` on.
unfoldable pub assign_offsets : ℕ → ℕ → List Bid → List Bid
assign_offsets block_size pos [] = []
assign_offsets block_size pos (b ∷ bids) =
    record b { offset = pos } ∷ assign_offsets block_size (pos + block_size) bids

-- The first test: the free bytes must suffice, or the file grows.
unfoldable pub ensure_free : ℕ → M (Unit {0})
ensure_free requested a =
    if ltb a.free_bytes requested
    then (if a.autogrow then grow_file requested a else thrown out_of_memory a)
    else done tt a

-- The second: for one block the file grows where no free region is large enough.
unfoldable pub ensure_region : ℕ → ℕ → M (Unit {0})
ensure_region block_size requested a = elim (find_fit requested a.free_space) [
  | none ↦ if requested == block_size then grow_file block_size a else done tt a
  | some s ↦ done tt a
]

-- The region that was found is handed out from its start.
unfoldable pub use_region : ℕ → ℕ → List Bid → Place → M (List Bid)
use_region block_size requested bids s a = done (assign_offsets block_size s.first bids) (record a {
  free_space = take_space requested s a.free_space;
  free_bytes = a.free_bytes - requested;
})

-- The end of the function: the region that is found is used, else each half of the blocks is
-- asked for on its own, by `again`.
unfoldable pub hand_out : (List Bid → M (List Bid)) → ℕ → ℕ → List Bid → M (List Bid)
hand_out again block_size requested bids a = elim (find_fit requested a.free_space) [
  | some s ↦ use_region block_size requested bids s a
  | none ↦
      if ltb block_size requested && ltb 1 (length bids)
      then (do
        left ← again (take (length bids / 2) bids)
        right ← again (drop (length bids / 2) bids)
        pure (left ++ right))
          a
      else thrown assertion a
]

-- The fuel bounds the depth of the recursion on the halves of the blocks.
unfoldable pub new_blocks : ℕ → ℕ → List Bid → M (List Bid)
new_blocks zero block_size bids = λ a. out_of_fuel
new_blocks (suc k) block_size bids =
    let requested = requested_size block_size 0 bids in
    do
      ensure_free requested
      ensure_region block_size requested
      hand_out (λ part. new_blocks k block_size part) block_size requested bids
