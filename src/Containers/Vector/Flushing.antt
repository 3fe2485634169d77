-- ===== src/Containers/Vector/Flushing.antt =====
-- The writing of the cache of a vector to the disk: include/stxxl/bits/containers/vector.h.
use stxxl.Prelude.{
  ℕ, zero, suc, ◌+◌, ◌==◌, Bool, true, false, [], ◌∷◌, ◌++◌, Option, none, some, ltb, if◌then◌else◌,
  count, put,
}
use stxxl.Containers.NormalStack.{Block}
use stxxl.Containers.Pager.Policy.{Policy}
use stxxl.Containers.Vector.{Vector, valid_on_disk, dirty, write_page}

module _ {ℓ} {G : Type 0} {A : Type ℓ} (policy : Policy G) (page_size block_size : ℕ) where
  -- One round of the second loop of `flush`; `used` are the slots that are not free.
  unfoldable pub flush_slot : (ℕ → Bool) → ℕ → Vector G A → Vector G A
  flush_slot used slot v =
      let page = v.slot_to_page slot in
      let w : Vector G A = record v { free_slots = v.free_slots ++ (slot ∷ []) } in
      elim (used slot) [
        | false ↦ w
        | true ↦
            let written = write_page policy page_size block_size page slot w in
            record written { page_to_slot = put page none written.page_to_slot }
      ]

  -- The loop, for `n` slots from `slot` on.
  unfoldable pub flush_slots : (ℕ → Bool) → ℕ → ℕ → Vector G A → Vector G A
  flush_slots used zero slot v = v
  flush_slots used (suc n) slot v = flush_slots used n (slot + 1) (flush_slot used slot v)

  unfoldable pub flush : Vector G A → Vector G A
  flush v =
      let used = λ (s : ℕ). count s v.free_slots == 0 in
      flush_slots used (policy.slots v.pager) 0 (record v { free_slots = [] })

  unfoldable pub page_externally_updated : ℕ → Vector G A → Option (Vector G A)
  page_externally_updated page v =
      let updated = λ (w : Vector G A).
        some (record w { page_status = put page valid_on_disk w.page_status }) in
      if ltb page v.n_pages
      then elim (v.page_status page) [
        | dirty ↦ none
        | _ ↦ elim (v.page_to_slot page) [
          | none ↦ updated v
          | some slot ↦ updated (record v {
            free_slots = v.free_slots ++ (slot ∷ []);
            page_to_slot = put page none v.page_to_slot;
          })
        ]
      ]
      else none

  -- `allocate_page_cache`, with what the new cache holds, after `deallocate_page_cache`
  unfoldable pub renew_cache : (ℕ → Block A) → Vector G A → Vector G A
  renew_cache fresh v = record (flush v) { cache = fresh }
