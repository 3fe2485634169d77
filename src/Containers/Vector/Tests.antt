-- ===== src/Containers/Vector/Tests.antt =====
-- Runs of a vector of nine numbers, in blocks of two and pages of two blocks, with one slot in the cache.
use stxxl.Prelude.{ℕ, ◌≡◌, ◌<◌, refl, arith, Option, none, some, List, [], ◌∷◌, iota, ◌+◌}
use stxxl.Containers.NormalStack.{Block}
use stxxl.Containers.Pager.{LruPager, new_pager, kick, hit}
use stxxl.Containers.Pager.Recency.{new_pager-IsValid}
use stxxl.Containers.Pager.Recency
use stxxl.Containers.Pager.Policy.{lru, lru-IsPolicy}
use stxxl.Containers.Vector.{
  Vector, blocked_index, move_blocks, read_page, write_page, replace, occupy, load, fetch, element,
  const_element, read, read_mutable, write, uninitialized, dirty,
}
use stxxl.Containers.Vector.Resizing.{reserve, evict, evict_pages, resize, push_back, new_vector}
use stxxl.Containers.Vector.Flushing.{
  flush_slot, flush_slots, flush, renew_cache, page_externally_updated,
}
use stxxl.Containers.Vector.Calls.{
  Call, const_read_at, read_at, write_at, push, resize_to, flush_all, renew, Array, call, run,
  allowed, all_allowed, effect, answers,
}
use stxxl.Containers.Vector.Valid.{IsValid}
use stxxl.Containers.Vector.Fetch.{Fetched, fetch-Fetched}
use stxxl.Containers.Vector.Write.{Writes, write-Writes}
use stxxl.Containers.Vector.Sizes.{Sized, resize-Sized}
use stxxl.Containers.Vector.Ends.{new_vector-IsValid}
use stxxl.Containers.Vector.Flush.{Flushed, flush-Flushed, Updated, page_externally_updated-Updated}
use stxxl.Containers.Vector.Represents.{Represents, no_some}
use stxxl.Containers.Vector.Run.{Ran, run-Ran}
use stxxl.Containers.Vector.Positions.{next_position, set_position}
use stxxl.Containers.Vector.Positions.Steps.{next_position-set_position}

abbrev blank : ℕ → Block ℕ
blank b j = 0

abbrev nine : Vector LruPager ℕ
nine = new_vector lru 2 2 blank blank (λ s. 0) (new_pager 1) 9

abbrev calls : List (Call ℕ)
calls =
    write_at 0 7
    ∷ write_at 8 9
    ∷ read_at 0
    ∷ const_read_at 8
    ∷ push 5
    ∷ flush_all
    ∷ const_read_at 9
    ∷ resize_to 1
    ∷ renew blank
    ∷ const_read_at 0
    ∷ []

abbrev results : {B : Type 0} → Option (List (Option ℕ) × B) → Option (List (Option ℕ))
results none = none
results (some r) = some r.0

-- Pages are kicked out and come back with what was written.
kicked_pages :
    results (run lru 2 2 blank calls nine)
    ≡ some (none ∷ none ∷ some 7 ∷ some 9 ∷ none ∷ none ∷ some 5 ∷ none ∷ none ∷ some 7 ∷ [])
unfolding run call read read_mutable write const_element element fetch load replace occupy read_page
    write_page move_blocks push_back resize reserve evict evict_pages flush flush_slots flush_slot
    renew_cache new_vector blocked_index hit kick new_pager iota
kicked_pages = refl

positive_two : 0 < 2
positive_two = omega arith

abbrev ValidLru : LruPager → Type 0
ValidLru = Recency.IsValid

nine-IsValid : IsValid lru ValidLru 2 2 nine
unfolding new_pager
nine-IsValid =
    new_vector-IsValid lru ValidLru 2 2 positive_two positive_two blank blank (λ s. 0) (new_pager 1)
      9 (new_pager-IsValid 1) (omega arith)

abbrev unknown_nine : Array ℕ
unknown_nine = record { size = 9; known = λ i. none }

nine-Represents : Represents lru ValidLru 2 2 nine unknown_nine
unfolding new_vector
nine-Represents = record {
  valid = nine-IsValid;
  size = refl;
  elements = λ i y e. absurd (no_some lru ValidLru 2 2 y e);
}

run-Ran_example :
    Ran lru ValidLru 2 2 positive_two positive_two lru-IsPolicy blank
      (answers calls unknown_nine)
      nine
      calls
unfolding all_allowed allowed effect
run-Ran_example =
    run-Ran lru ValidLru 2 2 positive_two positive_two lru-IsPolicy blank calls nine unknown_nine
      refl nine-Represents

fetch-Fetched_example : Fetched lru ValidLru 2 2 1 nine (fetch lru 2 2 1 nine)
unfolding new_vector
fetch-Fetched_example =
    fetch-Fetched lru ValidLru 2 2 lru-IsPolicy 1 nine nine-IsValid (omega arith)

write-Writes_example : Writes lru ValidLru 2 2 nine 8 6 (write lru 2 2 8 6 nine)
unfolding new_vector
write-Writes_example =
    write-Writes lru ValidLru 2 2 lru-IsPolicy positive_two positive_two nine 8 6 nine-IsValid
      (omega arith)

flush-Flushed_example : Flushed lru ValidLru 2 2 nine (flush lru 2 2 nine)
flush-Flushed_example = flush-Flushed lru ValidLru 2 2 nine positive_two positive_two nine-IsValid

resize-Sized_example : Sized lru ValidLru 2 2 nine 3 (resize lru 2 2 blank 3 nine)
resize-Sized_example =
    resize-Sized lru ValidLru 2 2 positive_two positive_two blank 3 nine nine-IsValid

next_position-set_position_example :
    next_position 3 2 (set_position 3 2 11) ≡ set_position 3 2 (11 + 1)
next_position-set_position_example =
    next_position-set_position 3 2 (omega arith) (omega arith) 11 (omega arith)

page_externally_updated-Updated_example :
    Updated lru ValidLru 2 2 nine 1 (page_externally_updated lru 2 2 1 nine)
unfolding new_vector
page_externally_updated-Updated_example =
    page_externally_updated-Updated lru ValidLru 2 2 nine 1 nine-IsValid (omega arith)
      (λ e. let f : uninitialized ≡ dirty = e in cc)
