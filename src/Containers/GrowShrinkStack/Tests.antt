-- ===== src/Containers/GrowShrinkStack/Tests.antt =====
-- Runs of `grow_shrink_stack` with pages of one block of two elements.
use stxxl.Prelude.{ℕ, ◌≡◌, refl, Bool, List, [], ◌∷◌, some, arith}
use stxxl.Containers.NormalStack.{Block, store}
use stxxl.Containers.ListStack.{
  Event, push_call, pop_call, top_call, background, run_list, run_stack,
}
use stxxl.Containers.GrowShrinkStack.{
  GrowShrinkStack, push, push_cached, push_overflow, pop, pop_cached, pop_underflow, top, new_stack,
  complete, assign, perform, write_page, prefetch_page, wait_requests, wait_all,
}
use stxxl.Containers.GrowShrinkStack.Contents.{IsValid}
use stxxl.Containers.GrowShrinkStack.Push.{push-Pushed}
use stxxl.Containers.GrowShrinkStack.Schedule.{
  run, io_step, contents, run_events-run_list, new_stack-IsValid,
}

-- Memory full of zeros.
abbrev zero_cache : Bool → ℕ → Block ℕ
zero_cache half block index = 0

abbrev zero_disk : ℕ → Block ℕ
zero_disk block index = 0

abbrev nothing : GrowShrinkStack ℕ
nothing = new_stack zero_cache zero_disk

abbrev two : GrowShrinkStack ℕ
two = push 1 2 2 (push 1 2 1 nothing)

-- A page is on its way to the disk.
abbrev three : GrowShrinkStack ℕ
three = push 1 2 3 two

two-IsValid : IsValid 1 2 two
two-IsValid =
    let at_1 =
      push-Pushed 1 2 (omega arith) (omega arith) 1 nothing
        (new_stack-IsValid 1 2 (omega arith) (omega arith) zero_cache zero_disk) in
    (push-Pushed 1 2 (omega arith) (omega arith) 2 _ at_1.valid).valid

three-IsValid : IsValid 1 2 three
three-IsValid = (push-Pushed 1 2 (omega arith) (omega arith) 3 two two-IsValid).valid

-- Two pages go to the disk and come back; a request is done early, another late.
abbrev events : List (Event ℕ)
events =
    push_call 4
    ∷ push_call 5
    ∷ background 0
    ∷ pop_call
    ∷ top_call
    ∷ pop_call
    ∷ pop_call
    ∷ top_call
    ∷ pop_call
    ∷ top_call
    ∷ []

events_on_list : run_list events (3 ∷ 2 ∷ 1 ∷ []) ≡ some (4 ∷ 2 ∷ 1 ∷ [])
unfolding run_list
events_on_list = refl

events_on_stack : run 1 2 events three ≡ some (4 ∷ 2 ∷ 1 ∷ [])
unfolding run_stack push push_cached push_overflow pop pop_cached pop_underflow top new_stack
    io_step complete assign perform write_page prefetch_page wait_requests wait_all store
events_on_stack = refl

run_events-run_list_example : run 1 2 events three ≡ run_list events (contents 1 2 three)
run_events-run_list_example =
    run_events-run_list 1 2 (omega arith) (omega arith) events three three-IsValid
