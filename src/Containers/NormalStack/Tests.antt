-- ===== src/Containers/NormalStack/Tests.antt =====
-- Runs of `normal_stack` with pages of one block of two elements.
use stxxl.Prelude.{ℕ, ◌≡◌, refl, Bool, List, [], ◌∷◌, some, arith, none, length, get_elem?, ap}
use stxxl.Containers.NormalStack.{Block, NormalStack, push, new_stack}
use stxxl.Containers.NormalStack.Copy.{StackType, IsSource, copy_stack, copy_stack-contents}
use stxxl.Containers.ListStack.{Event, pop_call, top_call, run_list}
use stxxl.Containers.NormalStack.Contents.{IsValid, Pushed, Pops}
use stxxl.Containers.NormalStack.Push.{push-Pushed}
use stxxl.Containers.NormalStack.Pop.{pop-Pops}
use stxxl.Containers.NormalStack.Run.{run, contents, run-run_list, new_stack-IsValid}

-- Memory full of zeros.
abbrev zero_cache : Bool → ℕ → Block ℕ
zero_cache half block index = 0

abbrev zero_disk : ℕ → Block ℕ
zero_disk block index = 0

abbrev empty_stack : NormalStack ℕ
empty_stack = new_stack zero_cache zero_disk

-- The fifth push writes a page.
abbrev four : NormalStack ℕ
four = push 1 2 4 (push 1 2 3 (push 1 2 2 (push 1 2 1 empty_stack)))

abbrev five : NormalStack ℕ
five = push 1 2 5 four

four-IsValid : IsValid 1 2 four
four-IsValid =
    let at_1 =
      push-Pushed 1 2 (omega arith) (omega arith) 1 empty_stack
        (new_stack-IsValid 1 2 (omega arith) (omega arith) zero_cache zero_disk) in
    let at_2 = push-Pushed 1 2 (omega arith) (omega arith) 2 _ at_1.valid in
    let at_3 = push-Pushed 1 2 (omega arith) (omega arith) 3 _ at_2.valid in
    (push-Pushed 1 2 (omega arith) (omega arith) 4 _ at_3.valid).valid

five-IsValid : IsValid 1 2 five
five-IsValid = (push-Pushed 1 2 (omega arith) (omega arith) 5 four four-IsValid).valid

-- Five pushes and four pops, with `top` in between: the page goes to the disk and comes back.
abbrev calls : List (Event ℕ)
calls = pop_call ∷ pop_call ∷ top_call ∷ pop_call ∷ top_call ∷ pop_call ∷ top_call ∷ []

calls_on_list : run_list calls (5 ∷ 4 ∷ 3 ∷ 2 ∷ 1 ∷ []) ≡ some (3 ∷ 2 ∷ 1 ∷ [])
unfolding run_list
calls_on_list = refl

push-Pushed_example : Pushed 1 2 5 four (push 1 2 5 four)
push-Pushed_example = push-Pushed 1 2 (omega arith) (omega arith) 5 four four-IsValid

pop-Pops_example : Pops 1 2 five
unfolding push new_stack
pop-Pops_example = pop-Pops 1 2 (omega arith) (omega arith) five five-IsValid (omega arith)

run-run_list_example : run 1 2 calls five ≡ run_list calls (contents 1 2 five)
run-run_list_example = run-run_list 1 2 (omega arith) (omega arith) calls five five-IsValid

-- A stack in internal memory, as a list.
abbrev list_stack : StackType ℕ (List ℕ)
list_stack = record {
  copy = λ s. s;
  size = length;
  top = λ s. get_elem? s 0;
  pop = λ s. elim s [ [] ↦ none | v ∷ l ↦ some l ];
}

abbrev AnyList : List ℕ → Type 0
AnyList l = Unit {0}

abbrev itself : List ℕ → List ℕ
itself l = l

list_stack-IsSource : IsSource list_stack AnyList itself
list_stack-IsSource = record {
  copy_valid = λ s w. tt;
  copy_elements = λ s w. refl;
  size = λ s w. refl;
  top = λ s v l w e. ap list_stack.top e;
  pop = λ s v l w e. (l, ap list_stack.pop e, tt, refl);
}

copy_stack-contents_example :
    (t : NormalStack ℕ) × (copy_stack 1 2 list_stack
        (5 ∷ 4 ∷ 3 ∷ 2 ∷ 1 ∷ [])
        (new_stack zero_cache zero_disk)
      ≡ some t)
    × IsValid 1 2 t
    × (contents 1 2 t ≡ 5 ∷ 4 ∷ 3 ∷ 2 ∷ 1 ∷ [])
copy_stack-contents_example =
    copy_stack-contents 1 2 (omega arith) (omega arith) list_stack-IsSource (5 ∷ 4 ∷ 3 ∷ 2 ∷ 1 ∷ [])
      zero_cache zero_disk tt
