-- ===== src/Containers/Deque/Tests.antt =====
-- Runs of a deque.
use stxxl.Prelude.{ℕ, ◌≡◌, refl, arith, List, [], ◌∷◌, some, get_or}
use stxxl.Containers.Deque.{
  Deque, double_array, put_front, put_back, push_front, push_back, pop_front, pop_back, front, back,
  at, empty, resize,
}
use stxxl.Containers.Deque.Contents.{IsValid, contents}
use stxxl.Containers.Deque.Iterator.{Indexes, plus-Indexes}
use stxxl.Containers.Deque.Resize.{Resized, resize-Resized}
use stxxl.Containers.Deque.Run.{
  Call, push_front_call, push_back_call, pop_front_call, pop_back_call, front_call, back_call,
  at_call, run, run_list, run_calls-run_list,
}

-- The elements 7, 8 and 9 in a vector of four places, around its end; what is free holds 0.
abbrev three : Deque ℕ
three = record {
  elements = λ j. get_or (9 ∷ 0 ∷ 7 ∷ 8 ∷ []) j 0;
  vector_size = 4;
  m_begin = 2;
  m_end = 1;
  m_size = 3;
}

abbrev fresh : ℕ → ℕ
fresh j = 0

three-IsValid : IsValid three
three-IsValid = record { inside = omega arith; room = omega arith; ends = refl }

three-contents : contents three ≡ 7 ∷ 8 ∷ 9 ∷ []
three-contents = refl

-- The vector doubles at the first call.
abbrev calls : List (Call ℕ)
calls =
    push_front_call 6
    ∷ push_back_call 10
    ∷ front_call
    ∷ back_call
    ∷ pop_back_call
    ∷ pop_front_call
    ∷ at_call 2
    ∷ []

calls_on_deque : run fresh calls three ≡ some (6 ∷ 10 ∷ 9 ∷ [])
unfolding run push_front push_back pop_front pop_back front back at empty double_array put_front
    put_back
calls_on_deque = refl

run_calls-run_list_example : run fresh calls three ≡ run_list calls (contents three)
run_calls-run_list_example = run_calls-run_list fresh calls three three-IsValid

resize-Resized_example : Resized 6 three (resize fresh 6 three)
resize-Resized_example = resize-Resized fresh 6 three three-IsValid (omega arith) (omega arith)

plus-Indexes_example : Indexes three 1 3
plus-Indexes_example =
    plus-Indexes three three-IsValid 1 3 (omega arith) (omega arith) (omega arith)
