-- ===== src/Tests/Queue.antt =====
-- The task queue on small inputs.
use priority_http_server.Prelude.{
  ℕ, ◌≡◌, refl, true, false, some, List, [], ◌∷◌, arith, Mem, subst, count_if,
}
use mathlib.Core.List.{mem-cons_self}
use priority_http_server.Prelude.Int.{pos, int_max}
use priority_http_server.Heap.{HeapAlgorithms}
use priority_http_server.Heap.Sorted.{sorted_heaps, sort_heap, pop_sorted}
use priority_http_server.TaskQueue.{
  PrioritizedTask, TaskQueue, compare_tasks, ready, after_wait, take_best, split_last, apply_aging,
  age_loop, overdue, task_queue, push, pop,
}
use priority_http_server.TaskQueue.Order.{compare_tasks_asymmetric, compare_tasks_weak_order}
use priority_http_server.TaskQueue.Pop.{PopEnds, pop-PopEnds}
use priority_http_server.TaskQueue.Invariant.{IsValid, task_queue-IsValid}
use priority_http_server.TaskQueue.Run.{Call, pushes, pops, shuts_down, step, run, run-IsValid}
use priority_http_server.TaskQueue.Conservation.{Conserves, tasks, run-Conserves}
use native.Mathlib.Nat.{ℕ_set}
use priority_http_server.TaskQueue.Line.{
  Line, accepts, gives, line_replies, line_call, line_push, line_pop, first_best,
}
use priority_http_server.TaskQueue.Snapshot.{replies, task_queue-Holds}
use priority_http_server.TaskQueue.Refinement.{replies-eq-line_replies}
use priority_http_server.TaskQueue.Fairness.{overdue_served}

abbrev pub heaps : HeapAlgorithms (PrioritizedTask ℕ) compare_tasks
heaps = sorted_heaps compare_tasks compare_tasks_asymmetric compare_tasks_weak_order

abbrev empty_queue : TaskQueue ℕ
empty_queue = task_queue 3

abbrev calls : List (Call ℕ)
calls =
    pushes 0 7 (pos 1)
    ∷ pushes 5 8 (pos 9)
    ∷ pushes 6 9 (pos 9)
    ∷ pushes 7 10 (pos 2)
    ∷ pops 10
    ∷ []

-- The fourth push finds the queue full; the earlier task of the highest priority comes out.
three_accepted : (run heaps calls empty_queue).accepted ≡ 7 ∷ 8 ∷ 9 ∷ []
unfolding run step push task_queue sort_heap compare_tasks pop ready after_wait take_best split_last
    pop_sorted apply_aging age_loop overdue
three_accepted = refl

first_taken : (run heaps calls empty_queue).taken ≡ 8 ∷ []
unfolding run step push task_queue sort_heap compare_tasks pop ready after_wait take_best split_last
    pop_sorted apply_aging age_loop overdue
first_taken = refl

run-IsValid_example : IsValid (run heaps calls empty_queue).final
unfolding task_queue
run-IsValid_example =
    run-IsValid heaps calls empty_queue
      (omega arith, (omega arith, (omega arith, (omega arith, tt)))) (omega arith)
      (task_queue-IsValid 3)

run-Conserves_example : Conserves (tasks empty_queue.queue) (run heaps calls empty_queue)
run-Conserves_example = run-Conserves heaps calls empty_queue (task_queue-IsValid 3).heap

-- One task, queued at time 0 with a low priority.
abbrev pub item : PrioritizedTask ℕ
item = record { priority = pos 1; order = 0; task = 7; added = 0; effective_priority = pos 1 }

abbrev pub one_queued : TaskQueue ℕ
one_queued = record {
  queue = item ∷ [];
  done = false;
  order = 1;
  max_queue_size = 3;
  abort = false;
}

one_queued_reached : (run heaps (pushes 0 7 (pos 1) ∷ []) empty_queue).final ≡ one_queued
unfolding run step push task_queue sort_heap compare_tasks pop ready after_wait take_best split_last
    pop_sorted apply_aging age_loop overdue
one_queued_reached = refl

pub one_queued-IsValid : IsValid one_queued
unfolding task_queue
one_queued-IsValid = subst IsValid one_queued_reached (
    run-IsValid heaps (pushes 0 7 (pos 1) ∷ []) empty_queue (omega arith, tt) (omega arith)
      (task_queue-IsValid 3))

-- Two pushes of the highest priority come before the `pop`.
abbrev late_calls : List (Call ℕ)
late_calls =
    pushes 1500000000 8 int_max ∷ pushes 1600000000 9 int_max ∷ shuts_down ∷ pops 2000000000 ∷ []

overdue_served_example : Mem 7 (run heaps late_calls one_queued).taken
unfolding count_if
overdue_served_example =
    overdue_served heaps late_calls one_queued item one_queued-IsValid mem-cons_self refl
      ((omega arith, omega arith, (omega arith, omega arith, (omega arith, tt)))) (omega arith)

pop-PopEnds_example : PopEnds 5 one_queued (pop heaps 5 one_queued)
pop-PopEnds_example = pop-PopEnds heaps 5 one_queued one_queued-IsValid.heap

abbrev empty_line : Line ℕ
empty_line = record { waiting = []; closed = false; aborted = false; limit = 3 }

replies-eq-line_replies_example : replies heaps calls empty_queue ≡ line_replies calls empty_line
unfolding task_queue
replies-eq-line_replies_example =
    replies-eq-line_replies ℕ_set heaps calls empty_queue empty_line
      (omega arith, (omega arith, (omega arith, (omega arith, tt)))) (omega arith)
      (task_queue-IsValid 3) (task_queue-Holds 3)

-- The fourth task is refused, and the earlier of the two of priority 9 is given.
line_gives :
    line_replies calls empty_line
    ≡ accepts true ∷ accepts true ∷ accepts true ∷ accepts false ∷ gives (some 8) ∷ []
unfolding line_replies line_call line_push line_pop first_best
line_gives = refl
