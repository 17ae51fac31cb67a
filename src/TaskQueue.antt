-- ===== src/TaskQueue.antt =====
-- class TaskQueue (include/thread_pool.hpp, src/thread_pool.cpp): a bounded priority queue of
-- tasks with aging. Every method holds the mutex for its whole body, so a call is one step. The
-- condition variable shows as the outcome `blocked` of `pop`. Times are nanoseconds of the steady
-- clock, given to each call that reads it; `-` on them stops at 0, where the difference of the
-- source is negative, and neither exceeds the threshold.
pub mod Order
pub mod Lists
pub mod Pop
pub mod Invariant
pub mod Run
pub mod Conservation
pub mod Fairness
pub mod Line
pub mod Refinement
pub mod Best
pub mod Snapshot
use priority_http_server.Prelude.{
  ℕ, ◌+◌, ◌-◌, ◌%◌, Bool, true, false, not, ◌||◌, List, [], ◌∷◌, ◌++◌, Option, none, some, ltb, leb,
  if◌then◌else◌, length, is_empty,
}
use priority_http_server.Prelude.Int.{ℤ, ltb_ℤ, eqb_ℤ, int_max, size_mod}
use priority_http_server.Heap.{HeapAlgorithms}

pub record PrioritizedTask {ℓ} (T : Type ℓ) : Type ℓ where
  pub priority : ℤ
  pub order : ℕ
  pub task : T
  pub added : ℕ
  pub effective_priority : ℤ

pub record TaskQueue {ℓ} (T : Type ℓ) : Type ℓ where
  pub queue : List (PrioritizedTask T)
  pub done : Bool
  pub order : ℕ
  pub max_queue_size : ℕ
  pub abort : Bool

-- The call of `pop` waits, or returns a task (none for a null pointer).
pub data PopOutcome {ℓ} (T : Type ℓ) : Type ℓ where
  blocked : PopOutcome T
  returned : Option T → TaskQueue T → PopOutcome T

-- AGING_THRESHOLD, one second
abbrev pub aging_threshold : ℕ
aging_threshold = 1000000000

module _ {ℓ} {T : Type ℓ} where
  -- Compare::operator()
  unfoldable pub compare_tasks : PrioritizedTask T → PrioritizedTask T → Bool
  compare_tasks lhs rhs =
      if not (eqb_ℤ lhs.effective_priority rhs.effective_priority)
      then ltb_ℤ lhs.effective_priority rhs.effective_priority
      else ltb rhs.order lhs.order

  unfoldable pub task_queue : ℕ → TaskQueue T
  task_queue max_queue_size = record {
    queue = [];
    done = false;
    order = 0;
    max_queue_size = max_queue_size;
    abort = false;
  }

  -- The test of the loop in `applyAging`.
  unfoldable pub overdue : ℕ → PrioritizedTask T → Bool
  overdue now item = ltb aging_threshold (now - item.added)

  abbrev pub raised : PrioritizedTask T → PrioritizedTask T
  raised item = record item { effective_priority = int_max }

  -- The loop of `applyAging`: the items after it, and `anyAged`.
  unfoldable pub age_loop : ℕ → List (PrioritizedTask T) → List (PrioritizedTask T) × Bool
  age_loop now [] = ([], false)
  age_loop now (item ∷ items) =
      let (rest, any_aged) = age_loop now items in
      if overdue now item then (raised item ∷ rest, true) else (item ∷ rest, any_aged)

  -- `back()` and `pop_back()`: the list without its last element, and that element.
  unfoldable pub split_last :
      List (PrioritizedTask T) → Option (List (PrioritizedTask T) × PrioritizedTask T)
  split_last [] = none
  split_last (x ∷ xs) = elim (split_last xs) [
    | none ↦ some ([], x)
    | some (ys, y) ↦ some (x ∷ ys, y)
  ]

  unfoldable pub shutdown : TaskQueue T → TaskQueue T
  shutdown q = record q { done = true }

  unfoldable pub abort : TaskQueue T → TaskQueue T
  abort q = record q { abort = true }

  unfoldable pub size : TaskQueue T → ℕ
  size q = length q.queue

  -- The predicate that `pop` waits for.
  unfoldable pub ready : TaskQueue T → Bool
  ready q = not (is_empty q.queue) || q.done || q.abort

  module _ (heaps : HeapAlgorithms (PrioritizedTask T) compare_tasks) where
    open heaps use {push_heap, pop_heap, make_heap}

    unfoldable pub push : ℕ → T → ℤ → TaskQueue T → Bool × TaskQueue T
    push now task priority q =
        if q.done || leb q.max_queue_size (length q.queue) then (false, q) else (
          true,
          record q { queue = push_heap (q.queue ++ item ∷ []); order = (q.order + 1) % size_mod },
        )
      where
        item : PrioritizedTask T
        item = record {
          priority = priority;
          order = q.order;
          task = task;
          added = now;
          effective_priority = priority;
        }

    unfoldable pub apply_aging : ℕ → List (PrioritizedTask T) → List (PrioritizedTask T)
    apply_aging now items =
        let (aged, any_aged) = age_loop now items in if any_aged then make_heap aged else aged

    -- The body of `pop` after the wait, when the queue is not empty.
    unfoldable pub take_best : ℕ → TaskQueue T → Option T × TaskQueue T
    take_best now q = elim (split_last (pop_heap (apply_aging now q.queue))) [
      | none ↦ (none, q)
      | some (rest, item) ↦ (some item.task, record q { queue = rest })
    ]

    unfoldable pub after_wait : ℕ → TaskQueue T → Option T × TaskQueue T
    after_wait now q =
        if q.abort then (none, q) else if not (is_empty q.queue) then take_best now q else (none, q)

    unfoldable pub pop : ℕ → TaskQueue T → PopOutcome T
    pop now q = let (task, q') = after_wait now q in if ready q then returned task q' else blocked
