-- ===== src/WorkerThread.antt =====
-- class WorkerThread (include/thread_pool.hpp, src/thread_pool.cpp). Times are nanoseconds of the
-- steady clock. When the promise of a worker is set is up to the task that its thread runs: it is
-- an argument, `exits`, with none for a thread that never comes back. Code between two waits takes
-- no time.
pub mod Loop
use priority_http_server.Prelude.{
  ℕ, zero, suc, ◌+◌, ◌*◌, Bool, true, false, Option, none, some, List, [], ◌∷◌, leb, ltb,
  if◌then◌else◌,
}
use priority_http_server.Heap.{HeapAlgorithms}
use priority_http_server.TaskQueue.{PrioritizedTask, TaskQueue, blocked, returned, compare_tasks}
use priority_http_server.TaskQueue

-- `joinable` is that of `m_thread`; `id` tells the workers of a pool apart.
pub record WorkerThread : Type 0 where
  pub id : ℕ
  pub joinable : Bool
  pub abandoned : Bool

-- A millisecond, in nanoseconds.
abbrev pub ms : ℕ
ms = 1000000

unfoldable pub worker_thread : ℕ → WorkerThread
worker_thread id = record { id = id; joinable = false; abandoned = false }

unfoldable pub start : WorkerThread → WorkerThread
start w = record w { joinable = true }

-- `m_thread.join()`: it returns when the thread has exited.
unfoldable pub thread_join : Option ℕ → ℕ → WorkerThread → Option (WorkerThread × ℕ)
thread_join none now w = none
thread_join (some t) now w = some (record w { joinable = false }, if ltb now t then t else now)

-- `join` returns at once if there is no thread to join.
unfoldable pub join : Option ℕ → ℕ → WorkerThread → Option (WorkerThread × ℕ)
unfolding thread_join
join exits now w = if w.joinable then thread_join exits now w else some (w, now)

-- `m_doneFuture.wait_for(timeout)`, with the time in milliseconds: whether the promise was set in
-- time, and when the wait ended.
unfoldable pub wait_for : Option ℕ → ℕ → ℕ → Bool × ℕ
wait_for none timeout now = (false, now + timeout * ms)
wait_for (some t) timeout now =
    if leb t (now + timeout * ms)
    then (true, if ltb now t then t else now)
    else (false, now + timeout * ms)

-- `joinWithTimeout`; the `join` inside it follows the end of the thread.
unfoldable pub join_with_timeout : Option ℕ → ℕ → ℕ → WorkerThread → Bool × WorkerThread × ℕ
unfolding wait_for
join_with_timeout exits timeout now w =
    let (ready, later) = wait_for exits timeout now in
    if w.abandoned
    then (false, w, now)
    else if ready
    then (true, record w { joinable = false }, later)
    else (false, w, later)

unfoldable pub abandon : WorkerThread → WorkerThread
abandon w = record w { joinable = false; abandoned = true }

-- `~WorkerThread`: when it is over; none if it never is.
unfoldable pub destroy : Option ℕ → ℕ → WorkerThread → Option ℕ
unfolding join
destroy exits now w =
    if w.abandoned
    then some now
    else elim (join exits now w) [ none ↦ none | some (w', later) ↦ some later ]

module _ {ℓ} {T : Type ℓ} (heaps : HeapAlgorithms (PrioritizedTask T) compare_tasks) where
  -- The loop of the thread: the tasks that it executes, in order, and the queue that it leaves.
  -- `clock` gives the time of its successive calls of `pop`. None: the loop waits in `pop`, or
  -- the fuel is used up.
  unfoldable pub work : ℕ → (ℕ → ℕ) → ℕ → TaskQueue T → Option (List T × TaskQueue T)
  work zero clock round q = none
  work (suc fuel) clock round q = elim (TaskQueue.pop heaps (clock round) q) [
    | blocked ↦ none
    | returned none q' ↦ some ([], q')
    | returned (some task) q' ↦ elim (work fuel clock (suc round) q') [
      | none ↦ none
      | some (executed, q'') ↦ some (task ∷ executed, q'')
    ]
  ]
