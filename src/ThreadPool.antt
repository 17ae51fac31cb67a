-- ===== src/ThreadPool.antt =====
-- class ThreadPool (include/thread_pool.hpp, src/thread_pool.cpp): the workers over one queue, and
-- the shutdown that gives up on workers which are stuck. When worker `id` sets its promise is the
-- argument `exits`, given the time at which the queue was aborted (none before that).
pub mod Deadline
pub mod Shutdown
pub mod Workers
pub mod Crew
use priority_http_server.Prelude.{
  ℕ, zero, suc, ◌+◌, ◌-◌, ◌*◌, ◌/◌, Bool, true, false, Option, none, some, List, [], ◌∷◌, ◌==◌,
  if◌then◌else◌, length,
}
use priority_http_server.Prelude.Int.{ℤ, pos}
use priority_http_server.Heap.{HeapAlgorithms}
use priority_http_server.TaskQueue.{
  PrioritizedTask, TaskQueue, compare_tasks, task_queue, abort as abort_queue,
}
use priority_http_server.TaskQueue
use priority_http_server.WorkerThread.{WorkerThread, worker_thread, ms, join_with_timeout, abandon}
use priority_http_server.WorkerThread

pub record ThreadPool {ℓ} (T : Type ℓ) : Type ℓ where
  pub queue : TaskQueue T
  pub workers : List WorkerThread

-- kAbortGrace, in milliseconds
abbrev pub abort_grace : ℕ
abort_grace = 500

-- The loop of the constructor. `allocates i` is false if making worker i throws.
unfoldable pub make_workers : (ℕ → Bool) → ℕ → ℕ → Option (List WorkerThread)
make_workers allocates i zero = some []
make_workers allocates i (suc left) =
    let rest = make_workers allocates (suc i) left in
    if allocates i then elim rest [ none ↦ none | some ws ↦ some (worker_thread i ∷ ws) ] else none

-- `deadline - now`, cast to milliseconds, and at least 0.
unfoldable pub remaining : ℕ → ℕ → ℕ
remaining deadline now = (deadline - now) / ms

-- The first loop of `shutdownWithTimeout`: each worker, with true if it goes to `stillPending`.
unfoldable pub join_pass :
    (ℕ → Option ℕ) → ℕ → ℕ → List WorkerThread → List (WorkerThread × Bool) × ℕ
join_pass exits deadline now [] = ([], now)
join_pass exits deadline now (w ∷ ws) =
    let (joined, w', later) = join_with_timeout (exits w.id) (remaining deadline now) now w in
    let tried = join_pass exits deadline later ws in
    let skipped = join_pass exits deadline now ws in
    if w.abandoned
    then ((w, false) ∷ skipped.0, skipped.1)
    else ((w', if joined then false else true) ∷ tried.0, tried.1)

-- The second loop, over the workers that are marked: the workers, the number abandoned, the time.
unfoldable pub abandon_pass :
    (ℕ → Option ℕ) → ℕ → ℕ → List (WorkerThread × Bool) → List WorkerThread × ℕ × ℕ
abandon_pass exits deadline now [] = ([], 0, now)
abandon_pass exits deadline now ((w, pending) ∷ ws) =
    let (joined, w', later) = join_with_timeout (exits w.id) (remaining deadline now) now w in
    let tried = abandon_pass exits deadline later ws in
    let skipped = abandon_pass exits deadline now ws in
    if pending
    then if joined
      then (w' ∷ tried.0, tried.1, tried.2)
      else (abandon w' ∷ tried.0, suc tried.1, tried.2)
    else (w ∷ skipped.0, skipped.1, skipped.2)

-- `stillPending.empty()`
unfoldable pub none_pending : List (WorkerThread × Bool) → Bool
none_pending [] = true
none_pending ((w, pending) ∷ ws) = if pending then false else none_pending ws

unfoldable pub unmark : List (WorkerThread × Bool) → List WorkerThread
unmark [] = []
unmark ((w, pending) ∷ ws) = w ∷ unmark ws

-- `for (auto& w : m_workers) w->join()`; none if a worker never exits.
unfoldable pub join_all : (ℕ → Option ℕ) → ℕ → List WorkerThread → Option (List WorkerThread × ℕ)
join_all exits now [] = some ([], now)
join_all exits now (w ∷ ws) = elim (WorkerThread.join (exits w.id) now w) [
  | none ↦ none
  | some (w', later) ↦ elim (join_all exits later ws) [
    | none ↦ none
    | some (ws', end) ↦ some (w' ∷ ws', end)
  ]
]

-- The workers of a pool that is destroyed: when that is over.
unfoldable pub destroy_workers : (ℕ → Option ℕ) → ℕ → List WorkerThread → Option ℕ
destroy_workers exits now [] = some now
destroy_workers exits now (w ∷ ws) = elim (WorkerThread.destroy (exits w.id) now w) [
  | none ↦ none
  | some later ↦ destroy_workers exits later ws
]

-- The loop of `start`.
unfoldable pub start_all : List WorkerThread → List WorkerThread
start_all [] = []
start_all (w ∷ ws) = WorkerThread.start w ∷ start_all ws

-- What a shutdown leaves, with the number of abandoned workers and the time of its return.
pub record Stopped {ℓ} (T : Type ℓ) : Type ℓ where
  pub pool : ThreadPool T
  pub abandoned : ℕ
  pub time : ℕ

module _ {ℓ} {T : Type ℓ} where
  unfoldable pub thread_pool : (ℕ → Bool) → ℕ → ℕ → Option (ThreadPool T)
  unfolding make_workers
  thread_pool allocates num_threads max_queue_size =
      elim (make_workers allocates 0 (if num_threads == 0 then 1 else num_threads)) [
        | none ↦ none
        | some ws ↦ some (record { queue = task_queue max_queue_size; workers = ws })
      ]

  unfoldable pub start : ThreadPool T → ThreadPool T
  start p = record p { workers = start_all p.workers }

  unfoldable pub thread_count : ThreadPool T → ℕ
  thread_count p = length p.workers

  unfoldable pub pending_tasks : ThreadPool T → ℕ
  pending_tasks p = TaskQueue.size p.queue

  unfoldable pub shutdown : (ℕ → Option ℕ) → ℕ → ThreadPool T → Option (ThreadPool T × ℕ)
  shutdown exits now p = elim (join_all exits now p.workers) [
    | none ↦ none
    | some (ws, later) ↦ some (record { queue = TaskQueue.shutdown p.queue; workers = ws }, later)
  ]

  -- `~ThreadPool`, with the destructors of the workers.
  unfoldable pub destroy : (ℕ → Option ℕ) → ℕ → ThreadPool T → Option ℕ
  unfolding shutdown
  destroy exits now p = elim (shutdown exits now p) [
    | none ↦ none
    | some (p', later) ↦ destroy_workers exits later p'.workers
  ]

  -- The rest of `shutdownWithTimeout` when some workers are still pending.
  unfoldable pub abort_pending :
      (Option ℕ → ℕ → Option ℕ) → TaskQueue T → ℕ → List (WorkerThread × Bool) → Stopped T
  abort_pending exits q now ws =
      let (ws', abandoned, later) =
        abandon_pass (exits (some now)) (now + abort_grace * ms) now ws in
      record {
        pool = record { queue = abort_queue q; workers = ws' };
        abandoned = abandoned;
        time = later;
      }

  unfoldable pub shutdown_bounded : (Option ℕ → ℕ → Option ℕ) → ℕ → ℕ → ThreadPool T → Stopped T
  unfolding abort_pending
  shutdown_bounded exits timeout now p =
      let q = TaskQueue.shutdown p.queue in
      let (ws, later) = join_pass (exits none) (now + timeout * ms) now p.workers in
      if none_pending ws
      then record { pool = record { queue = q; workers = unmark ws }; abandoned = 0; time = later }
      else abort_pending exits q later ws

  -- `shutdownWithTimeout`, with the timeout in milliseconds; none if it never returns.
  unfoldable pub shutdown_with_timeout :
      (Option ℕ → ℕ → Option ℕ) → ℤ → ℕ → ThreadPool T → Option (Stopped T)
  shutdown_with_timeout exits (pos (suc timeout)) now p =
      some (shutdown_bounded exits (suc timeout) now p)
  shutdown_with_timeout exits _ now p = elim (shutdown (exits none) now p) [
    | none ↦ none
    | some (p', later) ↦ some (record { pool = p'; abandoned = 0; time = later })
  ]

  module _ (heaps : HeapAlgorithms (PrioritizedTask T) compare_tasks) where
    unfoldable pub submit : ℕ → T → ℤ → ThreadPool T → Bool × ThreadPool T
    submit now task priority p =
        let (accepted, q) = TaskQueue.push heaps now task priority p.queue in
        (accepted, record p { queue = q })
