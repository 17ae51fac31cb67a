-- ===== src/ThreadPool/Crew.antt =====
-- The threads of a pool over its queue (src/thread_pool.cpp): the lambda of `WorkerThread::start` in
-- every worker, interleaved in any order with the calls of the pool's owner and of its clients.
-- A thread runs from one of its waits to the next as one step: it waits in `pop`, or its task runs.
-- A task that never ends is a thread that no event resumes again.
pub mod Accounts
pub mod Ending
pub mod Progress
pub mod Completion
use priority_http_server.Prelude.{
  ℕ, zero, suc, Bool, List, [], ◌∷◌, ◌++◌, map, none, some, if◌then◌else◌,
}
use priority_http_server.Prelude.Int.{ℤ}
use priority_http_server.Heap.{HeapAlgorithms}
use priority_http_server.TaskQueue.{
  PrioritizedTask, TaskQueue, PopOutcome, blocked, returned, compare_tasks, push, pop, shutdown,
  abort,
}
use priority_http_server.WorkerThread.{WorkerThread}
use priority_http_server.ThreadPool.{ThreadPool}

-- Where a thread is: at the call of `pop`, in `task->execute()`, or past the loop.
pub data Doing {ℓ} (T : Type ℓ) : Type ℓ where
  at_pop : Doing T
  executing : T → Doing T
  exited : Doing T

-- `accepted` and `finished` record what the clients submitted and what was executed to its end.
pub record Crew {ℓ} (T : Type ℓ) : Type ℓ where
  pub queue : TaskQueue T
  pub threads : List (Doing T)
  pub accepted : List T
  pub finished : List T

pub data Event {ℓ} (T : Type ℓ) : Type ℓ where
  submits : ℕ → T → ℤ → Event T
  -- Thread `i` goes on, at a time.
  resumes : ℕ → ℕ → Event T
  shuts_down : Event T
  aborts : Event T

-- What one step of a thread makes of it and the queue, and the task that it finished.
pub record Advance {ℓ} (T : Type ℓ) (D : Type ℓ) : Type ℓ where
  pub doing : D
  pub left : TaskQueue T
  pub ended : List T

module _ {ℓ} {T : Type ℓ} where
  abbrev pub fetched : TaskQueue T → PopOutcome T → Advance T (Doing T)
  fetched q blocked = record { doing = at_pop; left = q; ended = [] }
  fetched q (returned none q') = record { doing = exited; left = q'; ended = [] }
  fetched q (returned (some t) q') = record { doing = executing t; left = q'; ended = [] }

  abbrev pub submitted : T → Crew T → Bool × TaskQueue T → Crew T
  submitted task c (ok, q) = record c {
    queue = q;
    accepted = c.accepted ++ (if ok then task ∷ [] else []);
  }

  abbrev pub started : List WorkerThread → List (Doing T)
  started [] = []
  started (w ∷ ws) = at_pop ∷ started ws

  -- The threads that `ThreadPool::start` starts, over the tasks that are queued by then.
  unfoldable pub crew : ThreadPool T → Crew T
  crew p = record {
    queue = p.queue;
    threads = started p.workers;
    accepted = map (λ x. x.task) p.queue.queue;
    finished = [];
  }

  module _ (heaps : HeapAlgorithms (PrioritizedTask T) compare_tasks) where
    unfoldable pub advance : ℕ → TaskQueue T → Doing T → Advance T (Doing T)
    advance now q at_pop = fetched q (pop heaps now q)
    advance now q (executing t) = record { doing = at_pop; left = q; ended = t ∷ [] }
    advance now q exited = record { doing = exited; left = q; ended = [] }

    unfoldable pub advance_at : ℕ → ℕ → TaskQueue T → List (Doing T) → Advance T (List (Doing T))
    advance_at i now q [] = record { doing = []; left = q; ended = [] }
    advance_at zero now q (d ∷ ds) =
        let step = advance now q d in
        record { doing = step.doing ∷ ds; left = step.left; ended = step.ended }
    advance_at (suc i) now q (d ∷ ds) =
        let step = advance_at i now q ds in
        record { doing = d ∷ step.doing; left = step.left; ended = step.ended }

    unfoldable pub turn : Event T → Crew T → Crew T
    turn (submits now task priority) c = submitted task c (push heaps now task priority c.queue)
    turn (resumes i now) c =
        let step = advance_at i now c.queue c.threads in
        record c { queue = step.left; threads = step.doing; finished = c.finished ++ step.ended }
    turn shuts_down c = record c { queue = shutdown c.queue }
    turn aborts c = record c { queue = abort c.queue }

    unfoldable pub turns : List (Event T) → Crew T → Crew T
    turns [] c = c
    turns (e ∷ es) c = turns es (turn e c)
