-- ===== src/Tests/Pool.antt =====
-- The thread pool and its workers on small inputs.
use priority_http_server.Prelude.{
  ℕ, ◌+◌, ◌*◌, ◌≡◌, refl, true, false, List, [], ◌∷◌, Option, none, some, arith, if◌then◌else◌,
  ◌==◌,
}
use priority_http_server.Prelude.Int.{pos}
use priority_http_server.TaskQueue.{TaskQueue}
use priority_http_server.TaskQueue.Invariant.{flags-IsValid}
use priority_http_server.WorkerThread.{WorkerThread, work, ms}
use priority_http_server.WorkerThread.Loop.{Drained, work-Drained}
use priority_http_server.ThreadPool.{ThreadPool, Stopped, shutdown_with_timeout, destroy}
use priority_http_server.ThreadPool.Shutdown.{StopsInTime, shutdown_with_timeout-StopsInTime}
use priority_http_server.Tests.Queue.{heaps, one_queued, one_queued-IsValid}

abbrev closed_queue : TaskQueue ℕ
closed_queue = record one_queued { done = true }

work-Drained_example : Drained closed_queue (work heaps 2 (λ round. 50 + round) 0 closed_queue)
work-Drained_example =
    work-Drained heaps 2 (λ round. 50 + round) 0 closed_queue
      (flags-IsValid one_queued true false one_queued-IsValid).heap refl refl (omega arith)

-- Worker 1 never ends; worker 0 does after 3 ms.
abbrev stuck : Option ℕ → ℕ → Option ℕ
stuck aborted id = if id == 0 then some (3 * ms) else none

abbrev workers : List WorkerThread
workers =
    record { id = 0; joinable = true; abandoned = false }
    ∷ record { id = 1; joinable = true; abandoned = false }
    ∷ []

abbrev pool : ThreadPool ℕ
pool = record { queue = one_queued; workers = workers }

shutdown_with_timeout-StopsInTime_example :
    (r : Stopped ℕ) × (shutdown_with_timeout stuck (pos 20) 0 pool ≡ some r)
    × StopsInTime 0 20 workers r
    × ((ends : ℕ → Option ℕ) (later : ℕ) → destroy ends later r.pool ≡ some later)
shutdown_with_timeout-StopsInTime_example =
    shutdown_with_timeout-StopsInTime stuck 19 0 pool ((λ a. absurd (cc)), ((λ a. absurd (cc)), tt))
