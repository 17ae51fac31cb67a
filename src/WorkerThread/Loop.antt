-- ===== src/WorkerThread/Loop.antt =====
-- The loop of a thread (`WorkerThread::start` of src/thread_pool.cpp) after `shutdown`.
use mathlib.Core.List.Perm
use priority_http_server.Prelude.{
  ℕ, zero, suc, ◌<◌, ◌≡◌, refl, true, false, Option, some, List, [], ◌∷◌, inl, inr, Perm, arith,
  length, length-perm,
}
use priority_http_server.Heap.{HeapAlgorithms, IsHeap}
use priority_http_server.TaskQueue.{
  PrioritizedTask, TaskQueue, PopOutcome, blocked, returned, compare_tasks,
}
use priority_http_server.TaskQueue
use priority_http_server.TaskQueue.Lists.{tasks-age, length-age}
use priority_http_server.TaskQueue.Pop.{PopEnds, waits, stops, takes, pop-PopEnds}
use priority_http_server.TaskQueue.Conservation.{tasks}
use priority_http_server.WorkerThread.{work}

-- The loop ended, executed each of the tasks once, and left an empty queue.
pub record Drained {ℓ} {T : Type ℓ} (q : TaskQueue T) (r : Option (List T × TaskQueue T))
    : Type ℓ where
  pub executed : List T
  pub final : TaskQueue T
  pub ends : r ≡ some (executed, final)
  pub all : Perm executed (tasks q.queue)
  pub empty : final.queue ≡ []

module _ {ℓ} {T : Type ℓ} (heaps : HeapAlgorithms (PrioritizedTask T) compare_tasks) where
  work-Drained-pop :
      (fuel : ℕ) (clock : ℕ → ℕ) (round : ℕ) (q : TaskQueue T) (r : PopOutcome T)
      → ((q' : TaskQueue T)
          → IsHeap compare_tasks q'.queue
          → q'.done ≡ true
          → q'.abort ≡ false
          → length q'.queue < fuel
          → Drained q' (work heaps fuel clock (suc round) q'))
      → TaskQueue.pop heaps (clock round) q ≡ r
      → PopEnds (clock round) q r
      → q.done ≡ true
      → q.abort ≡ false
      → length q.queue < suc fuel
      → Drained q (work heaps (suc fuel) clock round q)
  unfolding work
  work-Drained-pop fuel clock round q _ ih e (waits empty open_queue a) d b h = absurd (cc)
  work-Drained-pop fuel clock round q _ ih e (stops (inl a)) d b h = absurd (cc)
  work-Drained-pop fuel clock round q _ ih e (stops (inr s)) d b h = record {
    executed = [];
    final = q;
    ends = rw (e, work);
    all = rw s.0 Perm.nil;
    empty = s.0;
  }
  work-Drained-pop fuel clock round q _ ih e (takes item rest a t) d b h =
      let left = record q { queue = rest } in
      let r =
        ih left t.heap d b (omega (arith, length-perm t.split, length-age (clock round) q.queue)) in
      record {
        executed = item.task ∷ r.executed;
        final = r.final;
        ends = rw (e, r.ends, work);
        all =
            Perm.trans (Perm.cons item.task r.all)
              (rw (← tasks-age (clock round) q.queue) (Perm.map (λ x. x.task) t.split));
        empty = r.empty;
      }

  -- After `shutdown`, with no abort, the loop of a thread that is alone on a queue that is a heap
  -- ends by itself: it executes each queued task exactly once and leaves the queue empty. Fuel
  -- above their number is enough.
  pub work-Drained :
      (fuel : ℕ) (clock : ℕ → ℕ) (round : ℕ) (q : TaskQueue T)
      → IsHeap compare_tasks q.queue
      → q.done ≡ true
      → q.abort ≡ false
      → length q.queue < fuel
      → Drained q (work heaps fuel clock round q)
  work-Drained zero clock round q v d a h = absurd (omega arith)
  work-Drained (suc fuel) clock round q v d a h =
      work-Drained-pop fuel clock round q _
        (λ q' v' d' a' h'. work-Drained fuel clock (suc round) q' v' d' a' h') refl
        (pop-PopEnds heaps (clock round) q v) d a h
