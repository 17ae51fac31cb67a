-- ===== src/TaskQueue/Conservation.antt =====
-- The tasks that the calls of TaskQueue (src/thread_pool.cpp) take in, return and keep.
use mathlib.Core.List.{append-nil, append_assoc, map-append}
use mathlib.Core.List.Perm
use priority_http_server.Prelude.{
  ℕ, ◌≡◌, refl, true, List, [], ◌∷◌, ◌++◌, ◌||◌, map, inl, inr, Perm, leb, length, Bool-cases,
}
use priority_http_server.Prelude.Int.{ℤ}
use priority_http_server.Heap.{HeapAlgorithms, IsHeap}
use priority_http_server.TaskQueue.{
  PrioritizedTask, TaskQueue, PopOutcome, compare_tasks, push, pop, shutdown, abort,
}
use priority_http_server.TaskQueue.Lists.{tasks-age}
use priority_http_server.TaskQueue.Pop.{PopEnds, waits, stops, takes, pop-PopEnds}
use priority_http_server.TaskQueue.Run.{
  Call, pushes, pops, shuts_down, aborts, History, popped, pushed, step, run,
}

abbrev pub tasks {ℓ} : {T : Type ℓ} → List (PrioritizedTask T) → List T
tasks = map (λ x. x.task)

-- A history from a queue with the tasks `before`: what came out and what is left are what was
-- there and what came in; the queue is still a heap.
pub record Conserves {ℓ} {T : Type ℓ} (before : List T) (h : History T) : Type ℓ where
  pub heap : IsHeap compare_tasks h.final.queue
  pub same : Perm (h.taken ++ tasks h.final.queue) (before ++ h.accepted)

module _ {ℓ} {T : Type ℓ} (heaps : HeapAlgorithms (PrioritizedTask T) compare_tasks) where
  unchanged :
      (q r : TaskQueue T)
      → IsHeap compare_tasks q.queue
      → r.queue ≡ q.queue
      → Conserves (tasks q.queue) (record { accepted = []; taken = []; final = r })
  unchanged q r h e = record { heap = rw e h; same = rw (e, append-nil) Perm.rfl }

  pub push-Conserves :
      (now : ℕ) (task : T) (priority : ℤ) (q : TaskQueue T)
      → IsHeap compare_tasks q.queue
      → Conserves (tasks q.queue) (pushed task (push heaps now task priority q))
  unfolding push
  push-Conserves now task priority q h =
      elim (Bool-cases (q.done || leb q.max_queue_size (length q.queue))) [
        | inl e ↦ rw e (unchanged q q h refl)
        | inr e ↦ rw e (record {
          heap = heaps.push_heap-IsHeap q.queue _ h;
          same =
              Perm.trans (Perm.map (λ x. x.task) (heaps.push_heap-perm _))
                (rw (map-append (λ x. x.task) q.queue) Perm.rfl);
        })
      ]

  popped-Conserves :
      (now : ℕ) (q : TaskQueue T) (r : PopOutcome T)
      → IsHeap compare_tasks q.queue
      → PopEnds now q r
      → Conserves (tasks q.queue) (popped q r)
  popped-Conserves now q _ h (waits e d a) = unchanged q q h refl
  popped-Conserves now q _ h (stops s) = unchanged q q h refl
  popped-Conserves now q _ h (takes item rest a t) = record {
    heap = t.heap;
    same = rw (append-nil, ← tasks-age now q.queue) (Perm.map (λ x. x.task) t.split);
  }

  step-Conserves :
      (call : Call T) (q : TaskQueue T)
      → IsHeap compare_tasks q.queue
      → Conserves (tasks q.queue) (step heaps call q)
  unfolding step shutdown abort
  step-Conserves (pushes now task priority) q h = push-Conserves now task priority q h
  step-Conserves (pops now) q h =
      popped-Conserves now q (pop heaps now q) h (pop-PopEnds heaps now q h)
  step-Conserves shuts_down q h = unchanged q (record q { done = true }) h refl
  step-Conserves aborts q h = unchanged q (record q { abort = true }) h refl

  -- In every history from a queue that is a heap, the tasks that `pop` returned and those still
  -- queued are, each as often, the tasks queued at the start and those that `push` accepted; and
  -- the queue is a heap again.
  pub run-Conserves :
      (calls : List (Call T)) (q : TaskQueue T)
      → IsHeap compare_tasks q.queue
      → Conserves (tasks q.queue) (run heaps calls q)
  unfolding run
  run-Conserves [] q h = unchanged q q h refl
  run-Conserves (call ∷ calls) q h =
      let first = step heaps call q in
      let s = step-Conserves call q h in
      let r = run-Conserves calls first.final s.heap in
      record {
        heap = r.heap;
        same = rw append_assoc (
            Perm.trans (Perm.append_left first.taken r.same)
              (rw (← append_assoc, ← append_assoc) (Perm.append_right _ s.same)));
      }
