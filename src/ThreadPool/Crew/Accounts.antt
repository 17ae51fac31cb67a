-- ===== src/ThreadPool/Crew/Accounts.antt =====
-- Where the accepted tasks are (src/thread_pool.cpp): executed, in the hands of a thread, or queued.
use mathlib.Core.List.{append-nil, append_assoc, map-append, perm_middle}
use mathlib.Core.List.Perm
use priority_http_server.Prelude.{
  ℕ, zero, suc, ◌≡◌, refl, List, [], ◌∷◌, ◌++◌, ◌||◌, leb, length, inl, inr, Perm, Bool-cases,
}
use priority_http_server.Prelude.Int.{ℤ}
use priority_http_server.Heap.{HeapAlgorithms, IsHeap}
use priority_http_server.TaskQueue.{
  PrioritizedTask, TaskQueue, PopOutcome, compare_tasks, push, pop, shutdown, abort,
}
use priority_http_server.TaskQueue.Lists.{tasks-age}
use priority_http_server.TaskQueue.Pop.{PopEnds, waits, stops, takes, pop-PopEnds}
use priority_http_server.TaskQueue.Conservation.{tasks}
use priority_http_server.WorkerThread.{WorkerThread}
use priority_http_server.ThreadPool.{ThreadPool}
use priority_http_server.ThreadPool.Crew.{
  Doing, at_pop, executing, exited, Crew, Event, submits, resumes, shuts_down, aborts, fetched,
  submitted, started, crew, advance, advance_at, turn, turns,
}

module _ {ℓ} {T : Type ℓ} where
  -- The tasks that the threads are executing.
  abbrev pub running : List (Doing T) → List T
  running [] = []
  running (at_pop ∷ ds) = running ds
  running (executing t ∷ ds) = t ∷ running ds
  running (exited ∷ ds) = running ds

  pub record Accounts (c : Crew T) : Type ℓ where
    pub heap : IsHeap compare_tasks c.queue.queue
    pub same : Perm (c.finished ++ (running c.threads ++ tasks c.queue.queue)) c.accepted

  pub running-started : (ws : List WorkerThread) → running (started {T = T} ws) ≡ []
  running-started [] = refl
  running-started (w ∷ ws) = running-started ws

  pub crew-Accounts : (p : ThreadPool T) → IsHeap compare_tasks p.queue.queue → Accounts (crew p)
  unfolding crew
  crew-Accounts p h = record { heap = h; same = rw running-started Perm.rfl }

  -- One step of a thread moves a task on, or leaves all as it was.
  pub record Moves (q : TaskQueue T) (before : List T) (now_running : List T) (ended : List T)
      (left : TaskQueue T) : Type ℓ where
    pub heap : IsHeap compare_tasks left.queue
    pub same : Perm (ended ++ (now_running ++ tasks left.queue)) (before ++ tasks q.queue)

  fetched-Moves :
      (now : ℕ) (q : TaskQueue T) (r : PopOutcome T) (ds : List (Doing T))
      → IsHeap compare_tasks q.queue
      → PopEnds now q r
      → let step = fetched q r in
        Moves q (running ds) (running (step.doing ∷ ds)) step.ended step.left
  fetched-Moves now q _ ds h (waits e d a) = record { heap = h; same = Perm.rfl }
  fetched-Moves now q _ ds h (stops s) = record { heap = h; same = Perm.rfl }
  fetched-Moves now q _ ds h (takes item rest a t) = record {
    heap = t.heap;
    same = Perm.trans (Perm.symm (perm_middle (running ds) (tasks rest))) (
        Perm.append_left (running ds)
          (rw (← tasks-age now q.queue) (Perm.map (λ x. x.task) t.split)));
  }

  module _ (heaps : HeapAlgorithms (PrioritizedTask T) compare_tasks) where
    advance-Moves :
        (now : ℕ) (q : TaskQueue T) (d : Doing T) (ds : List (Doing T))
        → IsHeap compare_tasks q.queue
        → let step = advance heaps now q d in
          Moves q (running (d ∷ ds)) (running (step.doing ∷ ds)) step.ended step.left
    unfolding advance
    advance-Moves now q at_pop ds h =
        fetched-Moves now q (pop heaps now q) ds h (pop-PopEnds heaps now q h)
    advance-Moves now q (executing t) ds h = record { heap = h; same = Perm.rfl }
    advance-Moves now q exited ds h = record { heap = h; same = Perm.rfl }

    pub advance_at-Moves :
        (i now : ℕ) (q : TaskQueue T) (ds : List (Doing T))
        → IsHeap compare_tasks q.queue
        → let step = advance_at heaps i now q ds in
          Moves q (running ds) (running step.doing) step.ended step.left
    unfolding advance_at
    advance_at-Moves i now q [] h = record { heap = h; same = Perm.rfl }
    advance_at-Moves zero now q (d ∷ ds) h = advance-Moves now q d ds h
    advance_at-Moves (suc i) now q (at_pop ∷ ds) h = advance_at-Moves i now q ds h
    advance_at-Moves (suc i) now q (executing t ∷ ds) h =
        let m = advance_at-Moves i now q ds h in
        record {
          heap = m.heap;
          same =
              Perm.trans (perm_middle (advance_at heaps i now q ds).ended _) (Perm.cons t m.same);
        }
    advance_at-Moves (suc i) now q (exited ∷ ds) h = advance_at-Moves i now q ds h

    submitted-Accounts :
        (now : ℕ) (task : T) (priority : ℤ) (c : Crew T)
        → Accounts c
        → Accounts (submitted task c (push heaps now task priority c.queue))
    unfolding push
    submitted-Accounts now task priority c v =
        elim (Bool-cases (c.queue.done || leb c.queue.max_queue_size (length c.queue.queue))) [
          | inl e ↦ rw e (record { heap = v.heap; same = rw append-nil v.same })
          | inr e ↦ rw e (record {
            heap = heaps.push_heap-IsHeap c.queue.queue _ v.heap;
            same =
                Perm.trans
                  (Perm.append_left c.finished (
                    Perm.append_left (running c.threads)
                      (Perm.map (λ x. x.task) (heaps.push_heap-perm _))))
                  (rw (map-append (λ x. x.task) c.queue.queue, ← append_assoc, ← append_assoc)
                    (Perm.append_right (task ∷ []) (rw append_assoc v.same)));
          })
        ]

    pub turn-Accounts : (e : Event T) (c : Crew T) → Accounts c → Accounts (turn heaps e c)
    unfolding turn shutdown abort
    turn-Accounts (submits now task priority) c v = submitted-Accounts now task priority c v
    turn-Accounts (resumes i now) c v =
        let m = advance_at-Moves i now c.queue c.threads v.heap in
        record {
          heap = m.heap;
          same = rw append_assoc (Perm.trans (Perm.append_left c.finished m.same) v.same);
        }
    turn-Accounts shuts_down c v = record { heap = v.heap; same = v.same }
    turn-Accounts aborts c v = record { heap = v.heap; same = v.same }

    -- With any number of threads, whatever the order in which they run among submissions, shutdown
    -- and abort, each accepted task is, exactly once, among the finished tasks, those that a thread
    -- is executing and those still queued, where it was so at the start.
    pub turns-Accounts :
        (es : List (Event T)) (c : Crew T) → Accounts c → Accounts (turns heaps es c)
    unfolding turns
    turns-Accounts [] c v = v
    turns-Accounts (e ∷ es) c v = turns-Accounts es (turn heaps e c) (turn-Accounts e c v)
